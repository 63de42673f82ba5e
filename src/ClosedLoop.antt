-- ===== src/ClosedLoop.antt =====
-- src/money_machine/assets/closed_loop_store.py: the ledger of the loop's triggers, and the confirmation
-- of a cull from a fixture's status. Times are seconds; a window's start stands in a key as text.
pub mod Ledger
pub mod Confirmation
mod Tests
use Prim.Native.String.{◌++◌ as ◌<>◌}
use money_machine.Base.{
  ℕ, String, Bool, true, false, not, ◌&&◌, Option, none, some, List, [], ◌∷◌, ◌++◌, exists, ◌==◌,
  str_eq, if◌then◌else◌, strip,
}
use money_machine.Domain.{EventName, DecisionType, is_event}
use money_machine.Domain.EventName.{listing_culled}
use money_machine.Domain.DecisionType.{hold, repair, cull, multiply}
use money_machine.Results.{Result, done, refused, check, present, ◌>>=◌, ◌>>◌}
use money_machine.Eligibility.Models.{PortfolioResult}

pub data TriggerKind : Type 0 where
  weekly_review monthly_deep_pass build_slot : TriggerKind

pub data FixtureStatus : Type 0 where
  confirmed unknown failed : FixtureStatus

-- the codes of `ClosedLoopRefusal`
pub data LoopRefusal : Type 0 where
  collection_listing record_kind monthly_jobs monthly_shop : LoopRefusal
  already_culled deactivation_job lesson_empty : LoopRefusal

pub record StoredTrigger : Type 0 where
  pub shop_id : ℕ
  pub trigger_kind : TriggerKind
  pub trigger_key : String
  pub cron_expression : String
  pub next_fire_at : ℕ
  pub active : Bool

pub record LessonRow : Type 0 where
  pub listing_id : ℕ
  pub deactivation_job_id : ℕ
  pub lesson : String
  pub retained : Bool

pub record CullConfirmation : Type 0 where
  pub event_names : List EventName
  pub lesson : Option LessonRow
  pub retained_artifact_ids : List ℕ
  pub deactivation_executed : Bool

-- `CollectionRecord` and `PlannedJob` of metrics_fixture.py, as far as they are read here
pub data RecordKind : Type 0 where
  collection shop_review other : RecordKind

pub record CollectionRecord : Type 0 where
  pub kind : RecordKind
  pub window_start : ℕ
  pub listing_id : Option ℕ

pub record MonthlyRecord : Type 0 where
  pub window_start : ℕ
  pub window_end : ℕ
  pub job_shop_ids : List ℕ

-- `TriggerLedger`: the rows in the order of their insertion
abbrev pub TriggerLedger : Type 0
TriggerLedger = List StoredTrigger

unfoldable pub has_trigger : String → TriggerLedger → Bool
has_trigger key ledger = exists (λ row. str_eq row.trigger_key key) ledger

-- `TriggerLedger.insert`: the new row, if its key is new
unfoldable pub insert : StoredTrigger → TriggerLedger → Option StoredTrigger × TriggerLedger
insert row ledger =
    if has_trigger row.trigger_key ledger then (none, ledger) else (some row, ledger ++ (row ∷ []))

-- `inserted.append(stored)`
abbrev pub noted : Option StoredTrigger → List StoredTrigger → List StoredTrigger
noted none rows = rows
noted (some row) rows = row ∷ rows

module _ (uuid_text : ℕ → String) (iso : ℕ → String) where
  -- the key of a record of the weekly plan
  unfoldable pub weekly_key :
      ℕ → CollectionRecord → RecordKind → Option ℕ → Result LoopRefusal String
  weekly_key shop record' collection none = refused collection_listing
  weekly_key shop record' collection (some listing) = done (
      "weekly:"
      <> (uuid_text shop
          <> (":collection:" <> (uuid_text listing <> (":" <> iso record'.window_start)))))
  weekly_key shop record' shop_review listing =
      done ("weekly:" <> (uuid_text shop <> (":shop-review:" <> iso record'.window_start)))
  weekly_key shop record' other listing = refused record_kind

  unfoldable pub weekly_row : ℕ → ℕ → String → StoredTrigger
  weekly_row shop next_fire_at key = record {
    shop_id = shop;
    trigger_kind = weekly_review;
    trigger_key = key;
    cron_expression = "0 9 * * 1";
    next_fire_at = next_fire_at;
    active = true;
  }

  -- the loop body for a record with its key, before the records after it
  unfoldable pub persist_record :
      ℕ
      → ℕ
      → Result LoopRefusal String
      → (TriggerLedger → Result LoopRefusal (List StoredTrigger) × TriggerLedger)
      → TriggerLedger
      → Result LoopRefusal (List StoredTrigger) × TriggerLedger
  persist_record shop next_fire_at (refused e) later ledger = (refused e, ledger)
  persist_record shop next_fire_at (done key) later ledger =
      let (stored, ledger') = insert (weekly_row shop next_fire_at key) ledger in
      let (answer, ledger'') = later ledger' in
      (answer >>= (λ rows. done (noted stored rows)), ledger'')

  -- `persist_weekly_plan`: the inserted rows, or the refusal of a record, after which the rows before it
  -- stay in the ledger
  unfoldable pub persist_weekly_plan :
      ℕ
      → ℕ
      → List CollectionRecord
      → TriggerLedger
      → Result LoopRefusal (List StoredTrigger) × TriggerLedger
  persist_weekly_plan shop next_fire_at [] ledger = (done [], ledger)
  persist_weekly_plan shop next_fire_at (r ∷ records) ledger =
      persist_record shop next_fire_at (weekly_key shop r r.kind r.listing_id)
        (persist_weekly_plan shop next_fire_at records) ledger

  monthly_row : ℕ → MonthlyRecord → StoredTrigger
  monthly_row shop r = record {
    shop_id = shop;
    trigger_kind = monthly_deep_pass;
    trigger_key = "monthly:" <> (uuid_text shop <> (":" <> iso r.window_start));
    cron_expression = "0 9 1 * *";
    next_fire_at = r.window_end;
    active = true;
  }

  monthly_jobs_row :
      MonthlyRecord
      → List ℕ
      → TriggerLedger
      → Result LoopRefusal (Option StoredTrigger) × TriggerLedger
  unfolding monthly_row
  monthly_jobs_row r [] ledger = (refused monthly_jobs, ledger)
  monthly_jobs_row r (shop ∷ shops) ledger =
      if exists (λ s. not (s == shop)) (shop ∷ shops)
      then (refused monthly_shop, ledger)
      else (let (stored, ledger') = insert (monthly_row shop r) ledger in (done stored, ledger'))

  unfoldable pub persist_monthly_record :
      Option MonthlyRecord
      → TriggerLedger
      → Result LoopRefusal (Option StoredTrigger) × TriggerLedger
  unfolding monthly_jobs_row
  persist_monthly_record none ledger = (done none, ledger)
  persist_monthly_record (some r) ledger = monthly_jobs_row r r.job_shop_ids ledger

abbrev is_confirmed : FixtureStatus → Bool
is_confirmed confirmed = true
is_confirmed _ = false

abbrev pub unconfirmed : CullConfirmation
unconfirmed = record {
  event_names = [];
  lesson = none;
  retained_artifact_ids = [];
  deactivation_executed = false;
}

-- the answer for a CULL with its deactivation
unfoldable pub confirm_job :
    ℕ → PortfolioResult → FixtureStatus → String → List ℕ → Result LoopRefusal CullConfirmation
confirm_job job result status lesson artifact_ids =
    if not (is_confirmed status)
    then done unconfirmed
    else if str_eq (strip lesson) ""
    then refused lesson_empty
    else done (record {
      event_names = listing_culled ∷ [];
      lesson = some (record {
        listing_id = result.listing_id;
        deactivation_job_id = job;
        lesson = strip lesson;
        retained = true;
      });
      retained_artifact_ids = artifact_ids;
      deactivation_executed = false;
    })

unfoldable pub confirm_decision :
    DecisionType
    → PortfolioResult
    → FixtureStatus
    → String
    → List ℕ
    → Result LoopRefusal CullConfirmation
confirm_decision cull result status lesson artifact_ids = do
  job ← present result.deactivation_job_id deactivation_job
  confirm_job job result status lesson artifact_ids
confirm_decision _ result status lesson artifact_ids = done unconfirmed

unfoldable pub confirm_fixture_cull :
    PortfolioResult → FixtureStatus → String → List ℕ → Result LoopRefusal CullConfirmation
confirm_fixture_cull result status lesson artifact_ids = do
  check (not (exists (is_event listing_culled) result.event_names)) already_culled
  confirm_decision result.decision result status lesson artifact_ids
