-- ===== src/Dispatcher/Once.antt =====
-- An event is recorded once, and its successors are created once.
use money_machine.Base.{
  ℕ, String, ◌≡◌, refl, sym, ap, ◌∙◌, Bool, true, false, not, ◌&&◌, ◌||◌, Option, none, some, List,
  [], ◌∷◌, arith, str_eq, is_none, Option-cases, Bool-cases, inl, inr, subst,
}
use money_machine.Domain.{EventName, is_event}
use money_machine.Domain.EventName.{assets_completed, successor_created}
use money_machine.Errors.{Outcome, ok, Outcome-cases, ok-eq-snd}
use money_machine.Tables.{Event, DedupeKey, Database, get_job}
use money_machine.Tables.DedupeKey.{job_stalled, semantic, job_completion, product_completion}
use money_machine.Successors.Config.{WorkflowsConfig, Derivation}
use money_machine.Successors.Growth.{Grows, Grows-refl, GrowsIfOk, create_successors-Grows}
use money_machine.Dispatcher.{
  same_key, by_dedupe_key, append, append_once, has_job, or_zero, dispatch_key, new_event,
  follow_up, dispatch,
}

same_key_refl : (key : DedupeKey) → same_key key key ≡ true
same_key_refl (job_stalled a b) = ground arith
same_key_refl (semantic e a w j) = ground arith
same_key_refl (job_completion a j) = ground arith
same_key_refl (product_completion a) = ground arith

pub append_once-again :
    (event : Event) (db : Database)
    → is_none (by_dedupe_key event.dedupe_key db.events) ≡ false
    → append_once event db ≡ ok (true, db)
unfolding append_once append
append_once-again event db there = rw (there, there) refl

-- what an append that has answered leaves
pub record Recorded (event : Event) (db : Database) (existed : Bool) (db' : Database) : Type 0 where
  pub is_there : is_none (by_dedupe_key event.dedupe_key db'.events) ≡ false
  pub keeps :
      (key : DedupeKey)
      → is_none (by_dedupe_key key db.events) ≡ false
      → is_none (by_dedupe_key key db'.events) ≡ false
  pub same_jobs : db'.jobs ≡ db.jobs
  pub same_workflows : db'.workflows ≡ db.workflows
  pub unchanged : existed ≡ true → db' ≡ db

pub append_once-Recorded :
    (event : Event) (db : Database)
    → (existed : Bool) × (db' : Database) × (append_once event db ≡ ok (existed, db'))
      × Recorded event db existed db'
unfolding append_once append by_dedupe_key
append_once-Recorded event db =
    elim (Bool-cases (is_none (by_dedupe_key event.dedupe_key db.events))) [
      | inl fresh ↦ (
        false,
        record db { events = event ∷ db.events },
        rw fresh refl,
        record {
          is_there = rw (same_key_refl event.dedupe_key) refl;
          keeps = λ key h. ground arith;
          same_jobs = refl;
          same_workflows = refl;
          unchanged = λ e. cc e;
        },
      )
      | inr there ↦ (
        true,
        db,
        append_once-again event db there,
        record {
          is_there = there;
          keeps = λ key h. h;
          same_jobs = refl;
          same_workflows = refl;
          unchanged = λ e. refl;
        },
      )
    ]

module _ (config : WorkflowsConfig) (derive : Derivation) (event : EventName) (kind : String)
    (aggregate_id : ℕ) (workflow_id job_id : Option ℕ) where
  -- nothing that the first dispatch read is lost
  record Kept (db db' : Database) : Type 0 where
    keys :
        (key : DedupeKey)
        → is_none (by_dedupe_key key db.events) ≡ false
        → is_none (by_dedupe_key key db'.events) ≡ false
    jobs : (k : ℕ) → is_none (get_job k db) ≡ false → is_none (get_job k db') ≡ false

  has_job-Kept :
      (id : Option ℕ) (db db' : Database)
      → Kept db db'
      → has_job id db ≡ true
      → has_job id db' ≡ true
  has_job-Kept none db db' k h = absurd (ground arith)
  has_job-Kept (some id) db db' k h = ground (arith, k.jobs id)

  -- The key of a repeated dispatch is the same, and an event under its key of old is still there.
  dispatch_key-Kept :
      (db db' : Database) (key : DedupeKey) (by_old_key : Bool)
      → Kept db db'
      → dispatch_key event kind aggregate_id workflow_id job_id db ≡ ok (key, by_old_key)
      → (again : Bool) × (dispatch_key event kind aggregate_id workflow_id job_id db'
          ≡ ok (key, again))
        × (by_old_key ≡ true → again ≡ true)
  unfolding dispatch_key
  dispatch_key-Kept db db' key by_old_key k h =
      elim (Bool-cases (is_event event assets_completed && str_eq kind "Job")) [
        | inl worker ↦ elim (Bool-cases (has_job job_id db)) [
          | inr missing ↦ absurd (ground arith)
          | inl present ↦
              let kept = has_job-Kept job_id db db' k present in
              let same : ok (job_completion aggregate_id (or_zero job_id), false)
                  ≡ ok (key, by_old_key) =
                rw (worker, present) at h in
              (by_old_key, rw (worker, kept) same, (λ e. e))
        ]
        | inr other ↦
            elim (Bool-cases (is_event event assets_completed && str_eq kind "products")) [
              | inl product ↦
                  let old = semantic event aggregate_id workflow_id none in
                  let same : ok (
                    product_completion aggregate_id,
                    not (is_none (by_dedupe_key old db.events)),
                  )
                      ≡ ok (key, by_old_key) =
                    rw (other, product) at h in
                  let kept = k.keys old in
                  let is_key : product_completion aggregate_id ≡ key = cc same in
                  let is_old : not (is_none (by_dedupe_key old db.events)) ≡ by_old_key = cc same in
                  (
                    not (is_none (by_dedupe_key old db'.events)),
                    rw (other, product)
                        (ap (λ x. ok (x, not (is_none (by_dedupe_key old db'.events)))) is_key),
                    (λ e. ground arith),
                  )
              | inr general ↦ (by_old_key, rw (other, general) (rw (other, general) at h), (λ e. e))
            ]
      ]

  done :
      (db : Database) (at : ℕ)
      → follow_up config derive true event kind aggregate_id workflow_id job_id at db ≡ ok ([], db)
  done db at = elim (Option-cases workflow_id) [
    | inl outside ↦ rw outside refl
    | inr (w, inside) ↦ rw inside refl
  ]

  repeated :
      (db : Database) (key : DedupeKey) (by_old_key : Bool) (at : ℕ)
      → dispatch_key event kind aggregate_id workflow_id job_id db ≡ ok (key, by_old_key)
      → (by_old_key ≡ false → is_none (by_dedupe_key key db.events) ≡ false)
      → dispatch config derive event kind aggregate_id workflow_id job_id at db ≡ ok ([], db)
  unfolding dispatch
  repeated db key true at e there = rw e (done db at)
  repeated db key false at e there =
      rw
        (
          e,
          append_once-again (new_event event kind aggregate_id workflow_id job_id key at) db
              (there refl),
        )
        (done db at)

  pub follow_up-Grows :
      (existed : Bool) (at : ℕ) (w : Option ℕ) (db : Database)
      → GrowsIfOk db (follow_up config derive existed event kind aggregate_id w job_id at db)
  follow_up-Grows existed at none db = Grows-refl db
  follow_up-Grows existed at (some w) db =
      elim (Bool-cases (existed || is_event event successor_created)) [
        | inl skipped ↦ rw skipped (Grows-refl db)
        | inr new ↦ rw new (
            create_successors-Grows config derive event w job_id (some aggregate_id) (some kind) at
              db)
      ]

  -- a dispatch under a key that is no longer by the old one
  dispatched :
      (key : DedupeKey) (at at' : ℕ) (ids : List ℕ) (db db' : Database)
      → dispatch_key event kind aggregate_id workflow_id job_id db ≡ ok (key, false)
      → dispatch config derive event kind aggregate_id workflow_id job_id at db ≡ ok (ids, db')
      → dispatch config derive event kind aggregate_id workflow_id job_id at' db' ≡ ok ([], db')
  unfolding dispatch
  dispatched key at at' ids db db' e h =
      let new = new_event event kind aggregate_id workflow_id job_id key at in
      let (existed, db1, appended, r) = append_once-Recorded new db in
      let followed : follow_up config derive existed event kind aggregate_id workflow_id job_id at
            db1
          ≡ ok (ids, db') =
        rw (e, appended) at h in
      let g : Grows db1 db' =
        subst (GrowsIfOk db1) followed (follow_up-Grows existed at workflow_id db1) in
      let k : Kept db db' = record {
        keys = λ key' p. ground (arith, g.same_events, r.keeps key' p);
        jobs = λ i p. g.keeps_jobs i (ground (arith, r.same_jobs));
      } in
      let (again, e', _) = dispatch_key-Kept db db' key false k e in
      repeated db' key again at' e' (λ _. ground (arith, g.same_events, r.is_there))

  -- An event that has been dispatched is not dispatched twice: the same call, at any later moment,
  -- creates no successor and changes nothing.
  pub dispatch_once :
      (at at' : ℕ) (ids : List ℕ) (db db' : Database)
      → dispatch config derive event kind aggregate_id workflow_id job_id at db ≡ ok (ids, db')
      → dispatch config derive event kind aggregate_id workflow_id job_id at' db' ≡ ok ([], db')
  unfolding dispatch
  dispatch_once at at' ids db db' h =
      elim (Outcome-cases (dispatch_key event kind aggregate_id workflow_id job_id db)) [
        | inr (e, fails) ↦ absurd (ground arith)
        | inl ((key, true), e) ↦
            let same : ◌≡◌ {A = Outcome (List ℕ × Database)} (ok ([], db)) (ok (ids, db')) =
              sym (done db at) ∙ rw e at h in
            let kept : db ≡ db' = ok-eq-snd _ _ _ _ same in
            subst
              (λ d.
                dispatch config derive event kind aggregate_id workflow_id job_id at' d
                ≡ ok ([], d))
              kept (repeated db key true at' e (λ f. cc f))
        | inl ((key, false), e) ↦ dispatched key at at' ids db db' e h
      ]
