-- ===== src/ClosedLoop/Ledger.antt =====
-- The ledger only grows, by rows with new keys.
use money_machine.Base.{
  ℕ, String, ◌≡◌, refl, true, false, Option, none, List, [], ◌∷◌, ◌++◌, exists, All, eq_iff,
  if◌then◌else◌, Bool-cases, inl, inr, arith, ap, sym, subst, ◌∙◌,
}
use mathlib.Core.List.{append-nil, append_assoc}
use money_machine.Results.{Result, done, refused, ◌>>=◌, Result-cases}
use money_machine.ClosedLoop.{
  StoredTrigger, CollectionRecord, TriggerLedger, LoopRefusal, has_trigger, insert, noted,
  weekly_key, weekly_row, persist_weekly_plan, persist_record,
}

has_trigger-append :
    (key : String) (xs ys : TriggerLedger)
    → has_trigger key (xs ++ ys) ≡ (if has_trigger key xs then true else has_trigger key ys)
unfolding has_trigger exists
has_trigger-append key [] ys = refl
has_trigger-append key (x ∷ xs) ys = ground (arith, has_trigger-append key xs ys)

has_trigger_self : (row : StoredTrigger) → has_trigger row.trigger_key (row ∷ []) ≡ true
unfolding has_trigger exists
has_trigger_self row = ground (arith, eq_iff row.trigger_key row.trigger_key)

-- what is in the ledger stays in it, and what is inserted is in it
has_trigger-insert :
    (key : String) (row : StoredTrigger) (ledger : TriggerLedger)
    → (has_trigger key ledger ≡ true → has_trigger key (insert row ledger).1 ≡ true)
      × (has_trigger row.trigger_key (insert row ledger).1 ≡ true)
unfolding insert
has_trigger-insert key row ledger = elim (Bool-cases (has_trigger row.trigger_key ledger)) [
  | inl old ↦ rw old ((λ h. h), old)
  | inr new ↦ rw new (
    (λ h. has_trigger-append key ledger (row ∷ []) ∙ rw h),
    has_trigger-append row.trigger_key ledger (row ∷ []) ∙ rw new (has_trigger_self row),
  )
]

insert_old :
    (row : StoredTrigger) (ledger : TriggerLedger)
    → has_trigger row.trigger_key ledger ≡ true
    → insert row ledger ≡ (none, ledger)
unfolding insert
insert_old row ledger h = rw h

module _ (uuid_text : ℕ → String) (iso : ℕ → String) (shop : ℕ) where
  -- every record of the plan has its trigger in the ledger
  abbrev pub ArePresent : List CollectionRecord → TriggerLedger → Type 0
  ArePresent records ledger =
      All
        (λ r.
          (key : String) × (weekly_key uuid_text iso shop r r.kind r.listing_id ≡ done key)
          × (has_trigger key ledger ≡ true))
        records

  module _ (next : ℕ) where
    abbrev persist :
        List CollectionRecord
        → TriggerLedger
        → Result LoopRefusal (List StoredTrigger) × TriggerLedger
    persist = persist_weekly_plan uuid_text iso shop next

    abbrev inserted : String → TriggerLedger → Option StoredTrigger × TriggerLedger
    inserted key ledger = insert (weekly_row uuid_text iso shop next key) ledger

    abbrev key_of : CollectionRecord → Result LoopRefusal String
    key_of r = weekly_key uuid_text iso shop r r.kind r.listing_id

    persist-refused :
        (r : CollectionRecord) (records : List CollectionRecord) (ledger : TriggerLedger)
        {e : LoopRefusal}
        → key_of r ≡ refused e
        → persist (r ∷ records) ledger ≡ (refused e, ledger)
    unfolding persist_weekly_plan persist_record
    persist-refused r records ledger h =
        ap (λ k. persist_record uuid_text iso shop next k (persist records) ledger) h

    persist_named :
        (r : CollectionRecord) (records : List CollectionRecord) (ledger : TriggerLedger)
        {key : String}
        → key_of r ≡ done key
        → persist (r ∷ records) ledger ≡ (
          (persist records (inserted key ledger).1).0
              >>= (λ rows. done (noted (inserted key ledger).0 rows)),
          (persist records (inserted key ledger).1).1,
        )
    unfolding persist_weekly_plan persist_record
    persist_named r records ledger h =
        ap (λ k. persist_record uuid_text iso shop next k (persist records) ledger) h

    keeps_triggers :
        (key : String) (records : List CollectionRecord) (ledger : TriggerLedger)
        → has_trigger key ledger ≡ true
        → has_trigger key (persist records ledger).1 ≡ true
    unfolding persist_weekly_plan
    keeps_triggers key [] ledger h = h
    keeps_triggers key (r ∷ records) ledger h = elim (Result-cases (key_of r)) [
      | inr (e, stops) ↦
          ap (λ (a : Result LoopRefusal (List StoredTrigger) × TriggerLedger). has_trigger key a.1)
            (persist-refused r records ledger stops)
          ∙ h
      | inl (key', named) ↦
          ap (λ (a : Result LoopRefusal (List StoredTrigger) × TriggerLedger). has_trigger key a.1)
            (persist_named r records ledger named)
          ∙ keeps_triggers key records (inserted key' ledger).1
              ((has_trigger-insert key (weekly_row uuid_text iso shop next key') ledger).0 h)
    ]

    ArePresent-persist :
        (records : List CollectionRecord) (ledger : TriggerLedger) {rows : List StoredTrigger}
        → (persist records ledger).0 ≡ done rows
        → ArePresent records (persist records ledger).1
    unfolding weekly_row
    ArePresent-persist [] ledger h = tt
    ArePresent-persist (r ∷ records) ledger {rows} h = elim (Result-cases (key_of r)) [
      | inr (e, stops) ↦
          let is_refused = persist-refused r records ledger stops in
          absurd (ground (arith, is_refused))
      | inl (key, named) ↦
          let step = persist_named r records ledger named in
          let ledger' = (inserted key ledger).1 in
          let there = (has_trigger-insert key (weekly_row uuid_text iso shop next key) ledger).1 in
          subst
            (λ (a : Result LoopRefusal (List StoredTrigger) × TriggerLedger).
              ArePresent (r ∷ records) a.1)
            (sym step)
            (
              (key, named, keeps_triggers key records ledger' there),
              elim (Result-cases (persist records ledger').0) [
                | inr (e, stops) ↦ absurd (ground (arith, step))
                | inl (rows', goes) ↦ ArePresent-persist records ledger' goes
              ],
            )
    ]

    -- what follows an insertion
    after_insert :
        List CollectionRecord
        → Option StoredTrigger × TriggerLedger
        → Result LoopRefusal (List StoredTrigger) × TriggerLedger
    after_insert records (stored, ledger) = (
      (persist records ledger).0 >>= (λ rows. done (noted stored rows)),
      (persist records ledger).1,
    )

    -- where every trigger is present nothing is inserted
    persist-present :
        (records : List CollectionRecord) (ledger : TriggerLedger)
        → ArePresent records ledger
        → persist records ledger ≡ (done [], ledger)
    unfolding persist_weekly_plan weekly_row after_insert
    persist-present [] ledger h = refl
    persist-present (r ∷ records) ledger ((key, named, there), h) =
        let old : insert (weekly_row uuid_text iso shop next key) ledger ≡ (none, ledger) =
          insert_old (weekly_row uuid_text iso shop next key) ledger there in
        persist_named r records ledger named
        ∙ ap (after_insert records) old
        ∙ ap
            (λ (a : Result LoopRefusal (List StoredTrigger) × TriggerLedger).
              (a.0 >>= (λ rows. done (noted none rows)), a.1))
            (persist-present records ledger h)

  -- A weekly plan that has been persisted is persisted once: the same plan again, for whatever time,
  -- inserts nothing and leaves every row, with its time, as it was.
  pub persist_weekly_plan_once :
      (next later : ℕ) (records : List CollectionRecord) (ledger ledger' : TriggerLedger)
      {rows : List StoredTrigger}
      → persist_weekly_plan uuid_text iso shop next records ledger ≡ (done rows, ledger')
      → persist_weekly_plan uuid_text iso shop later records ledger' ≡ (done [], ledger')
  persist_weekly_plan_once next later records ledger ledger' h =
      persist-present later records ledger' (
        subst (ArePresent records)
          (ap (λ (a : Result LoopRefusal (List StoredTrigger) × TriggerLedger). a.1) h)
          (ArePresent-persist next records ledger
            (ap (λ (a : Result LoopRefusal (List StoredTrigger) × TriggerLedger). a.0) h)))

-- no key stands twice in the ledger
abbrev pub HasUniqueTriggers : TriggerLedger → Type 0
HasUniqueTriggers [] = Unit
HasUniqueTriggers (row ∷ rows) = (has_trigger row.trigger_key rows ≡ false) × HasUniqueTriggers rows

append-HasUniqueTriggers :
    (row : StoredTrigger) (ledger : TriggerLedger)
    → has_trigger row.trigger_key ledger ≡ false
    → HasUniqueTriggers ledger
    → HasUniqueTriggers (ledger ++ (row ∷ []))
unfolding has_trigger exists
append-HasUniqueTriggers row [] new unique = (refl, tt)
append-HasUniqueTriggers row (r ∷ ledger) new unique = (
  ground (
    arith,
    has_trigger-append r.trigger_key ledger (row ∷ []),
    eq_iff row.trigger_key r.trigger_key,
    eq_iff r.trigger_key row.trigger_key,
  ),
  append-HasUniqueTriggers row ledger (ground arith) unique.1,
)

-- the ledger has grown at its end, and its keys are still different
abbrev pub HasGrown : TriggerLedger → TriggerLedger → Type 0
HasGrown ledger ledger' =
    HasUniqueTriggers ledger' × ((added : List StoredTrigger) × (ledger' ≡ ledger ++ added))

HasGrown-refl : (ledger : TriggerLedger) → HasUniqueTriggers ledger → HasGrown ledger ledger
HasGrown-refl ledger unique = (unique, ([], sym (append-nil ledger)))

HasGrown-trans : (a b c : TriggerLedger) → HasGrown a b → HasGrown b c → HasGrown a c
HasGrown-trans a b c (unique, (added, e)) (unique', (added', e')) =
    (unique', (added ++ added', e' ∙ ap (λ l. l ++ added') e ∙ append_assoc a added added'))

insert-HasGrown :
    (row : StoredTrigger) (ledger : TriggerLedger)
    → HasUniqueTriggers ledger
    → HasGrown ledger (insert row ledger).1
unfolding insert
insert-HasGrown row ledger unique = elim (Bool-cases (has_trigger row.trigger_key ledger)) [
  | inl old ↦ rw old (HasGrown-refl ledger unique)
  | inr new ↦ rw new (append-HasUniqueTriggers row ledger new unique, (row ∷ [], refl))
]

-- Whatever it answers, persisting a plan only adds rows at the end of the ledger, each with a new key.
pub persist_weekly_plan-HasGrown :
    (uuid_text iso : ℕ → String) (shop next : ℕ) (records : List CollectionRecord)
    (ledger : TriggerLedger)
    → HasUniqueTriggers ledger
    → HasGrown ledger (persist_weekly_plan uuid_text iso shop next records ledger).1
unfolding persist_weekly_plan
persist_weekly_plan-HasGrown uuid_text iso shop next [] ledger unique = HasGrown-refl ledger unique
persist_weekly_plan-HasGrown uuid_text iso shop next (r ∷ records) ledger unique =
    elim (Result-cases (weekly_key uuid_text iso shop r r.kind r.listing_id)) [
      | inr (e, stops) ↦
          subst
            (λ (a : Result LoopRefusal (List StoredTrigger) × TriggerLedger). HasGrown ledger a.1)
            (sym (persist-refused uuid_text iso shop next r records ledger stops))
            (HasGrown-refl ledger unique)
      | inl (key, named) ↦
          let row = weekly_row uuid_text iso shop next key in
          let grown = insert-HasGrown row ledger unique in
          subst
            (λ (a : Result LoopRefusal (List StoredTrigger) × TriggerLedger). HasGrown ledger a.1)
            (sym (persist_named uuid_text iso shop next r records ledger named))
            (HasGrown-trans ledger (insert row ledger).1
              (persist_weekly_plan uuid_text iso shop next records (insert row ledger).1).1 grown
              (persist_weekly_plan-HasGrown uuid_text iso shop next records (insert row ledger).1
                grown.0))
    ]
