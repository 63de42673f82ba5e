-- ===== src/Dispatcher/Decisions.antt =====
-- A decision spawns its successor once.
use money_machine.Base.{
  ℕ, ◌≡◌, refl, sym, ap, ◌∙◌, true, false, List, [], ◌∷◌, arith, is_none, Option-cases, Bool-cases,
  inl, inr, subst,
}
use money_machine.Domain.DecisionType.{multiply}
use money_machine.Errors.{Outcome, ok, err, Outcome-cases, ok-eq-fst, ok-eq-snd}
use money_machine.Tables.{Database}
use money_machine.Portfolio.{PortfolioDecision}
use money_machine.Successors.{is_multiply, create_multiply_successor}
use money_machine.Successors.Config.{Derivation}
use money_machine.Dispatcher.{
  by_dedupe_key, winner_key, winner_event, successor_event, existing_successors, announce_successor,
  dispatch_decision,
}
use money_machine.Dispatcher.Once.{append_once-Recorded}

module _ (derive : Derivation) (d : PortfolioDecision) (parent_job_id : ℕ) where
  -- the decision's event is there
  abbrev pub HasWinner : Database → Type 0
  HasWinner db = is_none (by_dedupe_key (winner_key d parent_job_id) db.events) ≡ false

  -- An announcement keeps what is recorded, and the jobs.
  abbrev pub Announced : Database → Outcome Database → Type 0
  Announced db (ok db') = (HasWinner db → HasWinner db') × (db'.jobs ≡ db.jobs)
  Announced db (err e) = Unit

  pub announce_successor-Announced :
      (ids : List ℕ) (at : ℕ) (db : Database) → Announced db (announce_successor d ids at db)
  announce_successor-Announced [] at db = ((λ h. h), refl)
  announce_successor-Announced (id ∷ ids) at db = elim (Option-cases d.successor_spec_id) [
    | inl unspecified ↦ rw unspecified tt
    | inr (spec_id, specified) ↦
        let (existed, db', appended, r) =
          append_once-Recorded (successor_event d spec_id id at) db in
        rw (specified, appended) (r.keeps (winner_key d parent_job_id), r.same_jobs)
  ]

  module _ (at started_at : ℕ) (ids : List ℕ) (db db' : Database)
      (is_multiply_decision : d.decision ≡ multiply) where
    -- a first dispatch, which has spawned
    first_dispatch :
        is_none (by_dedupe_key (winner_key d parent_job_id) db.events) ≡ true
        → dispatch_decision derive d parent_job_id at started_at db ≡ ok (ids, db')
        → (db1 : Database) × (create_multiply_successor derive d at started_at db ≡ ok (ids, db1))
          × HasWinner db'
          × (db'.jobs ≡ db1.jobs)
    unfolding dispatch_decision
    first_dispatch fresh h =
        elim (Outcome-cases (create_multiply_successor derive d at started_at db)) [
          | inr (e, fails) ↦ absurd (ground arith)
          | inl ((ids1, db1), made) ↦
              let (existed, db2, appended, r) =
                append_once-Recorded (winner_event d parent_job_id at) db1 in
              let a = announce_successor-Announced ids1 at db2 in
              elim (Outcome-cases (announce_successor d ids1 at db2)) [
                | inr (e, fails) ↦ absurd (ground arith)
                | inl (db3, announced) ↦
                    let multi : is_multiply d.decision ≡ true = ground arith in
                    let answer : ok (ids1, db3) ≡ ok (ids, db') =
                      rw (fresh, multi, made, appended, announced) at h in
                    let ends : db3 ≡ db' = ok-eq-snd _ _ _ _ answer in
                    let kept : Announced db2 (ok db3) = rw announced at a in
                    (
                      db1,
                      made ∙ ap (λ i. ok (i, db1)) (ok-eq-fst _ _ _ _ answer),
                      subst HasWinner ends (kept.0 r.is_there),
                      ap (λ x. x.jobs) (sym ends) ∙ kept.1 ∙ r.same_jobs,
                    )
              ]
        ]

    seen :
        (at' started_at' : ℕ) (x : Database)
        → HasWinner x
        → dispatch_decision derive d parent_job_id at' started_at' x
          ≡ ok (existing_successors d.successor_workflow_id x, x)
    unfolding dispatch_decision
    seen at' started_at' x there =
        let multi : is_multiply d.decision ≡ true = ground arith in rw (there, multi) refl

    -- A MULTIPLY decision that has been dispatched once is answered on every later dispatch without a
    -- change: no second successor is spawned, whatever the moment.
    pub dispatch_decision_once :
        (at' started_at' : ℕ)
        → dispatch_decision derive d parent_job_id at started_at db ≡ ok (ids, db')
        → dispatch_decision derive d parent_job_id at' started_at' db'
          ≡ ok (existing_successors d.successor_workflow_id db', db')
    dispatch_decision_once at' started_at' h =
        elim (Bool-cases (is_none (by_dedupe_key (winner_key d parent_job_id) db.events))) [
          | inl fresh ↦ seen at' started_at' db' (first_dispatch fresh h).2
          | inr there ↦
              let same = ok-eq-snd _ _ _ _ (sym (seen at started_at db there) ∙ h) in
              subst
                (λ x.
                  dispatch_decision derive d parent_job_id at' started_at' x
                  ≡ ok (existing_successors d.successor_workflow_id x, x))
                same (seen at' started_at' db there)
        ]
