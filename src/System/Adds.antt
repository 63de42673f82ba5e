-- ===== src/System/Adds.antt =====
-- The operations that add jobs keep all jobs sound.
use money_machine.Base.{
  ℕ, String, ◌≡◌, refl, Bool, true, false, not, ◌&&◌, Option, List, [], ◌∷◌, arith, All, is_none,
  if◌then◌else◌, Bool-cases, inl, inr, subst,
}
use money_machine.Domain.{EventName, ProductLifecycleState}
use money_machine.Errors.{Outcome, ok, err, ◌>>=◌, Outcome-cases, ok-eq-snd}
use money_machine.Tables.{Job, WorkflowRun, Database}
use money_machine.Scheduler.{maturity_job, schedule_maturity_timer}
use money_machine.Engine.{start_workflow}
use money_machine.Engine.Specs.{JobSpec, WorkflowSpec}
use money_machine.Engine.Starting.{AreEntryJobs, inserted, start_workflow-Started}
use money_machine.Portfolio.{PortfolioDecision}
use money_machine.Successors.{is_multiply, create_multiply_successor}
use money_machine.Successors.Config.{WorkflowsConfig, Derivation}
use money_machine.Successors.Growth.{IsNew, GrowsIfOk}
use money_machine.Successors.Multiply.{multiply-Spawned}
use money_machine.Dispatcher.{
  by_dedupe_key, winner_key, winner_event, announce_successor, dispatch_key, new_event, dispatch,
  dispatch_decision,
}
use money_machine.Dispatcher.Once.{append_once-Recorded, follow_up-Grows}
use money_machine.Dispatcher.Decisions.{Announced, announce_successor-Announced}
use money_machine.System.{IsSound, AllSound}
use money_machine.System.Batches.{SoundIfOk}

IsNew-IsSound : (job : Job) → IsNew job → IsSound job
IsNew-IsSound job n = record {
  owned = ground (arith, n.waits, n.owner);
  leased = ground (arith, n.waits, n.expiry);
  beating = ground (arith, n.waits, n.beat);
  within = ground (arith, n.attempts, n.budget);
  left = λ _ _. ground (arith, n.attempts, n.budget);
}

pub schedule_maturity_timer-AllSound :
    (uuid_text : ℕ → String) (id workflow_id date now : ℕ) (db : Database)
    → AllSound db
    → SoundIfOk (schedule_maturity_timer uuid_text id workflow_id date now db)
unfolding schedule_maturity_timer
schedule_maturity_timer-AllSound uuid_text id workflow_id date now db s =
    let new : IsSound (maturity_job uuid_text id workflow_id date now) = IsNew-IsSound _ (record {
      waits = refl;
      attempts = refl;
      budget = refl;
      owner = refl;
      expiry = refl;
      beat = refl;
    }) in
    ground (arith, new, s)

inserted-AllSound :
    (news jobs : List Job) → All IsSound news → All IsSound jobs → All IsSound (inserted news jobs)
inserted-AllSound [] jobs n s = s
inserted-AllSound (new ∷ news) jobs n s = inserted-AllSound news (new ∷ jobs) n.1 (n.0, s)

module _ (derive_id : ℕ → String → ℕ) (uuid_text : ℕ → String) where
  entries-IsSound :
      (id now : ℕ) (specs : List JobSpec) (ts : List String) (news : List Job)
      → AreEntryJobs derive_id uuid_text id now specs ts news
      → All IsSound news
  entries-IsSound id now specs [] [] a = tt
  entries-IsSound id now specs [] (job ∷ news) a = absurd a
  entries-IsSound id now specs (t ∷ ts) [] a = absurd a
  entries-IsSound id now specs (t ∷ ts) (job ∷ news) ((spec, _, is), rest) = (
    rw is (
        IsNew-IsSound _ (record {
          waits = refl;
          attempts = refl;
          budget = refl;
          owner = refl;
          expiry = refl;
          beat = refl;
        })),
    entries-IsSound id now specs ts news rest,
  )

  pub start_workflow-AllSound :
      (workflows : List WorkflowSpec) (id : ℕ) (workflow_type : String)
      (state : ProductLifecycleState) (shop_id now : ℕ) (db db' : Database) (w : WorkflowRun)
      → AllSound db
      → start_workflow derive_id uuid_text workflows id workflow_type state shop_id now db
        ≡ ok (w, db')
      → AllSound db'
  start_workflow-AllSound workflows id workflow_type state shop_id now db db' w s h =
      let (spec, news, _, _, _, entries, jobs, _, _) =
        start_workflow-Started derive_id uuid_text workflows id workflow_type state shop_id now db
          db' w h in
      rw jobs (
        inserted-AllSound news db.jobs
          (entries-IsSound id now spec.jobs spec.entry_job_types news entries) s)

grown-AllSound :
    {A : Type 0} (db : Database) (o : Outcome (A × Database))
    → GrowsIfOk db o
    → AllSound db
    → SoundIfOk o
grown-AllSound db (ok (a, db')) g s = g.keeps_all IsSound IsNew-IsSound s
grown-AllSound db (err e) g s = tt

module _ (config : WorkflowsConfig) (derive : Derivation) where
  pub dispatch-AllSound :
      (event : EventName) (kind : String) (aggregate_id : ℕ) (workflow_id job_id : Option ℕ)
      (at : ℕ) (db : Database)
      → AllSound db
      → SoundIfOk (dispatch config derive event kind aggregate_id workflow_id job_id at db)
  unfolding dispatch
  dispatch-AllSound event kind aggregate_id workflow_id job_id at db s =
      elim (Outcome-cases (dispatch_key event kind aggregate_id workflow_id job_id db)) [
        | inr (e, fails) ↦ rw fails tt
        | inl ((key, true), e) ↦ rw e (
            grown-AllSound db _
              (follow_up-Grows config derive event kind aggregate_id workflow_id job_id true at
                workflow_id db)
              s)
        | inl ((key, false), e) ↦
            let (existed, db1, appended, r) =
              append_once-Recorded (new_event event kind aggregate_id workflow_id job_id key at)
                db in
            let s1 : AllSound db1 = rw r.same_jobs s in
            rw (e, appended)
              (grown-AllSound db1 _
                (follow_up-Grows config derive event kind aggregate_id workflow_id job_id existed at
                  workflow_id db1)
                s1)
      ]

module _ (derive : Derivation) (d : PortfolioDecision) (at started_at : ℕ) (db : Database)
    (s : AllSound db) where
  spawned_sound :
      (ids : List ℕ) (db1 : Database)
      → create_multiply_successor derive d at started_at db ≡ ok (ids, db1)
      → AllSound db1
  unfolding create_multiply_successor
  spawned_sound ids db1 made = elim (Bool-cases (is_multiply d.decision)) [
    | inl multi ↦
        let spawned = multiply-Spawned derive d at started_at db db1 ids (ground arith) made in
        rw spawned.entry (
          IsNew-IsSound _ (record {
            waits = refl;
            attempts = refl;
            budget = refl;
            owner = refl;
            expiry = refl;
            beat = refl;
          }),
          s,
        )
    | inr other ↦
        let kept : db ≡ db1 = ok-eq-snd _ _ _ _ (rw other at made) in subst AllSound kept s
  ]

  announced_sound :
      (parent_job_id : ℕ) (db2 : Database) (ids : List ℕ) (b : Bool)
      → AllSound db2
      → SoundIfOk (
          (if b then announce_successor d ids at db2 else ok db2) >>= λ (x : Database). ok (ids, x))
  announced_sound parent_job_id db2 ids false s2 = s2
  announced_sound parent_job_id db2 ids true s2 =
      elim (Outcome-cases (announce_successor d ids at db2)) [
        | inr (e, fails) ↦ rw fails tt
        | inl (db3, sent) ↦
            let (_, jobs) =
              subst (Announced derive d parent_job_id db2) sent
                (announce_successor-Announced derive d parent_job_id ids at db2) in
            rw sent (rw jobs s2)
      ]

  pub dispatch_decision-AllSound :
      (parent_job_id : ℕ) → SoundIfOk (dispatch_decision derive d parent_job_id at started_at db)
  unfolding dispatch_decision
  dispatch_decision-AllSound parent_job_id =
      elim (Bool-cases (
        not (is_none (by_dedupe_key (winner_key d parent_job_id) db.events))
        && is_multiply d.decision)) [
          | inl again ↦ rw again s
          | inr first ↦ elim (Outcome-cases (create_multiply_successor derive d at started_at db)) [
            | inr (e, fails) ↦ rw (first, fails) tt
            | inl ((ids, db1), made) ↦
                let (existed, db2, appended, r) =
                  append_once-Recorded (winner_event d parent_job_id at) db1 in
                let s2 : AllSound db2 = rw r.same_jobs (spawned_sound ids db1 made) in
                rw (first, made, appended)
                  (announced_sound parent_job_id db2 ids (is_multiply d.decision) s2)
          ]
        ]
