-- ===== src/Successors/Multiply.antt =====
-- The boundary between a winner and its successor.
use money_machine.Base.{
  ℕ, ◌≡◌, refl, sym, ap, ◌∙◌, ◌≢◌, none, some, List, [], ◌∷◌, arith, exists, get, save, get-save,
  key-get, Option-cases, Bool-cases, inl, inr,
}
use money_machine.Domain.{ProductLifecycleState, is_state}
use money_machine.Domain.ProductLifecycleState.{successor_spec, dedupe_check}
use money_machine.Domain.DecisionType.{multiply}
use money_machine.Errors.{ok, Outcome-cases}
use money_machine.Guard.{require_successor_spawn}
use money_machine.Tables.{WorkflowRun, Database, workflow_key, get_workflow}
use money_machine.Portfolio.{PortfolioDecision}
use money_machine.Engine.Specs.{insert_jobs, is_same_job}
use money_machine.Successors.{
  successor_workflow, create_successor_workflow, dedupe_job, create_successor_entry_job,
  observed_parent, spawn_from, create_multiply_successor,
}
use money_machine.Successors.Config.{Derivation}

create_successor_workflow-ok :
    (parent_id : ℕ) (state : ProductLifecycleState)
    (decision_id successor_id shop_id started_at : ℕ) (db db' : Database) (n : ℕ)
    → create_successor_workflow parent_id state decision_id successor_id shop_id started_at db
      ≡ ok (n, db')
    → (n ≡ successor_id)
      × (state ≡ successor_spec)
      × (successor_id ≢ parent_id)
      × (get_workflow successor_id db ≡ none)
      × (db' ≡ record db {
        workflows =
            successor_workflow successor_id shop_id parent_id decision_id dedupe_check started_at
            ∷ db.workflows;
      })
unfolding create_successor_workflow require_successor_spawn
create_successor_workflow-ok parent_id state decision_id successor_id shop_id started_at db db' n
      h =
    elim (Bool-cases (is_state state successor_spec)) [
      | inr other ↦ absurd (ground arith)
      | inl spec ↦
          let is_spec : state ≡ successor_spec = ground arith in
          (ground arith, is_spec, ground arith, ground arith, ground arith)
    ]

create_successor_entry_job-ok :
    (derive : Derivation) (workflow_id spec_id occurred_at : ℕ) (db db' : Database) (n : ℕ)
    → create_successor_entry_job derive workflow_id spec_id occurred_at db ≡ ok (n, db')
    → (n ≡ (dedupe_job derive workflow_id spec_id occurred_at).id)
      × (db' ≡ record db { jobs = dedupe_job derive workflow_id spec_id occurred_at ∷ db.jobs })
unfolding create_successor_entry_job insert_jobs
create_successor_entry_job-ok derive workflow_id spec_id occurred_at db db' n h =
    elim (Bool-cases
      (exists (is_same_job (dedupe_job derive workflow_id spec_id occurred_at)) db.jobs)) [
        | inl clash ↦ absurd (ground arith)
        | inr fresh ↦ (ground arith, ground arith)
      ]

module _ (derive : Derivation) (d : PortfolioDecision) (occurred_at started_at : ℕ)
    (db db' : Database) where
  -- what a successor's creation has done
  pub record Spawned (ids : List ℕ) : Type 0 where
    pub parent : WorkflowRun
    pub successor_id : ℕ
    pub spec_id : ℕ
    pub named : d.successor_workflow_id ≡ some successor_id
    pub specified : d.successor_spec_id ≡ some spec_id
    pub from_parent : get_workflow d.workflow_id db ≡ some parent
    pub was_spec : parent.product_state ≡ successor_spec
    pub other : successor_id ≢ d.workflow_id
    pub was_new : get_workflow successor_id db ≡ none
    pub is_created :
        get_workflow successor_id db'
        ≡ some (
            successor_workflow successor_id parent.shop_id d.workflow_id d.decision_id dedupe_check
              started_at)
    pub is_observing : get_workflow d.workflow_id db' ≡ some (observed_parent parent)
    pub answer : ids ≡ (dedupe_job derive successor_id spec_id occurred_at).id ∷ []
    pub entry : db'.jobs ≡ dedupe_job derive successor_id spec_id occurred_at ∷ db.jobs
    pub events_kept : db'.events ≡ db.events

  -- the database at the end
  abbrev final : ℕ → ℕ → WorkflowRun → Database
  final successor_id spec_id parent = record db {
    workflows =
        successor_workflow successor_id parent.shop_id d.workflow_id d.decision_id dedupe_check
          started_at
        ∷ save workflow_key (observed_parent parent) db.workflows;
    jobs = dedupe_job derive successor_id spec_id occurred_at ∷ db.jobs;
  }

  spawn :
      (successor_id spec_id : ℕ) (parent : WorkflowRun) (ids : List ℕ)
      → d.successor_workflow_id ≡ some successor_id
      → d.successor_spec_id ≡ some spec_id
      → get_workflow d.workflow_id db ≡ some parent
      → spawn_from derive d successor_id spec_id parent occurred_at started_at db ≡ ok (ids, db')
      → Spawned ids
  unfolding spawn_from require_successor_spawn get
  spawn successor_id spec_id parent ids named specified found h =
      let db1 = record db { workflows = save workflow_key (observed_parent parent) db.workflows } in
      elim (Outcome-cases (
        create_successor_workflow d.workflow_id parent.product_state d.decision_id successor_id
          parent.shop_id started_at db1)) [
            | inr (e, fails) ↦ absurd (ground arith)
            | inl ((new_id, db2), made) ↦
                elim (Outcome-cases
                  (create_successor_entry_job derive new_id spec_id occurred_at db2)) [
                    | inr (e, fails) ↦ absurd (ground arith)
                    | inl ((job_id, db3), put) ↦
                        let (is_id, was_spec, other, was_new, wrote) =
                          create_successor_workflow-ok _ _ _ _ _ _ db1 db2 new_id made in
                        let (is_job, entered) =
                          create_successor_entry_job-ok derive new_id spec_id occurred_at db2 db3
                            job_id put in
                        let ended : db3 ≡ db' = ground arith in
                        let gave : job_id ∷ [] ≡ ids = ground arith in
                        let full : db' ≡ final successor_id spec_id parent =
                          sym ended ∙ entered ∙ rw (wrote, is_id) refl in
                        record {
                          parent = parent;
                          successor_id = successor_id;
                          spec_id = spec_id;
                          named = named;
                          specified = specified;
                          from_parent = found;
                          was_spec = was_spec;
                          other = other;
                          was_new = ground (
                            arith,
                            get-save workflow_key successor_id (observed_parent parent)
                                db.workflows,
                          );
                          is_created = rw full (ground arith);
                          is_observing = rw full (
                              ground (
                                arith,
                                get-save workflow_key d.workflow_id (observed_parent parent)
                                    db.workflows,
                                key-get workflow_key d.workflow_id db.workflows found,
                              ));
                          answer = sym gave ∙ ap (λ j. j ∷ []) (is_job ∙ rw is_id refl);
                          entry = rw full refl;
                          events_kept = rw full refl;
                        }
                  ]
          ]

  -- A MULTIPLY that has answered spawned one successor: its parent stood in SUCCESSOR_SPEC and now is
  -- OBSERVING, one version on; the successor is a new workflow of its own in DEDUPE_CHECK, under the
  -- same shop and with its parent and decision recorded; and one DedupeJob is put before the jobs.
  pub multiply-Spawned :
      (ids : List ℕ)
      → d.decision ≡ multiply
      → create_multiply_successor derive d occurred_at started_at db ≡ ok (ids, db')
      → Spawned ids
  unfolding create_multiply_successor spawn_from
  multiply-Spawned ids m h = elim (Option-cases d.successor_workflow_id) [
    | inl unnamed ↦ absurd (ground arith)
    | inr (successor_id, named) ↦ elim (Option-cases d.successor_spec_id) [
      | inl unspecified ↦ absurd (ground arith)
      | inr (spec_id, specified) ↦ elim (Option-cases (get_workflow d.workflow_id db)) [
        | inl missing ↦ absurd (ground arith)
        | inr (parent, found) ↦
            spawn successor_id spec_id parent ids named specified found
              (rw (m, named, specified, found) at h)
      ]
    ]
  ]
