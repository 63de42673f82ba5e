-- ===== src/Control/History.antt =====
-- Sequences of commands on one state file, and the commits that they leave behind.
use money_machine.Base.{
  String, ◌≡◌, true, some, arith, ◌==◌, if◌then◌else◌, str_eq-eq, subst, ap, Option-cases, inl, inr,
  ◌⊎◌, ◌∙◌,
}
use money_machine.Results.{Result, done, refused}
use money_machine.Control.Fields.{ControlState, Refusal}
use money_machine.Control.Kept.{same-head_sha, same-bootstrap_commit_sha}
use money_machine.Control.Activation.{activation-Activated}
use money_machine.Control.Completion.{completion-Completed}
use money_machine.Control.Sessions.{IsInOrder, activation, completion, Transition-IsInOrder}
use money_machine.Control.Files.{
  Disk, Call, apply_transition, apply_completion_transition, apply_activation_transition,
}
use money_machine.Control.Replacement.{Applied, apply_transition-Applied}
use money_machine.Control.{validate_activation_transition, validate_completion_transition}
use money_machine.Control.Repository.{
  Repository, ancestry_base, validate_git_evidence, assert_repo_at_closure,
  verify_completion_repository, verify_activation_repository,
}

-- What Git has shown before a completion is written: the closure commit is the checked-out commit of a
-- clean work tree, at both times, and descends from the commit before it.
abbrev pub Verified : Repository → Repository → ControlState → ControlState → Type 0
Verified repo later p c =
    (bootstrap : String) × (c.bootstrap_commit_sha ≡ some bootstrap)
    × ((closure : String) × (c.evidence_closure_commit_sha ≡ some closure)
        × (later.head_commit ≡ some closure)
        × (later.is_clean ≡ some true)
        × ((base : String) × (ancestry_base p bootstrap ≡ some base)
            × (repo.is_ancestor base closure ≡ some true)))

assert_repo_at_closure-at :
    (repo : Repository) (closure branch : String)
    → assert_repo_at_closure repo closure branch ≡ done tt
    → (repo.head_commit ≡ some closure) × (repo.is_clean ≡ some true)
unfolding assert_repo_at_closure
assert_repo_at_closure-at repo closure branch h = elim (Option-cases repo.head_commit) [
  | inl missing ↦ absurd (ground arith)
  | inr (head, is_head) ↦ (is_head ∙ ap some (str_eq-eq head closure (ground arith)), ground arith)
]

pub verify_completion-Verified :
    (repo later : Repository) (p c : ControlState)
    → verify_completion_repository repo later p c ≡ done tt
    → Verified repo later p c
unfolding verify_completion_repository validate_git_evidence
verify_completion-Verified repo later p c h = elim (Option-cases c.bootstrap_commit_sha) [
  | inl missing ↦ absurd (ground arith)
  | inr (bootstrap, has_bootstrap) ↦ elim (Option-cases c.evidence_closure_commit_sha) [
    | inl missing ↦ absurd (ground arith)
    | inr (closure, has_closure) ↦ elim (Option-cases (ancestry_base p bootstrap)) [
      | inl missing ↦ absurd (ground arith)
      | inr (base, has_base) ↦ elim (Option-cases (repo.is_ancestor base closure)) [
        | inl missing ↦ absurd (ground arith)
        | inr (descends, answer) ↦
            let at : assert_repo_at_closure later closure c.branch ≡ done tt = ground arith in
            let (head, clean) = assert_repo_at_closure-at later closure c.branch at in
            let yes_it_does : descends ≡ true = ground arith in
            (
              bootstrap,
              has_bootstrap,
              (closure, has_closure, head, clean, (base, has_base, answer ∙ ap some yes_it_does)),
            )
      ]
    ]
  ]
]

-- the file has not changed, or it has gone from a state to one that passes against it
abbrev pub Advanced :
    (ControlState → ControlState → Result Refusal (Unit {0}))
    → (ControlState → ControlState → Result Refusal (Unit {0}))
    → Disk
    → Disk
    → Type 0
Advanced validate verify disk disk' =
    (disk'.state ≡ disk.state)
    ⊎ ((p : ControlState) × (disk.state ≡ some p)
        × ((c : ControlState) × (disk'.state ≡ some c)
            × (validate p c ≡ done tt)
            × (verify p c ≡ done tt)))

module _ (validate : ControlState → ControlState → Result Refusal (Unit {0}))
    (verify : ControlState → ControlState → Result Refusal (Unit {0})) (call : Call) where
  Applied-Advanced :
      (disk disk' : Disk) (answer : Result Refusal ControlState)
      → Applied validate verify call disk answer disk'
      → Advanced validate verify disk disk'
  Applied-Advanced disk disk' (done c) ((given, (p, found, valid, verified)), free, left, lock) =
      inr (p, found, (c, left, valid, verified))
  Applied-Advanced disk disk' (refused e) (inl (early, same)) =
      inl (ap (λ (d : Disk). d.state) same)
  Applied-Advanced disk disk' (refused e) (inr (free, lock, inl same)) = inl same
  Applied-Advanced disk disk' (refused e)
        (inr (free, lock, inr (c, (given, (p, found, valid, verified)), failed, late, left))) =
      inr (p, found, (c, left, valid, verified))

  -- Each command leaves the file as it was, or advances it by an accepted transition.
  pub apply_transition-Advanced :
      (disk : Disk) → Advanced validate verify disk (apply_transition validate verify call disk).1
  apply_transition-Advanced disk =
      Applied-Advanced disk _ (apply_transition validate verify call disk).0
        (apply_transition-Applied validate verify call disk)

-- A sequence of commands on a state file, with what Git and the file system answer to each. Where Git
-- calls one commit an ancestor of another, the other descends from it.
pub data Commands (Descends : String → String → Type 0) (start : Disk) : Disk → Type 0 where
  at_start : Commands Descends start start
  completed :
      {disk : Disk} (repo later : Repository) (call : Call)
      → ((a b : String) → repo.is_ancestor a b ≡ some true → Descends b a)
      → Commands Descends start disk
      → Commands Descends start (apply_completion_transition repo later call disk).1
  activated :
      {disk : Disk} (repo : Repository) (call : Call)
      → Commands Descends start disk
      → Commands Descends start (apply_activation_transition repo call disk).1

-- a file that holds a state with a property, and keeps it under accepted transitions
module _ (P : ControlState → Type 0) where
  abbrev pub Holds : Disk → Type 0
  Holds disk = (s : ControlState) × (disk.state ≡ some s) × P s

  Advanced-Holds :
      (validate verify : ControlState → ControlState → Result Refusal (Unit {0}))
      (disk disk' : Disk)
      → ((p c : ControlState) → validate p c ≡ done tt → verify p c ≡ done tt → P p → P c)
      → Advanced validate verify disk disk'
      → Holds disk
      → Holds disk'
  Advanced-Holds validate verify disk disk' keep (inl same) (s, found, h) = (s, same ∙ found, h)
  Advanced-Holds validate verify disk disk' keep (inr (p, is_p, (c, left, valid, verified)))
        (s, found, h) =
      let same : s ≡ p = ground arith in (c, left, keep p c valid verified (subst P same h))

  apply_transition-Holds :
      (validate verify : ControlState → ControlState → Result Refusal (Unit {0})) (call : Call)
      (disk : Disk)
      → ((p c : ControlState) → validate p c ≡ done tt → verify p c ≡ done tt → P p → P c)
      → Holds disk
      → Holds (apply_transition validate verify call disk).1
  apply_transition-Holds validate verify call disk keep h =
      Advanced-Holds validate verify disk (apply_transition validate verify call disk).1 keep
        (apply_transition-Advanced validate verify call disk) h

-- However the commands fail, and whatever Git and the file system answer, the state file holds a state
-- in the order of the sessions if it held one at the start.
pub commands_keep_order :
    {Descends : String → String → Type 0} {start disk : Disk}
    → Commands Descends start disk
    → Holds IsInOrder start
    → Holds IsInOrder disk
unfolding apply_completion_transition apply_activation_transition
commands_keep_order at_start o = o
commands_keep_order (completed {disk} repo later call truthful run) o =
    apply_transition-Holds IsInOrder validate_completion_transition
      (verify_completion_repository repo later) call disk
      (λ p c valid verified h. Transition-IsInOrder (completion valid)) (commands_keep_order run o)
commands_keep_order (activated {disk} repo call run) o =
    apply_transition-Holds IsInOrder validate_activation_transition
      (verify_activation_repository repo) call disk
      (λ p c valid verified h. Transition-IsInOrder (activation valid)) (commands_keep_order run o)

-- the commit whose descent is tested is the recorded head
base_is_head :
    (p : ControlState) (bootstrap base head : String)
    → ancestry_base p bootstrap ≡ some base
    → p.head_sha
      ≡ (if p.current_session == 0 then p.bootstrap_commit_sha else p.evidence_closure_commit_sha)
    → p.bootstrap_commit_sha ≡ some bootstrap
    → p.head_sha ≡ some head
    → base ≡ head
base_is_head p bootstrap base head h before boot is_head = ground arith

module _ (Descends : String → String → Type 0) (origin : String) where
  -- the commit that the state records descends from the origin
  abbrev pub HeadDescends : ControlState → Type 0
  HeadDescends s = (head : String) × (s.head_sha ≡ some head) × Descends head origin

  module _ (descends_trans : (a b c : String) → Descends a b → Descends b c → Descends a c) where
    completion_descends :
        (repo later : Repository) (p c : ControlState)
        → ((a b : String) → repo.is_ancestor a b ≡ some true → Descends b a)
        → validate_completion_transition p c ≡ done tt
        → verify_completion_repository repo later p c ≡ done tt
        → HeadDescends p
        → HeadDescends c
    completion_descends repo later p c truthful valid verified (head, is_head, descends) =
        let (d, closed) = completion-Completed p c valid in
        let (
          bootstrap,
          has_bootstrap,
          (closure, has_closure, at, clean, (base, has_base, answer)),
        ) =
          verify_completion-Verified repo later p c verified in
        let same : c.bootstrap_commit_sha ≡ p.bootstrap_commit_sha =
          same-bootstrap_commit_sha p c d.kept.0 in
        let is_base : base ≡ head =
          base_is_head p bootstrap base head has_base closed.head_before (cc (same, has_bootstrap))
            is_head in
        (
          closure,
          closed.head ∙ has_closure,
          descends_trans closure head origin
              (subst (Descends closure) is_base (truthful base closure answer)) descends,
        )

    activation_descends :
        (p c : ControlState)
        → validate_activation_transition p c ≡ done tt
        → HeadDescends p
        → HeadDescends c
    activation_descends p c valid (head, is_head, descends) =
        let a = activation-Activated p c valid in
        (head, same-head_sha p c a.kept.1.1.1.1.1.1.1.0 ∙ is_head, descends)

    -- Whatever commands are given, the commit that the state file records descends from the one that it
    -- recorded at the start: no command rewinds or replaces the history.
    pub head_descends :
        {start disk : Disk}
        → Commands Descends start disk
        → Holds HeadDescends start
        → Holds HeadDescends disk
    unfolding apply_completion_transition apply_activation_transition
    head_descends at_start o = o
    head_descends (completed {disk} repo later call truthful run) o =
        apply_transition-Holds HeadDescends validate_completion_transition
          (verify_completion_repository repo later) call disk
          (λ p c. completion_descends repo later p c truthful) (head_descends run o)
    head_descends (activated {disk} repo call run) o =
        apply_transition-Holds HeadDescends validate_activation_transition
          (verify_activation_repository repo) call disk
          (λ p c valid verified. activation_descends p c valid) (head_descends run o)
