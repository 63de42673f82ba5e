-- ===== src/Control/Sessions.antt =====
-- The order of the sessions under accepted transitions of the implementation state.
use money_machine.Base.{
  ℕ, suc, ◌+◌, ◌≡◌, refl, ◌≢◌, some, arith, ◌∙◌, range, ◌⊎◌, inl, inr, eq_iff, String, true,
}
use money_machine.Results.{done}
use money_machine.Control.{validate_activation_transition, validate_completion_transition}
use money_machine.Control.Fields.{all_values_are}
use money_machine.Control.Fields.{ControlState}
use money_machine.Control.Kept.{HasContract, same-completed_sessions}
use money_machine.Control.Activation.{Activated, activation-Activated}
use money_machine.Control.Completion.{Completed, completion-Completed}

-- A state in the order of the sessions: the sessions before an incomplete one are complete, and a
-- complete one is complete itself, has all of its evidence and is followed by the next.
pub record IsInOrder (s : ControlState) : Type 0 where
  pub contract : HasContract s
  pub working : s.session_status ≡ "incomplete" → s.completed_sessions ≡ range s.current_session
  pub closed :
      s.session_status ≡ "complete"
      → (s.completed_sessions ≡ range (s.current_session + 1))
        × (s.next_session ≡ some (s.current_session + 1))
        × (all_values_are true s.required_completion_evidence ≡ true)

-- A transition that one of the two validators accepts.
pub data Transition (p c : ControlState) : Type 0 where
  activation : validate_activation_transition p c ≡ done tt → Transition p c
  completion : validate_completion_transition p c ≡ done tt → Transition p c

-- `Reaches n m s t`: n activations and m completions lead from s to t
pub data Reaches (s : ControlState) : ℕ → ℕ → ControlState → Type 0 where
  here : Reaches s 0 0 s
  activate :
      {n m : ℕ} {p c : ControlState}
      → Reaches s n m p
      → validate_activation_transition p c ≡ done tt
      → Reaches s (suc n) m c
  complete :
      {n m : ℕ} {p c : ControlState}
      → Reaches s n m p
      → validate_completion_transition p c ≡ done tt
      → Reaches s n (suc m) c

incomplete-ne_complete : {s : String} → s ≡ "incomplete" → s ≢ "complete"
incomplete-ne_complete h k = ground (arith, eq_iff "incomplete" "complete")

Activated-IsInOrder : {p c : ControlState} → Activated p c → IsInOrder c
Activated-IsInOrder {p} {c} a = record {
  contract = a.contract;
  working = λ _. rw a.current (same-completed_sessions p c a.kept.1.1.1.1.0 ∙ a.completed_before);
  closed = λ h. absurd (incomplete-ne_complete a.is_incomplete h);
}

Completed-IsInOrder : {p c : ControlState} → Completed p c → IsInOrder c
Completed-IsInOrder {p} {c} d = record {
  contract = d.contract;
  working = λ h. absurd (incomplete-ne_complete h d.is_complete);
  closed = λ _. rw d.current (d.completed, d.next, d.evidence);
}

-- Whatever the state before it, the state after an accepted transition is in order.
pub Transition-IsInOrder : {p c : ControlState} → Transition p c → IsInOrder c
Transition-IsInOrder {p} {c} (activation h) = Activated-IsInOrder (activation-Activated p c h)
Transition-IsInOrder {p} {c} (completion h) = Completed-IsInOrder (completion-Completed p c h).0

-- Every accepted sequence of transitions keeps the order of the sessions.
pub Reaches-IsInOrder :
    {s : ControlState} {n m : ℕ} {t : ControlState} → Reaches s n m t → IsInOrder s → IsInOrder t
Reaches-IsInOrder here o = o
Reaches-IsInOrder (activate r h) o = Transition-IsInOrder (activation h)
Reaches-IsInOrder (complete r h) o = Transition-IsInOrder (completion h)

-- where a sequence of n activations and m completions leaves the status
abbrev pub Alternates : ControlState → ℕ → ℕ → Type 0
Alternates t n m =
    ((t.session_status ≡ "incomplete") × (m ≡ n)) ⊎ ((t.session_status ≡ "complete") × (m ≡ n + 1))

Alternates-activate :
    {n m : ℕ} {p c : ControlState} → Alternates p n m → Activated p c → Alternates c (suc n) m
Alternates-activate (inl (incomplete, e)) a =
    absurd (incomplete-ne_complete incomplete a.was_complete)
Alternates-activate (inr (closed, e)) a = inl (a.is_incomplete, omega arith)

Alternates-complete :
    {n m : ℕ} {p c : ControlState} → Alternates p n m → Completed p c → Alternates c n (suc m)
Alternates-complete (inl (incomplete, e)) d = inr (d.is_complete, omega arith)
Alternates-complete (inr (closed, e)) d = absurd (incomplete-ne_complete d.was_incomplete closed)

-- From an incomplete session, every accepted sequence of transitions runs through the sessions one by
-- one: n activations lead n sessions further, every transition raises the revision by one, and
-- completions and activations take turns, a completion first.
pub Reaches-one_by_one :
    {s : ControlState} {n m : ℕ} {t : ControlState}
    → Reaches s n m t
    → s.session_status ≡ "incomplete"
    → (t.current_session ≡ s.current_session + n)
      × (t.state_revision ≡ s.state_revision + n + m)
      × Alternates t n m
Reaches-one_by_one here h = (omega arith, omega arith, inl (h, refl))
Reaches-one_by_one (activate {p} {c} r h) start =
    let a = activation-Activated p c h in
    let (session, revision, turn) = Reaches-one_by_one r start in
    (omega (arith, a.current), omega (arith, a.revision), Alternates-activate turn a)
Reaches-one_by_one (complete {p} {c} r h) start =
    let d = (completion-Completed p c h).0 in
    let (session, revision, turn) = Reaches-one_by_one r start in
    (omega (arith, d.current), omega (arith, d.revision), Alternates-complete turn d)
