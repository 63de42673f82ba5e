-- ===== src/Control/Completion.antt =====
-- What an accepted completion of a session says.
use money_machine.Base.{
  ℕ, ◌⊎◌, dict_eq, without, lookup, eq_iff, ◌+◌, String, ◌≡◌, refl, ◌≢◌, Bool, true, false, not,
  Option, none, some, List, [], ◌∷◌, ◌++◌, arith, ◌==◌, str_eq, str_eq-eq, list_eq, list_eq-eq,
  option_eq, option_eq-eq, ==-eq, keys, same_keys, select, range, All, inl, inr, Option-cases,
  if◌then◌else◌, Bool-cases, subst, sym, eq-str_eq, is_none, range-add_one, same_keys_trans,
}
use money_machine.Results.{done}
use money_machine.Control.Kept.{
  HasContract, IsSame, require_same_fields-IsSame, same-current_session,
}
use money_machine.Control.{validate_completion_transition, kept_by_completion}
use money_machine.Control.Fields.{ContractEntry, as_number, contract_entry_eq, all_values_are}
use money_machine.Control.Closing.{
  names_session, next_session_contract_key, require_contract, require_session_advance,
  require_closed_evidence, require_blockers, require_commits, require_prior_commits,
  missing_evidence, is_sha, sha_eq, closure_evidence_key, is_outer_gates, is_member,
}
use money_machine.Control.Contract.{prompt_of, evidence_keys_of}
use money_machine.Control.Fields.{ControlState, Blocker, nat_eq, require_same_fields, blocker_eq}

-- `xs` is what is left of `ys`, in its order.
pub data IsPart : List Blocker → List Blocker → Type 0 where
  end : IsPart [] []
  keep : {xs ys : List Blocker} (b : Blocker) → IsPart xs ys → IsPart (b ∷ xs) (b ∷ ys)
  drop : {xs ys : List Blocker} (b : Blocker) → IsPart xs ys → IsPart xs (b ∷ ys)

-- What an accepted completion says of the sessions and of the evidence.
pub record Completed (p c : ControlState) : Type 0 where
  pub was_incomplete : p.session_status ≡ "incomplete"
  pub is_complete : c.session_status ≡ "complete"
  pub current : c.current_session ≡ p.current_session
  pub revision : c.state_revision ≡ p.state_revision + 1
  pub completed_before : p.completed_sessions ≡ range p.current_session
  pub completed : c.completed_sessions ≡ range (p.current_session + 1)
  pub next : c.next_session ≡ some (p.current_session + 1)
  pub missing_before : missing_evidence p.required_completion_evidence ≡ closure_evidence_key ∷ []
  pub evidence : all_values_are true c.required_completion_evidence ≡ true
  pub contract : HasContract c
  pub blockers : IsPart c.blockers p.blockers
  pub next_prompt : prompt_of (p.current_session + 1) ≡ some c.next_prompt
  pub updated : c.updated_at ≢ p.updated_at
  pub other_entries :
      dict_eq contract_entry_eq
        (without next_session_contract_key p.transition_contract)
        (without next_session_contract_key c.transition_contract)
      ≡ true
  pub next_entry :
      (lookup next_session_contract_key p.transition_contract ≡ none)
      ⊎ ((entry : ContractEntry) × (lookup next_session_contract_key c.transition_contract
            ≡ some entry)
          × (as_number entry ≡ p.current_session + 1))
  pub kept : All (IsSame p c) kept_by_completion

-- What it says of the commits.
pub record ClosedBy (p c : ControlState) : Type 0 where
  pub is_closure : is_sha c.evidence_closure_commit_sha ≡ true
  pub head : c.head_sha ≡ c.evidence_closure_commit_sha
  pub is_bootstrap : is_sha p.bootstrap_commit_sha ≡ true
  pub not_bootstrap : c.evidence_closure_commit_sha ≢ p.bootstrap_commit_sha
  pub head_before :
      p.head_sha
      ≡ (if p.current_session == 0 then p.bootstrap_commit_sha else p.evidence_closure_commit_sha)
  pub not_prior : c.evidence_closure_commit_sha ≢ p.evidence_closure_commit_sha

list_eq-nil : (xs : List String) → list_eq str_eq xs [] ≡ true → xs ≡ []
unfolding list_eq
list_eq-nil [] h = refl
list_eq-nil (x ∷ xs) h = cc

missing_evidence-nil :
    (evidence : List (String × Bool))
    → missing_evidence evidence ≡ []
    → all_values_are true evidence ≡ true
unfolding missing_evidence select
missing_evidence-nil [] h = refl
missing_evidence-nil ((k, true) ∷ evidence) h = missing_evidence-nil evidence h
missing_evidence-nil ((k, false) ∷ evidence) h = cc

select-IsPart : (p : Blocker → Bool) (bs : List Blocker) → IsPart (select p bs) bs
unfolding select
select-IsPart p [] = end
select-IsPart p (b ∷ bs) = elim (Bool-cases (p b)) [
  | inl kept ↦ rw kept (keep b (select-IsPart p bs))
  | inr dropped ↦ rw dropped (drop b (select-IsPart p bs))
]

blocker_eq-eq : (a b : Blocker) → blocker_eq a b ≡ true → a ≡ b
blocker_eq-eq a b h =
    ground (arith, str_eq-eq a.code b.code, str_eq-eq a.scope b.scope, str_eq-eq a.detail b.detail)

require_blockers-IsPart :
    (p c : ControlState) → require_blockers p c ≡ done tt → IsPart c.blockers p.blockers
unfolding require_blockers
require_blockers-IsPart p c h = elim (Bool-cases (p.current_session == 0)) [
  | inl first ↦
      let e : c.blockers ≡ select (λ blocker. not (is_outer_gates blocker)) p.blockers =
        list_eq-eq blocker_eq blocker_eq-eq _ _ (ground arith) in
      rw e (select-IsPart _ p.blockers)
  | inr later ↦
      let e : c.blockers ≡ select (is_member c.blockers) p.blockers =
        list_eq-eq blocker_eq blocker_eq-eq _ _ (ground arith) in
      subst (λ left. IsPart left p.blockers) (sym e) (select-IsPart _ p.blockers)
]

require_closed_evidence-all :
    (p c : ControlState)
    → require_closed_evidence p c ≡ done tt
    → c.current_session ≡ p.current_session
    → (missing_evidence p.required_completion_evidence ≡ closure_evidence_key ∷ [])
      × (all_values_are true c.required_completion_evidence ≡ true)
      × HasContract c
unfolding require_closed_evidence
require_closed_evidence-all p c h e = elim (Option-cases (evidence_keys_of p.current_session)) [
  | inl missing ↦ absurd (ground arith)
  | inr (contract, found) ↦
      let before = p.required_completion_evidence in
      let after = c.required_completion_evidence in
      let same : same_keys (keys before) contract ≡ true = ground arith in
      let same' : same_keys (keys after) (keys before) ≡ true = ground arith in
      let left : list_eq str_eq (missing_evidence before) (closure_evidence_key ∷ []) ≡ true =
        ground arith in
      let left' : list_eq str_eq (missing_evidence after) [] ≡ true = ground arith in
      (
        list_eq-eq str_eq str_eq-eq _ _ left,
        missing_evidence-nil after (list_eq-nil _ left'),
        (contract, rw e found, same_keys_trans (keys after) (keys before) contract same' same),
      )
]

sha_eq_refl : (a : Option String) → sha_eq a a ≡ true
sha_eq_refl none = refl
sha_eq_refl (some sha) = eq-str_eq sha sha refl

-- commits that the comparison tells apart
sha_eq-ne : (a b : Option String) → sha_eq a b ≡ false → a ≢ b
sha_eq-ne a b h e =
    let same : sha_eq a b ≡ true = subst (λ sha. sha_eq a sha ≡ true) e (sha_eq_refl a) in cc

sha_eq-eq : (a b : Option String) → sha_eq a b ≡ true → a ≡ b
sha_eq-eq a b h = option_eq-eq str_eq str_eq-eq a b h

sha-ne-none : (a b : Option String) → is_sha a ≡ true → is_none b ≡ true → a ≢ b
unfolding is_sha
sha-ne-none none b h k e = cc
sha-ne-none (some sha) none h k e = cc
sha-ne-none (some sha) (some sha') h k e = cc

require_prior_commits-before :
    (p c : ControlState)
    → require_prior_commits p c ≡ done tt
    → is_sha c.evidence_closure_commit_sha ≡ true
    → (p.head_sha ≡ (
        if p.current_session == 0 then p.bootstrap_commit_sha else p.evidence_closure_commit_sha))
      × (c.evidence_closure_commit_sha ≢ p.evidence_closure_commit_sha)
unfolding require_prior_commits
require_prior_commits-before p c h closure = elim (Bool-cases (p.current_session == 0)) [
  | inl first ↦ rw first (
    sha_eq-eq p.head_sha p.bootstrap_commit_sha (ground arith),
    sha-ne-none _ p.evidence_closure_commit_sha closure (ground arith),
  )
  | inr later ↦ rw later (
    sha_eq-eq p.head_sha p.evidence_closure_commit_sha (ground arith),
    sha_eq-ne c.evidence_closure_commit_sha p.evidence_closure_commit_sha (ground arith),
  )
]

require_commits-ClosedBy : (p c : ControlState) → require_commits p c ≡ done tt → ClosedBy p c
unfolding require_commits
require_commits-ClosedBy p c h =
    let closure : is_sha c.evidence_closure_commit_sha ≡ true = ground arith in
    let prior : require_prior_commits p c ≡ done tt = ground arith in
    let (head_before, not_prior) = require_prior_commits-before p c prior closure in
    record {
      is_closure = closure;
      head = sha_eq-eq c.head_sha c.evidence_closure_commit_sha (ground arith);
      is_bootstrap = ground arith;
      not_bootstrap = λ e.
          sha_eq-ne p.bootstrap_commit_sha c.evidence_closure_commit_sha (ground arith) (sym e);
      head_before = head_before;
      not_prior = not_prior;
    }

require_session_advance-advanced :
    (prompt : String) (p c : ControlState)
    → require_session_advance prompt p c ≡ done tt
    → (c.state_revision ≡ p.state_revision + 1)
      × (p.completed_sessions ≡ range p.current_session)
      × (c.completed_sessions ≡ range (p.current_session + 1))
      × (c.next_session ≡ some (c.current_session + 1))
      × (c.next_prompt ≡ prompt)
      × (c.updated_at ≢ p.updated_at)
unfolding require_session_advance
require_session_advance-advanced prompt p c h =
    let before : list_eq nat_eq p.completed_sessions (range p.current_session) ≡ true =
      ground arith in
    let after : list_eq nat_eq c.completed_sessions
          (range p.current_session ++ (p.current_session ∷ []))
        ≡ true =
      ground arith in
    let next : option_eq nat_eq c.next_session (some (c.current_session + 1)) ≡ true =
      ground arith in
    (
      ground arith,
      list_eq-eq nat_eq ==-eq _ _ before,
      rw range-add_one (list_eq-eq nat_eq ==-eq _ _ after),
      option_eq-eq nat_eq ==-eq _ _ next,
      str_eq-eq c.next_prompt prompt (ground arith),
      (λ same. ground (arith, eq_iff c.updated_at p.updated_at)),
    )

names_session-eq :
    (entry : Option ContractEntry) (session : ℕ) {next : Option ℕ}
    → next ≡ some session
    → names_session entry next ≡ true
    → (e : ContractEntry) × (entry ≡ some e) × (as_number e ≡ session)
names_session-eq none session is h = absurd (ground arith)
names_session-eq (some entry) session is h = (entry, refl, ground arith)

require_contract-entries :
    (p c : ControlState) (session : ℕ)
    → c.next_session ≡ some session
    → require_contract p c ≡ done tt
    → (dict_eq contract_entry_eq
          (without next_session_contract_key p.transition_contract)
          (without next_session_contract_key c.transition_contract)
        ≡ true)
      × ((lookup next_session_contract_key p.transition_contract ≡ none)
          ⊎ ((entry : ContractEntry) × (lookup next_session_contract_key c.transition_contract
                ≡ some entry)
              × (as_number entry ≡ session)))
unfolding require_contract
require_contract-entries p c session is h = (
  ground arith,
  elim (Option-cases (lookup next_session_contract_key p.transition_contract)) [
    | inl missing ↦ inl missing
    | inr (old, had) ↦ inr (
        names_session-eq (lookup next_session_contract_key c.transition_contract) session is
          (ground arith))
  ],
)

next_prompt_lem :
    (p c : ControlState)
    → validate_completion_transition p c ≡ done tt
    → (prompt : String) × (prompt_of (p.current_session + 1) ≡ some prompt)
      × (require_session_advance prompt p c ≡ done tt)
unfolding validate_completion_transition
next_prompt_lem p c h = elim (Option-cases (prompt_of (p.current_session + 1))) [
  | inl missing ↦ absurd (ground arith)
  | inr (prompt, found) ↦ (prompt, found, ground arith)
]

-- An accepted completion closes the incomplete session: it appends it to the contiguous sessions before
-- it, points to the next one and its canonical prompt, raises the revision by one, changes the time of
-- the update, finds all evidence given but the closure's and ends with all given, adds no blocker, changes
-- no entry of the transition contract but that of the next session, which names it where there was one,
-- keeps the other thirteen fields, and records a new closure commit as the head, after the bootstrap
-- commit in session 0 and after the prior closure in the others.
pub completion-Completed :
    (p c : ControlState)
    → validate_completion_transition p c ≡ done tt
    → Completed p c × ClosedBy p c
unfolding validate_completion_transition
completion-Completed p c h =
    let kept : require_same_fields kept_by_completion p c ≡ done tt = ground arith in
    let same = require_same_fields-IsSame _ p c kept in
    let current = same-current_session p c same.1.1.1.0 in
    let (next_prompt, named, advance) = next_prompt_lem p c h in
    let (revision, before, after, next, prompt_is, updated) =
      require_session_advance-advanced next_prompt p c advance in
    let contract_kept : require_contract p c ≡ done tt = ground arith in
    let (other_entries, next_entry) =
      require_contract-entries p c (p.current_session + 1) (rw (← current) next) contract_kept in
    let evidence : require_closed_evidence p c ≡ done tt = ground arith in
    let (missing_before, all_true, contract) = require_closed_evidence-all p c evidence current in
    (
      record {
        was_incomplete = str_eq-eq p.session_status _ (ground arith);
        is_complete = str_eq-eq c.session_status _ (ground arith);
        current = current;
        revision = revision;
        completed_before = before;
        completed = after;
        next = rw (← current) next;
        missing_before = missing_before;
        evidence = all_true;
        contract = contract;
        blockers = require_blockers-IsPart p c (ground arith);
        next_prompt = cc (named, prompt_is);
        updated = updated;
        other_entries = other_entries;
        next_entry = next_entry;
        kept = same;
      },
      require_commits-ClosedBy p c (ground arith),
    )
