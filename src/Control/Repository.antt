-- ===== src/Control/Repository.antt =====
-- The checks of src/money_machine/control/state.py against the file system and Git. What those answer
-- is a parameter: Git's commands and the comparison of paths are not the program's own code.
use money_machine.Base.{
  String, Bool, true, not, ◌&&◌, ◌||◌, Option, some, List, [], ◌∷◌, ◌==◌, str_eq, if◌then◌else◌,
  option_eq,
}
use money_machine.Results.{Result, refused, check, present, ◌>>=◌, ◌>>◌}
use money_machine.Control.Fields.{ControlState, Field, same_field, Refusal}
use money_machine.Control.Fields.Refusal.{
  no_repository, wrong_path, wrong_worktree, wrong_branch, shas_required, not_a_commit, git_failed,
  wrong_subject, head_required, not_an_ancestor, head_moved, not_clean, bad_document, claims_itself,
  wrong_document,
}
use money_machine.Control.Fields.Field.{
  programme, version, repo_root, windows_repo_root, branch, head_sha, bootstrap_commit_sha,
  evidence_closure_commit_sha, last_verified_commit, state_revision, session_status,
  current_session, completed_sessions, services, commissioned_agents, tests, environment_versions,
  blockers, next_session, next_prompt, required_completion_evidence, transition_contract,
  updated_at, others,
}

-- the implementation state that a commit holds: no JSON object, an object of another form with its
-- two commit fields, or a state
pub data Document : Type 0 where
  invalid : Document
  partial : Option String → Option String → Document
  state : ControlState → Document

-- What the file system and Git answer at one moment; `none` where the command fails.
pub record Repository : Type 0 where
  pub is_dir : String → Bool
  pub is_state_path : String → Bool
  pub toplevel_is : String → Option Bool
  pub current_branch : Option String
  pub head_commit : Option String
  pub is_clean : Option Bool
  pub rev_parse : String → Option String
  pub subject : String → Option String
  pub is_ancestor : String → String → Option Bool
  pub document : String → Option Document

abbrev all_fields : List Field
all_fields =
    programme ∷ version ∷ repo_root ∷ windows_repo_root ∷ branch ∷ head_sha ∷ bootstrap_commit_sha
    ∷ evidence_closure_commit_sha ∷ last_verified_commit ∷ state_revision ∷ session_status
    ∷ current_session ∷ completed_sessions ∷ services ∷ commissioned_agents ∷ tests
    ∷ environment_versions ∷ blockers ∷ next_session ∷ next_prompt ∷ required_completion_evidence
    ∷ transition_contract ∷ updated_at ∷ others ∷ []

all_same : List Field → ControlState → ControlState → Bool
unfolding same_field
all_same [] s t = true
all_same (field ∷ fields) s t = same_field field s t && all_same fields s t

-- `closure_state == previous`
unfoldable pub same_state : ControlState → ControlState → Bool
unfolding all_same
same_state s t = all_same all_fields s t

-- the state that the closure commit holds is the one before the transition
unfoldable pub check_document : String → ControlState → Document → Result Refusal (Unit {0})
check_document closure previous invalid = refused bad_document
check_document closure previous (partial head sha) = do
  check (not (option_eq str_eq head (some closure) || option_eq str_eq sha (some closure)))
      claims_itself
  refused wrong_document
check_document closure previous (state s) = do
  check
      (not (
        option_eq str_eq s.head_sha (some closure)
        || option_eq str_eq s.evidence_closure_commit_sha (some closure)))
      claims_itself
  check (same_state s previous) wrong_document

-- the commit that the closure descends from
abbrev pub ancestry_base : ControlState → String → Option String
ancestry_base previous bootstrap =
    if previous.current_session == 0 then some bootstrap else previous.head_sha

module _ (repo : Repository) where
  -- `_resolve_commit`
  unfoldable pub resolve_commit : String → Result Refusal (Unit {0})
  resolve_commit commit = do
    resolved ← present (repo.rev_parse commit) git_failed
    check (str_eq resolved commit) not_a_commit

  -- `_assert_repo_at_closure`
  unfoldable pub assert_repo_at_closure : String → String → Result Refusal (Unit {0})
  assert_repo_at_closure closure recorded_branch = do
    head ← present repo.head_commit git_failed
    check (str_eq head closure) head_moved
    current ← present repo.current_branch git_failed
    check (str_eq current recorded_branch) wrong_branch
    clean ← present repo.is_clean git_failed
    check clean not_clean

  -- `_validate_repo_identity`
  unfoldable pub validate_repo_identity : ControlState → Result Refusal (Unit {0})
  validate_repo_identity current = do
    check (repo.is_dir current.repo_root) no_repository
    check (repo.is_state_path current.repo_root) wrong_path
    at_root ← present (repo.toplevel_is current.repo_root) git_failed
    check at_root wrong_worktree
    actual ← present repo.current_branch git_failed
    check (str_eq actual current.branch) wrong_branch

  -- `_validate_git_evidence`
  unfoldable pub validate_git_evidence : ControlState → ControlState → Result Refusal (Unit {0})
  validate_git_evidence previous current = do
    validate_repo_identity current
    bootstrap ← present current.bootstrap_commit_sha shas_required
    closure ← present current.evidence_closure_commit_sha shas_required
    resolve_commit bootstrap
    resolve_commit closure
    line ← present (repo.subject bootstrap) git_failed
    check (str_eq line "chore(bootstrap): initialise money machine autonomous monorepo")
        wrong_subject
    base ← present (ancestry_base previous bootstrap) head_required
    resolve_commit base
    descends ← present (repo.is_ancestor base closure) git_failed
    check descends not_an_ancestor
    assert_repo_at_closure closure current.branch
    held ← present (repo.document closure) git_failed
    check_document closure previous held

-- `_verify_completion_repository`; Git is asked for HEAD, the branch and the work tree once more
unfoldable pub verify_completion_repository :
    Repository → Repository → ControlState → ControlState → Result Refusal (Unit {0})
verify_completion_repository repo later previous current = do
  validate_git_evidence repo previous current
  closure ← present current.evidence_closure_commit_sha shas_required
  assert_repo_at_closure later closure current.branch

-- `_verify_activation_repository`
unfoldable pub verify_activation_repository :
    Repository → ControlState → ControlState → Result Refusal (Unit {0})
verify_activation_repository repo previous current = validate_repo_identity repo current
