-- ===== src/Dependencies/Reasons.antt =====
-- Why a job is not ready, and the exception that `promote_pending_to_ready` selects by looking for a
-- word in the reason's text. Texts are ASCII.
use Prim.Native.Char.{code}
use money_machine.Base.{
  ℕ, ◌+◌, String, Bool, true, false, ◌&&◌, ◌||◌, List, [], ◌∷◌, map, leb, ◌==◌, if◌then◌else◌,
}
use money_machine.Errors.{
  ResolutionError, resolution_failed, dependency_not_satisfied, workflow_inactive,
  idempotency_collision,
}

pub data Reason : Type 0 where
  not_found not_pending not_due dependencies_open workflow_ended lifecycle_ended : Reason
  key_taken : String → Reason

abbrev codes : String → List ℕ
codes String.[] = []
codes (String.◌∷◌ c s) = code c ∷ codes s

-- `str.lower`
lower : List ℕ → List ℕ
lower = map (λ c. if leb b'A' c && leb c b'Z' then c + 32 else c)

starts_with : List ℕ → List ℕ → Bool
starts_with [] text = true
starts_with (c ∷ word) [] = false
starts_with (c ∷ word) (d ∷ text) = c == d && starts_with word text

-- `word in text`
occurs_in : List ℕ → List ℕ → Bool
unfolding starts_with
occurs_in word [] = starts_with word []
occurs_in word (c ∷ text) = starts_with word (c ∷ text) || occurs_in word text

unfoldable pub mentions : String → String → Bool
unfolding lower occurs_in
mentions word key = occurs_in (codes word) (lower (codes key))

-- The texts of the other reasons are fixed but for a UUID, a status or a moment, and mention
-- "dependencies" or "workflow" where it is shown here. That of a taken key repeats the key. No word
-- that is looked for has a space in it, so it lies in the key or not at all.
unfoldable pub error_for : Reason → ResolutionError
unfolding mentions
error_for dependencies_open = dependency_not_satisfied
error_for workflow_ended = workflow_inactive
error_for (key_taken key) =
    if mentions "dependencies" key
    then dependency_not_satisfied
    else if mentions "workflow" key
    then workflow_inactive
    else idempotency_collision
error_for _ = resolution_failed

-- `word in text`, on texts as they are
unfoldable pub contains : String → String → Bool
unfolding occurs_in
contains word text = occurs_in (codes word) (codes text)
