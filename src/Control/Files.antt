-- ===== src/Control/Files.antt =====
-- The state file of src/money_machine/control/state.py: its lock, its replacement and the two commands
-- that apply a transition to it.
use money_machine.Base.{Bool, not, Option, some, if◌then◌else◌}
use money_machine.Results.{Result, done, refused, present, ◌>>=◌, ◌>>◌}
use money_machine.Control.{validate_activation_transition, validate_completion_transition}
use money_machine.Control.Fields.{ControlState, Refusal}
use money_machine.Control.Fields.Refusal.{unreadable, same_path, lock_held, write_failed}
use money_machine.Control.Repository.{
  Repository, verify_completion_repository, verify_activation_repository,
}

-- The state file, `none` where it is no valid state, and whether its lock file exists.
pub record Disk : Type 0 where
  pub state : Option ControlState
  pub is_locked : Bool

-- How the replacement of the file ends: as meant, with an error before `os.replace`, or with one after
-- it, from the synchronisation of the directory.
pub data WriteEnd : Type 0 where
  written not_replaced not_synchronised : WriteEnd

-- What the file system does during one call.
pub record Call : Type 0 where
  pub paths_resolve : Bool
  pub is_same_file : Bool
  pub can_lock : Bool
  pub candidate : Option ControlState
  pub write_end : WriteEnd
  pub can_unlock : Bool

-- `_atomic_write_json`, under the handler of `_apply_transition`
unfoldable pub atomic_write :
    WriteEnd
    → ControlState
    → Option ControlState
    → Result Refusal ControlState × Option ControlState
atomic_write written current file = (done current, some current)
atomic_write not_replaced current file = (refused write_failed, file)
atomic_write not_synchronised current file = (refused write_failed, some current)

module _ (validate : ControlState → ControlState → Result Refusal (Unit {0}))
    (verify_repository : ControlState → ControlState → Result Refusal (Unit {0})) where
  -- what is tested before the write
  unfoldable pub vetted : Call → Option ControlState → Result Refusal ControlState
  vetted call file = do
    previous ← present file unreadable
    current ← present call.candidate unreadable
    validate previous current
    verify_repository previous current
    done current

  unfoldable pub write_vetted :
      Call
      → Option ControlState
      → Result Refusal ControlState
      → Result Refusal ControlState × Option ControlState
  write_vetted call file (done current) = atomic_write call.write_end current file
  write_vetted call file (refused e) = (refused e, file)

  -- the body of the `with`, and the release of the lock after it
  unfoldable pub under_lock : Call → Disk → Result Refusal ControlState × Disk
  under_lock call disk =
      let (answer, file) = write_vetted call disk.state (vetted call disk.state) in
      (answer, record { state = file; is_locked = not call.can_unlock })

  -- `_apply_transition`
  unfoldable pub apply_transition : Call → Disk → Result Refusal ControlState × Disk
  apply_transition call disk =
      if not call.paths_resolve
      then (refused unreadable, disk)
      else if call.is_same_file
      then (refused same_path, disk)
      else if disk.is_locked
      then (refused lock_held, disk)
      else if not call.can_lock
      then (refused lock_held, disk)
      else under_lock call disk

unfoldable pub apply_completion_transition :
    Repository → Repository → Call → Disk → Result Refusal ControlState × Disk
apply_completion_transition repo later =
    apply_transition validate_completion_transition (verify_completion_repository repo later)

unfoldable pub apply_activation_transition :
    Repository → Call → Disk → Result Refusal ControlState × Disk
apply_activation_transition repo =
    apply_transition validate_activation_transition (verify_activation_repository repo)
