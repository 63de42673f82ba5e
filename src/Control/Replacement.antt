-- ===== src/Control/Replacement.antt =====
-- What a call of a transition leaves in the state file.
use money_machine.Base.{
  true, ◌≡◌, refl, ◌⊎◌, inl, inr, false, Option, some, arith, not, Option-cases, Bool-cases, sym,
  subst,
}
use money_machine.Results.{Result, done, refused}
use money_machine.Control.Fields.{ControlState, Refusal}
use money_machine.Control.Fields.Refusal.{write_failed, unreadable, same_path, lock_held}
use money_machine.Control.Files.{
  Disk, Call, WriteEnd, written, not_replaced, not_synchronised, vetted, write_vetted, atomic_write,
  under_lock, apply_transition,
}

module _ (validate : ControlState → ControlState → Result Refusal (Unit {0}))
    (verify : ControlState → ControlState → Result Refusal (Unit {0})) where
  -- the candidate has passed every test against the state in the file
  abbrev pub Passes : Call → Option ControlState → ControlState → Type 0
  Passes call file current =
      (call.candidate ≡ some current)
      × ((previous : ControlState) × (file ≡ some previous)
          × (validate previous current ≡ done tt)
          × (verify previous current ≡ done tt))

  vetted-Passes :
      (call : Call) (file : Option ControlState) {current : ControlState}
      → vetted validate verify call file ≡ done current
      → Passes call file current
  unfolding vetted
  vetted-Passes call file {current} h = elim (Option-cases file) [
    | inl missing ↦ absurd (ground arith)
    | inr (previous, found) ↦ elim (Option-cases call.candidate) [
      | inl missing ↦ absurd (ground arith)
      | inr (candidate, given) ↦
          let same : candidate ≡ current = ground arith in
          (
            rw (← same) given,
            (
              previous,
              found,
              subst (λ c. validate previous c ≡ done tt) same (ground arith),
              subst (λ c. verify previous c ≡ done tt) same (ground arith),
            ),
          )
    ]
  ]

  -- The call ends before it has the lock: a path does not resolve, the two are one file, another call
  -- holds the lock, or the lock file cannot be made.
  abbrev pub EndsEarly : Call → Disk → Type 0
  EndsEarly call disk =
      (call.paths_resolve ≡ false)
      ⊎ ((call.is_same_file ≡ true) ⊎ ((disk.is_locked ≡ true) ⊎ (call.can_lock ≡ false)))

  -- the file is as it was, or the write has failed after the candidate, which has passed, replaced it
  abbrev pub LeavesFile : Call → Disk → Refusal → Disk → Type 0
  LeavesFile call disk e disk' =
      (disk'.state ≡ disk.state)
      ⊎ ((current : ControlState) × Passes call disk.state current
          × (e ≡ write_failed)
          × (call.write_end ≡ not_synchronised)
          × (disk'.state ≡ some current))

  -- What a call answers and leaves. Done, it has put the candidate, which has passed, in the place of
  -- the file. Refused, it has changed nothing before the lock, and given the lock back after it.
  abbrev pub Applied : Call → Disk → Result Refusal ControlState → Disk → Type 0
  Applied call disk (done current) disk' =
      Passes call disk.state current
      × (disk.is_locked ≡ false)
      × (disk'.state ≡ some current)
      × (disk'.is_locked ≡ not call.can_unlock)
  Applied call disk (refused e) disk' =
      (EndsEarly call disk × (disk' ≡ disk))
      ⊎ ((disk.is_locked ≡ false)
          × (disk'.is_locked ≡ not call.can_unlock)
          × LeavesFile call disk e disk')

  ended :
      (call : Call) (disk : Disk) (current : ControlState) (end : WriteEnd)
      → call.write_end ≡ end
      → disk.is_locked ≡ false
      → Passes call disk.state current
      → let (answer, file) = atomic_write end current disk.state in
        Applied call disk answer (record { state = file; is_locked = not call.can_unlock })
  unfolding atomic_write
  ended call disk current written e free passes = (passes, free, refl, refl)
  ended call disk current not_replaced e free passes = inr (free, refl, inl refl)
  ended call disk current not_synchronised e free passes =
      inr (free, refl, inr (current, passes, refl, e, refl))

  write_vetted-Applied :
      (call : Call) (disk : Disk) (r : Result Refusal ControlState)
      → vetted validate verify call disk.state ≡ r
      → disk.is_locked ≡ false
      → let (answer, file) = write_vetted validate verify call disk.state r in
        Applied call disk answer (record { state = file; is_locked = not call.can_unlock })
  unfolding write_vetted
  write_vetted-Applied call disk (done current) e free =
      ended call disk current call.write_end refl free (vetted-Passes call disk.state e)
  write_vetted-Applied call disk (refused e) h free = inr (free, refl, inl refl)

  under_lock-Applied :
      (call : Call) (disk : Disk)
      → disk.is_locked ≡ false
      → let (answer, disk') = under_lock validate verify call disk in Applied call disk answer disk'
  unfolding under_lock
  under_lock-Applied call disk free =
      write_vetted-Applied call disk (vetted validate verify call disk.state) refl free

  -- a call is refused before the lock is taken, or its body runs
  apply_transition-cases :
      (call : Call) (disk : Disk)
      → ((e : Refusal) × EndsEarly call disk
          × (apply_transition validate verify call disk ≡ (refused e, disk)))
        ⊎ ((disk.is_locked ≡ false)
            × (apply_transition validate verify call disk ≡ under_lock validate verify call disk))
  unfolding apply_transition
  apply_transition-cases call disk = elim (Bool-cases call.paths_resolve) [
    | inr unresolved ↦ inl (unreadable, inl unresolved, ground arith)
    | inl resolved ↦ elim (Bool-cases call.is_same_file) [
      | inl same ↦ inl (same_path, inr (inl same), ground arith)
      | inr separate ↦ elim (Bool-cases disk.is_locked) [
        | inl held ↦ inl (lock_held, inr (inr (inl held)), ground arith)
        | inr free ↦ elim (Bool-cases call.can_lock) [
          | inr cannot ↦ inl (lock_held, inr (inr (inr cannot)), ground arith)
          | inl can ↦ inr (free, ground arith)
        ]
      ]
    ]
  ]

  -- A transition that answers with a state found the lock free and a candidate that passed both tests
  -- against the state in the file, and has put it in the file's place; the lock is gone unless its
  -- release failed. One that raises before it has the lock, for an unresolved path, one file for both,
  -- or a lock that is held or cannot be made, has changed nothing. One that raises with the lock gives it
  -- back, unless the release fails, and leaves the file as it was, except that a failure after the
  -- replacement reports a failed write although the candidate stands in the file.
  pub apply_transition-Applied :
      (call : Call) (disk : Disk)
      → let (answer, disk') = apply_transition validate verify call disk in
        Applied call disk answer disk'
  apply_transition-Applied call disk = elim (apply_transition-cases call disk) [
    | inl (e, early, before) ↦
        subst (λ p. Applied call disk p.0 p.1) (sym before) (inl (early, refl))
    | inr (free, runs) ↦
        subst (λ p. Applied call disk p.0 p.1) (sym runs) (under_lock-Applied call disk free)
  ]
