-- ===== src/Io/Wait/Wakeup.antt =====
-- No wake-up is lost.
use homemade_os.Base.{
  ℕ, zero, suc, ◌+◌, ◌-◌, ◌≤◌, ◌<◌, ◌≡◌, refl, sym, ap, subst, ◌∙◌, arith, inl, inr, false, Option,
  some, List, [], ◌∷◌, ◌==◌, Bool-cases, Option-cases,
}
use homemade_os.Io.{
  IoTask, find_expected, pend_io, complete_io, take_completed, try_cancel_io, cancel_io_handler,
  set_cancellable,
}
use homemade_os.Io.Wait.Matching.{
  matching, find_expected-none, find_expected-some, pend_io-matching, complete_io-matching,
  try_cancel_io-matching, cancel_io_handler-matching, set_cancellable-matching, take_completed-none,
}
use homemade_os.Io.Wait.{
  Stage, idle, draining, searching, asleep, returned, System, Event, pend, complete, try_cancel,
  cancel, set_flag, release, wait, turn, go_on, step, run, Reachable, here, next, begin,
}

-- The semaphore is there as often as it will be taken, and for each request that a sleeping task waits for
-- a release has come or is to come.
abbrev IsAwakeAt : Stage → System → Type 0
IsAwakeAt idle s = Unit {0}
IsAwakeAt (draining v expected) s = v ≤ s.semaphore
IsAwakeAt (searching expected) s = Unit {0}
IsAwakeAt (asleep expected) s = matching expected s.task.completed ≤ s.semaphore + s.releasing
IsAwakeAt (returned ior) s = Unit {0}

abbrev pub IsAwake : System → Type 0
IsAwake s = IsAwakeAt s.stage s

-- With no more completed requests to wait for than the releases have grown, the state is kept.
grow_at :
    (stage : Stage) (s s' : System)
    → s.semaphore ≤ s'.semaphore
    → ((expected : Option ℕ)
        → matching expected s'.task.completed + (s.semaphore + s.releasing)
          ≤ matching expected s.task.completed + (s'.semaphore + s'.releasing))
    → IsAwakeAt stage s
    → IsAwakeAt stage s'
grow_at idle s s' up more h = tt
grow_at (draining v expected) s s' up more h = omega arith
grow_at (searching expected) s s' up more h = tt
grow_at (asleep expected) s s' up more h = omega (arith, more expected)
grow_at (returned ior) s s' up more h = tt

-- Another task, with no more of the completed requests.
with_task-IsAwake :
    (s : System) (t : IoTask)
    → ((expected : Option ℕ) → matching expected t.completed ≤ matching expected s.task.completed)
    → IsAwake s
    → IsAwake (record s { task = t })
with_task-IsAwake s t fewer h =
    grow_at s.stage s (record s { task = t }) (omega arith)
      (λ expected. omega (arith, fewer expected)) h

begin-IsAwake :
    (stage : Stage) (expected : Option ℕ) (s s' : System)
    → begin stage expected s ≡ some s'
    → IsAwake s'
begin-IsAwake idle expected s s' k =
    let after : record s { stage = draining s.semaphore expected } ≡ s' = ground arith in
    subst IsAwake after (omega arith)
begin-IsAwake (draining v e) expected s s' k = cc
begin-IsAwake (searching e) expected s s' k = cc
begin-IsAwake (asleep e) expected s s' k = cc
begin-IsAwake (returned ior) expected s s' k = cc

go_on-IsAwake :
    (stage : Stage) (s s' : System) → IsAwakeAt stage s → go_on stage s ≡ some s' → IsAwake s'
unfolding go_on
go_on-IsAwake idle s s' h k = cc
go_on-IsAwake (draining zero expected) s s' h k =
    let e : record s { stage = searching expected } ≡ s' = ground arith in subst IsAwake e tt
go_on-IsAwake (draining (suc v) expected) s s' h k = elim (Bool-cases (s.semaphore == 0)) [
  | inl e ↦ ground arith
  | inr e ↦
      let after : record s { semaphore = s.semaphore - 1; stage = draining v expected } ≡ s' =
        ground arith in
      subst IsAwake after (omega arith)
]
go_on-IsAwake (searching expected) s s' h k = elim (Option-cases (take_completed expected s.task)) [
  | inl missed ↦
      let after : record s { stage = asleep expected } ≡ s' = ground arith in
      let all : matching expected s.task.completed ≡ 0 =
        find_expected-none expected s.task.completed (take_completed-none expected s.task missed) in
      subst IsAwake after (omega (arith, all))
  | inr ((ior, t), found) ↦
      let after : record s { task = t; stage = returned ior } ≡ s' = ground arith in
      subst IsAwake after tt
]
go_on-IsAwake (asleep expected) s s' h k = elim (Bool-cases (s.semaphore == 0)) [
  | inl e ↦ ground arith
  | inr e ↦
      let after : record s { semaphore = s.semaphore - 1; stage = searching expected } ≡ s' =
        ground arith in
      subst IsAwake after tt
]
go_on-IsAwake (returned ior) s s' h k =
    let e : record s { stage = idle } ≡ s' = ground arith in subst IsAwake e tt

-- Each event keeps a state in which no wake-up is lost.
step-IsAwake : (e : Event) (s s' : System) → IsAwake s → step e s ≡ some s' → IsAwake s'
unfolding step
step-IsAwake (pend ior) s s' h k = elim (Option-cases (pend_io ior s.task)) [
  | inl failed ↦ ground arith
  | inr (t, ok) ↦
      let e : record s { task = t } ≡ s' = ground arith in
      subst IsAwake e (
        with_task-IsAwake s t (λ expected. omega (arith, pend_io-matching expected ior s.task t ok))
          h)
]
step-IsAwake (complete ior) s s' h k = elim (Option-cases (complete_io ior s.task)) [
  | inl failed ↦ ground arith
  | inr (t, ok) ↦
      let s1 : System = record s { task = t; releasing = s.releasing + 1 } in
      let e : s1 ≡ s' = ground arith in
      subst IsAwake e (
        grow_at s.stage s s1 (omega arith)
          (λ expected. omega (arith, complete_io-matching expected ior s.task t ok)) h)
]
step-IsAwake (try_cancel ior) s s' h k =
    let t : IoTask = (try_cancel_io ior s.task).1 in
    let e : record s { task = t } ≡ s' = ground arith in
    subst IsAwake e
      (with_task-IsAwake s t (λ expected. try_cancel_io-matching expected ior s.task) h)
step-IsAwake (cancel ior) s s' h k =
    let t : IoTask = (cancel_io_handler ior s.task).1 in
    let e : record s { task = t } ≡ s' = ground arith in
    subst IsAwake e
      (with_task-IsAwake s t (λ expected. cancel_io_handler-matching expected ior s.task) h)
step-IsAwake (set_flag ior value) s s' h k =
    let t : IoTask = (set_cancellable ior value s.task).1 in
    let e : record s { task = t } ≡ s' = ground arith in
    subst IsAwake e (
      with_task-IsAwake s t
        (λ expected. omega (arith, set_cancellable-matching expected ior value s.task)) h)
step-IsAwake release s s' h k = elim (Bool-cases (s.releasing == 0)) [
  | inl e ↦ ground arith
  | inr e ↦
      let s1 : System = record s { releasing = s.releasing - 1; semaphore = s.semaphore + 1 } in
      let after : s1 ≡ s' = ground arith in
      let some_left : 0 < s.releasing = ground arith in
      subst IsAwake after (grow_at s.stage s s1 (omega arith) (λ expected. omega arith) h)
]
step-IsAwake (wait expected) s s' h k = begin-IsAwake s.stage expected s s' k
step-IsAwake turn s s' h k = go_on-IsAwake s.stage s s' h k

pub Reachable-IsAwake : {s : System} → Reachable s → IsAwake s
Reachable-IsAwake here = tt
Reachable-IsAwake (next {s} e s' r k) = step-IsAwake e s s' (Reachable-IsAwake r) k

-- In a state that is reached by any events, if the task sleeps in `_waitIO` and a request that it waits
-- for is completed, then the semaphore is up or a release of it is under way.
pub Reachable-asleep :
    {s : System} (expected : Option ℕ) (ior : ℕ)
    → Reachable s
    → s.stage ≡ asleep expected
    → find_expected expected s.task.completed ≡ some ior
    → 0 < s.semaphore + s.releasing
Reachable-asleep {s} expected ior r at found =
    let kept : IsAwakeAt (asleep expected) s =
      subst (λ stage. IsAwakeAt stage s) at (Reachable-IsAwake r) in
    omega (arith, kept, find_expected-some expected s.task.completed ior found)

-- The semaphore is never waited for in the first loop of `_waitIO`: in a reachable state, the loop goes on.
pub Reachable-draining :
    {s : System} (v : ℕ) (expected : Option ℕ)
    → Reachable s
    → s.stage ≡ draining (suc v) expected
    → step turn s ≡ some (record s { semaphore = s.semaphore - 1; stage = draining v expected })
unfolding step go_on
Reachable-draining {s} v expected r at =
    let kept : IsAwakeAt (draining (suc v) expected) s =
      subst (λ stage. IsAwakeAt stage s) at (Reachable-IsAwake r) in
    let up : (s.semaphore == 0) ≡ false = ground arith in
    ap (λ stage. go_on stage s) at ∙ rw up refl

pub Reachable-run :
    (events : List Event) (s s' : System) → Reachable s → run events s ≡ some s' → Reachable s'
Reachable-run [] s s' r h = let same : s ≡ s' = ground arith in subst Reachable same r
Reachable-run (e ∷ events) s s' r h = elim (Option-cases (step e s)) [
  | inl failed ↦ ground arith
  | inr (s1, ok) ↦
      let rest : run events s1 ≡ some s' = sym (rw (ok, run) refl) ∙ h in
      Reachable-run events s1 s' (next e s1 r ok) rest
]
