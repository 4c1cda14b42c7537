-- ===== src/Io/Wait.antt =====
-- `_waitIO` of a task between the steps of those who complete, cancel and start its requests: a system that
-- goes from event to event. The semaphore is its value; `releasing` counts the calls of `completeIO` that
-- are between the lock and the release of the semaphore.
pub mod Matching
pub mod Wakeup
pub mod Return
use homemade_os.Base.{
  ℕ, zero, suc, ◌+◌, ◌-◌, ◌≡◌, Bool, true, false, Option, none, some, List, [], ◌∷◌, ◌==◌,
  if◌then◌else◌,
}
use homemade_os.Io.{
  IoTask, pend_io, complete_io, take_completed, try_cancel_io, cancel_io_handler, set_cancellable,
}

-- Where `_waitIO` stands: before it is called, in the loop that takes the semaphore `v` times, before the
-- search, before or in `acquireSemaphore` after a search in vain, and after it has returned.
pub data Stage : Type 0 where
  idle : Stage
  draining : (v : ℕ) → (expected : Option ℕ) → Stage
  searching : (expected : Option ℕ) → Stage
  asleep : (expected : Option ℕ) → Stage
  returned : (ior : ℕ) → Stage

pub record System : Type 0 where
  pub task : IoTask
  pub semaphore : ℕ
  pub releasing : ℕ
  pub stage : Stage

abbrev pub start : System
start = record {
  task = record { pending = []; completed = []; cancellable = λ _. false };
  semaphore = 0;
  releasing = 0;
  stage = idle;
}

pub data Event : Type 0 where
  pend complete try_cancel cancel : (ior : ℕ) → Event
  set_flag : (ior : ℕ) → (value : Bool) → Event
  release : Event
  wait : (expected : Option ℕ) → Event
  turn : Event

abbrev pub with_task : System → Option IoTask → Option System
with_task s none = none
with_task s (some t) = some (record s { task = t })

-- The value of the semaphore is what `getSemaphoreValue` reads.
abbrev pub begin : Stage → (expected : Option ℕ) → System → Option System
begin idle expected s = some (record s { stage = draining s.semaphore expected })
begin stage expected s = none

-- `acquireSemaphore`, and where it leads to; `none`: the task is blocked.
abbrev pub acquire : System → Stage → Option System
acquire s next =
    if s.semaphore == 0 then none else some (record s { semaphore = s.semaphore - 1; stage = next })

abbrev pub searched : (expected : Option ℕ) → System → Option (ℕ × IoTask) → System
searched expected s none = record s { stage = asleep expected }
searched expected s (some (ior, t)) = record s { task = t; stage = returned ior }

-- The next step of the task that waits.
unfoldable pub go_on : Stage → System → Option System
go_on idle s = none
go_on (draining zero expected) s = some (record s { stage = searching expected })
go_on (draining (suc v) expected) s = acquire s (draining v expected)
go_on (searching expected) s = some (searched expected s (take_completed expected s.task))
go_on (asleep expected) s = acquire s (searching expected)
go_on (returned ior) s = some (record s { stage = idle })

abbrev pub counted : Option System → Option System
counted none = none
counted (some s) = some (record s { releasing = s.releasing + 1 })

-- `none`: the event does not occur in this state.
unfoldable pub step : Event → System → Option System
unfolding go_on
step (pend ior) s = with_task s (pend_io ior s.task)
step (complete ior) s = counted (with_task s (complete_io ior s.task))
step (try_cancel ior) s = some (record s { task = (try_cancel_io ior s.task).1 })
step (cancel ior) s = some (record s { task = (cancel_io_handler ior s.task).1 })
step (set_flag ior value) s = some (record s { task = (set_cancellable ior value s.task).1 })
step release s =
    if s.releasing == 0
    then none
    else some (record s { releasing = s.releasing - 1; semaphore = s.semaphore + 1 })
step (wait expected) s = begin s.stage expected s
step turn s = go_on s.stage s

abbrev pub run : List Event → System → Option System
run [] s = some s
run (e ∷ events) s = elim (step e s) [ none ↦ none | some s' ↦ run events s' ]

pub data Reachable : System → Type 0 where
  here : Reachable start
  next : {s : System} (e : Event) (s' : System) → Reachable s → step e s ≡ some s' → Reachable s'
