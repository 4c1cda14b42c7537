-- ===== src/Lock/Semaphore/Fifo.antt =====
-- Any sequence of calls on one semaphore, with the tasks that asked and those that got a unit.
use homemade_os.Base.{
  ℕ, zero, suc, ◌+◌, ◌-◌, ◌<◌, ◌≡◌, ◌⊎◌, some, List, [], ◌∷◌, ◌++◌, arith, length,
}
use homemade_os.Lock.Queue.{Task, Outcome, acquired, refused, blocked}
use homemade_os.Lock.Semaphore.{
  Semaphore, create_semaphore, try_acquire_semaphore, acquire_semaphore, release_semaphore,
  try_acquire_all_semaphore,
}

pub data Call : Type 0 where
  acquire : Task → Call
  try_acquire : Task → Call
  release : Call

pub record Trace : Type 0 where
  pub sem : Semaphore
  -- the tasks that asked, in order, less those refused
  pub asked : List Task
  -- the tasks that got a unit, in order, at once or by being resumed
  pub granted : List Task
  pub released : ℕ

-- What a call's outcome adds to the trace.
abbrev note : Task → Trace → Outcome × Semaphore → Trace
note t tr (acquired, s) = record tr {
  sem = s;
  asked = tr.asked ++ (t ∷ []);
  granted = tr.granted ++ (t ∷ []);
}
note t tr (refused, s) = record tr { sem = s }
note t tr (blocked, s) = record tr { sem = s; asked = tr.asked ++ (t ∷ []) }

unfoldable pub perform : Trace → Call → Trace
perform tr (acquire t) = note t tr (acquire_semaphore t tr.sem)
perform tr (try_acquire t) = note t tr (try_acquire_semaphore t tr.sem)
perform tr release =
    let (s, woken) = release_semaphore tr.sem in
    record tr { sem = s; granted = tr.granted ++ woken; released = tr.released + 1 }

unfoldable pub perform_all : Trace → List Call → Trace
perform_all tr [] = tr
perform_all tr (c ∷ cs) = perform_all (perform tr c) cs

abbrev pub start : ℕ → Trace
start n = record { sem = create_semaphore n; asked = []; granted = []; released = 0 }

-- The invariant behind the order: nobody waits while a unit is free.
record IsFair (n : ℕ) (tr : Trace) : Type 0 where
  order : tr.granted ++ tr.sem.task_queue ≡ tr.asked
  units : tr.sem.quota + length tr.granted ≡ n + tr.released
  no_idle : (tr.sem.quota ≡ 0) ⊎ (tr.sem.task_queue ≡ [])

-- Given more rounds than there are units, `tryAcquireAllSemaphore` on a semaphore of any quota
-- ends, reports `r` plus the quota, and leaves the quota at 0 and the queue alone.
pub try_acquire_all_lem :
    (fuel : ℕ) (t : Task) (r : ℕ) (s : Semaphore)
    → s.quota < fuel
    → try_acquire_all_semaphore fuel t r s ≡ some (r + s.quota, record s { quota = 0 })
unfolding try_acquire_all_semaphore try_acquire_semaphore
try_acquire_all_lem zero t r s h = absurd (omega arith)
try_acquire_all_lem (suc fuel) t r s h =
    ground (arith, try_acquire_all_lem fuel t (r + 1) (record s { quota = s.quota - 1 }))
