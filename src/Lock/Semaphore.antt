-- ===== src/Lock/Semaphore.antt =====
-- The counting semaphore of src/kernel/task/exclusivelock.c. `quota` is an `int` that starts at a
-- number that is not negative and is lowered only when it is at least 1, so it is a number here.
pub mod Fifo
use homemade_os.Base.{
  ◌<◌, ◌≡◌, ◌⊎◌, arith, ℕ, zero, suc, ◌+◌, ◌-◌, Bool, true, false, Option, none, some, List, [],
  leb, if◌then◌else◌,
}
use homemade_os.Lock.Queue.{
  Task, TaskQueue, push_queue, pop_queue, Outcome, acquired, refused, acquire_ex_lock,
  release_ex_lock,
}

pub record Semaphore : Type 0 where
  pub quota : ℕ
  pub task_queue : TaskQueue

unfoldable pub create_semaphore : ℕ → Semaphore
create_semaphore initial_value = record { quota = initial_value; task_queue = [] }

abbrev pub take_quota : Semaphore → Bool × Semaphore
take_quota s = if leb 1 s.quota then (true, record s { quota = s.quota - 1 }) else (false, s)

abbrev pub push_semaphore_queue : Semaphore → Task → Semaphore
push_semaphore_queue s t = record s { task_queue = push_queue s.task_queue t }

-- A release either hands the unit to the first waiting task or raises the quota.
abbrev pub give_quota : Semaphore → Semaphore × TaskQueue
give_quota s =
    let (t, rest) = pop_queue s.task_queue in
    elim t [
      | none ↦ (record s { quota = s.quota + 1; task_queue = rest }, [])
      | some t' ↦ (record s { task_queue = rest }, push_queue [] t')
    ]

unfoldable pub try_acquire_semaphore : Task → Semaphore → Outcome × Semaphore
try_acquire_semaphore = acquire_ex_lock take_quota push_semaphore_queue false

unfoldable pub acquire_semaphore : Task → Semaphore → Outcome × Semaphore
acquire_semaphore = acquire_ex_lock take_quota push_semaphore_queue true

unfoldable pub release_semaphore : Semaphore → Semaphore × List Task
release_semaphore = release_ex_lock give_quota

unfoldable pub get_semaphore_value : Semaphore → ℕ
get_semaphore_value s = s.quota

-- `tryAcquireAllSemaphore`: the loop runs until a try is refused. `none`: out of fuel.
unfoldable pub try_acquire_all_semaphore : ℕ → Task → ℕ → Semaphore → Option (ℕ × Semaphore)
try_acquire_all_semaphore zero t r s = none
try_acquire_all_semaphore (suc fuel) t r s =
    let (o, s') = try_acquire_semaphore t s in
    elim o [ acquired ↦ try_acquire_all_semaphore fuel t (r + 1) s' | _ ↦ some (r, s') ]

-- A try takes a unit exactly if there is one, and changes nothing else.
pub try_acquire_cases :
    (t : Task) (s : Semaphore)
    → ((0 < s.quota) × (try_acquire_semaphore t s ≡ (acquired, record s { quota = s.quota - 1 })))
      ⊎ ((s.quota ≡ 0) × (try_acquire_semaphore t s ≡ (refused, s)))
unfolding try_acquire_semaphore
try_acquire_cases t s = ground arith
