-- ===== src/Task/Turns.antt =====
-- Which task runs next: the first one of the highest priority that has any, so that tasks of one priority
-- take turns.
use homemade_os.Base.{
  ℕ, zero, suc, ◌≡◌, refl, ap, ◌∙◌, Option, none, some, List, [], ◌∷◌, ◌++◌, append_assoc, length,
  replicate, set, get_or, All,
}
use homemade_os.Lock.Queue.{TaskQueue, push_queue}
use homemade_os.Task.{Ready, push_priority_queue, pop_priority_queue, switch_to, schedule}

-- Empty queues of the higher priorities, a queue, and those of the lower priorities.
abbrev pub with_queue : (p : ℕ) → TaskQueue → List TaskQueue → List TaskQueue
with_queue p q lower = replicate p [] ++ q ∷ lower

get_or-with_queue :
    (p : ℕ) (q : TaskQueue) (lower : List TaskQueue) → get_or (with_queue p q lower) p [] ≡ q
get_or-with_queue zero q lower = refl
get_or-with_queue (suc p) q lower = get_or-with_queue p q lower

set-with_queue :
    (p : ℕ) (q r : TaskQueue) (lower : List TaskQueue)
    → set (with_queue p q lower) p r ≡ with_queue p r lower
set-with_queue zero q r lower = refl
set-with_queue (suc p) q r lower = ap (λ l. [] ∷ l) (set-with_queue p q r lower)

pop_priority_queue-with_queue :
    (p x : ℕ) (q : TaskQueue) (lower : List TaskQueue)
    → pop_priority_queue (with_queue p (x ∷ q) lower) ≡ some (x, with_queue p q lower)
unfolding pop_priority_queue
pop_priority_queue-with_queue zero x q lower = refl
pop_priority_queue-with_queue (suc p) x q lower =
    rw (pop_priority_queue-with_queue p x q lower, pop_priority_queue) refl

-- The tasks of the priority, the one that runs first.
abbrev pub at_priority : (p x : ℕ) → TaskQueue → List TaskQueue → Ready
at_priority p x q lower = record { queues = with_queue p q lower; current = x }

abbrev pub schedules : (n : ℕ) → (priority : ℕ → ℕ) → Ready → Option Ready
schedules zero priority r = some r
schedules (suc n) priority r = elim (schedule priority r) [
  | none ↦ none
  | some r' ↦ schedules n priority r'
]

schedule-next :
    (priority : ℕ → ℕ) (p x y : ℕ) (q : TaskQueue) (lower : List TaskQueue)
    → priority x ≡ p
    → schedule priority (at_priority p x (y ∷ q) lower) ≡ some (at_priority p y (q ++ x ∷ []) lower)
unfolding schedule push_priority_queue
schedule-next priority p x y q lower h =
    let pushed : set (with_queue p (y ∷ q) lower) (priority x)
          (push_queue (get_or (with_queue p (y ∷ q) lower) (priority x) []) x)
        ≡ with_queue p (y ∷ (q ++ x ∷ [])) lower =
      ap
        (λ i.
          set (with_queue p (y ∷ q) lower) i
            (push_queue (get_or (with_queue p (y ∷ q) lower) i []) x))
        h
      ∙ ap (λ r. set (with_queue p (y ∷ q) lower) p (push_queue r x))
          (get_or-with_queue p (y ∷ q) lower)
      ∙ set-with_queue p (y ∷ q) (y ∷ (q ++ x ∷ [])) lower in
    ap (λ l. switch_to (pop_priority_queue l)) pushed
    ∙ ap switch_to (pop_priority_queue-with_queue p y (q ++ x ∷ []) lower)

-- While the tasks of higher priorities are not ready, the task that runs and those in the queue of its
-- priority take turns: for each of them, `y`, with the tasks `x ∷ a` before it, as many calls of `schedule`
-- give it the processor, and those before it have been put at the end, in order. Tasks of lower
-- priorities are left as they are.
pub schedules-turn :
    (priority : ℕ → ℕ) (p x y : ℕ) (a b : TaskQueue) (lower : List TaskQueue)
    → All (λ t. priority t ≡ p) (x ∷ a)
    → schedules (suc (length a)) priority (at_priority p x (a ++ y ∷ b) lower)
      ≡ some (at_priority p y (b ++ x ∷ a) lower)
schedules-turn priority p x y [] b lower h =
    rw (schedule-next priority p x y b lower h.0, schedules) refl
schedules-turn priority p x y (z ∷ a) b lower h =
    let rest = schedules-turn priority p z y a (b ++ x ∷ []) lower h.1 in
    let first = schedule-next priority p x z (a ++ y ∷ b) lower h.0 in
    rw (first, schedules)
      (ap (λ q. schedules (suc (length a)) priority (at_priority p z q lower))
          (append_assoc a (y ∷ b) (x ∷ []))
        ∙ rest
        ∙ ap (λ q. let r : Option Ready = some (at_priority p y q lower) in r)
            (append_assoc b (x ∷ []) (z ∷ a)))

-- A queue that some task is in.
abbrev SomeReady : List TaskQueue → Type 0
SomeReady [] = ⊥
SomeReady ([] ∷ queues) = SomeReady queues
SomeReady ((t ∷ q) ∷ queues) = Unit {0}

-- The first queue with a task, and what is behind it.
abbrev pub IsNext : List TaskQueue → (t : ℕ) → List TaskQueue → Type 0
IsNext queues t queues' =
    (p : ℕ) × (q : TaskQueue) × (lower : List TaskQueue) × (queues ≡ with_queue p (t ∷ q) lower)
    × (queues' ≡ with_queue p q lower)
