-- ===== src/Task.antt =====
-- src/kernel/task/taskmanager.c, the queues of tasks and their order: `pushQueue` to `popPriorityQueue`, and
-- what `taskSwitch`, `schedule` and `resume` do to the queues. A task is the number of its address; 0 is
-- `NULL`.
pub mod Ring
pub mod Turns
mod Tests
use homemade_os.Base.{
  ℕ, zero, suc, ◌+◌, ◌-◌, Bool, true, false, not, Option, none, some, List, [], ◌∷◌, ◌++◌, ◌==◌,
  if◌then◌else◌, get_or, set,
}
use homemade_os.Lock.Queue.{TaskQueue, push_queue, pop_queue}

-- The fields `next` and `prev` of every task.
pub record Links : Type 0 where
  pub next : ℕ → ℕ
  pub prev : ℕ → ℕ

abbrev pub write : (ℕ → ℕ) → (p v : ℕ) → ℕ → ℕ
write f p v = λ q. if q == p then v else f q

abbrev pub set_next : (p v : ℕ) → Links → Links
set_next p v l = record l { next = write l.next p v }

abbrev pub set_prev : (p v : ℕ) → Links → Links
set_prev p v l = record l { prev = write l.prev p v }

-- `pushQueue` on the circular list: the head, and the fields.
unfoldable pub push_ring : (head t : ℕ) → Links → ℕ × Links
push_ring head t l =
    let alone = set_next t t (set_prev t t l) in
    let l1 = set_next t head l in
    let l2 = set_prev t (l1.prev head) l1 in
    let l3 = set_prev (l2.next t) t l2 in
    let l4 = set_next (l3.prev t) t l3 in if head == 0 then (t, alone) else (head, l4)

-- `popQueue`: the task, the head and the fields; `none`: the assertion fails.
unfoldable pub pop_ring : (head : ℕ) → Links → Option (ℕ × ℕ × Links)
pop_ring head l =
    let t = head in
    let l1 = set_prev (l.next t) (l.prev t) l in
    let l2 = set_next (l1.prev t) (l1.next t) l1 in
    if t == 0
    then some (0, head, l)
    else if l.next t == t
    then (if l.prev t == t then some (t, 0, set_next t 0 (set_prev t 0 l)) else none)
    else some (t, l.next t, set_next t 0 (set_prev t 0 l2))

-- The queues of `globalQueue`, the highest priority first, each a queue of Lock.Queue; and the task that
-- runs on the processor.
pub record Ready : Type 0 where
  pub queues : List TaskQueue
  pub current : ℕ

unfoldable pub push_priority_queue : (priority : ℕ → ℕ) → List TaskQueue → (t : ℕ) → List TaskQueue
push_priority_queue priority queues t =
    set queues (priority t) (push_queue (get_or queues (priority t) []) t)

-- `none`: the assertion fails, since all queues are empty.
unfoldable pub pop_priority_queue : List TaskQueue → Option (ℕ × List TaskQueue)
pop_priority_queue [] = none
pop_priority_queue ([] ∷ queues) = elim (pop_priority_queue queues) [
  | none ↦ none
  | some (t, queues') ↦ some (t, [] ∷ queues')
]
pop_priority_queue ((t ∷ q) ∷ queues) = some (t, q ∷ queues)

abbrev pub switch_to : Option (ℕ × List TaskQueue) → Option Ready
switch_to none = none
switch_to (some (t, queues)) = some (record { queues = queues; current = t })

-- `taskSwitch` with `NULL`, which is `schedule`.
unfoldable pub schedule : (priority : ℕ → ℕ) → Ready → Option Ready
unfolding push_priority_queue pop_priority_queue
schedule priority r =
    switch_to (pop_priority_queue (push_priority_queue priority r.queues r.current))

-- `taskSwitch` with a function, which keeps the task elsewhere.
unfoldable pub suspend : Ready → Option Ready
unfolding pop_priority_queue
suspend r = switch_to (pop_priority_queue r.queues)

unfoldable pub resume : (priority : ℕ → ℕ) → (t : ℕ) → Ready → Ready
unfolding push_priority_queue
resume priority t r = record r { queues = push_priority_queue priority r.queues t }
