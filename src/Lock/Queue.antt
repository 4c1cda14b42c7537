-- ===== src/Lock/Queue.antt =====
-- Queues of tasks as the locks use them (`pushQueue`, `popQueue`), and `acquireExLock` and
-- `releaseExLock` of src/kernel/task/exclusivelock.c over an instance of any type.
use homemade_os.Base.{
  ℕ, ◌≡◌, refl, ap, Bool, Option, none, some, List, [], ◌∷◌, ◌++◌, if◌then◌else◌,
}

abbrev pub Task : Type 0
Task = ℕ

abbrev pub TaskQueue : Type 0
TaskQueue = List Task

abbrev pub push_queue : TaskQueue → Task → TaskQueue
push_queue q t = q ++ (t ∷ [])

abbrev pub pop_queue : TaskQueue → Option Task × TaskQueue
pop_queue [] = (none, [])
pop_queue (t ∷ q) = (some t, q)

-- What a call of `acquireExLock` leaves its caller with: the lock, a refusal (`doBlock == 0`), or
-- a place in the queue, from which a later release resumes it.
pub data Outcome : Type 0 where
  acquired refused blocked : Outcome

-- `while(1){ t = popQueue(&q); if(t == NULL) break; resume(t); }`: the tasks in resumed order.
abbrev pub resume_all : TaskQueue → List Task
resume_all [] = []
resume_all (t ∷ q) = t ∷ resume_all q

module _ {ℓ} {S : Type ℓ} where
  abbrev pub acquire_ex_lock :
      (S → Bool × S) → (S → Task → S) → (do_block : Bool) → Task → S → Outcome × S
  acquire_ex_lock acquire push do_block t s =
      let (got, s') = acquire s in
      if got then (acquired, s') else if do_block then (blocked, push s' t) else (refused, s')

  abbrev pub release_ex_lock : (S → S × TaskQueue) → S → S × List Task
  release_ex_lock release s = let (s', q) = release s in (s', resume_all q)

pub resume_all_lem : (q : TaskQueue) → resume_all q ≡ q
resume_all_lem [] = refl
resume_all_lem (t ∷ q) = ap (λ r. t ∷ r) (resume_all_lem q)
