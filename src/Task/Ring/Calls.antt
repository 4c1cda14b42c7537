-- ===== src/Task/Ring/Calls.antt =====
-- The circular list through any sequence of calls is a queue.
use homemade_os.Base.{ℕ, ◌≡◌, ◌≢◌, refl, Option, none, some, List, [], ◌∷◌, ◌++◌}
use homemade_os.Task.{Links, push_ring, pop_ring}
use homemade_os.Task.Ring.{IsRing, NotIn}
use homemade_os.Task.Ring.Push.{push_ring_lem}
use homemade_os.Task.Ring.Pop.{pop_ring-empty, pop_ring_lem}

pub data Call : Type 0 where
  push : (t : ℕ) → Call
  pop : Call

-- What the calls of `popQueue` give, on the circular list and on the queue; 0 where it is empty.
abbrev pub run_ring : List Call → (head : ℕ) → Links → Option (List ℕ)
run_ring [] head l = some []
run_ring (push t ∷ calls) head l = let (head', l') = push_ring head t l in run_ring calls head' l'
run_ring (pop ∷ calls) head l = elim (pop_ring head l) [
  | none ↦ none
  | some (t, head', l') ↦ elim (run_ring calls head' l') [ none ↦ none | some ts ↦ some (t ∷ ts) ]
]

abbrev pub run_queue : List Call → List ℕ → List ℕ
run_queue [] q = []
run_queue (push t ∷ calls) q = run_queue calls (q ++ t ∷ [])
run_queue (pop ∷ calls) [] = 0 ∷ run_queue calls []
run_queue (pop ∷ calls) (x ∷ q) = x ∷ run_queue calls q

-- Each task that is pushed is in no queue then.
abbrev pub AreFresh : List Call → List ℕ → Type 0
AreFresh [] q = Unit {0}
AreFresh (push t ∷ calls) q = (t ≢ 0) × NotIn t q × AreFresh calls (q ++ t ∷ [])
AreFresh (pop ∷ calls) [] = AreFresh calls []
AreFresh (pop ∷ calls) (x ∷ q) = AreFresh calls q

-- Every sequence of `pushQueue` and `popQueue` on the circular list of a queue, in which each task that is
-- pushed is in no queue then, gives the tasks first in, first out, and `NULL` where the queue is empty; no
-- assertion fails.
pub run_ring-run_queue :
    (calls : List Call) (head : ℕ) (l : Links) (q : List ℕ)
    → IsRing l head q
    → AreFresh calls q
    → run_ring calls head l ≡ some (run_queue calls q)
run_ring-run_queue [] head l q ring fresh = refl
run_ring-run_queue (push t ∷ calls) head l q ring (t0, out, fresh) =
    run_ring-run_queue calls (push_ring head t l).0 (push_ring head t l).1 (q ++ t ∷ [])
      (push_ring_lem head t l q ring t0 out) fresh
run_ring-run_queue (pop ∷ calls) head l [] ring fresh =
    rw (pop_ring-empty head l ring, run_ring-run_queue calls head l [] ring fresh, run_ring) refl
run_ring-run_queue (pop ∷ calls) head l (x ∷ q) ring fresh =
    let (head', l', popped_x, ring') = pop_ring_lem head x l q ring in
    rw (popped_x, run_ring-run_queue calls head' l' q ring' fresh, run_ring) refl
