-- ===== src/Fifo/Run.antt =====
-- Any sequence of calls on a FIFO of src/kernel/io/fifoarray.c by one caller at a time.
use homemade_os.Base.{
  ℕ, ◌-◌, ◌^◌, ◌≤◌, ◌<◌, ◌≡◌, refl, ◌∙◌, Bool, false, Option, none, some, List, [], ◌∷◌, arith,
  length, bit_and, bit_and-mask,
}
use native.Mathlib.Nat.{one-le-pow, pow-le-pow_right, mod_self}
use homemade_os.Lock.Queue.{Task}
use homemade_os.Lock.Semaphore.{create_semaphore}
use homemade_os.Fifo.Queue
use homemade_os.Fifo.Refine.{IsValid, contents}
use homemade_os.Fifo.{
  Element, Fifo, mask, write_fifo, overwrite_fifo, peek_fifo, read_fifo_non_block, create_fifo,
}

-- The semaphore counts the readable elements, and nobody waits on it.
pub record IsSynced (f : Fifo) : Type 0 where
  pub quota : f.semaphore.quota ≡ f.data_length
  pub nobody : f.semaphore.task_queue ≡ []

pub data Op : Type 0 where
  put : Element → Op
  force : Element → Op
  get : Task → Op
  peek : Op

abbrev pub Reply : Type 0
Reply = Bool × Option Element

unfoldable pub perform : Fifo → Op → Reply × Fifo
perform f (put x) = let (r, f') = write_fifo f x in ((r, none), f')
perform f (force x) = let (r, old, f') = overwrite_fifo f x in ((r, old), f')
perform f (get t) = let (out, f') = read_fifo_non_block t f in ((false, out), f')
perform f peek = ((false, peek_fifo f), f)

specify : ℕ → List Element → Op → Reply × List Element
specify cap q (put x) = let (r, q') = Queue.write cap q x in ((r, none), q')
specify cap q (force x) = let (r, old, q') = Queue.overwrite cap q x in ((r, old), q')
specify cap q (get t) = let (out, q') = Queue.read q in ((false, out), q')
specify cap q peek = ((false, Queue.head? q), q)

-- `f` with one unit of its semaphore taken
abbrev spend : Fifo → Fifo
spend f = record f { semaphore = record (f.semaphore) { quota = f.semaphore.quota - 1 } }

unfoldable pub run : Fifo → List Op → List Reply
run f [] = []
run f (o ∷ os) = let (reply, f') = perform f o in reply ∷ run f' os

pub run_queue : ℕ → List Element → List Op → List Reply
run_queue cap q [] = []
run_queue cap q (o ∷ os) = let (reply, q') = specify cap q o in reply ∷ run_queue cap q' os

-- `createFIFO` with a length `2 ^ k` up to `2 ^ 31` and storage for it gives a FIFO that is valid,
-- empty and synchronised.
pub create_fifo_lem :
    (k : ℕ) (storage : List Element)
    → k < 32
    → 2 ^ k ≤ length storage
    → (f : Fifo) × (create_fifo storage (2 ^ k) ≡ some f)
      × IsValid k f
      × IsSynced f
      × (contents f ≡ [])
unfolding create_fifo create_semaphore
create_fifo_lem k storage h e =
    let pos : 1 ≤ 2 ^ k = one-le-pow k 2 (omega arith) in
    let small : 2 ^ k ≤ 2 ^ 31 = pow-le-pow_right {n = 2} (omega arith) {j = 31} (omega arith) in
    let low : mask (2 ^ k) ≡ 2 ^ k - 1 = omega arith in
    let power : bit_and (2 ^ k) (mask (2 ^ k)) ≡ 0 =
      rw low (bit_and-mask k (2 ^ k) ∙ mod_self (2 ^ k)) in
    (
      record {
        begin = 0;
        data_length = 0;
        buffer_length = 2 ^ k;
        buffer = storage;
        semaphore = create_semaphore 0;
      },
      rw power,
      record { power = refl; small = small; storage = e; begin_in = pos; length_in = omega arith },
      record { quota = refl; nobody = refl },
      refl,
    )
