-- ===== src/Fifo/Interleave.antt =====
-- Several tasks on one FIFO of src/kernel/io/fifoarray.c: what runs under `fifo->lock` or inside the
-- semaphore is one step, and the two parts of a write and of a read may lie apart.
use homemade_os.Base.{
  ℕ, ◌+◌, ◌-◌, ◌<◌, ◌≡◌, Bool, true, false, some, [], arith, length, if◌then◌else◌, lt→ltb, get_or,
}
use homemade_os.Lock.Queue.{Task, Outcome, acquired}
use homemade_os.Lock.Semaphore.{try_acquire_semaphore, acquire_semaphore, release_semaphore}
use homemade_os.Fifo.Refine.{
  IsValid, write_locked_facts, read_locked_facts, read_locked_length, write_locked_refines,
  overwrite_locked_refines, read_locked_refines,
}
use homemade_os.Fifo.{Element, Fifo, buffer_location, write_locked, read_locked}

pub record World : Type 0 where
  pub fifo : Fifo
  -- writers behind `_writeFIFO` that have not yet called `releaseSemaphore`
  pub unsignalled : ℕ
  -- readers that the semaphore let through and that have not yet called `_readFIFO`
  pub admitted : ℕ

abbrev admit : Outcome → ℕ → ℕ
admit acquired n = n + 1
admit _ n = n

pub data Step : World → World → Type 0 where
  -- `_writeFIFO` of `writeFIFO` (`o ≡ false`) or `overwriteFIFO` (`o ≡ true`)
  write :
      (w : World) (o : Bool) (x : Element)
      → Step w (record w {
        fifo = (write_locked o w.fifo x).2;
        unsignalled = w.unsignalled + (if (write_locked o w.fifo x).0 then 1 else 0);
      })
  -- `releaseSemaphore` of a writer
  signal :
      (w : World)
      → 0 < w.unsignalled
      → Step w (record w {
        fifo = record (w.fifo) { semaphore = (release_semaphore w.fifo.semaphore).0 };
        unsignalled = w.unsignalled - 1;
        admitted = w.admitted + length (release_semaphore w.fifo.semaphore).1;
      })
  -- `acquireSemaphore` of `readFIFO`
  wait :
      (w : World) (t : Task)
      → Step w (record w {
        fifo = record (w.fifo) { semaphore = (acquire_semaphore t w.fifo.semaphore).1 };
        admitted = admit (acquire_semaphore t w.fifo.semaphore).0 w.admitted;
      })
  -- `tryAcquireSemaphore` of `readFIFONonBlock`
  try :
      (w : World) (t : Task)
      → Step w (record w {
        fifo = record (w.fifo) { semaphore = (try_acquire_semaphore t w.fifo.semaphore).1 };
        admitted = admit (try_acquire_semaphore t w.fifo.semaphore).0 w.admitted;
      })
  -- `_readFIFO` of an admitted reader
  take :
      (w : World)
      → 0 < w.admitted
      → Step w (record w { fifo = (read_locked true w.fifo).1; admitted = w.admitted - 1 })

pub data Reach (s : World) : World → Type 0 where
  here : Reach s s
  next : {t u : World} → Reach s t → Step t u → Reach s u

-- Each element is a unit of the semaphore, an admitted reader's, or one still to be signalled.
pub record IsBalanced (k : ℕ) (w : World) : Type 0 where
  pub valid : IsValid k w.fifo
  pub units : w.fifo.semaphore.quota + w.admitted + w.unsignalled ≡ w.fifo.data_length

Step-IsBalanced : (k : ℕ) {w u : World} → Step w u → IsBalanced k w → IsBalanced k u
Step-IsBalanced k (write w false x) b = record {
  valid = (write_locked_refines k w.fifo x b.valid).0;
  units = ground (arith, b, write_locked_facts k false w.fifo x b.valid);
}
Step-IsBalanced k (write w true x) b = record {
  valid = (overwrite_locked_refines k w.fifo x b.valid).0;
  units = ground (arith, b, write_locked_facts k true w.fifo x b.valid);
}
Step-IsBalanced k (signal w h) b = unfold release_semaphore in ground (arith, b)
Step-IsBalanced k (wait w t) b = unfold acquire_semaphore in ground (arith, b)
Step-IsBalanced k (try w t) b = unfold try_acquire_semaphore in ground (arith, b)
Step-IsBalanced k (take w h) b = record {
  valid = (read_locked_refines k w.fifo b.valid).0;
  units = ground (arith, b, read_locked_facts true w.fifo, read_locked_length w.fifo);
}

pub Reach-IsBalanced : (k : ℕ) {s w : World} → IsBalanced k s → Reach s w → IsBalanced k w
Reach-IsBalanced k b here = b
Reach-IsBalanced k b (next r st) = Step-IsBalanced k st (Reach-IsBalanced k b r)

read_locked-some :
    (f : Fifo) → 0 < f.data_length → (x : Element) × ((read_locked true f).0 ≡ some x)
unfolding read_locked
read_locked-some f h =
    (get_or f.buffer (buffer_location f f.begin) [], rw (lt→ltb 0 f.data_length h))

-- However the calls of any number of writers and readers interleave, from a balanced state, a reader
-- that the semaphore has let through finds an element: `assert(r == 1)` in `readFIFO` holds.
pub admitted_reader_finds_data :
    (k : ℕ) {s w : World}
    → IsBalanced k s
    → Reach s w
    → 0 < w.admitted
    → (x : Element) × ((read_locked true w.fifo).0 ≡ some x)
admitted_reader_finds_data k {w = w} b r h =
    read_locked-some w.fifo (ground (arith, Reach-IsBalanced k b r))
