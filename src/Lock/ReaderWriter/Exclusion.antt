-- ===== src/Lock/ReaderWriter/Exclusion.antt =====
-- Mutual exclusion, and that no task waits for a lock that nobody holds.
use homemade_os.Base.{
  ℕ, ◌+◌, ◌≤◌, ◌<◌, ◌≡◌, ◌⊎◌, List, [], ◌∷◌, ◌++◌, append-nil, append_assoc, arith, length,
}
use homemade_os.Lock.Queue.{Task, TaskQueue}
use homemade_os.Lock.ReaderWriter.{
  ReaderWriterLock, acquire_reader_lock, acquire_writer_lock, wake_readers,
  release_reader_writer_lock,
}

pub wake_readers_lem :
    (w : TaskQueue) (n : ℕ) (q : TaskQueue) → wake_readers w n q ≡ (n + length w, q ++ w)
unfolding wake_readers
wake_readers_lem [] n q = ground (arith, append-nil q)
wake_readers_lem (t ∷ w) n q =
    ground (arith, wake_readers_lem w (n + 1) (q ++ (t ∷ [])), append_assoc q (t ∷ []) w)

-- One writer and no reader, or no writer; and who waits waits for a holder.
pub record IsExclusive (l : ReaderWriterLock) : Type 0 where
  pub one_writer : l.writer_count ≤ 1
  pub alone : (l.writer_count ≡ 0) ⊎ (l.reader_count ≡ 0)
  pub no_idle :
      (0 < l.writer_count + l.reader_count) ⊎ ((l.writer_queue ≡ []) × (l.reader_queue ≡ []))

pub data Call : Type 0 where
  acquire_reader : Task → Call
  acquire_writer : Task → Call
  release : Call

unfoldable pub perform : ReaderWriterLock → Call → ReaderWriterLock
perform l (acquire_reader t) = (acquire_reader_lock t l).1
perform l (acquire_writer t) = (acquire_writer_lock t l).1
perform l release = (release_reader_writer_lock l).0

-- A release is made by a holder, and not by one of several readers while a writer waits.
abbrev pub IsSafeCall : ReaderWriterLock → Call → Type 0
IsSafeCall l release =
    (0 < l.writer_count + l.reader_count) × ((l.reader_count ≤ 1) ⊎ (l.writer_queue ≡ []))
IsSafeCall l _ = Unit

abbrev pub AreSafeCalls : ReaderWriterLock → List Call → Type 0
AreSafeCalls l [] = Unit
AreSafeCalls l (c ∷ cs) = IsSafeCall l c × AreSafeCalls (perform l c) cs

unfoldable pub perform_all : ReaderWriterLock → List Call → ReaderWriterLock
perform_all l [] = l
perform_all l (c ∷ cs) = perform_all (perform l c) cs
