-- ===== src/Lock/ReaderWriter/Handover.antt =====
-- Whom a release resumes, and the release that lets a writer in beside readers.
use homemade_os.Base.{
  ℕ, ◌+◌, ◌-◌, ◌≤◌, ◌<◌, ◌≡◌, ◌⊎◌, Bool, true, not, ◌&&◌, ◌||◌, [], ◌∷◌, arith, if◌then◌else◌,
  length, is_empty,
}
use homemade_os.Lock.Queue.{Task, TaskQueue, resume_all_lem}
use homemade_os.Lock.ReaderWriter.{
  ReaderWriterLock, next_writer, next_readers, give_lock, release_reader_writer_lock,
}
use homemade_os.Lock.ReaderWriter.Exclusion.{IsExclusive, wake_readers_lem}

abbrev pub holds : ReaderWriterLock → ℕ
holds l = l.writer_count + l.reader_count

abbrev pub waiting : ReaderWriterLock → ℕ
waiting l = length l.writer_queue + length l.reader_queue

-- A release by a holder gives up one hold and gains one for each task that it resumes, and each
-- task that it resumes leaves a queue.
pub release_accounts :
    (l : ReaderWriterLock)
    → 0 < holds l
    → let (l', woken) = release_reader_writer_lock l in
      (holds l' + 1 ≡ holds l + length woken) × (waiting l' + length woken ≡ waiting l)
unfolding release_reader_writer_lock give_lock next_writer next_readers
release_accounts l h = ground (
  arith,
  wake_readers_lem l.reader_queue l.reader_count [],
  wake_readers_lem l.reader_queue (l.reader_count - 1) [],
  resume_all_lem l.reader_queue,
)

-- The queue that a release by the last holder resumes from.
abbrev pub writers_turn : ReaderWriterLock → Bool
writers_turn l = (l.writer_first && not (is_empty l.writer_queue)) || is_empty l.reader_queue

abbrev pub first_of_queue : TaskQueue → TaskQueue
first_of_queue [] = []
first_of_queue (t ∷ q) = t ∷ []

-- When the only holder releases the lock, it resumes the first waiting writer alone, if writers go
-- first and one waits or if no reader waits, and otherwise every waiting reader in order; those it
-- resumes are exactly the new holders, writers or readers, so some task is resumed unless none waits.
pub release_last :
    (l : ReaderWriterLock)
    → holds l ≡ 1
    → let (l', woken) = release_reader_writer_lock l in
      (woken ≡ (if writers_turn l then first_of_queue l.writer_queue else l.reader_queue))
      × (l'.writer_count ≡ (if writers_turn l then length woken else 0))
      × (l'.reader_count ≡ (if writers_turn l then 0 else length woken))
unfolding release_reader_writer_lock give_lock next_writer next_readers
release_last l h = ground (
  arith,
  wake_readers_lem l.reader_queue l.reader_count [],
  wake_readers_lem l.reader_queue (l.reader_count - 1) [],
  resume_all_lem l.reader_queue,
)

-- When one of two or more readers releases the lock with no writer holding it, while a writer waits
-- and either writers go first or no reader waits, the first waiting writer is resumed as a holder
-- beside the remaining readers.
pub release_beside_readers :
    (l : ReaderWriterLock) (w : Task) (ws : TaskQueue)
    → l.writer_count ≡ 0
    → 2 ≤ l.reader_count
    → l.writer_queue ≡ w ∷ ws
    → (l.writer_first ≡ true) ⊎ (l.reader_queue ≡ [])
    → let (l', woken) = release_reader_writer_lock l in
      (woken ≡ w ∷ []) × (l'.writer_count ≡ 1) × (0 < l'.reader_count) × ¬ IsExclusive l'
unfolding release_reader_writer_lock give_lock next_writer next_readers
release_beside_readers l w ws hw hr hq ht = ground arith
