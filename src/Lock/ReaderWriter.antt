-- ===== src/Lock/ReaderWriter.antt =====
-- The reader-writer lock of src/kernel/task/exclusivelock.c. The counts start at 0, and a release is
-- made by a holder, so they are numbers: `- 1` is reached with the count positive.
pub mod Exclusion
pub mod Handover
use homemade_os.Base.{
  ℕ, ◌+◌, ◌-◌, Bool, true, false, not, ◌&&◌, ◌||◌, none, some, List, [], ◌∷◌, ◌==◌, if◌then◌else◌,
  is_empty,
}
use homemade_os.Lock.Queue.{
  Task, TaskQueue, push_queue, pop_queue, Outcome, acquire_ex_lock, release_ex_lock,
}

pub record ReaderWriterLock : Type 0 where
  pub writer_first : Bool
  pub writer_count : ℕ
  pub reader_count : ℕ
  pub writer_queue : TaskQueue
  pub reader_queue : TaskQueue

unfoldable pub create_reader_writer_lock : Bool → ReaderWriterLock
create_reader_writer_lock writer_first = record {
  writer_first = writer_first;
  writer_count = 0;
  reader_count = 0;
  writer_queue = [];
  reader_queue = [];
}

abbrev pub take_reader : ReaderWriterLock → Bool × ReaderWriterLock
take_reader l =
    if (l.writer_count == 0) && (not l.writer_first || is_empty l.writer_queue)
    then (true, record l { reader_count = l.reader_count + 1 })
    else (false, l)

abbrev pub push_reader_queue : ReaderWriterLock → Task → ReaderWriterLock
push_reader_queue l t = record l { reader_queue = push_queue l.reader_queue t }

unfoldable pub acquire_reader_lock : Task → ReaderWriterLock → Outcome × ReaderWriterLock
acquire_reader_lock = acquire_ex_lock take_reader push_reader_queue true

abbrev pub take_writer : ReaderWriterLock → Bool × ReaderWriterLock
take_writer l =
    if (l.writer_count == 0) && (l.reader_count == 0)
    then (true, record l { writer_count = l.writer_count + 1 })
    else (false, l)

abbrev pub push_writer_queue : ReaderWriterLock → Task → ReaderWriterLock
push_writer_queue l t = record l { writer_queue = push_queue l.writer_queue t }

unfoldable pub acquire_writer_lock : Task → ReaderWriterLock → Outcome × ReaderWriterLock
acquire_writer_lock = acquire_ex_lock take_writer push_writer_queue true

-- The caller's own hold: a writer's if there is a writer, else a reader's.
unfoldable pub drop_hold : ReaderWriterLock → ReaderWriterLock
drop_hold l =
    if not (l.writer_count == 0)
    then record l { writer_count = l.writer_count - 1 }
    else record l { reader_count = l.reader_count - 1 }

-- `while(1){ t = popQueue(&readerQueue); if(t == NULL) break; readerCount++; pushQueue(q, t); }`
unfoldable pub wake_readers : TaskQueue → (count : ℕ) → TaskQueue → ℕ × TaskQueue
wake_readers [] count q = (count, q)
wake_readers (t ∷ waiting) count q = wake_readers waiting (count + 1) (push_queue q t)

unfoldable pub next_writer : ReaderWriterLock → ReaderWriterLock × TaskQueue
next_writer l =
    let (t, rest) = pop_queue l.writer_queue in
    elim t [
      | none ↦ (l, [])
      | some t' ↦
          (record l { writer_count = l.writer_count + 1; writer_queue = rest }, push_queue [] t')
    ]

unfoldable pub next_readers : ReaderWriterLock → ReaderWriterLock × TaskQueue
next_readers l =
    let (count, q) = wake_readers l.reader_queue l.reader_count [] in
    (record l { reader_count = count; reader_queue = [] }, q)

unfoldable pub give_lock : ReaderWriterLock → ReaderWriterLock × TaskQueue
unfolding drop_hold
give_lock l =
    let l' = drop_hold l in
    if (l'.writer_first && not (is_empty l'.writer_queue)) || is_empty l'.reader_queue
    then next_writer l'
    else next_readers l'

unfoldable pub release_reader_writer_lock : ReaderWriterLock → ReaderWriterLock × List Task
release_reader_writer_lock = release_ex_lock give_lock
