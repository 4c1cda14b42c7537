-- ===== src/Lock/Tests.antt =====
-- Runs of src/kernel/task/exclusivelock.c at concrete states, and the theorems applied to them.
use homemade_os.Base.{◌<◌, ◌≡◌, refl, inr, false, List, [], ◌∷◌, arith}
use homemade_os.Lock.Semaphore.{Semaphore}
use homemade_os.Lock.Semaphore.Fifo
use homemade_os.Lock.Semaphore.Fifo.{try_acquire_all_lem}
use homemade_os.Lock.ReaderWriter.{
  ReaderWriterLock, create_reader_writer_lock, acquire_reader_lock, acquire_writer_lock,
  release_reader_writer_lock,
}
use homemade_os.Lock.ReaderWriter.Exclusion
use homemade_os.Lock.ReaderWriter.Exclusion.{IsExclusive}
use homemade_os.Lock.ReaderWriter.Handover.{release_beside_readers}

abbrev sem_calls : List Fifo.Call
sem_calls =
    Fifo.acquire 7 ∷ Fifo.acquire 8 ∷ Fifo.try_acquire 9 ∷ Fifo.acquire 6 ∷ Fifo.release ∷ []

abbrev three_units : Semaphore
three_units = record { quota = 3; task_queue = [] }

abbrev rw_calls : List Exclusion.Call
rw_calls =
    Exclusion.acquire_reader 1
    ∷ Exclusion.acquire_writer 2
    ∷ Exclusion.acquire_reader 3
    ∷ Exclusion.release
    ∷ []

abbrev writing : ReaderWriterLock
writing = record {
  writer_first = false;
  writer_count = 1;
  reader_count = 0;
  writer_queue = 5 ∷ [];
  reader_queue = 6 ∷ 7 ∷ [];
}

-- two readers, and a writer that asked for the lock after them
abbrev reading : ReaderWriterLock
reading = record {
  writer_first = false;
  writer_count = 0;
  reader_count = 2;
  writer_queue = 5 ∷ [];
  reader_queue = [];
}

reading_reached :
    Exclusion.perform_all
      (create_reader_writer_lock false)
      (Exclusion.acquire_reader 1 ∷ Exclusion.acquire_reader 2 ∷ Exclusion.acquire_writer 5 ∷ [])
    ≡ reading
unfolding Exclusion.perform_all Exclusion.perform create_reader_writer_lock acquire_reader_lock
    acquire_writer_lock
reading_reached = refl

release_beside_readers_example :
    let (l', woken) = release_reader_writer_lock reading in
    (woken ≡ 5 ∷ []) × (l'.writer_count ≡ 1) × (0 < l'.reader_count) × ¬ IsExclusive l'
release_beside_readers_example =
    release_beside_readers reading 5 [] refl (omega arith) refl (inr refl)
