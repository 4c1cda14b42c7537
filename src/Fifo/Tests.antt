-- ===== src/Fifo/Tests.antt =====
-- Runs of src/kernel/io/fifoarray.c at a FIFO of two slots, and the theorems applied there.
use homemade_os.Base.{◌≡◌, refl, true, false, none, some, List, [], ◌∷◌, arith}
use homemade_os.Lock.Semaphore.{release_semaphore, try_acquire_semaphore}
use homemade_os.Fifo.{
  Element, Fifo, read_locked, write_fifo, overwrite_fifo, read_fifo_non_block, peek_fifo,
}
use homemade_os.Fifo.Refine.{IsValid}
use homemade_os.Fifo.Run.{Op, put, force, get, peek, perform, run}
use homemade_os.Fifo.Interleave.{World, Step, Reach, IsBalanced, admitted_reader_finds_data}

-- the slot 1 holds the only element
abbrev wrapped : Fifo
wrapped = record {
  begin = 1;
  data_length = 1;
  buffer_length = 2;
  buffer = (9 ∷ []) ∷ (8 ∷ []) ∷ [];
  semaphore = record { quota = 1; task_queue = [] };
}

abbrev script : List Op
script = put (4 ∷ []) ∷ put (5 ∷ []) ∷ force (6 ∷ []) ∷ get 0 ∷ peek ∷ get 0 ∷ get 0 ∷ []

run-script :
    run wrapped script
    ≡ (true, none)
      ∷ (false, none)
      ∷ (false, some (8 ∷ []))
      ∷ (false, some (4 ∷ []))
      ∷ (false, some (6 ∷ []))
      ∷ (false, some (6 ∷ []))
      ∷ (false, none)
      ∷ []
unfolding run perform write_fifo overwrite_fifo read_fifo_non_block peek_fifo release_semaphore
    try_acquire_semaphore
run-script = refl

wrapped-IsValid : IsValid 1 wrapped
wrapped-IsValid = omega arith

abbrev quiet : World
quiet = record { fifo = wrapped; unsignalled = 0; admitted = 0 }

-- One reader is let through; a writer puts an element and has not signalled yet.
abbrev busy : World
busy = record {
  fifo = record wrapped { semaphore = record { quota = 0; task_queue = [] } };
  unsignalled = 0;
  admitted = 1;
}

quiet-IsBalanced : IsBalanced 1 quiet
quiet-IsBalanced = record { valid = wrapped-IsValid; units = refl }

admitted_reader_example : (x : Element) × ((read_locked true busy.fifo).0 ≡ some x)
unfolding try_acquire_semaphore
admitted_reader_example =
    admitted_reader_finds_data 1 {s = quiet} {w = busy} quiet-IsBalanced
      (Reach.next Reach.here (Step.try quiet 3)) (omega arith)
