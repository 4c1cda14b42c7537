-- ===== src/FifoFile/Tests.antt =====
-- The theorems at three reads and two writes.
use homemade_os.Base.{ℕ, ◌+◌, ◌≤◌, ◌≡◌, List, [], ◌∷◌}
use homemade_os.FifoFile.{ReadRequest, FifoFile, empty_file, Call, read, write, cancel, run}
use homemade_os.FifoFile.Delivery.{Delivers, IsServed, completions, waits, run-Delivers}
use homemade_os.FifoFile.Overtaken.{served, run-exchanges}

abbrev reader : ℕ → ReadRequest
reader n = record { request = n; buffer_size = 2 }

abbrev calls : List Call
calls =
    read (reader 1)
    ∷ read (reader 2)
    ∷ cancel 2
    ∷ write (4 ∷ 5 ∷ 6 ∷ [])
    ∷ write (7 ∷ [])
    ∷ read (reader 3)
    ∷ []

run-Delivers_example :
    Delivers
      (run calls empty_file).0
      ((4 ∷ 5 ∷ 6 ∷ []) ∷ (7 ∷ []) ∷ [])
      (run calls empty_file).1.elements
    × IsServed (run calls empty_file).1
    × (completions 1 (run calls empty_file).0 + waits 1 (run calls empty_file).1.pending_read ≤ 1)
    × (1
        ≤ completions 1 (run calls empty_file).0
          + waits 1 (run calls empty_file).1.pending_read
          + 0)
run-Delivers_example = run-Delivers calls 1

abbrev waiting : FifoFile
waiting = record { elements = []; pending_read = reader 1 ∷ [] }

run-exchanges_example :
    run (read (reader 2) ∷ write (7 ∷ []) ∷ []) waiting
    ≡ (served ((reader 2, 7 ∷ []) ∷ []), waiting)
run-exchanges_example = run-exchanges ((reader 2, 7 ∷ []) ∷ []) (reader 1)
