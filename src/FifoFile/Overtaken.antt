-- ===== src/FifoFile/Overtaken.antt =====
-- A request that waits is overtaken by those that come after it.
use homemade_os.Base.{ℕ, ◌≡◌, refl, ap, List, [], ◌∷◌}
use homemade_os.FifoFile.{
  ReadRequest, FifoFile, copy_fifo_element, push_fifo_element, push_rw_fifo_request, process_lists,
  process_fifo, read_fifo_file, direct_write_fifo_file, Call, read, write, run,
}

-- A read and a write, again and again.
abbrev pub exchanges : List (ReadRequest × List ℕ) → List Call
exchanges [] = []
exchanges ((r, buffer) ∷ rounds) = read r ∷ write buffer ∷ exchanges rounds

abbrev pub served : List (ReadRequest × List ℕ) → List (ReadRequest × List ℕ)
served [] = []
served ((r, buffer) ∷ rounds) = (r, copy_fifo_element buffer r.buffer_size) ∷ served rounds

-- However many reads and writes follow in turn, a request that waits first is not completed: each write
-- goes to the read just before it.
pub run-exchanges :
    (rounds : List (ReadRequest × List ℕ)) (waiting : ReadRequest)
    → let f : FifoFile = record { elements = []; pending_read = waiting ∷ [] } in
      run (exchanges rounds) f ≡ (served rounds, f)
unfolding run read_fifo_file direct_write_fifo_file process_fifo process_lists push_fifo_element
    push_rw_fifo_request
run-exchanges [] waiting = refl
run-exchanges ((r, buffer) ∷ rounds) waiting =
    ap
      (λ o.
        let p : List (ReadRequest × List ℕ) × FifoFile =
          ((r, copy_fifo_element buffer r.buffer_size) ∷ o.0, o.1) in
        p)
      (run-exchanges rounds waiting)
