-- ===== src/FifoFile.antt =====
-- src/kernel/file/fifofile.c: a file that hands what is written to it to those who read. `FIFOList` is the
-- list of its elements from the head on, and `pendingRead` the list of the requests, the head first. Memory
-- for an element or a request is there; each part under the lock is one step, and nothing comes between
-- the steps of a call.
pub mod Delivery
pub mod Overtaken
mod Tests
use homemade_os.Base.{
  ℕ, zero, suc, ◌+◌, Bool, true, false, not, ◌&&◌, Option, none, some, List, [], ◌∷◌, ◌++◌, ◌==◌,
  if◌then◌else◌, is_empty, take, length,
}

-- `RWFIFORequest`: the request by its number, and the size of its buffer.
pub record ReadRequest : Type 0 where
  pub request : ℕ
  pub buffer_size : ℕ

pub record FifoFile : Type 0 where
  pub elements : List (List ℕ)
  pub pending_read : List ReadRequest

unfoldable pub copy_fifo_element : (element : List ℕ) → (buffer_size : ℕ) → List ℕ
copy_fifo_element element buffer_size = take buffer_size element

unfoldable pub push_fifo_element : (element : List ℕ) → FifoFile → FifoFile
push_fifo_element element f = record f { elements = f.elements ++ element ∷ [] }

-- `ADD_TO_DQUEUE` puts the request at the head.
unfoldable pub push_rw_fifo_request : ReadRequest → FifoFile → FifoFile
push_rw_fifo_request r f = record f { pending_read = r ∷ f.pending_read }

-- The requests that are completed, each with its bytes, in order; and the file.
abbrev pub Processed : Type 0
Processed = List (ReadRequest × List ℕ) × FifoFile

abbrev pub and_completed : ReadRequest × List ℕ → Processed → Processed
and_completed c (completed, f) = (c ∷ completed, f)

-- The loop of `processFIFO`.
unfoldable pub process_lists : List (List ℕ) → List ReadRequest → Processed
unfolding copy_fifo_element
process_lists [] pending = ([], record { elements = []; pending_read = pending })
process_lists (e ∷ elements) [] = ([], record { elements = e ∷ elements; pending_read = [] })
process_lists (e ∷ elements) (r ∷ pending) =
    and_completed (r, copy_fifo_element e r.buffer_size) (process_lists elements pending)

unfoldable pub process_fifo : FifoFile → Processed
unfolding process_lists
process_fifo f = process_lists f.elements f.pending_read

unfoldable pub read_fifo_file : ReadRequest → FifoFile → Processed
unfolding process_fifo push_rw_fifo_request
read_fifo_file r f = process_fifo (push_rw_fifo_request r f)

unfoldable pub direct_write_fifo_file : (buffer : List ℕ) → FifoFile → Processed
unfolding process_fifo push_fifo_element
direct_write_fifo_file buffer f = process_fifo (push_fifo_element buffer f)

-- `cancelReadFIFO`
abbrev pub without : (request : ℕ) → List ReadRequest → List ReadRequest
without request [] = []
without request (r ∷ pending) =
    if r.request == request then pending else r ∷ without request pending

unfoldable pub cancel_read_fifo : (request : ℕ) → FifoFile → FifoFile
cancel_read_fifo request f = record f { pending_read = without request f.pending_read }

abbrev pub empty_file : FifoFile
empty_file = record { elements = []; pending_read = [] }

pub data Call : Type 0 where
  read : ReadRequest → Call
  write : (buffer : List ℕ) → Call
  cancel : (request : ℕ) → Call

abbrev pub call : Call → FifoFile → Processed
call (read r) f = read_fifo_file r f
call (write buffer) f = direct_write_fifo_file buffer f
call (cancel request) f = ([], cancel_read_fifo request f)

unfoldable pub run : List Call → FifoFile → Processed
run [] f = ([], f)
run (c ∷ calls) f =
    let (completed, f') = call c f in let (later, f'') = run calls f' in (completed ++ later, f'')
