-- ===== src/FifoFile/Delivery.antt =====
-- What is written is read in order, and nothing waits that could be served.
use homemade_os.Base.{
  ℕ, ◌+◌, ◌≤◌, ◌==◌, if◌then◌else◌, arith, Bool-cases, ◌≡◌, ◌⊎◌, inl, inr, refl, sym, ap, subst,
  List, [], ◌∷◌, ◌++◌, append_assoc, append-nil, take,
}
use homemade_os.FifoFile.{
  ReadRequest, FifoFile, copy_fifo_element, push_fifo_element, push_rw_fifo_request, process_lists,
  process_fifo, read_fifo_file, direct_write_fifo_file, without, cancel_read_fifo, empty_file, Call,
  read, write, cancel, run,
}

abbrev pub writes : List Call → List (List ℕ)
writes [] = []
writes (read r ∷ calls) = writes calls
writes (write buffer ∷ calls) = buffer ∷ writes calls
writes (cancel request ∷ calls) = writes calls

-- How many of the completed requests, of those that wait, and of the reads and cancelled reads among the
-- calls have this number.
abbrev pub completions : (request : ℕ) → List (ReadRequest × List ℕ) → ℕ
completions request [] = 0
completions request ((r, bytes) ∷ completed) =
    (if r.request == request then 1 else 0) + completions request completed

abbrev pub waits : (request : ℕ) → List ReadRequest → ℕ
waits request [] = 0
waits request (r ∷ pending) = (if r.request == request then 1 else 0) + waits request pending

abbrev pub reads : (request : ℕ) → List Call → ℕ
reads request [] = 0
reads request (read r ∷ calls) = (if r.request == request then 1 else 0) + reads request calls
reads request (write buffer ∷ calls) = reads request calls
reads request (cancel other ∷ calls) = reads request calls

abbrev pub cancels : (request : ℕ) → List Call → ℕ
cancels request [] = 0
cancels request (read r ∷ calls) = cancels request calls
cancels request (write buffer ∷ calls) = cancels request calls
cancels request (cancel other ∷ calls) = (if other == request then 1 else 0) + cancels request calls

-- Each completed request has the next buffer, as far as it fits; the buffers behind are left.
abbrev pub Delivers : List (ReadRequest × List ℕ) → List (List ℕ) → List (List ℕ) → Type 0
Delivers [] buffers left = buffers ≡ left
Delivers ((r, bytes) ∷ completed) [] left = ⊥
Delivers ((r, bytes) ∷ completed) (b ∷ buffers) left =
    (bytes ≡ take r.buffer_size b) × Delivers completed buffers left

-- No element and no request are left together.
abbrev pub IsServed : FifoFile → Type 0
IsServed f = (f.elements ≡ []) ⊎ (f.pending_read ≡ [])

Delivers-process :
    (elements : List (List ℕ)) (pending : List ReadRequest)
    → Delivers
        (process_lists elements pending).0
        elements
        (process_lists elements pending).1.elements
unfolding process_lists copy_fifo_element
Delivers-process [] pending = refl
Delivers-process (e ∷ elements) [] = refl
Delivers-process (e ∷ elements) (r ∷ pending) = (refl, Delivers-process elements pending)

IsServed-process :
    (elements : List (List ℕ)) (pending : List ReadRequest)
    → IsServed (process_lists elements pending).1
unfolding process_lists
IsServed-process [] pending = inl refl
IsServed-process (e ∷ elements) [] = inr refl
IsServed-process (e ∷ elements) (r ∷ pending) = IsServed-process elements pending

Delivers-append :
    (c d : List (ReadRequest × List ℕ)) (buffers more left final : List (List ℕ))
    → Delivers c buffers left
    → Delivers d (left ++ more) final
    → Delivers (c ++ d) (buffers ++ more) final
Delivers-append [] d buffers more left final h k =
    subst (λ l. Delivers d (l ++ more) final) (sym h) k
Delivers-append ((r, bytes) ∷ c) d [] more left final h k = absurd h
Delivers-append ((r, bytes) ∷ c) d (b ∷ buffers) more left final h k =
    (h.0, Delivers-append c d buffers more left final h.1 k)

Delivers-run :
    (calls : List Call) (f : FifoFile)
    → Delivers (run calls f).0 (f.elements ++ writes calls) (run calls f).1.elements
unfolding run read_fifo_file direct_write_fifo_file cancel_read_fifo process_fifo push_fifo_element
    push_rw_fifo_request
Delivers-run [] f = append-nil f.elements
Delivers-run (read r ∷ calls) f =
    let o = process_lists f.elements (r ∷ f.pending_read) in
    Delivers-append o.0 (run calls o.1).0 f.elements (writes calls) o.1.elements
      (run calls o.1).1.elements (Delivers-process f.elements (r ∷ f.pending_read))
      (Delivers-run calls o.1)
Delivers-run (write buffer ∷ calls) f =
    let o = process_lists (f.elements ++ buffer ∷ []) f.pending_read in
    subst (λ l. Delivers (o.0 ++ (run calls o.1).0) l (run calls o.1).1.elements)
      (append_assoc f.elements (buffer ∷ []) (writes calls))
      (Delivers-append o.0 (run calls o.1).0 (f.elements ++ buffer ∷ []) (writes calls) o.1.elements
        (run calls o.1).1.elements (Delivers-process (f.elements ++ buffer ∷ []) f.pending_read)
        (Delivers-run calls o.1))
Delivers-run (cancel request ∷ calls) f = Delivers-run calls (cancel_read_fifo request f)

without-nil :
    (request : ℕ) (pending : List ReadRequest) → pending ≡ [] → without request pending ≡ []
without-nil request pending h = ap (without request) h

IsServed-run : (calls : List Call) (f : FifoFile) → IsServed f → IsServed (run calls f).1
unfolding run read_fifo_file direct_write_fifo_file cancel_read_fifo process_fifo push_fifo_element
    push_rw_fifo_request
IsServed-run [] f h = h
IsServed-run (read r ∷ calls) f h =
    let o = process_lists f.elements (r ∷ f.pending_read) in
    IsServed-run calls o.1 (IsServed-process f.elements (r ∷ f.pending_read))
IsServed-run (write buffer ∷ calls) f h =
    let o = process_lists (f.elements ++ buffer ∷ []) f.pending_read in
    IsServed-run calls o.1 (IsServed-process (f.elements ++ buffer ∷ []) f.pending_read)
IsServed-run (cancel request ∷ calls) f h =
    IsServed-run calls (cancel_read_fifo request f) (elim h [
      | inl none_left ↦ inl none_left
      | inr nobody ↦ inr (without-nil request f.pending_read nobody)
    ])

process-waits :
    (n : ℕ) (elements : List (List ℕ)) (pending : List ReadRequest)
    → completions n (process_lists elements pending).0
        + waits n (process_lists elements pending).1.pending_read
      ≡ waits n pending
unfolding process_lists
process-waits n [] pending = omega arith
process-waits n (e ∷ elements) [] = omega arith
process-waits n (e ∷ elements) (r ∷ pending) = omega (arith, process-waits n elements pending)

completions-append :
    (n : ℕ) (c d : List (ReadRequest × List ℕ))
    → completions n (c ++ d) ≡ completions n c + completions n d
completions-append n [] d = omega arith
completions-append n (x ∷ c) d = omega (arith, completions-append n c d)

without-waits :
    (n request : ℕ) (pending : List ReadRequest)
    → (waits n (without request pending) ≤ waits n pending)
      × (waits n pending ≤ waits n (without request pending) + (if request == n then 1 else 0))
without-waits n request [] = (omega arith, omega arith)
without-waits n request (r ∷ pending) = elim (Bool-cases (r.request == request)) [
  | inl e ↦ rw e (ground arith, ground arith)
  | inr e ↦
      let (low, high) = without-waits n request pending in
      rw e (omega (arith, low), omega (arith, high))
]

-- Every request is completed, waiting or cancelled, and once.
run-completions :
    (n : ℕ) (calls : List Call) (f : FifoFile)
    → let (completed, f') = run calls f in
      (completions n completed + waits n f'.pending_read ≤ waits n f.pending_read + reads n calls)
      × (waits n f.pending_read + reads n calls
          ≤ completions n completed + waits n f'.pending_read + cancels n calls)
unfolding run read_fifo_file direct_write_fifo_file cancel_read_fifo process_fifo push_fifo_element
    push_rw_fifo_request
run-completions n [] f = (omega arith, omega arith)
run-completions n (read r ∷ calls) f =
    let o = process_lists f.elements (r ∷ f.pending_read) in
    let here = process-waits n f.elements (r ∷ f.pending_read) in
    let (low, high) = run-completions n calls o.1 in
    let sum = completions-append n o.0 (run calls o.1).0 in
    (omega (arith, here, low, sum), omega (arith, here, high, sum))
run-completions n (write buffer ∷ calls) f =
    let o = process_lists (f.elements ++ buffer ∷ []) f.pending_read in
    let here = process-waits n (f.elements ++ buffer ∷ []) f.pending_read in
    let (low, high) = run-completions n calls o.1 in
    let sum = completions-append n o.0 (run calls o.1).0 in
    (omega (arith, here, low, sum), omega (arith, here, high, sum))
run-completions n (cancel other ∷ calls) f =
    let (fewer, enough) = without-waits n other f.pending_read in
    let (low, high) = run-completions n calls (cancel_read_fifo other f) in
    (omega (arith, fewer, low), omega (arith, enough, high))

-- In every sequence of reads, writes and cancelled reads on a new file, the requests that are completed get
-- the buffers that are written, one each, in the order of the writes and as far as they fit; the buffers
-- behind are kept, and none is kept while a request waits. A request with a given number is completed or
-- still waits no more often than it is read, and no less often but for the calls that cancel it.
pub run-Delivers :
    (calls : List Call) (request : ℕ)
    → let (completed, f) = run calls empty_file in
      Delivers completed (writes calls) f.elements
      × IsServed f
      × (completions request completed + waits request f.pending_read ≤ reads request calls)
      × (reads request calls
          ≤ completions request completed + waits request f.pending_read + cancels request calls)
run-Delivers calls request =
    let (most, least) = run-completions request calls empty_file in
    (
      Delivers-run calls empty_file,
      IsServed-run calls empty_file (inl refl),
      omega (arith, most),
      omega (arith, least),
    )
