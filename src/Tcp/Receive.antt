-- ===== src/Tcp/Receive.antt =====
-- The receive window of src/kernel/io/network/tcp.c. The queue of read requests is the list in front
-- of the sentinel `tail`; a request is the handle `rwfr` and the size of the reader's buffer.
pub mod Store
pub mod Extend
pub mod Copy
pub mod Deliver
pub mod Serve
pub mod Finish
pub mod InOrder
mod Tests
use homemade_os.Base.{
  ℕ, zero, suc, ◌+◌, ◌-◌, ◌%◌, ◌^◌, min, Bool, true, false, not, ◌&&◌, Option, none, some, List, [],
  ◌∷◌, ◌++◌, ltb, leb, ◌==◌, if◌then◌else◌, get_or, set, replicate,
}
use homemade_os.Tcp.Sequence.{add_sequence, diff_sequence}

pub record Slot : Type 0 where
  pub has_data : Bool
  pub byte : ℕ

abbrev pub no_slot : Slot
no_slot = record { has_data = false; byte = 0 }

pub record ReceiveRequest : Type 0 where
  pub rwfr : ℕ
  pub buffer_size : ℕ

-- `completeRWFileIO(rwfr, size, 0)`, with the bytes that the reader's buffer then holds.
pub record Completion : Type 0 where
  pub rwfr : ℕ
  pub bytes : List ℕ

pub record ReceiveWindow : Type 0 where
  pub sequence_begin : ℕ
  pub sequence_length : ℕ
  pub window_size : ℕ
  pub reach_finish : Bool
  pub sequence_finish : ℕ
  pub buffer : List Slot
  pub requests : List ReceiveRequest

-- `none`: the allocation of the buffer failed.
unfoldable pub init_receive_window : (allocated : Bool) → ℕ → Option ReceiveWindow
init_receive_window false window_size = none
init_receive_window true window_size = some record {
  sequence_begin = 0;
  sequence_length = 0;
  window_size = window_size;
  reach_finish = false;
  sequence_finish = 0;
  buffer = replicate window_size no_slot;
  requests = [];
}

unfoldable pub syn_receive_window : ReceiveWindow → ℕ → ReceiveWindow
syn_receive_window v seq = record v { sequence_begin = seq; sequence_length = 0 }

pub record ReceiveAck : Type 0 where
  pub ack_number : ℕ
  pub window_remain_size : ℕ
  pub is_fin_ack : Bool

-- `windowRemainSize` is a `uint16_t`; the subtraction is modulo `2 ^ 32` first.
unfoldable pub get_receive_ack : ReceiveWindow → ReceiveAck
get_receive_ack v =
    let ack = add_sequence v.sequence_begin v.sequence_length in
    let remain = (v.window_size + 2 ^ 32 - v.sequence_length) % 2 ^ 16 in
    if v.reach_finish && (v.sequence_finish == ack)
    then record { ack_number = add_sequence ack 1; window_remain_size = remain; is_fin_ack = true }
    else record { ack_number = ack; window_remain_size = remain; is_fin_ack = false }

unfoldable pub set_receive_data : ReceiveWindow → ℕ → ℕ → ReceiveWindow
set_receive_data v seq b = record v {
  buffer = set v.buffer (seq % v.window_size) (record { has_data = true; byte = b });
}

unfoldable pub has_receive_data : ReceiveWindow → ℕ → Bool
has_receive_data v seq = (get_or v.buffer (seq % v.window_size) no_slot).has_data

-- The byte, and the window without it; the assertion that there is one is not executed.
unfoldable pub unset_receive_data : ReceiveWindow → ℕ → ℕ × ReceiveWindow
unset_receive_data v seq =
    let i = seq % v.window_size in
    ((get_or v.buffer i no_slot).byte, record v { buffer = set v.buffer i no_slot })

-- The `for` loop of `copyTCPReceiveWindow`, from index `i`; the list is the rest of the segment.
unfoldable pub store_bytes : ReceiveWindow → (remote_seq_begin i : ℕ) → List ℕ → ReceiveWindow
unfolding set_receive_data
store_bytes v seq i [] = v
store_bytes v seq i (b ∷ bs) =
    let s = add_sequence seq i in
    let ds = diff_sequence s v.sequence_begin in
    store_bytes (if leb v.window_size ds then v else set_receive_data v s b) seq (i + 1) bs

-- `while(sequenceLength < seqLenLimit)`, on the rounds that are left.
unfoldable pub extend : (rounds : ℕ) → ReceiveWindow → ReceiveWindow
extend zero v = v
extend (suc n) v =
    let rest = extend n (record v { sequence_length = v.sequence_length + 1 }) in
    if has_receive_data v (add_sequence v.sequence_begin v.sequence_length) then rest else v

unfoldable pub sequence_limit : ReceiveWindow → ℕ
sequence_limit v =
    if v.reach_finish then diff_sequence v.sequence_finish v.sequence_begin else v.window_size

unfoldable pub copy_receive_window : ReceiveWindow → ℕ → List ℕ → ℕ × ReceiveWindow
unfolding store_bytes extend sequence_limit
copy_receive_window v seq bytes =
    let stored = store_bytes v seq 0 bytes in
    let v' = extend (sequence_limit stored - stored.sequence_length) stored in
    (v'.sequence_length - v.sequence_length, v')

-- `pushTCPReceiveBuffer`; without memory for the request it completes at once with no bytes.
unfoldable pub push_receive_buffer :
    (allocated : Bool) → ReceiveWindow → ReceiveRequest → List Completion × ReceiveWindow
push_receive_buffer false v r = (record { rwfr = r.rwfr; bytes = [] } ∷ [], v)
push_receive_buffer true v r = ([], record v { requests = v.requests ++ (r ∷ []) })

-- The inner `while(bi < copySize)`: `n` bytes from sequence number `wi` on.
unfoldable pub take_bytes : (n : ℕ) → ReceiveWindow → (wi : ℕ) → List ℕ × ℕ × ReceiveWindow
unfolding unset_receive_data
take_bytes zero v wi = ([], wi, v)
take_bytes (suc n) v wi =
    let (b, v') = unset_receive_data v wi in
    let (bs, wi', v'') = take_bytes n v' (add_sequence wi 1) in (b ∷ bs, wi', v'')

-- The outer loop of `copyTCPReceiveBuffer` over the queued requests `rs`.
unfoldable pub serve : List ReceiveRequest → ReceiveWindow → ℕ → ℕ × List Completion × ReceiveWindow
unfolding take_bytes
serve [] v total = (total, [], record v { requests = [] })
serve (r ∷ rs) v total =
    let n = min r.buffer_size v.sequence_length in
    let (bytes, wi, v') = take_bytes n v v.sequence_begin in
    let left = record v' { sequence_begin = wi; sequence_length = v'.sequence_length - n } in
    let rest = serve rs left (total + n) in
    if v.sequence_length == 0
    then (total, [], record v { requests = r ∷ rs })
    else (rest.0, record { rwfr = r.rwfr; bytes = bytes } ∷ rest.1, rest.2)

-- `while(hasTCPReceiveBuffer(v)) popTCPReceiveBuffer(v, 0);`
unfoldable pub fail_requests : List ReceiveRequest → List Completion
fail_requests [] = []
fail_requests (r ∷ rs) = record { rwfr = r.rwfr; bytes = [] } ∷ fail_requests rs

abbrev pub at_finish : ReceiveWindow → Bool
at_finish v = v.reach_finish && (v.sequence_finish == v.sequence_begin)

-- The end of `copyTCPReceiveBuffer`: at the finish the readers still waiting get no bytes.
unfoldable pub finish_requests : List Completion → ReceiveWindow → List Completion × ReceiveWindow
unfolding fail_requests
finish_requests done v =
    if at_finish v
    then (done ++ fail_requests v.requests, record v { requests = [] })
    else (done, v)

unfoldable pub copy_receive_buffer : ReceiveWindow → ℕ × List Completion × ReceiveWindow
unfolding serve finish_requests
copy_receive_buffer v =
    let (total, done, v') = serve v.requests v 0 in
    let (all_done, v'') = finish_requests done v' in (total, all_done, v'')
