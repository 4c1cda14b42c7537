-- ===== src/Tcp/Receive/Deliver.antt =====
-- `copyTCPReceiveBuffer`: the readable bytes go to the queued readers in order.
use homemade_os.Base.{
  ℕ, zero, suc, ◌+◌, ◌%◌, ◌≤◌, ◌<◌, ◌≡◌, refl, sym, ap, ap₂, ◌∙◌, subst, Bool, false, List, [], ◌∷◌,
  ◌++◌, arith, length, length-set, get_or, set, ◌==◌, if◌then◌else◌,
}
use homemade_os.Tcp.Sequence.{add_sequence}
use homemade_os.Tcp.Receive.{no_slot, ReceiveWindow, unset_receive_data, take_bytes}
use homemade_os.Tcp.Receive.Store.{IsWindow, slot_at, slot_at-put}

-- The bytes at `n` offsets of the window from `off` on.
abbrev pub bytes_from : ReceiveWindow → (off n : ℕ) → List ℕ
bytes_from v off zero = []
bytes_from v off (suc n) = (slot_at v off).byte ∷ bytes_from v (off + 1) n

-- What a reader could read at once.
abbrev pub readable : ReceiveWindow → List ℕ
readable v = bytes_from v 0 v.sequence_length

pub length-bytes_from : (v : ReceiveWindow) (off n : ℕ) → length (bytes_from v off n) ≡ n
length-bytes_from v off zero = refl
length-bytes_from v off (suc n) = ap suc (length-bytes_from v (off + 1) n)

pub bytes_from-append :
    (v : ReceiveWindow) (off n m : ℕ)
    → bytes_from v off n ++ bytes_from v (off + n) m ≡ bytes_from v off (n + m)
bytes_from-append v off zero m =
    let a : off + 0 ≡ off = omega arith in let b : m ≡ 0 + m = omega arith in ap₂ (bytes_from v) a b
bytes_from-append v off (suc n) m =
    let a : off + suc n ≡ off + 1 + n = omega arith in
    let b : suc (n + m) ≡ suc n + m = omega arith in
    ap (λ r. (slot_at v off).byte ∷ r)
      (ap (λ k. bytes_from v (off + 1) n ++ bytes_from v k m) a ∙ bytes_from-append v (off + 1) n m)
    ∙ ap (bytes_from v off) b

-- Two windows with the same slots at shifted offsets read the same.
pub bytes_from-shift :
    (u v : ReceiveWindow) (a b n : ℕ)
    → ((i : ℕ) → i < n → slot_at u (a + i) ≡ slot_at v (b + i))
    → bytes_from u a n ≡ bytes_from v b n
bytes_from-shift u v a b zero h = refl
bytes_from-shift u v a b (suc n) h =
    let zero_on : (c : ℕ) → c + 0 ≡ c = λ c. omega arith in
    let one_on : (c i : ℕ) → c + 1 + i ≡ c + suc i = λ c i. omega arith in
    let first : slot_at u a ≡ slot_at v b =
      ap (slot_at u) (sym (zero_on a)) ∙ h 0 (omega arith) ∙ ap (slot_at v) (zero_on b) in
    ap₂ ◌∷◌ (ap (λ s. s.byte) first) (
      bytes_from-shift u v (a + 1) (b + 1) n λ i p.
        ap (slot_at u) (one_on a i) ∙ h (suc i) (omega arith) ∙ ap (slot_at v) (sym (one_on b i)))

-- `n` bytes taken from offset `k` on.
pub record Taken (v : ReceiveWindow) (k n : ℕ) (r : List ℕ × ℕ × ReceiveWindow) : Type 0 where
  pub bytes : r.0 ≡ bytes_from v k n
  pub stop : r.1 ≡ add_sequence v.sequence_begin (k + n)
  pub begin : r.2.sequence_begin ≡ v.sequence_begin
  pub len : r.2.sequence_length ≡ v.sequence_length
  pub size : r.2.window_size ≡ v.window_size
  pub finish : r.2.reach_finish ≡ v.reach_finish
  pub finish_at : r.2.sequence_finish ≡ v.sequence_finish
  pub requests : r.2.requests ≡ v.requests
  pub storage : length r.2.buffer ≡ length v.buffer
  pub rest : (off : ℕ) → k + n ≤ off → off < v.window_size → slot_at r.2 off ≡ slot_at v off

lt→ne : (a b : ℕ) → a < b → (a == b) ≡ false
lt→ne a b h = ground arith

pub unset-IsWindow : (v : ReceiveWindow) (s : ℕ) → IsWindow v → IsWindow (unset_receive_data v s).1
unfolding unset_receive_data
unset-IsWindow v s w = record {
  divides = w.divides;
  positive = w.positive;
  bounded = w.bounded;
  storage = rw (length-set v.buffer (s % v.window_size) no_slot) w.storage;
  begin_in = w.begin_in;
}

pub take_bytes-Taken :
    (n k : ℕ) (v : ReceiveWindow) (wi : ℕ)
    → IsWindow v
    → k + n ≤ v.window_size
    → wi ≡ add_sequence v.sequence_begin k
    → Taken v k n (take_bytes n v wi)
unfolding take_bytes unset_receive_data
take_bytes-Taken zero k v wi w h e = record {
  bytes = refl;
  stop = omega (arith, e);
  begin = refl;
  len = refl;
  size = refl;
  finish = refl;
  finish_at = refl;
  requests = refl;
  storage = refl;
  rest = λ off p q. refl;
}
take_bytes-Taken (suc n) k v wi w h e =
    let u : ReceiveWindow = (unset_receive_data v wi).1 in
    let others : (off : ℕ) → k < off → off < v.window_size → slot_at u off ≡ slot_at v off =
      λ off p q.
        subst
          (λ x.
            get_or (set v.buffer (x % v.window_size) no_slot)
              (add_sequence v.sequence_begin off % v.window_size) no_slot
            ≡ slot_at v off)
          (sym e)
          (slot_at-put v w k off no_slot (omega arith) q
            ∙ ap (λ (c : Bool). if c then no_slot else slot_at v off) (lt→ne k off p)) in
    let r =
      take_bytes-Taken n (k + 1) u (add_sequence wi 1) (unset-IsWindow v wi w) (omega arith)
        (omega (arith, e, w.begin_in)) in
    record {
      bytes = ap₂ ◌∷◌ (ap (λ x. (get_or v.buffer (x % v.window_size) no_slot).byte) e) (
          r.bytes
          ∙ bytes_from-shift u v (k + 1) (k + 1) n
              λ i p. others (k + 1 + i) (omega arith) (omega arith));
      stop = omega (arith, r.stop);
      begin = r.begin;
      len = r.len;
      size = r.size;
      finish = r.finish;
      finish_at = r.finish_at;
      requests = r.requests;
      storage = r.storage ∙ length-set v.buffer (wi % v.window_size) no_slot;
      rest = λ off p q. r.rest off (omega arith) q ∙ others off (omega arith) q;
    }
