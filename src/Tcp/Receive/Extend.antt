-- ===== src/Tcp/Receive/Extend.antt =====
-- `copyTCPReceiveWindow` as a whole: what a segment does to the window.
use homemade_os.Base.{
  ℕ, zero, suc, ◌+◌, ◌≤◌, ◌<◌, ◌≡◌, refl, ◌⊎◌, inl, inr, true, false, List, [], ◌∷◌, arith, leb,
  Bool-cases,
}
use native.Mathlib.Decide.{ℕ_discrete}
use homemade_os.Tcp.Sequence.{add_sequence, diff_sequence}
use homemade_os.Tcp.Receive.{ReceiveWindow, has_receive_data, set_receive_data, store_bytes, extend}
use homemade_os.Tcp.Receive.Store.{IsWindow, slot_at, set-IsWindow}

-- Everything but the buffer and the length is as it was.
pub record KeepsShape (v u : ReceiveWindow) : Type 0 where
  pub begin : u.sequence_begin ≡ v.sequence_begin
  pub size : u.window_size ≡ v.window_size
  pub finish : u.reach_finish ≡ v.reach_finish
  pub finish_at : u.sequence_finish ≡ v.sequence_finish
  pub requests : u.requests ≡ v.requests

pub store_bytes-KeepsShape :
    (v : ReceiveWindow) (seq i : ℕ) (bs : List ℕ)
    → KeepsShape v (store_bytes v seq i bs)
      × ((store_bytes v seq i bs).sequence_length ≡ v.sequence_length)
unfolding store_bytes
store_bytes-KeepsShape v seq i [] = (ground arith, refl)
store_bytes-KeepsShape v seq i (b ∷ bs) =
    elim (Bool-cases (leb v.window_size (diff_sequence (add_sequence seq i) v.sequence_begin))) [
      | inl far ↦ rw (far, store_bytes) (store_bytes-KeepsShape v seq (i + 1) bs)
      | inr near ↦
          rw (near, store_bytes)
            (let r =
                store_bytes-KeepsShape (set_receive_data v (add_sequence seq i) b) seq (i + 1) bs in
              (ground (arith, r), ground (arith, r)))
    ]

pub store_bytes-IsWindow :
    (v : ReceiveWindow) (seq i : ℕ) (bs : List ℕ) → IsWindow v → IsWindow (store_bytes v seq i bs)
unfolding store_bytes
store_bytes-IsWindow v seq i [] w = w
store_bytes-IsWindow v seq i (b ∷ bs) w =
    elim (Bool-cases (leb v.window_size (diff_sequence (add_sequence seq i) v.sequence_begin))) [
      | inl far ↦ rw (far, store_bytes) (store_bytes-IsWindow v seq (i + 1) bs w)
      | inr near ↦
          rw (near, store_bytes)
            (store_bytes-IsWindow (set_receive_data v (add_sequence seq i) b) seq (i + 1) bs
              (set-IsWindow v w (add_sequence seq i) b))
    ]

-- What `extend` does with `n` rounds: the length grows over offsets that hold data, and stops at the
-- first that holds none, or when the rounds are used up.
pub record Extended (n : ℕ) (v u : ReceiveWindow) : Type 0 where
  pub shape : KeepsShape v u
  pub buffer : u.buffer ≡ v.buffer
  pub grows : v.sequence_length ≤ u.sequence_length
  pub at_most : u.sequence_length ≤ v.sequence_length + n
  pub full :
      (off : ℕ)
      → v.sequence_length ≤ off
      → off < u.sequence_length
      → (slot_at v off).has_data ≡ true
  pub stops :
      (u.sequence_length ≡ v.sequence_length + n) ⊎ ((slot_at v u.sequence_length).has_data ≡ false)

pub extend-Extended : (n : ℕ) (v : ReceiveWindow) → Extended n v (extend n v)
unfolding extend has_receive_data
extend-Extended zero v = record {
  shape = ground arith;
  buffer = refl;
  grows = omega arith;
  at_most = omega arith;
  full = λ off p q. absurd (omega arith);
  stops = inl (omega arith);
}
extend-Extended (suc n) v =
    let more : ReceiveWindow = record v { sequence_length = v.sequence_length + 1 } in
    let r = extend-Extended n more in
    elim (Bool-cases (slot_at v v.sequence_length).has_data) [
      | inl has ↦
          rw (has, extend)
            (record {
              shape = ground (arith, r.shape);
              buffer = r.buffer;
              grows = omega (arith, r.grows);
              at_most = omega (arith, r.at_most);
              full = λ off p q. elim (ℕ_discrete off v.sequence_length) [
                | yes e ↦ rw e has
                | no ne ↦ r.full off (omega arith) q
              ];
              stops = elim r.stops [ inl e ↦ inl (omega (arith, e)) | inr e ↦ inr e ];
            })
      | inr gap ↦
          rw (gap, extend)
            (record {
              shape = ground arith;
              buffer = refl;
              grows = omega arith;
              at_most = omega arith;
              full = λ off p q. absurd (omega arith);
              stops = inr gap;
            })
    ]
