-- ===== src/Tcp/Receive/Store.antt =====
-- The loop of `copyTCPReceiveWindow` that stores a segment: which offset of the window holds what.
use Prim.Native.Nat.{◌∣◌}
use native.Mathlib.Nat.{mod-mod_of_dvd, mod-lt}
use homemade_os.Base.{
  ℕ, suc, ◌+◌, ◌-◌, ◌%◌, ◌^◌, ◌≤◌, ◌<◌, ◌≡◌, ◌≢◌, ◌↔◌, sym, ap, subst, ◌∙◌, true, false, List, [],
  ◌∷◌, arith, length, length-set, get_or, set, get_or-set_self, get_or-set_ne, ltb, leb, ◌==◌,
  ==_iff, if◌then◌else◌, Bool-cases, inl, inr, mod_ne, leb→le,
}
use native.Mathlib.Decide.{dec_lt, ℕ_discrete}
use homemade_os.Tcp.Sequence.{add_sequence, diff_sequence}
use homemade_os.Tcp.Receive.{Slot, no_slot, ReceiveWindow, set_receive_data, store_bytes}

-- What the buffer can hold: the size divides the sequence space, as 8192 does.
pub record IsWindow (v : ReceiveWindow) : Type 0 where
  pub divides : v.window_size ∣ 2 ^ 32
  pub positive : 0 < v.window_size
  pub bounded : v.window_size < 2 ^ 32
  pub storage : v.window_size ≤ length v.buffer
  pub begin_in : v.sequence_begin < 2 ^ 32

-- The slot of the byte at distance `off` from the window's begin.
abbrev pub slot_at : ReceiveWindow → ℕ → Slot
slot_at v off = get_or v.buffer (add_sequence v.sequence_begin off % v.window_size) no_slot

-- Where the offset `off` of the window lies in a segment that starts at `seq`.
abbrev pub index_in : ReceiveWindow → (seq off : ℕ) → ℕ
index_in v seq off = diff_sequence (add_sequence v.sequence_begin off) seq

abbrev pub full_slot : ℕ → Slot
full_slot b = record { has_data = true; byte = b }

module _ (v : ReceiveWindow) (w : IsWindow v) where
  pub place_ne :
      (i j : ℕ)
      → i < j
      → j < v.window_size
      → add_sequence v.sequence_begin i % v.window_size
        ≢ add_sequence v.sequence_begin j % v.window_size
  place_ne i j h b e =
      let one = mod-mod_of_dvd v.window_size (v.sequence_begin + i) w.divides in
      let two = mod-mod_of_dvd v.window_size (v.sequence_begin + j) w.divides in
      mod_ne v.window_size (v.sequence_begin + i) (j - i) (omega arith) (omega arith)
        (sym one ∙ e ∙ two ∙ ap (λ n. n % v.window_size) (omega arith))

  pub set-IsWindow : (s b : ℕ) → IsWindow (set_receive_data v s b)
  unfolding set_receive_data
  set-IsWindow s b = record {
    divides = w.divides;
    positive = w.positive;
    bounded = w.bounded;
    storage = rw (length-set v.buffer (s % v.window_size) (full_slot b)) w.storage;
    begin_in = w.begin_in;
  }

  places_ne :
      (i j : ℕ)
      → i ≢ j
      → i < v.window_size
      → j < v.window_size
      → add_sequence v.sequence_begin i % v.window_size
        ≢ add_sequence v.sequence_begin j % v.window_size
  places_ne i j ne hi hj = elim (dec_lt i j) [
    | yes h ↦ place_ne i j h hj
    | no h ↦ λ e. place_ne j i (omega arith) hi (sym e)
  ]

  -- Writing the slot at offset `i` of the window changes that offset alone.
  pub slot_at-put :
      (i j : ℕ) (s : Slot)
      → i < v.window_size
      → j < v.window_size
      → get_or
          (set v.buffer (add_sequence v.sequence_begin i % v.window_size) s)
          (add_sequence v.sequence_begin j % v.window_size)
          no_slot
        ≡ (if i == j then s else slot_at v j)
  slot_at-put i j s hi hj = elim (ℕ_discrete i j) [
    | yes e ↦
        let same : (i == j) ≡ true = (==_iff i j).1 e in
        rw (same, ← e)
          (get_or-set_self v.buffer _ s no_slot
            (omega (arith, w.storage, mod-lt (add_sequence v.sequence_begin i) w.positive)))
    | no ne ↦
        let other : (i == j) ≡ false = ground arith in
        rw other (get_or-set_ne v.buffer _ _ s no_slot (places_ne i j ne hi hj))
  ]

  slot_at-set :
      (i j b : ℕ)
      → i < v.window_size
      → j < v.window_size
      → slot_at (set_receive_data v (add_sequence v.sequence_begin i) b) j
        ≡ (if i == j then full_slot b else slot_at v j)
  unfolding set_receive_data
  slot_at-set i j b hi hj = slot_at-put i j (full_slot b) hi hj

-- What a slot holds once a segment `bs` is stored in which it has index `k`.
abbrev pub stored_at : List ℕ → ℕ → Slot → Slot
stored_at bs k old = if ltb k (length bs) then full_slot (get_or bs k 0) else old

stored_at-zero :
    (b : ℕ) (bs : List ℕ) (k : ℕ) (old : Slot) → k ≡ 0 → stored_at (b ∷ bs) k old ≡ full_slot b
stored_at-zero b bs k old e = rw e (ground arith)

stored_at-suc :
    (b : ℕ) (bs : List ℕ) (k j : ℕ) (old : Slot)
    → k ≡ suc j
    → stored_at (b ∷ bs) k old ≡ stored_at bs j old
stored_at-suc b bs k j old e = rw e (ground arith)

stored_at-past : (bs : List ℕ) (k : ℕ) (old : Slot) → length bs ≤ k → stored_at bs k old ≡ old
stored_at-past bs k old h = ground arith

module _ (v : ReceiveWindow) (seq i off : ℕ) where
  -- The index in the rest of the segment, one byte on.
  index_step :
      index_in v (add_sequence seq i) off ≢ 0
      → index_in v (add_sequence seq i) off ≡ suc (index_in v (add_sequence seq (i + 1)) off)
  index_step h = omega arith

  index_wraps :
      index_in v (add_sequence seq i) off ≡ 0
      → index_in v (add_sequence seq (i + 1)) off ≡ 2 ^ 32 - 1
  index_wraps h = omega arith

  index_zero_iff :
      IsWindow v
      → off < v.window_size
      → (index_in v (add_sequence seq i) off ≡ 0)
        ↔ (diff_sequence (add_sequence seq i) v.sequence_begin ≡ off)
  index_zero_iff w h = (λ e. omega arith, λ e. omega arith)

  join_hit :
      (b : ℕ) (bs : List ℕ) (old : Slot)
      → length bs < 2 ^ 32
      → index_in v (add_sequence seq i) off ≡ 0
      → stored_at bs (index_in v (add_sequence seq (i + 1)) off) (full_slot b)
        ≡ stored_at (b ∷ bs) (index_in v (add_sequence seq i) off) old
  join_hit b bs old l e =
      stored_at-past bs _ (full_slot b) (omega (arith, index_wraps e))
      ∙ sym (stored_at-zero b bs _ old e)

  join_miss :
      (b : ℕ) (bs : List ℕ) (old : Slot)
      → index_in v (add_sequence seq i) off ≢ 0
      → stored_at bs (index_in v (add_sequence seq (i + 1)) off) old
        ≡ stored_at (b ∷ bs) (index_in v (add_sequence seq i) off) old
  join_miss b bs old e = sym (stored_at-suc b bs _ _ old (index_step e))

  -- One byte of the segment inside the window.
  slot_at-near :
      (b : ℕ)
      → IsWindow v
      → off < v.window_size
      → diff_sequence (add_sequence seq i) v.sequence_begin < v.window_size
      → slot_at (set_receive_data v (add_sequence seq i) b) off ≡ (
          if diff_sequence (add_sequence seq i) v.sequence_begin == off
          then full_slot b
          else slot_at v off)
  slot_at-near b w h near =
      let ds : ℕ = diff_sequence (add_sequence seq i) v.sequence_begin in
      let here : add_sequence v.sequence_begin ds ≡ add_sequence seq i =
        omega (arith, w.begin_in) in
      subst
        (λ s.
          slot_at (set_receive_data v s b) off ≡ (if ds == off then full_slot b else slot_at v off))
        here (slot_at-set v w ds off b near h)

  hit_or_miss :
      (b : ℕ) (bs : List ℕ)
      → length bs < 2 ^ 32
      → IsWindow v
      → off < v.window_size
      → stored_at bs (index_in v (add_sequence seq (i + 1)) off) (
          if diff_sequence (add_sequence seq i) v.sequence_begin == off
          then full_slot b
          else slot_at v off)
        ≡ stored_at (b ∷ bs) (index_in v (add_sequence seq i) off) (slot_at v off)
  hit_or_miss b bs l w h =
      let ds : ℕ = diff_sequence (add_sequence seq i) v.sequence_begin in
      let at_zero = index_zero_iff w h in
      elim (ℕ_discrete ds off) [
        | yes e ↦
            let hit : (ds == off) ≡ true = (==_iff ds off).1 e in
            rw hit (join_hit b bs (slot_at v off) l (at_zero.1 e))
        | no ne ↦
            let miss : (ds == off) ≡ false = ground arith in
            rw miss (join_miss b bs (slot_at v off) (λ e. ne (at_zero.0 e)))
      ]

-- Storing a segment: the offsets of the window that the segment covers hold its bytes, and the other
-- offsets hold what they held.
pub slot_at-store_bytes :
    (v : ReceiveWindow) (seq i : ℕ) (bs : List ℕ) (off : ℕ)
    → IsWindow v
    → off < v.window_size
    → i + length bs < 2 ^ 32
    → slot_at (store_bytes v seq i bs) off
      ≡ stored_at bs (index_in v (add_sequence seq i) off) (slot_at v off)
unfolding store_bytes
slot_at-store_bytes v seq i [] off w h l = sym (stored_at-past [] _ (slot_at v off) (omega arith))
slot_at-store_bytes v seq i (b ∷ bs) off w h l =
    let ds : ℕ = diff_sequence (add_sequence seq i) v.sequence_begin in
    let at_zero = index_zero_iff v seq i off w h in
    elim (Bool-cases (leb v.window_size ds)) [
      | inl far ↦
          rw (far, store_bytes)
            (slot_at-store_bytes v seq (i + 1) bs off w h (omega arith)
              ∙ join_miss v seq i off b bs (slot_at v off)
                  (λ e. omega (arith, at_zero.0 e, leb→le v.window_size ds far)))
      | inr near ↦
          let v' : ReceiveWindow = set_receive_data v (add_sequence seq i) b in
          let lt : ds < v.window_size = ground arith in
          let ih =
            slot_at-store_bytes v' seq (i + 1) bs off (set-IsWindow v w (add_sequence seq i) b) h
              (omega arith) in
          rw (near, store_bytes)
            (ih
              ∙ ap (stored_at bs (index_in v (add_sequence seq (i + 1)) off))
                  (slot_at-near v seq i off b w h lt)
              ∙ hit_or_miss v seq i off b bs (omega arith) w h)
    ]
