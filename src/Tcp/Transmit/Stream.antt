-- ===== src/Tcp/Transmit/Stream.antt =====
-- The bytes that the transmit window holds for the remote host.
use homemade_os.Base.{
  ℕ, zero, suc, ◌+◌, ◌-◌, ◌^◌, ◌≤◌, ◌<◌, ◌≡◌, sym, ap, ◌∙◌, List, [], ◌∷◌, ◌++◌, arith, length,
  drop, drop-ge,
}
use homemade_os.Tcp.Sequence.{add_sequence, diff_sequence}
use homemade_os.Tcp.Transmit.{TransmitBuffer, TransmitWindow, sequence_at}

-- The bytes of the buffers, one behind the other.
unfoldable pub all_bytes : List TransmitBuffer → List ℕ
all_bytes [] = []
all_bytes (b ∷ bs) = b.buffer ++ all_bytes bs

-- The buffers carry on from the sequence number `s` up to `t`, and each has the bytes it says.
abbrev pub IsChain : (s t : ℕ) → List TransmitBuffer → Type 0
IsChain s t [] = s ≡ t
IsChain s t (b ∷ bs) =
    (b.sequence_begin ≡ s) × (length b.buffer ≡ b.size) × IsChain (add_sequence s b.size) t bs

-- How far the window's begin lies in the first buffer.
abbrev pub head_offset : TransmitWindow → ℕ
head_offset w = diff_sequence w.sequence_begin (sequence_at w.tail_sequence w.buffers 0)

-- The bytes that are not acknowledged.
abbrev pub unacknowledged : TransmitWindow → List ℕ
unacknowledged w = drop (head_offset w) (all_bytes w.buffers)

-- How long the first buffer is, 0 for `tail`.
unfoldable pub head_size : List TransmitBuffer → ℕ
head_size [] = 0
head_size (b ∷ bs) = b.size

pub record IsSending (w : TransmitWindow) : Type 0 where
  pub begin_in : w.sequence_begin < 2 ^ 32
  pub first_in : sequence_at w.tail_sequence w.buffers 0 < 2 ^ 32
  pub chain : IsChain (sequence_at w.tail_sequence w.buffers 0) w.tail_sequence w.buffers
  pub offset_in : head_offset w ≤ head_size w.buffers
  pub total : length (all_bytes w.buffers) < 2 ^ 32

pub drop-drop : (n m : ℕ) (xs : List ℕ) → drop n (drop m xs) ≡ drop (m + n) xs
drop-drop n zero xs = let e : n ≡ 0 + n = omega arith in ap (λ k. drop k xs) e
drop-drop n (suc m) [] = drop-ge [] n (omega arith) ∙ sym (drop-ge [] (suc m + n) (omega arith))
drop-drop n (suc m) (x ∷ xs) =
    let e : suc (m + n) ≡ suc m + n = omega arith in drop-drop n m xs ∙ ap (λ k. drop k (x ∷ xs)) e

pub drop-append_past :
    (xs ys : List ℕ) (n : ℕ) → length xs ≤ n → drop n (xs ++ ys) ≡ drop (n - length xs) ys
drop-append_past [] ys n h = let e : n ≡ n - 0 = omega arith in ap (λ k. drop k ys) e
drop-append_past (x ∷ xs) ys zero h = absurd (omega arith)
drop-append_past (x ∷ xs) ys (suc n) h =
    let e : n - length xs ≡ suc n - length (x ∷ xs) = omega arith in
    drop-append_past xs ys n (omega arith) ∙ ap (λ k. drop k ys) e

pub IsChain-first : (s t : ℕ) (bs : List TransmitBuffer) → IsChain s t bs → sequence_at t bs 0 ≡ s
unfolding sequence_at
IsChain-first s t [] c = sym c
IsChain-first s t (b ∷ bs) c = c.0
