-- ===== src/Tcp/Transmit/Placed.antt =====
-- Where `copyTCPTransmitBuffer` starts, and the stream from there on.
use homemade_os.Base.{
  ℕ, zero, suc, ◌+◌, ◌-◌, ◌^◌, ◌≤◌, ◌<◌, ◌≡◌, refl, sym, ap, ◌∙◌, none, some, List, [], ◌∷◌, ◌++◌,
  arith, length, take, drop, if◌then◌else◌,
}
use homemade_os.Tcp.Sequence.{add_sequence}
use homemade_os.Tcp.Transmit.{TransmitBuffer, TransmitWindow, buffer_at, copy_bytes}
use homemade_os.Tcp.Transmit.Stream.{all_bytes, IsChain, head_size}

-- The bytes from `off` in the first buffer on, up to a buffer that is the finish.
unfoldable pub unsent_from : (off : ℕ) → List TransmitBuffer → List ℕ
unsent_from off [] = []
unsent_from off (b ∷ bs) = if b.is_fin then [] else drop off b.buffer ++ unsent_from 0 bs

pub take-nil : (n : ℕ) → take {A = ℕ} n [] ≡ []
take-nil zero = refl
take-nil (suc n) = refl

pub take-zero : (n : ℕ) (xs : List ℕ) → n ≡ 0 → take n xs ≡ []
take-zero n xs e = ap (λ k. take k xs) e

pub take-append_long :
    (n : ℕ) (xs ys : List ℕ) → length xs ≤ n → take n (xs ++ ys) ≡ xs ++ take (n - length xs) ys
take-append_long n [] ys h = let e : n ≡ n - 0 = omega arith in ap (λ k. take k ys) e
take-append_long zero (x ∷ xs) ys h = absurd (omega arith)
take-append_long (suc n) (x ∷ xs) ys h =
    let e : n - length xs ≡ suc n - length (x ∷ xs) = omega arith in
    ap (λ r. x ∷ r) (take-append_long n xs ys (omega arith) ∙ ap (λ k. xs ++ take k ys) e)

pub take-append_short : (n : ℕ) (xs ys : List ℕ) → n ≤ length xs → take n (xs ++ ys) ≡ take n xs
take-append_short zero xs ys h = refl
take-append_short (suc n) [] ys h = absurd (omega arith)
take-append_short (suc n) (x ∷ xs) ys h = ap (λ r. x ∷ r) (take-append_short n xs ys (omega arith))

pub length-take : (n : ℕ) (xs : List ℕ) → n ≤ length xs → length (take n xs) ≡ n
length-take zero xs h = refl
length-take (suc n) [] h = absurd (omega arith)
length-take (suc n) (x ∷ xs) h = ap suc (length-take n xs (omega arith))

pub take-whole : (n : ℕ) (xs : List ℕ) → n ≡ length xs → take n xs ≡ xs
take-whole zero [] e = refl
take-whole zero (x ∷ xs) e = absurd (omega arith)
take-whole (suc n) [] e = absurd (omega arith)
take-whole (suc n) (x ∷ xs) e = ap (λ r. x ∷ r) (take-whole n xs (omega arith))

pub buffer_at-nil : (bs : List TransmitBuffer) (i : ℕ) → drop i bs ≡ [] → buffer_at bs i ≡ none
unfolding buffer_at
buffer_at-nil [] i e = refl
buffer_at-nil (b ∷ bs) zero e = cc e
buffer_at-nil (b ∷ bs) (suc i) e = buffer_at-nil bs i e

pub buffer_at-cons :
    (bs : List TransmitBuffer) (i : ℕ) (c : TransmitBuffer) (cs : List TransmitBuffer)
    → drop i bs ≡ c ∷ cs
    → (buffer_at bs i ≡ some c) × (drop (i + 1) bs ≡ cs)
unfolding buffer_at
buffer_at-cons [] zero c cs e = ground arith
buffer_at-cons [] (suc i) c cs e = ground arith
buffer_at-cons (b ∷ bs) zero c cs e = ground arith
buffer_at-cons (b ∷ bs) (suc i) c cs e =
    let r = buffer_at-cons bs i c cs e in
    let k : suc (i + 1) ≡ suc i + 1 = omega arith in (r.0, ap (λ j. drop j (b ∷ bs)) (sym k) ∙ r.1)

-- What is left of the window's buffers is `rest`, and the next number lies `off` bytes into it.
pub record IsPlaced (w : TransmitWindow) (off : ℕ) (rest : List TransmitBuffer) (s : ℕ)
    : Type 0 where
  pub place : drop w.current w.buffers ≡ rest
  pub first_in : s < 2 ^ 32
  pub chain : IsChain s w.tail_sequence rest
  pub number : w.current_sequence ≡ add_sequence s off
  pub offset_in : off ≤ head_size rest
  pub total : length (all_bytes rest) < 2 ^ 32

pub copy_bytes-stop :
    (fuel limit offset : ℕ) (w : TransmitWindow)
    → 0 < fuel
    → limit ≤ offset
    → copy_bytes fuel limit offset w ≡ some ([], w)
unfolding copy_bytes
copy_bytes-stop zero limit offset w f h = absurd (omega arith)
copy_bytes-stop (suc fuel) limit offset w f h = ground arith
