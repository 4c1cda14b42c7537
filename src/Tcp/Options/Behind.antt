-- ===== src/Tcp/Options/Behind.antt =====
-- The loop over the options of a header of less than 20 bytes, which it starts behind.
use homemade_os.Base.{
  ℕ, zero, suc, ◌+◌, ◌%◌, ◌^◌, ◌<◌, ◌≡◌, ◌≢◌, refl, sym, ap, ◌∙◌, inl, inr, arith, true, false,
  some, leb, ◌==◌, Bool-cases,
}
use homemade_os.Network.Bytes.{Bytes, load8}
use homemade_os.Tcp.Options.{Options, stop, next, option_round, parse_loop}

-- Behind the header, the NOP options are passed one by one, and what follows them ends the loop.
round_nop :
    (header_size offset : ℕ) (m : Bytes) (o : Options)
    → header_size < offset
    → offset + 1 < 2 ^ 32
    → load8 m offset ≡ 1
    → option_round header_size offset m o ≡ next (offset + 1) o
unfolding option_round
round_nop header_size offset m o h wrap nop =
    let beyond : (offset == header_size) ≡ false = ground arith in
    let here : offset + 0 ≡ offset = omega arith in
    let on : (offset + 1) % 2 ^ 32 ≡ offset + 1 = omega arith in rw (beyond, here, nop, on) refl

round_other :
    (header_size offset : ℕ) (m : Bytes) (o : Options)
    → header_size < offset
    → load8 m offset ≢ 1
    → option_round header_size offset m o ≡ stop (load8 m offset == 0) o
unfolding option_round
round_other header_size offset m o h other =
    let beyond : (offset == header_size) ≡ false = ground arith in
    let here : offset + 0 ≡ offset = omega arith in
    let end : leb header_size (offset + 1) ≡ true = ground arith in
    let not_nop : (load8 m offset == 1) ≡ false = ground arith in
    rw (beyond, here, not_nop, end)
      (elim (Bool-cases (load8 m offset == 0)) [ inl e ↦ rw e refl | inr e ↦ rw e refl ])

run_nops :
    (n header_size offset : ℕ) (m : Bytes) (o : Options)
    → header_size < offset
    → offset + n < 2 ^ 32
    → ((i : ℕ) → i < n → load8 m (offset + i) ≡ 1)
    → load8 m (offset + n) ≢ 1
    → parse_loop (suc n) header_size offset m o ≡ some (load8 m (offset + n) == 0, o)
unfolding parse_loop
run_nops zero header_size offset m o h wrap nops other =
    let here : offset + 0 ≡ offset = omega arith in
    let other' : load8 m offset ≢ 1 = λ e. other (ap (load8 m) here ∙ e) in
    rw (round_other header_size offset m o h other', here, parse_loop) refl
run_nops (suc n) header_size offset m o h wrap nops other =
    let first : load8 m offset ≡ 1 = ap (load8 m) (omega arith) ∙ nops 0 (omega arith) in
    let on : offset + 1 + n ≡ offset + suc n = omega arith in
    rw (round_nop header_size offset m o h (omega arith) first, parse_loop)
      (rw (sym on) (
        run_nops n header_size (offset + 1) m o (omega arith) (omega arith)
          (λ i k. ap (load8 m) (omega arith) ∙ nops (suc i) (omega arith))
          (λ e. other (ap (load8 m) (sym on) ∙ e))))

-- In a header of less than 20 bytes that has `n` NOP options from byte 20 on, the byte behind them
-- decides the result, however far behind the header it is: the loop looks for the end of the header in
-- front of where it starts.
pub parse_loop-runs :
    (n header_size : ℕ) (m : Bytes) (o : Options)
    → header_size < 20
    → 20 + n < 2 ^ 32
    → ((i : ℕ) → i < n → load8 m (20 + i) ≡ 1)
    → load8 m (20 + n) ≢ 1
    → parse_loop (suc n) header_size 20 m o ≡ some (load8 m (20 + n) == 0, o)
parse_loop-runs n header_size m o small wrap nops other =
    run_nops n header_size 20 m o (omega arith) wrap nops other
