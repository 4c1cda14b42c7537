-- ===== src/Printk/Format/Length.antt =====
-- Parsing a specifier moves forward in the format.
use homemade_os.Base.{
  ℕ, ◌+◌, ◌-◌, ◌*◌, ◌%◌, ◌^◌, ◌≤◌, Bool, true, false, ◌&&◌, List, [], ◌∷◌, arith, leb, ◌==◌, length,
  Bool-cases, inl, inr,
}
use homemade_os.Printk.Format.{skip_zeros, read_width, count_l, parse_printf_arg}

length-skip_zeros : (b : Bool) (f : List ℕ) → length (skip_zeros b f).1 ≤ length f
length-skip_zeros b [] = omega arith
length-skip_zeros b (c ∷ f) = elim (Bool-cases (c == 48)) [
  | inl e ↦ rw e (omega (arith, length-skip_zeros true f))
  | inr e ↦ rw e (omega arith)
]

length-read_width : (w : ℕ) (f : List ℕ) → length (read_width w f).1 ≤ length f
length-read_width w [] = omega arith
length-read_width w (c ∷ f) = elim (Bool-cases (leb 48 c && leb c 57)) [
  | inl e ↦ rw e (omega (arith, length-read_width ((w * 10 + (c - 48)) % 2 ^ 32) f))
  | inr e ↦ rw e (omega arith)
]

length-count_l : (n : ℕ) (f : List ℕ) → length (count_l n f).1 ≤ length f
length-count_l n [] = omega arith
length-count_l n (c ∷ f) = elim (Bool-cases (c == 108)) [
  | inl e ↦ rw e (omega (arith, length-count_l (n + 1) f))
  | inr e ↦ rw e (omega arith)
]

pub length-parse_printf_arg : (f : List ℕ) (n : ℕ) → length (parse_printf_arg f n).1 ≤ length f
unfolding parse_printf_arg
length-parse_printf_arg f n =
    let zeros = length-skip_zeros false f in
    let f1 : List ℕ = (skip_zeros false f).1 in
    let digits = length-read_width 0 f1 in
    let ls = length-count_l 0 (read_width 0 f1).1 in omega (arith, zeros, digits, ls)
