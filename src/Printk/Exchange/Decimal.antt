-- ===== src/Printk/Exchange/Decimal.antt =====
-- A number, printed by `%d` and read by `%d`.
use homemade_os.Base.{
  ℕ, zero, suc, ◌+◌, ◌-◌, ◌^◌, ◌≤◌, ◌<◌, ◌≡◌, refl, sym, ap, subst, ◌∙◌, inl, inr, true, false,
  none, some, List, [], ◌∷◌, ◌++◌, append-nil, arith, ltb, length, take, Bool-cases,
}
use homemade_os.Text.{isspace}
use homemade_os.Printk.Number.{
  signed_to_string, scan_digits, string_to_unsigned, string_to_signed, read,
}
use homemade_os.Printk.Number.Signed.{signed_to_string-string_to_signed}
use homemade_os.Printk.Format.{parse_printf_arg}
use homemade_os.Printk.Print.{
  int, print_handler, printf_signed, vsnprintf_single, done, print_loop, terminate, signed_length,
  snprintf,
}
use homemade_os.Printk.Number.Short.{signed_to_string-short}
use homemade_os.Printk.Scan.{
  number, skip_space, scan_handler, Single, vsnscanf_single, scan_loop, sscanf,
}

-- A number has no white space before it.
skip_space-scanned : (s : List ℕ) (n v : ℕ) → string_to_signed 32 10 s ≡ read n v → skip_space s ≡ 0
unfolding skip_space isspace string_to_signed string_to_unsigned scan_digits
skip_space-scanned [] n v e = refl
skip_space-scanned (c ∷ s) n v e = elim (Bool-cases (isspace c)) [
  | inr other ↦ rw other refl
  | inl space ↦ absurd (ground arith)
]

take-all : (n : ℕ) (s : List ℕ) → length s ≤ n → take n s ≡ s
take-all zero [] h = refl
take-all zero (x ∷ s) h = absurd (omega arith)
take-all (suc n) [] h = refl
take-all (suc n) (x ∷ s) h = ap (λ t. x ∷ t) (take-all n s (omega arith))

snprintf_decimal :
    (v len : ℕ) (s : List ℕ)
    → length s < len
    → len < 2 ^ 31
    → signed_to_string 32 10 v ≡ some s
    → snprintf 3 len (37 ∷ 100 ∷ []) (int v ∷ [])
      ≡ done record { failed = false; chars = s ++ (0 ∷ []); stored = [] }
unfolding snprintf print_loop vsnprintf_single parse_printf_arg print_handler printf_signed
snprintf_decimal v len s h int_len e =
    let slen : signed_length len ≡ len = ground arith in
    let room : ltb 0 len ≡ true = ground arith in
    let all : take (len - 0) s ≡ s = take-all (len - 0) s (omega arith) in
    let end : ltb (length s) len ≡ true = ground arith in
    ap
      (λ l. terminate l (
        print_loop 3 l (37 ∷ 100 ∷ []) (int v ∷ [])
          (record { failed = false; chars = []; stored = [] })))
      slen
    ∙ rw (room, e, all, end) refl

single_decimal :
    (v : ℕ) (s : List ℕ)
    → string_to_signed 32 10 s ≡ read (length s) v
    → vsnscanf_single s 0 37 (100 ∷ [])
      ≡ record { added = some 1; format = []; index = length s; stored = number v ∷ [] }
unfolding vsnscanf_single parse_printf_arg scan_handler
single_decimal v s e =
    let first : 0 + skip_space s ≡ 0 = omega (arith, skip_space-scanned s (length s) v e) in
    let all : 0 + length s ≡ length s = omega arith in rw (first, e, all) refl

sscanf_decimal :
    (v : ℕ) (s : List ℕ)
    → string_to_signed 32 10 s ≡ read (length s) v
    → sscanf 3 s (37 ∷ 100 ∷ []) ≡ some (1, number v ∷ [])
unfolding sscanf scan_loop
sscanf_decimal v s e =
    ap
      (λ (one : Single). elim one.added [
        | none ↦ some (0, [] ++ one.stored)
        | some n ↦ scan_loop 2 s one.index one.format (0 + n) ([] ++ one.stored)
      ])
      (single_decimal v s e)

-- Every number of 32 bits that `snprintf` writes by `%d`, with more than 33 bytes of room and less than 2 ^ 31, is the
-- number that `sscanf` reads from the text by `%d`, and both end.
pub snprintf-sscanf :
    (v len : ℕ)
    → v < 2 ^ 32
    → 33 < len
    → len < 2 ^ 31
    → (s : List ℕ) × (snprintf 3 len (37 ∷ 100 ∷ []) (int v ∷ [])
        ≡ done record { failed = false; chars = s ++ (0 ∷ []); stored = [] })
      × (sscanf 3 s (37 ∷ 100 ∷ []) ≡ some (1, number v ∷ []))
snprintf-sscanf v len h room int_len =
    let (s, printed, short) = signed_to_string-short 32 10 v (omega arith) (omega arith) h in
    let (t, printed', scanned) =
      signed_to_string-string_to_signed 32 10 v [] (omega arith) (omega arith) (omega arith) h tt in
    let same : s ≡ t = ground (arith, printed, printed') in
    let scanned' : string_to_signed 32 10 s ≡ read (length s) v =
      subst (λ t. string_to_signed 32 10 t ≡ read (length t) v) (sym same)
        (ap (string_to_signed 32 10) (sym (append-nil t)) ∙ scanned) in
    (
      s,
      snprintf_decimal v len s (omega (arith, short)) int_len printed,
      sscanf_decimal v s scanned',
    )
