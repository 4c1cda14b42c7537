-- ===== src/Printk/Exchange/Address.antt =====
-- An address, printed by `%I` and read by `%I`.
use homemade_os.Base.{
  ℕ, zero, suc, ◌+◌, ◌*◌, ◌/◌, ◌%◌, ◌^◌, ◌<◌, ◌≡◌, refl, sym, ap, ap₂, ◌∙◌, true, false, some, List,
  [], ◌∷◌, ◌++◌, append_assoc, arith, ltb, ◌==◌, length, drop, get_or, length-append, get_or-append,
}
use native.Mathlib.Nat.{mod-lt}
use homemade_os.Printk.Number.{unsigned_to_string, string_to_unsigned}
use homemade_os.Printk.Number.Unsigned.{IsEnd, unsigned_to_string-string_to_unsigned}
use homemade_os.Printk.Print.{print_address}
use homemade_os.Printk.Scan.{number, scan_address}

drop-append : (xs ys : List ℕ) → drop (length xs) (xs ++ ys) ≡ ys
drop-append [] ys = refl
drop-append (x ∷ xs) ys = drop-append xs ys

drop-append_one : (xs : List ℕ) (y : ℕ) (ys : List ℕ) → drop (length xs + 1) (xs ++ (y ∷ ys)) ≡ ys
drop-append_one [] y ys = refl
drop-append_one (x ∷ xs) y ys =
    let e : length (x ∷ xs) + 1 ≡ suc (length xs + 1) = omega arith in
    ap (λ n. drop n ((x ∷ xs) ++ (y ∷ ys))) e ∙ drop-append_one xs y ys

-- The bytes of `v` from bit `i` on, added to `p`.
abbrev assemble : (rounds i v p : ℕ) → ℕ
assemble zero i v p = p
assemble (suc n) i v p = assemble n (i + 8) v (p + v / 2 ^ i % 2 ^ 8 * 2 ^ i)

abbrev Reads : (n i p count value : ℕ) → (pre s : List ℕ) → Type 0
Reads n i p count value pre s =
    scan_address n i (pre ++ s) (length pre) p
    ≡ record { count = some count; stored = number value ∷ [] }

scan_address-byte :
    (n i : ℕ) (buffer : List ℕ) (bi p len u : ℕ)
    → 0 < i
    → get_or buffer bi 0 ≡ 46
    → string_to_unsigned 32 10 (drop (bi + 1) buffer) ≡ (some len, u)
    → u < 2 ^ 8
    → scan_address (suc n) i buffer bi p
      ≡ scan_address n (i + 8) buffer (bi + 1 + len) (p + u * 2 ^ i)
unfolding scan_address
scan_address-byte n i buffer bi p len u later dot digits small =
    let first : (i == 0) ≡ false = ground arith in
    let dotted : (get_or buffer bi 0 == 46) ≡ true = ground arith in
    let byte : ltb 255 u ≡ false = ground arith in
    rw (first, dotted, digits, byte, scan_address) refl

scan_address-first :
    (n : ℕ) (buffer : List ℕ) (p len u : ℕ)
    → string_to_unsigned 32 10 buffer ≡ (some len, u)
    → u < 2 ^ 8
    → scan_address (suc n) 0 buffer 0 p ≡ scan_address n 8 buffer len (p + u * 2 ^ 0)
unfolding scan_address
scan_address-first n buffer p len u digits small =
    let byte : ltb 255 u ≡ false = ground arith in
    let all : 0 + len ≡ len = omega arith in
    rw (digits, byte, scan_address) (ap (λ k. scan_address n 8 buffer k (p + u * 2 ^ 0)) all)

print_address-later :
    (n i v : ℕ) (b t : List ℕ)
    → 0 < i
    → unsigned_to_string 32 10 (v / 2 ^ i % 2 ^ 8) ≡ some b
    → print_address n (i + 8) v ≡ some t
    → print_address (suc n) i v ≡ some (46 ∷ (b ++ t))
unfolding print_address
print_address-later n i v b t later byte more =
    let first : (i == 0) ≡ false = ground arith in rw (byte, more, first, print_address) refl

print_address-first :
    (n v : ℕ) (b t : List ℕ)
    → unsigned_to_string 32 10 (v / 2 ^ 0 % 2 ^ 8) ≡ some b
    → print_address n 8 v ≡ some t
    → print_address (suc n) 0 v ≡ some (b ++ t)
unfolding print_address
print_address-first n v b t byte more = rw (byte, more, print_address) refl

-- A byte behind the first, with what is read behind it.
later_byte :
    (n i p u value : ℕ) (pre b t rest : List ℕ)
    → 0 < i
    → u < 2 ^ 8
    → string_to_unsigned 32 10 (b ++ (t ++ rest)) ≡ (some (length b), u)
    → Reads n
        (i + 8)
        (p + u * 2 ^ i)
        (length (pre ++ (46 ∷ b)) + length t)
        value
        (pre ++ (46 ∷ b))
        (t ++ rest)
    → Reads (suc n) i p (length pre + length (46 ∷ (b ++ t))) value pre ((46 ∷ (b ++ t)) ++ rest)
later_byte n i p u value pre b t rest later small scanned reads =
    let buffer : List ℕ = pre ++ ((46 ∷ (b ++ t)) ++ rest) in
    let behind : (b ++ t) ++ rest ≡ b ++ (t ++ rest) = append_assoc b t rest in
    let same : buffer ≡ (pre ++ (46 ∷ b)) ++ (t ++ rest) =
      ap (λ s. pre ++ (46 ∷ s)) behind ∙ sym (append_assoc pre (46 ∷ b) (t ++ rest)) in
    let digits : string_to_unsigned 32 10 (drop (length pre + 1) buffer) ≡ (some (length b), u) =
      ap (string_to_unsigned 32 10) (drop-append_one pre 46 ((b ++ t) ++ rest) ∙ behind)
      ∙ scanned in
    let index : length pre + 1 + length b ≡ length (pre ++ (46 ∷ b)) =
      omega (arith, length-append pre (46 ∷ b)) in
    let count : length (pre ++ (46 ∷ b)) + length t ≡ length pre + length (46 ∷ (b ++ t)) =
      omega (arith, length-append pre (46 ∷ b), length-append b t) in
    scan_address-byte n i buffer (length pre) p (length b) u later
      (get_or-append pre 46 0 ((b ++ t) ++ rest)) digits small
    ∙ ap₂ (λ s k. scan_address n (i + 8) s k (p + u * 2 ^ i)) same index
    ∙ reads
    ∙ ap (λ k. record { count = some k; stored = number value ∷ [] }) count

-- The bytes behind the first: each has a dot before it, which also ends the byte before.
later_bytes :
    (n i v p : ℕ) (rest : List ℕ)
    → 0 < i
    → IsEnd 10 rest
    → (s : List ℕ) × (print_address n i v ≡ some s)
      × IsEnd 10 (s ++ rest)
      × ((pre : List ℕ) → Reads n i p (length pre + length s) (assemble n i v p) pre (s ++ rest))
unfolding print_address scan_address
later_bytes zero i v p rest later e = (
  [],
  refl,
  e,
  λ pre.
      let all : length pre ≡ length pre + 0 = omega arith in
      ap (λ n. record { count = some n; stored = number p ∷ [] }) all,
)
later_bytes (suc n) i v p rest later e =
    let u : ℕ = v / 2 ^ i % 2 ^ 8 in
    let small : u < 2 ^ 8 = mod-lt (v / 2 ^ i) (omega arith) in
    let p' : ℕ = p + u * 2 ^ i in
    let (t, more, end, reads) = later_bytes n (i + 8) v p' rest (omega arith) e in
    let (b, byte, scanned, start) =
      unsigned_to_string-string_to_unsigned 32 10 u (t ++ rest) (omega arith) (omega arith)
        (omega arith) (omega arith) end in
    (
      46 ∷ (b ++ t),
      print_address-later n i v b t later byte more,
      omega arith,
      λ pre.
          later_byte n i p u (assemble n (i + 8) v p') pre b t rest later small scanned
            (reads (pre ++ (46 ∷ b))),
    )

-- A 32-bit address is printed with a dot between its four bytes, and reading the text, with anything
-- behind it that is no digit, gives its length and the address.
pub print_address-scan_address :
    (v : ℕ) (rest : List ℕ)
    → v < 2 ^ 32
    → IsEnd 10 rest
    → (s : List ℕ) × (print_address 4 0 v ≡ some s)
      × (scan_address 4 0 (s ++ rest) 0 0
          ≡ record { count = some (length s); stored = number v ∷ [] })
print_address-scan_address v rest h e =
    let u : ℕ = v / 2 ^ 0 % 2 ^ 8 in
    let (t, more, end, reads) = later_bytes 3 8 v (0 + u * 2 ^ 0) rest (omega arith) e in
    let (b, byte, scanned, start) =
      unsigned_to_string-string_to_unsigned 32 10 u (t ++ rest) (omega arith) (omega arith)
        (omega arith) (omega arith) end in
    let whole : assemble 4 0 v 0 ≡ v = omega arith in
    (
      b ++ t,
      print_address-first 3 v b t byte more,
      ap (λ s. scan_address 4 0 s 0 0) (append_assoc b t rest)
          ∙ scan_address-first 3 (b ++ (t ++ rest)) 0 (length b) u scanned (omega arith)
          ∙ reads b
          ∙ ap₂ (λ n w. record { count = some n; stored = number w ∷ [] }) (sym (length-append b t))
              whole,
    )
