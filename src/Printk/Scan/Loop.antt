-- ===== src/Printk/Scan/Loop.antt =====
-- The loop of input over the format.
use homemade_os.Base.{
  ℕ, zero, suc, ◌+◌, ◌≤◌, ◌<◌, ◌≡◌, refl, inl, inr, some, List, [], ◌∷◌, ◌++◌, arith, ◌==◌,
  if◌then◌else◌, length, drop, get_or, length-drop, Bool-cases, Option-cases,
}
use homemade_os.Printk.Format.{
  parse_printf_arg, Handler, percent, binary, octal, signed, unsigned, hexadecimal, counter, string,
  character, address, find_handler,
}
use homemade_os.Printk.Format.Length.{length-parse_printf_arg}
use homemade_os.Printk.Scan.{
  Stored, scan_handler, add_scan_count, skips_space, skip_space, Single, vsnscanf_single, scan_loop,
  sscanf,
}

add_scan_count-le : (h : Handler) → add_scan_count h ≤ 1
add_scan_count-le percent = omega arith
add_scan_count-le binary = omega arith
add_scan_count-le octal = omega arith
add_scan_count-le signed = omega arith
add_scan_count-le unsigned = omega arith
add_scan_count-le hexadecimal = omega arith
add_scan_count-le counter = omega arith
add_scan_count-le string = omega arith
add_scan_count-le character = omega arith
add_scan_count-le address = omega arith

-- A round that goes on has used a character of the format, and counts at most one conversion.
abbrev IsForward : ℕ → Single → Type 0
IsForward n s = (k : ℕ) → s.added ≡ some k → (length s.format ≤ n) × (k ≤ 1)

vsnscanf_single-IsForward :
    (buffer : List ℕ) (bi c : ℕ) (f : List ℕ) → IsForward (length f) (vsnscanf_single buffer bi c f)
unfolding vsnscanf_single
vsnscanf_single-IsForward buffer bi c f = elim (Bool-cases (c == 32)) [
  | inl e ↦ rw e (λ k added. (omega arith, ground (arith, added)))
  | inr ne ↦ elim (Bool-cases (c == 37)) [
    | inr e ↦ elim (Bool-cases (get_or buffer bi 0 == c)) [
      | inl same ↦ rw (ne, e, same) (λ k added. (omega arith, ground (arith, added)))
      | inr other ↦ rw (ne, e, other) (λ k added. absurd (ground (arith, added)))
    ]
    | inl e ↦
        let parsed = length-parse_printf_arg f bi in
        let pa = (parse_printf_arg f bi).0 in
        let f' : List ℕ = (parse_printf_arg f bi).1 in
        elim (Option-cases (find_handler f')) [
          | inl out ↦ rw (ne, e, out) (λ k added. absurd (ground (arith, added)))
          | inr (h, found) ↦
              let start : ℕ = if skips_space h then bi + skip_space (drop bi buffer) else bi in
              elim (Option-cases (scan_handler h pa (drop start buffer)).count) [
                | inl out ↦ rw (ne, e, found, out) (λ k added. absurd (ground (arith, added)))
                | inr (n, got) ↦
                    rw (ne, e, found, got)
                      (λ k added. (
                        omega (arith, parsed, length-drop 1 f'),
                        ground (arith, add_scan_count-le h, added),
                      ))
              ]
        ]
  ]
]

scan_loop-total :
    (fuel : ℕ) (buffer : List ℕ) (bi : ℕ) (f : List ℕ) (count : ℕ) (stored : List Stored)
    → length f < fuel
    → (r : ℕ × List Stored) × (scan_loop fuel buffer bi f count stored ≡ some r)
      × (count ≤ r.0)
      × (r.0 ≤ count + length f)
unfolding scan_loop
scan_loop-total zero buffer bi f count stored h = absurd (omega arith)
scan_loop-total (suc fuel) buffer bi [] count stored h =
    ((count, stored), refl, omega arith, omega arith)
scan_loop-total (suc fuel) buffer bi (c ∷ f) count stored h =
    let s = vsnscanf_single buffer bi c f in
    elim (Option-cases s.added) [
      | inl e ↦ ((count, stored ++ s.stored), rw (e, scan_loop) refl, omega arith, omega arith)
      | inr (k, e) ↦
          let (shorter, one) = vsnscanf_single-IsForward buffer bi c f k e in
          let (r, result, low, high) =
            scan_loop-total fuel buffer s.index s.format (count + k) (stored ++ s.stored)
              (omega arith) in
          (r, rw (e, scan_loop) result, omega arith, omega arith)
    ]

-- With more rounds than the format has characters, `sscanf` ends on every input, and counts at most
-- as many conversions as the format has characters.
pub sscanf-total :
    (fuel : ℕ) (str format : List ℕ)
    → length format < fuel
    → (r : ℕ × List Stored) × (sscanf fuel str format ≡ some r) × (r.0 ≤ length format)
unfolding sscanf
sscanf-total fuel str format h =
    let (r, e, low, high) = scan_loop-total fuel str 0 format 0 [] h in (r, e, omega arith)
