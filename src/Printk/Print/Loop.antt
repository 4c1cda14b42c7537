-- ===== src/Printk/Print/Loop.antt =====
-- The loop of output over the format.
use homemade_os.Base.{
  ℕ, zero, suc, ◌-◌, ◌≤◌, ◌<◌, ◌≡◌, ap, subst, ◌∙◌, inl, inr, false, not, ◌&&◌, Option, none, some,
  List, [], ◌∷◌, arith, ltb, ◌==◌, length, take, length-append, length-drop, Bool-cases,
  Option-cases,
}
use homemade_os.Printk.Format.{parse_printf_arg, find_handler}
use homemade_os.Printk.Format.Length.{length-parse_printf_arg}
use homemade_os.Printk.Print.{
  Argument, Piece, print_handler, vsnprintf_single, Output, Outcome, out_of_fuel, undefined, done,
  append_piece, print_loop, terminate, signed_length, snprintf,
}

length-take_le : (n : ℕ) (xs : List ℕ) → length (take n xs) ≤ n
length-take_le zero xs = omega arith
length-take_le (suc n) [] = omega arith
length-take_le (suc n) (x ∷ xs) = omega (arith, length-take_le n xs)

-- What is left of the format is no longer than what stands behind the character.
abbrev Shrinks : ℕ → Option (List ℕ × Option Piece) → Type 0
Shrinks n none = Unit
Shrinks n (some (f', p)) = length f' ≤ n

vsnprintf_single-Shrinks :
    (c : ℕ) (f : List ℕ) (n : ℕ) (args : List Argument)
    → Shrinks (length f) (vsnprintf_single c f n args)
unfolding vsnprintf_single
vsnprintf_single-Shrinks c f n args = elim (Bool-cases (c == 37)) [
  | inr e ↦ rw e (omega arith)
  | inl e ↦
      let parsed = length-parse_printf_arg f n in
      let f' : List ℕ = (parse_printf_arg f n).1 in
      elim (Option-cases (find_handler f')) [
        | inl out ↦ rw (e, out) parsed
        | inr (h, found) ↦ elim (Option-cases (print_handler h (parse_printf_arg f n).0 args)) [
          | inl out ↦ rw (e, found, out) tt
          | inr (p, got) ↦ rw (e, found, got) (omega (arith, parsed, length-drop 1 f'))
        ]
      ]
]

-- The loop ends, and what is written is no longer than the buffer.
abbrev pub IsWithin : (len : ℕ) → Outcome → Type 0
IsWithin len out_of_fuel = ⊥
IsWithin len undefined = Unit
IsWithin len (done out) = length out.chars ≤ len

append_piece-room :
    (len : ℕ) (out : Output) (p : Piece)
    → length out.chars ≤ len
    → length (append_piece len out p).chars ≤ len
append_piece-room len out p h =
    let cut = length-take_le (len - length out.chars) p.chars in
    omega (arith, length-append out.chars (take (len - length out.chars) p.chars), cut)

print_loop-IsWithin :
    (fuel len : ℕ) (f : List ℕ) (args : List Argument) (out : Output)
    → length f < fuel
    → length out.chars ≤ len
    → IsWithin len (print_loop fuel len f args out)
unfolding print_loop
print_loop-IsWithin zero len f args out h r = absurd (omega arith)
print_loop-IsWithin (suc fuel) len [] args out h r = r
print_loop-IsWithin (suc fuel) len (c ∷ f) args out h r =
    elim (Bool-cases (ltb (length out.chars) len)) [
      | inr full ↦ rw full r
      | inl room ↦
          let shrinks = vsnprintf_single-Shrinks c f (length out.chars) args in
          elim (Option-cases (vsnprintf_single c f (length out.chars) args)) [
            | inl e ↦ rw (room, e, print_loop) tt
            | inr ((f', o), e) ↦
                let k : length f' ≤ length f = subst (Shrinks (length f)) e shrinks in
                elim (Option-cases o) [
                  | inl fails ↦
                      let e' : vsnprintf_single c f (length out.chars) args ≡ some (f', none) =
                        e ∙ ap (λ o. some (f', o)) fails in
                      rw (room, e', print_loop) r
                  | inr (p, piece) ↦
                      let e' : vsnprintf_single c f (length out.chars) args ≡ some (f', some p) =
                        e ∙ ap (λ o. some (f', o)) piece in
                      rw (room, e', print_loop)
                        (print_loop-IsWithin fuel len f' p.rest (append_piece len out p)
                          (omega (arith, k)) (append_piece-room len out p r))
                ]
          ]
    ]

terminate-IsWithin : (len : ℕ) (r : Outcome) → IsWithin len r → IsWithin len (terminate len r)
terminate-IsWithin len out_of_fuel h = h
terminate-IsWithin len undefined h = h
terminate-IsWithin len (done out) h =
    elim (Bool-cases (not out.failed && ltb (length out.chars) len)) [
      | inr e ↦ rw e h
      | inl e ↦
          let room : length out.chars < len = ground arith in
          rw e (omega (arith, length-append out.chars (0 ∷ []), room))
    ]

-- With more rounds than the format has characters, `snprintf` does not run out of them, and where the
-- arguments are of the types that the format asks for, what it has written, the terminator included, is no
-- longer than the room that it has.
pub snprintf-IsWithin :
    (fuel len : ℕ) (format : List ℕ) (args : List Argument)
    → length format < fuel
    → IsWithin (signed_length len) (snprintf fuel len format args)
unfolding snprintf
snprintf-IsWithin fuel len format args h =
    let start : Output = record { failed = false; chars = []; stored = [] } in
    terminate-IsWithin (signed_length len) (print_loop fuel (signed_length len) format args start)
      (print_loop-IsWithin fuel (signed_length len) format args start h (omega arith))
