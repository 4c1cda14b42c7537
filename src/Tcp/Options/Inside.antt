-- ===== src/Tcp/Options/Inside.antt =====
-- The loop over the options of a header of 20 bytes or more.
use homemade_os.Base.{
  ℕ, zero, suc, ◌+◌, ◌-◌, ◌%◌, ◌^◌, ◌≤◌, ◌<◌, ◌≡◌, refl, sym, ap, subst, ◌∙◌, ◌⊎◌, inl, inr, arith,
  Bool, true, false, ◌||◌, some, ltb, leb, ◌==◌, Bool-cases,
}
use homemade_os.Network.Bytes.{Bytes, load8, load16, load_bits, behind}
use homemade_os.Tcp.Header.{get_tcp_header_size}
use homemade_os.Tcp.Options.{
  Options, parse_max_segment_size, parse_window_scale, parse_sack_permitted, Round, stop, next,
  option_round, parse_loop, parse_tcp_options,
}

-- An option of the kind and length that is parsed has its data among its bytes.
parse_max_segment_size-cong :
    (p q : Bytes) (o : Options)
    → load8 p 0 ≡ load8 q 0
    → load8 p 1 ≡ load8 q 1
    → (load8 p 1 ≡ 4 → load16 p 2 ≡ load16 q 2)
    → parse_max_segment_size p o ≡ parse_max_segment_size q o
parse_max_segment_size-cong p q o code size rest = elim (Bool-cases (load8 p 1 == 4)) [
  | inl e ↦ let word = rest (ground arith) in rw (code, size, word) refl
  | inr e ↦ let e' : (load8 q 1 == 4) ≡ false = ground arith in rw (e, e', code) refl
]

parse_window_scale-cong :
    (p q : Bytes) (o : Options)
    → load8 p 0 ≡ load8 q 0
    → load8 p 1 ≡ load8 q 1
    → (load8 p 1 ≡ 3 → load8 p 2 ≡ load8 q 2)
    → parse_window_scale p o ≡ parse_window_scale q o
parse_window_scale-cong p q o code size rest = elim (Bool-cases (load8 p 1 == 3)) [
  | inl e ↦ let byte = rest (ground arith) in rw (code, size, byte) refl
  | inr e ↦ let e' : (load8 q 1 == 3) ≡ false = ground arith in rw (e, e', code) refl
]

parse_sack_permitted-cong :
    (p q : Bytes) (o : Options)
    → load8 p 0 ≡ load8 q 0
    → load8 p 1 ≡ load8 q 1
    → parse_sack_permitted p o ≡ parse_sack_permitted q o
parse_sack_permitted-cong p q o code size = rw (code, size) refl

-- A round goes on only forward, and not past the header.
abbrev IsForward : (header_size offset : ℕ) → Round → Type 0
IsForward header_size offset (stop ok o) = Unit
IsForward header_size offset (next offset' o) = (offset < offset') × (offset' ≤ header_size)

option_round-IsForward :
    (header_size offset : ℕ) (h : Bytes) (o : Options)
    → offset ≤ header_size
    → header_size ≤ 60
    → IsForward header_size offset (option_round header_size offset h o)
unfolding option_round
option_round-IsForward header_size offset h o inside small =
    elim (Bool-cases (offset == header_size)) [
      | inl e ↦ rw e tt
      | inr e1 ↦ elim (Bool-cases (load8 (behind offset h) 0 == 0)) [
        | inl e ↦ rw (e1, e) tt
        | inr e2 ↦ elim (Bool-cases (load8 (behind offset h) 0 == 1)) [
          | inl e ↦ rw (e1, e2, e) (omega arith, ground arith)
          | inr e3 ↦ elim (Bool-cases (leb header_size (offset + 1))) [
            | inl e ↦ rw (e1, e2, e3, e) tt
            | inr e4 ↦
                elim (Bool-cases (
                  ltb (load8 h (offset + 1)) 2
                  || ltb header_size (offset + load8 h (offset + 1)))) [
                    | inl e ↦ rw (e1, e2, e3, e4, e) tt
                    | inr e5 ↦ rw (e1, e2, e3, e4, e5) (ground arith, ground arith)
                  ]
          ]
        ]
      ]
    ]

-- Two memories that agree in the header.
abbrev pub Agree : (header_size : ℕ) → Bytes → Bytes → Type 0
Agree header_size m m' = (i : ℕ) → i < header_size → m i ≡ m' i

-- The bytes of an option that ends inside the header.
parse_option-Agree :
    (header_size offset : ℕ) (m m' : Bytes) (o : Options)
    → Agree header_size m m'
    → offset + 1 < header_size
    → offset + load8 m (offset + 1) ≤ header_size
    → parse_sack_permitted
        (behind offset m)
        (parse_window_scale (behind offset m) (parse_max_segment_size (behind offset m) o))
      ≡ parse_sack_permitted
          (behind offset m')
          (parse_window_scale (behind offset m') (parse_max_segment_size (behind offset m') o))
unfolding load16
parse_option-Agree header_size offset m m' o agree h k =
    let p : Bytes = behind offset m in
    let q : Bytes = behind offset m' in
    let code : load8 p 0 ≡ load8 q 0 = ap (λ b. b % 2 ^ 8) (agree (offset + 0) (omega arith)) in
    let size : load8 p 1 ≡ load8 q 1 = ap (λ b. b % 2 ^ 8) (agree (offset + 1) (omega arith)) in
    let segment = parse_max_segment_size-cong p q o code size (λ four.
      let low = ap (λ b. b % 2 ^ 8) (agree (offset + 2) (omega arith)) in
      let high = ap (λ b. b % 2 ^ 8) (agree (offset + 3) (omega arith)) in
      omega (arith, low, high)) in
    let o' : Options = parse_max_segment_size q o in
    let scale =
      parse_window_scale-cong p q o' code size
        (λ three. ap (λ b. b % 2 ^ 8) (agree (offset + 2) (omega arith))) in
    let sack = parse_sack_permitted-cong p q (parse_window_scale q o') code size in
    ap (λ x. parse_sack_permitted p (parse_window_scale p x)) segment
    ∙ ap (parse_sack_permitted p) scale
    ∙ sack

option_round-Agree :
    (header_size offset : ℕ) (m m' : Bytes) (o : Options)
    → Agree header_size m m'
    → offset ≤ header_size
    → option_round header_size offset m o ≡ option_round header_size offset m' o
unfolding option_round
option_round-Agree header_size offset m m' o agree inside =
    elim (Bool-cases (offset == header_size)) [
      | inl e ↦ rw e refl
      | inr e1 ↦
          let code : load8 (behind offset m) 0 ≡ load8 (behind offset m') 0 =
            ap (λ b. b % 2 ^ 8) (agree (offset + 0) (ground arith)) in
          elim (Bool-cases (leb header_size (offset + 1))) [
            | inl e ↦ rw (e1, e, code) refl
            | inr e2 ↦
                let size : load8 m (offset + 1) ≡ load8 m' (offset + 1) =
                  ap (λ b. b % 2 ^ 8) (agree (offset + 1) (ground arith)) in
                let bad : ℕ → Bool = λ v. ltb v 2 || ltb header_size (offset + v) in
                elim (Bool-cases (bad (load8 m (offset + 1)))) [
                  | inl e ↦
                      let e' : bad (load8 m' (offset + 1)) ≡ true =
                        subst (λ v. bad v ≡ true) size e in
                      rw (e1, e2, e, e', code) refl
                  | inr e ↦
                      let e' : bad (load8 m' (offset + 1)) ≡ false =
                        subst (λ v. bad v ≡ false) size e in
                      let same =
                        parse_option-Agree header_size offset m m' o agree (ground arith)
                          (ground arith) in
                      rw (e1, e2, e, e', same, size, code) refl
                ]
          ]
    ]

Round-cases :
    (r : Round)
    → ((ok : Bool) × (o : Options) × (r ≡ stop ok o))
      ⊎ ((offset : ℕ) × (o : Options) × (r ≡ next offset o))
Round-cases (stop ok o) = inl (ok, o, refl)
Round-cases (next offset o) = inr (offset, o, refl)

parse_loop-Agree :
    (fuel header_size offset : ℕ) (m m' : Bytes) (o : Options)
    → Agree header_size m m'
    → offset ≤ header_size
    → header_size ≤ 60
    → header_size - offset < fuel
    → (r : Bool × Options) × (parse_loop fuel header_size offset m o ≡ some r)
      × (parse_loop fuel header_size offset m' o ≡ some r)
unfolding parse_loop
parse_loop-Agree zero header_size offset m m' o agree inside small h = absurd (omega arith)
parse_loop-Agree (suc fuel) header_size offset m m' o agree inside small h =
    let same = option_round-Agree header_size offset m m' o agree inside in
    let forward = option_round-IsForward header_size offset m o inside small in
    elim (Round-cases (option_round header_size offset m o)) [
      | inl (ok, o', e) ↦ ((ok, o'), rw (e, parse_loop) refl, rw (sym same ∙ e, parse_loop) refl)
      | inr (offset', o', e) ↦
          let (further, within) = subst (IsForward header_size offset) e forward in
          let (r, first, second) =
            parse_loop-Agree fuel header_size offset' m m' o' agree within small (omega arith) in
          (r, rw (e, parse_loop) first, rw (sym same ∙ e, parse_loop) second)
    ]

get_tcp_header_size-le : (h : Bytes) → get_tcp_header_size h ≤ 60
unfolding get_tcp_header_size load_bits
get_tcp_header_size-le h = omega arith

get_tcp_header_size-byte :
    (m m' : Bytes) → m 12 ≡ m' 12 → get_tcp_header_size m' ≡ get_tcp_header_size m
unfolding get_tcp_header_size load_bits
get_tcp_header_size-byte m m' e = omega (arith, e)

-- The loop over the options of a header of 20 bytes or more ends, and its result does not depend on
-- the memory behind the header.
pub parse_tcp_options-Agree :
    (m m' : Bytes) (o : Options)
    → 20 ≤ get_tcp_header_size m
    → Agree (get_tcp_header_size m) m m'
    → (r : Bool × Options) × (parse_tcp_options m o ≡ some r) × (parse_tcp_options m' o ≡ some r)
unfolding parse_tcp_options
parse_tcp_options-Agree m m' o large agree =
    let small = get_tcp_header_size-le m in
    let same : get_tcp_header_size m' ≡ get_tcp_header_size m =
      get_tcp_header_size-byte m m' (agree 12 (omega arith)) in
    rw same (
      parse_loop-Agree 61 (get_tcp_header_size m) 20 m m' o agree large small
        (omega (arith, small)))
