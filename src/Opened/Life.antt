-- ===== src/Opened/Life.antt =====
-- The phases of an opened file, and that the count follows them.
use homemade_os.Base.{
  ℕ, zero, suc, ◌+◌, ◌-◌, ◌%◌, ◌^◌, ◌≤◌, ◌<◌, ◌≡◌, refl, subst, ◌∙◌, arith, inl, inr, Bool, true,
  false, Option, none, some, List, [], ◌∷◌, ◌==◌, ltb, length, Option-cases, Bool-cases, ap₂,
}
use homemade_os.Opened.{
  OpenedFile, FileEvent, finish_open, end_io, begin_io, close_file, finish_close, step_file,
  run_file,
}

-- Being opened; open, with so many requests under way; being closed; deleted.
pub data Phase : Type 0 where
  opening : Phase
  opened : (requests : ℕ) → Phase
  closing : Phase
  gone : Phase

abbrev pub file_of : Phase → Option OpenedFile
file_of opening = some (record { delete_on_completion = true; io_count = 1; in_list = false })
file_of (opened n) = some (record { delete_on_completion = false; io_count = n; in_list = true })
file_of closing = some (record { delete_on_completion = true; io_count = 1; in_list = true })
file_of gone = none

-- What an event does, and whether it succeeds; `none`: there is no request that could make it.
abbrev pub spec : FileEvent → Phase → Option (Bool × Phase)
spec finish_open opening = some (true, opened 1)
spec finish_open (opened n) = none
spec finish_open closing = none
spec finish_open gone = none
spec end_io opening = some (true, gone)
spec end_io (opened zero) = none
spec end_io (opened (suc n)) = some (true, opened n)
spec end_io closing = none
spec end_io gone = none
spec begin_io opening = some (false, opening)
spec begin_io (opened n) = some (true, opened (suc n))
spec begin_io closing = some (false, closing)
spec begin_io gone = some (false, gone)
spec close_file opening = some (false, opening)
spec close_file (opened zero) = some (true, closing)
spec close_file (opened (suc n)) = some (false, opened (suc n))
spec close_file closing = some (false, closing)
spec close_file gone = some (false, gone)
spec finish_close opening = none
spec finish_close (opened n) = none
spec finish_close closing = some (true, gone)
spec finish_close gone = none

abbrev pub run_spec : List FileEvent → Phase → Option (List Bool × Phase)
run_spec [] p = some ([], p)
run_spec (e ∷ events) p = elim (spec e p) [
  | none ↦ none
  | some (ok, p') ↦ elim (run_spec events p') [
    | none ↦ none
    | some (oks, p'') ↦ some (ok ∷ oks, p'')
  ]
]

abbrev requests : Phase → ℕ
requests opening = 1
requests (opened n) = n
requests closing = 1
requests gone = 0

conclude :
    (r : Option (Bool × Option OpenedFile)) (a ok : Bool) (q p' : Phase) (n : ℕ)
    → r ≡ some (a, file_of q)
    → requests q ≤ n
    → ◌≡◌ {A = Option (Bool × Phase)} (some (a, q)) (some (ok, p'))
    → (r ≡ some (ok, file_of p')) × (requests p' ≤ n)
conclude r a ok q p' n h le k =
    let same : a ≡ ok = cc in
    let phase : q ≡ p' = cc in
    (
      h
          ∙ ap₂
              (λ b (x : Phase).
                let o : Option (Bool × Option OpenedFile) = some (b, file_of x) in o)
              same phase,
      subst (λ x. requests x ≤ n) phase le,
    )

end_io-opened :
    (n : ℕ)
    → suc n < 2 ^ 32
    → step_file end_io (file_of (opened (suc n))) ≡ some (true, file_of (opened n))
unfolding step_file
end_io-opened n h =
    let less : (suc n + 2 ^ 32 - 1) % 2 ^ 32 ≡ n = omega arith in
    let some_left : ltb 0 (suc n) ≡ true = ground arith in rw (less, some_left) refl

begin_io-opened :
    (n : ℕ)
    → n + 1 < 2 ^ 32
    → step_file begin_io (file_of (opened n)) ≡ some (true, file_of (opened (suc n)))
unfolding step_file
begin_io-opened n h =
    let more : (n + 1) % 2 ^ 32 ≡ suc n = omega arith in
    elim (Bool-cases (ltb 0 n)) [ inl e ↦ rw (more, e) refl | inr e ↦ rw (more, e) refl ]

step_file-spec :
    (e : FileEvent) (p : Phase) (ok : Bool) (p' : Phase)
    → requests p + 1 < 2 ^ 32
    → spec e p ≡ some (ok, p')
    → (step_file e (file_of p) ≡ some (ok, file_of p')) × (requests p' ≤ requests p + 1)
unfolding step_file
step_file-spec finish_open opening ok p' h k =
    conclude (step_file finish_open (file_of opening)) true ok (opened 1) p' (requests opening + 1)
      refl (omega arith) k
step_file-spec end_io opening ok p' h k =
    conclude (step_file end_io (file_of opening)) true ok gone p' (requests opening + 1) refl
      (omega arith) k
step_file-spec end_io (opened (suc n)) ok p' h k =
    conclude (step_file end_io (file_of (opened (suc n)))) true ok (opened n) p'
      (requests (opened (suc n)) + 1) (end_io-opened n (omega arith)) (omega arith) k
step_file-spec begin_io opening ok p' h k =
    conclude (step_file begin_io (file_of opening)) false ok opening p' (requests opening + 1) refl
      (omega arith) k
step_file-spec begin_io (opened n) ok p' h k =
    conclude (step_file begin_io (file_of (opened n))) true ok (opened (suc n)) p'
      (requests (opened n) + 1) (begin_io-opened n h) (omega arith) k
step_file-spec begin_io closing ok p' h k =
    conclude (step_file begin_io (file_of closing)) false ok closing p' (requests closing + 1) refl
      (omega arith) k
step_file-spec begin_io gone ok p' h k =
    conclude (step_file begin_io (file_of gone)) false ok gone p' (requests gone + 1) refl
      (omega arith) k
step_file-spec close_file opening ok p' h k =
    conclude (step_file close_file (file_of opening)) false ok opening p' (requests opening + 1)
      refl (omega arith) k
step_file-spec close_file (opened zero) ok p' h k =
    conclude (step_file close_file (file_of (opened zero))) true ok closing p'
      (requests (opened zero) + 1) refl (omega arith) k
step_file-spec close_file (opened (suc n)) ok p' h k =
    conclude (step_file close_file (file_of (opened (suc n)))) false ok (opened (suc n)) p'
      (requests (opened (suc n)) + 1)
      (let some_left : (suc n == 0) ≡ false = ground arith in rw some_left refl) (omega arith) k
step_file-spec close_file closing ok p' h k =
    conclude (step_file close_file (file_of closing)) false ok closing p' (requests closing + 1)
      refl (omega arith) k
step_file-spec close_file gone ok p' h k =
    conclude (step_file close_file (file_of gone)) false ok gone p' (requests gone + 1) refl
      (omega arith) k
step_file-spec finish_close closing ok p' h k =
    conclude (step_file finish_close (file_of closing)) true ok gone p' (requests closing + 1) refl
      (omega arith) k
step_file-spec finish_open (opened n) ok p' h k = cc
step_file-spec finish_open closing ok p' h k = cc
step_file-spec finish_open gone ok p' h k = cc
step_file-spec end_io (opened zero) ok p' h k = cc
step_file-spec end_io closing ok p' h k = cc
step_file-spec end_io gone ok p' h k = cc
step_file-spec finish_close opening ok p' h k = cc
step_file-spec finish_close (opened n) ok p' h k = cc
step_file-spec finish_close gone ok p' h k = cc

-- Every sequence of events, less than 2 ^ 32, that the phases allow, goes on the count as on the phases: a
-- new request is refused while the file is being opened or closed, closing is refused while there are
-- requests or it has begun, the file is deleted when its opening fails or its closing is complete and only
-- then, and no assertion fails.
pub run_file-run_spec :
    (events : List FileEvent) (p p' : Phase) (oks : List Bool)
    → requests p + length events < 2 ^ 32
    → run_spec events p ≡ some (oks, p')
    → run_file events (file_of p) ≡ some (oks, file_of p')
unfolding run_file
run_file-run_spec [] p p' oks h k =
    let same : p ≡ p' = cc in
    let none_yet : [] ≡ oks = cc in
    ap₂
      (λ (l : List Bool) (x : Phase).
        let o : Option (List Bool × Option OpenedFile) = some (l, file_of x) in o)
      none_yet same
run_file-run_spec (e ∷ events) p p' oks h k = elim (Option-cases (spec e p)) [
  | inl refused ↦ ground arith
  | inr ((ok, q), allowed) ↦ elim (Option-cases (run_spec events q)) [
    | inl refused ↦ ground arith
    | inr ((rest, q'), later) ↦
        let (stepped, bound) = step_file-spec e p ok q (omega arith) allowed in
        let all : ok ∷ rest ≡ oks = ground arith in
        let same : q' ≡ p' = ground arith in
        rw (stepped, run_file-run_spec events q q' rest (omega arith) later, run_file)
          (ap₂
            (λ (l : List Bool) (x : Phase).
              let o : Option (List Bool × Option OpenedFile) = some (l, file_of x) in o)
            all same)
  ]
]
