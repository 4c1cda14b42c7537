-- ===== src/Io/CancelAll.antt =====
-- The loop of `cancelAllIORequests` ends, and leaves no request out.
use homemade_os.Base.{
  ℕ, zero, suc, ◌+◌, ◌≤◌, ◌<◌, ◌≡◌, refl, ap, ap₂, subst, ◌∙◌, arith, inl, inr, Bool, true, false,
  some, List, [], ◌∷◌, ◌++◌, map, ◌==◌, ==_iff, if◌then◌else◌, length, Bool-cases,
}
use homemade_os.Io.{IoTask, remove, unlink, try_cancel_io, first_request, cancel_all_io_requests}
use homemade_os.Io.Separate.{occurrences, IsSeparate, unlink-IsSeparate}

remove-absent : (ior : ℕ) (xs : List ℕ) → occurrences ior xs ≡ 0 → remove ior xs ≡ xs
remove-absent ior [] h = refl
remove-absent ior (x ∷ xs) h =
    let other : (x == ior) ≡ false = ground arith in
    let later : occurrences ior xs ≡ 0 = omega (arith, h) in
    rw other (ap (λ l. x ∷ l) (remove-absent ior xs later))

try_cancel_io_lem : (ior : ℕ) (t : IoTask) → (try_cancel_io ior t).0 ≡ t.cancellable ior
unfolding try_cancel_io
try_cancel_io_lem ior t = ground arith

try_cancel_io-unlink :
    (ior : ℕ) (t : IoTask)
    → (if (try_cancel_io ior t).0 then (try_cancel_io ior t).1 else unlink ior t) ≡ unlink ior t
unfolding try_cancel_io
try_cancel_io-unlink ior t = elim (Bool-cases (t.cancellable ior)) [
  | inl e ↦ rw e refl
  | inr e ↦ rw e refl
]

abbrev pub outcomes : (cancellable : ℕ → Bool) → List ℕ → List (ℕ × Bool)
outcomes cancellable xs = map (λ ior. (ior, cancellable ior)) xs

round :
    (fuel ior : ℕ) (t : IoTask) (rest : List (ℕ × Bool))
    → first_request t.pending t.completed ≡ some ior
    → cancel_all_io_requests fuel (unlink ior t) ≡ some rest
    → cancel_all_io_requests (suc fuel) t ≡ some ((ior, t.cancellable ior) ∷ rest)
unfolding cancel_all_io_requests
round fuel ior t rest first h =
    rw (first, try_cancel_io-unlink ior t, h, cancel_all_io_requests)
      (ap (λ b. some ((ior, b) ∷ rest)) (try_cancel_io_lem ior t))

abbrev with_lists : (pending completed : List ℕ) → (cancellable : ℕ → Bool) → IoTask
with_lists pending completed cancellable = record {
  pending = pending;
  completed = completed;
  cancellable = cancellable;
}

all_outcomes :
    (fuel : ℕ) (pending completed : List ℕ) (cancellable : ℕ → Bool)
    → IsSeparate (with_lists pending completed cancellable)
    → length pending + length completed < fuel
    → cancel_all_io_requests fuel (with_lists pending completed cancellable)
      ≡ some (outcomes cancellable (pending ++ completed))
unfolding cancel_all_io_requests
all_outcomes zero pending completed cancellable s h = absurd (omega arith)
all_outcomes (suc fuel) [] [] cancellable s h = refl
all_outcomes (suc fuel) (x ∷ pending) completed cancellable s h =
    let t : IoTask = with_lists (x ∷ pending) completed cancellable in
    let t' : IoTask = with_lists pending completed cancellable in
    let once = s x in
    let here : (x == x) ≡ true = (==_iff x x).1 refl in
    let absent : occurrences x completed ≡ 0 =
      let count : (if x == x then 1 else 0) + occurrences x pending + occurrences x completed ≤ 1 =
        once in
      ground arith in
    let left : unlink x t ≡ t' =
      ap₂ (λ p c. with_lists p c cancellable) (rw here refl) (remove-absent x completed absent) in
    let separate : IsSeparate t' = subst IsSeparate left (unlink-IsSeparate x t s) in
    round fuel x t (outcomes cancellable (pending ++ completed)) refl (
      ap (cancel_all_io_requests fuel) left
      ∙ all_outcomes fuel pending completed cancellable separate (omega arith))
all_outcomes (suc fuel) [] (x ∷ completed) cancellable s h =
    let t : IoTask = with_lists [] (x ∷ completed) cancellable in
    let t' : IoTask = with_lists [] completed cancellable in
    let here : (x == x) ≡ true = (==_iff x x).1 refl in
    let left : unlink x t ≡ t' = ap (λ c. with_lists [] c cancellable) (rw here refl) in
    let separate : IsSeparate t' = subst IsSeparate left (unlink-IsSeparate x t s) in
    round fuel x t (outcomes cancellable completed) refl (
      ap (cancel_all_io_requests fuel) left
      ∙ all_outcomes fuel [] completed cancellable separate (omega arith))

-- Where no request is in the lists twice, on more rounds than there are requests, the loop of
-- `cancelAllIORequests` ends: each request is handled once, the pending ones first, and cancelled if its
-- flag is set, else waited for.
pub cancel_all_io_requests_lem :
    (fuel : ℕ) (t : IoTask)
    → IsSeparate t
    → length t.pending + length t.completed < fuel
    → cancel_all_io_requests fuel t ≡ some (outcomes t.cancellable (t.pending ++ t.completed))
cancel_all_io_requests_lem fuel t s h = all_outcomes fuel t.pending t.completed t.cancellable s h
