-- ===== src/Io/Cancel.antt =====
-- The flag `cancellable` lets one of the handler of a request and the one who cancels it go on.
use homemade_os.Base.{
  ℕ, suc, ◌≤◌, ◌≡◌, refl, sym, ap, ◌∙◌, arith, inl, inr, Bool, true, false, ◌&&◌, List, [], ◌∷◌,
  ==_iff, if◌then◌else◌, Bool-cases,
}
use homemade_os.Io.{IoTask, search_io_list, try_cancel_io, cancel_io_handler, set_cancellable}

-- What is done with one request: its handler wants to complete it (`setCancellable` to 0), or its task
-- cancels it.
pub data Attempt : Type 0 where
  claim cancel : Attempt

abbrev pub attempt : (ior : ℕ) → Attempt → IoTask → Bool × IoTask
attempt ior claim t = set_cancellable ior false t
attempt ior cancel t = cancel_io_handler ior t

-- How many of the attempts succeed.
abbrev pub successes : (ior : ℕ) → List Attempt → IoTask → ℕ
successes ior [] t = 0
successes ior (a ∷ attempts) t =
    let (ok, t') = attempt ior a t in
    if ok then suc (successes ior attempts t') else successes ior attempts t'

-- With the flag down, no attempt succeeds.
attempt-down :
    (ior : ℕ) (a : Attempt) (t : IoTask) → t.cancellable ior ≡ false → attempt ior a t ≡ (false, t)
unfolding set_cancellable cancel_io_handler
attempt-down ior claim t h = rw h refl
attempt-down ior cancel t h = elim (Bool-cases (search_io_list t.pending ior)) [
  | inl e ↦ rw (e, h) refl
  | inr e ↦ rw e refl
]

successes-down :
    (ior : ℕ) (attempts : List Attempt) (t : IoTask)
    → t.cancellable ior ≡ false
    → successes ior attempts t ≡ 0
successes-down ior [] t h = refl
successes-down ior (a ∷ attempts) t h =
    rw (attempt-down ior a t h) (successes-down ior attempts t h)

-- An attempt that succeeds puts the flag down.
attempt-success :
    (ior : ℕ) (a : Attempt) (t : IoTask)
    → (attempt ior a t).0 ≡ true
    → (attempt ior a t).1.cancellable ior ≡ false
unfolding set_cancellable cancel_io_handler
attempt-success ior claim t h = elim (Bool-cases (t.cancellable ior)) [
  | inl e ↦ rw e (rw ((==_iff ior ior).1 refl) refl)
  | inr e ↦ ground (arith, attempt-down ior claim t e)
]
attempt-success ior cancel t h =
    elim (Bool-cases (search_io_list t.pending ior && t.cancellable ior)) [
      | inl e ↦ rw e (rw ((==_iff ior ior).1 refl) refl)
      | inr e ↦
          let no_success : false ≡ true = sym (ap (λ (r : Bool × IoTask). r.0) (down e)) ∙ h in cc
    ]
  where
    down :
        (search_io_list t.pending ior && t.cancellable ior) ≡ false
        → cancel_io_handler ior t ≡ (false, t)
    down e = rw e refl

-- Of the attempts to complete and to cancel a request, in any order, one succeeds at most.
pub successes-le : (ior : ℕ) (attempts : List Attempt) (t : IoTask) → successes ior attempts t ≤ 1
successes-le ior [] t = omega arith
successes-le ior (a ∷ attempts) t = elim (Bool-cases (attempt ior a t).0) [
  | inl e ↦
      rw e
        (omega (arith, successes-down ior attempts (attempt ior a t).1 (attempt-success ior a t e)))
  | inr e ↦ rw e (successes-le ior attempts (attempt ior a t).1)
]

first_succeeds :
    (ior : ℕ) (a : Attempt) (t : IoTask)
    → search_io_list t.pending ior ≡ true
    → t.cancellable ior ≡ true
    → (attempt ior a t).0 ≡ true
unfolding set_cancellable cancel_io_handler
first_succeeds ior claim t here up = rw up refl
first_succeeds ior cancel t here up = rw (here, up) refl

-- Of any attempts to complete a request by `setCancellable` and to cancel it by the handler of `cancelIO`, in
-- any order, on a request that is pending and has the flag set, exactly one succeeds. `tryCancelIO`, which
-- leaves the flag set, is not among these attempts.
pub successes-one :
    (ior : ℕ) (a : Attempt) (attempts : List Attempt) (t : IoTask)
    → search_io_list t.pending ior ≡ true
    → t.cancellable ior ≡ true
    → successes ior (a ∷ attempts) t ≡ 1
successes-one ior a attempts t here up =
    let ok = first_succeeds ior a t here up in
    rw ok (ap suc (successes-down ior attempts (attempt ior a t).1 (attempt-success ior a t ok)))

-- After `tryCancelIO` the handler of the request still gets leave to complete it.
pub set_cancellable-try_cancel_io :
    (ior : ℕ) (t : IoTask)
    → t.cancellable ior ≡ true
    → ((try_cancel_io ior t).0 ≡ true)
      × ((set_cancellable ior false (try_cancel_io ior t).1).0 ≡ true)
unfolding set_cancellable try_cancel_io
set_cancellable-try_cancel_io ior t up = rw up (refl, rw up refl)
