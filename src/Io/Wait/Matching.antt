-- ===== src/Io/Wait/Matching.antt =====
-- How the operations on a task's requests change the number of those that are completed and waited for.
use homemade_os.Base.{
  ℕ, ◌+◌, ◌≤◌, ◌<◌, ◌≡◌, refl, arith, Bool, Option, none, some, List, [], ◌∷◌, if◌then◌else◌,
}
use homemade_os.Io.{
  IoTask, remove, unlink, is_expected, find_expected, pend_io, complete_io, take_completed,
  try_cancel_io, cancel_io_handler, set_cancellable,
}

-- How many of the requests are such as the task waits for.
abbrev pub matching : (expected : Option ℕ) → List ℕ → ℕ
matching expected [] = 0
matching expected (i ∷ rest) = (if is_expected expected i then 1 else 0) + matching expected rest

pub matching-remove :
    (expected : Option ℕ) (ior : ℕ) (xs : List ℕ)
    → matching expected (remove ior xs) ≤ matching expected xs
matching-remove expected ior [] = omega arith
matching-remove expected ior (x ∷ xs) = ground (arith, matching-remove expected ior xs)

pub find_expected-none :
    (expected : Option ℕ) (xs : List ℕ)
    → find_expected expected xs ≡ none
    → matching expected xs ≡ 0
find_expected-none expected [] h = refl
find_expected-none expected (x ∷ xs) h = ground (arith, find_expected-none expected xs)

pub find_expected-some :
    (expected : Option ℕ) (xs : List ℕ) (ior : ℕ)
    → find_expected expected xs ≡ some ior
    → 0 < matching expected xs
find_expected-some expected [] ior h = cc
find_expected-some expected (x ∷ xs) ior h = ground (arith, find_expected-some expected xs ior)

pub matching-unlink :
    (expected : Option ℕ) (ior : ℕ) (t : IoTask)
    → matching expected (unlink ior t).completed ≤ matching expected t.completed
matching-unlink expected ior t = matching-remove expected ior t.completed

pub pend_io-matching :
    (expected : Option ℕ) (ior : ℕ) (t t' : IoTask)
    → pend_io ior t ≡ some t'
    → matching expected t'.completed ≡ matching expected t.completed
unfolding pend_io
pend_io-matching expected ior t t' h = ground arith

pub complete_io-matching :
    (expected : Option ℕ) (ior : ℕ) (t t' : IoTask)
    → complete_io ior t ≡ some t'
    → matching expected t'.completed ≤ matching expected t.completed + 1
unfolding complete_io
complete_io-matching expected ior t t' h = ground (arith, matching-remove expected ior t.completed)

pub try_cancel_io-matching :
    (expected : Option ℕ) (ior : ℕ) (t : IoTask)
    → matching expected (try_cancel_io ior t).1.completed ≤ matching expected t.completed
unfolding try_cancel_io
try_cancel_io-matching expected ior t = ground (arith, matching-remove expected ior t.completed)

pub cancel_io_handler-matching :
    (expected : Option ℕ) (ior : ℕ) (t : IoTask)
    → matching expected (cancel_io_handler ior t).1.completed ≤ matching expected t.completed
unfolding cancel_io_handler
cancel_io_handler-matching expected ior t = ground (arith, matching-remove expected ior t.completed)

pub set_cancellable-matching :
    (expected : Option ℕ) (ior : ℕ) (value : Bool) (t : IoTask)
    → matching expected (set_cancellable ior value t).1.completed ≡ matching expected t.completed
unfolding set_cancellable
set_cancellable-matching expected ior value t = ground arith

pub take_completed-none :
    (expected : Option ℕ) (t : IoTask)
    → take_completed expected t ≡ none
    → find_expected expected t.completed ≡ none
unfolding take_completed
take_completed-none expected t h = ground arith
