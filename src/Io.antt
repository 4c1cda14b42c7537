-- ===== src/Io.antt =====
-- src/kernel/task/taskmanager.c, the I/O requests of a task (`pendIO` to `initIORequest`): the lists of the
-- requests that are pending and completed, and who may complete or cancel a request. A request is the
-- number of its address; the lists are in order, the head first. `none` is an assertion that fails.
pub mod Cancel
pub mod CancelAll
pub mod Separate
pub mod Wait
mod Tests
use homemade_os.Base.{
  ℕ, zero, suc, ◌+◌, ◌-◌, Bool, true, false, ◌&&◌, ◌||◌, not, Option, none, some, List, [], ◌∷◌,
  ◌==◌, if◌then◌else◌,
}

-- A task's lists, under `ioListLock`, and the flags of its requests.
pub record IoTask : Type 0 where
  pub pending : List ℕ
  pub completed : List ℕ
  pub cancellable : ℕ → Bool

-- `searchIOList_noLock`
abbrev pub search_io_list : List ℕ → (ior : ℕ) → Bool
search_io_list [] ior = false
search_io_list (i ∷ rest) ior = if i == ior then true else search_io_list rest ior

-- `REMOVE_FROM_DQUEUE` from the list that the request is in.
abbrev pub remove : (ior : ℕ) → List ℕ → List ℕ
remove ior [] = []
remove ior (i ∷ rest) = if i == ior then rest else i ∷ remove ior rest

abbrev pub is_in_dqueue : IoTask → (ior : ℕ) → Bool
is_in_dqueue t ior = search_io_list t.pending ior || search_io_list t.completed ior

abbrev pub unlink : (ior : ℕ) → IoTask → IoTask
unlink ior t = record t { pending = remove ior t.pending; completed = remove ior t.completed }

abbrev pub set_flag : (ior : ℕ) → (value : Bool) → IoTask → IoTask
set_flag ior value t = record t { cancellable = λ i. if i == ior then value else t.cancellable i }

-- `initIORequest`, as far as it is about the flag.
unfoldable pub init_io_request : (ior : ℕ) → IoTask → IoTask
init_io_request ior t = set_flag ior false t

unfoldable pub pend_io : (ior : ℕ) → IoTask → Option IoTask
pend_io ior t = if is_in_dqueue t ior then none else some (record t { pending = ior ∷ t.pending })

-- Up to the release of the semaphore.
unfoldable pub complete_io : (ior : ℕ) → IoTask → Option IoTask
complete_io ior t =
    let out = unlink ior t in
    let moved = record out { completed = ior ∷ out.completed } in
    if not (is_in_dqueue t ior) then none else some (set_flag ior false moved)

-- The search of `_waitIO`; `none` stands for an `expected` that is `NULL`.
abbrev pub is_expected : (expected : Option ℕ) → (ior : ℕ) → Bool
is_expected none ior = true
is_expected (some e) ior = e == ior

abbrev pub find_expected : (expected : Option ℕ) → List ℕ → Option ℕ
find_expected expected [] = none
find_expected expected (i ∷ rest) =
    if is_expected expected i then some i else find_expected expected rest

-- A round of `_waitIO` under the lock: the request that is found, which is out of the list then.
unfoldable pub take_completed : (expected : Option ℕ) → IoTask → Option (ℕ × IoTask)
take_completed expected t = elim (find_expected expected t.completed) [
  | none ↦ none
  | some ior ↦ some (ior, unlink ior t)
]

-- Whether the request is cancelled; `ior->cancel` is called after that. A request in no list, whose links are
-- NULL, stays as it is here.
unfoldable pub try_cancel_io : (ior : ℕ) → IoTask → Bool × IoTask
try_cancel_io ior t = if t.cancellable ior then (true, unlink ior t) else (false, t)

unfoldable pub cancel_io_handler : (ior : ℕ) → IoTask → Bool × IoTask
cancel_io_handler ior t =
    if search_io_list t.pending ior && t.cancellable ior
    then (true, set_flag ior false (unlink ior t))
    else (false, t)

unfoldable pub set_cancellable : (ior : ℕ) → (value : Bool) → IoTask → Bool × IoTask
set_cancellable ior value t =
    if not value && not (t.cancellable ior) then (false, t) else (true, set_flag ior value t)

-- Whether `waitIOHandler` goes on to wait for the request.
unfoldable pub may_wait : (ior : ℕ) → IoTask → Bool
may_wait ior t = search_io_list t.pending ior || search_io_list t.completed ior

-- The request that a round of `cancelAllIORequests` is about.
abbrev pub first_request : List ℕ → List ℕ → Option ℕ
first_request (ior ∷ rest) completed = some ior
first_request [] (ior ∷ rest) = some ior
first_request [] [] = none

-- The loop of `cancelAllIORequests`: the requests in order, with whether each is cancelled or waited for
-- and accepted. What is waited for is completed meanwhile, and nothing else is done with the lists.
-- `none`: out of fuel.
unfoldable pub cancel_all_io_requests : (fuel : ℕ) → IoTask → Option (List (ℕ × Bool))
cancel_all_io_requests zero t = none
cancel_all_io_requests (suc fuel) t = elim (first_request t.pending t.completed) [
  | none ↦ some []
  | some ior ↦
      let tried = try_cancel_io ior t in
      let t' = if tried.0 then tried.1 else unlink ior t in
      elim (cancel_all_io_requests fuel t') [
        | none ↦ none
        | some rest ↦ some ((ior, tried.0) ∷ rest)
      ]
]
