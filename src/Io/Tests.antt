-- ===== src/Io/Tests.antt =====
-- The theorems at a task with two requests, and tests.
use homemade_os.Base.{◌≡◌, refl, arith, true, false, some, List, [], ◌∷◌, ◌==◌, if◌then◌else◌}
use homemade_os.Io.{
  IoTask, try_cancel_io, cancel_io_handler, set_cancellable, init_io_request, may_wait,
  cancel_all_io_requests,
}
use homemade_os.Io.Cancel.{claim, cancel, successes, successes-one}
use homemade_os.Io.Separate.{IsSeparate}
use homemade_os.Io.Wait.{asleep, idle, System, Event, pend, complete, wait, turn}

-- Request 5 is pending and may be cancelled, and 6 is completed.
abbrev two : IoTask
two = record { pending = 5 ∷ []; completed = 6 ∷ []; cancellable = λ i. i == 5 }

successes-one_example : successes 5 (cancel ∷ claim ∷ cancel ∷ []) two ≡ 1
successes-one_example = successes-one 5 cancel (claim ∷ cancel ∷ []) two refl refl

two-IsSeparate : IsSeparate two
two-IsSeparate ior = ground arith

-- A request is completed while the task goes to sleep.
abbrev history : List Event
history = pend 5 ∷ wait (some 5) ∷ turn ∷ turn ∷ complete 5 ∷ []

abbrev sleeper : System
sleeper = record {
  task = record {
    pending = [];
    completed = 5 ∷ [];
    cancellable = λ i. if i == 5 then false else false;
  };
  semaphore = 0;
  releasing = 1;
  stage = asleep (some 5);
}

-- The request was completed, and the semaphore released, before the task waits.
abbrev early : System
early = record { task = two; semaphore = 2; releasing = 0; stage = idle }

-- Cancelled with `tryCancelIO`, a request can be claimed still; with `cacnelIOHandler` it cannot.
claimed_still :
    ((set_cancellable 5 false (try_cancel_io 5 two).1).0 ≡ true)
    × ((set_cancellable 5 false (cancel_io_handler 5 two).1).0 ≡ false)
unfolding set_cancellable try_cancel_io cancel_io_handler
claimed_still = (refl, refl)

waiting_allowed : (may_wait 6 two ≡ true) × (may_wait 7 (init_io_request 7 two) ≡ false)
unfolding may_wait init_io_request
waiting_allowed = (refl, refl)

cancelled_and_awaited : cancel_all_io_requests 3 two ≡ some ((5, true) ∷ (6, false) ∷ [])
unfolding cancel_all_io_requests try_cancel_io
cancelled_and_awaited = refl
