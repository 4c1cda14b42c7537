-- ===== src/Io/Wait/Return.antt =====
-- `_waitIO` returns once a request that it waits for is completed.
use homemade_os.Base.{ℕ}
use homemade_os.Io.{unlink}
use homemade_os.Io.Wait.{returned, System}

-- A state after the search has found the request.
abbrev pub returns : (ior : ℕ) → System → (semaphore : ℕ) → System
returns ior s semaphore = record s {
  task = unlink ior s.task;
  semaphore = semaphore;
  stage = returned ior;
}
