-- ===== src/Tcp/Receive/Finish.antt =====
-- `copyTCPReceiveBuffer` as a whole.
use homemade_os.Base.{◌≡◌, List, [], ◌++◌, if◌then◌else◌}
use homemade_os.Tcp.Receive.{Completion, ReceiveWindow, fail_requests, at_finish}
use homemade_os.Tcp.Receive.Store.{IsWindow}
use homemade_os.Tcp.Receive.Copy.{IsFilled}
use homemade_os.Tcp.Receive.Deliver.{readable}

record Finished (done : List Completion) (u : ReceiveWindow) (out : List Completion × ReceiveWindow)
    : Type 0 where
  completions : out.0 ≡ done ++ (if at_finish u then fail_requests u.requests else [])
  waiting : out.1.requests ≡ (if at_finish u then [] else u.requests)
  len : out.1.sequence_length ≡ u.sequence_length
  finish : at_finish out.1 ≡ at_finish u
  text : readable out.1 ≡ readable u
  window : IsWindow out.1
  filled : IsFilled out.1
