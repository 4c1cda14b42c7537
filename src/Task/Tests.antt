-- ===== src/Task/Tests.antt =====
-- The theorems at three tasks, and tests.
use homemade_os.Base.{◌≡◌, refl, arith, some, [], ◌∷◌}
use homemade_os.Task.{Links, Ready, push_priority_queue, pop_priority_queue, suspend, resume}
use homemade_os.Task.Ring.Calls.{push, pop, run_ring, run_ring-run_queue}
use homemade_os.Task.Turns.{at_priority, schedules, schedules-turn}

abbrev unlinked : Links
unlinked = record { next = λ _. 0; prev = λ _. 0 }

run_ring-run_queue_example :
    run_ring (push 8 ∷ push 9 ∷ pop ∷ push 7 ∷ pop ∷ pop ∷ pop ∷ []) 0 unlinked
    ≡ some (8 ∷ 9 ∷ 7 ∷ 0 ∷ [])
run_ring-run_queue_example =
    run_ring-run_queue (push 8 ∷ push 9 ∷ pop ∷ push 7 ∷ pop ∷ pop ∷ pop ∷ []) 0 unlinked [] refl
      (omega arith)

-- All tasks have priority 1.
schedules-turn_example :
    schedules 2 (λ _. 1) (at_priority 1 7 (8 ∷ 9 ∷ 6 ∷ []) ([] ∷ (5 ∷ []) ∷ []))
    ≡ some (at_priority 1 9 (6 ∷ 7 ∷ 8 ∷ []) ([] ∷ (5 ∷ []) ∷ []))
schedules-turn_example =
    schedules-turn (λ _. 1) 1 7 9 (8 ∷ []) (6 ∷ []) ([] ∷ (5 ∷ []) ∷ []) (refl, (refl, tt))

abbrev ready : Ready
ready = record { queues = [] ∷ (3 ∷ []) ∷ (4 ∷ []) ∷ [] ∷ []; current = 6 }

-- The task that is resumed runs when the other one waits.
resumed : suspend (resume (λ _. 0) 5 ready) ≡ some (record ready { current = 5 })
unfolding suspend resume push_priority_queue pop_priority_queue
resumed = refl
