-- ===== src/Timer/Tests.antt =====
-- A timer of src/kernel/io/timer.c at the last tick before the wrap, and the theorems applied there.
use homemade_os.Base.{◌≡◌, refl, false, some, [], ◌∷◌, map, arith}
use homemade_os.Timer.{TimerEventList, set_alarm, add_no_lock}
use homemade_os.Timer.Expire.{due, later, rearm}
use homemade_os.Timer.Tick.{IsTimer, after_tick}
use homemade_os.Timer.Alarm.{remaining, completed_after, set_alarm_lem}

-- the request 1 is due now and every 2 ticks, the request 2 at the next tick, once
abbrev wrapping : TimerEventList
wrapping = record {
  current_tick = 1125899906842623;
  events =
      record {
        ior = 1;
        countdown_ticks = 1125899906842623;
        tick_period = 2;
        is_sent_to_task = false;
      }
      ∷ record { ior = 2; countdown_ticks = 0; tick_period = 0; is_sent_to_task = false }
      ∷ [];
}

wrapping-IsTimer : IsTimer wrapping
wrapping-IsTimer = record {
  tick_in = omega arith;
  ordered = (
    record { ticks_in = omega arith; period_in = omega arith; not_sent = refl },
    omega arith,
    (record { ticks_in = omega arith; period_in = omega arith; not_sent = refl }, omega arith, tt),
  );
}

set_alarm_example :
    (tel' : TimerEventList) × (set_alarm wrapping 5 34 false ≡ some tel')
    × (completed_after 9 5 tel' ≡ some 3)
unfolding remaining
set_alarm_example =
    set_alarm_lem wrapping 5 34 9 false wrapping-IsTimer refl (omega arith) (omega arith)

-- the periodic request comes after the other once it is entered again
wrapping-after_tick : map (λ e. e.ior) (after_tick wrapping).events ≡ 2 ∷ 1 ∷ []
unfolding rearm due later add_no_lock
wrapping-after_tick = refl
