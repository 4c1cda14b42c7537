-- ===== src/Timer.antt =====
-- src/kernel/io/timer.c: the timer's list of events, in the order of their expiry. What runs under
-- `tel->lock` is one step; an event is named by its I/O request.
pub mod Insert
pub mod Expire
pub mod Tick
pub mod Alarm
mod Tests
use homemade_os.Base.{
  ℕ, zero, suc, ◌+◌, ◌-◌, ◌*◌, ◌/◌, ◌%◌, ◌^◌, Bool, true, false, Option, none, some, List, [], ◌∷◌,
  ◌++◌, ltb, leb, ◌==◌, if◌then◌else◌,
}

pub record TimerEvent : Type 0 where
  pub ior : ℕ
  pub countdown_ticks : ℕ
  -- 0 for a one-shot timer
  pub tick_period : ℕ
  pub is_sent_to_task : Bool

pub record TimerEventList : Type 0 where
  pub current_tick : ℕ
  -- from `head` on
  pub events : List TimerEvent

unfoldable pub create_timer : TimerEventList
create_timer = record { current_tick = 0; events = [] }

unfoldable pub create_timer_event : (ior period_ticks : ℕ) → TimerEvent
create_timer_event ior period_ticks = record {
  ior = ior;
  countdown_ticks = 0;
  tick_period = period_ticks;
  is_sent_to_task = false;
}

-- `waitTicks2`: the ticks until an event expires.
abbrev pub wait_ticks : (current : ℕ) → TimerEvent → ℕ
wait_ticks current e = (e.countdown_ticks + 2 ^ 50 - current) % 2 ^ 50

-- The loop of `addTimerEvent_noLock` and `ADD_TO_DQUEUE(te, i)`.
unfoldable pub insert_event : (current wait : ℕ) → TimerEvent → List TimerEvent → List TimerEvent
insert_event current wait e [] = e ∷ []
insert_event current wait e (x ∷ xs) =
    if leb wait (wait_ticks current x) then e ∷ x ∷ xs else x ∷ insert_event current wait e xs

-- What `addTimerEvent_noLock` writes into the event.
abbrev pub armed : (current wait : ℕ) → TimerEvent → TimerEvent
armed current wait e = record e {
  countdown_ticks = (current + wait) % 2 ^ 50;
  is_sent_to_task = false;
}

-- `addTimerEvent_noLock`
unfoldable pub add_no_lock : (current wait : ℕ) → TimerEvent → List TimerEvent → List TimerEvent
unfolding insert_event
add_no_lock current wait e es = insert_event current wait (armed current wait e) es

unfoldable pub add_timer_event : TimerEventList → (wait : ℕ) → TimerEvent → TimerEventList
unfolding add_no_lock
add_timer_event tel wait e = record tel { events = add_no_lock tel.current_tick wait e tel.events }

-- `cancelTimerEvent`: an event in the list is taken out of it.
unfoldable pub remove_event : (ior : ℕ) → List TimerEvent → List TimerEvent
remove_event ior [] = []
remove_event ior (x ∷ xs) = if x.ior == ior then xs else x ∷ remove_event ior xs

unfoldable pub cancel_timer_event : TimerEventList → (ior : ℕ) → TimerEventList
unfolding remove_event
cancel_timer_event tel ior = record tel { events = remove_event ior tel.events }

-- One round of the loop of `handleTimerEvents`, on the event `e` taken from in front of `es`: the
-- requests that it completes, and the list.
unfoldable pub expire_event :
    (current : ℕ) → TimerEvent → List TimerEvent → List ℕ × List TimerEvent
unfolding add_no_lock
expire_event current e es = (
  (if e.is_sent_to_task then [] else e.ior ∷ []),
  (if ltb 0 e.tick_period
      then add_no_lock current e.tick_period (record e { is_sent_to_task = true }) es
      else es),
)

-- The loop of `handleTimerEvents`, with the requests completed so far. `none`: out of fuel.
unfoldable pub expire :
    (fuel : ℕ) → List ℕ → (current : ℕ) → List TimerEvent → Option (List ℕ × List TimerEvent)
unfolding expire_event
expire zero done current es = none
expire (suc n) done current [] = some (done, [])
expire (suc n) done current (e ∷ es) =
    let (out, rest) = expire_event current e es in
    let result = expire n (done ++ out) current rest in
    if e.countdown_ticks == current then result else some (done, e ∷ es)

-- The requests completed at one tick, and the timer after it.
unfoldable pub handle_timer_events : (fuel : ℕ) → TimerEventList → Option (List ℕ × TimerEventList)
unfolding expire
handle_timer_events fuel tel = elim (expire fuel [] tel.current_tick tel.events) [
  | none ↦ none
  | some (done, es) ↦
      some (done, record { current_tick = (tel.current_tick + 1) % 2 ^ 50; events = es })
]

-- `setAlarmHandler` with the event `ior` allocated, for `TIMER_FREQUENCY` 100: `none` is
-- `IO_REQUEST_FAILURE`. The product is one of 64 bits.
unfoldable pub set_alarm :
    TimerEventList → (ior millisecond : ℕ) → (is_periodic : Bool) → Option TimerEventList
unfolding add_timer_event create_timer_event
set_alarm tel ior millisecond is_periodic =
    let ticks = (millisecond * 100) % 2 ^ 64 / 1000 in
    let tick = if ticks == 0 then ticks + 1 else ticks in
    if ltb ticks (2 ^ 50)
    then some (add_timer_event tel tick (create_timer_event ior (if is_periodic then tick else 0)))
    else none
