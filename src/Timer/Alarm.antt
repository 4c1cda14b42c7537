-- ===== src/Timer/Alarm.antt =====
-- An alarm set in src/kernel/io/timer.c goes off at its tick.
use mathlib.Core.Option
use homemade_os.Base.{
  ℕ, zero, suc, ◌+◌, ◌*◌, ◌/◌, ◌%◌, ◌^◌, ◌<◌, ◌≡◌, refl, ap, ◌∙◌, Bool, true, false, Option, none,
  some, List, [], ◌∷◌, map, arith, length, ltb, ◌==◌, ◌||◌, if◌then◌else◌,
}
use homemade_os.Timer.{
  TimerEvent, TimerEventList, wait_ticks, armed, insert_event, add_no_lock, add_timer_event,
  set_alarm, create_timer_event, handle_timer_events,
}
use homemade_os.Timer.Insert.{IsOrdered, armed-wait, add_no_lock-IsOrdered}
use homemade_os.Timer.Expire.{due, later, rearm, again, none_due}
use homemade_os.Timer.Tick.{IsTimer, after_tick, after_tick-IsOrdered, handle_timer_events_lem}

-- The ticks until the first event of a request expires.
unfoldable pub remaining : (current : ℕ) → (ior : ℕ) → List TimerEvent → Option ℕ
remaining current i [] = none
remaining current i (x ∷ xs) =
    if x.ior == i then some (wait_ticks current x) else remaining current i xs

abbrev pub contains : ℕ → List ℕ → Bool
contains i [] = false
contains i (x ∷ xs) = (x == i) || contains i xs

abbrev iors : List TimerEvent → List ℕ
iors es = map (λ e. e.ior) es

remaining-zero :
    (current i : ℕ) (least : ℕ) (es : List TimerEvent)
    → current < 2 ^ 50
    → IsOrdered current least es
    → remaining current i es ≡ some 0
    → contains i (iors (due current es)) ≡ true
unfolding remaining due
remaining-zero current i least [] c o h = ground arith
remaining-zero current i least (x ∷ xs) c (l, w, o) h =
    ground (arith, l.ticks_in, remaining-zero current i (wait_ticks current x) xs c o)

due-absent :
    (current i n least : ℕ) (es : List TimerEvent)
    → current < 2 ^ 50
    → IsOrdered current least es
    → remaining current i es ≡ some (suc n)
    → contains i (iors (due current es)) ≡ false
unfolding remaining due
due-absent current i n least [] c o h = refl
due-absent current i n least (x ∷ xs) c (l, w, o) h = ground (
  arith,
  l.ticks_in,
  due-absent current i n (wait_ticks current x) xs c o,
  none_due current (wait_ticks current x) (x ∷ xs) c,
)

remaining-later :
    (current i n least : ℕ) (es : List TimerEvent)
    → current < 2 ^ 50
    → IsOrdered current least es
    → remaining current i es ≡ some (suc n)
    → remaining current i (later current es) ≡ some (suc n)
unfolding remaining later
remaining-later current i n least [] c o h = h
remaining-later current i n least (x ∷ xs) c (l, w, o) h =
    ground (arith, l.ticks_in, remaining-later current i n (wait_ticks current x) xs c o)

remaining-insert_ne :
    (current i wait : ℕ) (e : TimerEvent) (es : List TimerEvent)
    → (e.ior == i) ≡ false
    → remaining current i (insert_event current wait e es) ≡ remaining current i es
unfolding remaining insert_event
remaining-insert_ne current i wait e [] h = ground arith
remaining-insert_ne current i wait e (x ∷ xs) h =
    ground (arith, remaining-insert_ne current i wait e xs h)

remaining-insert_same :
    (current wait : ℕ) (e : TimerEvent) (es : List TimerEvent)
    → remaining current e.ior es ≡ none
    → remaining current e.ior (insert_event current wait e es) ≡ some (wait_ticks current e)
unfolding remaining insert_event
remaining-insert_same current wait e [] h = ground arith
remaining-insert_same current wait e (x ∷ xs) h =
    ground (arith, remaining-insert_same current wait e xs)

remaining-rearm :
    (current i : ℕ) (c : current < 2 ^ 50) (ds es : List TimerEvent)
    → contains i (iors ds) ≡ false
    → remaining current i (rearm current ds es) ≡ remaining current i es
unfolding rearm add_no_lock
remaining-rearm current i c [] es h = refl
remaining-rearm current i c (x ∷ xs) es h =
    remaining-rearm current i c xs (again current c x es) (ground arith)
    ∙ ground (arith, remaining-insert_ne current i x.tick_period (armed current x.tick_period x) es)

remaining-tick :
    (current i n least : ℕ) (es : List TimerEvent)
    → current < 2 ^ 50
    → IsOrdered current least es
    → remaining current i es ≡ some (suc n)
    → remaining ((current + 1) % 2 ^ 50) i es ≡ some n
unfolding remaining
remaining-tick current i n least [] c o h = ground arith
remaining-tick current i n least (x ∷ xs) c (l, w, o) h =
    ground (arith, l.ticks_in, remaining-tick current i n (wait_ticks current x) xs c o)

-- The number of ticks handled before the one that completes `ior`, if there is one among the next
-- `ticks`.
unfoldable pub completed_after : (ticks ior : ℕ) → TimerEventList → Option ℕ
completed_after zero ior tel = none
completed_after (suc n) ior tel = elim (handle_timer_events (suc (length tel.events)) tel) [
  | none ↦ none
  | some (done, tel') ↦
      if contains ior done then some 0 else Option.map suc (completed_after n ior tel')
]

completed_after-remaining :
    (ticks ior n : ℕ) (tel : TimerEventList)
    → IsTimer tel
    → remaining tel.current_tick ior tel.events ≡ some n
    → n < ticks
    → completed_after ticks ior tel ≡ some n
unfolding completed_after
completed_after-remaining zero ior n tel t r h = absurd (omega arith)
completed_after-remaining (suc ticks) ior zero tel t r h =
    let (handled, t') = handle_timer_events_lem (suc (length tel.events)) tel t (omega arith) in
    let now = remaining-zero tel.current_tick ior 0 tel.events t.tick_in t.ordered r in
    rw (handled, completed_after, now) refl
completed_after-remaining (suc ticks) ior (suc n) tel t r h =
    let c = tel.current_tick in
    let (handled, t') = handle_timer_events_lem (suc (length tel.events)) tel t (omega arith) in
    let not_yet = due-absent c ior n 0 tel.events t.tick_in t.ordered r in
    let nearer =
      remaining-tick c ior n 1 (after_tick tel).events t.tick_in (after_tick-IsOrdered tel t) (
        remaining-rearm c ior t.tick_in (due c tel.events) (later c tel.events) not_yet
        ∙ remaining-later c ior n 0 tel.events t.tick_in t.ordered r) in
    rw (handled, completed_after, not_yet)
      (ap (Option.map suc)
        (completed_after-remaining ticks ior n (after_tick tel) t' nearer (omega arith)))

-- An event added with `wait` ticks to a valid timer that has no event of its request is completed
-- by the tick after `wait` ticks have been handled, and by none before.
add_timer_event-completed_after :
    (tel : TimerEventList) (wait ticks : ℕ) (e : TimerEvent)
    → IsTimer tel
    → remaining tel.current_tick e.ior tel.events ≡ none
    → wait < 2 ^ 50
    → e.tick_period < 2 ^ 50
    → wait < ticks
    → completed_after ticks e.ior (add_timer_event tel wait e) ≡ some wait
unfolding add_timer_event add_no_lock
add_timer_event-completed_after tel wait ticks e t fresh w p h =
    completed_after-remaining ticks e.ior wait (add_timer_event tel wait e)
      (record {
        tick_in = t.tick_in;
        ordered =
            add_no_lock-IsOrdered tel.current_tick wait 0 e tel.events t.tick_in w p (omega arith)
              t.ordered;
      })
      (remaining-insert_same tel.current_tick wait (armed tel.current_tick wait e) tel.events fresh
        ∙ ap some (armed-wait tel.current_tick wait e t.tick_in w))
      h

abbrev pub alarm_ticks : ℕ → ℕ
alarm_ticks millisecond = if ltb millisecond 10 then 1 else millisecond / 10

-- `setAlarmHandler` on a valid timer without an event of the new request, for a time below
-- 10 * 2 ^ 50 milliseconds: it succeeds, and among more ticks than the time in hundredths of a second
-- (at least one) the request is completed first by the tick that comes after that many ticks.
pub set_alarm_lem :
    (tel : TimerEventList) (ior millisecond ticks : ℕ) (is_periodic : Bool)
    → IsTimer tel
    → remaining tel.current_tick ior tel.events ≡ none
    → millisecond < 10 * 2 ^ 50
    → alarm_ticks millisecond < ticks
    → (tel' : TimerEventList) × (set_alarm tel ior millisecond is_periodic ≡ some tel')
      × (completed_after ticks ior tel' ≡ some (alarm_ticks millisecond))
unfolding set_alarm create_timer_event
set_alarm_lem tel ior millisecond ticks is_periodic t fresh m h =
    let raw : ℕ = (millisecond * 100) % 2 ^ 64 / 1000 in
    let same : (if raw == 0 then raw + 1 else raw) ≡ alarm_ticks millisecond = ground arith in
    let fits : ltb raw (2 ^ 50) ≡ true = ground arith in
    let tick : ℕ = alarm_ticks millisecond in
    let e : TimerEvent = create_timer_event ior (if is_periodic then tick else 0) in
    (
      add_timer_event tel tick e,
      rw (fits, set_alarm)
          (ap
            (λ n.
              some (add_timer_event tel n (create_timer_event ior (if is_periodic then n else 0))))
            same),
      add_timer_event-completed_after tel tick ticks e t fresh (ground arith) (ground arith) h,
    )
