-- ===== src/Timer/Tick.antt =====
-- One tick of `handleTimerEvents` as a whole.
use homemade_os.Base.{
  ℕ, suc, ◌+◌, ◌%◌, ◌^◌, ◌≤◌, ◌<◌, ◌≡◌, refl, subst, inl, inr, some, List, [], ◌∷◌, map, arith,
  length, ◌==◌, Bool-cases,
}
use homemade_os.Timer.{TimerEvent, TimerEventList, wait_ticks, handle_timer_events}
use homemade_os.Timer.Insert.{IsOrdered, IsOrdered-weaken}
use homemade_os.Timer.Expire.{due, later, rearm, again, again-IsOrdered, expire_lem}

pub length-due : (current : ℕ) (es : List TimerEvent) → length (due current es) ≤ length es
unfolding due
length-due current [] = omega arith
length-due current (x ∷ xs) = ground (arith, length-due current xs)

pub later-IsOrdered :
    (current least : ℕ) (es : List TimerEvent)
    → IsOrdered current least es
    → IsOrdered current least (later current es)
unfolding later
later-IsOrdered current least [] o = tt
later-IsOrdered current least (x ∷ xs) (l, w, o) =
    elim (Bool-cases (x.countdown_ticks == current)) [
      | inl now ↦
          rw (now, later)
            (IsOrdered-weaken current least (wait_ticks current x) (later current xs) w
              (later-IsOrdered current (wait_ticks current x) xs o))
      | inr after ↦ rw (after, later) (l, w, later-IsOrdered current (wait_ticks current x) xs o)
    ]

-- In a list without due events, every event is at least one tick away.
pub later-one :
    (current least : ℕ) (es : List TimerEvent)
    → current < 2 ^ 50
    → IsOrdered current least es
    → IsOrdered current 1 (later current es)
unfolding later
later-one current least [] c o = tt
later-one current least (x ∷ xs) c (l, w, o) = elim (Bool-cases (x.countdown_ticks == current)) [
  | inl now ↦ rw (now, later) (later-one current (wait_ticks current x) xs c o)
  | inr after ↦
      rw (after, later)
        (l, ground (arith, l.ticks_in), later-IsOrdered current (wait_ticks current x) xs o)
]

pub rearm-one :
    (current least : ℕ) (ds es : List TimerEvent)
    → current < 2 ^ 50
    → IsOrdered current least ds
    → IsOrdered current 1 es
    → IsOrdered current 1 (rearm current ds es)
unfolding rearm
rearm-one current least [] es c d o = o
rearm-one current least (x ∷ xs) es c (l, w, d) o =
    rearm-one current (wait_ticks current x) xs (again current c x es) c d
      (again-IsOrdered current c 1 x es l (omega arith) o)

pub due-IsOrdered :
    (current least : ℕ) (es : List TimerEvent)
    → IsOrdered current least es
    → IsOrdered current least (due current es)
unfolding due
due-IsOrdered current least [] o = tt
due-IsOrdered current least (x ∷ xs) (l, w, o) = elim (Bool-cases (x.countdown_ticks == current)) [
  | inl now ↦ rw (now, due) (l, w, due-IsOrdered current (wait_ticks current x) xs o)
  | inr after ↦
      rw (after, due)
        (IsOrdered-weaken current least (wait_ticks current x) (due current xs) w
          (due-IsOrdered current (wait_ticks current x) xs o))
]

-- One tick on, every event is one tick nearer.
pub IsOrdered-tick :
    (current least : ℕ) (es : List TimerEvent)
    → current < 2 ^ 50
    → IsOrdered current (suc least) es
    → IsOrdered ((current + 1) % 2 ^ 50) least es
IsOrdered-tick current least [] c o = tt
IsOrdered-tick current least (x ∷ xs) c (l, w, o) =
    let nearer : wait_ticks current x ≡ suc (wait_ticks ((current + 1) % 2 ^ 50) x) =
      omega (arith, l.ticks_in) in
    (
      record { ticks_in = l.ticks_in; period_in = l.period_in; not_sent = l.not_sent },
      omega arith,
      IsOrdered-tick current (wait_ticks ((current + 1) % 2 ^ 50) x) xs c
          (subst (λ n. IsOrdered current n xs) nearer o),
    )

pub record IsTimer (tel : TimerEventList) : Type 0 where
  pub tick_in : tel.current_tick < 2 ^ 50
  pub ordered : IsOrdered tel.current_tick 0 tel.events

abbrev pub after_tick : TimerEventList → TimerEventList
after_tick tel = record {
  current_tick = (tel.current_tick + 1) % 2 ^ 50;
  events =
      rearm tel.current_tick (due tel.current_tick tel.events) (later tel.current_tick tel.events);
}

-- What is in the list after a tick, at least one tick away.
pub after_tick-IsOrdered :
    (tel : TimerEventList) → IsTimer tel → IsOrdered tel.current_tick 1 (after_tick tel).events
after_tick-IsOrdered tel t =
    let c = tel.current_tick in
    rearm-one c 0 (due c tel.events) (later c tel.events) t.tick_in
      (due-IsOrdered c 0 tel.events t.ordered) (later-one c 0 tel.events t.tick_in t.ordered)

after_tick-IsTimer : (tel : TimerEventList) → IsTimer tel → IsTimer (after_tick tel)
after_tick-IsTimer tel t = record {
  tick_in = omega arith;
  ordered = IsOrdered-tick tel.current_tick 0 _ t.tick_in (after_tick-IsOrdered tel t);
}

pub handle_timer_events_lem :
    (fuel : ℕ) (tel : TimerEventList)
    → IsTimer tel
    → length tel.events < fuel
    → (handle_timer_events fuel tel
        ≡ some (map (λ e. e.ior) (due tel.current_tick tel.events), after_tick tel))
      × IsTimer (after_tick tel)
unfolding handle_timer_events
handle_timer_events_lem fuel tel t h = (
  rw
      (
        expire_lem tel.current_tick t.tick_in fuel [] tel.events t.ordered
            (omega (arith, length-due tel.current_tick tel.events)),
        handle_timer_events,
      )
      refl,
  after_tick-IsTimer tel t,
)
