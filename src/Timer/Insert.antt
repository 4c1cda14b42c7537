-- ===== src/Timer/Insert.antt =====
-- The order of the list of src/kernel/io/timer.c, and what `addTimerEvent_noLock` keeps of it.
use homemade_os.Base.{
  ℕ, ◌^◌, ◌≤◌, ◌<◌, ◌≡◌, refl, inl, inr, false, List, [], ◌∷◌, arith, leb, Bool-cases, leb→le,
}
use homemade_os.Timer.{TimerEvent, wait_ticks, armed, insert_event, add_no_lock}

-- An event of the list: its ticks are in range, and it is not sent.
pub record IsListed (current : ℕ) (e : TimerEvent) : Type 0 where
  pub ticks_in : e.countdown_ticks < 2 ^ 50
  pub period_in : e.tick_period < 2 ^ 50
  pub not_sent : e.is_sent_to_task ≡ false

-- Every event of the list is listed, and expires at `least` ticks from now or later, in order.
abbrev pub IsOrdered : (current least : ℕ) → List TimerEvent → Type 0
IsOrdered current least [] = Unit
IsOrdered current least (x ∷ xs) =
    IsListed current x
    × (least ≤ wait_ticks current x)
    × IsOrdered current (wait_ticks current x) xs

pub IsOrdered-weaken :
    (current a b : ℕ) (es : List TimerEvent)
    → a ≤ b
    → IsOrdered current b es
    → IsOrdered current a es
IsOrdered-weaken current a b [] h o = tt
IsOrdered-weaken current a b (x ∷ xs) h (l, m, o) = (l, omega arith, o)

pub armed-wait :
    (current wait : ℕ) (e : TimerEvent)
    → current < 2 ^ 50
    → wait < 2 ^ 50
    → wait_ticks current (armed current wait e) ≡ wait
armed-wait current wait e h k = omega arith

pub insert_event-IsOrdered :
    (current wait least : ℕ) (e : TimerEvent) (es : List TimerEvent)
    → IsListed current e
    → wait_ticks current e ≡ wait
    → least ≤ wait
    → IsOrdered current least es
    → IsOrdered current least (insert_event current wait e es)
unfolding insert_event
insert_event-IsOrdered current wait least e [] l w h o = (l, omega arith, tt)
insert_event-IsOrdered current wait least e (x ∷ xs) l w h (lx, hx, o) =
    elim (Bool-cases (leb wait (wait_ticks current x))) [
      | inl before ↦
          rw (before, insert_event)
            (l, omega arith, (lx, omega (arith, w, leb→le wait (wait_ticks current x) before), o))
      | inr after ↦
          let less : wait_ticks current x ≤ wait = ground arith in
          rw (after, insert_event)
            (lx, hx, insert_event-IsOrdered current wait (wait_ticks current x) e xs l w less o)
    ]

pub add_no_lock-IsOrdered :
    (current wait least : ℕ) (e : TimerEvent) (es : List TimerEvent)
    → current < 2 ^ 50
    → wait < 2 ^ 50
    → e.tick_period < 2 ^ 50
    → least ≤ wait
    → IsOrdered current least es
    → IsOrdered current least (add_no_lock current wait e es)
unfolding add_no_lock
add_no_lock-IsOrdered current wait least e es c w p h o =
    insert_event-IsOrdered current wait least (armed current wait e) es
      (record { ticks_in = omega arith; period_in = p; not_sent = refl })
      (armed-wait current wait e c w) h o
