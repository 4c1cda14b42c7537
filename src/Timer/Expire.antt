-- ===== src/Timer/Expire.antt =====
-- `handleTimerEvents`: the events that are due are completed, and the others stay in order.
use homemade_os.Base.{
  ℕ, zero, suc, ◌+◌, ◌%◌, ◌^◌, ◌≤◌, ◌<◌, ◌≡◌, ◌≢◌, refl, sym, ap, ap₂, ◌∙◌, inl, inr, false, some,
  List, [], ◌∷◌, ◌++◌, map, append-nil, append_assoc, arith, length, ltb, ◌==◌, ==_iff,
  if◌then◌else◌, Bool-cases,
}
use homemade_os.Timer.{
  TimerEvent, wait_ticks, armed, insert_event, add_no_lock, expire_event, expire,
}
use homemade_os.Timer.Insert.{IsListed, IsOrdered, IsOrdered-weaken, add_no_lock-IsOrdered}

-- The events that expire at the tick `current`, and the others.
unfoldable pub due : (current : ℕ) → List TimerEvent → List TimerEvent
due current [] = []
due current (x ∷ xs) = if x.countdown_ticks == current then x ∷ due current xs else due current xs

unfoldable pub later : (current : ℕ) → List TimerEvent → List TimerEvent
later current [] = []
later current (x ∷ xs) =
    if x.countdown_ticks == current then later current xs else x ∷ later current xs

-- The periodic ones among the events that expired enter the list again, in order.
unfoldable pub rearm : (current : ℕ) → (expired rest : List TimerEvent) → List TimerEvent
rearm current [] rest = rest
rearm current (x ∷ xs) rest =
    rearm current xs
      (if ltb 0 x.tick_period then add_no_lock current x.tick_period x rest else rest)

due-insert_event :
    (current wait : ℕ) (e : TimerEvent) (es : List TimerEvent)
    → (e.countdown_ticks == current) ≡ false
    → due current (insert_event current wait e es) ≡ due current es
unfolding due insert_event
due-insert_event current wait e [] h = ground arith
due-insert_event current wait e (x ∷ xs) h = ground (arith, due-insert_event current wait e xs h)

later-insert_event :
    (current wait : ℕ) (e : TimerEvent) (es : List TimerEvent)
    → current < 2 ^ 50
    → 0 < wait
    → (e.countdown_ticks == current) ≡ false
    → later current (insert_event current wait e es)
      ≡ insert_event current wait e (later current es)
unfolding later insert_event
later-insert_event current wait e [] c w h = ground arith
later-insert_event current wait e (x ∷ xs) c w h =
    ground (arith, later-insert_event current wait e xs c w h)

-- In an ordered list with no event due at the head, none is due.
pub none_due :
    (current least : ℕ) (es : List TimerEvent)
    → current < 2 ^ 50
    → 0 < least
    → IsOrdered current least es
    → (due current es ≡ []) × (later current es ≡ es)
unfolding due later
none_due current least [] c h o = (refl, refl)
none_due current least (x ∷ xs) c h (l, w, o) =
    let r = none_due current (wait_ticks current x) xs c (omega arith) o in
    let late : (x.countdown_ticks == current) ≡ false = ground (arith, l.ticks_in) in
    rw (late, due, later) (r.0, ap (λ ys. x ∷ ys) r.1)

module _ (current : ℕ) (c : current < 2 ^ 50) where
  period_late :
      (e : TimerEvent)
      → IsListed current e
      → 0 < e.tick_period
      → ((armed current e.tick_period e).countdown_ticks == current) ≡ false
  period_late e l p =
      let ne : (current + e.tick_period) % 2 ^ 50 ≢ current = λ q. omega (arith, l.period_in) in
      ground (arith, ne)

  abbrev pub again : TimerEvent → List TimerEvent → List TimerEvent
  again e es = if ltb 0 e.tick_period then add_no_lock current e.tick_period e es else es

  due-again :
      (e : TimerEvent) (es : List TimerEvent)
      → IsListed current e
      → due current (again e es) ≡ due current es
  unfolding add_no_lock
  due-again e es l = elim (Bool-cases (ltb 0 e.tick_period)) [
    | inl periodic ↦ rw periodic (
        due-insert_event current e.tick_period (armed current e.tick_period e) es
          (period_late e l (ground arith)))
    | inr once ↦ rw once refl
  ]

  later-again :
      (e : TimerEvent) (es : List TimerEvent)
      → IsListed current e
      → later current (again e es) ≡ again e (later current es)
  unfolding add_no_lock
  later-again e es l = elim (Bool-cases (ltb 0 e.tick_period)) [
    | inl periodic ↦ rw periodic (
        later-insert_event current e.tick_period (armed current e.tick_period e) es c (ground arith)
          (period_late e l (ground arith)))
    | inr once ↦ rw once refl
  ]

  pub again-IsOrdered :
      (least : ℕ) (e : TimerEvent) (es : List TimerEvent)
      → IsListed current e
      → least ≤ 1
      → IsOrdered current least es
      → IsOrdered current least (again e es)
  again-IsOrdered least e es l h o = elim (Bool-cases (ltb 0 e.tick_period)) [
    | inl periodic ↦ rw periodic (
        add_no_lock-IsOrdered current e.tick_period least e es c l.period_in l.period_in
          (ground arith) o)
    | inr once ↦ rw once o
  ]

  expire_event-again :
      (e : TimerEvent) (es : List TimerEvent)
      → IsListed current e
      → expire_event current e es ≡ (e.ior ∷ [], again e es)
  unfolding expire_event add_no_lock
  expire_event-again e es l = rw l.not_sent refl

  -- The loop completes the events that are due, in order, and leaves the others with the periodic
  -- ones entered again.
  pub expire_lem :
      (n : ℕ) (done : List ℕ) (es : List TimerEvent)
      → IsOrdered current 0 es
      → length (due current es) < n
      → expire n done current es
        ≡ some (
          done ++ map (λ e. e.ior) (due current es),
          rearm current (due current es) (later current es),
        )
  unfolding expire due later rearm
  expire_lem zero done es o h = absurd (omega arith)
  expire_lem (suc n) done [] o h = ap (λ d. some (d, [])) (sym (append-nil done))
  expire_lem (suc n) done (e ∷ es) (l, w, o) h = elim (Bool-cases (e.countdown_ticks == current)) [
    | inl now ↦
        let at : e.countdown_ticks ≡ current = (==_iff e.countdown_ticks current).0 now in
        let ih =
          expire_lem n (done ++ (e.ior ∷ [])) (again e es)
            (again-IsOrdered 0 e es l (omega arith)
              (IsOrdered-weaken current 0 (wait_ticks current e) es (omega arith) o))
            (rw (due-again e es l) (ground arith)) in
        rw (now, expire, due, later)
          (ap (λ p. expire n (done ++ p.0) current p.1) (expire_event-again e es l)
            ∙ ih
            ∙ ap₂
                (λ ds ls. some ((done ++ (e.ior ∷ [])) ++ map (λ d. d.ior) ds, rearm current ds ls))
                (due-again e es l) (later-again e es l)
            ∙ ap (λ d. some (d, rearm current (due current es) (again e (later current es))))
                (append_assoc done (e.ior ∷ []) (map (λ d. d.ior) (due current es))))
    | inr not_yet ↦
        let none_now =
          none_due current (wait_ticks current e) (e ∷ es) c (ground (arith, l.ticks_in))
            (l, omega arith, o) in
        let kept : some (done, e ∷ es)
            ≡ some (
              done ++ map (λ d. d.ior) (due current (e ∷ es)),
              rearm current (due current (e ∷ es)) (later current (e ∷ es)),
            ) =
          sym (
            ap₂ (λ ds ls. some (done ++ map (λ d. d.ior) ds, rearm current ds ls)) none_now.0
              none_now.1
            ∙ ap (λ d. some (d, e ∷ es)) (append-nil done)) in
        let stop : expire (suc n) done current (e ∷ es) ≡ some (done, e ∷ es) =
          rw (not_yet, expire) refl in
        stop ∙ kept
  ]
