-- ===== src/Task/Ring.antt =====
-- The circular list of `pushQueue` and `popQueue`: when it is that of a queue of Lock.Queue.
pub mod Push
pub mod Pop
pub mod Calls
use homemade_os.Base.{
  ℕ, ◌≡◌, ◌≢◌, refl, sym, ap, subst, ◌∙◌, arith, true, false, Option, none, some, List, [], ◌∷◌,
  ◌++◌, ◌==◌, ==_iff, All,
}
use homemade_os.Task.{Links, write, set_next, set_prev, push_ring, pop_ring}

-- Each task of the list points to the one behind it, and back.
abbrev pub Follows : Links → List ℕ → Type 0
Follows l [] = Unit {0}
Follows l (a ∷ []) = Unit {0}
Follows l (a ∷ (b ∷ r)) = (l.next a ≡ b) × (l.prev b ≡ a) × Follows l (b ∷ r)

abbrev pub NotIn : ℕ → List ℕ → Type 0
NotIn t r = All (λ a. a ≢ t) r

abbrev pub AreTasks : List ℕ → Type 0
AreTasks [] = Unit {0}
AreTasks (a ∷ r) = (a ≢ 0) × NotIn a r × AreTasks r

-- The queue is the circular list from the head on.
abbrev pub IsRing : Links → (head : ℕ) → List ℕ → Type 0
IsRing l head [] = head ≡ 0
IsRing l head (x ∷ xs) = (head ≡ x) × Follows l (x ∷ (xs ++ x ∷ [])) × AreTasks (x ∷ xs)

abbrev last : ℕ → List ℕ → ℕ
last a [] = a
last a (b ∷ r) = last b r

last-snoc : (a z : ℕ) (r : List ℕ) → last a (r ++ z ∷ []) ≡ z
last-snoc a z [] = refl
last-snoc a z (b ∷ r) = last-snoc b z r

Follows-snoc :
    (l : Links) (a z : ℕ) (r : List ℕ)
    → Follows l (a ∷ r)
    → l.next (last a r) ≡ z
    → l.prev z ≡ last a r
    → Follows l (a ∷ (r ++ z ∷ []))
Follows-snoc l a z [] f n p = (n, p, tt)
Follows-snoc l a z (b ∷ r) f n p = (f.0, f.1, Follows-snoc l b z r f.2 n p)

Follows-init :
    (l : Links) (a z : ℕ) (r : List ℕ)
    → Follows l (a ∷ (r ++ z ∷ []))
    → Follows l (a ∷ r) × (l.next (last a r) ≡ z) × (l.prev z ≡ last a r)
Follows-init l a z [] f = (tt, f.0, f.1)
Follows-init l a z (b ∷ r) f =
    let rest = Follows-init l b z r f.2 in ((f.0, f.1, rest.0), rest.1, rest.2)

abbrev AllButLast : (ℕ → Type 0) → List ℕ → Type 0
AllButLast P [] = Unit {0}
AllButLast P (a ∷ []) = Unit {0}
AllButLast P (a ∷ (b ∷ r)) = P a × AllButLast P (b ∷ r)

-- Fields that are the same inside the list keep it.
Follows-same :
    (l l' : Links) (a : ℕ) (r : List ℕ)
    → AllButLast (λ b. l'.next b ≡ l.next b) (a ∷ r)
    → All (λ b. l'.prev b ≡ l.prev b) r
    → Follows l (a ∷ r)
    → Follows l' (a ∷ r)
Follows-same l l' a [] n p f = tt
Follows-same l l' a (b ∷ r) n p f = (n.0 ∙ f.0, p.0 ∙ f.1, Follows-same l l' b r n.1 p.1 f.2)

NotIn-last : (t b : ℕ) (r : List ℕ) → NotIn t (b ∷ r) → last b r ≢ t
NotIn-last t b [] h = h.0
NotIn-last t b (c ∷ r) h = NotIn-last t c r h.1

-- Of different tasks, none but the last is the last, or one outside.
AllButLast-ne :
    (t a : ℕ) (r : List ℕ)
    → AreTasks (a ∷ r)
    → NotIn t (a ∷ r)
    → AllButLast (λ b. (b ≢ last a r) × (b ≢ t)) (a ∷ r)
AllButLast-ne t a [] tasks out = tt
AllButLast-ne t a (b ∷ r) tasks out =
    ((λ e. NotIn-last a b r tasks.1 (sym e), out.0), AllButLast-ne t b r tasks.2 out.1)

AllButLast-map :
    {P Q : ℕ → Type 0} (h : (a : ℕ) → P a → Q a) (r : List ℕ) → AllButLast P r → AllButLast Q r
AllButLast-map h [] p = tt
AllButLast-map h (a ∷ []) p = tt
AllButLast-map h (a ∷ (b ∷ r)) p = (h a p.0, AllButLast-map h (b ∷ r) p.1)

All-map₂ :
    {P Q R : ℕ → Type 0} (h : (a : ℕ) → P a → Q a → R a) (r : List ℕ) → All P r → All Q r → All R r
All-map₂ h [] p q = tt
All-map₂ h (a ∷ r) p q = (h a p.0 q.0, All-map₂ h r p.1 q.1)

write_self : (f : ℕ → ℕ) (p v : ℕ) → write f p v p ≡ v
write_self f p v = rw ((==_iff p p).1 refl) refl

write_ne : (f : ℕ → ℕ) (p v q : ℕ) → q ≢ p → write f p v q ≡ f q
write_ne f p v q h = let e : (q == p) ≡ false = ground arith in rw e refl

AreTasks-snoc : (t : ℕ) (r : List ℕ) → t ≢ 0 → NotIn t r → AreTasks r → AreTasks (r ++ t ∷ [])
AreTasks-snoc t [] h out tasks = (h, tt, tt)
AreTasks-snoc t (a ∷ r) h out tasks =
    (tasks.0, NotIn-snoc a t r (λ e. out.0 (sym e)) tasks.1, AreTasks-snoc t r h out.1 tasks.2)
  where
    NotIn-snoc : (a t : ℕ) (r : List ℕ) → t ≢ a → NotIn a r → NotIn a (r ++ t ∷ [])
    NotIn-snoc a t [] h k = (h, tt)
    NotIn-snoc a t (b ∷ r) h k = (k.0, NotIn-snoc a t r h k.1)
