-- ===== src/Task/Ring/Push.antt =====
-- `pushQueue` puts a task at the end of the circular list.
use homemade_os.Base.{
  ℕ, ◌≡◌, ◌≢◌, refl, sym, ap, subst, ◌∙◌, arith, true, false, List, [], ◌∷◌, ◌++◌, ◌==◌, ==_iff,
  All,
}
use homemade_os.Task.{Links, write, set_next, set_prev, push_ring}
use homemade_os.Task.Ring.{
  All-map₂, AllButLast, AllButLast-map, AllButLast-ne, AreTasks, AreTasks-snoc, Follows,
  Follows-init, Follows-same, Follows-snoc, IsRing, NotIn, NotIn-last, last, last-snoc, write_ne,
  write_self,
}

-- After the writes of `pushQueue` with the last task `y` and the head `x`.
pushed : (x y t : ℕ) → Links → Links
pushed x y t l = record { next = write (write l.next t x) y t; prev = write (write l.prev t y) x t }

pushed-Follows :
    (x t : ℕ) (xs : List ℕ) (l : Links)
    → Follows l (x ∷ (xs ++ x ∷ []))
    → AreTasks (x ∷ xs)
    → NotIn t (x ∷ xs)
    → Follows (pushed x (last x xs) t l) (x ∷ ((xs ++ t ∷ []) ++ x ∷ []))
unfolding pushed
pushed-Follows x t xs l f tasks out =
    let y : ℕ = last x xs in
    let l' : Links = pushed x y t l in
    let inside = Follows-init l x x xs f in
    let t_x : t ≢ x = λ e. out.0 (sym e) in
    let y_t : y ≢ t = NotIn-last t x xs out in
    let nexts : AllButLast (λ b. l'.next b ≡ l.next b) (x ∷ xs) =
      AllButLast-map {P = λ b. (b ≢ y) × (b ≢ t)}
        (λ b h. write_ne (write l.next t x) y t b h.0 ∙ write_ne l.next t x b h.1) (x ∷ xs)
        (AllButLast-ne t x xs tasks out) in
    let prevs : All (λ b. l'.prev b ≡ l.prev b) xs =
      All-map₂ {P = λ b. b ≢ x} {Q = λ b. b ≢ t}
        (λ b h k. write_ne (write l.prev t y) x t b h ∙ write_ne l.prev t y b k) xs tasks.1 out.1 in
    let kept : Follows l' (x ∷ xs) = Follows-same l l' x xs nexts prevs inside.0 in
    let with_t : Follows l' (x ∷ (xs ++ t ∷ [])) =
      Follows-snoc l' x t xs kept (write_self (write l.next t x) y t)
        (write_ne (write l.prev t y) x t t t_x ∙ write_self l.prev t y) in
    let at : last x (xs ++ t ∷ []) ≡ t = last-snoc x t xs in
    Follows-snoc l' x x (xs ++ t ∷ []) with_t
      (ap l'.next at ∙ write_ne (write l.next t x) y t t (λ e. y_t (sym e)) ∙ write_self l.next t x)
      (write_self (write l.prev t y) x t ∙ sym at)

-- The writes of the code come to these.
push_ring-pushed :
    (x t : ℕ) (l : Links) → x ≢ 0 → t ≢ x → push_ring x t l ≡ (x, pushed x (l.prev x) t l)
unfolding push_ring pushed
push_ring-pushed x t l x0 tx =
    let some_head : (x == 0) ≡ false = ground arith in
    let here : (t == t) ≡ true = (==_iff t t).1 refl in
    let other : (t == x) ≡ false = ground arith in rw (some_head, here, other) refl

push_ring-alone :
    (head t : ℕ) (l : Links) → head ≡ 0 → push_ring head t l ≡ (t, set_next t t (set_prev t t l))
unfolding push_ring
push_ring-alone head t l h = let e : (head == 0) ≡ true = ground arith in rw e refl

-- A task that is in no queue is put at the end of the circular list.
pub push_ring_lem :
    (head t : ℕ) (l : Links) (q : List ℕ)
    → IsRing l head q
    → t ≢ 0
    → NotIn t q
    → IsRing (push_ring head t l).1 (push_ring head t l).0 (q ++ t ∷ [])
push_ring_lem head t l [] ring t0 out =
    subst (λ (r : ℕ × Links). IsRing r.1 r.0 (t ∷ [])) (sym (push_ring-alone head t l ring))
      (refl, (write_self l.next t t, write_self l.prev t t, tt), (t0, tt, tt))
push_ring_lem head t l (x ∷ xs) (at, f, tasks) t0 out =
    let ends = Follows-init l x x xs f in
    let t_x : t ≢ x = λ e. out.0 (sym e) in
    let after : push_ring head t l ≡ (x, pushed x (last x xs) t l) =
      ap (λ h. push_ring h t l) at
      ∙ push_ring-pushed x t l tasks.0 t_x
      ∙ ap (λ y. let r : ℕ × Links = (x, pushed x y t l) in r) ends.2 in
    subst (λ (r : ℕ × Links). IsRing r.1 r.0 (x ∷ (xs ++ t ∷ []))) (sym after)
      (refl, pushed-Follows x t xs l f tasks out, AreTasks-snoc t (x ∷ xs) t0 out tasks)
