-- ===== src/Task/Ring/Pop.antt =====
-- `popQueue` takes the first task out of the circular list.
use homemade_os.Base.{
  ℕ, ◌≡◌, ◌≢◌, refl, ap, ◌∙◌, arith, true, false, Option, some, List, [], ◌∷◌, ◌++◌, ◌==◌, ==_iff,
  All,
}
use homemade_os.Task.{Links, write, set_next, set_prev, pop_ring}
use homemade_os.Task.Ring.{
  All-map₂, AllButLast, AllButLast-map, AllButLast-ne, AreTasks, Follows, Follows-init,
  Follows-same, Follows-snoc, IsRing, NotIn-last, last, write_ne, write_self,
}

-- After the writes of `popQueue` with the head `x`, the task `z` behind it and the last one `y`.
popped : (x y z : ℕ) → Links → Links
popped x y z l = record { next = write (write l.next y z) x 0; prev = write (write l.prev z y) x 0 }

popped-Follows :
    (x z : ℕ) (zs : List ℕ) (l : Links)
    → Follows l (z ∷ (zs ++ x ∷ []))
    → AreTasks (x ∷ (z ∷ zs))
    → Follows (popped x (last z zs) z l) (z ∷ (zs ++ z ∷ []))
unfolding popped
popped-Follows x z zs l f tasks =
    let y : ℕ = last z zs in
    let l' : Links = popped x y z l in
    let inside = Follows-init l z x zs f in
    let out = tasks.1 in
    let y_x : y ≢ x = NotIn-last x z zs out in
    let nexts : AllButLast (λ b. l'.next b ≡ l.next b) (z ∷ zs) =
      AllButLast-map {P = λ b. (b ≢ y) × (b ≢ x)}
        (λ b h. write_ne (write l.next y z) x 0 b h.1 ∙ write_ne l.next y z b h.0) (z ∷ zs)
        (AllButLast-ne x z zs tasks.2 out) in
    let prevs : All (λ b. l'.prev b ≡ l.prev b) zs =
      All-map₂ {P = λ b. b ≢ z} {Q = λ b. b ≢ x}
        (λ b h k. write_ne (write l.prev z y) x 0 b k ∙ write_ne l.prev z y b h) zs tasks.2.1
        out.1 in
    Follows-snoc l' z z zs (Follows-same l l' z zs nexts prevs inside.0)
      (write_ne (write l.next y z) x 0 y y_x ∙ write_self l.next y z)
      (write_ne (write l.prev z y) x 0 z out.0 ∙ write_self l.prev z y)

pop_ring-popped :
    (x z : ℕ) (l : Links)
    → x ≢ 0
    → z ≢ x
    → l.next x ≡ z
    → pop_ring x l ≡ some (x, z, popped x (l.prev x) z l)
unfolding pop_ring popped
pop_ring-popped x z l x0 zx next =
    let some_head : (x == 0) ≡ false = ground arith in
    let more : (z == x) ≡ false = ground arith in
    let here : (x == x) ≡ true = (==_iff x x).1 refl in
    let back : (x == z) ≡ false = ground arith in rw (some_head, next, more, back) refl

pop_ring-single :
    (x : ℕ) (l : Links)
    → x ≢ 0
    → l.next x ≡ x
    → l.prev x ≡ x
    → pop_ring x l ≡ some (x, 0, set_next x 0 (set_prev x 0 l))
unfolding pop_ring
pop_ring-single x l x0 next prev =
    let some_head : (x == 0) ≡ false = ground arith in
    let here : (x == x) ≡ true = (==_iff x x).1 refl in rw (some_head, next, prev, here) refl

pub pop_ring-empty : (head : ℕ) (l : Links) → head ≡ 0 → pop_ring head l ≡ some (0, head, l)
unfolding pop_ring
pop_ring-empty head l h = let e : (head == 0) ≡ true = ground arith in rw e refl

-- `popQueue` on the circular list of a queue that is not empty does not fail its assertion; it gives
-- the first task, and the circular list is that of the others.
pub pop_ring_lem :
    (head x : ℕ) (l : Links) (xs : List ℕ)
    → IsRing l head (x ∷ xs)
    → (head' : ℕ) × (l' : Links) × (pop_ring head l ≡ some (x, head', l')) × IsRing l' head' xs
pop_ring_lem head x l [] (at, f, tasks) = (
  0,
  set_next x 0 (set_prev x 0 l),
  ap (λ h. pop_ring h l) at ∙ pop_ring-single x l tasks.0 f.0 f.1,
  refl,
)
pop_ring_lem head x l (z ∷ zs) (at, f, tasks) =
    let ends = Follows-init l z x zs f.2 in
    (
      z,
      popped x (last z zs) z l,
      ap (λ h. pop_ring h l) at
          ∙ pop_ring-popped x z l tasks.0 tasks.1.0 f.0
          ∙ ap (λ y. let r : Option (ℕ × ℕ × Links) = some (x, z, popped x y z l) in r) ends.2,
      (refl, popped-Follows x z zs l f.2 tasks, tasks.2),
    )
