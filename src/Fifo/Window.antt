-- ===== src/Fifo/Window.antt =====
-- The elements that a circular buffer holds, and what a write or a read does to them.
use homemade_os.Base.{
  ℕ, zero, suc, ◌+◌, ◌-◌, ◌%◌, ◌≤◌, ◌<◌, ◌≡◌, refl, sym, ap, ap₂, ◌∙◌, List, [], ◌∷◌, ◌++◌, arith,
  length, get_or, set, get_or-set_self, get_or-set_ne, mod_ne,
}
use native.Mathlib.Nat.{mod-lt, mod-add-mod}
use homemade_os.Fifo.{Element}

-- The `n` elements from index `i` on, going round at `len`.
abbrev pub window : List Element → (len i n : ℕ) → List Element
window buf len i zero = []
window buf len i (suc n) = get_or buf (i % len) [] ∷ window buf len (i + 1) n

pub length-window : (buf : List Element) (len i n : ℕ) → length (window buf len i n) ≡ n
length-window buf len i zero = refl
length-window buf len i (suc n) = ap suc (length-window buf len (i + 1) n)

pub window_of_pos :
    (buf : List Element) (len i n : ℕ)
    → 0 < n
    → window buf len i n ≡ get_or buf (i % len) [] ∷ window buf len (i + 1) (n - 1)
window_of_pos buf len i zero h = absurd (omega arith)
window_of_pos buf len i (suc n) h =
    ap (λ m. get_or buf (i % len) [] ∷ window buf len (i + 1) m) (omega arith)

-- Only the place in the circle matters.
pub window-mod :
    (buf : List Element) (len i j n : ℕ)
    → i % len ≡ j % len
    → window buf len i n ≡ window buf len j n
window-mod buf len i j zero e = refl
window-mod buf len i j (suc n) e = ap₂ ◌∷◌ (ap (λ k. get_or buf k []) e) (
    window-mod buf len (i + 1) (j + 1) n
      (sym (mod-add-mod i len 1) ∙ ap (λ k. (k + 1) % len) e ∙ mod-add-mod j len 1))

-- Writing at the place just past a window that is not a full round extends it.
pub window-set :
    (buf : List Element) (len i n p : ℕ) (x : Element)
    → len ≤ length buf
    → n < len
    → p ≡ (i + n) % len
    → window (set buf p x) len i (suc n) ≡ window buf len i n ++ (x ∷ [])
window-set buf len i zero p x h b e =
    let at : p ≡ i % len = e ∙ ap (λ k. k % len) (omega arith) in
    rw (← at)
      (ap (λ y. y ∷ []) (get_or-set_self buf p x [] (rw e (omega (arith, mod-lt (i + 0) b)))))
window-set buf len i (suc n) p x h b e =
    ap₂ ◌∷◌
      (get_or-set_ne buf p (i % len) x [] λ c. mod_ne len i (suc n) (omega arith) b (sym c ∙ e))
      (window-set buf len (i + 1) n p x h (omega arith) (e ∙ ap (λ k. k % len) (omega arith)))
