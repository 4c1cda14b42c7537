-- ===== src/Fifo/Refine.antt =====
-- The functions of src/kernel/io/fifoarray.c act as the bounded queue of the elements they hold.
use homemade_os.Base.{
  ℕ, suc, ◌+◌, ◌-◌, ◌%◌, ◌^◌, ◌≤◌, ◌<◌, ◌≡◌, refl, sym, ap, ap₂, ◌∙◌, inl, inr, Bool, true, false,
  none, List, [], ◌∷◌, ◌++◌, bit_and, arith, bit_and-mask, length, length-set, get_or, ltb,
  if◌then◌else◌, Bool-cases, ltb→lt,
}
use native.Mathlib.Nat.{mod-lt, mod-mod}
use homemade_os.Fifo.Queue
use homemade_os.Fifo.Window.{window, length-window, window_of_pos, window-mod, window-set}
use homemade_os.Fifo.{
  Element, Fifo, word, mask, dequeue_buffer, buffer_location, put_item, write_locked, read_locked,
  peek_fifo,
}

-- The length is `2 ^ k`, the buffer has that many slots, and the indices are in range.
pub record IsValid (k : ℕ) (f : Fifo) : Type 0 where
  pub power : f.buffer_length ≡ 2 ^ k
  pub small : f.buffer_length ≤ 2 ^ 31
  pub storage : f.buffer_length ≤ length f.buffer
  pub begin_in : f.begin < f.buffer_length
  pub length_in : f.data_length ≤ f.buffer_length

abbrev pub contents : Fifo → List Element
contents f = window f.buffer f.buffer_length f.begin f.data_length

module _ (k : ℕ) (f : Fifo) (v : IsValid k f) where
  location : (x : ℕ) → bit_and x (mask f.buffer_length) ≡ x % f.buffer_length
  location x =
      let low : mask f.buffer_length ≡ 2 ^ k - 1 = omega (arith, v.power, v.small, v.begin_in) in
      rw (low, v.power) (bit_and-mask k x)

  buffer_location-lt : (x : ℕ) → buffer_location f x < f.buffer_length
  unfolding buffer_location
  buffer_location-lt x = rw (location x) (mod-lt x (omega (arith, v.begin_in)))

  pub put_item-IsValid : f.data_length < f.buffer_length → (x : Element) → IsValid k (put_item f x)
  unfolding put_item
  put_item-IsValid h x =
      ground (arith, v, length-set f.buffer (buffer_location f (word (f.begin + f.data_length))) x)

  pub contents-put_item :
      f.data_length < f.buffer_length
      → (x : Element) → contents (put_item f x) ≡ contents f ++ (x ∷ [])
  unfolding put_item
  contents-put_item h x =
      let sum : word (f.begin + f.data_length) ≡ f.begin + f.data_length = omega (arith, v) in
      let more : word (f.data_length + 1) ≡ suc f.data_length = omega (arith, v) in
      rw more (
        window-set f.buffer f.buffer_length f.begin f.data_length _ x v.storage h
          (location _ ∙ ap (λ n. n % f.buffer_length) sum))

  pub dequeue_buffer-IsValid : IsValid k (dequeue_buffer f)
  unfolding dequeue_buffer
  dequeue_buffer-IsValid =
      ground
        (arith, v, location (word (f.begin + 1)), mod-lt (word (f.begin + 1)) {m = f.buffer_length})

  pub contents-dequeue_buffer :
      0 < f.data_length
      → contents f ≡ get_or f.buffer (buffer_location f f.begin) [] ∷ contents (dequeue_buffer f)
  unfolding dequeue_buffer buffer_location
  contents-dequeue_buffer h =
      let next : word (f.begin + 1) ≡ f.begin + 1 = omega (arith, v) in
      let place : bit_and (word (f.begin + 1)) (mask f.buffer_length) % f.buffer_length
          ≡ (f.begin + 1) % f.buffer_length =
        rw (location (word (f.begin + 1)), next) (mod-mod (f.begin + 1) f.buffer_length) in
      window_of_pos f.buffer f.buffer_length f.begin f.data_length h
      ∙ ap₂ ◌∷◌ (ap (λ i. get_or f.buffer i []) (sym (location f.begin)))
          (window-mod f.buffer f.buffer_length _ _ (f.data_length - 1) (sym place))

  dequeue_buffer-length :
      0 < f.data_length → (dequeue_buffer f).data_length < (dequeue_buffer f).buffer_length
  unfolding dequeue_buffer
  dequeue_buffer-length h = ground (arith, v)

-- The flag and the queue of `write_locked false`, as the specification says.
module _ (k : ℕ) (f : Fifo) (x : Element) (v : IsValid k f) where
  pub write_locked_refines :
      let (r, old, f') = write_locked false f x in
      IsValid k f' × ((r, contents f') ≡ Queue.write f.buffer_length (contents f) x)
  unfolding write_locked
  write_locked_refines =
      let len = length-window f.buffer f.buffer_length f.begin f.data_length in
      elim (Bool-cases (ltb f.data_length f.buffer_length)) [
        | inl room ↦
            rw (room, len, room)
              (
                put_item-IsValid k f v (ltb→lt _ _ room) x,
                ap (λ q. (true, q)) (contents-put_item k f v (ltb→lt _ _ room) x),
              )
        | inr full ↦ rw (full, len, full) (v, refl)
      ]

  pub overwrite_locked_refines :
      let (r, old, f') = write_locked true f x in
      IsValid k f' × ((r, old, contents f') ≡ Queue.overwrite f.buffer_length (contents f) x)
  unfolding write_locked
  overwrite_locked_refines =
      let len = length-window f.buffer f.buffer_length f.begin f.data_length in
      elim (Bool-cases (ltb f.data_length f.buffer_length)) [
        | inl room ↦
            rw (room, len, room)
              (
                put_item-IsValid k f v (ltb→lt _ _ room) x,
                ap (λ q. (true, none, q)) (contents-put_item k f v (ltb→lt _ _ room) x),
              )
        | inr full ↦
            let v' = dequeue_buffer-IsValid k f v in
            let less = dequeue_buffer-length k f v (ground (arith, v)) in
            let old = contents-dequeue_buffer k f v (ground (arith, v)) in
            rw (full, len, full)
              (
                put_item-IsValid k (dequeue_buffer f) v' less x,
                rw (contents-put_item k (dequeue_buffer f) v' less x, old),
              )
      ]

-- What a read or a peek returns, and the queue that is left.
module _ (k : ℕ) (f : Fifo) (v : IsValid k f) where
  pub contents-nil : f.data_length ≡ 0 → contents f ≡ []
  contents-nil e = ap (window f.buffer f.buffer_length f.begin) e

  pub read_locked_refines :
      let (out, f') = read_locked true f in
      IsValid k f' × ((out, contents f') ≡ Queue.read (contents f))
  unfolding read_locked
  read_locked_refines = elim (Bool-cases (ltb 0 f.data_length)) [
    | inl some_left ↦
        let old = contents-dequeue_buffer k f v (ltb→lt _ _ some_left) in
        rw (some_left, old) (dequeue_buffer-IsValid k f v, refl)
    | inr empty ↦ rw (empty, contents-nil (ground arith)) (v, refl)
  ]

  pub peek_fifo_lem : peek_fifo f ≡ Queue.head? (contents f)
  unfolding peek_fifo
  peek_fifo_lem = elim (Bool-cases (ltb 0 f.data_length)) [
    | inl some_left ↦
        let old = contents-dequeue_buffer k f v (ltb→lt _ _ some_left) in
        rw (peek_fifo, some_left, old) refl
    | inr empty ↦ rw (peek_fifo, empty, contents-nil (ground arith)) refl
  ]

-- What `write_locked` does to the number of elements, and what it leaves alone.
pub write_locked_facts :
    (k : ℕ) (o : Bool) (f : Fifo) (x : Element)
    → IsValid k f
    → let (r, old, f') = write_locked o f x in
      (f'.semaphore ≡ f.semaphore)
      × (f'.buffer_length ≡ f.buffer_length)
      × (f'.data_length ≡ (if r then f.data_length + 1 else f.data_length))
unfolding write_locked
write_locked_facts k o f x v = ground (arith, v)

pub read_locked_facts :
    (o : Bool) (f : Fifo)
    → let (out, f') = read_locked o f in
      (f'.semaphore ≡ f.semaphore) × (f'.buffer_length ≡ f.buffer_length)
unfolding read_locked
read_locked_facts o f = ground arith

pub read_locked_length :
    (f : Fifo) → 0 < f.data_length → (read_locked true f).1.data_length + 1 ≡ f.data_length
unfolding read_locked
read_locked_length f h = ground arith
