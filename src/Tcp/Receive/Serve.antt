-- ===== src/Tcp/Receive/Serve.antt =====
-- `copyTCPReceiveBuffer` hands the readable bytes out to the readers, in order.
use Prim.Native.Nat.{◌∣◌}
use homemade_os.Base.{
  ℕ, zero, suc, ◌+◌, ◌-◌, ◌%◌, ◌^◌, ◌≤◌, ◌<◌, ◌≡◌, refl, sym, ap, ap₂, ◌∙◌, subst, inl, inr, List,
  [], ◌∷◌, arith, length, get_or, ◌==◌, ==_iff, Bool-cases, min, take, drop,
}
use native.Mathlib.Decide.{dec_lt}
use homemade_os.Tcp.Sequence.{add_sequence}
use homemade_os.Tcp.Receive.{
  no_slot, ReceiveRequest, Completion, ReceiveWindow, take_bytes, serve, sequence_limit,
}
use homemade_os.Tcp.Receive.Store.{IsWindow, slot_at}
use homemade_os.Tcp.Receive.Copy.{IsFilled}
use homemade_os.Tcp.Receive.Deliver.{
  bytes_from, readable, length-bytes_from, bytes_from-shift, Taken, take_bytes-Taken,
}

-- The specification: each reader in turn gets as many of the bytes as it has room for, until there
-- are no bytes or no readers.
pub deal : List ReceiveRequest → List ℕ → List Completion × List ℕ × List ReceiveRequest
deal [] bs = ([], bs, [])
deal (r ∷ rs) [] = ([], [], r ∷ rs)
deal (r ∷ rs) (b ∷ bs) =
    let (done, left, waiting) = deal rs (drop r.buffer_size (b ∷ bs)) in
    (record { rwfr = r.rwfr; bytes = take r.buffer_size (b ∷ bs) } ∷ done, left, waiting)

take-bytes_from :
    (v : ReceiveWindow) (off n m : ℕ) → take n (bytes_from v off m) ≡ bytes_from v off (min n m)
take-bytes_from v off zero m = let e : 0 ≡ min 0 m = omega arith in ap (bytes_from v off) e
take-bytes_from v off (suc n) zero =
    let e : 0 ≡ min (suc n) 0 = omega arith in ap (bytes_from v off) e
take-bytes_from v off (suc n) (suc m) =
    let e : suc (min n m) ≡ min (suc n) (suc m) = omega arith in
    ap (λ r. (slot_at v off).byte ∷ r) (take-bytes_from v (off + 1) n m) ∙ ap (bytes_from v off) e

drop-bytes_from :
    (v : ReceiveWindow) (off n m : ℕ) → drop n (bytes_from v off m) ≡ bytes_from v (off + n) (m - n)
drop-bytes_from v off zero m =
    let a : off ≡ off + 0 = omega arith in let b : m ≡ m - 0 = omega arith in ap₂ (bytes_from v) a b
drop-bytes_from v off (suc n) zero =
    let b : 0 ≡ 0 - suc n = omega arith in ap (bytes_from v (off + suc n)) b
drop-bytes_from v off (suc n) (suc m) =
    let a : off + 1 + n ≡ off + suc n = omega arith in
    let b : m - n ≡ suc m - suc n = omega arith in
    drop-bytes_from v (off + 1) n m ∙ ap₂ (bytes_from v) a b

-- One reader served: the window one step on.
abbrev next_window : ReceiveWindow → ℕ → ReceiveWindow
next_window v n =
    let (bytes, wi, v') = take_bytes n v v.sequence_begin in
    record v' { sequence_begin = wi; sequence_length = v'.sequence_length - n }

module _ (v : ReceiveWindow) (n : ℕ) (w : IsWindow v) (f : IsFilled v)
    (h : n ≤ v.sequence_length) where
  taken : Taken v 0 n (take_bytes n v v.sequence_begin)
  taken =
      take_bytes-Taken n 0 v v.sequence_begin w (omega (arith, f.length_in, f.limit_in))
        (omega (arith, w.begin_in))

  next-slot : (i : ℕ) → i < v.sequence_length - n → slot_at (next_window v n) i ≡ slot_at v (n + i)
  next-slot i p =
      let t = taken in
      let place : add_sequence (next_window v n).sequence_begin i
          ≡ add_sequence (take_bytes n v v.sequence_begin).2.sequence_begin (n + i) =
        omega (arith, t.stop, t.begin) in
      ap (λ s. get_or (next_window v n).buffer (s % (next_window v n).window_size) no_slot) place
      ∙ t.rest (n + i) (omega arith) (omega (arith, f.length_in, f.limit_in))

  next-IsWindow : IsWindow (next_window v n)
  next-IsWindow =
      let t = taken in
      record {
        divides = subst (λ s. s ∣ 2 ^ 32) (sym t.size) w.divides;
        positive = omega (arith, t.size, w.positive);
        bounded = omega (arith, t.size, w.bounded);
        storage = omega (arith, t.size, t.storage, w.storage);
        begin_in = omega (arith, t.stop);
      }

  next-limit :
      sequence_limit v - n ≤ sequence_limit (next_window v n)
      × (sequence_limit (next_window v n) ≤ sequence_limit v)
  unfolding sequence_limit
  next-limit =
      let t = taken in
      ground (arith, t.finish, t.finish_at, t.size, t.stop, f.length_in, w.begin_in)

  next-IsFilled : IsFilled (next_window v n)
  next-IsFilled = record {
    length_in = omega (arith, f.length_in, next-limit, taken.len);
    limit_in = omega (arith, f.limit_in, next-limit, taken.size);
    full = λ off p.
        ap (λ s. s.has_data) (next-slot off (omega (arith, taken.len, p)))
        ∙ f.full (n + off) (omega (arith, taken.len, p));
  }

  readable-next : readable (next_window v n) ≡ bytes_from v n (v.sequence_length - n)
  readable-next =
      ap (λ l. bytes_from (next_window v n) 0 (l - n)) taken.len
      ∙ bytes_from-shift (next_window v n) v 0 n (v.sequence_length - n)
          λ i p. ap (slot_at (next_window v n)) (zero_add i) ∙ next-slot i p
    where
      zero_add : (i : ℕ) → 0 + i ≡ i
      zero_add i = omega arith

abbrev completion : ReceiveRequest → List ℕ → Completion
completion r b = record { rwfr = r.rwfr; bytes = b }

abbrev deal_first :
    ReceiveRequest
    → List ℕ
    → List Completion × List ℕ × List ReceiveRequest
    → List Completion × List ℕ × List ReceiveRequest
deal_first r b p = (completion r b ∷ p.0, p.1, p.2)

deal-step :
    (r : ReceiveRequest) (rs : List ReceiveRequest) (bs : List ℕ)
    → 0 < length bs
    → deal (r ∷ rs) bs ≡ deal_first r (take r.buffer_size bs) (deal rs (drop r.buffer_size bs))
unfolding deal
deal-step r rs [] h = absurd (omega arith)
deal-step r rs (b ∷ bs) h = refl

drop-readable :
    (v : ReceiveWindow) (k : ℕ)
    → drop k (readable v)
      ≡ bytes_from v (min k v.sequence_length) (v.sequence_length - min k v.sequence_length)
drop-readable v k = drop-bytes_from v 0 k v.sequence_length ∙ elim (dec_lt v.sequence_length k) [
  | yes h ↦
      let none_left : v.sequence_length - k ≡ 0 = omega arith in
      let same : v.sequence_length - min k v.sequence_length ≡ 0 = omega arith in
      rw (none_left, same) refl
  | no h ↦
      let a : 0 + k ≡ min k v.sequence_length = omega arith in
      let b : v.sequence_length - k ≡ v.sequence_length - min k v.sequence_length = omega arith in
      ap₂ (bytes_from v) a b
]

-- What the serving loop returns, from any valid window.
pub record Served (v : ReceiveWindow) (rs : List ReceiveRequest) (total : ℕ)
    (out : ℕ × List Completion × ReceiveWindow) : Type 0 where
  pub dealt : (out.1, readable out.2, out.2.requests) ≡ deal rs (readable v)
  pub count : out.0 + out.2.sequence_length ≡ total + v.sequence_length
  pub window : IsWindow out.2
  pub filled : IsFilled out.2

pub requests-IsWindow :
    (v : ReceiveWindow) (rs : List ReceiveRequest)
    → IsWindow v
    → IsWindow (record v { requests = rs })
requests-IsWindow v rs w = record {
  divides = w.divides;
  positive = w.positive;
  bounded = w.bounded;
  storage = w.storage;
  begin_in = w.begin_in;
}

pub requests-IsFilled :
    (v : ReceiveWindow) (rs : List ReceiveRequest)
    → IsFilled v
    → IsFilled (record v { requests = rs })
unfolding sequence_limit
requests-IsFilled v rs f = record { length_in = f.length_in; limit_in = f.limit_in; full = f.full }

pub readable-requests :
    (v : ReceiveWindow) (rs : List ReceiveRequest) (o n : ℕ)
    → bytes_from (record v { requests = rs }) o n ≡ bytes_from v o n
readable-requests v rs o n = bytes_from-shift (record v { requests = rs }) v o o n (λ i p. refl)

pub serve-Served :
    (rs : List ReceiveRequest) (v : ReceiveWindow) (total : ℕ)
    → IsWindow v
    → IsFilled v
    → Served v rs total (serve rs v total)
unfolding serve deal
serve-Served [] v total w f = record {
  dealt = ap (λ l. ([], l, [])) (readable-requests v [] 0 v.sequence_length);
  count = refl;
  window = requests-IsWindow v [] w;
  filled = requests-IsFilled v [] f;
}
serve-Served (r ∷ rs) v total w f = elim (Bool-cases (v.sequence_length == 0)) [
  | inl none_left ↦
      let e : v.sequence_length ≡ 0 = (==_iff v.sequence_length 0).0 none_left in
      rw (none_left, serve)
        (record {
          dealt =
              let q : readable v ≡ [] = ap (bytes_from v 0) e in
              ap (λ l. ([], l, r ∷ rs)) (readable-requests v (r ∷ rs) 0 v.sequence_length ∙ q)
              ∙ sym (ap (deal (r ∷ rs)) q);
          count = refl;
          window = requests-IsWindow v (r ∷ rs) w;
          filled = requests-IsFilled v (r ∷ rs) f;
        })
  | inr some_left ↦
      let n : ℕ = min r.buffer_size v.sequence_length in
      let h : n ≤ v.sequence_length = omega arith in
      let ih =
        serve-Served rs (next_window v n) (total + n) (next-IsWindow v n w f h)
          (next-IsFilled v n w f h) in
      rw (some_left, serve)
        (record {
          dealt =
              ap (λ p. (completion r (take_bytes n v v.sequence_begin).0 ∷ p.0, p.1, p.2))
                (ih.dealt
                  ∙ ap (deal rs) (readable-next v n w f h ∙ sym (drop-readable v r.buffer_size)))
              ∙ ap (λ b. deal_first r b (deal rs (drop r.buffer_size (readable v))))
                  ((taken v n w f h).bytes
                    ∙ sym (take-bytes_from v 0 r.buffer_size v.sequence_length))
              ∙ sym (
                  deal-step r rs (readable v)
                    (ground (arith, length-bytes_from v 0 v.sequence_length)));
          count = omega (arith, ih.count, (taken v n w f h).len);
          window = ih.window;
          filled = ih.filled;
        })
]
