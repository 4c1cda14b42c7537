-- ===== src/Tcp/Transmit/Ack.antt =====
-- `ackTransmitWindow`: an acknowledgement takes its bytes off the front of the stream.
use homemade_os.Base.{
  ℕ, zero, suc, ◌+◌, ◌-◌, ◌^◌, ◌≤◌, ◌<◌, ◌≡◌, refl, sym, ap, ◌∙◌, subst, inl, inr, true, false, min,
  some, List, [], ◌∷◌, arith, length, drop, length-drop, length-append, ltb, ◌==◌, ==_iff,
  Bool-cases, ge→ltb, lt→ltb,
}
use homemade_os.Tcp.Sequence.{add_sequence, diff_sequence}
use homemade_os.Tcp.Transmit.{
  TransmitBuffer, TransmitWindow, sequence_at, pop_transmit_buffer, ack_head, ack_buffers, ack_rest,
  ack_transmit_window,
}
use homemade_os.Tcp.Transmit.Stream.{
  all_bytes, IsChain, IsChain-first, head_offset, head_size, unacknowledged, IsSending, drop-drop,
  drop-append_past,
}

abbrev holding : TransmitWindow → List TransmitBuffer → TransmitWindow
holding w bs = record w { buffers = bs }

-- What the loop leaves of the window `v` when `n` bytes are acknowledged.
record Acknowledged (n : ℕ) (v u : TransmitWindow) : Type 0 where
  sending : IsSending u
  stream : unacknowledged u ≡ drop n (unacknowledged v)
  begin : u.sequence_begin ≡ add_sequence v.sequence_begin n
  tail : u.tail_sequence ≡ v.tail_sequence

pub ack_buffers-zero :
    (fuel : ℕ) (w : TransmitWindow) → 0 < fuel → ack_buffers fuel 0 w ≡ some (0, w)
unfolding ack_buffers
ack_buffers-zero zero w h = absurd (omega arith)
ack_buffers-zero (suc fuel) w h = ground arith

module _ (w : TransmitWindow) (b : TransmitBuffer) (bs : List TransmitBuffer) (n : ℕ)
    (s : IsSending (holding w (b ∷ bs)))
    (enough : n ≤ length (unacknowledged (holding w (b ∷ bs)))) where
  abbrev off : ℕ
  off = head_offset (holding w (b ∷ bs))

  abbrev ack_size : ℕ
  ack_size = min (b.size - off) n

  abbrev moved : TransmitWindow
  moved = record w { buffers = b ∷ bs; sequence_begin = add_sequence w.sequence_begin ack_size }

  facts :
      (w.sequence_begin ≡ add_sequence b.sequence_begin off)
      × (off ≤ b.size)
      × (b.size ≡ length b.buffer)
      × (b.size < 2 ^ 32)
  unfolding all_bytes head_size sequence_at
  facts = (
    omega (arith, s.begin_in, s.first_in),
    s.offset_in,
    sym s.chain.1,
    omega (arith, s.chain.1, s.total, length-append b.buffer (all_bytes bs)),
  )

  reached : diff_sequence moved.sequence_begin b.sequence_begin ≡ off + ack_size
  reached = let (begin, inside, size, small) = facts in omega (arith, begin, inside, small)

  -- The head is acknowledged as a whole.
  abbrev popped : TransmitWindow
  popped = pop_transmit_buffer moved bs

  popped-Acknowledged : b.size ≡ off + ack_size → Acknowledged ack_size (holding w (b ∷ bs)) popped
  unfolding pop_transmit_buffer all_bytes head_size sequence_at
  popped-Acknowledged e =
      let (begin, inside, size, small) = facts in
      let first =
        IsChain-first (add_sequence b.sequence_begin b.size) w.tail_sequence bs s.chain.2 in
      let none_off : head_offset popped ≡ 0 = omega (arith, first, begin, e, small) in
      record {
        sending = record {
          begin_in = omega arith;
          first_in = omega (arith, first);
          chain = subst (λ f. IsChain f w.tail_sequence bs) (sym first) s.chain.2;
          offset_in = omega (arith, none_off);
          total = omega (arith, s.total, length-append b.buffer (all_bytes bs));
        };
        stream =
            let whole : off + ack_size - length b.buffer ≡ 0 = omega (arith, e, size) in
            ap (λ k. drop k (all_bytes bs)) none_off
            ∙ sym (
                drop-drop ack_size off (all_bytes (b ∷ bs))
                ∙ drop-append_past b.buffer (all_bytes bs) (off + ack_size) (omega (arith, e, size))
                ∙ ap (λ k. drop k (all_bytes bs)) whole);
        begin = refl;
        tail = refl;
      }

  kept-Acknowledged : ack_size ≡ n → off + n ≤ b.size → Acknowledged n (holding w (b ∷ bs)) moved
  unfolding all_bytes head_size sequence_at
  kept-Acknowledged e h =
      let (begin, inside, size, small) = facts in
      let offset : head_offset moved ≡ off + n = omega (arith, begin, e, h, small) in
      record {
        sending = record {
          begin_in = omega arith;
          first_in = s.first_in;
          chain = s.chain;
          offset_in = omega (arith, offset);
          total = s.total;
        };
        stream =
            ap (λ k. drop k (all_bytes (b ∷ bs))) offset
            ∙ sym (drop-drop n off (all_bytes (b ∷ bs)));
        begin = ap (add_sequence w.sequence_begin) e;
        tail = refl;
      }

Acknowledged-trans :
    (n m : ℕ) (v u t : TransmitWindow)
    → Acknowledged n v u
    → Acknowledged m u t
    → Acknowledged (n + m) v t
Acknowledged-trans n m v u t a b = record {
  sending = b.sending;
  stream = b.stream ∙ ap (drop m) a.stream ∙ drop-drop m n (unacknowledged v);
  begin = b.begin ∙ ap (λ s. add_sequence s m) a.begin ∙ omega arith;
  tail = b.tail ∙ a.tail;
}

Acknowledged-zero : (v : TransmitWindow) (n : ℕ) → n ≡ 0 → IsSending v → Acknowledged n v v
Acknowledged-zero v n e s = record {
  sending = s;
  stream = ap (λ k. drop k (unacknowledged v)) (sym e);
  begin = omega (arith, e, s.begin_in);
  tail = refl;
}

nothing_left : (n : ℕ) (w : TransmitWindow) → n ≤ length (unacknowledged (holding w [])) → n ≡ 0
unfolding all_bytes
nothing_left n w l = omega (arith, l, length-drop {A = ℕ} (head_offset (holding w [])) [])

ack_buffers-Acknowledged :
    (fuel n : ℕ) (w : TransmitWindow) (bs : List TransmitBuffer)
    → IsSending (holding w bs)
    → n ≤ length (unacknowledged (holding w bs))
    → length bs < fuel
    → (u : TransmitWindow) × (ack_buffers fuel n (holding w bs) ≡ some (0, u))
      × Acknowledged n (holding w bs) u
unfolding ack_buffers ack_head pop_transmit_buffer
ack_buffers-Acknowledged zero n w bs s l h = absurd (omega arith)
ack_buffers-Acknowledged (suc fuel) n w [] s l h =
    let v : TransmitWindow = holding w [] in
    let empty : n ≡ 0 = nothing_left n w l in
    (v, ap (λ k. some (k, v)) empty, Acknowledged-zero v n empty s)
ack_buffers-Acknowledged (suc fuel) n w (b ∷ bs) s l h =
    let v : TransmitWindow = holding w (b ∷ bs) in
    let (begin, inside, size, small) = facts w b bs n s l in
    let k : ℕ = ack_size w b bs n s l in
    elim (Bool-cases (n == 0)) [
      | inl done ↦
          let empty : n ≡ 0 = (==_iff n 0).0 done in
          (v, rw (done, ack_buffers) (ap (λ k. some (k, v)) empty), Acknowledged-zero v n empty s)
      | inr some_left ↦
          elim (Bool-cases
            (b.size == diff_sequence (add_sequence w.sequence_begin k) b.sequence_begin)) [
              | inl whole ↦
                  let e : b.size ≡ off w b bs n s l + k =
                    (==_iff b.size _).0 whole ∙ reached w b bs n s l in
                  let u : TransmitWindow = popped w b bs n s l in
                  let a = popped-Acknowledged w b bs n s l e in
                  let (t, runs, rest) =
                    ack_buffers-Acknowledged fuel (n - k) u bs a.sending
                      (omega (arith, l, ap length a.stream, length-drop k (unacknowledged v)))
                      (omega arith) in
                  (
                    t,
                    rw (some_left, whole, ack_buffers, ack_head) runs,
                    subst (λ m. Acknowledged m v t) (omega arith)
                        (Acknowledged-trans k (n - k) v u t a rest),
                  )
              | inr part ↦
                  let all : k ≡ n = let at = reached w b bs n s l in ground arith in
                  let over : n - k ≡ 0 = omega arith in
                  let u : TransmitWindow = moved w b bs n s l in
                  (
                    u,
                    rw (some_left, part, ack_buffers, ack_head)
                        (ap (λ m. ack_buffers fuel m u) over
                          ∙ ack_buffers-zero fuel u (omega arith)),
                    kept-Acknowledged w b bs n s l all (omega arith),
                  )
            ]
    ]

-- An acknowledgement of at most 65535 bytes, all of them held by a valid window: on more rounds than
-- there are buffers the loop ends, the result is the number of bytes, the window begins at the
-- acknowledged number and is valid, and what it holds is what was held behind those bytes.
pub ack_transmit_window_lem :
    (fuel ack : ℕ) (w : TransmitWindow)
    → IsSending w
    → ack < 2 ^ 32
    → diff_sequence ack w.sequence_begin ≤ 65535
    → diff_sequence ack w.sequence_begin ≤ length (unacknowledged w)
    → length w.buffers < fuel
    → let n = diff_sequence ack w.sequence_begin in
      (u : TransmitWindow) × (ack_transmit_window fuel ack w ≡ some (n, u))
      × IsSending u
      × (unacknowledged u ≡ drop n (unacknowledged w))
      × (u.sequence_begin ≡ ack)
unfolding ack_transmit_window ack_rest
ack_transmit_window_lem fuel ack w s i m l h =
    let n : ℕ = diff_sequence ack w.sequence_begin in
    let (u, runs, a) = ack_buffers-Acknowledged fuel n w w.buffers s l h in
    let in_window : ltb 65535 n ≡ false = ge→ltb 65535 n m in
    (
      u,
      rw (in_window, runs, ack_transmit_window) refl,
      a.sending,
      a.stream,
      a.begin ∙ omega (arith, s.begin_in, i),
    )

-- An acknowledgement that lies behind the window's begin, by at least one byte and by less than
-- 2 ^ 32 - 65535, is a duplicate: the window stays as it is, and the result is 0.
pub ack_transmit_window-duplicate :
    (fuel ack : ℕ) (w : TransmitWindow)
    → ack < 2 ^ 32
    → w.sequence_begin < 2 ^ 32
    → 0 < diff_sequence w.sequence_begin ack
    → diff_sequence w.sequence_begin ack < 2 ^ 32 - 65535
    → ack_transmit_window fuel ack w ≡ some (0, w)
unfolding ack_transmit_window
ack_transmit_window-duplicate fuel ack w i j p q =
    let far : ltb 65535 (diff_sequence ack w.sequence_begin) ≡ true =
      lt→ltb 65535 _ (omega arith) in
    rw (far, ack_transmit_window) refl
