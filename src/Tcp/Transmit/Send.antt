-- ===== src/Tcp/Transmit/Send.antt =====
-- `copyTCPTransmitBuffer`: the next bytes of the stream go out, up to the finish.
use homemade_os.Base.{
  ℕ, zero, suc, ◌+◌, ◌-◌, ◌%◌, ◌^◌, ◌≤◌, ◌<◌, ◌≡◌, refl, sym, ap, ap₂, ◌∙◌, subst, inl, inr, min,
  some, List, [], ◌∷◌, ◌++◌, append-nil, arith, length, take, drop, length-drop, length-append, ltb,
  ◌==◌, ==_iff, Bool-cases,
}
use homemade_os.Tcp.Sequence.{add_sequence, diff_sequence}
use homemade_os.Tcp.Transmit.{
  TransmitBuffer, TransmitWindow, add_transmit_sequence, copy_bytes, copy_transmit_buffer,
  get_transmit_remain_size,
}
use homemade_os.Tcp.Transmit.Stream.{all_bytes, IsChain, head_size}
use homemade_os.Tcp.Transmit.Placed.{
  IsPlaced, unsent_from, take-nil, take-zero, take-append_long, take-append_short, length-take,
  take-whole, buffer_at-cons, copy_bytes-stop,
}
use homemade_os.Tcp.Transmit.Remain.{remain-le, take-remain}

record Sent (m : ℕ) (w : TransmitWindow) (stream bytes : List ℕ) (u : TransmitWindow) : Type 0 where
  text : bytes ≡ take m stream
  number : u.current_sequence ≡ add_sequence w.current_sequence (length bytes)
  buffers : u.buffers ≡ w.buffers
  begin : u.sequence_begin ≡ w.sequence_begin

Sent-nothing :
    (m : ℕ) (w : TransmitWindow) (stream : List ℕ)
    → w.current_sequence < 2 ^ 32
    → take m stream ≡ []
    → Sent m w stream [] w
Sent-nothing m w stream h e = record {
  text = sym e;
  number = omega arith;
  buffers = refl;
  begin = refl;
}

module _ (w : TransmitWindow) (off s m : ℕ) (b : TransmitBuffer) (bs : List TransmitBuffer)
    (p : IsPlaced w off (b ∷ bs) s) where
  abbrev size : ℕ
  size = min m (b.size - diff_sequence w.current_sequence b.sequence_begin)

  place_facts :
      (diff_sequence w.current_sequence b.sequence_begin ≡ off)
      × (off ≤ b.size)
      × (length b.buffer ≡ b.size)
      × (b.size < 2 ^ 32)
      × (b.sequence_begin ≡ s)
      × (length (all_bytes (b ∷ bs)) ≡ b.size + length (all_bytes bs))
  unfolding all_bytes head_size
  place_facts =
      let joined = length-append b.buffer (all_bytes bs) in
      let first = p.chain.0 in
      let l = p.chain.1 in
      let small : b.size < 2 ^ 32 = omega (arith, l, joined, p.total) in
      let inside : off ≤ b.size = p.offset_in in
      (
        omega (arith, p.number, first, small, inside, p.first_in),
        inside,
        l,
        small,
        first,
        omega (arith, l, joined),
      )

  reached : diff_sequence (add_sequence w.current_sequence size) b.sequence_begin ≡ off + size
  reached =
      let (co, inside, l, small, first, joined) = place_facts in
      omega (arith, co, inside, small, first, p.number, p.first_in)

  abbrev chunk : List ℕ
  chunk = take size (drop (diff_sequence w.current_sequence b.sequence_begin) b.buffer)

  next-IsPlaced :
      b.size ≡ off + size
      → (u : TransmitWindow) → u.buffers ≡ w.buffers
      → u.tail_sequence ≡ w.tail_sequence
      → u.current ≡ w.current + 1
      → u.current_sequence ≡ add_sequence w.current_sequence size
      → IsPlaced u 0 bs (add_sequence s b.size)
  unfolding all_bytes
  next-IsPlaced e u same tail at seq =
      let (co, inside, l, small, first, joined) = place_facts in
      record {
        place = ap₂ drop at same ∙ (buffer_at-cons w.buffers w.current b bs p.place).1;
        first_in = omega arith;
        chain = subst (λ t. IsChain (add_sequence s b.size) t bs) (sym tail) p.chain.2;
        number = omega (arith, seq, p.number, e, small);
        offset_in = omega arith;
        total = omega (arith, joined, p.total);
      }

  chunk_whole : b.size ≡ off + size → chunk ≡ drop off b.buffer
  chunk_whole e =
      let (co, inside, l, small, first, joined) = place_facts in
      take-whole size _ (
        omega (
          arith,
          e,
          co,
          l,
          length-drop (diff_sequence w.current_sequence b.sequence_begin) b.buffer,
        ))
      ∙ ap (λ o. drop o b.buffer) co

  chunk_part : (stream : List ℕ) → size ≡ m → chunk ≡ take m (drop off b.buffer ++ stream)
  chunk_part stream e =
      let (co, inside, l, small, first, joined) = place_facts in
      ap₂ (λ k o. take k (drop o b.buffer)) e co
      ∙ sym (
          take-append_short m (drop off b.buffer) stream
            (omega (arith, e, co, l, length-drop off b.buffer)))

  length-chunk : length chunk ≡ size
  length-chunk =
      let (co, inside, l, small, first, joined) = place_facts in
      let o : ℕ = diff_sequence w.current_sequence b.sequence_begin in
      length-take size (drop o b.buffer) (omega (arith, co, l, length-drop o b.buffer))

copy_bytes-Sent :
    (fuel limit offset off s : ℕ) (w : TransmitWindow) (rest : List TransmitBuffer)
    → IsPlaced w off rest s
    → limit - offset ≤ length (all_bytes rest) - off
    → length rest < fuel
    → (bytes : List ℕ) × (u : TransmitWindow) × (copy_bytes fuel limit offset w ≡ some (bytes, u))
      × Sent (limit - offset) w (unsent_from off rest) bytes u
unfolding copy_bytes all_bytes unsent_from add_transmit_sequence
copy_bytes-Sent zero limit offset off s w rest p l h = absurd (omega arith)
copy_bytes-Sent (suc fuel) limit offset off s w [] p l h = (
  [],
  w,
  copy_bytes-stop (suc fuel) limit offset w (omega arith) (omega arith),
  Sent-nothing (limit - offset) w [] (omega (arith, p.number)) (take-nil (limit - offset)),
)
copy_bytes-Sent (suc fuel) limit offset off s w (b ∷ bs) p l h =
    let m : ℕ = limit - offset in
    let stream : List ℕ = unsent_from off (b ∷ bs) in
    let bounded : w.current_sequence < 2 ^ 32 = omega (arith, p.number) in
    let (co, inside, lb, small, first, joined) = place_facts w off s m b bs p in
    let k : ℕ = size w off s m b bs p in
    let (at, after) = buffer_at-cons w.buffers w.current b bs p.place in
    elim (Bool-cases (ltb offset limit)) [
      | inr enough ↦
          let le : limit ≤ offset = ground arith in
          (
            [],
            w,
            copy_bytes-stop (suc fuel) limit offset w (omega arith) le,
            Sent-nothing m w stream bounded (take-zero m stream (omega arith)),
          )
      | inl more ↦ elim (Bool-cases b.is_fin) [
        | inl fin ↦ (
          [],
          w,
          rw (at, more, fin, copy_bytes) refl,
          Sent-nothing m w stream bounded (rw (fin, unsent_from) (take-nil m)),
        )
        | inr not_fin ↦
            let u : TransmitWindow = add_transmit_sequence w b k in
            elim (Bool-cases
              (b.size == diff_sequence (add_sequence w.current_sequence k) b.sequence_begin)) [
                | inl whole ↦
                    let e : b.size ≡ off + k =
                      (==_iff b.size _).0 whole ∙ reached w off s m b bs p in
                    let q =
                      next-IsPlaced w off s m b bs p e u refl refl
                        (rw (whole, add_transmit_sequence) refl) refl in
                    let (bytes, t, runs, sent) =
                      copy_bytes-Sent fuel limit (offset + k) 0 (add_sequence s b.size) u bs q
                        (omega (arith, l, joined, e)) (omega arith) in
                    let tail_text : bytes
                        ≡ take (m - length (drop off b.buffer)) (unsent_from 0 bs) =
                      sent.text
                      ∙ ap (λ n. take n (unsent_from 0 bs))
                          (omega (arith, e, lb, length-drop off b.buffer)) in
                    (
                      chunk w off s m b bs p ++ bytes,
                      t,
                      rw (at, more, not_fin, copy_bytes, runs) refl,
                      record {
                        text =
                            ap₂ ◌++◌ (chunk_whole w off s m b bs p e) tail_text
                            ∙ sym (
                                take-append_long m (drop off b.buffer) (unsent_from 0 bs)
                                  (omega (arith, e, lb, length-drop off b.buffer)))
                            ∙ ap (take m) (sym (rw (not_fin, unsent_from) refl));
                        number =
                            sent.number
                            ∙ (let n = length-chunk w off s m b bs p in
                                let sum = length-append (chunk w off s m b bs p) bytes in
                                omega (arith, n, sum));
                        buffers = sent.buffers;
                        begin = sent.begin;
                      },
                    )
                | inr part ↦
                    let at_end = reached w off s m b bs p in
                    let all : k ≡ m = ground (arith, co, inside) in
                    let n = length-chunk w off s m b bs p in
                    let stop =
                      copy_bytes-stop fuel limit (offset + k) u (omega arith) (omega arith) in
                    (
                      chunk w off s m b bs p ++ [],
                      u,
                      rw (at, more, not_fin, copy_bytes, stop) refl,
                      record {
                        text =
                            append-nil (chunk w off s m b bs p)
                            ∙ chunk_part w off s m b bs p (unsent_from 0 bs) all
                            ∙ ap (take m) (sym (rw (not_fin, unsent_from) refl));
                        number =
                            ap (add_sequence w.current_sequence) (sym n)
                            ∙ ap (λ (xs : List ℕ). add_sequence w.current_sequence (length xs))
                                (sym (append-nil (chunk w off s m b bs p)));
                        buffers = refl;
                        begin = refl;
                      },
                    )
              ]
      ]
    ]

-- The next packet of a window whose place to send next is valid, `off` bytes into the buffers `rest`:
-- on more rounds than these buffers the copy ends and never goes on at the sentinel; it takes the next
-- bytes of the stream up to the finish, as many as the packet, the segment size and what is left of the
-- remote window allow, which is its scaled size less the bytes from its begin to the next number; that
-- number moves on by the bytes taken, and the buffers and the window's begin stay.
pub copy_transmit_buffer_lem :
    (fuel buffer_size off s : ℕ) (w : TransmitWindow) (rest : List TransmitBuffer)
    → IsPlaced w off rest s
    → length rest < fuel
    → let allowed =
        w.scaled_window_size - (w.current_sequence + 2 ^ 32 - w.sequence_begin) % 2 ^ 32 in
      let m = min (min allowed buffer_size) w.max_segment_size in
      (bytes : List ℕ) × (u : TransmitWindow) × (copy_transmit_buffer fuel w buffer_size
        ≡ some (bytes, u))
      × (bytes ≡ take m (unsent_from off rest))
      × (u.current_sequence ≡ add_sequence w.current_sequence (length bytes))
      × (u.buffers ≡ w.buffers)
      × (u.sequence_begin ≡ w.sequence_begin)
unfolding copy_transmit_buffer
copy_transmit_buffer_lem fuel buffer_size off s w rest p h =
    let m : ℕ = min (min (get_transmit_remain_size w) buffer_size) w.max_segment_size in
    let (bytes, u, runs, sent) =
      copy_bytes-Sent fuel m 0 off s w rest p (omega (arith, remain-le w off s rest p)) h in
    let none_yet : m - 0 ≡ m = omega arith in
    (
      bytes,
      u,
      runs,
      sent.text
          ∙ ap (λ n. take n (unsent_from off rest)) none_yet
          ∙ take-remain w off s rest buffer_size p,
      sent.number,
      sent.buffers,
      sent.begin,
    )
