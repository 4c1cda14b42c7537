-- ===== src/Network/Checksum/Data.antt =====
-- The checksum of the data of a packet, over the pseudo header, the words and the last odd byte.
use homemade_os.Base.{
  ℕ, ◌+◌, ◌-◌, ◌*◌, ◌/◌, ◌%◌, ◌^◌, ◌≤◌, ◌<◌, ◌≡◌, refl, sym, ap, ◌∙◌, inl, inr, arith, ◌==◌,
  if◌then◌else◌, Bool-cases,
}
use homemade_os.Text.{change_endian16}
use homemade_os.Network.Bytes.{Bytes, load8, load16, store16, store16-other}
use homemade_os.Network.Checksum.{
  add_words, fold_carries, complement, calculate_pseudo_ip_header_checksum, add_last_byte,
  calculate_ip_data_checksum2,
}
use homemade_os.Network.Checksum.Complement.{
  change_endian16-lt, fold_carries-ones, complement_again, complement_zero, words, words-le,
  add_words-words, words-store16,
}

-- The padding, without the wrap.
last : (data_size : ℕ) → Bytes → ℕ
last data_size m = if data_size % 2 == 0 then 0 else change_endian16 (load8 m (data_size - 1))

last-le : (data_size : ℕ) (m : Bytes) → last data_size m ≤ 65535
unfolding last
last-le data_size m = elim (Bool-cases (data_size % 2 == 0)) [
  | inl e ↦ rw e (omega arith)
  | inr e ↦ rw e (omega (arith, change_endian16-lt (load8 m (data_size - 1))))
]

add_last_byte-last :
    (data_size : ℕ) (m : Bytes) (cs : ℕ)
    → cs + 65535 < 2 ^ 32
    → add_last_byte data_size m cs ≡ cs + last data_size m
unfolding last
add_last_byte-last data_size m cs h = elim (Bool-cases (data_size % 2 == 0)) [
  | inl e ↦ rw e (omega arith)
  | inr e ↦ rw e (omega (arith, change_endian16-lt (load8 m (data_size - 1))))
]

last-store16 :
    (data_size k v : ℕ) (m : Bytes)
    → k < data_size / 2
    → last data_size (store16 m (k * 2) v) ≡ last data_size m
unfolding last
last-store16 data_size k v m h = elim (Bool-cases (data_size % 2 == 0)) [
  | inl e ↦ rw e refl
  | inr e ↦
      let odd : data_size % 2 ≡ 1 = ground arith in
      let same = store16-other m (k * 2) (data_size - 1) v (ground arith) (ground arith) in
      rw e (ap (λ b. change_endian16 (b % 2 ^ 8)) same)
]

pseudo-le :
    (src dst protocol data_size : ℕ)
    → protocol < 2 ^ 8
    → data_size < 2 ^ 16
    → calculate_pseudo_ip_header_checksum src dst protocol data_size ≤ 4 * 65535 + 2 ^ 8 + 2 ^ 16
unfolding calculate_pseudo_ip_header_checksum
pseudo-le src dst protocol data_size p q = omega (
  arith,
  change_endian16-lt (src % 2 ^ 16),
  change_endian16-lt (src / 2 ^ 16),
  change_endian16-lt (dst % 2 ^ 16),
  change_endian16-lt (dst / 2 ^ 16),
)

-- What the loops and the padding add up to, without the wrap.
total : Bytes → (data_size src dst protocol : ℕ) → ℕ
total m data_size src dst protocol =
    calculate_pseudo_ip_header_checksum src dst protocol data_size
    + words (data_size / 2) 0 m
    + last data_size m

total-lt :
    (m : Bytes) (data_size src dst protocol : ℕ)
    → protocol < 2 ^ 8
    → data_size < 2 ^ 16
    → total m data_size src dst protocol + 65535 < 2 ^ 32
unfolding total
total-lt m data_size src dst protocol p q = omega (
  arith,
  pseudo-le src dst protocol data_size p q,
  words-le (data_size / 2) 0 m,
  last-le data_size m,
)

checksum2-total :
    (m : Bytes) (data_size src dst protocol : ℕ)
    → protocol < 2 ^ 8
    → data_size < 2 ^ 16
    → calculate_ip_data_checksum2 m data_size src dst protocol
      ≡ complement (total m data_size src dst protocol)
unfolding calculate_ip_data_checksum2 total
checksum2-total m data_size src dst protocol p q =
    let cs : ℕ = calculate_pseudo_ip_header_checksum src dst protocol data_size in
    let few = pseudo-le src dst protocol data_size p q in
    let many = words-le (data_size / 2) 0 m in
    let sum = add_words-words (data_size / 2) 0 m cs (omega arith) in
    ap complement (
      add_last_byte-last data_size m (add_words (data_size / 2) 0 m cs) (omega arith)
      ∙ ap (λ n. n + last data_size m) sum)

-- A word that is zero is replaced by `v`.
total-store16 :
    (m : Bytes) (data_size src dst protocol k v : ℕ)
    → k < data_size / 2
    → v < 2 ^ 16
    → load16 m (k * 2) ≡ 0
    → total (store16 m (k * 2) v) data_size src dst protocol
      ≡ total m data_size src dst protocol + change_endian16 v
unfolding total change_endian16
total-store16 m data_size src dst protocol k v h b z =
    let sum = words-store16 (data_size / 2) 0 k v m (omega arith) (omega arith) b in
    omega (arith, sum, z, last-store16 data_size k v m h)

-- The checksum of the data, stored in a word of the data that was zero, makes the checksum of the
-- data zero.
pub checksum2-store16 :
    (m : Bytes) (data_size src dst protocol k : ℕ)
    → protocol < 2 ^ 8
    → data_size < 2 ^ 16
    → k < data_size / 2
    → load16 m (k * 2) ≡ 0
    → calculate_ip_data_checksum2
        (store16 m (k * 2) (calculate_ip_data_checksum2 m data_size src dst protocol))
        data_size
        src
        dst
        protocol
      ≡ 0
checksum2-store16 m data_size src dst protocol k p q h z =
    let before : ℕ = total m data_size src dst protocol in
    let c : ℕ = calculate_ip_data_checksum2 m data_size src dst protocol in
    let c_is = checksum2-total m data_size src dst protocol p q in
    let small : c < 2 ^ 16 =
      omega (arith, c_is, change_endian16-lt (65535 - fold_carries 2 before)) in
    let after = total-store16 m data_size src dst protocol k c h small z in
    let low : before + 65535 < 2 ^ 32 = total-lt m data_size src dst protocol p q in
    checksum2-total (store16 m (k * 2) c) data_size src dst protocol p q
    ∙ ap complement (after ∙ ap (λ n. before + change_endian16 n) c_is)
    ∙ complement_again before low

-- Where that checksum is 0, 0xffff in its place does the same.
pub checksum2-ones :
    (m : Bytes) (data_size src dst protocol k : ℕ)
    → protocol < 2 ^ 8
    → data_size < 2 ^ 16
    → k < data_size / 2
    → load16 m (k * 2) ≡ 0
    → calculate_ip_data_checksum2 m data_size src dst protocol ≡ 0
    → calculate_ip_data_checksum2 (store16 m (k * 2) 65535) data_size src dst protocol ≡ 0
unfolding change_endian16
checksum2-ones m data_size src dst protocol k p q h z e =
    let before : ℕ = total m data_size src dst protocol in
    let low : before + 65535 < 2 ^ 32 = total-lt m data_size src dst protocol p q in
    let ones : fold_carries 2 before ≡ 65535 =
      complement_zero before low (sym (checksum2-total m data_size src dst protocol p q) ∙ e) in
    checksum2-total (store16 m (k * 2) 65535) data_size src dst protocol p q
    ∙ ap complement (total-store16 m data_size src dst protocol k 65535 h (omega arith) z)
    ∙ ap (λ n. change_endian16 (65535 - n)) (fold_carries-ones before low ones)
