-- ===== src/Network/Checksum.antt =====
-- The checksums of src/kernel/io/network/internet.c, of the header and of the data with its pseudo
-- header. An address is its `value`.
pub mod Complement
pub mod Data
use homemade_os.Base.{
  ℕ, zero, suc, ◌+◌, ◌-◌, ◌*◌, ◌/◌, ◌%◌, ◌^◌, Bool, true, false, not, leb, ◌==◌, if◌then◌else◌,
}
use homemade_os.Text.{change_endian16}
use homemade_os.Network.Bytes.{Bytes, load8, load16, load_bits}

-- The loops over the words of 16 bits, with `rounds` words left.
unfoldable pub add_words : (rounds i : ℕ) → Bytes → (cs : ℕ) → ℕ
add_words zero i m cs = cs
add_words (suc n) i m cs =
    add_words n (i + 1) m ((cs + change_endian16 (load16 m (i * 2))) % 2 ^ 32)

-- `while(cs > 0xffff)`; at most two rounds.
unfoldable pub fold_carries : (rounds cs : ℕ) → ℕ
fold_carries zero cs = cs
fold_carries (suc n) cs = if leb cs 65535 then cs else fold_carries n (cs % 2 ^ 16 + cs / 2 ^ 16)

-- `changeEndian16(cs ^ 0xffff)` behind the loop: `cs` is at most `0xffff` there.
abbrev pub complement : ℕ → ℕ
complement cs = change_endian16 (65535 - fold_carries 2 cs)

-- `headerLength` is the low half of the first byte. The size is even.
unfoldable pub get_ip_header_size : Bytes → ℕ
unfolding load_bits
get_ip_header_size h = load_bits h 0 0 4 * 4

unfoldable pub calculate_ip_header_checksum : Bytes → ℕ
unfolding add_words fold_carries get_ip_header_size
calculate_ip_header_checksum h = complement (add_words (get_ip_header_size h / 2) 0 h 0)

unfoldable pub calculate_pseudo_ip_header_checksum : (src dst protocol data_size : ℕ) → ℕ
calculate_pseudo_ip_header_checksum src dst protocol data_size =
    (change_endian16 (src % 2 ^ 16)
      + change_endian16 (src / 2 ^ 16)
      + change_endian16 (dst % 2 ^ 16)
      + change_endian16 (dst / 2 ^ 16)
      + protocol
      + data_size)
    % 2 ^ 32

-- The padding of an odd size.
abbrev pub add_last_byte : (data_size : ℕ) → Bytes → (cs : ℕ) → ℕ
add_last_byte data_size m cs =
    if not (data_size % 2 == 0)
    then (cs + change_endian16 (load8 m (data_size - 1))) % 2 ^ 32
    else cs

unfoldable pub calculate_ip_data_checksum2 : Bytes → (data_size src dst protocol : ℕ) → ℕ
unfolding add_words fold_carries calculate_pseudo_ip_header_checksum
calculate_ip_data_checksum2 m data_size src dst protocol = complement (
    add_last_byte data_size m (
      add_words (data_size / 2) 0 m
        (calculate_pseudo_ip_header_checksum src dst protocol data_size)))
