-- ===== src/Tcp/Receive/Copy.antt =====
-- `copyTCPReceiveWindow` as a whole.
use homemade_os.Base.{ℕ, ◌+◌, ◌≤◌, ◌<◌, ◌≡◌, ◌⊎◌, true, false, List}
use homemade_os.Tcp.Receive.{ReceiveWindow, sequence_limit}
use homemade_os.Tcp.Receive.Store.{IsWindow, slot_at, index_in, stored_at}
use homemade_os.Tcp.Receive.Extend.{KeepsShape}

-- The readable bytes lie in the window, in front of the finish if there is one, and are all there.
pub record IsFilled (v : ReceiveWindow) : Type 0 where
  pub length_in : v.sequence_length ≤ sequence_limit v
  pub limit_in : sequence_limit v ≤ v.window_size
  pub full : (off : ℕ) → off < v.sequence_length → (slot_at v off).has_data ≡ true

-- What a segment `bytes` at `seq` does to the window `v`.
pub record Copied (v : ReceiveWindow) (seq : ℕ) (bytes : List ℕ) (n : ℕ) (u : ReceiveWindow)
    : Type 0 where
  pub shape : KeepsShape v u
  pub window : IsWindow u
  pub slots :
      (off : ℕ)
      → off < v.window_size
      → slot_at u off ≡ stored_at bytes (index_in v seq off) (slot_at v off)
  pub filled : IsFilled u
  pub count : u.sequence_length ≡ v.sequence_length + n
  pub stops :
      (u.sequence_length ≡ sequence_limit v) ⊎ ((slot_at u u.sequence_length).has_data ≡ false)
