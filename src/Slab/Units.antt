-- ===== src/Slab/Units.antt =====
-- The units of a slab: each is in the list or handed out, and once.
use homemade_os.Base.{
  ℕ, ◌+◌, ◌-◌, ◌*◌, ◌%◌, ◌^◌, ◌≡◌, Bool, ◌&&◌, Option, none, some, List, [], ◌∷◌, ◌++◌, leb, ltb,
  ◌==◌, if◌then◌else◌, length,
}
use homemade_os.Slab.{slab_size, header_size, Slab, init_slab, allocate_unit, free_unit}

-- How often an address stands in a list.
abbrev pub occurrences : ℕ → List ℕ → ℕ
occurrences a [] = 0
occurrences a (b ∷ bs) = (if a == b then 1 else 0) + occurrences a bs

-- Whether an address is that of a unit between `start` and `end`.
abbrev pub is_unit : (start end unit a : ℕ) → Bool
is_unit start end unit a = leb start a && leb (a + unit) end && ((a - start) % unit == 0)

-- Up to `p`, which is `k` units behind `start`, the list has the units.
IsListed : (start unit k : ℕ) → List ℕ → Type 0
IsListed start unit k fl =
    (a : ℕ)
    → occurrences a fl
      ≡ (if leb start a && ltb a (start + unit * k) && ((a - start) % unit == 0) then 1 else 0)

-- What is handed out by a slab, in any order of calls; only what is handed out is given back.
pub data Reachable (slab unit : ℕ) : Slab → List ℕ → Type 0 where
  initial : {p : Slab} → init_slab slab unit ≡ some p → Reachable slab unit p []
  allocated :
      {p p' : Slab} {out : List ℕ} (a : ℕ)
      → Reachable slab unit p out
      → allocate_unit p ≡ (some a, p')
      → Reachable slab unit p' (a ∷ out)
  freed :
      {p : Slab} (front behind : List ℕ) (a : ℕ)
      → Reachable slab unit p (front ++ (a ∷ behind))
      → Reachable slab unit (free_unit a p) (front ++ behind)

-- Each unit is in the list of free units or handed out, once, and nothing else is; the count is that
-- of the units handed out, modulo 2 ^ 32.
pub record IsSlab (slab unit : ℕ) (p : Slab) (out : List ℕ) : Type 0 where
  pub units :
      (a : ℕ)
      → occurrences a p.free_list + occurrences a out
        ≡ (if is_unit (slab + header_size) (slab + slab_size) unit a then 1 else 0)
  pub used : p.used_count ≡ length out % 2 ^ 32

abbrev IsFresh : (slab unit : ℕ) → Option Slab → Type 0
IsFresh slab unit none = Unit
IsFresh slab unit (some p) = IsSlab slab unit p []
