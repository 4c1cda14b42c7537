-- ===== src/Slab.antt =====
-- src/kernel/memory/slab.c: the slabs, each a page with a list of free units, and their manager. An
-- address is a number; the list that is threaded through the free units is a list of addresses, which is true
-- to the code where a unit has the 4 bytes of the pointer.
pub mod Units
pub mod Leak
mod Tests
use homemade_os.Base.{
  ℕ, zero, suc, ◌+◌, ◌-◌, ◌*◌, ◌%◌, ◌^◌, Bool, true, false, ◌||◌, Option, none, some, List, [], ◌∷◌,
  leb, ltb, ◌==◌, if◌then◌else◌, get_or, is_empty,
}

abbrev pub slab_size : ℕ
slab_size = 4096

-- `sizeof(Slab)`
abbrev pub header_size : ℕ
header_size = 16

-- The queue pointers are the place in the manager's lists.
pub record Slab : Type 0 where
  pub address : ℕ
  pub used_count : ℕ
  pub free_list : List ℕ

abbrev pub is_totally_free : Slab → Bool
is_totally_free p = p.used_count == 0

abbrev pub is_totally_used : Slab → Bool
is_totally_used p = is_empty p.free_list

-- The loop of `initSlab` at `p`, up to `end`; the sum is of 32 bits. `none`: out of fuel.
unfoldable pub init_units : (fuel p unit end : ℕ) → List ℕ → Option (List ℕ)
init_units zero p unit end fl = none
init_units (suc fuel) p unit end fl =
    let next = (p + unit) % 2 ^ 32 in
    let rest = init_units fuel next unit end (p ∷ fl) in if leb next end then rest else some fl

abbrev pub new_slab : (slab : ℕ) → Option (List ℕ) → Option Slab
new_slab slab none = none
new_slab slab (some fl) = some record { address = slab; used_count = 0; free_list = fl }

-- A slab has less units than bytes.
unfoldable pub init_slab : (slab unit : ℕ) → Option Slab
unfolding init_units
init_slab slab unit =
    new_slab slab
      (init_units slab_size ((slab + header_size) % 2 ^ 32) unit ((slab + slab_size) % 2 ^ 32) [])

-- The unit that is taken, and the slab.
abbrev pub take_unit : Slab → List ℕ → Option ℕ × Slab
take_unit p [] = (none, p)
take_unit p (m ∷ rest) =
    (some m, record p { used_count = (p.used_count + 1) % 2 ^ 32; free_list = rest })

unfoldable pub allocate_unit : Slab → Option ℕ × Slab
allocate_unit p = take_unit p p.free_list

-- The slab of an address.
abbrev pub slab_of : ℕ → ℕ
slab_of a = a - a % slab_size

-- On the slab of the address; the count is of 32 bits.
unfoldable pub free_unit : (address : ℕ) → Slab → Slab
free_unit address p = record p {
  used_count = (p.used_count + 2 ^ 32 - 1) % 2 ^ 32;
  free_list = address ∷ p.free_list;
}

abbrev pub slab_units : List ℕ
slab_units = 16 ∷ 32 ∷ 64 ∷ 112 ∷ 240 ∷ 496 ∷ 1008 ∷ 2032 ∷ []

-- The loop of `findSlab` at `i`; behind the last unit it panics.
abbrev pub find_from : List ℕ → (i size : ℕ) → Option ℕ
find_from [] i size = none
find_from (unit ∷ units) i size = if leb size unit then some i else find_from units (i + 1) size

abbrev pub find_slab : (size : ℕ) → Option ℕ
find_slab size = find_from slab_units 0 size

-- A slab in a list of the manager: `usableSlab[i]` is the slabs of the kind `i` in `usable`, in order,
-- and `usedSlab[i]` those in `used`.
pub record Entry : Type 0 where
  pub kind : ℕ
  pub slab : Slab

pub record SlabManager : Type 0 where
  pub usable : List Entry
  pub used : List Entry

-- The first slab of a kind, and the other entries.
abbrev pub first_of : (kind : ℕ) → List Entry → Option Slab × List Entry
first_of kind [] = (none, [])
first_of kind (e ∷ es) =
    let (found, rest) = first_of kind es in
    if e.kind == kind then (some e.slab, es) else (found, e ∷ rest)

-- `usableSlab[i]`, or a new slab where there is none; `pages` is what `allocatePages` gives.
abbrev pub or_new_slab : (i : ℕ) → (pages : Option ℕ) → Option Slab → Option Slab
or_new_slab i pages (some p) = some p
or_new_slab i none none = none
or_new_slab i (some page) none = init_slab page (get_or slab_units i 0)

-- The end of `allocateSlab`: the unit, and the slab back in its list.
abbrev pub keep_slab :
    SlabManager → (i : ℕ) → (rest : List Entry) → Option ℕ × Slab → Option ℕ × SlabManager
keep_slab m i rest (r, p) = (
  r,
  if is_totally_used p
      then record { usable = rest; used = record { kind = i; slab = p } ∷ m.used }
      else record m { usable = record { kind = i; slab = p } ∷ rest },
)

abbrev pub allocate_from :
    SlabManager → (i : ℕ) → (rest : List Entry) → Option Slab → Option ℕ × SlabManager
allocate_from m i rest none = (none, m)
allocate_from m i rest (some p) = keep_slab m i rest (allocate_unit p)

-- `pages` is the result of the call of `allocatePages`, if there is one. Outer `none`: the panic of
-- `findSlab`.
unfoldable pub allocate_slab :
    SlabManager → (size : ℕ) → (pages : Option ℕ) → Option (Option ℕ × SlabManager)
unfolding init_slab allocate_unit
allocate_slab m size pages = if leb 2032 size then some (pages, m) else elim (find_slab size) [
  | none ↦ none
  | some i ↦
      let (p, rest) = first_of i m.usable in some (allocate_from m i rest (or_new_slab i pages p))
]

-- The entries with the slab at `base` after `free_unit`, left out if all of it is free then, and whether it is.
unfoldable pub release_in : (base address : ℕ) → List Entry → Bool × List Entry
unfolding free_unit
release_in base address [] = (false, [])
release_in base address (e ∷ es) =
    let p = free_unit address e.slab in
    let (released, rest) = release_in base address es in
    if e.slab.address == base
    then (if is_totally_free p then (true, es) else (false, record e { slab = p } ∷ es))
    else (released, e ∷ rest)

-- The address that `releasePages` is called with, if it is called, and the manager. The slab stays in
-- the list where it is.
unfoldable pub release_slab : SlabManager → (address : ℕ) → Option ℕ × SlabManager
unfolding release_in
release_slab m address =
    let (released, usable) = release_in (slab_of address) address m.usable in
    let (released', used) = release_in (slab_of address) address m.used in
    if address % slab_size == 0 then (some address, m) else (
      if released || released' then some (slab_of address) else none,
      record { usable = usable; used = used },
    )
