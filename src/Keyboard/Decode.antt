-- ===== src/Keyboard/Decode.antt =====
-- Keys that are pressed and released, and the events that the driver makes of their scan codes.
use homemade_os.Base.{
  ℕ, ◌+◌, ◌*◌, ◌≡◌, refl, sym, ap, ap₂, both_absurd, ◌∙◌, arith, Bool, true, false, not, ◌&&◌, ◌||◌,
  Option, none, some, List, [], ◌∷◌, ◌++◌, ◌==◌, All, Bool-cases, inl, inr,
}
use homemade_os.Keyboard.Keys.{scan1, scan_e0, print_screen, left_ctrl, num_lock}
use homemade_os.Keyboard.{ScanState, initial, KeyboardEvent, scan_code_to_key, keyboard_input}

-- A key of one of the tables and its scan code there, or Print Screen; and whether it is released.
pub data Stroke : Type 0 where
  plain extended : (key code : ℕ) → (release : Bool) → Stroke
  print : (release : Bool) → Stroke

abbrev pub released : Bool → ℕ
released true = 1
released false = 0

-- What the keyboard sends.
abbrev pub codes_of : Stroke → List ℕ
codes_of (plain key code release) = (code + released release * 128) ∷ []
codes_of (extended key code release) = 0xe0 ∷ (code + released release * 128) ∷ []
codes_of (print false) = 0xe0 ∷ 0x2a ∷ 0xe0 ∷ 0x37 ∷ []
codes_of (print true) = 0xe0 ∷ 0xb7 ∷ 0xe0 ∷ 0xaa ∷ []

abbrev pub event_of : Stroke → KeyboardEvent
event_of (plain key code release) = record { key = key; is_release = released release }
event_of (extended key code release) = record { key = key; is_release = released release }
event_of (print release) = record { key = print_screen; is_release = released release }

-- Whether a table has the key with the code.
abbrev pub has_pair : (key code : ℕ) → List (ℕ × ℕ) → Bool
has_pair key code [] = false
has_pair key code ((k, c) ∷ table) = (k == key) && (c == code) || has_pair key code table

-- The table has the key, with that code.
abbrev pub IsStroke : Stroke → Type 0
IsStroke (plain key code release) = has_pair key code scan1 ≡ true
IsStroke (extended key code release) = has_pair key code scan_e0 ≡ true
IsStroke (print release) = Unit {0}

abbrev pub all_codes : List Stroke → List ℕ
all_codes [] = []
all_codes (s ∷ strokes) = codes_of s ++ all_codes strokes

abbrev pub all_events : List Stroke → List KeyboardEvent
all_events [] = []
all_events (s ∷ strokes) = event_of s ∷ all_events strokes

-- A decision of what a code leads to, for a check over all codes.
abbrev is_initial : ScanState → Bool
is_initial s = not s.e0_flag && (s.sp0 == 0) && (s.sp1 == 0) && (s.sp2 == 0)

abbrev is_event : (key is_release : ℕ) → Option KeyboardEvent → Bool
is_event key is_release none = false
is_event key is_release (some e) = (e.key == key) && (e.is_release == is_release)

abbrev leads_to : (key is_release : ℕ) → ScanState × Option KeyboardEvent → Bool
leads_to key is_release (s, event) = is_initial s && is_event key is_release event

-- The state behind 0xe0.
abbrev behind_e0 : ScanState
behind_e0 = record { e0_flag = true; sp0 = 1; sp1 = 1; sp2 = 0 }

-- Whether a test holds of every key and its scan code in a table.
each_pair : (test : (key code : ℕ) → Bool) → List (ℕ × ℕ) → Bool
each_pair test [] = true
each_pair test ((key, code) ∷ table) = test key code && each_pair test table

each_pair-true :
    (test : (key code : ℕ) → Bool) (table : List (ℕ × ℕ)) (key code : ℕ)
    → each_pair test table ≡ true
    → has_pair key code table ≡ true
    → test key code ≡ true
unfolding each_pair
each_pair-true test [] key code each h = both_absurd h refl
each_pair-true test ((k, c) ∷ table) key code each h =
    elim (Bool-cases ((k == key) && (c == code))) [
      | inl e ↦
          let same_key : k ≡ key = ground arith in
          let same_code : c ≡ code = ground arith in
          let holds : test k c ≡ true = ground arith in sym (ap₂ test same_key same_code) ∙ holds
      | inr e ↦ each_pair-true test table key code (ground arith) (ground arith)
    ]

-- The code of a key, pressed or released, leads to the key from a state.
table_check : ScanState → (is_release key code : ℕ) → Bool
table_check s is_release key code =
    leads_to key is_release (scan_code_to_key s (code + is_release * 128))

table_checked :
    (each_pair (table_check initial 0) scan1 ≡ true)
    × (each_pair (table_check initial 1) scan1 ≡ true)
    × (each_pair (table_check behind_e0 0) scan_e0 ≡ true)
    × (each_pair (table_check behind_e0 1) scan_e0 ≡ true)
unfolding each_pair table_check scan_code_to_key
table_checked = (refl, refl, refl, refl)

leads_to-initial :
    (key is_release : ℕ) (r : ScanState × Option KeyboardEvent)
    → leads_to key is_release r ≡ true
    → r ≡ (initial, some (record { key = key; is_release = is_release }))
leads_to-initial key is_release (s, none) h = elim (Bool-cases (is_initial s)) [
  | inl e ↦ absurd (no_event e)
  | inr e ↦ ground arith
]
  where
    no_event : is_initial s ≡ true → ⊥
    no_event e = ground arith
leads_to-initial key is_release (s, some e) h = ground arith

table_lem :
    (s : ScanState) (table : List (ℕ × ℕ)) (key code : ℕ) (release : Bool)
    → each_pair (table_check s 0) table ≡ true
    → each_pair (table_check s 1) table ≡ true
    → has_pair key code table ≡ true
    → scan_code_to_key s (code + released release * 128)
      ≡ (initial, some (record { key = key; is_release = released release }))
unfolding table_check
table_lem s table key code release down up h =
    let check : table_check s (released release) key code ≡ true =
      elim release as (λ r. table_check s (released r) key code ≡ true) [
        | false ↦ each_pair-true (table_check s 0) table key code down h
        | true ↦ each_pair-true (table_check s 1) table key code up h
      ] in
    leads_to-initial key (released release) (scan_code_to_key s (code + released release * 128))
      check

plain_lem :
    (key code : ℕ) (release : Bool)
    → has_pair key code scan1 ≡ true
    → scan_code_to_key initial (code + released release * 128)
      ≡ (initial, some (event_of (plain key code release)))
plain_lem key code release h =
    table_lem initial scan1 key code release table_checked.0 table_checked.1 h

extended_lem :
    (key code : ℕ) (release : Bool)
    → has_pair key code scan_e0 ≡ true
    → scan_code_to_key behind_e0 (code + released release * 128)
      ≡ (initial, some (event_of (extended key code release)))
extended_lem key code release h =
    table_lem behind_e0 scan_e0 key code release table_checked.2 table_checked.3 h

e0_lem : scan_code_to_key initial 0xe0 ≡ (behind_e0, none)
unfolding scan_code_to_key
e0_lem = refl

-- An event in front of what else there is.
abbrev first : KeyboardEvent → List KeyboardEvent × ScanState → List KeyboardEvent × ScanState
first e (events, s) = (e ∷ events, s)

keyboard_input-stroke :
    (stroke : Stroke) (codes : List ℕ)
    → IsStroke stroke
    → keyboard_input (codes_of stroke ++ codes) initial
      ≡ first (event_of stroke) (keyboard_input codes initial)
unfolding keyboard_input scan_code_to_key
keyboard_input-stroke (plain key code release) codes h =
    rw (plain_lem key code release h, keyboard_input) refl
keyboard_input-stroke (extended key code release) codes h =
    rw (extended_lem key code release h, keyboard_input) refl
keyboard_input-stroke (print false) codes h = refl
keyboard_input-stroke (print true) codes h = refl

-- Whatever keys of the tables `scan1` and `scanE0`, and Print Screen, are pressed and released, in any order:
-- the events that `keyboardInput` writes for the scan codes that stand beside the keys in the tables are
-- those keys, each pressed or released, in that order, and the
-- state at the end is that at the beginning.
pub keyboard_input-strokes :
    (strokes : List Stroke)
    → All IsStroke strokes
    → keyboard_input (all_codes strokes) initial ≡ (all_events strokes, initial)
unfolding keyboard_input
keyboard_input-strokes [] h = refl
keyboard_input-strokes (s ∷ strokes) h =
    keyboard_input-stroke s (all_codes strokes) h.0
    ∙ ap (first (event_of s)) (keyboard_input-strokes strokes h.1)

-- The six codes of Pause: the second one is that of the left control key, which is taken at once.
pub keyboard_input-pause :
    (codes : List ℕ)
    → (keyboard_input (0xe1 ∷ 0x1d ∷ 0x45 ∷ 0xe1 ∷ 0x9d ∷ 0xc5 ∷ codes) initial).0
      ≡ record { key = left_ctrl; is_release = 0 }
        ∷ record { key = num_lock; is_release = 0 }
        ∷ record { key = left_ctrl; is_release = 1 }
        ∷ record { key = num_lock; is_release = 1 }
        ∷ (keyboard_input codes initial).0
unfolding keyboard_input scan_code_to_key
keyboard_input-pause codes = refl
