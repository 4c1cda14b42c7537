-- ===== src/Opened.antt =====
-- src/kernel/file/file.c, the life of an `OpenedFile`: `initOpenedFile`, `initOpenedFile2`, `setFileClosing`,
-- `addFileIOCount` and their callers `searchOpenFileList`, `_completeOpenFile`, `completeFileIO` and
-- `completeCloseFile`, as far as they count requests. `none` is an assertion that fails.
pub mod Life
mod Tests
use homemade_os.Base.{
  ℕ, zero, suc, ◌+◌, ◌-◌, ◌%◌, ◌^◌, Bool, true, false, not, ◌&&◌, ◌||◌, Option, none, some, List,
  [], ◌∷◌, ◌==◌, ltb, if◌then◌else◌,
}

-- `in_list`: whether `searchOpenFileList` finds it.
pub record OpenedFile : Type 0 where
  pub delete_on_completion : Bool
  pub io_count : ℕ
  pub in_list : Bool

unfoldable pub init_opened_file : OpenedFile
init_opened_file = record { delete_on_completion = true; io_count = 1; in_list = false }

unfoldable pub init_opened_file2 : OpenedFile → Option OpenedFile
init_opened_file2 f =
    if not (f.io_count == 1)
    then none
    else some (record f { delete_on_completion = false; in_list = true })

unfoldable pub set_file_closing : OpenedFile → Bool × OpenedFile
set_file_closing f =
    if not f.delete_on_completion && (f.io_count == 0)
    then (true, record f { delete_on_completion = true; io_count = 1 })
    else (false, f)

-- `v` is 1 or -1.
pub data Change : Type 0 where
  up down : Change

abbrev pub is_up : Change → Bool
is_up up = true
is_up down = false

abbrev pub changed : Change → (io_count : ℕ) → ℕ
changed up n = (n + 1) % 2 ^ 32
changed down n = (n + 2 ^ 32 - 1) % 2 ^ 32

-- The result, and the file unless it is deleted.
unfoldable pub add_file_io_count : Change → OpenedFile → Option (Bool × Option OpenedFile)
add_file_io_count v f =
    let sum = changed v f.io_count in
    let do_delete = f.delete_on_completion && (sum == 0) in
    let ok = not f.delete_on_completion || (sum == 0) in
    let f' = if ok then record f { io_count = sum } else f in
    if ok && not (ltb 0 f.io_count || is_up v)
    then none
    else if do_delete
    then (if ok && not (is_up v) then some (ok, none) else none)
    else some (ok, some f')

-- What is done with a file: `_completeOpenFile` before it completes the request, with success; the
-- completion of a request, that of a failed `open` included; the search of `searchOpenFileList` for a request
-- or for closing; and `completeCloseFile`.
pub data FileEvent : Type 0 where
  finish_open end_io begin_io close_file finish_close : FileEvent

abbrev pub kept : Option OpenedFile → Option (Bool × Option OpenedFile)
kept none = none
kept (some f) = some (true, some f)

abbrev pub with_closing : Bool × OpenedFile → Option (Bool × Option OpenedFile)
with_closing (ok, f) = some (ok, some f)

unfoldable pub step_opened : FileEvent → OpenedFile → Option (Bool × Option OpenedFile)
unfolding init_opened_file2 set_file_closing add_file_io_count
step_opened finish_open f = kept (init_opened_file2 f)
step_opened end_io f = add_file_io_count down f
step_opened begin_io f = if f.in_list then add_file_io_count up f else some (false, some f)
step_opened close_file f =
    if f.in_list then with_closing (set_file_closing f) else some (false, some f)
step_opened finish_close f =
    if (f.io_count == 1) && f.in_list
    then add_file_io_count down (record f { in_list = false })
    else none

-- A file that is deleted is not found; anything else is a use of freed memory.
unfoldable pub step_file : FileEvent → Option OpenedFile → Option (Bool × Option OpenedFile)
unfolding step_opened
step_file e (some f) = step_opened e f
step_file begin_io none = some (false, none)
step_file close_file none = some (false, none)
step_file finish_open none = none
step_file end_io none = none
step_file finish_close none = none

unfoldable pub run_file :
    List FileEvent → Option OpenedFile → Option (List Bool × Option OpenedFile)
run_file [] f = some ([], f)
run_file (e ∷ events) f = elim (step_file e f) [
  | none ↦ none
  | some (ok, f') ↦ elim (run_file events f') [
    | none ↦ none
    | some (oks, f'') ↦ some (ok ∷ oks, f'')
  ]
]
