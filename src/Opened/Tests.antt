-- ===== src/Opened/Tests.antt =====
-- The life of a file with one request, and a file that cannot be opened.
use homemade_os.Base.{◌≡◌, refl, arith, true, false, some, List, [], ◌∷◌}
use homemade_os.Opened.{
  init_opened_file, FileEvent, finish_open, end_io, begin_io, close_file, finish_close, run_file,
}
use homemade_os.Opened.Life.{opening, gone, file_of, run_file-run_spec}

-- The opening, a request, a close that is refused, and the close that is not, with requests on both sides.
abbrev life : List FileEvent
life =
    begin_io ∷ finish_open ∷ begin_io ∷ end_io ∷ close_file ∷ end_io ∷ close_file ∷ begin_io
    ∷ finish_close ∷ begin_io ∷ []

run_file-run_spec_example :
    run_file life (file_of opening)
    ≡ some
        (false ∷ true ∷ true ∷ true ∷ false ∷ true ∷ true ∷ false ∷ true ∷ false ∷ [], file_of gone)
run_file-run_spec_example =
    run_file-run_spec life opening gone
      (false ∷ true ∷ true ∷ true ∷ false ∷ true ∷ true ∷ false ∷ true ∷ false ∷ []) (omega arith)
      refl

new_file : some init_opened_file ≡ file_of opening
unfolding init_opened_file
new_file = refl
