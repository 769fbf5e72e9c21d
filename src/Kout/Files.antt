-- ===== src/Kout/Files.antt =====
-- `HandleTranslationUnit` of src/main.cpp of the repository: where the outliner writes the host code
-- and the device code.
use Prim.Native.String.{String}
use text.Mathlib.TextEquality.{eq_iff}
use neo_sycl.Prelude.{
  ◌≡◌, ◌≢◌, refl, false, Option, none, some, List, [], ◌∷◌, if◌then◌else◌, same_name, join, arith,
  Bool-cases, inl, inr, same_name_refl, join-nil, join_assoc, nil-join, ◌∙◌, ap, sym,
}
use neo_sycl.Kout.Print.{concat}

-- Where an output stream writes: `cout`, an open file, or a stream that no file was opened for,
-- which drops what it is given.
pub data Sink : Type 0 where
  standard_output not_open : Sink
  file : String → Sink

-- What was written to `cout`, and what each file holds, `none` where there is none.
pub record Written : Type 0 where
  pub cout : String
  pub files : String → Option String

abbrev pub put_file : String → String → (String → Option String) → String → Option String
put_file name text files other = if same_name other name then some text else files other

-- `fs.open(name, ios::out | ios::trunc)`.
abbrev pub open_file : String → Written → Written
open_file name w = record w { files = put_file name "" w.files }

abbrev pub appended : Option String → String → String
appended none text = text
appended (some old) text = join old text

abbrev pub write_to : Sink → String → Written → Written
write_to standard_output text w = record w { cout = join w.cout text }
write_to not_open text w = w
write_to (file name) text w = record w {
  files = put_file name (appended (w.files name) text) w.files;
}

-- The loop over `getline`, which ends each line with `endl`.
abbrev pub write_lines : Sink → List String → Written → Written
write_lines os [] w = w
write_lines os (line ∷ lines) w = write_lines os lines (write_to os (join line "\n") w)

-- `fs` after its `open`, if it is opened.
abbrev pub stream : String → Sink
stream name = if same_name name "-" then not_open else file name

abbrev pub chosen : String → Sink
chosen name = if same_name name "-" then standard_output else file name

abbrev pub open_if : String → Written → Written
open_if name w = if same_name name "-" then w else open_file name w

-- The host code: `rewritten` is the main file's text with the insertions, where there are any;
-- `input` is what reading the file `inputfile` gives.
unfoldable pub write_host :
    String → String → Option String → Option (List String) → Written → Written
write_host hfile inputfile rewritten input w =
    let w1 = open_if hfile w in
    elim rewritten [
      | some text ↦ write_to (chosen hfile) text w1
      | none ↦
          if same_name inputfile ""
          then w1
          else elim input [ none ↦ w1 | some lines ↦ write_lines (stream hfile) lines w1 ]
    ]

unfoldable pub write_device : String → String → Written → Written
write_device dfile dev w =
    if same_name dev ""
    then w
    else write_to (chosen dfile)
        (concat (
          "#define ___NEOSYCL_KERNEL_RUNTIME_ONLY___\n" ∷ "#include \"CL/sycl.hpp\"\n\n" ∷ dev
          ∷ "\n" ∷ []))
        (open_if dfile w)

unfoldable pub handle_translation_unit :
    String → String → String → Option String → Option (List String) → String → Written → Written
unfolding write_host write_device
handle_translation_unit hfile dfile inputfile rewritten input dev w =
    write_device dfile dev (write_host hfile inputfile rewritten input w)

abbrev pub unlines : List String → String
unlines [] = ""
unlines (line ∷ lines) = join (join line "\n") (unlines lines)

dropped : (lines : List String) (w : Written) → write_lines not_open lines w ≡ w
dropped [] w = refl
dropped (line ∷ lines) w = dropped lines w

written_lines :
    (name : String) (lines : List String) (w : Written) (old : String)
    → w.files name ≡ some old
    → (write_lines (file name) lines w).files name ≡ some (join old (unlines lines))
written_lines name [] w old h = h ∙ ap some (sym (join-nil old))
written_lines name (line ∷ lines) w old h =
    written_lines name lines _ (join old (join line "\n")) (rw (same_name_refl name, h) refl)
    ∙ ap some (join_assoc old (join line "\n") (unlines lines))

kept_cout :
    (name : String) (lines : List String) (w : Written)
    → (write_lines (file name) lines w).cout ≡ w.cout
kept_cout name [] w = refl
kept_cout name (line ∷ lines) w = kept_cout name lines _

-- Where nothing was rewritten and the input file can be read: standard output gets nothing; the
-- host file holds the lines of the input, each ended, if its name is not `-`; if it is, no file
-- of that name is written.
pub write_host_lem :
    (hfile inputfile : String) (lines : List String) (w : Written)
    → inputfile ≢ ""
    → ((write_host hfile inputfile none (some lines) w).cout ≡ w.cout)
      × ((write_host hfile inputfile none (some lines) w).files hfile
          ≡ (if same_name hfile "-" then w.files hfile else some (unlines lines)))
unfolding write_host
write_host_lem hfile inputfile lines w named =
    let given : same_name inputfile "" ≡ false = ground (arith, eq_iff inputfile "") in
    elim (Bool-cases (same_name hfile "-")) [
      | inl e ↦ (
        rw (given, e) (ap (λ v. v.cout) (dropped lines w)),
        rw (given, e) (ap (λ v. v.files hfile) (dropped lines w)),
      )
      | inr e ↦ (
        rw (given, e) (kept_cout hfile lines (open_file hfile w)),
        rw (given, e)
            (written_lines hfile lines (open_file hfile w) "" (rw (same_name_refl hfile) refl)
              ∙ ap some (nil-join (unlines lines))),
      )
    ]
