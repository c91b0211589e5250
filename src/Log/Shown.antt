-- ===== src/Log/Shown.antt =====
-- What a program writes to its error output.
use ucl_tools.Base.{
  ℕ, ◌≡◌, refl, sym, ap, ◌∙◌, inl, inr, Bool, true, false, List, [], ◌∷◌, ◌++◌, append-nil,
  append_assoc, if◌then◌else◌, Bool-cases, Text, text,
}
use ucl_tools.Log.{
  Level, debug, info, warn, error, log_of, set_verbose, set_debug, set_log_prefix, init, new,
  set_output, set_prefix, spaced_name, set_up, log_line, output, text_of, is_fatal, Logged,
  run_calls,
}

-- Whether a program shows what it logs at a level.
abbrev pub is_shown : Bool → Bool → Level → Bool
is_shown verbose debugging debug = debugging
is_shown verbose debugging info = verbose
is_shown verbose debugging warn = true
is_shown verbose debugging error = true

abbrev pub level_name : Level → Text
level_name debug = text "dbg]"
level_name info = text "info]"
level_name warn = text "warn]"
level_name error = text "err]"

-- The calls up to the first that ends the program.
abbrev pub until_fatal : List Logged → List Logged
until_fatal [] = []
until_fatal (e ∷ entries) = if is_fatal e.call then e ∷ [] else e ∷ until_fatal entries

abbrev pub has_fatal : List Logged → Bool
has_fatal [] = false
has_fatal (e ∷ entries) = if is_fatal e.call then true else has_fatal entries

module _ (verbose debugging : Bool) (name : Text) where
  -- The line of a call, if it is shown.
  abbrev pub shown_line : Logged → Text
  shown_line e =
      if is_shown verbose debugging e.level
      then log_line (text "[" ++ (spaced_name name ++ level_name e.level)) (e.header 2)
          (text_of e.call)
      else []

  abbrev pub shown_lines : List Logged → Text
  shown_lines [] = []
  shown_lines (e ∷ entries) = shown_line e ++ shown_lines entries

output-shown :
    (verbose debugging : Bool) (name : Text) (level : Level) (header : ℕ → Text) (s err : Text)
    → output (log_of (set_up verbose debugging name) level) header s err
      ≡ err
        ++ (if is_shown verbose debugging level
            then log_line (text "[" ++ (spaced_name name ++ level_name level)) (header 2) s
            else [])
unfolding output set_up init set_verbose set_debug set_log_prefix set_prefix set_output new
output-shown true true name debug header s err = refl
output-shown false true name debug header s err = refl
output-shown true false name debug header s err = sym (append-nil err)
output-shown false false name debug header s err = sym (append-nil err)
output-shown true true name info header s err = refl
output-shown true false name info header s err = refl
output-shown false true name info header s err = sym (append-nil err)
output-shown false false name info header s err = sym (append-nil err)
output-shown true true name warn header s err = refl
output-shown true false name warn header s err = refl
output-shown false true name warn header s err = refl
output-shown false false name warn header s err = refl
output-shown true true name error header s err = refl
output-shown true false name error header s err = refl
output-shown false true name error header s err = refl
output-shown false false name error header s err = refl

-- What a program writes by its calls, with the flags `-v` and `-d` and the name that it gives to its logs: in
-- order, a line for each call up to the first that ends it, if there is one, but for those of the info log
-- without `-v` and those of the debug log without `-d`; each line has the name and the level in front, then
-- the place of the call in the program itself, and one line feed at its end if the text had none. The
-- program is ended exactly if there is such a call, whether its line is shown or not.
pub run_calls-shown_lines :
    (verbose debugging : Bool) (name : Text) (entries : List Logged) (err : Text)
    → run_calls (set_up verbose debugging name) entries err
      ≡ (err ++ shown_lines verbose debugging name (until_fatal entries), has_fatal entries)
unfolding run_calls
run_calls-shown_lines verbose debugging name [] err = ap (λ x. (x, false)) (sym (append-nil err))
run_calls-shown_lines verbose debugging name (e ∷ entries) err =
    let first = output-shown verbose debugging name e.level e.header (text_of e.call) err in
    let line = shown_line verbose debugging name e in
    elim (Bool-cases (is_fatal e.call)) [
      | inl f ↦ rw (f, first, append-nil line) refl
      | inr f ↦
          rw (f, first)
            (run_calls-shown_lines verbose debugging name entries (err ++ line)
              ∙ ap (λ x. (x, has_fatal entries))
                  (append_assoc err line
                    (shown_lines verbose debugging name (until_fatal entries))))
    ]
