-- ===== src/Node/Env/Plain.antt =====
-- `convertEnvVars` on variables without quotes.
use ucl_tools.Base.{
  ℕ, ◌<◌, ◌≡◌, refl, sym, ap, ◌∙◌, Bool, true, not, ◌&&◌, ◌||◌, some, List, [], ◌∷◌, ◌++◌, map,
  append-nil, append_assoc, arith, ◌==◌, Text, length, All,
}
use ucl_tools.Node.Env.{
  Scan, initial, toggle, place, scan, finish, split_eq, unquote, unquote_all, convert_env_vars,
}

-- Neither a quote nor a blank.
abbrev pub is_plain : ℕ → Bool
is_plain c = not (c == b'"' || c == 39 || c == b' ')

abbrev pub all_plain : Text → Bool
all_plain [] = true
all_plain (c ∷ s) = is_plain c && all_plain s

-- A name without '=' too.
abbrev pub is_name : Text → Bool
is_name [] = true
is_name (c ∷ s) = is_plain c && not (c == b'=') && is_name s

abbrev pub Var : Type 0
Var = Text × Text

abbrev pub setting : Var → Text
setting (key, value) = key ++ (b'=' ∷ value)

-- The variables, each with a blank behind it.
abbrev pub settings : List Var → Text
settings [] = []
settings ((key, value) ∷ vars) = (key ++ (b'=' ∷ value)) ++ (b' ' ∷ settings vars)

abbrev pub IsPlain : Var → Type 0
IsPlain (key, value) = (is_name key ≡ true) × (all_plain value ≡ true) × (0 < length value)

module _ (segments : List Text) where
  -- Outside of quotes, with a key or a value under way.
  abbrev keying : Text → Scan
  keying current = record initial { current_segment = current; env_segments = segments }

  abbrev valuing : Text → Text → Scan
  valuing key current = record initial {
    in_value = true;
    env_key = key;
    current_segment = current;
    env_segments = segments;
  }

  scan_key :
      (key current rest : Text)
      → is_name key ≡ true
      → scan (keying current) (key ++ (b'=' ∷ rest))
        ≡ scan (valuing ((current ++ key) ++ b'=' ∷ []) []) rest
  unfolding scan place
  scan_key [] current rest h = rw append-nil refl
  scan_key (c ∷ key) current rest h =
      let round : place (toggle (keying current) c) c ≡ keying (current ++ c ∷ []) = ground arith in
      ap (λ s. scan s (key ++ (b'=' ∷ rest))) round
      ∙ scan_key key (current ++ c ∷ []) rest (ground arith)
      ∙ ap (λ x. scan (valuing (x ++ b'=' ∷ []) []) rest) (append_assoc current (c ∷ []) key)

  scan_value :
      (value key current rest : Text)
      → all_plain value ≡ true
      → scan (valuing key current) (value ++ rest) ≡ scan (valuing key (current ++ value)) rest
  unfolding scan place
  scan_value [] key current rest h = rw append-nil refl
  scan_value (c ∷ value) key current rest h =
      let round : place (toggle (valuing key current) c) c ≡ valuing key (current ++ c ∷ []) =
        ground arith in
      ap (λ s. scan s (value ++ rest)) round
      ∙ scan_value value key (current ++ c ∷ []) rest (ground arith)
      ∙ ap (λ x. scan (valuing key x) rest) (append_assoc current (c ∷ []) value)

  -- The blank behind a value ends it, and one behind a key's '=' is passed over.
  end_value :
      (key value : Text)
      → 0 < length value
      → place (toggle (valuing key value) b' ') b' '
        ≡ record initial { env_segments = segments ++ (key ++ value) ∷ [] }
  unfolding place
  end_value key value h = ground arith

  skip_blank : (key : Text) → place (toggle (valuing key []) b' ') b' ' ≡ valuing key []
  unfolding place
  skip_blank key = refl

  read_setting :
      (key value rest : Text)
      → IsPlain (key, value)
      → scan (keying []) (setting (key, value) ++ (b' ' ∷ rest))
        ≡ scan (record initial { env_segments = segments ++ setting (key, value) ∷ [] }) rest
  unfolding scan
  read_setting key value rest h =
      ap (scan (keying [])) (append_assoc key (b'=' ∷ value) (b' ' ∷ rest))
      ∙ scan_key key [] (value ++ (b' ' ∷ rest)) h.0
      ∙ scan_value value (key ++ b'=' ∷ []) [] (b' ' ∷ rest) h.1
      ∙ ap (λ s. scan s rest) (end_value (key ++ b'=' ∷ []) value h.2)
      ∙ ap (λ x. scan (record initial { env_segments = segments ++ x ∷ [] }) rest)
          (append_assoc key (b'=' ∷ []) value)

read_settings :
    (vars : List Var) (segments : List Text)
    → All IsPlain vars
    → scan (record initial { env_segments = segments }) (settings vars)
      ≡ record initial { env_segments = segments ++ map setting vars }
read_settings [] segments h = rw append-nil (unfold scan in refl)
read_settings ((key, value) ∷ vars) segments (p, h) =
    read_setting segments key value (settings vars) p
    ∙ read_settings vars (segments ++ setting (key, value) ∷ []) h
    ∙ ap (λ x. record initial { env_segments = x })
        (append_assoc segments (setting (key, value) ∷ []) (map setting vars))

split_eq-setting :
    (key value : Text) → is_name key ≡ true → split_eq (key ++ (b'=' ∷ value)) ≡ some (key, value)
unfolding split_eq
split_eq-setting [] value h = refl
split_eq-setting (c ∷ key) value h = ground (arith, split_eq-setting key value)

unquote_plain : (value : Text) → all_plain value ≡ true → unquote value ≡ value
unfolding unquote
unquote_plain [] h = refl
unquote_plain (c ∷ []) h = refl
unquote_plain (c ∷ d ∷ value) h = ground arith

unquote_all-settings :
    (vars : List Var) → All IsPlain vars → unquote_all (map setting vars) ≡ some (map setting vars)
unfolding unquote_all
unquote_all-settings [] h = refl
unquote_all-settings ((key, value) ∷ vars) (p, h) =
    rw
      (
        unquote_all,
        split_eq-setting key value p.0,
        unquote_all-settings vars h,
        unquote_plain value p.1,
      )
      refl

all_plain-setting :
    (next value : Text)
    → is_name next ≡ true
    → all_plain value ≡ true
    → all_plain (next ++ (b'=' ∷ value)) ≡ true
all_plain-setting [] value h p = p
all_plain-setting (c ∷ next) value h p = ground (arith, all_plain-setting next value)

-- Behind the '=' of an empty value the next variable is read as the value.
scan_empty_value :
    (key value : Text)
    → is_name key ≡ true
    → all_plain value ≡ true
    → scan initial ((key ++ (b'=' ∷ b' ' ∷ [])) ++ value)
      ≡ record initial { in_value = true; env_key = key ++ b'=' ∷ []; current_segment = value }
scan_empty_value key value h p =
    ap (scan initial) (append_assoc key (b'=' ∷ b' ' ∷ []) value)
    ∙ scan_key [] key [] (b' ' ∷ value) h
    ∙ unfold scan in
      ap (λ s. scan s value) (skip_blank [] (key ++ b'=' ∷ []))
      ∙ ap (scan (valuing [] (key ++ b'=' ∷ []) [])) (sym (append-nil value))
      ∙ scan_value [] value (key ++ b'=' ∷ []) [] [] p
      ∙ unfold scan in refl

-- Variables whose names have neither quote, blank nor '=', and whose values are not empty and have
-- neither quote nor blank, each followed by a blank, are returned one by one as they stand.
pub convert_env_vars-settings :
    (vars : List Var)
    → All IsPlain vars
    → convert_env_vars (settings vars) ≡ some (map setting vars)
unfolding convert_env_vars finish
convert_env_vars-settings [] h = refl
convert_env_vars-settings (([], value) ∷ vars) h =
    rw (read_settings (([], value) ∷ vars) [] h) (unquote_all-settings (([], value) ∷ vars) h)
convert_env_vars-settings ((c ∷ key, value) ∷ vars) h =
    rw (read_settings ((c ∷ key, value) ∷ vars) [] h)
      (unquote_all-settings ((c ∷ key, value) ∷ vars) h)

-- An empty value takes in the variable that follows it: of two such variables, of which the first has
-- an empty value, one is returned.
pub convert_env_vars_empty_value :
    (c : ℕ) (key next value : Text)
    → is_name (c ∷ key) ≡ true
    → is_name next ≡ true
    → all_plain value ≡ true
    → convert_env_vars (((c ∷ key) ++ (b'=' ∷ b' ' ∷ [])) ++ setting (next, value))
      ≡ some (((c ∷ key) ++ (b'=' ∷ setting (next, value))) ∷ [])
unfolding convert_env_vars finish
convert_env_vars_empty_value c key next value h k p =
    let plain : all_plain (setting (next, value)) ≡ true = all_plain-setting next value k p in
    ap (λ s. unquote_all (finish s)) (scan_empty_value (c ∷ key) (setting (next, value)) h plain)
    ∙ ap (λ x. unquote_all (x ∷ [])) (append_assoc (c ∷ key) (b'=' ∷ []) (setting (next, value)))
    ∙ rw
        (
          unquote_all,
          split_eq-setting (c ∷ key) (setting (next, value)) h,
          unquote_plain (setting (next, value)) plain,
        )
        refl
