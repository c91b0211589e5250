-- ===== src/Node/Env.antt =====
-- `convertEnvVars` and `addEnvVarIfMissing`. The text comes from a JSON document, so it is valid UTF-8,
-- and walking its bytes is walking its characters: all that the code looks for is ASCII.
pub mod Total
pub mod Plain
use ucl_tools.Base.{
  ℕ, ◌+◌, Bool, true, false, not, ◌&&◌, ◌||◌, Option, none, some, List, [], ◌∷◌, ◌++◌, ltb, ◌==◌,
  if◌then◌else◌, Text, text_eq, has_prefix, length,
}

-- The variables of the loop; `in_value` is `parseType == "value"`.
pub record Scan : Type 0 where
  pub inside_single_quotes : Bool
  pub inside_double_quotes : Bool
  pub in_value : Bool
  pub env_key : Text
  pub current_segment : Text
  pub env_segments : List Text

abbrev pub initial : Scan
initial = record {
  inside_single_quotes = false;
  inside_double_quotes = false;
  in_value = false;
  env_key = [];
  current_segment = [];
  env_segments = [];
}

-- A quote toggles the flag of its kind.
abbrev pub toggle : Scan → ℕ → Scan
toggle s c =
    if c == b'"'
    then record s { inside_double_quotes = not s.inside_double_quotes }
    else if c == 39
    then record s { inside_single_quotes = not s.inside_single_quotes }
    else s

abbrev pub append_char : Scan → ℕ → Scan
append_char s c = record s { current_segment = s.current_segment ++ c ∷ [] }

-- A round of the loop, once the quotes are seen to.
unfoldable pub place : Scan → ℕ → Scan
place s c =
    if not s.inside_double_quotes && not s.inside_single_quotes
    then (if c == b'=' && not s.in_value
        then record s {
          env_key = s.current_segment ++ c ∷ [];
          current_segment = [];
          in_value = true;
        }
        else if c == b' ' && ltb 0 (length s.current_segment) && s.in_value
        then record s {
          env_segments = s.env_segments ++ (s.env_key ++ s.current_segment) ∷ [];
          current_segment = [];
          in_value = false;
          env_key = [];
        }
        else if c == b' '
        then s
        else append_char s c)
    else append_char s c

unfoldable pub scan : Scan → Text → Scan
scan s [] = s
scan s (c ∷ env) = scan (place (toggle s c) c) env

-- What stands behind the loop.
unfoldable pub finish : Scan → List Text
finish s =
    if s.in_value then s.env_segments ++ (s.env_key ++ s.current_segment) ∷ [] else s.env_segments

-- `strings.SplitN(s, "=", 2)`, if it gives two parts.
unfoldable pub split_eq : Text → Option (Text × Text)
split_eq [] = none
split_eq (c ∷ s) =
    let rest = split_eq s in
    if c == b'=' then some ([], s) else elim rest [ none ↦ none | some p ↦ some (c ∷ p.0, p.1) ]

unfoldable pub last_is : ℕ → Text → Bool
last_is c [] = false
last_is c (d ∷ []) = c == d
last_is c (d ∷ e ∷ s) = last_is c (e ∷ s)

unfoldable pub drop_last : Text → Text
drop_last [] = []
drop_last (c ∷ []) = []
drop_last (c ∷ d ∷ s) = c ∷ drop_last (d ∷ s)

-- The quotes round a value.
unfoldable pub unquote : Text → Text
unfolding last_is drop_last
unquote [] = []
unquote (c ∷ []) = c ∷ []
unquote (c ∷ d ∷ s) =
    if c == b'"' && last_is b'"' (d ∷ s) || c == 39 && last_is 39 (d ∷ s)
    then drop_last (d ∷ s)
    else c ∷ d ∷ s

-- The last loop; `none` is the panic of `parts[1]`.
unfoldable pub unquote_all : List Text → Option (List Text)
unfolding unquote split_eq
unquote_all [] = some []
unquote_all (segment ∷ segments) = elim (split_eq segment) [
  | none ↦ none
  | some p ↦ elim (unquote_all segments) [
    | none ↦ none
    | some rest ↦ some ((p.0 ++ (b'=' ∷ unquote p.1)) ∷ rest)
  ]
]

-- `convertEnvVars`.
unfoldable pub convert_env_vars : Text → Option (List Text)
unfolding unquote_all finish scan place
convert_env_vars [] = some []
convert_env_vars (c ∷ env) = unquote_all (finish (scan initial (c ∷ env)))

unfoldable pub has_var : List Text → Text → Bool
has_var [] var_name = false
has_var (e ∷ env) var_name = has_prefix e (var_name ++ b'=' ∷ []) || has_var env var_name

-- `addEnvVarIfMissing`; `value` is what the environment of the node has, empty for nothing.
unfoldable pub add_env_var_if_missing : List Text → Text → Text → List Text
unfolding has_var
add_env_var_if_missing env var_name value =
    if has_var env var_name
    then env
    else if text_eq value []
    then env
    else env ++ (var_name ++ (b'=' ∷ value)) ∷ []
