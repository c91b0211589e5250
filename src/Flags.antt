-- ===== src/Flags.antt =====
-- How Go's package `flag` takes a command line apart, for the programs that use it. A setting is a flag
-- with its value, in the order of the line; a flag that is not defined, or lacks its value, ends the program.
use ucl_tools.Base.{
  Bool, not, ◌||◌, Option, none, some, List, [], ◌∷◌, ◌==◌, if◌then◌else◌, Text, text, text_eq,
}
use ucl_tools.Node.Env.{split_eq}

-- What the next argument is.
pub data Token : Type 0 where
  operand terminator bad_syntax : Token
  flag_token : Text → Option Text → Token

-- A name, behind its one or two '-', and perhaps a value behind '='.
unfoldable pub named_token : Text → Token
unfolding split_eq
named_token [] = bad_syntax
named_token (c ∷ s) = if c == b'-' || c == b'=' then bad_syntax else elim (split_eq s) [
  | none ↦ flag_token (c ∷ s) none
  | some p ↦ flag_token (c ∷ p.0) (some p.1)
]

unfoldable pub token_of : Text → Token
unfolding named_token
token_of [] = operand
token_of (c ∷ []) = operand
token_of (c ∷ d ∷ s) =
    if not (c == b'-')
    then operand
    else if not (d == b'-')
    then named_token (d ∷ s)
    else elim s [ [] ↦ terminator | e ∷ rest ↦ named_token (e ∷ rest) ]

-- The kinds of flags that a program defines.
pub data Kind : Type 0 where
  boolean valued : Kind

-- What is read: the settings and the arguments behind the flags, or the program ends.
pub data Parsed : Type 0 where
  parsed : List (Text × Text) → List Text → Parsed
  exits : Parsed

abbrev pub with_setting : Text → Text → Parsed → Parsed
with_setting name value (parsed settings args) = parsed ((name, value) ∷ settings) args
with_setting name value exits = exits

-- The values that `strconv.ParseBool` takes.
unfoldable pub is_bool_value : Text → Bool
is_bool_value s =
    text_eq s (text "true")
    || text_eq s (text "false")
    || text_eq s (text "1")
    || text_eq s (text "0")
    || text_eq s (text "t")
    || text_eq s (text "f")
    || text_eq s (text "T")
    || text_eq s (text "F")
    || text_eq s (text "TRUE")
    || text_eq s (text "FALSE")
    || text_eq s (text "True")
    || text_eq s (text "False")

-- A flag with the value that stands behind its '=', and the arguments after it.
abbrev pub set_value : Text → Kind → Text → Parsed → Parsed
set_value name boolean value rest =
    if is_bool_value value then with_setting name value rest else exits
set_value name valued value rest = with_setting name value rest

-- A flag without '=' and with an argument behind it.
abbrev pub set_next : Text → Kind → Text → Parsed → Parsed → Parsed
set_next name boolean value from_value behind_value = with_setting name (text "true") from_value
set_next name valued value from_value behind_value = with_setting name value behind_value

abbrev pub set_last : Text → Kind → Parsed
set_last name boolean = parsed ((name, text "true") ∷ []) []
set_last name valued = exits

-- `flag.Parse`; `defined` has the flags of the program.
unfoldable pub parse_flags : (Text → Option Kind) → List Text → Parsed
parse_flags defined [] = parsed [] []
parse_flags defined (s ∷ []) = elim (token_of s) [
  | operand ↦ parsed [] (s ∷ [])
  | terminator ↦ parsed [] []
  | bad_syntax ↦ exits
  | flag_token name given ↦ elim (defined name) [
    | none ↦ exits
    | some kind ↦ elim given [
      | none ↦ set_last name kind
      | some value ↦ set_value name kind value (parsed [] [])
    ]
  ]
]
parse_flags defined (s ∷ next ∷ rest) =
    let from_next = parse_flags defined (next ∷ rest) in
    let behind_next = parse_flags defined rest in
    elim (token_of s) [
      | operand ↦ parsed [] (s ∷ next ∷ rest)
      | terminator ↦ parsed [] (next ∷ rest)
      | bad_syntax ↦ exits
      | flag_token name given ↦ elim (defined name) [
        | none ↦ exits
        | some kind ↦ elim given [
          | none ↦ set_next name kind next from_next behind_next
          | some value ↦ set_value name kind value from_next
        ]
      ]
    ]

-- The value of a flag: the last one that was set, or its default.
unfoldable pub value_of : Text → Text → List (Text × Text) → Text
value_of name value [] = value
value_of name value ((k, v) ∷ settings) =
    value_of name (if text_eq k name then v else value) settings

-- All values of a flag that collects them.
unfoldable pub values_of : Text → List (Text × Text) → List Text
values_of name [] = []
values_of name ((k, v) ∷ settings) =
    let rest = values_of name settings in if text_eq k name then v ∷ rest else rest
