-- ===== src/Sender/Run/Parse.antt =====
-- The flags of wl-send on the arguments that a node gives to it.
use ucl_tools.Base.{◌≡◌, refl, ap, ◌∙◌, List, [], ◌∷◌, ◌++◌, map, text, text_eq, Text, itoa}
use ucl_tools.Flags.{
  operand, parsed, parse_flags, with_setting, token_of, named_token, value_of, values_of,
}
use ucl_tools.Node.Env.{split_eq}
use ucl_tools.Node.Command.{Receiver}
use ucl_tools.Node.SenderProcess.{addr_args}
use ucl_tools.Sender.Run.{flags, target_options}

-- The addresses of the displays of receivers.
abbrev pub target_of : Receiver → Text
target_of r = r.launcher.ip ++ (b':' ∷ itoa r.backend_params.listen_port)

abbrev pub target_settings : List Receiver → List (Text × Text)
target_settings [] = []
target_settings (r ∷ rs) = (text "n", target_of r) ∷ target_settings rs

abbrev pub sender_settings : Text → List Receiver → Text → List (Text × Text)
sender_settings place rs name =
    (text "s", place) ∷ (target_settings rs ++ (text "appli_name", name) ∷ [])

parse_operand :
    (w : Text) (ws : List Text)
    → token_of w ≡ operand
    → parse_flags flags (w ∷ ws) ≡ parsed [] (w ∷ ws)
unfolding parse_flags
parse_operand w [] h = rw (h, parse_flags) refl
parse_operand w (x ∷ ws) h = rw (h, parse_flags) refl

parse_name :
    (name w : Text) (ws : List Text)
    → token_of w ≡ operand
    → parse_flags flags (text "--appli_name" ∷ name ∷ w ∷ ws)
      ≡ parsed ((text "appli_name", name) ∷ []) (w ∷ ws)
parse_name name w ws h = named ∙ ap (with_setting (text "appli_name") name) (parse_operand w ws h)
  where
    named :
        parse_flags flags (text "--appli_name" ∷ name ∷ w ∷ ws)
        ≡ with_setting (text "appli_name") name (parse_flags flags (w ∷ ws))
    named = unfold parse_flags token_of named_token split_eq text_eq in refl

parse_next :
    (flag value : Text) (rest : List Text)
    → parse_flags flags (text "-n" ∷ value ∷ rest)
      ≡ with_setting (text "n") value (parse_flags flags rest)
unfolding parse_flags token_of named_token split_eq text_eq
parse_next flag value rest = refl

parse_targets :
    (rs : List Receiver) (name w : Text) (ws : List Text)
    → token_of w ≡ operand
    → parse_flags flags (addr_args rs ++ (text "--appli_name" ∷ name ∷ w ∷ ws))
      ≡ parsed (target_settings rs ++ (text "appli_name", name) ∷ []) (w ∷ ws)
parse_targets [] name w ws h = parse_name name w ws h
parse_targets (r ∷ rs) name w ws h =
    parse_next [] (target_of r) (addr_args rs ++ (text "--appli_name" ∷ name ∷ w ∷ ws))
    ∙ ap (with_setting (text "n") (target_of r)) (parse_targets rs name w ws h)

parse_screen :
    (place : Text) (rest : List Text)
    → parse_flags flags (text "-s" ∷ place ∷ rest)
      ≡ with_setting (text "s") place (parse_flags flags rest)
unfolding parse_flags token_of named_token split_eq text_eq
parse_screen place rest = refl

-- The arguments of a sender without a surface, and then those of the application.
pub parse_sender :
    (place : Text) (rs : List Receiver) (name w : Text) (ws : List Text)
    → token_of w ≡ operand
    → parse_flags flags
        (text "-s" ∷ place ∷ (addr_args rs ++ (text "--appli_name" ∷ name ∷ w ∷ ws)))
      ≡ parsed (sender_settings place rs name) (w ∷ ws)
parse_sender place rs name w ws h =
    parse_screen place (addr_args rs ++ (text "--appli_name" ∷ name ∷ w ∷ ws))
    ∙ ap (with_setting (text "s") place) (parse_targets rs name w ws h)

-- What the settings are read as.
name_behind :
    (rs : List Receiver) (name value : Text)
    → value_of (text "appli_name") value (target_settings rs ++ (text "appli_name", name) ∷ [])
      ≡ name
unfolding value_of text_eq
name_behind [] name value = refl
name_behind (r ∷ rs) name value = name_behind rs name value

screen_behind :
    (rs : List Receiver) (name value : Text)
    → value_of (text "s") value (target_settings rs ++ (text "appli_name", name) ∷ []) ≡ value
unfolding value_of text_eq
screen_behind [] name value = refl
screen_behind (r ∷ rs) name value = screen_behind rs name value

targets_behind :
    (rs : List Receiver) (name : Text)
    → values_of (text "n") (target_settings rs ++ (text "appli_name", name) ∷ []) ≡ map target_of rs
unfolding values_of text_eq
targets_behind [] name = refl
targets_behind (r ∷ rs) name = ap (λ ts. target_of r ∷ ts) (targets_behind rs name)

module _ (place : Text) (rs : List Receiver) (name : Text) where
  pub settings_screen :
      (value : Text) → value_of (text "s") value (sender_settings place rs name) ≡ place
  unfolding value_of text_eq
  settings_screen value = screen_behind rs name place

  pub settings_name :
      (value : Text) → value_of (text "appli_name") value (sender_settings place rs name) ≡ name
  unfolding value_of text_eq
  settings_name value = name_behind rs name value

  pub settings_targets : values_of (text "n") (sender_settings place rs name) ≡ map target_of rs
  unfolding values_of text_eq
  settings_targets = targets_behind rs name

pub target_options-receivers :
    (rs : List Receiver) → target_options (map target_of rs) ≡ addr_args rs
unfolding target_options
target_options-receivers [] = refl
target_options-receivers (r ∷ rs) =
    ap (λ ts. text "-n" ∷ target_of r ∷ ts) (target_options-receivers rs)
