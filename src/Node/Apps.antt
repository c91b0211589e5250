-- ===== src/Node/Apps.antt =====
-- The applications that a node has: `getExecutableAppList` and `ReadAppComm`.
use ucl_tools.Base.{
  Bool, true, false, not, ◌||◌, Option, none, some, List, [], ◌∷◌, ◌++◌, ◌==◌, if◌then◌else◌, Text,
  text, text_eq, join,
}
use ucl_tools.Screen.{UclNode}
use ucl_tools.Settings.{get_env}
use ucl_tools.Document.{
  Value, arr, obj, Items, nil, cons, Fields, get, is_str, Run, ok, ◌>>=◌, as_obj, as_str,
}

-- `launcherExists`.
unfoldable pub launcher_exists : Text → List UclNode → Bool
launcher_exists launcher [] = false
launcher_exists launcher (n ∷ ucl_nodes) =
    text_eq launcher n.host_name || launcher_exists launcher ucl_nodes

-- `x["launcher"].(string)`.
abbrev pub launcher_name : Fields → Run Text
launcher_name x = as_str (get (text "launcher") x)

-- The loop of `validateAppInfo` over the receivers.
unfoldable pub validate_receivers : List UclNode → Items → Run Bool
unfolding launcher_exists
validate_receivers nodes nil = ok true
validate_receivers nodes (cons recv receivers) =
    let rest = validate_receivers nodes receivers in
    do
      r ← as_obj recv
      name ← launcher_name r
      if launcher_exists name nodes then rest else ok false

-- `case "remote_virtio_gpu", "transport"`, over the values of the two keys.
unfoldable pub validate_remote : List UclNode → Value → Value → Run Bool
unfolding launcher_exists validate_receivers
validate_remote nodes (obj sender) receivers = do
  name ← launcher_name sender
  if launcher_exists name nodes
      then elim receivers [ arr xs ↦ validate_receivers nodes xs | _ ↦ ok false ]
      else ok false
validate_remote nodes _ receivers = ok false

-- `case "local"`.
unfoldable pub validate_local : List UclNode → Value → Run Bool
unfolding launcher_exists
validate_local nodes (obj l) = do name ← launcher_name l; ok (launcher_exists name nodes)
validate_local nodes _ = ok false

-- The `switch` on `command_type`.
unfoldable pub validate_format : List UclNode → Fields → Run Bool
unfolding validate_remote validate_local
validate_format nodes f =
    let cmd = get (text "command_type") f in
    if is_str cmd (text "remote_virtio_gpu") || is_str cmd (text "transport")
    then validate_remote nodes (get (text "sender") f) (get (text "receivers") f)
    else if is_str cmd (text "local")
    then validate_local nodes (get (text "local") f)
    else ok false

-- `validateAppInfo`.
unfoldable pub validate_app_info : List UclNode → Fields → Run Bool
unfolding validate_format
validate_app_info nodes m_json = elim (get (text "format_v1") m_json) [
  | obj f ↦ validate_format nodes f
  | _ ↦ ok false
]

-- An entry of the directory: whether it is a directory, its name, and the document that reading and
-- unmarshalling its `app.json` gives, if both succeed.
pub record Entry : Type 0 where
  pub is_dir : Bool
  pub name : Text
  pub app_json : Option Fields

-- The loop of `getExecutableAppList`: `hitDirs`.
unfoldable pub hit_dirs : List UclNode → List Entry → Run (List Text)
unfolding validate_app_info
hit_dirs nodes [] = ok []
hit_dirs nodes (e ∷ dirs) =
    let rest = hit_dirs nodes dirs in
    if not e.is_dir then rest else elim e.app_json [
      | none ↦ rest
      | some m_json ↦ validate_app_info nodes m_json >>= λ hit.
          if hit then (do hits ← rest; ok (e.name ∷ hits)) else rest
    ]

-- `getExecutableAppList`, over the nodes of the request, if they were unmarshalled, and the directory, if
-- it was read; `none` is an error.
unfoldable pub get_executable_app_list :
    Option (List UclNode) → Option (List Entry) → Run (Option Text)
unfolding hit_dirs
get_executable_app_list none dirs = ok none
get_executable_app_list (some nodes) none = ok none
get_executable_app_list (some nodes) (some dirs) = do
  hits ← hit_dirs nodes dirs
  ok (elim hits [ [] ↦ none | h ∷ hs ↦ some (join (text ",") (h ∷ hs)) ])

-- `strings.HasSuffix(s, "/")`.
unfoldable pub ends_in_slash : Text → Bool
ends_in_slash [] = false
ends_in_slash (c ∷ []) = c == b'/'
ends_in_slash (c ∷ d ∷ s) = ends_in_slash (d ∷ s)

-- `ReadAppComm`, over what the environment has for `DCMPATH` and what reading a file gives.
unfoldable pub read_app_comm : Option Text → (Text → Option Text) → Text → Option Text
unfolding get_env ends_in_slash
read_app_comm dcmpath read_file app_name =
    let path = get_env dcmpath (text "/var/local/uhmi-app/") in
    let dir = if not (ends_in_slash path) then path ++ b'/' ∷ [] else path in
    read_file (dir ++ (app_name ++ text "/app.json"))
