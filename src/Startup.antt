-- ===== src/Startup.antt =====
-- The starts of a node, `main` and `acceptLoop` of cmd/ucl-node/ucl_node.go, and of the manager, `main` of
-- cmd/ucl-lifecycle-manager/ucl_lifecycle_manager.go.
pub mod Meets
mod Tests
use ucl_tools.Base.{
  Bool, ◌||◌, Option, none, some, List, [], ◌∷◌, if◌then◌else◌, Text, text, text_eq,
}
use ucl_tools.Settings.{Interface}
use ucl_tools.Flags.{Kind, boolean, valued, Parsed, parsed, exits, parse_flags, value_of}
use ucl_tools.Screen.{VScrnDef, vscrndef_file, read_vscrndef, get_node_addr, get_lcm_node_addr}

abbrev pub main_flags : Text → Option Kind
main_flags name =
    if text_eq name (text "v") || text_eq name (text "d")
    then some boolean
    else if text_eq name (text "f")
    then some valued
    else none

-- The program takes connections at an address, or ends with the code 1 or with its usage.
pub data Startup : Type 0 where
  serves : Text → Startup
  fails shows_usage : Startup

abbrev pub serve_at : (Text → Bool) → Option Text → Startup
serve_at listens none = fails
serve_at listens (some addr) = if listens addr then serves addr else fails

abbrev pub serve_for : (VScrnDef → Option Text) → (Text → Bool) → Option VScrnDef → Startup
serve_for address listens none = fails
serve_for address listens (some v) = serve_at listens (address v)

-- Behind `flag.Parse`: `read` is `ReadVScrnDef`, `address` the address of the program, and `listens` says
-- whether `net.Listen` returns no error.
unfoldable pub start_up :
    (Text → Option VScrnDef) → (VScrnDef → Option Text) → (Text → Bool) → Parsed → Startup
start_up read address listens exits = shows_usage
start_up read address listens (parsed settings args) =
    serve_for address listens (read (value_of (text "f") vscrndef_file settings))

module _ (vsdpath : Option Text) (read_file : Text → Option Text)
    (unmarshal : Text → Option VScrnDef) (listens : Text → Bool) where
  abbrev pub read_at : Text → Option VScrnDef
  read_at file = read_vscrndef (file ∷ []) vsdpath read_file unmarshal

  -- `main` of a node, over its host name, its addresses and its arguments.
  unfoldable pub node_main : Option Text → Option (List Interface) → List Text → Startup
  node_main hostname ifaces args =
      start_up read_at (get_node_addr hostname ifaces) listens (parse_flags main_flags args)

  -- `main` of the manager.
  unfoldable pub lcm_main : List Text → Startup
  lcm_main args =
      start_up read_at (λ v. get_lcm_node_addr v.life_cycle_manager v.nodes) listens
        (parse_flags main_flags args)
