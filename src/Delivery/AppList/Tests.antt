-- ===== src/Delivery/AppList/Tests.antt =====
-- Two nodes, of which one has an application for the other and one for a node that is gone.
use ucl_tools.Base.{
  arith, join, none, if◌then◌else◌, ◌≡◌, refl, true, Option, some, List, [], ◌∷◌, Text, text,
  text_eq, pos,
}
use ucl_tools.Document.{arr, str, obj, Fields, end, field, ok, get}
use ucl_tools.Document.Decode.{Json, marshal, in_int64}
use ucl_tools.Screen.{UclNode, Node, FrameworkNode, get_framework_node}
use ucl_tools.Route.{get_connectable_node}
use ucl_tools.Gather.{get_app_list_from_each_node, split_comma}
use ucl_tools.Gather.Names.{count_name}
use ucl_tools.Node.Apps.{Entry, launcher_exists, validate_local, validate_app_info, hit_dirs}
use ucl_tools.Gather.Lists.{listed}
use ucl_tools.Wire.{conn_write, put_uint32, conn_write_with_size}
use ucl_tools.Node.Serve.Fetch.{IsAnswered}
use ucl_tools.Delivery.AppList.{nodes_items}
use ucl_tools.Delivery.AppList.Asked.{ask_connectable, ask_connectable-count}

abbrev two_nodes : List Node
two_nodes =
    record { node_id = pos 0; host_name = text "agl"; ip = text "10.0.0.1" }
    ∷ record { node_id = pos 1; host_name = text "ivi"; ip = text "10.0.0.2" }
    ∷ []

abbrev two_rows : List FrameworkNode
two_rows =
    record { node_id = pos 0; ucl_port = pos 7654; compositor = [] }
    ∷ record { node_id = pos 1; ucl_port = pos 7654; compositor = [] }
    ∷ []

abbrev local_app : Text → Fields
local_app launcher =
    field (text "format_v1")
      (obj (
        field (text "command_type") (str (text "local"))
          (field (text "local") (obj (field (text "launcher") (str launcher) end)) end)))
      end

abbrev directory : Text → Text → Entry
directory name launcher = record {
  is_dir = true;
  name = name;
  app_json = some (local_app launcher);
}

abbrev on_node : UclNode → List Entry
on_node n =
    if text_eq n.host_name (text "agl")
    then directory (text "map") (text "ivi") ∷ directory (text "old") (text "gone") ∷ []
    else directory (text "map") (text "agl") ∷ []

-- The texts of a request of these two nodes.
abbrev canned : Json
canned = record {
  print = λ z. z;
  write = λ value. text "nodes";
  read = λ command. none;
  parse = λ command.
      if text_eq command (text "nodes")
      then some (
          marshal (λ z. z)
            (arr (
              nodes_items
                (get_connectable_node (λ n. true) (get_framework_node two_rows two_nodes)))))
      else none;
}

-- A list that a node can send.
map-IsAnswered : IsAnswered 2 (listed (text "map" ∷ []))
unfolding conn_write_with_size conn_write put_uint32 join
map-IsAnswered = (refl, omega arith)

ask_connectable-count_example :
    (answers : List (Option (Option Text))) × (l : Text) × (ask_connectable canned two_rows
        two_nodes
        (λ n. true)
        on_node
      ≡ ok answers)
    × (get_app_list_from_each_node answers ≡ some l)
    × (count_name (text "map") (split_comma l) ≡ 1)
unfolding in_int64 hit_dirs validate_app_info validate_local launcher_exists get text_eq
    get_connectable_node get_framework_node
ask_connectable-count_example =
    ask_connectable-count canned b'm' (text "ap") two_rows two_nodes (λ n. true) on_node
      ((text "map" ∷ []) ∷ (text "map" ∷ []) ∷ []) (refl, (refl, tt))
      (omega arith, omega arith, refl) (refl, (refl, tt)) (map-IsAnswered, (map-IsAnswered, tt))
      refl
