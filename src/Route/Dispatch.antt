-- ===== src/Route/Dispatch.antt =====
-- From a document to the commands on their way: `dispatchCommToNodes`, and `getAppName`.
use ucl_tools.Base.{Bool, Option, none, some, List, [], ◌∷◌, if◌then◌else◌, Text, text}
use ucl_tools.Document.{Fields, Run, ok, ◌>>=◌, get, is_null, as_str, format_v1}
use ucl_tools.Screen.{UclNode, FrameworkNode, Node, read_alias_ip}
use ucl_tools.Route.{get_connectable_node}
use ucl_tools.Route.Remove.{remove_disconnect_node}
use ucl_tools.Route.Split.{get_distrib_node_addr, get_distrib_node, split_command_for_each_node}
use ucl_tools.Route.Expand.{expand_alias_node}

-- The addresses of the commands, as the loop of `dispatchCommToNodes` takes them.
unfoldable pub with_addrs : List Fields → Run (List (Text × Fields))
unfolding get_distrib_node_addr
with_addrs [] = ok []
with_addrs (m ∷ ms) = do addr ← get_distrib_node_addr m; rest ← with_addrs ms; ok ((addr, m) ∷ rest)

-- `dispatchCommToNodes`, from the document to the commands that it hands to the connections; a failure
-- is where it cancels the task and returns.
unfoldable pub dispatch_comm_to_nodes :
    List FrameworkNode → List Node → (UclNode → Bool) → Fields → Run (List (Text × Fields))
unfolding expand_alias_node get_distrib_node remove_disconnect_node split_command_for_each_node
    with_addrs
dispatch_comm_to_nodes rows nodes connectable m = do
  m1 ← expand_alias_node (read_alias_ip rows nodes []) m
  d_nodes ← get_distrib_node m1
  let c_nodes = get_connectable_node connectable d_nodes
  m2 ← remove_disconnect_node m1 c_nodes
  jobs ← split_command_for_each_node rows m2
  with_addrs jobs

-- `getAppName`, over the document that `json.Unmarshal` gave, if it gave one; an empty text for none.
unfoldable pub get_app_name : Option Fields → Run Text
get_app_name none = ok []
get_app_name (some m) = do
  f ← format_v1 m
  if is_null (get (text "appli_name") f) then ok [] else as_str (get (text "appli_name") f)
