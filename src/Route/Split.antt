-- ===== src/Route/Split.antt =====
-- One command for each node: `getDistribNodeAddr`, `getDistribNode` and `splitCommandforEachNode`.
use ucl_tools.Base.{Bool, false, not, ◌&&◌, List, [], ◌∷◌, ◌++◌, if◌then◌else◌, Text, text}
use ucl_tools.Document.{
  Value, arr, obj, Items, nil, cons, Fields, end, field, Run, ok, panic, ◌>>=◌, get, is_null,
  is_str, as_obj, as_arr, as_number, format_v1,
}
use ucl_tools.Screen.{UclNode, FrameworkNode, addr_of, is_recv_compositor}
use ucl_tools.Route.{is_exist_node, is_remote, is_local, command_type, launcher_node}

-- `getDistribNodeAddr`; an empty text for a document with none of the three.
unfoldable pub get_distrib_node_addr : Fields → Run Text
get_distrib_node_addr m = do
  f ← format_v1 m
  if not (is_null (get (text "sender") f))
      then (do
        sender ← as_obj (get (text "sender") f)
        n ← launcher_node sender
        ok (addr_of n.ip n.port))
      else if not (is_null (get (text "receivers") f))
      then (do
        receivers ← as_arr (get (text "receivers") f)
        first ← elim receivers [ nil ↦ panic | cons r _ ↦ as_obj r ]
        n ← launcher_node first
        ok (addr_of n.ip n.port))
      else if not (is_null (get (text "local") f))
      then (do
        local ← as_obj (get (text "local") f)
        n ← launcher_node local
        ok (addr_of n.ip n.port))
      else ok []

-- The loop of `getDistribNode` over the receivers.
unfoldable pub add_receivers : List UclNode → Items → Run (List UclNode)
add_receivers d_nodes nil = ok d_nodes
add_receivers d_nodes (cons r rest) = do
  x ← as_obj r
  chk ← launcher_node x
  add_receivers (if is_exist_node d_nodes chk then d_nodes else d_nodes ++ chk ∷ []) rest

unfoldable pub sender_nodes : Fields → Run (List UclNode)
sender_nodes f =
    if is_null (get (text "sender") f)
    then ok []
    else do sender ← as_obj (get (text "sender") f); n ← launcher_node sender; ok (n ∷ [])

-- `getDistribNode`.
unfoldable pub get_distrib_node : Fields → Run (List UclNode)
unfolding sender_nodes
get_distrib_node m = do
  f ← format_v1 m
  if is_remote (command_type f)
      then (do
        d_nodes ← sender_nodes f
        if is_null (get (text "receivers") f) then ok d_nodes else (do
          receivers ← as_arr (get (text "receivers") f)
          add_receivers d_nodes receivers))
      else if is_local (command_type f) && not (is_null (get (text "local") f))
      then (do local ← as_obj (get (text "local") f); n ← launcher_node local; ok (n ∷ []))
      else ok []

-- The command for one node: the type and the name of the whole document, and `parts`.
abbrev pub part_of : Fields → Fields → Fields
part_of f parts =
    field (text "format_v1")
      (obj (
        field (text "command_type") (command_type f)
          (field (text "appli_name") (get (text "appli_name") f) parts)))
      end

-- A receiver is left to the compositors that are running.
unfoldable pub is_skipped : List FrameworkNode → Fields → Value → Run Bool
is_skipped rows f receiver =
    if is_str (command_type f) (text "launch_compositors") then ok false else do
      r ← as_obj receiver
      backend_params ← as_obj (get (text "backend_params") r)
      listen_port ← as_number (get (text "listen_port") backend_params)
      ok (is_recv_compositor listen_port rows)

-- The loop of `splitCommandforEachNode` over the receivers.
unfoldable pub split_receivers : List FrameworkNode → Fields → Items → Run (List Fields)
split_receivers rows f nil = ok []
split_receivers rows f (cons r rest) = do
  skipped ← is_skipped rows f r
  output ← split_receivers rows f rest
  ok (
      if skipped
      then output
      else part_of f (field (text "receivers") (arr (cons r nil)) end) ∷ output)

-- `splitCommandforEachNode`; `rows` are those of `gVScrnDef`. The number that the code returns beside
-- the list is its length.
unfoldable pub split_command_for_each_node : List FrameworkNode → Fields → Run (List Fields)
split_command_for_each_node rows m = do
  f ← format_v1 m
  let sender = get (text "sender") f
  let senders =
      if is_null sender
      then []
      else part_of f
          (field (text "sender") sender (field (text "receivers") (get (text "receivers") f) end))
        ∷ []
  receivers ←
      (if is_null (get (text "receivers") f)
        then ok []
        else (do xs ← as_arr (get (text "receivers") f); split_receivers rows f xs))
  let local = get (text "local") f
  let locals = if is_null local then [] else part_of f (field (text "local") local end) ∷ []
  ok (senders ++ (receivers ++ locals))
