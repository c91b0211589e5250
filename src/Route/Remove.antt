-- ===== src/Route/Remove.antt =====
-- Taking out what is not connectable: `removeDisconnectNode`.
use ucl_tools.Base.{List, if◌then◌else◌, text}
use ucl_tools.Document.{
  arr, Items, nil, cons, Fields, sender_not_connectable, no_connectable_receivers,
  local_not_connectable, command_type_err, Run, ok, fail, ◌>>=◌, ◌>>◌, get, put, is_null, as_obj,
  as_arr, format_v1, set_format_v1,
}
use ucl_tools.Screen.{UclNode}
use ucl_tools.Route.{is_exist_node, is_remote, is_local, command_type, launcher_node}

-- The loop of `removeDisconnectNode` over the receivers: those whose launcher is connectable.
unfoldable pub keep_receivers : List UclNode → Items → Run Items
unfolding is_exist_node get
keep_receivers c_nodes nil = ok nil
keep_receivers c_nodes (cons r rest) = do
  x ← as_obj r
  chk ← launcher_node x
  kept ← keep_receivers c_nodes rest
  ok (if is_exist_node c_nodes chk then cons r kept else kept)

unfoldable pub check_sender : List UclNode → Fields → Run (Unit {0})
check_sender c_nodes f = if is_null (get (text "sender") f) then ok tt else do
  sender ← as_obj (get (text "sender") f)
  chk ← launcher_node sender
  if is_exist_node c_nodes chk then ok tt else fail sender_not_connectable

unfoldable pub check_receivers : List UclNode → Fields → Run Fields
check_receivers c_nodes f = if is_null (get (text "receivers") f) then ok f else do
  receivers ← as_arr (get (text "receivers") f)
  recvs ← keep_receivers c_nodes receivers
  elim recvs [
    | nil ↦ fail no_connectable_receivers
    | cons r rest ↦ ok (put (text "receivers") (arr (cons r rest)) f)
  ]

unfoldable pub check_local : List UclNode → Fields → Run (Unit {0})
check_local c_nodes f = do
  local ← as_obj (get (text "local") f)
  chk ← launcher_node local
  if is_exist_node c_nodes chk then ok tt else fail local_not_connectable

-- `removeDisconnectNode`: the document as it leaves it.
unfoldable pub remove_disconnect_node : Fields → List UclNode → Run Fields
unfolding check_sender check_receivers check_local
remove_disconnect_node m c_nodes = do
  f ← format_v1 m
  if is_remote (command_type f)
      then (do check_sender c_nodes f; f' ← check_receivers c_nodes f; ok (set_format_v1 f' m))
      else if is_local (command_type f)
      then (do check_local c_nodes f; ok m)
      else fail command_type_err
