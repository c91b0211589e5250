-- ===== src/Route/Expand.antt =====
-- The names of the launchers become nodes: `expandAliasNode`.
use ucl_tools.Base.{List, if◌then◌else◌, Text, text}
use ucl_tools.Document.{
  str, arr, obj, node, Items, nil, cons, Fields, Run, ok, ◌>>=◌, get, put, is_null, as_obj, as_arr,
  format_v1, set_format_v1,
}
use ucl_tools.Screen.{UclNode, alias}
use ucl_tools.Route.{is_remote, is_local, command_type}

-- The launcher of a sender, a receiver or a local part, if it is a name.
unfoldable pub expand_launcher : List (Text × UclNode) → Fields → Fields
unfolding get put alias
expand_launcher aip x = elim (get (text "launcher") x) [
  | str key ↦ put (text "launcher") (node (alias key aip)) x
  | _ ↦ x
]

unfoldable pub expand_receivers : List (Text × UclNode) → Items → Run Items
unfolding expand_launcher
expand_receivers aip nil = ok nil
expand_receivers aip (cons r rest) = do
  x ← as_obj r
  rest' ← expand_receivers aip rest
  ok (cons (obj (expand_launcher aip x)) rest')

-- One part of the document under its key, if it is there.
unfoldable pub expand_part : List (Text × UclNode) → Text → Fields → Run Fields
unfolding expand_launcher
expand_part aip key f = do x ← as_obj (get key f); ok (put key (obj (expand_launcher aip x)) f)

-- `expandAliasNode`: the document as it leaves it.
unfoldable pub expand_alias_node : List (Text × UclNode) → Fields → Run Fields
unfolding expand_part expand_receivers
expand_alias_node aip m = do
  f ← format_v1 m
  if is_remote (command_type f)
      then (do
        f1 ← (if is_null (get (text "sender") f) then ok f else expand_part aip (text "sender") f)
        f2 ←
            (if is_null (get (text "receivers") f1) then ok f1 else (do
              xs ← as_arr (get (text "receivers") f1)
              ys ← expand_receivers aip xs
              ok (put (text "receivers") (arr ys) f1)))
        ok (set_format_v1 f2 m))
      else if is_local (command_type f)
      then (do f' ← expand_part aip (text "local") f; ok (set_format_v1 f' m))
      else ok m
