-- ===== src/Route/Refines.antt =====
-- `dispatchCommToNodes` on the document of an application.
use ucl_tools.Base.{◌≡◌, Bool, true, List, [], Text}
use ucl_tools.Document.{str}
use ucl_tools.Screen.{UclNode, FrameworkNode, Node, alias, read_alias_ip}
use ucl_tools.Route.{get_connectable_node, is_remote}
use ucl_tools.Route.Dispatch.{dispatch_comm_to_nodes}
use ucl_tools.Route.Spec.{App, document_of, reachable, sender_ok, dispatch_app, sent_of}
use ucl_tools.Route.Nodes.{add_nodes, sender_node, nodes_of_document, add_nodes-has, keep_values}
use ucl_tools.Route.Stages.{expand_document, remove_document, sender_connectable, send_kept}

-- The node that a name stands for.
abbrev pub resolver : List FrameworkNode → List Node → Text → UclNode
resolver rows nodes key = alias key (read_alias_ip rows nodes [])

-- The document of an application of one of the three types with displays, whose launchers are names and
-- whose receivers have ports, is dispatched as `dispatch_app` says: the same commands go to the same
-- addresses, or it ends for the same reason; and no type assertion panics.
pub dispatch_comm_to_nodes_refines :
    (rows : List FrameworkNode) (nodes : List Node) (connectable : UclNode → Bool) (a : App)
    → is_remote (str a.command_type) ≡ true
    → dispatch_comm_to_nodes rows nodes connectable (document_of str a a.receivers)
      ≡ sent_of (resolver rows nodes) a (dispatch_app (resolver rows nodes) connectable rows a)
unfolding dispatch_comm_to_nodes
dispatch_comm_to_nodes_refines rows nodes connectable a h =
    let aip = read_alias_ip rows nodes [] in
    let resolve : Text → UclNode = resolver rows nodes in
    let ns = add_nodes resolve (sender_node resolve a.sender) a.receivers in
    let c = get_connectable_node connectable ns in
    let ks = reachable resolve connectable a.receivers in
    let kept =
      keep_values resolve connectable ns a.receivers
        (add_nodes-has resolve (sender_node resolve a.sender) a.receivers) in
    let gone =
      remove_document resolve c a.command_type a.name a.sender a.receivers ks
        (sender_ok resolve connectable a.sender) h kept
        (sender_connectable resolve connectable a.sender a.receivers) in
    rw
      (
        expand_document aip a.command_type a.name a.sender a.receivers h,
        nodes_of_document resolve a.command_type a.name a.sender a.receivers h,
        gone,
      )
      (send_kept resolve rows a (sender_ok resolve connectable a.sender) ks)
