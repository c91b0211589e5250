-- ===== src/Route/Tests.antt =====
-- Two receivers, of which one is connectable.
use ucl_tools.Base.{◌≡◌, refl, Bool, none, List, [], ◌∷◌, Text, text, text_eq, pos}
use ucl_tools.Document.{str, obj, node, Items, nil, cons, Fields, end, field, get, ok}
use ucl_tools.Screen.{
  UclNode, FrameworkNode, Node, alias, read_alias_ip, alias_port, is_recv_compositor,
}
use ucl_tools.Route.{is_exist_node, node_eq}
use ucl_tools.Route.Remove.{keep_receivers}
use ucl_tools.Route.Dispatch.{dispatch_comm_to_nodes}
use ucl_tools.Route.Spec.{ReceiverPart, App, document_of, receiver_job, messages_of}
use ucl_tools.Route.Refines.{resolver, dispatch_comm_to_nodes_refines}

abbrev at_ip : Text → UclNode
at_ip ip = record { ip = ip; port = pos 7654; host_name = [] }

abbrev launched_at : Text → Fields
launched_at ip = field (text "launcher") (node (at_ip ip)) end

abbrev two : Items
two = cons (obj (launched_at (text "10.0.0.1"))) (cons (obj (launched_at (text "10.0.0.2"))) nil)

second_kept :
    keep_receivers (at_ip (text "10.0.0.2") ∷ []) two
    ≡ ok (cons (obj (launched_at (text "10.0.0.2"))) nil)
unfolding keep_receivers is_exist_node node_eq get text_eq
second_kept = refl

-- An application for two displays, of which the second is connectable.
abbrev display : Text → ReceiverPart
display name = record { launcher = name; port = pos 36000; params = end; rest = end }

abbrev shown : App
shown = record {
  command_type = text "remote_virtio_gpu";
  name = str (text "map");
  sender = none;
  receivers = display (text "left") ∷ display (text "right") ∷ [];
}

abbrev two_nodes : List Node
two_nodes =
    record { node_id = pos 1; host_name = text "left"; ip = text "10.0.0.1" }
    ∷ record { node_id = pos 2; host_name = text "right"; ip = text "10.0.0.2" }
    ∷ []

abbrev two_rows : List FrameworkNode
two_rows =
    record { node_id = pos 1; ucl_port = pos 7654; compositor = [] }
    ∷ record { node_id = pos 2; ucl_port = pos 7654; compositor = [] }
    ∷ []

abbrev is_up : UclNode → Bool
is_up n = text_eq n.ip (text "10.0.0.2")

dispatch_comm_to_nodes_refines_example :
    dispatch_comm_to_nodes two_rows two_nodes is_up (document_of str shown shown.receivers)
    ≡ ok (
        messages_of
          (resolver two_rows two_nodes)
          shown
          (receiver_job (display (text "right")) ∷ []))
unfolding text_eq alias read_alias_ip alias_port is_recv_compositor
dispatch_comm_to_nodes_refines_example =
    dispatch_comm_to_nodes_refines two_rows two_nodes is_up shown refl
