-- ===== src/Delivery/Tests.antt =====
-- An application with a sender and a receiver.
use ucl_tools.Base.{
  sym, subst, arith, Bool, false, not, if◌then◌else◌, ◌≡◌, refl, true, none, some, List, [], ◌∷◌,
  Text, text, text_eq, pos,
}
use ucl_tools.Document.{Value, obj, field, get, is_null, ok}
use ucl_tools.Document.Decode.{Json, marshal, is_exact, in_int64}
use ucl_tools.Screen.{UclNode, Node, FrameworkNode, is_recv_compositor}
use ucl_tools.Node.Command.{Sender, Receiver}
use ucl_tools.Route.Refines.{resolver, dispatch_comm_to_nodes_refines}
use ucl_tools.Route.Dispatch.{dispatch_comm_to_nodes}
use ucl_tools.Route.Spec.{Job, sender_job, receiver_job, message_of}
use ucl_tools.Delivery.Transport.{AllFit}
use ucl_tools.Delivery.{
  Application, app_of, application_document, deliver, sender_command, receiver_command,
}
use ucl_tools.Node.Decode.Parts.{sender_part, receiver_part, SenderExact, BackendExact}
use ucl_tools.Delivery.Commands.{deliver-delivery}

abbrev unplaced : Text → UclNode
unplaced name = record { ip = []; port = pos 0; host_name = name }

abbrev proxy : Sender
proxy = record {
  launcher = unplaced (text "agl");
  command = text "ucl-virtio-gpu-wl-send";
  frontend_params = record {
    scan_out_x = pos 0;
    scan_out_y = pos 0;
    scan_out_w = pos 1920;
    scan_out_h = pos 1080;
    server_port = pos 36000;
    session_time_out = pos 5;
  };
  env = text "A=1";
  qt_env = some (record { ivi_surface_id = pos 101; ivi_layer_id = none });
  appli = text "weston-simple-egl -f";
}

abbrev display : Receiver
display = record {
  launcher = unplaced (text "ivi");
  command = text "ucl-virtio-gpu-wl-recv";
  backend_params = record {
    ivi_surface_id = some (pos 9);
    sock_domain_name = none;
    scan_out_x = pos 0;
    scan_out_y = pos 0;
    scan_out_w = pos 1920;
    scan_out_h = pos 1080;
    listen_port = pos 36000;
    initial_screen_color = text "0x33333333";
  };
  env = [];
}

abbrev map_app : Application
map_app = record {
  command_type = text "remote_virtio_gpu";
  name = text "map";
  sender = some proxy;
  receivers = display ∷ [];
}

abbrev two_nodes : List Node
two_nodes =
    record { node_id = pos 0; host_name = text "agl"; ip = text "10.0.0.1" }
    ∷ record { node_id = pos 1; host_name = text "ivi"; ip = text "10.0.0.2" }
    ∷ []

abbrev two_rows : List FrameworkNode
two_rows =
    record { node_id = pos 0; ucl_port = pos 7654; compositor = [] }
    ∷ record { node_id = pos 1; ucl_port = pos 7655; compositor = [] }
    ∷ []

proxy-Exact : SenderExact proxy
unfolding is_exact
proxy-Exact = record {
  frontend = record { x = refl; y = refl; w = refl; h = refl; server = refl; time_out = refl };
  qt = record { surface = refl; layer = tt };
}

display-Exact : BackendExact display.backend_params
unfolding is_exact
display-Exact = record { surface = refl; x = refl; y = refl; w = refl; h = refl; port = refl }

-- The commands for the sender and for the receiver.
abbrev command_for : Job → Value
command_for job =
    marshal (λ z. z) (obj (message_of (resolver two_rows two_nodes) (app_of map_app) job).1)

abbrev for_sender : Value
for_sender = command_for (sender_job (sender_part proxy) (receiver_part display ∷ []))

abbrev for_receiver : Value
for_receiver = command_for (receiver_job (receiver_part display))

abbrev has_sender : Value → Bool
has_sender (obj (field k (obj f) rest)) = not (is_null (get (text "sender") f))
has_sender _ = false

-- `encoding/json` on the texts of this application: that of a command names the part that the command has.
abbrev canned : Json
canned = record {
  print = λ z. z;
  write = λ value. if has_sender value then text "sender" else text "receiver";
  read =
      λ command. if text_eq command (text "map") then some (application_document map_app) else none;
  parse = λ command.
      if text_eq command (text "sender")
      then some for_sender
      else if text_eq command (text "receiver")
      then some for_receiver
      else none;
}

canned-AllFit :
    AllFit canned
      (dispatch_comm_to_nodes two_rows two_nodes (λ n. true) (application_document map_app))
unfolding text_eq is_recv_compositor get
canned-AllFit =
    subst (AllFit canned)
      (sym (dispatch_comm_to_nodes_refines two_rows two_nodes (λ n. true) (app_of map_app) refl))
      ((omega arith, omega arith, refl), ((omega arith, omega arith, refl), tt))

deliver-delivery_example :
    deliver canned two_rows two_nodes (λ n. true) (text "map")
    ≡ ok (
        sender_command (resolver two_rows two_nodes) map_app proxy (display ∷ [])
        ∷ receiver_command (resolver two_rows two_nodes) map_app display
        ∷ [])
unfolding in_int64 is_exact text_eq is_recv_compositor
deliver-delivery_example =
    deliver-delivery canned two_rows two_nodes (λ n. true) map_app (text "map") (λ z h. refl) refl
      canned-AllFit refl (refl, (refl, tt)) proxy-Exact (display-Exact, tt)
