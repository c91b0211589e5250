-- ===== src/Delivery.antt =====
-- From the manager to the nodes: an application as a value, what the nodes read of the commands that
-- `dispatchCommToNodes` of cmd/ucl-lifecycle-manager sends for it, and, on the application, which command
-- each node is to get.
pub mod Transport
pub mod Ports
pub mod Commands
pub mod Compositors
pub mod Started
pub mod Processes
pub mod AppList
mod Tests
use ucl_tools.Base.{
  Bool, true, not, ◌&&◌, Option, none, some, List, [], ◌∷◌, ◌++◌, map, if◌then◌else◌, Text, text,
  text_eq,
}
use ucl_tools.Document.{
  str, Fields, Run, ok, fail, unmarshal_err, sender_not_connectable, no_connectable_receivers,
}
use ucl_tools.Document.Decode.{Json}
use ucl_tools.Screen.{UclNode, FrameworkNode, Node, is_recv_compositor}
use ucl_tools.Route.Dispatch.{dispatch_comm_to_nodes}
use ucl_tools.Route.Spec.{SenderPart, App, document_of, addr_of_node}
use ucl_tools.Node.Command.{Sender, Receiver, UclCommand}
use ucl_tools.Node.Decode.{zero_sender, zero_local}
use ucl_tools.Delivery.Transport.{run_map, received}
use ucl_tools.Node.Decode.Parts.{sender_part, receiver_part}

-- An application; the launcher of a part has its name in `host_name`.
pub record Application : Type 0 where
  pub command_type : Text
  pub name : Text
  pub sender : Option Sender
  pub receivers : List Receiver

abbrev pub opt_part : Option Sender → Option SenderPart
opt_part none = none
opt_part (some s) = some (sender_part s)

abbrev pub app_of : Application → App
app_of a = record {
  command_type = a.command_type;
  name = str a.name;
  sender = opt_part a.sender;
  receivers = map receiver_part a.receivers;
}

-- Its document.
abbrev pub application_document : Application → Fields
application_document a = document_of str (app_of a) (map receiver_part a.receivers)

-- `dispatchCommToNodes` once `json.Unmarshal` has returned.
abbrev pub deliver_read :
    Json
    → List FrameworkNode
    → List Node
    → (UclNode → Bool)
    → Option Fields
    → Run (List (Text × Option UclCommand))
deliver_read json rows nodes connectable none = fail unmarshal_err
deliver_read json rows nodes connectable (some m) =
    run_map (received json) (dispatch_comm_to_nodes rows nodes connectable m)

-- From the document that the manager is given to what the nodes read: `dispatchCommToNodes`, and for each
-- node `json.Marshal`, the connection, and `json.Unmarshal` on the node.
unfoldable pub deliver :
    Json
    → List FrameworkNode
    → List Node
    → (UclNode → Bool)
    → Text
    → Run (List (Text × Option UclCommand))
deliver json rows nodes connectable command =
    deliver_read json rows nodes connectable (json.read command)

module _ (resolve : Text → UclNode) where
  -- A part with the node in place of the name of its launcher.
  abbrev pub placed_receiver : Receiver → Receiver
  placed_receiver r = record r { launcher = resolve r.launcher.host_name }

  abbrev pub placed_sender : Sender → Sender
  placed_sender s = record s { launcher = resolve s.launcher.host_name }

  -- The command for the sender, and that for a receiver.
  abbrev pub whole_command : Application → Sender → List Receiver → UclCommand
  whole_command a s rs = record {
    app_name = a.name;
    command_type = a.command_type;
    sender = placed_sender s;
    receivers = map placed_receiver rs;
    local = zero_local;
  }

  abbrev pub sender_command : Application → Sender → List Receiver → Text × Option UclCommand
  sender_command a s rs = (addr_of_node (resolve s.launcher.host_name), some (whole_command a s rs))

  abbrev pub only_receiver : Application → Receiver → UclCommand
  only_receiver a r = record {
    app_name = a.name;
    command_type = a.command_type;
    sender = zero_sender;
    receivers = placed_receiver r ∷ [];
    local = zero_local;
  }

  abbrev pub receiver_command : Application → Receiver → Text × Option UclCommand
  receiver_command a r = (addr_of_node (resolve r.launcher.host_name), some (only_receiver a r))

  abbrev pub sender_commands :
      Application → Option Sender → List Receiver → List (Text × Option UclCommand)
  sender_commands a none rs = []
  sender_commands a (some s) rs = sender_command a s rs ∷ []

  -- The receivers get a command each, but for those that the compositors of the screen serve.
  abbrev pub receiver_commands :
      List FrameworkNode → Application → List Receiver → List (Text × Option UclCommand)
  receiver_commands rows a [] = []
  receiver_commands rows a (r ∷ rs) =
      if not (text_eq a.command_type (text "launch_compositors"))
        && is_recv_compositor r.backend_params.listen_port rows
      then receiver_commands rows a rs
      else receiver_command a r ∷ receiver_commands rows a rs

  -- The receivers on nodes that can be connected to.
  abbrev pub kept : (UclNode → Bool) → List Receiver → List Receiver
  kept connectable [] = []
  kept connectable (r ∷ rs) =
      if connectable (resolve r.launcher.host_name)
      then r ∷ kept connectable rs
      else kept connectable rs

  abbrev pub is_placed : (UclNode → Bool) → Option Sender → Bool
  is_placed connectable none = true
  is_placed connectable (some s) = connectable (resolve s.launcher.host_name)

  abbrev pub commands_for :
      List FrameworkNode → Application → List Receiver → Run (List (Text × Option UclCommand))
  commands_for rows a [] = fail no_connectable_receivers
  commands_for rows a (r ∷ rs) =
      ok (sender_commands a a.sender (r ∷ rs) ++ receiver_commands rows a (r ∷ rs))

  -- Which command each node of the application is to get, or why none does.
  abbrev pub delivery :
      List FrameworkNode → (UclNode → Bool) → Application → Run (List (Text × Option UclCommand))
  delivery rows connectable a =
      if is_placed connectable a.sender
      then commands_for rows a (kept connectable a.receivers)
      else fail sender_not_connectable
