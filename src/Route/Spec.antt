-- ===== src/Route/Spec.antt =====
-- What `dispatchCommToNodes` is for, on an application instead of a document: which of its launchers are
-- connectable, and which command each of them gets.
use ucl_tools.Base.{
  Bool, true, not, ◌&&◌, Option, none, some, List, [], ◌∷◌, ◌++◌, if◌then◌else◌, Text, text,
  text_eq, ℤ,
}
use ucl_tools.Document.{
  Value, number, str, arr, obj, node, Items, nil, cons, Fields, end, field, Run, ok, fail, panic,
  sender_not_connectable, no_connectable_receivers,
}
use ucl_tools.Screen.{UclNode, FrameworkNode, addr_of, is_recv_compositor}

pub record SenderPart : Type 0 where
  pub launcher : Text
  pub rest : Fields

-- A receiver, with its port; `params` is the rest of its `backend_params`.
pub record ReceiverPart : Type 0 where
  pub launcher : Text
  pub port : ℤ
  pub params : Fields
  pub rest : Fields

pub record App : Type 0 where
  pub command_type : Text
  pub name : Value
  pub sender : Option SenderPart
  pub receivers : List ReceiverPart

-- The document of an application, where `launcher` gives the value of each launcher.
module _ (launcher : Text → Value) where
  abbrev pub sender_value : SenderPart → Value
  sender_value s = obj (field (text "launcher") (launcher s.launcher) s.rest)

  abbrev pub receiver_value : ReceiverPart → Value
  receiver_value r = obj (
      field (text "launcher") (launcher r.launcher) (
        field (text "backend_params") (obj (field (text "listen_port") (number r.port) r.params))
          r.rest))

  abbrev pub receiver_values : List ReceiverPart → Items
  receiver_values [] = nil
  receiver_values (r ∷ rs) = cons (receiver_value r) (receiver_values rs)

  abbrev pub with_sender : Option SenderPart → Fields → Fields
  with_sender none f = f
  with_sender (some s) f = field (text "sender") (sender_value s) f

  abbrev pub format_of : App → List ReceiverPart → Fields
  format_of a rs = field (text "command_type") (str a.command_type) (
      field (text "appli_name") a.name
        (with_sender a.sender (field (text "receivers") (arr (receiver_values rs)) end)))

  abbrev pub document_of : App → List ReceiverPart → Fields
  document_of a rs = field (text "format_v1") (obj (format_of a rs)) end

-- A command: for the sender, with all receivers that are left, or for one receiver.
pub data Job : Type 0 where
  sender_job : SenderPart → List ReceiverPart → Job
  receiver_job : ReceiverPart → Job

-- The receivers that get a command: all of them when compositors are launched, and otherwise those
-- whose port is no compositor's.
abbrev pub receiver_jobs : List FrameworkNode → Text → List ReceiverPart → List Job
receiver_jobs rows kind [] = []
receiver_jobs rows kind (r ∷ rs) =
    if not (text_eq kind (text "launch_compositors")) && is_recv_compositor r.port rows
    then receiver_jobs rows kind rs
    else receiver_job r ∷ receiver_jobs rows kind rs

abbrev pub sender_jobs : Option SenderPart → List ReceiverPart → List Job
sender_jobs none rs = []
sender_jobs (some s) rs = sender_job s rs ∷ []

abbrev pub jobs_of : List FrameworkNode → App → List ReceiverPart → Run (List Job)
jobs_of rows a [] = fail no_connectable_receivers
jobs_of rows a (r ∷ rs) =
    ok (sender_jobs a.sender (r ∷ rs) ++ receiver_jobs rows a.command_type (r ∷ rs))

module _ (resolve : Text → UclNode) (connectable : UclNode → Bool) where
  abbrev pub reachable : List ReceiverPart → List ReceiverPart
  reachable [] = []
  reachable (r ∷ rs) = if connectable (resolve r.launcher) then r ∷ reachable rs else reachable rs

  abbrev pub sender_ok : Option SenderPart → Bool
  sender_ok none = true
  sender_ok (some s) = connectable (resolve s.launcher)

  -- The commands of an application, or why there are none.
  abbrev pub dispatch_app : List FrameworkNode → App → Run (List Job)
  dispatch_app rows a =
      if sender_ok a.sender
      then jobs_of rows a (reachable a.receivers)
      else fail sender_not_connectable

-- What a command is on its way: the address and the document.
abbrev pub addr_of_node : UclNode → Text
addr_of_node n = addr_of n.ip n.port

module _ (resolve : Text → UclNode) (a : App) where
  abbrev pub part : Fields → Fields
  part parts =
      field (text "format_v1")
        (obj (
          field (text "command_type") (str a.command_type)
            (field (text "appli_name") a.name parts)))
        end

  abbrev pub message_of : Job → Text × Fields
  message_of (sender_job s rs) = (
    addr_of_node (resolve s.launcher),
    part (
        field (text "sender") (sender_value (λ k. node (resolve k)) s)
          (field (text "receivers") (arr (receiver_values (λ k. node (resolve k)) rs)) end)),
  )
  message_of (receiver_job r) = (
    addr_of_node (resolve r.launcher),
    part (field (text "receivers") (arr (cons (receiver_value (λ k. node (resolve k)) r) nil)) end),
  )

  abbrev pub messages_of : List Job → List (Text × Fields)
  messages_of [] = []
  messages_of (j ∷ js) = message_of j ∷ messages_of js

  abbrev pub sent_of : Run (List Job) → Run (List (Text × Fields))
  sent_of (ok js) = ok (messages_of js)
  sent_of (fail w) = fail w
  sent_of panic = panic
