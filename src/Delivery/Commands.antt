-- ===== src/Delivery/Commands.antt =====
-- What the nodes of an application read.
use ucl_tools.Base.{
  ◌≡◌, refl, ap, ◌∙◌, inl, inr, Bool, true, not, ◌&&◌, Option, none, some, List, [], ◌∷◌, map, Text,
  text, text_eq, All, Bool-cases,
}
use ucl_tools.Document.{str, node, obj, ok}
use ucl_tools.Document.Decode.{Json, PrintsExact, marshal, marshal_items, same_key, into_items}
use ucl_tools.Screen.{UclNode, FrameworkNode, Node, is_recv_compositor}
use ucl_tools.Route.{is_remote}
use ucl_tools.Route.Spec.{
  receiver_values, reachable, receiver_jobs, sender_ok, jobs_of, sent_of, message_of, messages_of,
  sender_job, receiver_job, dispatch_app,
}
use ucl_tools.Route.Refines.{resolver, dispatch_comm_to_nodes_refines}
use ucl_tools.Node.Command.{Sender, Receiver}
use ucl_tools.Node.Decode.{decode_command, set_format, set_receiver, zero_receiver}
use ucl_tools.Node.Decode.Parts.{InRange, BackendExact, SenderExact, sender_part, receiver_part}
use ucl_tools.Node.Decode.Encoded.{receiver_read, sender_read}
use ucl_tools.Delivery.{
  Application, opt_part, app_of, application_document, deliver_read, deliver, placed_receiver,
  sender_command, receiver_command, receiver_commands, kept, is_placed, commands_for, delivery,
}
use ucl_tools.Route.Dispatch.{dispatch_comm_to_nodes}
use ucl_tools.Delivery.Transport.{AllFit, run_map, decoded, received-decoded}
use ucl_tools.Delivery.Ports.{PortsInRange, resolver-InRange}

-- The numbers of an application are such that float64 holds them.
abbrev pub OptSenderExact : Option Sender → Type 0
OptSenderExact none = Unit
OptSenderExact (some s) = SenderExact s

abbrev pub ReceiversExact : List Receiver → Type 0
ReceiversExact rs = All (λ (r : Receiver). BackendExact r.backend_params) rs

module _ (json : Json) (prints : PrintsExact json.print) (resolve : Text → UclNode)
    (ranged : (key : Text) → InRange (resolve key).port) where
  receivers_read :
      (rs : List Receiver)
      → ReceiversExact rs
      → into_items set_receiver zero_receiver
          (marshal_items json.print
            (receiver_values (λ k. node (resolve k)) (map receiver_part rs)))
          []
        ≡ some (map (placed_receiver resolve) rs)
  receivers_read [] h = refl
  receivers_read (r ∷ rs) h =
      rw
        (
          receiver_read json.print prints resolve r (ranged r.launcher.host_name) h.0,
          receivers_read rs h.1,
        )
        refl

  module _ (a : Application) where
    sender_delivered :
        (s : Sender) (rs : List Receiver)
        → SenderExact s
        → ReceiversExact rs
        → decode_command (
            marshal json.print (
              obj
                (message_of resolve
                  (app_of a)
                  (sender_job (sender_part s) (map receiver_part rs))).1))
          ≡ (sender_command resolve a s rs).1
    unfolding decode_command set_format same_key
    sender_delivered s rs f h =
        rw
          (
            sender_read json.print prints resolve s (ranged s.launcher.host_name) f,
            receivers_read rs h,
          )
          refl

    receiver_delivered :
        (r : Receiver)
        → BackendExact r.backend_params
        → decode_command (
            marshal json.print
              (obj (message_of resolve (app_of a) (receiver_job (receiver_part r))).1))
          ≡ (receiver_command resolve a r).1
    unfolding decode_command set_format same_key
    receiver_delivered r h =
        rw (receiver_read json.print prints resolve r (ranged r.launcher.host_name) h) refl

    jobs_delivered :
        (rows : List FrameworkNode) (rs : List Receiver)
        → ReceiversExact rs
        → decoded json (
            messages_of resolve
              (app_of a)
              (receiver_jobs rows a.command_type (map receiver_part rs)))
          ≡ receiver_commands resolve rows a rs
    jobs_delivered rows [] h = refl
    jobs_delivered rows (r ∷ rs) h =
        let skipped =
          not (text_eq a.command_type (text "launch_compositors"))
          && is_recv_compositor r.backend_params.listen_port rows in
        let rest = jobs_delivered rows rs h.1 in
        elim (Bool-cases skipped) [
          | inl e ↦ rw e rest
          | inr e ↦ rw (e, receiver_delivered r h.0, rest) refl
        ]

    all_delivered :
        (rows : List FrameworkNode) (o : Option Sender) (rs : List Receiver)
        → a.sender ≡ o
        → OptSenderExact o
        → ReceiversExact rs
        → run_map
            (decoded json)
            (sent_of resolve (app_of a) (jobs_of rows (app_of a) (map receiver_part rs)))
          ≡ commands_for resolve rows a rs
    all_delivered rows o [] e f h = refl
    all_delivered rows none (r ∷ rs) e f h = rw e (ap ok (jobs_delivered rows (r ∷ rs) h))
    all_delivered rows (some s) (r ∷ rs) e f h =
        rw (e, sender_delivered s (r ∷ rs) f h)
          (ap (λ x. ok (sender_command resolve a s (r ∷ rs) ∷ x)) (jobs_delivered rows (r ∷ rs) h))

  reachable_parts :
      (connectable : UclNode → Bool) (rs : List Receiver)
      → reachable resolve connectable (map receiver_part rs)
        ≡ map receiver_part (kept resolve connectable rs)
  reachable_parts connectable [] = refl
  reachable_parts connectable (r ∷ rs) =
      elim (Bool-cases (connectable (resolve r.launcher.host_name))) [
        | inl e ↦ rw (e, reachable_parts connectable rs) refl
        | inr e ↦ rw (e, reachable_parts connectable rs) refl
      ]

  kept-Exact :
      (connectable : UclNode → Bool) (rs : List Receiver)
      → ReceiversExact rs
      → ReceiversExact (kept resolve connectable rs)
  kept-Exact connectable [] h = tt
  kept-Exact connectable (r ∷ rs) h =
      elim (Bool-cases (connectable (resolve r.launcher.host_name))) [
        | inl e ↦ rw e (h.0, kept-Exact connectable rs h.1)
        | inr e ↦ rw e (kept-Exact connectable rs h.1)
      ]

  placed_part :
      (connectable : UclNode → Bool) (o : Option Sender)
      → sender_ok resolve connectable (opt_part o) ≡ is_placed resolve connectable o
  placed_part connectable none = refl
  placed_part connectable (some s) = refl

  app_delivered :
      (rows : List FrameworkNode) (connectable : UclNode → Bool) (a : Application)
      → OptSenderExact a.sender
      → ReceiversExact a.receivers
      → run_map
          (decoded json)
          (sent_of resolve (app_of a) (dispatch_app resolve connectable rows (app_of a)))
        ≡ delivery resolve rows connectable a
  app_delivered rows connectable a f h =
      let ks = kept resolve connectable a.receivers in
      rw (placed_part connectable a.sender, reachable_parts connectable a.receivers)
        (elim (Bool-cases (is_placed resolve connectable a.sender)) [
          | inl e ↦
              rw e (all_delivered a rows a.sender ks refl f (kept-Exact connectable a.receivers h))
          | inr e ↦ rw e refl
        ])

-- For a text that the manager reads as an application of one of the three types with displays: if
-- float64 holds the numbers of the application, and `json.Marshal` writes a number that float64 holds
-- with its own digits, if the nodes' ports are of the range of `int`, and if the text of each command
-- that is sent is not empty, is not longer than `max_size`, and is read back by a node as what it was
-- written from: over connections that take what is written on them, the manager sends the commands of
-- the document, and the nodes read them, as `delivery` says. Where its sender, if it has one, and some
-- receiver are on nodes that can be connected to, the node of the sender gets the sender with every such
-- receiver, and the node of each such receiver, unless a compositor of the screen serves it for another
-- type than that of the compositors, gets it alone; each part is what the application has, with the node
-- in place of the name. Otherwise nothing is sent.
pub deliver-delivery :
    (json : Json) (rows : List FrameworkNode) (nodes : List Node) (connectable : UclNode → Bool)
    (a : Application) (command : Text)
    → PrintsExact json.print
    → json.read command ≡ some (application_document a)
    → AllFit json (dispatch_comm_to_nodes rows nodes connectable (application_document a))
    → is_remote (str a.command_type) ≡ true
    → PortsInRange rows
    → OptSenderExact a.sender
    → ReceiversExact a.receivers
    → deliver json rows nodes connectable command
      ≡ delivery (resolver rows nodes) rows connectable a
unfolding deliver
deliver-delivery json rows nodes connectable a command prints e fit t p f h =
    ap (deliver_read json rows nodes connectable) e
    ∙ received-decoded json (dispatch_comm_to_nodes rows nodes connectable (application_document a))
        fit
    ∙ rw (dispatch_comm_to_nodes_refines rows nodes connectable (app_of a) t) (
        app_delivered json prints (resolver rows nodes) (resolver-InRange rows nodes p) rows
          connectable a f h)
