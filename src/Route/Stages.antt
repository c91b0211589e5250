-- ===== src/Route/Stages.antt =====
-- The stages of `dispatchCommToNodes` on the document of an application.
use ucl_tools.Base.{
  ◌≡◌, refl, sym, ap, inl, inr, Bool, true, false, Option, none, some, List, [], ◌∷◌, ◌++◌,
  append-nil, arith, if◌then◌else◌, Bool-cases, Text, text, text_eq,
}
use ucl_tools.Route.Nodes.{
  app, node_eq_iff, at, add_nodes, sender_node, exist-connectable, add_nodes-keeps,
}
use ucl_tools.Document.{
  Value, str, node, Fields, get, put, Run, ok, fail, ◌>>=◌, sender_not_connectable,
  no_connectable_receivers,
}
use ucl_tools.Screen.{UclNode, FrameworkNode, is_recv_compositor, alias}
use ucl_tools.Route.{is_exist_node, get_connectable_node, is_remote}
use ucl_tools.Route.Remove.{keep_receivers, check_sender, check_receivers, remove_disconnect_node}
use ucl_tools.Route.Split.{
  get_distrib_node_addr, is_skipped, split_receivers, split_command_for_each_node,
}
use ucl_tools.Route.Expand.{expand_launcher, expand_receivers, expand_part, expand_alias_node}
use ucl_tools.Route.Dispatch.{with_addrs}
use ucl_tools.Route.Spec.{
  SenderPart, ReceiverPart, App, receiver_values, format_of, document_of, Job, sender_job,
  receiver_job, receiver_jobs, sender_ok, sender_jobs, jobs_of, message_of, messages_of, sent_of,
}

module _ (aip : List (Text × UclNode)) where
  abbrev pub resolved : Text → Value
  resolved key = node (alias key aip)

  expand_values :
      (rs : List ReceiverPart)
      → expand_receivers aip (receiver_values str rs) ≡ ok (receiver_values resolved rs)
  unfolding expand_receivers expand_launcher get put text_eq
  expand_values [] = refl
  expand_values (r ∷ rs) = rw (expand_values rs) refl

  pub expand_document :
      (kind : Text) (name : Value) (sender : Option SenderPart) (rs : List ReceiverPart)
      → is_remote (str kind) ≡ true
      → expand_alias_node aip (document_of str (app kind name sender rs) rs)
        ≡ ok (document_of resolved (app kind name sender rs) rs)
  unfolding expand_alias_node expand_part expand_launcher get put text_eq
  expand_document kind name none rs h = rw (h, expand_values rs) refl
  expand_document kind name (some s) rs h = rw (h, expand_values rs) refl

-- The sender, if there is one, is among the nodes.
abbrev pub sender_found : (Text → UclNode) → List UclNode → Option SenderPart → Bool
sender_found resolve c none = true
sender_found resolve c (some s) = is_exist_node c (resolve s.launcher)

module _ (resolve : Text → UclNode) where
  abbrev pub removed : App → List ReceiverPart → Run Fields
  removed a [] = fail no_connectable_receivers
  removed a (r ∷ rs) = ok (document_of (at resolve) a (r ∷ rs))

  pub remove_document :
      (c : List UclNode) (kind : Text) (name : Value) (sender : Option SenderPart)
      (rs ks : List ReceiverPart) (b : Bool)
      → is_remote (str kind) ≡ true
      → keep_receivers c (receiver_values (at resolve) rs) ≡ ok (receiver_values (at resolve) ks)
      → sender_found resolve c sender ≡ b
      → remove_disconnect_node (document_of (at resolve) (app kind name sender rs) rs) c
        ≡ (if b then removed (app kind name sender rs) ks else fail sender_not_connectable)
  unfolding remove_disconnect_node check_sender check_receivers get put text_eq
  remove_document c kind name none rs [] b h k e = rw (sym e, h, k) refl
  remove_document c kind name none rs (r ∷ ks) b h k e = rw (sym e, h, k) refl
  remove_document c kind name (some s) rs ks false h k e = rw (h, e) refl
  remove_document c kind name (some s) rs [] true h k e = rw (h, e, k) refl
  remove_document c kind name (some s) rs (r ∷ ks) true h k e = rw (h, e, k) refl

  module _ (rows : List FrameworkNode) (kind : Text) (name : Value) (sender : Option SenderPart)
      (all : List ReceiverPart) where
    abbrev pub bodies : List Job → List Fields
    bodies [] = []
    bodies (j ∷ js) = (message_of resolve (app kind name sender all) j).1 ∷ bodies js

    split_values :
        (f : Fields)
        → get (text "command_type") f ≡ str kind
        → get (text "appli_name") f ≡ name
        → (ks : List ReceiverPart)
        → split_receivers rows f (receiver_values (at resolve) ks)
          ≡ ok (bodies (receiver_jobs rows kind ks))
    unfolding split_receivers is_skipped
    split_values f t n [] = refl
    split_values f t n (r ∷ ks) = elim (Bool-cases (text_eq kind (text "launch_compositors"))) [
      | inl l ↦ rw (t, n, l, split_values f t n ks) refl
      | inr l ↦ elim (Bool-cases (is_recv_compositor r.port rows)) [
        | inl c ↦ rw (t, n, l, split_values f t n ks, c) (unfold get text_eq in rw c refl)
        | inr c ↦ rw (t, n, l, split_values f t n ks, c) (unfold get text_eq in rw c refl)
      ]
    ]

    bodies-append : (js ks : List Job) → bodies (js ++ ks) ≡ bodies js ++ bodies ks
    bodies-append [] ks = refl
    bodies-append (j ∷ js) ks =
        ap (λ x. (message_of resolve (app kind name sender all) j).1 ∷ x) (bodies-append js ks)

    pub with_addrs-bodies :
        (js : List Job)
        → with_addrs (bodies js) ≡ ok (messages_of resolve (app kind name sender all) js)
    unfolding with_addrs get_distrib_node_addr get text_eq
    with_addrs-bodies [] = refl
    with_addrs-bodies (sender_job s rs ∷ js) = rw (with_addrs-bodies js) refl
    with_addrs-bodies (receiver_job r ∷ js) = rw (with_addrs-bodies js) refl

pub split_document :
    (resolve : Text → UclNode) (rows : List FrameworkNode) (kind : Text) (name : Value)
    (sender : Option SenderPart) (all ks : List ReceiverPart)
    → split_command_for_each_node rows (document_of (at resolve) (app kind name sender all) ks)
      ≡ ok (
          bodies resolve rows kind name sender all
            (sender_jobs sender ks ++ receiver_jobs rows kind ks))
unfolding split_command_for_each_node get text_eq
split_document resolve rows kind name none all ks =
    rw
      (split_values resolve rows kind name none all
        (format_of (at resolve) (app kind name none all) ks) refl refl ks)
      (ap ok (append-nil (bodies resolve rows kind name none all (receiver_jobs rows kind ks))))
split_document resolve rows kind name (some s) all ks =
    rw
      (split_values resolve rows kind name (some s) all
        (format_of (at resolve) (app kind name (some s) all) ks) refl refl ks)
      (ap (λ js. ok ((message_of resolve (app kind name (some s) all) (sender_job s ks)).1 ∷ js))
        (append-nil (bodies resolve rows kind name (some s) all (receiver_jobs rows kind ks))))

pub sender_connectable :
    (resolve : Text → UclNode) (connectable : UclNode → Bool) (sender : Option SenderPart)
    (rs : List ReceiverPart)
    → sender_found resolve
        (get_connectable_node connectable (add_nodes resolve (sender_node resolve sender) rs))
        sender
      ≡ sender_ok resolve connectable sender
unfolding is_exist_node
sender_connectable resolve connectable none rs = refl
sender_connectable resolve connectable (some s) rs =
    let n = resolve s.launcher in
    ground (
      arith,
      exist-connectable connectable (add_nodes resolve (n ∷ []) rs) n,
      add_nodes-keeps resolve (n ∷ []) rs n,
      node_eq_iff n n,
    )

pub send_kept :
    (resolve : Text → UclNode) (rows : List FrameworkNode) (a : App) (b : Bool)
    (ks : List ReceiverPart)
    → ((if b then removed resolve a ks else fail sender_not_connectable) >>= λ m.
        split_command_for_each_node rows m >>= λ jobs. with_addrs jobs)
      ≡ sent_of resolve a (if b then jobs_of rows a ks else fail sender_not_connectable)
send_kept resolve rows a false ks = refl
send_kept resolve rows a true [] = refl
send_kept resolve rows a true (r ∷ ks) =
    let jobs = sender_jobs a.sender (r ∷ ks) ++ receiver_jobs rows a.command_type (r ∷ ks) in
    rw (split_document resolve rows a.command_type a.name a.sender a.receivers (r ∷ ks))
      (with_addrs-bodies resolve rows a.command_type a.name a.sender a.receivers jobs)
