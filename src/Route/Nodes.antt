-- ===== src/Route/Nodes.antt =====
-- The nodes of an application, and those of them that are connectable.
use ucl_tools.Base.{
  ◌≡◌, refl, ap, ◌↔◌, inl, inr, Bool, true, ◌&&◌, ◌||◌, Option, none, some, List, [], ◌∷◌, ◌++◌,
  arith, if◌then◌else◌, Bool-cases, Text, text_eq, text_eq_iff, int_eq_iff, All,
}
use ucl_tools.Document.{Value, str, node, get, ok}
use ucl_tools.Screen.{UclNode}
use ucl_tools.Route.{node_eq, is_exist_node, get_connectable_node, is_remote}
use ucl_tools.Route.Remove.{keep_receivers}
use ucl_tools.Route.Split.{add_receivers, sender_nodes, get_distrib_node}
use ucl_tools.Route.Spec.{SenderPart, ReceiverPart, App, receiver_values, document_of, reachable}

abbrev pub app : Text → Value → Option SenderPart → List ReceiverPart → App
app kind name sender rs = record {
  command_type = kind;
  name = name;
  sender = sender;
  receivers = rs;
}

pub node_eq_iff : (a b : UclNode) → (node_eq a b ≡ true) ↔ (a ≡ b)
unfolding node_eq
node_eq_iff a b =
    ground
      (arith, text_eq_iff a.ip b.ip, int_eq_iff a.port b.port, text_eq_iff a.host_name b.host_name)

module _ (resolve : Text → UclNode) where
  abbrev pub at : Text → Value
  at key = node (resolve key)

  -- The nodes of an application: that of the sender, and then those of the receivers that are new.
  abbrev pub add_nodes : List UclNode → List ReceiverPart → List UclNode
  add_nodes ds [] = ds
  add_nodes ds (r ∷ rs) =
      add_nodes
        (if is_exist_node ds (resolve r.launcher) then ds else ds ++ resolve r.launcher ∷ []) rs

  abbrev pub sender_node : Option SenderPart → List UclNode
  sender_node none = []
  sender_node (some s) = resolve s.launcher ∷ []

  pub add_values :
      (ds : List UclNode) (rs : List ReceiverPart)
      → add_receivers ds (receiver_values at rs) ≡ ok (add_nodes ds rs)
  unfolding add_receivers get text_eq
  add_values ds [] = refl
  add_values ds (r ∷ rs) =
      add_values
        (if is_exist_node ds (resolve r.launcher) then ds else ds ++ resolve r.launcher ∷ []) rs

  pub nodes_of_document :
      (kind : Text) (name : Value) (sender : Option SenderPart) (rs : List ReceiverPart)
      → is_remote (str kind) ≡ true
      → get_distrib_node (document_of at (app kind name sender rs) rs)
        ≡ ok (add_nodes (sender_node sender) rs)
  unfolding get_distrib_node sender_nodes get text_eq
  nodes_of_document kind name none rs h = rw h (add_values [] rs)
  nodes_of_document kind name (some s) rs h = rw h (add_values (resolve s.launcher ∷ []) rs)

pub exist-append :
    (ns : List UclNode) (n k : UclNode)
    → is_exist_node (ns ++ n ∷ []) k ≡ (is_exist_node ns k || node_eq n k)
unfolding is_exist_node
exist-append [] n k = ground arith
exist-append (m ∷ ns) n k = ground (arith, exist-append ns n k)

-- Of the nodes, those are left that are connectable.
pub exist-connectable :
    (connectable : UclNode → Bool) (ns : List UclNode) (k : UclNode)
    → is_exist_node (get_connectable_node connectable ns) k ≡ (connectable k && is_exist_node ns k)
unfolding is_exist_node get_connectable_node
exist-connectable connectable [] k = ground arith
exist-connectable connectable (n ∷ ns) k = elim (Bool-cases (node_eq n k)) [
  | inl e ↦
      let same : n ≡ k = (node_eq_iff n k).0 e in
      ground (arith, exist-connectable connectable ns k, e, ap connectable same)
  | inr e ↦ ground (arith, exist-connectable connectable ns k, e)
]

module _ (resolve : Text → UclNode) where
  pub add_nodes-keeps :
      (ds : List UclNode) (rs : List ReceiverPart) (k : UclNode)
      → is_exist_node ds k ≡ true
      → is_exist_node (add_nodes resolve ds rs) k ≡ true
  add_nodes-keeps ds [] k h = h
  add_nodes-keeps ds (r ∷ rs) k h =
      add_nodes-keeps
        (if is_exist_node ds (resolve r.launcher) then ds else ds ++ resolve r.launcher ∷ []) rs k
        (ground (arith, exist-append ds (resolve r.launcher) k, h))

  pub add_nodes-has :
      (ds : List UclNode) (rs : List ReceiverPart)
      → All (λ r. is_exist_node (add_nodes resolve ds rs) (resolve r.launcher) ≡ true) rs
  add_nodes-has ds [] = tt
  add_nodes-has ds (r ∷ rs) =
      let more =
        if is_exist_node ds (resolve r.launcher) then ds else ds ++ resolve r.launcher ∷ [] in
      (
        add_nodes-keeps more rs (resolve r.launcher) (
            ground (
              arith,
              exist-append ds (resolve r.launcher) (resolve r.launcher),
              node_eq_iff (resolve r.launcher) (resolve r.launcher),
            )),
        add_nodes-has more rs,
      )

  module _ (connectable : UclNode → Bool) (ns : List UclNode) where
    abbrev pub c_nodes : List UclNode
    c_nodes = get_connectable_node connectable ns

    pub keep_values :
        (rs : List ReceiverPart)
        → All (λ r. is_exist_node ns (resolve r.launcher) ≡ true) rs
        → keep_receivers c_nodes (receiver_values (at resolve) rs)
          ≡ ok (receiver_values (at resolve) (reachable resolve connectable rs))
    unfolding keep_receivers get text_eq
    keep_values [] h = refl
    keep_values (r ∷ rs) (h, hs) =
        rw (exist-connectable connectable ns (resolve r.launcher), h, keep_values rs hs)
          (elim (Bool-cases (connectable (resolve r.launcher))) [
            | inl e ↦ rw e refl
            | inr e ↦ rw e refl
          ])
