-- ===== src/Delivery/Ports.antt =====
-- The ports of the nodes that names stand for.
use ucl_tools.Base.{refl, List, [], ◌∷◌, Text, text_eq, All, inl, inr, Bool-cases, int_eq}
use ucl_tools.Document.Decode.{in_int64}
use ucl_tools.Screen.{UclNode, FrameworkNode, Node, alias_port, read_alias_ip, alias}
use ucl_tools.Route.Refines.{resolver}
use ucl_tools.Node.Decode.Parts.{InRange}

-- The ports of the framework's nodes are of the range of `int`.
abbrev pub PortsInRange : List FrameworkNode → Type 0
PortsInRange rows = All (λ (r : FrameworkNode). InRange r.ucl_port) rows

alias_port-InRange :
    (r1 : Node) (rows : List FrameworkNode) → PortsInRange rows → InRange (alias_port r1 rows)
unfolding alias_port in_int64
alias_port-InRange r1 [] h = refl
alias_port-InRange r1 (r2 ∷ rows) h = elim (Bool-cases (int_eq r1.node_id r2.node_id)) [
  | inl e ↦ rw e h.0
  | inr e ↦ rw e (alias_port-InRange r1 rows h.1)
]

abbrev AliasInRange : Text × UclNode → Type 0
AliasInRange e = InRange e.1.port

alias-InRange :
    (key : Text) (aip : List (Text × UclNode)) → All AliasInRange aip → InRange (alias key aip).port
unfolding alias in_int64
alias-InRange key [] h = refl
alias-InRange key ((name, node) ∷ aip) h = elim (Bool-cases (text_eq name key)) [
  | inl e ↦ rw e h.0
  | inr e ↦ rw e (alias-InRange key aip h.1)
]

read_alias_ip-InRange :
    (rows : List FrameworkNode) (nodes : List Node) (aip : List (Text × UclNode))
    → PortsInRange rows
    → All AliasInRange aip
    → All AliasInRange (read_alias_ip rows nodes aip)
unfolding read_alias_ip
read_alias_ip-InRange rows [] aip h k = k
read_alias_ip-InRange rows (r1 ∷ nodes) aip h k =
    read_alias_ip-InRange rows nodes
      ((r1.host_name, record { ip = r1.ip; port = alias_port r1 rows; host_name = [] }) ∷ aip) h
      (alias_port-InRange r1 rows h, k)

-- Every name stands for a node with such a port.
pub resolver-InRange :
    (rows : List FrameworkNode) (nodes : List Node)
    → PortsInRange rows
    → (key : Text) → InRange (resolver rows nodes key).port
resolver-InRange rows nodes h key =
    alias-InRange key (read_alias_ip rows nodes []) (read_alias_ip-InRange rows nodes [] h tt)
