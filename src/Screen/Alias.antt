-- ===== src/Screen/Alias.antt =====
-- The nodes of the framework and the map of aliases.
use ucl_tools.Base.{
  ◌≡◌, refl, ap, ◌∙◌, Option, none, some, List, [], ◌∷◌, ◌++◌, map, arith, if◌then◌else◌, Text,
  text_eq, concat, pos,
}
use ucl_tools.Screen.{
  Node, FrameworkNode, UclNode, get_node_port, framework_node_of, get_framework_node, alias_port,
  read_alias_ip, alias,
}

-- The entry of a row, if the framework runs on its node.
abbrev pub entry_of : List FrameworkNode → Node → List UclNode
entry_of rows r1 = elim (get_node_port r1.node_id rows) [
  | none ↦ []
  | some port ↦ record { ip = r1.ip; port = port; host_name = r1.host_name } ∷ []
]

pub framework_node_of-entry :
    (r1 : Node) (rows : List FrameworkNode) (rest : List UclNode)
    → framework_node_of r1 rows rest ≡ entry_of rows r1 ++ rest
unfolding framework_node_of get_node_port
framework_node_of-entry r1 [] rest = refl
framework_node_of-entry r1 (r2 ∷ rows) rest = ground (arith, framework_node_of-entry r1 rows rest)

-- The nodes of the framework are the rows whose id has a port, in order, each with the port that
-- `GetNodePort` finds for it: a node appears once for each of its rows, however often its id appears
-- among the framework's.
pub get_framework_node-entries :
    (rows : List FrameworkNode) (nodes : List Node)
    → get_framework_node rows nodes ≡ concat (map (entry_of rows) nodes)
unfolding get_framework_node
get_framework_node-entries rows [] = refl
get_framework_node-entries rows (r1 ∷ nodes) =
    framework_node_of-entry r1 rows (get_framework_node rows nodes)
    ∙ ap (λ rest. entry_of rows r1 ++ rest) (get_framework_node-entries rows nodes)

alias_port-get_node_port :
    (r1 : Node) (rows : List FrameworkNode)
    → alias_port r1 rows
      ≡ (elim (get_node_port r1.node_id rows) [ none ↦ pos 0 | some port ↦ port ])
unfolding alias_port get_node_port
alias_port-get_node_port r1 [] = refl
alias_port-get_node_port r1 (r2 ∷ rows) = ground (arith, alias_port-get_node_port r1 rows)

-- The last row of a name.
abbrev pub last_row : Text → List Node → Option Node
last_row name [] = none
last_row name (r ∷ rows) = elim (last_row name rows) [
  | none ↦ if text_eq r.host_name name then some r else none
  | some q ↦ some q
]

-- What a name stands for: its last row, or what it stood for before.
abbrev pub resolved : List FrameworkNode → Option Node → UclNode → UclNode
resolved rows none before = before
resolved rows (some r) before = record {
  ip = r.ip;
  port = elim (get_node_port r.node_id rows) [ none ↦ pos 0 | some port ↦ port ];
  host_name = [];
}

read_alias_ip_from :
    (rows : List FrameworkNode) (nodes : List Node) (aip : List (Text × UclNode)) (name : Text)
    → alias name (read_alias_ip rows nodes aip)
      ≡ resolved rows (last_row name nodes) (alias name aip)
unfolding read_alias_ip alias
read_alias_ip_from rows [] aip name = refl
read_alias_ip_from rows (r ∷ nodes) aip name =
    read_alias_ip_from rows nodes
      ((r.host_name, record { ip = r.ip; port = alias_port r rows; host_name = [] }) ∷ aip) name
    ∙ rw (alias_port-get_node_port r rows) (ground arith)

-- An alias stands for the address of the last row with that name, with the port that `GetNodePort`
-- finds for the row or 0; a name without a row stands for the node with no address and port 0.
pub read_alias_ip_lem :
    (rows : List FrameworkNode) (nodes : List Node) (name : Text)
    → alias name (read_alias_ip rows nodes [])
      ≡ resolved rows (last_row name nodes) (record { ip = []; port = pos 0; host_name = [] })
unfolding alias
read_alias_ip_lem rows nodes name = read_alias_ip_from rows nodes [] name
