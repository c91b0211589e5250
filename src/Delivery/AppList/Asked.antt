-- ===== src/Delivery/AppList/Asked.antt =====
-- The whole of `getAppListFromEachNode` and what the nodes answer.
use ucl_tools.Base.{
  ℕ, ◌≡◌, inl, inr, Bool, true, Option, some, List, [], ◌∷◌, map, if◌then◌else◌, Bool-cases, Text,
  All, concat, int_eq,
}
use ucl_tools.Document.{Run, ok}
use ucl_tools.Document.Decode.{Json}
use ucl_tools.Delivery.Transport.{Fits}
use ucl_tools.Screen.{UclNode, FrameworkNode, Node, framework_node_of, get_framework_node}
use ucl_tools.Route.{get_connectable_node}
use ucl_tools.Gather.{get_app_list_from_each_node, split_comma}
use ucl_tools.Gather.Names.{count_name}
use ucl_tools.Gather.Lists.{all_names}
use ucl_tools.Node.Apps.{Entry}
use ucl_tools.Node.Decode.Parts.{InRange}
use ucl_tools.Delivery.Ports.{PortsInRange}
use ucl_tools.Delivery.AppList.{
  nodes_request, ask_nodes, some_has_app, Hits, Answered, ask_nodes-count,
}

-- The nodes that `getAppListFromEachNode` asks, and what they answer by their directories.
abbrev pub asked : List FrameworkNode → List Node → (UclNode → Bool) → List UclNode
asked rows nodes connectable = get_connectable_node connectable (get_framework_node rows nodes)

unfoldable pub ask_connectable :
    Json
    → List FrameworkNode
    → List Node
    → (UclNode → Bool)
    → (UclNode → List Entry)
    → Run (List (Option (Option Text)))
ask_connectable json rows nodes connectable directory =
    let c_nodes = asked rows nodes connectable in ask_nodes json c_nodes (map directory c_nodes)

abbrev AllPorts : List UclNode → Type 0
AllPorts nodes = All (λ (n : UclNode). InRange n.port) nodes

framework_node_of-AllPorts :
    (r1 : Node) (rows : List FrameworkNode) (rest : List UclNode)
    → PortsInRange rows
    → AllPorts rest
    → AllPorts (framework_node_of r1 rows rest)
unfolding framework_node_of
framework_node_of-AllPorts r1 [] rest h k = k
framework_node_of-AllPorts r1 (r2 ∷ rows) rest h k =
    elim (Bool-cases (int_eq r1.node_id r2.node_id)) [
      | inl e ↦ rw e (h.0, k)
      | inr e ↦ rw e (framework_node_of-AllPorts r1 rows rest h.1 k)
    ]

get_framework_node-AllPorts :
    (rows : List FrameworkNode) (nodes : List Node)
    → PortsInRange rows
    → AllPorts (get_framework_node rows nodes)
unfolding get_framework_node
get_framework_node-AllPorts rows [] h = tt
get_framework_node-AllPorts rows (r1 ∷ nodes) h =
    framework_node_of-AllPorts r1 rows (get_framework_node rows nodes) h
      (get_framework_node-AllPorts rows nodes h)

get_connectable_node-AllPorts :
    (connectable : UclNode → Bool) (nodes : List UclNode)
    → AllPorts nodes
    → AllPorts (get_connectable_node connectable nodes)
unfolding get_connectable_node
get_connectable_node-AllPorts connectable [] h = tt
get_connectable_node-AllPorts connectable (n ∷ nodes) h = elim (Bool-cases (connectable n)) [
  | inl e ↦ rw e (h.0, get_connectable_node-AllPorts connectable nodes h.1)
  | inr e ↦ rw e (get_connectable_node-AllPorts connectable nodes h.1)
]

-- If the connectable nodes of the framework are reached, take the request and answer in their order, the
-- ports of the nodes are of the range of `int`, the text of the request is not empty, is not longer than
-- `max_size` and is read back by a node as what it was written from, no document on the nodes makes one
-- panic, each node that has a list writes it without an error and it is not longer than `max_size`, and
-- the names of the directories that they list are not empty and have no comma: the list that the manager
-- makes has, taken apart at its commas, a name exactly once if on some of these nodes a directory of
-- this name has a document that the node accepts for the connectable nodes, and not at all otherwise.
pub ask_connectable-count :
    (json : Json) (c : ℕ) (k : Text) (rows : List FrameworkNode) (nodes : List Node)
    (connectable : UclNode → Bool) (directory : UclNode → List Entry) (lists : List (List Text))
    → PortsInRange rows
    → Fits json (nodes_request json (asked rows nodes connectable))
    → Hits (asked rows nodes connectable) (map directory (asked rows nodes connectable)) lists
    → Answered lists
    → all_names (concat lists) ≡ true
    → (answers : List (Option (Option Text))) × (l : Text) × (ask_connectable json rows nodes
          connectable directory
        ≡ ok answers)
      × (get_app_list_from_each_node answers ≡ some l)
      × (count_name (c ∷ k) (split_comma l) ≡ (
          if some_has_app
            (asked rows nodes connectable)
            (c ∷ k)
            (map directory (asked rows nodes connectable))
          then 1
          else 0))
unfolding ask_connectable
ask_connectable-count json c k rows nodes connectable directory lists p f h a n =
    ask_nodes-count json c k (asked rows nodes connectable)
      (map directory (asked rows nodes connectable)) lists
      (get_connectable_node-AllPorts connectable (get_framework_node rows nodes)
        (get_framework_node-AllPorts rows nodes p))
      f h a n
