-- ===== src/Startup/Tests.antt =====
-- A node that starts by the definition of a virtual screen of two nodes.
use ucl_tools.Base.{
  ◌≡◌, refl, true, Option, none, some, List, [], ◌∷◌, arith, text, text_eq, itoa, pos,
}
use ucl_tools.Settings.{Interface, get_ipv4_addrs_of_all_interfaces, addrs_of_interfaces, addrs_of}
use ucl_tools.Flags.{parse_flags, value_of}
use ucl_tools.Screen.{
  VScrnDef, Node, FrameworkNode, read_vscrndef, vscrndef_name, get_node_addr,
  get_node_id_and_ip_addr, is_candidate, get_node_port, addr_of, get_framework_node, read_alias_ip,
  alias,
}
use ucl_tools.Screen.Address.{Distinct}
use ucl_tools.Route.Spec.{addr_of_node}
use ucl_tools.Startup.{start_up, node_main}
use ucl_tools.Startup.Meets.{IsListed, node_main-meets}

abbrev two_nodes : List Node
two_nodes =
    record { node_id = pos 0; host_name = text "agl"; ip = text "10.0.0.1" }
    ∷ record { node_id = pos 1; host_name = text "ivi"; ip = text "10.0.0.2" }
    ∷ []

abbrev framework : List FrameworkNode
framework = record { node_id = pos 1; ucl_port = pos 7654; compositor = [] } ∷ []

abbrev screen : VScrnDef
screen = record {
  real_displays = [];
  nodes = two_nodes;
  life_cycle_manager = record { node_id = pos 0; port = pos 7000 };
  framework_node = framework;
}

abbrev own : Option (List Interface)
own = some (some (some (text "10.0.0.2") ∷ []) ∷ [])

two_nodes-Distinct : Distinct two_nodes
two_nodes-Distinct = ground arith

node_main-meets_example :
    IsListed (text "10.0.0.2:7654") (get_framework_node framework two_nodes)
    × (addr_of_node (alias (text "ivi") (read_alias_ip framework two_nodes []))
        ≡ text "10.0.0.2:7654")
unfolding parse_flags value_of read_vscrndef vscrndef_name node_main start_up get_node_addr
    get_ipv4_addrs_of_all_interfaces addrs_of_interfaces addrs_of get_node_id_and_ip_addr
    is_candidate get_node_port addr_of itoa text_eq
node_main-meets_example =
    node_main-meets none (λ file. some []) (λ json. some screen) (λ addr. true) (text "ivi") own []
      [] [] screen (text "10.0.0.2:7654") refl refl two_nodes-Distinct refl
