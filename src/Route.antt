-- ===== src/Route.antt =====
-- cmd/ucl-lifecycle-manager/ucl_lifecycle_manager.go: from the document of an application to one
-- command for each of its nodes.
pub mod Remove
pub mod Split
pub mod Expand
pub mod Dispatch
pub mod Receivers
pub mod Addresses
pub mod Spec
pub mod Nodes
pub mod Stages
pub mod Refines
mod Tests
use ucl_tools.Base.{
  Bool, false, ◌&&◌, ◌||◌, List, [], ◌∷◌, if◌then◌else◌, Text, text, text_eq, int_eq,
}
use ucl_tools.Document.{Value, Fields, Run, ◌>>=◌, ◌>>◌, get, is_str, as_node}
use ucl_tools.Screen.{UclNode, addr_of}

-- `==` of two `ucl.UclNode`.
unfoldable pub node_eq : UclNode → UclNode → Bool
node_eq a b = text_eq a.ip b.ip && int_eq a.port b.port && text_eq a.host_name b.host_name

-- `isExistNode`.
unfoldable pub is_exist_node : List UclNode → UclNode → Bool
unfolding node_eq
is_exist_node [] chk = false
is_exist_node (n ∷ nodes) chk = node_eq n chk || is_exist_node nodes chk

-- `chkConnectableNode`, over whether `net.DialTimeout` reaches an address.
unfoldable pub chk_connectable_node : (Text → Bool) → UclNode → Bool
chk_connectable_node dials n = dials (addr_of n.ip n.port)

-- `getConnectableNode`; `connectable` is what `chkConnectableNode` finds of a node.
unfoldable pub get_connectable_node : (UclNode → Bool) → List UclNode → List UclNode
get_connectable_node connectable [] = []
get_connectable_node connectable (n ∷ nodes) =
    let rest = get_connectable_node connectable nodes in if connectable n then n ∷ rest else rest

-- `case "remote_virtio_gpu", "transport", "launch_compositors"`.
abbrev pub is_remote : Value → Bool
is_remote t =
    is_str t (text "remote_virtio_gpu")
    || is_str t (text "transport")
    || is_str t (text "launch_compositors")

abbrev pub is_local : Value → Bool
is_local t = is_str t (text "local")

abbrev pub command_type : Fields → Value
command_type f = get (text "command_type") f

-- `x["launcher"].(ucl.UclNode)`.
abbrev pub launcher_node : Fields → Run UclNode
launcher_node x = as_node (get (text "launcher") x)
