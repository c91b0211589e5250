-- ===== src/Screen.antt =====
-- internal/ucl/virtual_screen_def.go: the virtual screen definition and the questions about it. An
-- error is `none`; the values that the code returns beside an error are not used by its callers.
pub mod Address
pub mod Alias
use ucl_tools.Base.{
  ◌+◌, ◌/◌, Bool, false, not, ◌&&◌, ◌||◌, Option, none, some, List, [], ◌∷◌, ◌++◌, if◌then◌else◌,
  Text, text, text_eq, ℤ, int_eq, itoa, pos,
}
use ucl_tools.Settings.{Interface, get_env, get_ipv4_addrs_of_all_interfaces}

pub record RealDisplay : Type 0 where
  pub node_id : ℤ
  pub v_display_id : ℤ
  pub pixel_w : ℤ
  pub pixel_h : ℤ
  pub r_display_id : ℤ

pub record Node : Type 0 where
  pub node_id : ℤ
  pub host_name : Text
  pub ip : Text

pub record LifeCycleManager : Type 0 where
  pub node_id : ℤ
  pub port : ℤ

pub record Compositor : Type 0 where
  pub v_display_ids : List ℤ
  pub ivi_surface_id : ℤ
  pub sock_domain_name : Text
  pub listen_port : ℤ

pub record FrameworkNode : Type 0 where
  pub node_id : ℤ
  pub ucl_port : ℤ
  pub compositor : List Compositor

pub record VScrnDef : Type 0 where
  pub real_displays : List RealDisplay
  pub nodes : List Node
  pub life_cycle_manager : LifeCycleManager
  pub framework_node : List FrameworkNode

pub record UclNode : Type 0 where
  pub ip : Text
  pub port : ℤ
  pub host_name : Text

infixl 5 ◌>>=◌
abbrev pub ◌>>=◌ {ℓ κ} : {A : Type ℓ} {B : Type κ} → Option A → (A → Option B) → Option B
none >>= f = none
some a >>= f = f a

abbrev pub vscrndef_file : Text
vscrndef_file = text "/etc/uhmi-framework/virtual-screen-def.json"

-- The file that `ReadVScrnDef` opens; `vsdpath` is what the environment has for `VSDPATH`.
unfoldable pub vscrndef_name : List Text → Option Text → Text
unfolding get_env
vscrndef_name [] vsdpath = get_env vsdpath vscrndef_file
vscrndef_name (path ∷ _) vsdpath =
    if not (text_eq path []) then path else get_env vsdpath vscrndef_file

-- `ReadVScrnDef`, over what opening and reading a file gives and over `json.Unmarshal`.
unfoldable pub read_vscrndef :
    List Text → Option Text → (Text → Option Text) → (Text → Option VScrnDef) → Option VScrnDef
unfolding vscrndef_name
read_vscrndef vsd_path vsdpath read_file unmarshal = do
  json ← read_file (vscrndef_name vsd_path vsdpath)
  unmarshal json

-- `GetNodeIdByHostName`, over the rows of `Nodes`.
unfoldable pub get_node_id_by_host_name : Text → List Node → Option ℤ
get_node_id_by_host_name hostname [] = none
get_node_id_by_host_name hostname (r ∷ rows) =
    if text_eq hostname r.host_name then some r.node_id else get_node_id_by_host_name hostname rows

-- Some address of the host is this one.
unfoldable pub is_candidate : Text → List Text → Bool
is_candidate ip [] = false
is_candidate ip (a ∷ ip_addrs) = text_eq a ip || is_candidate ip ip_addrs

-- `GetIpAddrByNodeIdAndIpCandidateList`.
unfoldable pub get_ip_addr_by_candidates : List Text → ℤ → List Node → Option Text
unfolding is_candidate
get_ip_addr_by_candidates ip_addrs node_id [] = none
get_ip_addr_by_candidates ip_addrs node_id (r ∷ rows) =
    if int_eq node_id r.node_id && is_candidate r.ip ip_addrs
    then some r.ip
    else get_ip_addr_by_candidates ip_addrs node_id rows

-- `GetMyNodeId`, over what `os.Hostname` returns.
unfoldable pub get_my_node_id : Option Text → VScrnDef → Option ℤ
unfolding get_node_id_by_host_name
get_my_node_id hostname v = do name ← hostname; get_node_id_by_host_name name v.nodes

-- `GetMyIpv4Addr`, over what `os.Hostname` and `net.Interfaces` return.
unfoldable pub get_my_ipv4_addr : Option Text → Option (List Interface) → VScrnDef → Option Text
unfolding get_node_id_by_host_name get_ipv4_addrs_of_all_interfaces get_ip_addr_by_candidates
get_my_ipv4_addr hostname ifaces v = do
  name ← hostname
  node_id ← get_node_id_by_host_name name v.nodes
  ip_addrs ← get_ipv4_addrs_of_all_interfaces ifaces
  get_ip_addr_by_candidates ip_addrs node_id v.nodes

-- `GetIpAddr`.
unfoldable pub get_ip_addr : ℤ → List Node → Option Text
get_ip_addr node_id [] = none
get_ip_addr node_id (r ∷ rows) =
    if int_eq node_id r.node_id then some r.ip else get_ip_addr node_id rows

-- `GetNodeIdAndIpAddr`.
unfoldable pub get_node_id_and_ip_addr : List Text → Text → List Node → Option (ℤ × Text)
unfolding is_candidate
get_node_id_and_ip_addr ip_addrs hostname [] = none
get_node_id_and_ip_addr ip_addrs hostname (r ∷ rows) =
    if text_eq hostname r.host_name && is_candidate r.ip ip_addrs
    then some (r.node_id, r.ip)
    else get_node_id_and_ip_addr ip_addrs hostname rows

-- `GetNodePort`, over the rows of `FrameworkNode`.
unfoldable pub get_node_port : ℤ → List FrameworkNode → Option ℤ
get_node_port node_id [] = none
get_node_port node_id (r ∷ rows) =
    if int_eq node_id r.node_id then some r.ucl_port else get_node_port node_id rows

-- `ip + ":" + strconv.Itoa(port)`.
unfoldable pub addr_of : Text → ℤ → Text
addr_of ip port = ip ++ (b':' ∷ itoa port)

-- `GetNodeAddr`.
unfoldable pub get_node_addr : Option Text → Option (List Interface) → VScrnDef → Option Text
unfolding get_ipv4_addrs_of_all_interfaces get_node_id_and_ip_addr get_node_port addr_of
get_node_addr hostname ifaces v = do
  name ← hostname
  ip_addrs ← get_ipv4_addrs_of_all_interfaces ifaces
  found ← get_node_id_and_ip_addr ip_addrs name v.nodes
  port ← get_node_port found.0 v.framework_node
  some (addr_of found.1 port)

-- `GetLcmPort`.
unfoldable pub get_lcm_port : ℤ → VScrnDef → Option ℤ
get_lcm_port node_id v =
    if int_eq node_id v.life_cycle_manager.node_id then some v.life_cycle_manager.port else none

-- `GetLcmNodeAddr`, over the rows of `Nodes`.
unfoldable pub get_lcm_node_addr : LifeCycleManager → List Node → Option Text
unfolding addr_of
get_lcm_node_addr lcm [] = none
get_lcm_node_addr lcm (node ∷ rows) =
    if int_eq node.node_id lcm.node_id
    then some (addr_of node.ip lcm.port)
    else get_lcm_node_addr lcm rows

unfoldable pub has_listen_port : ℤ → List Compositor → Bool
has_listen_port listen_port [] = false
has_listen_port listen_port (comp ∷ rows) =
    int_eq listen_port comp.listen_port || has_listen_port listen_port rows

-- `IsRecvCompositor`, over the rows of `FrameworkNode`.
unfoldable pub is_recv_compositor : ℤ → List FrameworkNode → Bool
unfolding has_listen_port
is_recv_compositor listen_port [] = false
is_recv_compositor listen_port (fwn ∷ rows) =
    has_listen_port listen_port fwn.compositor || is_recv_compositor listen_port rows

-- The inner loop of `GetFrameworkNode` for the row `r1`, which `rest` follows.
unfoldable pub framework_node_of : Node → List FrameworkNode → List UclNode → List UclNode
framework_node_of r1 [] rest = rest
framework_node_of r1 (r2 ∷ rows) rest =
    if int_eq r1.node_id r2.node_id
    then record { ip = r1.ip; port = r2.ucl_port; host_name = r1.host_name } ∷ rest
    else framework_node_of r1 rows rest

-- `GetFrameworkNode`, over the rows of `Nodes`.
unfoldable pub get_framework_node : List FrameworkNode → List Node → List UclNode
unfolding framework_node_of
get_framework_node rows [] = []
get_framework_node rows (r1 ∷ nodes) = framework_node_of r1 rows (get_framework_node rows nodes)

-- The inner loop of `ReadAliasIp` for the row `r1`: the port stays 0 if no row has its id.
unfoldable pub alias_port : Node → List FrameworkNode → ℤ
alias_port r1 [] = pos 0
alias_port r1 (r2 ∷ rows) = if int_eq r1.node_id r2.node_id then r2.ucl_port else alias_port r1 rows

-- `ReadAliasIp`: the map of aliases, the last entry of a name in front. It does not set `HostName`.
unfoldable pub read_alias_ip :
    List FrameworkNode → List Node → List (Text × UclNode) → List (Text × UclNode)
unfolding alias_port
read_alias_ip rows [] aip = aip
read_alias_ip rows (r1 ∷ nodes) aip =
    read_alias_ip rows nodes
      ((r1.host_name, record { ip = r1.ip; port = alias_port r1 rows; host_name = [] }) ∷ aip)

-- `alias[key]`: the zero value for a name that has no entry.
unfoldable pub alias : Text → List (Text × UclNode) → UclNode
alias key [] = record { ip = []; port = pos 0; host_name = [] }
alias key ((name, node) ∷ aip) = if text_eq name key then node else alias key aip
