-- ===== src/Client.antt =====
-- internal/ucl-client/dcmapi/dcm_client_api.go: the calls that a client makes of the lifecycle manager.
-- `call` is what a gRPC call over the connection returns, `none` for an error; what the operating system
-- and the packages `net` and `grpc` answer is a `Net`.
pub mod Dial
pub mod Codes
pub mod Memory
pub mod Library
pub mod Protocol
pub mod ApiComm
mod Tests
use ucl_tools.Base.{
  Bool, true, false, not, Option, none, some, List, [], ◌∷◌, if◌then◌else◌, Text, text, text_eq, ℤ,
  pos, negsuc,
}
use ucl_tools.Settings.{
  Interface, get_ipv4_addrs_of_all_interfaces, stat_exec_success, stat_exec_fin, stat_exec_busy,
  stat_app_running, stat_app_stop,
}
use ucl_tools.Screen.{◌>>=◌, VScrnDef, get_lcm_node_addr, get_my_node_id, get_ip_addr_by_candidates}
use ucl_tools.Server.{Response}

-- `os.Hostname`, `net.Interfaces`, the host of `net.SplitHostPort`, `net.ParseIP` with what
-- `IsLoopback` says of the address, and whether `grpc.DialContext` from an address returns no error.
pub record Net : Type 0 where
  pub hostname : Option Text
  pub ifaces : Option (List Interface)
  pub split_host_port : Text → Option Text
  pub parse_ip : Text → Option Bool
  pub dial : Text → Bool

-- The candidates for what `GetMyNodeId` returns, and for what `GetIpAddrByNodeIdAndIpCandidateList` does.
unfoldable pub own_ip : List Text → Option Text → List Text
own_ip ip_addrs none = ip_addrs
own_ip ip_addrs (some ip) = ip ∷ []

unfoldable pub candidate_ips : VScrnDef → List Text → Option ℤ → List Text
unfolding own_ip
candidate_ips v ip_addrs none = ip_addrs
candidate_ips v ip_addrs (some node_id) =
    own_ip ip_addrs (get_ip_addr_by_candidates ip_addrs node_id v.nodes)

abbrev pub is_loopback : Net → Text → Bool
is_loopback net ip = elim (net.parse_ip ip) [ none ↦ false | some loopback ↦ loopback ]

-- The loop that fills `filteredIPs`.
unfoldable pub filter_ips : Net → List Text → List Text
filter_ips net [] = []
filter_ips net (ip ∷ ips) =
    let rest = filter_ips net ips in if is_loopback net ip then rest else ip ∷ rest

-- The loop over the candidates, from `conn` and `dialErr != nil` on; `conn` is named by its address.
unfoldable pub try_dial : Net → List Text → Option Text → Bool → Option Text × Bool
try_dial net [] conn dial_err = (conn, dial_err)
try_dial net (ip ∷ ips) conn dial_err =
    let skipped = try_dial net ips conn dial_err in
    let refused = try_dial net ips none true in
    elim (net.parse_ip ip) [
      | none ↦ skipped
      | some _ ↦ if net.dial ip then (some ip, false) else refused
    ]

-- The loop as `uclLcmConnection` enters it: loopback addresses are left out for another host.
unfoldable pub dial_lcm : Net → Text → List Text → Option (Option Text)
unfolding filter_ips try_dial
dial_lcm net target_ip candidates =
    let (conn, dial_err) =
      try_dial net
        (if not (text_eq target_ip (text "127.0.0.1"))
          then filter_ips net candidates
          else candidates)
        none false in
    if dial_err then none else some conn

-- `uclLcmConnection`: an error is `none`, a client over a nil connection `some none`.
unfoldable pub ucl_lcm_connection : Net → Option VScrnDef → Option (Option Text)
unfolding candidate_ips dial_lcm get_my_node_id get_ipv4_addrs_of_all_interfaces
ucl_lcm_connection net vscrn_def = do
  v ← vscrn_def
  target_addr ← get_lcm_node_addr v.life_cycle_manager v.nodes
  target_ip ← net.split_host_port target_addr
  ip_addrs ← get_ipv4_addrs_of_all_interfaces net.ifaces
  dial_lcm net target_ip (candidate_ips v ip_addrs (get_my_node_id net.hostname v))

unfoldable pub parse_status : Text → ℤ
parse_status status =
    if text_eq status stat_exec_busy
    then pos 2
    else if text_eq status stat_exec_success
    then pos 1
    else if text_eq status stat_exec_fin
    then pos 0
    else negsuc 0

unfoldable pub parse_info : Text → ℤ
parse_info info =
    if text_eq info stat_app_running
    then pos 1
    else if text_eq info stat_app_stop
    then pos 0
    else negsuc 0

-- A gRPC call over a connection.
abbrev pub Call : Type 0
Call = Option Text → Option Response

-- What all of the calls do: an error gives -1, a response its code.
abbrev pub code_of : (Response → ℤ) → Option (Option Text) → Call → ℤ
code_of parse none call = negsuc 0
code_of parse (some conn) call = elim (call conn) [ none ↦ negsuc 0 | some resp ↦ parse resp ]

abbrev pub status_code : Response → ℤ
status_code resp = parse_status resp.status

-- `DcmClientGetExecutableAppList` and `DcmClientGetRunningAppList`; `none` is a nil slice.
unfoldable pub dcm_client_get_executable_app_list : Option (Option Text) → Call → Option Text
dcm_client_get_executable_app_list none call = none
dcm_client_get_executable_app_list (some conn) call = elim (call conn) [
  | none ↦ none
  | some resp ↦ some resp.info
]

unfoldable pub dcm_client_get_running_app_list : Option (Option Text) → Call → Option Text
dcm_client_get_running_app_list none call = none
dcm_client_get_running_app_list (some conn) call = elim (call conn) [
  | none ↦ none
  | some resp ↦ some resp.info
]

unfoldable pub dcm_client_get_app_status : Option (Option Text) → Call → ℤ
unfolding parse_info
dcm_client_get_app_status conn call = code_of (λ resp. parse_info resp.info) conn call

-- `DcmClientRunAppCommand`: `file` is what opening and reading the file gives, `is_json` whether
-- `json.Unmarshal` takes it, and the call is of the text of the file.
unfoldable pub dcm_client_run_app_command :
    Option Text → (Text → Bool) → Option (Option Text) → (Text → Call) → ℤ
unfolding parse_status
dcm_client_run_app_command none is_json conn call = negsuc 0
dcm_client_run_app_command (some content) is_json conn call =
    if is_json content then code_of status_code conn (call content) else negsuc 0

unfoldable pub dcm_client_run_app : Option (Option Text) → Call → ℤ
unfolding parse_status
dcm_client_run_app conn call = code_of status_code conn call

unfoldable pub dcm_client_run_app_async : Option (Option Text) → Call → ℤ
unfolding parse_status
dcm_client_run_app_async conn call = code_of status_code conn call

-- A call that invokes the callback once it has a response: the code, and whether it was invoked.
abbrev pub with_callback : Option (Option Text) → Call → ℤ × Bool
with_callback none call = (negsuc 0, false)
with_callback (some conn) call = elim (call conn) [
  | none ↦ (negsuc 0, false)
  | some resp ↦ (status_code resp, true)
]

unfoldable pub dcm_client_run_app_async_cb : Option (Option Text) → Call → ℤ × Bool
unfolding parse_status
dcm_client_run_app_async_cb conn call = with_callback conn call

unfoldable pub dcm_client_stop_app : Option (Option Text) → Call → ℤ
unfolding parse_status
dcm_client_stop_app conn call = code_of status_code conn call

unfoldable pub dcm_client_stop_app_all : Option (Option Text) → Call → ℤ
unfolding parse_status
dcm_client_stop_app_all conn call = code_of status_code conn call

unfoldable pub dcm_client_launch_compositor : Option (Option Text) → Call → ℤ
unfolding parse_status
dcm_client_launch_compositor conn call = code_of status_code conn call

unfoldable pub dcm_client_launch_compositor_async : Option (Option Text) → Call → ℤ
unfolding parse_status
dcm_client_launch_compositor_async conn call = code_of status_code conn call

unfoldable pub dcm_client_launch_compositor_async_cb : Option (Option Text) → Call → ℤ × Bool
unfolding parse_status
dcm_client_launch_compositor_async_cb conn call = with_callback conn call

unfoldable pub dcm_client_stop_compositor : Option (Option Text) → Call → ℤ
unfolding parse_status
dcm_client_stop_compositor conn call = code_of status_code conn call
