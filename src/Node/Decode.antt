-- ===== src/Node/Decode.antt =====
-- How a node reads a command into `uclCommand`, and what it does with the command as it comes.
pub mod Parts
pub mod Encoded
mod Tests
use ucl_tools.Base.{Option, none, some, List, [], if◌then◌else◌, Text, text, pos}
use ucl_tools.Document.{Value}
use ucl_tools.Document.Decode.{
  same_key, into_str, into_int, into_str_ptr, into_int_ptr, into_obj, into_slice, into_ptr,
}
use ucl_tools.Screen.{UclNode, ◌>>=◌}
use ucl_tools.Node.Command.{
  FrontendParams, BackendParams, QtEnv, Sender, Receiver, LocalPart, UclCommand, Plan, unsupported,
  plan_of,
}

-- The structs: the zero value of each, and what the value of a key sets.
abbrev pub zero_node : UclNode
zero_node = record { ip = []; port = pos 0; host_name = [] }

unfoldable pub set_node : Text → Value → UclNode → Option UclNode
unfolding same_key
set_node key v r =
    if same_key key (text "ip")
    then (do x ← into_str v r.ip; some (record r { ip = x }))
    else if same_key key (text "port")
    then (do x ← into_int v r.port; some (record r { port = x }))
    else if same_key key (text "hostname")
    then (do x ← into_str v r.host_name; some (record r { host_name = x }))
    else some r

abbrev pub zero_frontend : FrontendParams
zero_frontend = record {
  scan_out_x = pos 0;
  scan_out_y = pos 0;
  scan_out_w = pos 0;
  scan_out_h = pos 0;
  server_port = pos 0;
  session_time_out = pos 0;
}

unfoldable pub set_frontend : Text → Value → FrontendParams → Option FrontendParams
unfolding same_key
set_frontend key v r =
    if same_key key (text "scanout_x")
    then (do x ← into_int v r.scan_out_x; some (record r { scan_out_x = x }))
    else if same_key key (text "scanout_y")
    then (do x ← into_int v r.scan_out_y; some (record r { scan_out_y = x }))
    else if same_key key (text "scanout_w")
    then (do x ← into_int v r.scan_out_w; some (record r { scan_out_w = x }))
    else if same_key key (text "scanout_h")
    then (do x ← into_int v r.scan_out_h; some (record r { scan_out_h = x }))
    else if same_key key (text "server_port")
    then (do x ← into_int v r.server_port; some (record r { server_port = x }))
    else if same_key key (text "session_timeout")
    then (do x ← into_int v r.session_time_out; some (record r { session_time_out = x }))
    else some r

abbrev pub zero_backend : BackendParams
zero_backend = record {
  ivi_surface_id = none;
  sock_domain_name = none;
  scan_out_x = pos 0;
  scan_out_y = pos 0;
  scan_out_w = pos 0;
  scan_out_h = pos 0;
  listen_port = pos 0;
  initial_screen_color = [];
}

unfoldable pub set_backend : Text → Value → BackendParams → Option BackendParams
unfolding same_key
set_backend key v r =
    if same_key key (text "ivi_surface_id")
    then (do x ← into_int_ptr v; some (record r { ivi_surface_id = x }))
    else if same_key key (text "sock_domain_name")
    then (do x ← into_str_ptr v; some (record r { sock_domain_name = x }))
    else if same_key key (text "scanout_x")
    then (do x ← into_int v r.scan_out_x; some (record r { scan_out_x = x }))
    else if same_key key (text "scanout_y")
    then (do x ← into_int v r.scan_out_y; some (record r { scan_out_y = x }))
    else if same_key key (text "scanout_w")
    then (do x ← into_int v r.scan_out_w; some (record r { scan_out_w = x }))
    else if same_key key (text "scanout_h")
    then (do x ← into_int v r.scan_out_h; some (record r { scan_out_h = x }))
    else if same_key key (text "listen_port")
    then (do x ← into_int v r.listen_port; some (record r { listen_port = x }))
    else if same_key key (text "initial_screen_color")
    then (do x ← into_str v r.initial_screen_color; some (record r { initial_screen_color = x }))
    else some r

abbrev pub zero_qt_env : QtEnv
zero_qt_env = record { ivi_surface_id = pos 0; ivi_layer_id = none }

unfoldable pub set_qt_env : Text → Value → QtEnv → Option QtEnv
unfolding same_key
set_qt_env key v r =
    if same_key key (text "ivi_surface_id")
    then (do x ← into_int v r.ivi_surface_id; some (record r { ivi_surface_id = x }))
    else if same_key key (text "ivi_layer_id")
    then (do x ← into_int_ptr v; some (record r { ivi_layer_id = x }))
    else some r

abbrev pub zero_sender : Sender
zero_sender = record {
  launcher = zero_node;
  command = [];
  frontend_params = zero_frontend;
  env = [];
  qt_env = none;
  appli = [];
}

unfoldable pub set_sender : Text → Value → Sender → Option Sender
unfolding same_key
set_sender key v r =
    if same_key key (text "launcher")
    then (do x ← into_obj set_node v r.launcher; some (record r { launcher = x }))
    else if same_key key (text "command")
    then (do x ← into_str v r.command; some (record r { command = x }))
    else if same_key key (text "frontend_params")
    then (do x ← into_obj set_frontend v r.frontend_params; some (record r { frontend_params = x }))
    else if same_key key (text "env")
    then (do x ← into_str v r.env; some (record r { env = x }))
    else if same_key key (text "qt_env")
    then (do x ← into_ptr set_qt_env zero_qt_env v r.qt_env; some (record r { qt_env = x }))
    else if same_key key (text "appli")
    then (do x ← into_str v r.appli; some (record r { appli = x }))
    else some r

abbrev pub zero_receiver : Receiver
zero_receiver = record {
  launcher = zero_node;
  command = [];
  backend_params = zero_backend;
  env = [];
}

unfoldable pub set_receiver : Text → Value → Receiver → Option Receiver
unfolding same_key
set_receiver key v r =
    if same_key key (text "launcher")
    then (do x ← into_obj set_node v r.launcher; some (record r { launcher = x }))
    else if same_key key (text "command")
    then (do x ← into_str v r.command; some (record r { command = x }))
    else if same_key key (text "backend_params")
    then (do x ← into_obj set_backend v r.backend_params; some (record r { backend_params = x }))
    else if same_key key (text "env")
    then (do x ← into_str v r.env; some (record r { env = x }))
    else some r

abbrev pub zero_local : LocalPart
zero_local = record { launcher = zero_node; command = []; env = []; appli = [] }

unfoldable pub set_local : Text → Value → LocalPart → Option LocalPart
unfolding same_key
set_local key v r =
    if same_key key (text "launcher")
    then (do x ← into_obj set_node v r.launcher; some (record r { launcher = x }))
    else if same_key key (text "command")
    then (do x ← into_str v r.command; some (record r { command = x }))
    else if same_key key (text "env")
    then (do x ← into_str v r.env; some (record r { env = x }))
    else if same_key key (text "appli")
    then (do x ← into_str v r.appli; some (record r { appli = x }))
    else some r

abbrev pub zero_format : UclCommand
zero_format = record {
  app_name = [];
  command_type = [];
  sender = zero_sender;
  receivers = [];
  local = zero_local;
}

unfoldable pub set_format : Text → Value → UclCommand → Option UclCommand
unfolding same_key
set_format key v r =
    if same_key key (text "appli_name")
    then (do x ← into_str v r.app_name; some (record r { app_name = x }))
    else if same_key key (text "command_type")
    then (do x ← into_str v r.command_type; some (record r { command_type = x }))
    else if same_key key (text "sender")
    then (do x ← into_obj set_sender v r.sender; some (record r { sender = x }))
    else if same_key key (text "receivers")
    then (do
      x ← into_slice set_receiver zero_receiver v r.receivers
      some (record r { receivers = x }))
    else if same_key key (text "local")
    then (do x ← into_obj set_local v r.local; some (record r { local = x }))
    else some r

unfoldable pub set_command : Text → Value → UclCommand → Option UclCommand
unfolding same_key
set_command key v u = if same_key key (text "format_v1") then into_obj set_format v u else some u

-- `json.Unmarshal(command, &uclComm)`.
unfoldable pub decode_command : Value → Option UclCommand
unfolding set_command
decode_command v = into_obj set_command v zero_format

-- `json.Unmarshal(recvData, &nodes)` of `getExecutableAppList`.
unfoldable pub decode_nodes : Value → Option (List UclNode)
decode_nodes v = into_slice set_node zero_node v []

-- `handleConnection` up to the process that it starts; a command that cannot be read starts none.
abbrev pub planned : (Text → Text) → Option UclCommand → Plan
planned getenv none = unsupported
planned getenv (some u) = plan_of getenv u
