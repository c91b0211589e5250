-- ===== src/Node/Command.antt =====
-- `uclCommand`, and how `handleConnection` makes of it the process that the node runs.
use ucl_tools.Base.{
  Bool, true, false, not, ◌||◌, Option, none, some, List, [], ◌∷◌, ◌++◌, if◌then◌else◌, Text, text,
  text_eq, ℤ, itoa,
}
use ucl_tools.Screen.{UclNode}
use ucl_tools.Node.Env.{convert_env_vars, add_env_var_if_missing}

pub record FrontendParams : Type 0 where
  pub scan_out_x : ℤ
  pub scan_out_y : ℤ
  pub scan_out_w : ℤ
  pub scan_out_h : ℤ
  pub server_port : ℤ
  pub session_time_out : ℤ

pub record BackendParams : Type 0 where
  pub ivi_surface_id : Option ℤ
  pub sock_domain_name : Option Text
  pub scan_out_x : ℤ
  pub scan_out_y : ℤ
  pub scan_out_w : ℤ
  pub scan_out_h : ℤ
  pub listen_port : ℤ
  pub initial_screen_color : Text

pub record QtEnv : Type 0 where
  pub ivi_surface_id : ℤ
  pub ivi_layer_id : Option ℤ

pub record Sender : Type 0 where
  pub launcher : UclNode
  pub command : Text
  pub frontend_params : FrontendParams
  pub env : Text
  pub qt_env : Option QtEnv
  pub appli : Text

pub record Receiver : Type 0 where
  pub launcher : UclNode
  pub command : Text
  pub backend_params : BackendParams
  pub env : Text

pub record LocalPart : Type 0 where
  pub launcher : UclNode
  pub command : Text
  pub env : Text
  pub appli : Text

pub record UclCommand : Type 0 where
  pub app_name : Text
  pub command_type : Text
  pub sender : Sender
  pub receivers : List Receiver
  pub local : LocalPart

-- `makeQtCmdParams`.
unfoldable pub layer_param : Text → Option ℤ → Text
layer_param make_param none = make_param
layer_param make_param (some layer) = make_param ++ (text " -L " ++ itoa layer)

unfoldable pub make_qt_cmd_params : Option QtEnv → Text → Text
unfolding layer_param
make_qt_cmd_params none make_param = make_param
make_qt_cmd_params (some qenv) make_param =
    layer_param (make_param ++ (text " -S " ++ itoa qenv.ivi_surface_id)) qenv.ivi_layer_id

-- The size and the place of a display, `WxH@X,Y`.
abbrev pub scan_out : ℤ → ℤ → ℤ → ℤ → Text
scan_out w h x y =
    itoa w ++ (text "x" ++ (itoa h ++ (text "@" ++ (itoa x ++ (text "," ++ itoa y)))))

-- The loop of `makeSenderCmdParams` over the receivers.
unfoldable pub receiver_addrs : List Receiver → Text → Text
receiver_addrs [] make_param = make_param
receiver_addrs (r ∷ rs) make_param = receiver_addrs rs (
    make_param
    ++ (text " -n " ++ (r.launcher.ip ++ (text ":" ++ itoa r.backend_params.listen_port))))

-- `makeSenderCmdParams`.
unfoldable pub make_sender_cmd_params : UclCommand → Text → Text
unfolding receiver_addrs
make_sender_cmd_params u make_param =
    let p = u.sender.frontend_params in
    receiver_addrs u.receivers
      (make_param ++ (text " -s " ++ scan_out p.scan_out_w p.scan_out_h p.scan_out_x p.scan_out_y))
    ++ (text " --appli_name " ++ (u.app_name ++ (text " " ++ u.sender.appli)))

-- `makeLocalCmdParams`.
unfoldable pub make_local_cmd_params : UclCommand → Text → Text
make_local_cmd_params u make_param = make_param ++ (text " " ++ u.local.appli)

-- `makeReceiverCmdParams`.
abbrev pub surface_param : Option ℤ → Text → Text
surface_param none make_param = make_param
surface_param (some surface) make_param = make_param ++ (text " -S " ++ itoa surface)

abbrev pub domain_param : Option Text → Text → Text
domain_param none make_param = make_param
domain_param (some name) make_param = make_param ++ (text " -D " ++ name)

unfoldable pub make_receiver_cmd_params : Text → Receiver → Text
make_receiver_cmd_params make_param r =
    let p = r.backend_params in
    domain_param p.sock_domain_name (
      surface_param p.ivi_surface_id (
        make_param
        ++ (text " -s "
            ++ (scan_out p.scan_out_w p.scan_out_h p.scan_out_x p.scan_out_y
                ++ (text " -P "
                    ++ (itoa p.listen_port ++ (text " -B " ++ p.initial_screen_color)))))))

-- `ExecCommInfo`.
pub record ExecCommInfo : Type 0 where
  pub exec_comm : Text
  pub exec_comm_env : List Text
  pub is_wait_deps : Bool

-- What `handleConnection` makes of a command: a process, nothing for a command type that is not
-- supported, or a panic.
pub data Plan : Type 0 where
  exec : ExecCommInfo → Plan
  unsupported panicked : Plan

abbrev pub exec_of : Text → Bool → Option (List Text) → Plan
exec_of comm wait none = panicked
exec_of comm wait (some env) =
    exec (record { exec_comm = comm; exec_comm_env = env; is_wait_deps = wait })

-- The two variables that a receiver gets of the node's own environment.
abbrev pub node_env : (Text → Text) → List Text → List Text
node_env getenv env =
    let runtime = text "XDG_RUNTIME_DIR" in
    let display = text "WAYLAND_DISPLAY" in
    add_env_var_if_missing (add_env_var_if_missing env runtime (getenv runtime)) display
      (getenv display)

abbrev pub map_env : (List Text → List Text) → Option (List Text) → Option (List Text)
map_env f none = none
map_env f (some env) = some (f env)

-- The first receiver, for a command without a sender; `make_param` and `add` are what the command type
-- adds to its command and to its environment.
unfoldable pub first_receiver : (Receiver → Text) → (List Text → List Text) → List Receiver → Plan
unfolding convert_env_vars
first_receiver make_param add [] = panicked
first_receiver make_param add (r ∷ rs) =
    if not (text_eq r.command [])
    then exec_of (r.command ++ make_param r) false (map_env add (convert_env_vars r.env))
    else exec (record { exec_comm = []; exec_comm_env = []; is_wait_deps = false })

-- The `switch` of `handleConnection`; `getenv` is `os.Getenv`.
unfoldable pub plan_of : (Text → Text) → UclCommand → Plan
unfolding make_qt_cmd_params make_sender_cmd_params make_local_cmd_params make_receiver_cmd_params
    first_receiver convert_env_vars add_env_var_if_missing
plan_of getenv u =
    if text_eq u.command_type (text "remote_virtio_gpu")
      || text_eq u.command_type (text "launch_compositors")
    then (if not (text_eq u.sender.command [])
        then exec_of
            (u.sender.command ++ make_sender_cmd_params u (make_qt_cmd_params u.sender.qt_env []))
            true (convert_env_vars u.sender.env)
        else first_receiver (make_receiver_cmd_params []) (node_env getenv) u.receivers)
    else if text_eq u.command_type (text "transport")
    then (if not (text_eq u.sender.command [])
        then exec_of u.sender.command true (convert_env_vars u.sender.env)
        else first_receiver (λ _. []) (λ env. env) u.receivers)
    else if text_eq u.command_type (text "local")
    then exec_of (u.local.command ++ make_local_cmd_params u []) true (convert_env_vars u.local.env)
    else unsupported
