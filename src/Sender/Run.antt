-- ===== src/Sender/Run.antt =====
-- `main` of wl-send, as the list of what it does to its host.
pub mod Lock
pub mod Parse
pub mod Started
pub mod Stops
use ucl_tools.Base.{
  ℕ, ◌+◌, ◌/◌, Bool, true, false, not, ◌||◌, Option, none, some, List, [], ◌∷◌, ◌++◌, if◌then◌else◌,
  Text, text, text_eq,
}
use ucl_tools.Settings.{MultiFlag, set_flag, get_env}
use ucl_tools.Flags.{Kind, boolean, valued, Parsed, parsed, exits, parse_flags, value_of, values_of}
use ucl_tools.Sender.{
  card_path, numbered, wait_rvgpu_devices, wait_unix_socket_connectable, Tick,
  wait_for_connection_established, IndexFile, reserve_rvgpu_index,
}

-- What the host answers: the lock, the cards and the index file, `cmd.Start`, and in each round of a
-- loop whether rvgpu-proxy and rvgpu-wlproxy are alive, a device is there, and a socket takes the
-- connection; further `net.SplitHostPort`, `fmt.Sscanf` of a screen with the size in its own form, and
-- `XDG_RUNTIME_DIR`.
pub record Host : Type 0 where
  pub locks : Bool
  pub exists : ℕ → Bool
  pub index_file : IndexFile
  pub starts : List Text → Bool
  pub proxy_alive : ℕ → Bool
  pub wl_proxy_alive : ℕ → Bool
  pub device : Text → ℕ → Bool
  pub dials : Text → ℕ → Bool
  pub ticks : Text → Text → List Tick
  pub split_host_port : Text → Option (Text × Text)
  pub scan_size : Text → Option Text
  pub runtime_dir : Option Text

pub data Child : Type 0 where
  proxy wl_proxy app : Child

-- What wl-send does. `start` has the arguments, and what is put behind the own environment; `register`
-- hands a process to the signal handler; `stays` is a wait that does not end.
pub data Act : Type 0 where
  lock unlock kill_self wait_all exit_one exit_usage panics stays : Act
  start : Child → List Text → List Text → Act
  register : Child → Act

-- The commands that are there at `WAIT_ALL`, with whether they have been started: `Process` of one that
-- has not is nil.
unfoldable pub register_all : List (Child × Bool) → List Act → List Act
register_all [] next = next
register_all ((child, true) ∷ made) next = register child ∷ register_all made next
register_all ((child, false) ∷ made) next = panics ∷ []

-- What stands behind `WAIT_ALL`; `held` says that `lock` is not nil, and `failed` that there is an error
-- or a result of -1.
unfoldable pub at_wait_all : Bool → List (Child × Bool) → Bool → List Act
unfolding register_all
at_wait_all held made failed =
    let rest = register_all made (if failed then kill_self ∷ wait_all ∷ [] else wait_all ∷ []) in
    if held then unlock ∷ rest else rest

abbrev pub flags : Text → Option Kind
flags name =
    if text_eq name (text "v") || text_eq name (text "d")
    then some boolean
    else if text_eq name (text "s") || text_eq name (text "n") || text_eq name (text "appli_name")
    then some valued
    else none

-- `targets` behind `flag.Parse`.
abbrev pub targets_of : MultiFlag → MultiFlag
targets_of [] = set_flag [] (text "127.0.0.1:55667")
targets_of (t ∷ targets) = t ∷ targets

unfoldable pub target_options : List Text → List Text
target_options [] = []
target_options (target ∷ targets) = text "-n" ∷ target ∷ target_options targets

abbrev pub name_options : Text → List Text
name_options [] = []
name_options (c ∷ name) = text "-i" ∷ (c ∷ name) ∷ []

abbrev pub proxy_command : Text → List Text → Text → List Text
proxy_command screen targets name =
    text "rvgpu-proxy" ∷ text "-s" ∷ screen ∷ (target_options targets ++ name_options name)

abbrev pub socket_name : ℕ → Text
socket_name card = numbered (text "rvgpu-wayland-") card

abbrev pub wl_proxy_command : Text → ℕ → List Text
wl_proxy_command size card =
    text "rvgpu-wlproxy" ∷ text "-s" ∷ size ∷ text "-S" ∷ socket_name card ∷ text "-f" ∷ []

abbrev pub runtime_dir_of : Host → Text
runtime_dir_of host = get_env host.runtime_dir (text "/tmp")

abbrev pub mesa_env : Host → List Text
mesa_env host =
    text "__GLX_VENDOR_LIBRARY_NAME=mesa"
    ∷ text "MESA_LOADER_DRIVER_OVERRIDE=virtio_gpu"
    ∷ (text "XDG_RUNTIME_DIR=" ++ runtime_dir_of host)
    ∷ []

abbrev pub wl_proxy_env : Host → ℕ → List Text
wl_proxy_env host card =
    (text "EGLWINSYS_DRM_DEV_NAME=" ++ card_path card)
    ∷ numbered (text "EGLWINSYS_DRM_TOUCH_DEV=/dev/input/rvgpu_touch") card
    ∷ numbered (text "EGLWINSYS_DRM_MOUSE_DEV=/dev/input/rvgpu_mouse") card
    ∷ numbered (text "EGLWINSYS_DRM_MOUSEABS_DEV=/dev/input/rvgpu_mouse_abs") card
    ∷ numbered (text "EGLWINSYS_DRM_KEYBOARD_DEV=/dev/input/rvgpu_keyboard") card
    ∷ mesa_env host

abbrev pub app_env : Host → ℕ → List Text
app_env host card = mesa_env host ++ (text "WAYLAND_DISPLAY=" ++ socket_name card) ∷ []

-- The start of the application, with both proxies running.
unfoldable pub run_app : Host → ℕ → List Text → List Act
unfolding at_wait_all
run_app host card command =
    let ok = host.starts command in
    start app command (app_env host card)
    ∷ at_wait_all false ((app, ok) ∷ (wl_proxy, true) ∷ (proxy, true) ∷ []) (not ok)

-- The start of rvgpu-wlproxy.
unfoldable pub run_wl_proxy : Host → ℕ → Text → List Text → List Act
unfolding at_wait_all run_app
run_wl_proxy host card size command =
    let wl_command = wl_proxy_command size card in
    let path = runtime_dir_of host ++ (b'/' ∷ socket_name card) in
    start wl_proxy wl_command (wl_proxy_env host card)
    ∷ (if not (host.starts wl_command)
        then at_wait_all false ((wl_proxy, false) ∷ (proxy, true) ∷ []) true
        else if not (wait_unix_socket_connectable host.wl_proxy_alive (host.dials path))
        then at_wait_all false ((wl_proxy, true) ∷ (proxy, true) ∷ []) true
        else run_app host card command)

-- The loop over the targets.
unfoldable pub connect_all : Host → List Text → List Act → List Act
unfolding at_wait_all
connect_all host [] next = next
connect_all host (target ∷ targets) next =
    let rest = connect_all host targets next in
    elim (host.split_host_port target) [
      | none ↦ exit_one ∷ []
      | some (ip, port) ↦ elim (wait_for_connection_established (host.ticks ip port)) [
        | none ↦ stays ∷ []
        | some false ↦ at_wait_all false ((proxy, true) ∷ []) true
        | some true ↦ rest
      ]
    ]

-- From the start of rvgpu-proxy on.
unfoldable pub run_proxy : Host → ℕ → Text → Text → List Text → Text → List Text → List Act
unfolding at_wait_all connect_all run_wl_proxy
run_proxy host card screen size targets name command =
    let proxy_args = proxy_command screen targets name in
    start proxy proxy_args []
    ∷ (if not (host.starts proxy_args)
        then at_wait_all true ((proxy, false) ∷ []) true
        else if not (wait_rvgpu_devices host.proxy_alive host.device card)
        then at_wait_all true ((proxy, true) ∷ []) true
        else unlock ∷ connect_all host targets (run_wl_proxy host card size command))

-- From the lock on.
unfoldable pub run_locked : Host → Text → Text → List Text → Text → List Text → List Act
unfolding run_proxy
run_locked host screen size targets name command =
    if not host.locks
    then exit_one ∷ []
    else elim ((reserve_rvgpu_index host.exists host.index_file).1) [
      | none ↦ lock ∷ unlock ∷ exit_one ∷ []
      | some card ↦ lock ∷ run_proxy host card screen size targets name command
    ]

-- From the scan of the screen on.
unfoldable pub run_scanned : Host → Text → List Text → Text → List Text → List Act
run_scanned host screen targets name command = elim (host.scan_size screen) [
  | none ↦ exit_one ∷ []
  | some size ↦ run_locked host screen size targets name command
]

-- `main` behind `flag.Parse`.
unfoldable pub run_parsed : Host → Parsed → List Act
run_parsed host exits = exit_usage ∷ []
run_parsed host (parsed settings []) = exit_one ∷ []
run_parsed host (parsed settings (target_app ∷ app_options)) =
    run_scanned host (value_of (text "s") (text "1920x1080@0,0") settings)
      (targets_of (values_of (text "n") settings)) (value_of (text "appli_name") [] settings)
      (target_app ∷ app_options)

unfoldable pub sender_main : Host → List Text → List Act
unfolding run_parsed parse_flags
sender_main host args = run_parsed host (parse_flags flags args)
