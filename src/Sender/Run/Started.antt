-- ===== src/Sender/Run/Started.antt =====
-- What a node's process for a sender does when its host lets it.
use ucl_tools.Base.{
  ◌∙◌, ℕ, ◌≡◌, refl, ap, inl, inr, Bool, true, false, none, some, List, [], ◌∷◌, ◌++◌, map,
  append_assoc, Bool-cases, text, text_eq, Text, All, no_blank,
}
use ucl_tools.Flags.{value_of, values_of, operand, token_of, parsed}
use ucl_tools.Node.Command.{Receiver, UclCommand, ExecCommInfo, exec, plan_of, scan_out}
use ucl_tools.Node.Argv.{split_blank}
use ucl_tools.Node.SenderProcess.{ips_no_blank, addr_args, sender_args}
use ucl_tools.Node.Plans.{is_display_type, plan_of-sender}
use ucl_tools.Sender.{
  wait_rvgpu_devices, wait_unix_socket_connectable, wait_for_connection_established,
  reserve_rvgpu_index,
}
use ucl_tools.Sender.Run.{
  targets_of, Host, proxy, wl_proxy, app, Act, lock, unlock, wait_all, panics, start, register,
  register_all, at_wait_all, name_options, wl_proxy_command, wl_proxy_env, app_env, runtime_dir_of,
  socket_name, run_app, run_wl_proxy, connect_all, run_proxy, run_locked, run_scanned, run_parsed,
  sender_main,
}
use ucl_tools.Sender.Run.Parse.{
  target_of, sender_settings, parse_sender, settings_screen, settings_name, settings_targets,
  target_options-receivers,
}

-- The connection to a display is established in time.
abbrev pub IsConnected : Host → Receiver → Type 0
IsConnected host r =
    (ip : Text) × (port : Text) × (host.split_host_port (target_of r) ≡ some (ip, port))
    × (wait_for_connection_established (host.ticks ip port) ≡ some true)

connect_all_connected :
    (host : Host) (rs : List Receiver) (next : List Act)
    → All (IsConnected host) rs
    → connect_all host (map target_of rs) next ≡ next
unfolding connect_all
connect_all_connected host [] next h = refl
connect_all_connected host (r ∷ rs) next ((ip, port, e, c), hs) =
    rw (e, c, connect_all_connected host rs next hs) refl

-- What follows the start of the application: all three processes are handed over, the application first,
-- or there is a panic.
abbrev pub behind_app : Bool → List Act
behind_app true = register app ∷ register wl_proxy ∷ register proxy ∷ wait_all ∷ []
behind_app false = panics ∷ []

-- All that a host does for a sender, from the card to the socket of rvgpu-wlproxy.
pub record IsReady (host : Host) (place name : Text) (rs : List Receiver) (card : ℕ) (size : Text)
    : Type 0 where
  pub scanned : host.scan_size place ≡ some size
  pub locked : host.locks ≡ true
  pub reserved : (reserve_rvgpu_index host.exists host.index_file).1 ≡ some card
  pub proxy_starts :
      host.starts (text "rvgpu-proxy" ∷ text "-s" ∷ place ∷ (addr_args rs ++ name_options name))
      ≡ true
  pub devices : wait_rvgpu_devices host.proxy_alive host.device card ≡ true
  pub connected : All (IsConnected host) rs
  pub wl_proxy_starts : host.starts (wl_proxy_command size card) ≡ true
  pub socket :
      wait_unix_socket_connectable host.wl_proxy_alive
        (host.dials (runtime_dir_of host ++ (b'/' ∷ socket_name card)))
      ≡ true

-- The acts of such a run.
abbrev pub shown_acts : Host → Text → Text → List Receiver → ℕ → Text → List Text → List Act
shown_acts host place name rs card size command =
    lock
    ∷ start proxy (text "rvgpu-proxy" ∷ text "-s" ∷ place ∷ (addr_args rs ++ name_options name)) []
    ∷ unlock
    ∷ start wl_proxy (wl_proxy_command size card) (wl_proxy_env host card)
    ∷ start app command (app_env host card)
    ∷ behind_app (host.starts command)

run_app-behind :
    (host : Host) (card : ℕ) (command : List Text)
    → run_app host card command
      ≡ start app command (app_env host card) ∷ behind_app (host.starts command)
unfolding run_app at_wait_all register_all
run_app-behind host card command = elim (Bool-cases (host.starts command)) [
  | inl e ↦ rw e refl
  | inr e ↦ rw e refl
]

module _ (host : Host) (place name : Text) (rs : List Receiver) (card : ℕ) (size : Text)
    (h : IsReady host place name rs card size) where
  wl_proxy_ready :
      (command : List Text)
      → run_wl_proxy host card size command
        ≡ start wl_proxy (wl_proxy_command size card) (wl_proxy_env host card)
          ∷ start app command (app_env host card)
          ∷ behind_app (host.starts command)
  unfolding run_wl_proxy
  wl_proxy_ready command = rw (h.wl_proxy_starts, h.socket, run_app-behind host card command) refl

  locked_ready :
      (command : List Text)
      → run_locked host place size (map target_of rs) name command
        ≡ shown_acts host place name rs card size command
  unfolding run_locked run_proxy
  locked_ready command =
      let next = run_wl_proxy host card size command in
      rw
        (
          h.locked,
          h.reserved,
          target_options-receivers rs,
          h.proxy_starts,
          h.devices,
          connect_all_connected host rs next h.connected,
          wl_proxy_ready command,
        )
        refl

parsed_ready :
    (host : Host) (place name : Text) (r : Receiver) (rs : List Receiver) (card : ℕ) (size w : Text)
    (ws : List Text)
    → IsReady host place name (r ∷ rs) card size
    → run_parsed host (parsed (sender_settings place (r ∷ rs) name) (w ∷ ws))
      ≡ shown_acts host place name (r ∷ rs) card size (w ∷ ws)
unfolding run_parsed run_scanned
parsed_ready host place name r rs card size w ws h =
    let command = w ∷ ws in
    let settings = sender_settings place (r ∷ rs) name in
    ap
      (λ screen.
        run_scanned host screen (targets_of (values_of (text "n") settings))
          (value_of (text "appli_name") [] settings) command)
      (settings_screen place (r ∷ rs) name (text "1920x1080@0,0"))
    ∙ ap
        (λ targets.
          run_scanned host place (targets_of targets) (value_of (text "appli_name") [] settings)
            command)
        (settings_targets place (r ∷ rs) name)
    ∙ ap (λ s. run_scanned host place (map target_of (r ∷ rs)) s command)
        (settings_name place (r ∷ rs) name [])
    ∙ rw (h.scanned, run_scanned) (locked_ready host place name (r ∷ rs) card size h command)

-- The screen of a sender.
abbrev pub screen_of : UclCommand → Text
screen_of u =
    let p = u.sender.frontend_params in scan_out p.scan_out_w p.scan_out_h p.scan_out_x p.scan_out_y

sender_args-words :
    (u : UclCommand) (words : List Text)
    → u.sender.qt_env ≡ none
    → sender_args u ++ words
      ≡ text "-s"
        ∷ screen_of u
        ∷ (addr_args u.receivers ++ (text "--appli_name" ∷ u.app_name ∷ words))
sender_args-words u words q = rw q (
    ap (λ x. text "-s" ∷ screen_of u ∷ x)
      (append_assoc (addr_args u.receivers) (text "--appli_name" ∷ u.app_name ∷ []) words))

pub sender_main-ready :
    (host : Host) (u : UclCommand) (r : Receiver) (rs : List Receiver) (card : ℕ) (size w : Text)
    (ws : List Text)
    → u.sender.qt_env ≡ none
    → u.receivers ≡ r ∷ rs
    → token_of w ≡ operand
    → IsReady host (screen_of u) u.app_name (r ∷ rs) card size
    → sender_main host (sender_args u ++ (w ∷ ws))
      ≡ shown_acts host (screen_of u) u.app_name (r ∷ rs) card size (w ∷ ws)
unfolding sender_main
sender_main-ready host u r rs card size w ws q e o h =
    rw (sender_args-words u (w ∷ ws) q, e, parse_sender (screen_of u) (r ∷ rs) u.app_name w ws o)
      (parsed_ready host (screen_of u) u.app_name r rs card size w ws h)

-- For a command with a sender, of a type with displays, with receivers and without a surface, with no
-- blank in the command of the sender, in the name of the application and in the addresses, whose
-- application does not begin with '-': on a host that is ready for it, the arguments that the node gives
-- to the sender's command make wl-send start rvgpu-proxy for the screen, the displays of all receivers
-- and the name, then rvgpu-wlproxy, and then the application's own words. It then hands over the
-- application, rvgpu-wlproxy and rvgpu-proxy and waits; but if the application does not start, it panics
-- and hands over none of the two that run.
pub sender_of-receivers :
    (getenv : Text → Text) (u : UclCommand) (host : Host) (r : Receiver) (rs : List Receiver)
    (card : ℕ) (size w : Text) (ws : List Text)
    → is_display_type u.command_type ≡ true
    → text_eq u.sender.command [] ≡ false
    → no_blank u.sender.command ≡ true
    → no_blank u.app_name ≡ true
    → ips_no_blank u.receivers ≡ true
    → u.sender.qt_env ≡ none
    → u.receivers ≡ r ∷ rs
    → split_blank u.sender.appli ≡ w ∷ ws
    → token_of w ≡ operand
    → IsReady host (screen_of u) u.app_name (r ∷ rs) card size
    → (i : ExecCommInfo) × (args : List Text) × (plan_of getenv u ≡ exec i)
      × (split_blank i.exec_comm ≡ u.sender.command ∷ args)
      × (sender_main host args
          ≡ shown_acts host (screen_of u) u.app_name (r ∷ rs) card size (w ∷ ws))
sender_of-receivers getenv u host r rs card size w ws t c b n k q e s o h =
    let (i, planned, split, _, _) = plan_of-sender getenv u t c b n k in
    (
      i,
      sender_args u ++ split_blank u.sender.appli,
      planned,
      split,
      rw s (sender_main-ready host u r rs card size w ws q e o h),
    )
