-- ===== src/Sender/Tests.antt =====
-- A host that is ready, and one whose first card has its device.
use ucl_tools.Base.{
  ℕ, ◌≡◌, refl, Bool, true, false, none, some, List, [], ◌∷◌, ◌++◌, ◌==◌, Text, text, text_eq, itoa,
  pos,
}
use ucl_tools.Screen.{UclNode}
use ucl_tools.Flags.{token_of, named_token}
use ucl_tools.Node.Command.{BackendParams, Receiver, UclCommand, ExecCommInfo, exec, plan_of}
use ucl_tools.Node.Argv.{split_blank}
use ucl_tools.Sender.{
  poll, wait_file_detection, wait_unix_socket_connectable, all_found, wait_rvgpu_devices, tick,
  wait_for_connection_established, IndexFile, reserve, reserve_rvgpu_index,
}
use ucl_tools.Sender.Index.{Reserved, reserve_rvgpu_index-Reserved}
use ucl_tools.Node.SenderProcess.{sender_args}
use ucl_tools.Signals.{sigterm, signal_handler, kill_all_children}
use ucl_tools.Signals.Killed.{dies, all_answers}
use ucl_tools.Sender.Run.Stops.{registered, then_sigterm, sender_main-stops}
use ucl_tools.Sender.Run.{
  Child, Host, proxy, wl_proxy, app, lock, unlock, start, register, wait_all, wl_proxy_env, app_env,
  sender_main,
}
use ucl_tools.Sender.Run.Lock.{lock_after, sender_main-lock}
use ucl_tools.Sender.Run.Started.{IsReady, sender_of-receivers}

abbrev always : ℕ → Bool
always round = true

abbrev file : IndexFile
file = record {
  content = some (text "3\n");
  removes = true;
  opens = true;
  writes = true;
  partial = [];
}

abbrev first_taken : ℕ → Bool
first_taken card = card == 0

reserve_rvgpu_index-Reserved_example : Reserved first_taken 0 65 file (some (text "1\n"), some 1)
unfolding reserve_rvgpu_index reserve itoa
reserve_rvgpu_index-Reserved_example = reserve_rvgpu_index-Reserved first_taken file

abbrev host : Host
host = record {
  locks = true;
  exists = first_taken;
  index_file = file;
  starts = λ command. true;
  proxy_alive = always;
  wl_proxy_alive = always;
  device = λ path. always;
  dials = λ path. always;
  ticks = λ ip port. tick false ∷ tick true ∷ [];
  split_host_port = λ target. some (text "10.0.0.2", text "36000");
  scan_size = λ screen. some (text "1920x1080");
  runtime_dir = none;
}

sender_main-lock_example :
    lock_after false (sender_main host (text "weston-terminal" ∷ [])) ≡ some false
sender_main-lock_example = sender_main-lock host (text "weston-terminal" ∷ [])

abbrev launcher : UclNode
launcher = record { ip = text "10.0.0.2"; port = pos 7654; host_name = [] }

abbrev backend : BackendParams
backend = record {
  ivi_surface_id = none;
  sock_domain_name = none;
  scan_out_x = pos 0;
  scan_out_y = pos 0;
  scan_out_w = pos 1920;
  scan_out_h = pos 1080;
  listen_port = pos 36000;
  initial_screen_color = text "0x33333333";
}

abbrev recv : Receiver
recv = record { launcher = launcher; command = []; backend_params = backend; env = [] }

abbrev document : UclCommand
document = record {
  app_name = text "map";
  command_type = text "remote_virtio_gpu";
  sender = record {
    launcher = launcher;
    command = text "ucl-virtio-gpu-wl-send";
    frontend_params = record {
      scan_out_x = pos 0;
      scan_out_y = pos 0;
      scan_out_w = pos 1920;
      scan_out_h = pos 1080;
      server_port = pos 0;
      session_time_out = pos 0;
    };
    env = [];
    qt_env = none;
    appli = text "weston-terminal -f";
  };
  receivers = recv ∷ [];
  local = record { launcher = launcher; command = []; env = []; appli = [] };
}

ready : IsReady host (text "1920x1080@0,0") (text "map") (recv ∷ []) 1 (text "1920x1080")
unfolding reserve_rvgpu_index reserve wait_rvgpu_devices wait_file_detection
    wait_unix_socket_connectable all_found poll wait_for_connection_established
ready = record {
  scanned = refl;
  locked = refl;
  reserved = refl;
  proxy_starts = refl;
  devices = refl;
  connected = ((text "10.0.0.2", text "36000", refl, refl), tt);
  wl_proxy_starts = refl;
  socket = refl;
}

sender_of-receivers_example :
    (i : ExecCommInfo) × (args : List Text) × (plan_of (λ _. []) document ≡ exec i)
    × (split_blank i.exec_comm ≡ text "ucl-virtio-gpu-wl-send" ∷ args)
    × (sender_main host args
        ≡ lock
          ∷ start proxy
              (text "rvgpu-proxy"
                ∷ text "-s"
                ∷ text "1920x1080@0,0"
                ∷ text "-n"
                ∷ text "10.0.0.2:36000"
                ∷ text "-i"
                ∷ text "map"
                ∷ [])
              []
          ∷ unlock
          ∷ start wl_proxy
              (text "rvgpu-wlproxy"
                ∷ text "-s"
                ∷ text "1920x1080"
                ∷ text "-S"
                ∷ text "rvgpu-wayland-1"
                ∷ text "-f"
                ∷ [])
              (wl_proxy_env host 1)
          ∷ start app (text "weston-terminal" ∷ text "-f" ∷ []) (app_env host 1)
          ∷ register app
          ∷ register wl_proxy
          ∷ register proxy
          ∷ wait_all
          ∷ [])
unfolding split_blank itoa text_eq token_of named_token
sender_of-receivers_example =
    sender_of-receivers (λ _. []) document host recv [] 1 (text "1920x1080")
      (text "weston-terminal") (text "-f" ∷ []) refl refl refl refl refl refl refl refl refl ready

abbrev pid_of : Child → ℕ
pid_of app = 13
pid_of wl_proxy = 12
pid_of proxy = 11

sender_main-stops_example :
    (signal_handler [] (
        then_sigterm pid_of (
          registered
            (sender_main host (sender_args document ++ (text "weston-terminal" ∷ text "-f" ∷ [])))))
      ≡ ((13 ∷ 12 ∷ 11 ∷ []) ∷ [], []))
    × (kill_all_children (all_answers ((13, dies 1) ∷ (12, dies 4) ∷ (11, dies 2) ∷ []))
        ≡ ((13, sigterm) ∷ (12, sigterm) ∷ (11, sigterm) ∷ [], true))
unfolding token_of named_token itoa
sender_main-stops_example =
    sender_main-stops host document recv [] 1 (text "1920x1080") (text "weston-terminal")
      (text "-f" ∷ []) pid_of 0 3 1 refl refl refl ready refl
