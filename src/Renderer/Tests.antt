-- ===== src/Renderer/Tests.antt =====
-- The renderer of one display.
use ucl_tools.Base.{◌≡◌, refl, true, none, some, List, [], ◌∷◌, Text, text, text_eq, itoa, pos}
use ucl_tools.Settings.{get_env}
use ucl_tools.Screen.{UclNode}
use ucl_tools.Node.Command.{BackendParams, Receiver, UclCommand, ExecCommInfo, exec, plan_of}
use ucl_tools.Node.Argv.{split_blank}
use ucl_tools.Renderer.{dial, start, hand_over, wait, exit_usage, recv_main, compositor_main}
use ucl_tools.Renderer.Started.{renderer_of-receiver}

abbrev launcher : UclNode
launcher = record { ip = text "10.0.0.2"; port = pos 7654; host_name = [] }

abbrev backend : BackendParams
backend = record {
  ivi_surface_id = none;
  sock_domain_name = some (text "rvgpu-1");
  scan_out_x = pos 0;
  scan_out_y = pos 0;
  scan_out_w = pos 1920;
  scan_out_h = pos 1080;
  listen_port = pos 36000;
  initial_screen_color = text "0x33333333";
}

abbrev recv : Receiver
recv = record {
  launcher = launcher;
  command = text "ucl-virtio-gpu-rvgpu-compositor";
  backend_params = backend;
  env = [];
}

abbrev document : UclCommand
document = record {
  app_name = text "map";
  command_type = text "launch_compositors";
  sender = record {
    launcher = launcher;
    command = [];
    frontend_params = record {
      scan_out_x = pos 0;
      scan_out_y = pos 0;
      scan_out_w = pos 0;
      scan_out_h = pos 0;
      server_port = pos 0;
      session_time_out = pos 0;
    };
    env = [];
    qt_env = none;
    appli = [];
  };
  receivers = recv ∷ [];
  local = record { launcher = launcher; command = []; env = []; appli = [] };
}

renderer_of-receiver_example :
    (i : ExecCommInfo) × (args : List Text) × (plan_of (λ _. []) document ≡ exec i)
    × (split_blank i.exec_comm ≡ text "ucl-virtio-gpu-rvgpu-compositor" ∷ args)
    × (compositor_main none none true true args
        ≡ dial (text "/run/user/1000/wayland-0")
          ∷ start (
              text "rvgpu-renderer"
              ∷ text "-B"
              ∷ text "0x33333333"
              ∷ text "-p"
              ∷ text "36000"
              ∷ text "-b"
              ∷ text "1920x1080@0,0"
              ∷ text "-i"
              ∷ text "9000"
              ∷ text "-d"
              ∷ text "rvgpu-1"
              ∷ text "-a"
              ∷ text "-l"
              ∷ [])
          ∷ hand_over
          ∷ wait
          ∷ [])
    × (recv_main none none true true args ≡ exit_usage ∷ [])
unfolding split_blank itoa text_eq get_env
renderer_of-receiver_example =
    renderer_of-receiver (λ _. []) document recv [] none none true refl refl refl refl refl refl
      refl
