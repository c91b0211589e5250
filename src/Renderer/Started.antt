-- ===== src/Renderer/Started.antt =====
-- The renderer that a node's process for a receiver starts.
use ucl_tools.Base.{
  ◌≡◌, refl, Bool, true, false, Option, none, some, List, [], ◌∷◌, ◌++◌, append-nil, Text, text,
  text_eq, no_blank, itoa,
}
use ucl_tools.Renderer.Settings.{
  surface_settings, display_settings, place_of, settings_of, parse_compositor, parse_recv,
  parse_recv_domain, domain_or, renderer_args, compositor_renderer-settings, recv_renderer-settings,
}
use ucl_tools.Settings.{get_env}
use ucl_tools.Flags.{parsed}
use ucl_tools.Node.Command.{BackendParams, Receiver, UclCommand, ExecCommInfo, exec, plan_of}
use ucl_tools.Node.Argv.{split_blank}
use ucl_tools.Node.Process.{receiver_args, surface_args, opt_no_blank}
use ucl_tools.Node.Plans.{is_display_type, plan_of-receiver}
use ucl_tools.Renderer.{
  Deed, dial, start, hand_over, kill_self, wait, exit_usage, recv_main, compositor_main,
  recv_renderer, compositor_renderer, renderer_main,
}

-- The Wayland server that a renderer draws on.
abbrev pub server_path : Option Text → Option Text → Text
server_path runtime_dir display =
    get_env runtime_dir (text "/run/user/1000") ++ (b'/' ∷ get_env display (text "wayland-0"))

-- What is done with the process of a renderer, started or not, behind the dial.
abbrev pub started : List Text → Bool → List Deed
started args true = start args ∷ hand_over ∷ wait ∷ []
started args false = start args ∷ kill_self ∷ wait ∷ []

renderer_main-parsed :
    (command : List (Text × Text) → List Text) (runtime_dir display : Option Text) (starts : Bool)
    (settings : List (Text × Text)) (args rest : List Text)
    → command settings ≡ args
    → renderer_main command runtime_dir display true starts (parsed settings rest)
      ≡ dial (server_path runtime_dir display) ∷ started args starts
unfolding renderer_main
renderer_main-parsed command runtime_dir display true settings args rest e = rw e refl
renderer_main-parsed command runtime_dir display false settings args rest e = rw e refl

compositor_main-started :
    (runtime_dir display : Option Text) (starts : Bool) (p : BackendParams)
    → compositor_main runtime_dir display true starts (receiver_args p)
      ≡ dial (server_path runtime_dir display)
        ∷ started
            (renderer_args p
              (text "-d" ∷ domain_or p.sock_domain_name ∷ text "-a" ∷ text "-l" ∷ []))
            starts
unfolding compositor_main
compositor_main-started runtime_dir display starts p =
    let port = itoa p.listen_port in
    rw
      (parse_compositor (place_of p) port p.initial_screen_color p.ivi_surface_id
        p.sock_domain_name)
      (renderer_main-parsed compositor_renderer runtime_dir display starts (settings_of p) _ [] (
        compositor_renderer-settings (place_of p) port p.initial_screen_color p.ivi_surface_id
          p.sock_domain_name))

-- What a node's process is, for wl-recv: with a socket it ends with its usage.
abbrev pub recv_deeds : Option Text → Option Text → Bool → BackendParams → Option Text → List Deed
recv_deeds runtime_dir display starts p none =
    dial (server_path runtime_dir display) ∷ started (renderer_args p (text "-a" ∷ [])) starts
recv_deeds runtime_dir display starts p (some name) = exit_usage ∷ []

recv_main-started :
    (runtime_dir display : Option Text) (starts : Bool) (p : BackendParams) (domain : Option Text)
    → p.sock_domain_name ≡ domain
    → recv_main runtime_dir display true starts (receiver_args p)
      ≡ recv_deeds runtime_dir display starts p domain
unfolding recv_main renderer_main
recv_main-started runtime_dir display starts p none e =
    let port = itoa p.listen_port in
    rw
      (
        e,
        append-nil (surface_args p.ivi_surface_id),
        parse_recv (place_of p) port p.initial_screen_color p.ivi_surface_id,
      )
      (renderer_main-parsed recv_renderer runtime_dir display starts
        (display_settings (place_of p) port p.initial_screen_color
          ++ surface_settings p.ivi_surface_id)
        _ [] (recv_renderer-settings (place_of p) port p.initial_screen_color p.ivi_surface_id))
recv_main-started runtime_dir display starts p (some name) e =
    rw
      (
        e,
        parse_recv_domain (place_of p) (itoa p.listen_port) p.initial_screen_color p.ivi_surface_id
            name,
      )
      refl

-- For a command without a sender, of a type with displays, and with no blank in the command, the color
-- and the socket of its first receiver, the arguments that the node gives to the receiver's command make
-- the compositor dial the Wayland server and, where that succeeds, start the renderer of this display: its
-- color, port and place, and its surface and socket or the defaults for them. wl-recv starts the same
-- renderer without a socket, if the receiver has none, and otherwise ends with its usage.
pub renderer_of-receiver :
    (getenv : Text → Text) (u : UclCommand) (r : Receiver) (rs : List Receiver)
    (runtime_dir display : Option Text) (starts : Bool)
    → is_display_type u.command_type ≡ true
    → text_eq u.sender.command [] ≡ true
    → u.receivers ≡ r ∷ rs
    → text_eq r.command [] ≡ false
    → no_blank r.command ≡ true
    → no_blank r.backend_params.initial_screen_color ≡ true
    → opt_no_blank r.backend_params.sock_domain_name ≡ true
    → (i : ExecCommInfo) × (args : List Text) × (plan_of getenv u ≡ exec i)
      × (split_blank i.exec_comm ≡ r.command ∷ args)
      × (compositor_main runtime_dir display true starts args
          ≡ dial (server_path runtime_dir display)
            ∷ started
                (renderer_args r.backend_params (
                  text "-d"
                  ∷ domain_or r.backend_params.sock_domain_name
                  ∷ text "-a"
                  ∷ text "-l"
                  ∷ []))
                starts)
      × (recv_main runtime_dir display true starts args
          ≡ recv_deeds runtime_dir display starts r.backend_params
              r.backend_params.sock_domain_name)
renderer_of-receiver getenv u r rs runtime_dir display starts t c e f b h k =
    let p = r.backend_params in
    let (i, planned, split, _, _) = plan_of-receiver getenv u r rs t c e f b h k in
    (
      i,
      receiver_args p,
      planned,
      split,
      compositor_main-started runtime_dir display starts p,
      recv_main-started runtime_dir display starts p p.sock_domain_name refl,
    )
