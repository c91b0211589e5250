-- ===== src/Renderer.antt =====
-- cmd/ucl-virtio-gpu-wl-recv/ucl_virtio_gpu_wl_recv.go and
-- cmd/ucl-virtio-gpu-rvgpu-compositor/ucl_virtio_gpu_rvgpu_compositor.go: the two programs that start a
-- renderer.
pub mod Settings
pub mod Started
mod Tests
use ucl_tools.Base.{
  ◌+◌, ◌/◌, Bool, not, ◌||◌, Option, none, some, List, [], ◌∷◌, ◌++◌, if◌then◌else◌, Text, text,
  text_eq,
}
use ucl_tools.Settings.{get_env}
use ucl_tools.Flags.{Kind, boolean, valued, Parsed, parsed, exits, parse_flags, value_of}

-- The flags of wl-recv, and of the compositor.
unfoldable pub recv_flags : Text → Option Kind
recv_flags name =
    if text_eq name (text "v") || text_eq name (text "d")
    then some boolean
    else if text_eq name (text "S")
        || text_eq name (text "s")
        || text_eq name (text "P")
        || text_eq name (text "B")
    then some valued
    else none

unfoldable pub compositor_flags : Text → Option Kind
unfolding recv_flags
compositor_flags name = if text_eq name (text "D") then some valued else recv_flags name

-- The command of the renderer, from the settings.
unfoldable pub recv_renderer : List (Text × Text) → List Text
unfolding value_of
recv_renderer settings =
    text "rvgpu-renderer"
    ∷ text "-B"
    ∷ value_of (text "B") (text "0x33333333") settings
    ∷ text "-p"
    ∷ value_of (text "P") (text "55667") settings
    ∷ text "-b"
    ∷ value_of (text "s") (text "1920x1080@0,0") settings
    ∷ text "-i"
    ∷ value_of (text "S") (text "9000") settings
    ∷ text "-a"
    ∷ []

unfoldable pub compositor_renderer : List (Text × Text) → List Text
unfolding value_of
compositor_renderer settings =
    text "rvgpu-renderer"
    ∷ text "-B"
    ∷ value_of (text "B") (text "0x33333333") settings
    ∷ text "-p"
    ∷ value_of (text "P") (text "55667") settings
    ∷ text "-b"
    ∷ value_of (text "s") (text "1920x1080@0,0") settings
    ∷ text "-i"
    ∷ value_of (text "S") (text "9000") settings
    ∷ text "-d"
    ∷ value_of (text "D") (text "rvgpu-compositor-0") settings
    ∷ text "-a"
    ∷ text "-l"
    ∷ []

-- What a program does: it dials the Wayland server, starts the renderer, hands its process to the signal
-- handler and waits, kills itself, or exits.
pub data Deed : Type 0 where
  dial : Text → Deed
  start : List Text → Deed
  hand_over kill_self wait exit_one exit_usage : Deed

-- The two `main`s behind `flag.Parse`, with the command that each makes of its settings; `dials` and
-- `starts` say whether `net.Dial` and `cmd.Start` return no error.
unfoldable pub renderer_main :
    (List (Text × Text) → List Text) → Option Text → Option Text → Bool → Bool → Parsed → List Deed
unfolding get_env
renderer_main command runtime_dir display dials starts exits = exit_usage ∷ []
renderer_main command runtime_dir display dials starts (parsed settings args) =
    let server =
      get_env runtime_dir (text "/run/user/1000") ++ (b'/' ∷ get_env display (text "wayland-0")) in
    if not dials
    then dial server ∷ exit_one ∷ []
    else if not starts
    then dial server ∷ start (command settings) ∷ kill_self ∷ wait ∷ []
    else dial server ∷ start (command settings) ∷ hand_over ∷ wait ∷ []

-- `main` of wl-recv and of the compositor, over `XDG_RUNTIME_DIR`, `WAYLAND_DISPLAY` and the arguments.
unfoldable pub recv_main : Option Text → Option Text → Bool → Bool → List Text → List Deed
unfolding renderer_main recv_renderer recv_flags parse_flags
recv_main runtime_dir display dials starts args =
    renderer_main recv_renderer runtime_dir display dials starts (parse_flags recv_flags args)

unfoldable pub compositor_main : Option Text → Option Text → Bool → Bool → List Text → List Deed
unfolding renderer_main compositor_renderer compositor_flags parse_flags
compositor_main runtime_dir display dials starts args =
    renderer_main compositor_renderer runtime_dir display dials starts
      (parse_flags compositor_flags args)
