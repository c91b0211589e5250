-- ===== src/Renderer/Settings.antt =====
-- The settings of a renderer, from the arguments that a node gives to a receiver.
use ucl_tools.Base.{
  ◌≡◌, refl, Option, none, some, List, [], ◌∷◌, ◌++◌, Text, text, text_eq, ℤ, itoa,
}
use ucl_tools.Flags.{parsed, exits, parse_flags, token_of, named_token, value_of}
use ucl_tools.Node.Env.{split_eq}
use ucl_tools.Node.Command.{BackendParams, scan_out}
use ucl_tools.Node.Process.{surface_args, domain_args}
use ucl_tools.Renderer.{recv_flags, compositor_flags, recv_renderer, compositor_renderer}

-- The settings that the arguments of a receiver stand for.
abbrev pub surface_settings : Option ℤ → List (Text × Text)
surface_settings none = []
surface_settings (some surface) = (text "S", itoa surface) ∷ []

abbrev pub domain_settings : Option Text → List (Text × Text)
domain_settings none = []
domain_settings (some name) = (text "D", name) ∷ []

abbrev pub display_settings : Text → Text → Text → List (Text × Text)
display_settings place port color = (text "s", place) ∷ (text "P", port) ∷ (text "B", color) ∷ []

abbrev pub place_of : BackendParams → Text
place_of p = scan_out p.scan_out_w p.scan_out_h p.scan_out_x p.scan_out_y

abbrev pub settings_of : BackendParams → List (Text × Text)
settings_of p =
    display_settings (place_of p) (itoa p.listen_port) p.initial_screen_color
    ++ (surface_settings p.ivi_surface_id ++ domain_settings p.sock_domain_name)

module _ (place port color : Text) where
  abbrev pub display_args : List Text
  display_args = text "-s" ∷ place ∷ text "-P" ∷ port ∷ text "-B" ∷ color ∷ []

  pub parse_compositor :
      (surface : Option ℤ) (domain : Option Text)
      → parse_flags compositor_flags (display_args ++ (surface_args surface ++ domain_args domain))
        ≡ parsed
            (display_settings place port color
              ++ (surface_settings surface ++ domain_settings domain))
            []
  unfolding parse_flags token_of named_token split_eq compositor_flags recv_flags text_eq
  parse_compositor none none = refl
  parse_compositor none (some name) = refl
  parse_compositor (some s) none = refl
  parse_compositor (some s) (some name) = refl

  pub parse_recv :
      (surface : Option ℤ)
      → parse_flags recv_flags (display_args ++ surface_args surface)
        ≡ parsed (display_settings place port color ++ surface_settings surface) []
  unfolding parse_flags token_of named_token split_eq recv_flags text_eq
  parse_recv none = refl
  parse_recv (some s) = refl

  -- wl-recv has no flag for a socket.
  pub parse_recv_domain :
      (surface : Option ℤ) (name : Text)
      → parse_flags recv_flags (display_args ++ (surface_args surface ++ domain_args (some name)))
        ≡ exits
  unfolding parse_flags token_of named_token split_eq recv_flags text_eq
  parse_recv_domain none name = refl
  parse_recv_domain (some s) name = refl

-- The surface and the socket that a renderer gets.
abbrev pub surface_or : Option ℤ → Text
surface_or none = text "9000"
surface_or (some surface) = itoa surface

abbrev pub domain_or : Option Text → Text
domain_or none = text "rvgpu-compositor-0"
domain_or (some name) = name

-- The renderer's command for the display of a receiver, but for what comes behind the surface.
abbrev pub renderer_args : BackendParams → List Text → List Text
renderer_args p rest =
    text "rvgpu-renderer"
    ∷ text "-B"
    ∷ p.initial_screen_color
    ∷ text "-p"
    ∷ itoa p.listen_port
    ∷ text "-b"
    ∷ place_of p
    ∷ text "-i"
    ∷ surface_or p.ivi_surface_id
    ∷ rest

module _ (place port color : Text) where
  pub compositor_renderer-settings :
      (surface : Option ℤ) (domain : Option Text)
      → compositor_renderer (
          display_settings place port color ++ (surface_settings surface ++ domain_settings domain))
        ≡ text "rvgpu-renderer"
          ∷ text "-B"
          ∷ color
          ∷ text "-p"
          ∷ port
          ∷ text "-b"
          ∷ place
          ∷ text "-i"
          ∷ surface_or surface
          ∷ text "-d"
          ∷ domain_or domain
          ∷ text "-a"
          ∷ text "-l"
          ∷ []
  unfolding compositor_renderer value_of text_eq
  compositor_renderer-settings none none = refl
  compositor_renderer-settings none (some name) = refl
  compositor_renderer-settings (some s) none = refl
  compositor_renderer-settings (some s) (some name) = refl

  pub recv_renderer-settings :
      (surface : Option ℤ)
      → recv_renderer (display_settings place port color ++ surface_settings surface)
        ≡ text "rvgpu-renderer"
          ∷ text "-B"
          ∷ color
          ∷ text "-p"
          ∷ port
          ∷ text "-b"
          ∷ place
          ∷ text "-i"
          ∷ surface_or surface
          ∷ text "-a"
          ∷ []
  unfolding recv_renderer value_of text_eq
  recv_renderer-settings none = refl
  recv_renderer-settings (some s) = refl
