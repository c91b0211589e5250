-- ===== src/Delivery/Compositors.antt =====
-- From the virtual screen to the renderers: what comes of the document that launches the compositors.
use ucl_tools.Base.{
  ◌≡◌, refl, ap, Bool, true, false, Option, none, some, List, [], ◌∷◌, map, Text, text, text_eq, ℤ,
  pos, is_positive, not,
}
use ucl_tools.Document.{str, Value, number, Fields, end, Run, ok, fail, no_connectable_receivers}
use ucl_tools.Tasks.{manage_compositors}
use ucl_tools.Screen.{UclNode, FrameworkNode, VScrnDef, Compositor}
use ucl_tools.Gather.Compositors.{field_if, compositor_launcher, display_size}
use ucl_tools.Gather.Launched.{first_display, part_of_compositor, node_parts, all_parts}
use ucl_tools.Node.Command.{Receiver, UclCommand}
use ucl_tools.Node.Decode.Parts.{optional, receiver_part}
use ucl_tools.Delivery.{Application, commands_for, receiver_command, receiver_commands}

abbrev pub some_if : {A : Type 0} → Bool → A → Option A
some_if true a = some a
some_if false a = none

optional_if :
    {A : Type 0} (b : Bool) (key : Text) (value : A → Value) (a : A) (rest : Fields)
    → field_if b key (value a) rest ≡ optional key value (some_if b a) rest
optional_if true key value a rest = refl
optional_if false key value a rest = refl

-- The receiver that a compositor of the virtual screen is.
module _ (command : Text) (v : VScrnDef) where
  abbrev pub receiver_of : ℤ → Compositor → Receiver
  receiver_of node_id c =
      let size = display_size v node_id (first_display command v c.v_display_ids) in
      record {
        launcher = record {
          ip = [];
          port = pos 0;
          host_name = compositor_launcher node_id v.nodes;
        };
        command = command;
        backend_params = record {
          ivi_surface_id = some_if (is_positive c.ivi_surface_id) c.ivi_surface_id;
          sock_domain_name = some_if (not (text_eq c.sock_domain_name [])) c.sock_domain_name;
          scan_out_x = pos 0;
          scan_out_y = pos 0;
          scan_out_w = size.0;
          scan_out_h = size.1;
          listen_port = c.listen_port;
          initial_screen_color = text "0x33333333";
        };
        env = [];
      }

  abbrev pub receivers_of_node : ℤ → List Compositor → List Receiver → List Receiver
  receivers_of_node node_id [] later = later
  receivers_of_node node_id (c ∷ compositors) later =
      receiver_of node_id c ∷ receivers_of_node node_id compositors later

  abbrev pub receivers_of : List FrameworkNode → List Receiver
  receivers_of [] = []
  receivers_of (fwn ∷ rows) = receivers_of_node fwn.node_id fwn.compositor (receivers_of rows)

  compositor_part :
      (node_id : ℤ) (c : Compositor)
      → part_of_compositor command v node_id c ≡ receiver_part (receiver_of node_id c)
  compositor_part node_id c =
      rw
        (
          optional_if (not (text_eq c.sock_domain_name [])) (text "sock_domain_name") str
              c.sock_domain_name end,
          optional_if (is_positive c.ivi_surface_id) (text "ivi_surface_id") number c.ivi_surface_id
              (optional (text "sock_domain_name") str
                (some_if (not (text_eq c.sock_domain_name [])) c.sock_domain_name) end),
        )
        refl

  node_receivers-parts :
      (node_id : ℤ) (compositors : List Compositor) (rs : List Receiver)
      → node_parts command v node_id compositors (map receiver_part rs)
        ≡ map receiver_part (receivers_of_node node_id compositors rs)
  node_receivers-parts node_id [] rs = refl
  node_receivers-parts node_id (c ∷ compositors) rs =
      rw (compositor_part node_id c, node_receivers-parts node_id compositors rs) refl

  pub receivers_of-parts :
      (rows : List FrameworkNode) → all_parts command v rows ≡ map receiver_part (receivers_of rows)
  receivers_of-parts [] = refl
  receivers_of-parts (fwn ∷ rows) =
      rw (receivers_of-parts rows)
        (node_receivers-parts fwn.node_id fwn.compositor (receivers_of rows))

-- The compositors as one application.
abbrev pub compositors : List Receiver → Application
compositors rs = record {
  command_type = text "launch_compositors";
  name = manage_compositors;
  sender = none;
  receivers = rs;
}

-- Each of the receivers gets a command of its own.
abbrev pub one_each : (Text → UclNode) → List Receiver → List (Text × Option UclCommand)
one_each resolve [] = []
one_each resolve (r ∷ rs) = receiver_command resolve (compositors []) r ∷ one_each resolve rs

abbrev pub launched : (Text → UclNode) → List Receiver → Run (List (Text × Option UclCommand))
launched resolve [] = fail no_connectable_receivers
launched resolve (r ∷ rs) = ok (one_each resolve (r ∷ rs))

all_launched :
    (resolve : Text → UclNode) (rows : List FrameworkNode) (all rs : List Receiver)
    → receiver_commands resolve rows (compositors all) rs ≡ one_each resolve rs
unfolding text_eq
all_launched resolve rows all [] = refl
all_launched resolve rows all (r ∷ rs) =
    ap (λ x. receiver_command resolve (compositors []) r ∷ x) (all_launched resolve rows all rs)

pub delivery-launched :
    (resolve : Text → UclNode) (rows : List FrameworkNode) (all rs : List Receiver)
    → commands_for resolve rows (compositors all) rs ≡ launched resolve rs
delivery-launched resolve rows all [] = refl
delivery-launched resolve rows all (r ∷ rs) = ap ok (all_launched resolve rows all (r ∷ rs))
