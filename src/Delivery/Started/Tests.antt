-- ===== src/Delivery/Started/Tests.antt =====
-- A virtual screen with one compositor.
use ucl_tools.Base.{true, none, some, [], ◌∷◌, text, pos}
use ucl_tools.Document.{obj, Fields}
use ucl_tools.Document.Decode.{Json, marshal}
use ucl_tools.Screen.{VScrnDef}
use ucl_tools.Node.Command.{Receiver}
use ucl_tools.Route.Refines.{resolver}
use ucl_tools.Route.Spec.{receiver_job, message_of}
use ucl_tools.Delivery.{app_of, application_document}
use ucl_tools.Node.Decode.Parts.{receiver_part}
use ucl_tools.Delivery.Compositors.{receiver_of, compositors}
use ucl_tools.Delivery.Started.{Host}

abbrev screen : VScrnDef
screen = record {
  real_displays =
      record {
        node_id = pos 0;
        v_display_id = pos 5;
        pixel_w = pos 1920;
        pixel_h = pos 1080;
        r_display_id = pos 0;
      }
      ∷ [];
  nodes = record { node_id = pos 0; host_name = text "agl"; ip = text "10.0.0.1" } ∷ [];
  life_cycle_manager = record { node_id = pos 0; port = pos 7000 };
  framework_node =
      record {
        node_id = pos 0;
        ucl_port = pos 7654;
        compositor =
            record {
              v_display_ids = pos 5 ∷ [];
              ivi_surface_id = pos 0;
              sock_domain_name = text "rvgpu-0";
              listen_port = pos 36000;
            }
            ∷ [];
      }
      ∷ [];
}

abbrev ready : Host
ready = record { getenv = λ name. []; runtime_dir = none; display = none; starts = true }

abbrev shown : Receiver
shown = receiver_of (text "/usr/bin/ucl-virtio-gpu-rvgpu-compositor") screen (pos 0) (record {
  v_display_ids = pos 5 ∷ [];
  ivi_surface_id = pos 0;
  sock_domain_name = text "rvgpu-0";
  listen_port = pos 36000;
})

abbrev shown_document : Fields
shown_document = application_document (compositors (shown ∷ []))

-- `encoding/json` on the text of the compositors and on that of their one command.
abbrev canned_screen : Json
canned_screen = record {
  print = λ z. z;
  write = λ value. text "compositors";
  read = λ command. some shown_document;
  parse = λ command. some (
      marshal (λ z. z)
        (obj
          (message_of (resolver screen.framework_node screen.nodes)
            (app_of (compositors (shown ∷ []))) (receiver_job (receiver_part shown))).1));
}
