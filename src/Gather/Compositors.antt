-- ===== src/Gather/Compositors.antt =====
-- The document that launches the compositors of the virtual screen: `generateLaunchCompsitorsComm`.
use ucl_tools.Base.{
  Bool, not, ◌&&◌, Option, none, some, List, [], ◌∷◌, ◌++◌, if◌then◌else◌, Text, text, text_eq, ℤ,
  int_eq, is_positive, pos,
}
use ucl_tools.Settings.{get_env}
use ucl_tools.Tasks.{manage_compositors}
use ucl_tools.Document.{
  Value, null, number, str, arr, obj, Items, nil, cons, Fields, end, field, Run, ok, panic, ◌>>=◌,
}
use ucl_tools.Screen.{RealDisplay, Node, Compositor, FrameworkNode, VScrnDef}
use ucl_tools.Node.Apps.{ends_in_slash}

-- The command of a compositor, over what the environment has for `RVGPU_LAUNCH_COMM_PATH`.
unfoldable pub compositor_command : Option Text → Text
unfolding get_env ends_in_slash
compositor_command variable =
    let path = get_env variable (text "/usr/bin/") in
    (if not (ends_in_slash path) then path ++ b'/' ∷ [] else path)
    ++ text "ucl-virtio-gpu-rvgpu-compositor"

-- The name of the first row with the id, or an empty one.
unfoldable pub compositor_launcher : ℤ → List Node → Text
compositor_launcher node_id [] = []
compositor_launcher node_id (n ∷ nodes) =
    if int_eq node_id n.node_id then n.host_name else compositor_launcher node_id nodes

-- The size of the last real display that is the virtual one, from the size found so far.
unfoldable pub compositor_size : ℤ → ℤ → List RealDisplay → ℤ × ℤ → ℤ × ℤ
compositor_size node_id v_display_id [] size = size
compositor_size node_id v_display_id (d ∷ displays) size =
    compositor_size node_id v_display_id displays (
      if int_eq node_id d.node_id && int_eq v_display_id d.v_display_id
      then (d.pixel_w, d.pixel_h)
      else size)

abbrev pub field_if : Bool → Text → Value → Fields → Fields
field_if b key v rest = if b then field key v rest else rest

-- `backendParams` but for its port.
abbrev pub backend_params_of : Compositor → ℤ × ℤ → Fields
backend_params_of c size = field (text "scanout_x") (number (pos 0)) (
    field (text "scanout_y") (number (pos 0)) (
      field (text "scanout_w") (number size.0) (
        field (text "scanout_h") (number size.1) (
          field (text "initial_screen_color") (str (text "0x33333333")) (
            field_if (is_positive c.ivi_surface_id) (text "ivi_surface_id")
              (number c.ivi_surface_id)
              (field_if (not (text_eq c.sock_domain_name [])) (text "sock_domain_name")
                (str c.sock_domain_name) end))))))

-- The size of the display of a compositor.
abbrev pub display_size : VScrnDef → ℤ → ℤ → ℤ × ℤ
display_size v node_id v_display_id =
    compositor_size node_id v_display_id v.real_displays (pos 0, pos 0)

-- The receiver for a compositor; `none` where the code returns nil, for lack of a port.
unfoldable pub compositor_receiver : Text → VScrnDef → ℤ → Compositor → Run (Option Value)
compositor_receiver command v node_id c = elim c.v_display_ids [
  | [] ↦ panic
  | v_display_id ∷ _ ↦ ok (
      if is_positive c.listen_port
      then some (
          obj (
            field (text "launcher") (str (compositor_launcher node_id v.nodes)) (
              field (text "backend_params")
                (obj (
                  field (text "listen_port") (number c.listen_port)
                    (backend_params_of c (display_size v node_id v_display_id))))
                (field (text "command") (str command) (field (text "env") (str []) end)))))
      else none)
]

-- The inner loop, in front of the receivers of the nodes behind.
unfoldable pub compositor_receivers :
    Text → VScrnDef → ℤ → List Compositor → Run (Option Items) → Run (Option Items)
compositor_receivers command v node_id [] later = later
compositor_receivers command v node_id (c ∷ compositors) later =
    let rest = compositor_receivers command v node_id compositors later in
    do
      receiver ← compositor_receiver command v node_id c
      elim receiver [
        | none ↦ ok none
        | some r ↦ rest >>= λ items. ok (elim items [ none ↦ none | some xs ↦ some (cons r xs) ])
      ]

-- The outer loop.
unfoldable pub node_receivers : Text → VScrnDef → List FrameworkNode → Run (Option Items)
node_receivers command v [] = ok (some nil)
node_receivers command v (fwn ∷ rows) =
    compositor_receivers command v fwn.node_id fwn.compositor (node_receivers command v rows)

-- A nil slice is marshalled as null.
abbrev pub items_value : Items → Value
items_value nil = null
items_value (cons x xs) = arr (cons x xs)

-- `generateLaunchCompsitorsComm`; `none` is nil.
unfoldable pub generate_launch_compositors_comm : Option Text → VScrnDef → Run (Option Fields)
generate_launch_compositors_comm variable v = do
  receivers ← node_receivers (compositor_command variable) v v.framework_node
  ok (elim receivers [
    | none ↦ none
    | some xs ↦ some (
        field (text "format_v1")
          (obj (
            field (text "command_type") (str (text "launch_compositors")) (
              field (text "appli_name") (str manage_compositors)
                (field (text "receivers") (items_value xs) end))))
          end)
  ])
