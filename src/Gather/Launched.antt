-- ===== src/Gather/Launched.antt =====
-- The commands that launch the compositors.
use ucl_tools.Base.{
  ◌≡◌, refl, ap, ◌∙◌, Bool, true, false, ◌&&◌, Option, none, some, List, [], ◌∷◌, arith, Text, text,
  text_eq, ℤ, is_positive, pos,
}
use ucl_tools.Document.{str, Items, Fields, end, field, Run, ok, fail, no_connectable_receivers}
use ucl_tools.Tasks.{manage_compositors}
use ucl_tools.Screen.{Compositor, FrameworkNode, VScrnDef, UclNode}
use ucl_tools.Route.Dispatch.{dispatch_comm_to_nodes}
use ucl_tools.Route.Spec.{
  receiver_value, ReceiverPart, App, receiver_values, document_of, Job, receiver_job, reachable,
  receiver_jobs, jobs_of, sent_of,
}
use ucl_tools.Route.Refines.{resolver, dispatch_comm_to_nodes_refines}
use ucl_tools.Gather.Compositors.{
  compositor_command, compositor_launcher, display_size, backend_params_of, compositor_receiver,
  compositor_receivers, node_receivers, generate_launch_compositors_comm,
}

-- A compositor has a display and a port.
abbrev pub has_display : List ℤ → Bool
has_display [] = false
has_display (v_display_id ∷ rest) = true

abbrev pub is_launchable : Compositor → Bool
is_launchable c = has_display c.v_display_ids && is_positive c.listen_port

abbrev pub all_launchable : List Compositor → Bool
all_launchable [] = true
all_launchable (c ∷ compositors) = is_launchable c && all_launchable compositors

abbrev pub rows_launchable : List FrameworkNode → Bool
rows_launchable [] = true
rows_launchable (fwn ∷ rows) = all_launchable fwn.compositor && rows_launchable rows

module _ (command : Text) (v : VScrnDef) where
  abbrev pub first_display : List ℤ → ℤ
  first_display [] = pos 0
  first_display (v_display_id ∷ rest) = v_display_id

  -- The receiver of a compositor on a node.
  abbrev pub part_of_compositor : ℤ → Compositor → ReceiverPart
  part_of_compositor node_id c = record {
    launcher = compositor_launcher node_id v.nodes;
    port = c.listen_port;
    params = backend_params_of c (display_size v node_id (first_display c.v_display_ids));
    rest = field (text "command") (str command) (field (text "env") (str []) end);
  }

  abbrev pub node_parts : ℤ → List Compositor → List ReceiverPart → List ReceiverPart
  node_parts node_id [] later = later
  node_parts node_id (c ∷ compositors) later =
      part_of_compositor node_id c ∷ node_parts node_id compositors later

  -- One receiver for each compositor of each node.
  abbrev pub all_parts : List FrameworkNode → List ReceiverPart
  all_parts [] = []
  all_parts (fwn ∷ rows) = node_parts fwn.node_id fwn.compositor (all_parts rows)

  abbrev values : List ReceiverPart → Items
  values rs = receiver_values str rs

  compositor_read :
      (node_id : ℤ) (c : Compositor) (ids : List ℤ)
      → c.v_display_ids ≡ ids
      → has_display ids ≡ true
      → is_positive c.listen_port ≡ true
      → compositor_receiver command v node_id c
        ≡ ok (some (receiver_value str (part_of_compositor node_id c)))
  unfolding compositor_receiver
  compositor_read node_id c [] e h k = absurd (ground (arith, h))
  compositor_read node_id c (d ∷ ids) e h k = rw (e, k) refl

  compositors_read :
      (node_id : ℤ) (compositors : List Compositor) (later : Run (Option Items))
      (rs : List ReceiverPart)
      → all_launchable compositors ≡ true
      → later ≡ ok (some (values rs))
      → compositor_receivers command v node_id compositors later
        ≡ ok (some (values (node_parts node_id compositors rs)))
  unfolding compositor_receivers
  compositors_read node_id [] later rs h e = e
  compositors_read node_id (c ∷ compositors) later rs h e =
      let rest = compositors_read node_id compositors later rs (ground (arith, h)) e in
      let read =
        compositor_read node_id c c.v_display_ids refl (ground (arith, h)) (ground (arith, h)) in
      rw (read, rest) refl

  nodes_read :
      (rows : List FrameworkNode)
      → rows_launchable rows ≡ true
      → node_receivers command v rows ≡ ok (some (values (all_parts rows)))
  unfolding node_receivers
  nodes_read [] h = refl
  nodes_read (fwn ∷ rows) h =
      compositors_read fwn.node_id fwn.compositor (node_receivers command v rows) (all_parts rows)
        (ground (arith, h)) (nodes_read rows (ground (arith, h)))

-- The compositors of the virtual screen as one application.
abbrev pub compositors_app : List ReceiverPart → App
compositors_app rs = record {
  command_type = text "launch_compositors";
  name = str manage_compositors;
  sender = none;
  receivers = rs;
}

-- The document that is generated.
pub document_read :
    (variable : Option Text) (v : VScrnDef) (r : ReceiverPart) (rs : List ReceiverPart)
    → rows_launchable v.framework_node ≡ true
    → all_parts (compositor_command variable) v v.framework_node ≡ r ∷ rs
    → generate_launch_compositors_comm variable v
      ≡ ok (some (document_of str (compositors_app (r ∷ rs)) (r ∷ rs)))
unfolding generate_launch_compositors_comm
document_read variable v r rs h e =
    rw (nodes_read (compositor_command variable) v v.framework_node h, e) refl

-- A command for each receiver.
abbrev pub one_each : List ReceiverPart → List Job
one_each [] = []
one_each (r ∷ rs) = receiver_job r ∷ one_each rs

none_skipped :
    (rows : List FrameworkNode) (rs : List ReceiverPart)
    → receiver_jobs rows (text "launch_compositors") rs ≡ one_each rs
unfolding text_eq
none_skipped rows [] = refl
none_skipped rows (r ∷ rs) = ap (λ js. receiver_job r ∷ js) (none_skipped rows rs)

abbrev pub launched : List ReceiverPart → Run (List Job)
launched [] = fail no_connectable_receivers
launched (r ∷ rs) = ok (one_each (r ∷ rs))

jobs_launched :
    (rows : List FrameworkNode) (all rs : List ReceiverPart)
    → jobs_of rows (compositors_app all) rs ≡ launched rs
jobs_launched rows all [] = refl
jobs_launched rows all (r ∷ rs) = ap ok (none_skipped rows (r ∷ rs))

-- If every compositor of the virtual screen has a display and a port, and there is one, the document that
-- launches the compositors has a receiver for each, and dispatching it sends each one that is on a
-- connectable node a command of its own, to that node; if there is none, it ends for the lack of them.
pub launch_compositors_dispatch :
    (variable : Option Text) (v : VScrnDef) (connectable : UclNode → Bool) (r : ReceiverPart)
    (rs : List ReceiverPart)
    → rows_launchable v.framework_node ≡ true
    → all_parts (compositor_command variable) v v.framework_node ≡ r ∷ rs
    → (doc : Fields) × (generate_launch_compositors_comm variable v ≡ ok (some doc))
      × (dispatch_comm_to_nodes v.framework_node v.nodes connectable doc
          ≡ sent_of
              (resolver v.framework_node v.nodes)
              (compositors_app (r ∷ rs))
              (launched (reachable (resolver v.framework_node v.nodes) connectable (r ∷ rs))))
launch_compositors_dispatch variable v connectable r rs h e =
    let all = r ∷ rs in
    let resolve : Text → UclNode = resolver v.framework_node v.nodes in
    (
      document_of str (compositors_app all) all,
      document_read variable v r rs h e,
      dispatch_comm_to_nodes_refines v.framework_node v.nodes connectable (compositors_app all)
            (unfold text_eq in refl)
          ∙ ap (sent_of resolve (compositors_app all))
              (jobs_launched v.framework_node all (reachable resolve connectable all)),
    )
