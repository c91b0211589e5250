-- ===== src/Delivery/Started.antt =====
-- The renderers that the nodes start when the compositors are launched.
mod Tests
use ucl_tools.Base.{
  ◌&&◌, ◌≡◌, Bool, true, false, Option, List, [], ◌∷◌, Text, text, text_eq, no_blank,
}
use ucl_tools.Document.{Run, ok, fail, no_connectable_receivers}
use ucl_tools.Screen.{UclNode, Compositor, FrameworkNode}
use ucl_tools.Route.Spec.{addr_of_node}
use ucl_tools.Node.Command.{Receiver, UclCommand, ExecCommInfo, exec}
use ucl_tools.Node.Argv.{split_blank}
use ucl_tools.Node.Process.{opt_no_blank}
use ucl_tools.Node.Decode.{planned}
use ucl_tools.Renderer.{dial, compositor_main}
use ucl_tools.Renderer.Settings.{renderer_args, domain_or}
use ucl_tools.Renderer.Started.{server_path, started}

-- What a node's host answers: the environment of the node, the two variables that its processes see, and
-- whether the renderer starts.
pub record Host : Type 0 where
  pub getenv : Text → Text
  pub runtime_dir : Option Text
  pub display : Option Text
  pub starts : Bool

-- On this host, what a node reads makes it start the command of the receiver, which dials the Wayland
-- server and starts the renderer of the receiver's display.
abbrev pub StartsRenderer : Host → Receiver → Option UclCommand → Type 0
StartsRenderer h r read =
    (i : ExecCommInfo) × (args : List Text) × (planned h.getenv read ≡ exec i)
    × (split_blank i.exec_comm ≡ r.command ∷ args)
    × (compositor_main h.runtime_dir h.display true h.starts args
        ≡ dial (server_path h.runtime_dir h.display)
          ∷ started
              (renderer_args r.backend_params (
                text "-d"
                ∷ domain_or r.backend_params.sock_domain_name
                ∷ text "-a"
                ∷ text "-l"
                ∷ []))
              h.starts)

-- What the process of a receiver needs of it to be taken apart at its blanks.
abbrev pub IsPlain : Receiver → Type 0
IsPlain r =
    (text_eq r.command [] ≡ false)
    × (no_blank r.command ≡ true)
    × (no_blank r.backend_params.initial_screen_color ≡ true)
    × (opt_no_blank r.backend_params.sock_domain_name ≡ true)

module _ (host : Text → Host) (resolve : Text → UclNode) where
  -- One command for each receiver, to the address of its node, which starts its renderer.
  abbrev pub EachStarts : List Receiver → List (Text × Option UclCommand) → Type 0
  EachStarts [] [] = Unit
  EachStarts (r ∷ rs) ((addr, read) ∷ commands) =
      (addr ≡ addr_of_node (resolve r.launcher.host_name))
      × StartsRenderer (host addr) r read
      × EachStarts rs commands
  EachStarts _ _ = ⊥

  abbrev pub AllStart : List Receiver → Run (List (Text × Option UclCommand)) → Type 0
  AllStart [] out = out ≡ fail no_connectable_receivers
  AllStart (r ∷ rs) (ok commands) = EachStarts (r ∷ rs) commands
  AllStart _ _ = ⊥

-- The sockets of the compositors have no blank in their names.
abbrev pub sockets_plain : List Compositor → Bool
sockets_plain [] = true
sockets_plain (c ∷ cs) = no_blank c.sock_domain_name && sockets_plain cs

abbrev pub rows_plain : List FrameworkNode → Bool
rows_plain [] = true
rows_plain (fwn ∷ rows) = sockets_plain fwn.compositor && rows_plain rows
