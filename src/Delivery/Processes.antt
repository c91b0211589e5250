-- ===== src/Delivery/Processes.antt =====
-- The processes that the nodes of an application run.
use ucl_tools.Base.{
  ◌≡◌, Bool, false, not, ◌&&◌, Option, some, List, [], ◌∷◌, if◌then◌else◌, Text, text, text_eq,
}
use ucl_tools.Screen.{UclNode, FrameworkNode, Node, is_recv_compositor}
use ucl_tools.Route.Spec.{addr_of_node}
use ucl_tools.Node.Command.{Receiver, UclCommand, ExecCommInfo, exec, map_env, node_env}
use ucl_tools.Node.Env.{convert_env_vars}
use ucl_tools.Node.Argv.{split_blank}
use ucl_tools.Node.Process.{receiver_args}
use ucl_tools.Node.Decode.{planned}
use ucl_tools.Delivery.{Application}

-- What a node reads makes it run this command with these arguments and these variables, which waits for
-- the others or not.
abbrev pub Runs :
    (Text → Text) → Option UclCommand → Text → List Text → Option (List Text) → Bool → Type 0
Runs getenv read command args env waits =
    (i : ExecCommInfo) × (planned getenv read ≡ exec i)
    × (split_blank i.exec_comm ≡ command ∷ args)
    × (env ≡ some i.exec_comm_env)
    × (i.is_wait_deps ≡ waits)

-- The receivers that get a command: those that no compositor of the screen serves, or all compositors.
abbrev pub served : List FrameworkNode → Text → List Receiver → List Receiver
served rows kind [] = []
served rows kind (r ∷ rs) =
    if not (text_eq kind (text "launch_compositors"))
      && is_recv_compositor r.backend_params.listen_port rows
    then served rows kind rs
    else r ∷ served rows kind rs

-- `getenv` is the environment of the node at an address.
module _ (getenv : Text → Text → Text) (resolve : Text → UclNode) (a : Application) where
  -- One command for each receiver, to the address of its node, which runs it without waiting.
  abbrev pub EachRuns : List Receiver → List (Text × Option UclCommand) → Type 0
  EachRuns [] [] = Unit
  EachRuns (r ∷ rs) ((addr, read) ∷ commands) =
      (addr ≡ addr_of_node (resolve r.launcher.host_name))
      × Runs (getenv addr) read r.command (receiver_args r.backend_params)
          (map_env (node_env (getenv addr)) (convert_env_vars r.env)) false
      × EachRuns rs commands
  EachRuns _ _ = ⊥
