-- ===== src/Node/Plans.antt =====
-- What `handleConnection` starts for the command of a sender and for that of a receiver.
use ucl_tools.Base.{
  ◌≡◌, refl, ap, ◌∙◌, Bool, true, false, ◌||◌, some, List, [], ◌∷◌, ◌++◌, Text, text, text_eq,
  no_blank,
}
use ucl_tools.Node.Env.{convert_env_vars}
use ucl_tools.Node.Env.Total.{convert_env_vars-total}
use ucl_tools.Node.Command.{
  Receiver, UclCommand, ExecCommInfo, exec, plan_of, node_env, map_env, make_qt_cmd_params,
  make_sender_cmd_params, make_receiver_cmd_params, first_receiver,
}
use ucl_tools.Node.Argv.{split_blank, split_blank-spaced, split_blank-args}
use ucl_tools.Node.Process.{receiver_args, receiver_params, receiver_args-no_blank, opt_no_blank}
use ucl_tools.Node.SenderProcess.{ips_no_blank, sender_args, sender_params, sender_args-no_blank}

abbrev pub is_display_type : Text → Bool
is_display_type t = text_eq t (text "remote_virtio_gpu") || text_eq t (text "launch_compositors")

-- For a command with a sender, of a type with displays, and with no blank in the command of the sender,
-- in the name of the application and in the addresses of the receivers, the node runs a process that
-- waits for the others, whose arguments are those of the sender followed by the application's own, taken
-- apart at the blanks, and whose variables are those of the sender.
pub plan_of-sender :
    (getenv : Text → Text) (u : UclCommand)
    → is_display_type u.command_type ≡ true
    → text_eq u.sender.command [] ≡ false
    → no_blank u.sender.command ≡ true
    → no_blank u.app_name ≡ true
    → ips_no_blank u.receivers ≡ true
    → (i : ExecCommInfo) × (plan_of getenv u ≡ exec i)
      × (split_blank i.exec_comm ≡ u.sender.command ∷ (sender_args u ++ split_blank u.sender.appli))
      × (convert_env_vars u.sender.env ≡ some i.exec_comm_env)
      × (i.is_wait_deps ≡ true)
unfolding plan_of
plan_of-sender getenv u t c b n r =
    let (env, e, _) = convert_env_vars-total u.sender.env in
    let comm =
      u.sender.command ++ make_sender_cmd_params u (make_qt_cmd_params u.sender.qt_env []) in
    (
      record { exec_comm = comm; exec_comm_env = env; is_wait_deps = true },
      rw (t, c, e) refl,
      ap (λ x. split_blank (u.sender.command ++ x)) (sender_params u)
          ∙ split_blank-spaced u.sender.command (sender_args u) u.sender.appli
              (rw (b, sender_args-no_blank u n r) refl),
      e,
      refl,
    )

-- For a command without a sender, of a type with displays, and with no blank in the command, the color
-- and the socket of its first receiver, the node runs a process that does not wait, whose arguments are
-- those of the receiver, and whose variables are those of the receiver with the two that it takes over
-- from the node where they are missing.
pub plan_of-receiver :
    (getenv : Text → Text) (u : UclCommand) (r : Receiver) (rs : List Receiver)
    → is_display_type u.command_type ≡ true
    → text_eq u.sender.command [] ≡ true
    → u.receivers ≡ r ∷ rs
    → text_eq r.command [] ≡ false
    → no_blank r.command ≡ true
    → no_blank r.backend_params.initial_screen_color ≡ true
    → opt_no_blank r.backend_params.sock_domain_name ≡ true
    → (i : ExecCommInfo) × (plan_of getenv u ≡ exec i)
      × (split_blank i.exec_comm ≡ r.command ∷ receiver_args r.backend_params)
      × (map_env (node_env getenv) (convert_env_vars r.env) ≡ some i.exec_comm_env)
      × (i.is_wait_deps ≡ false)
unfolding plan_of first_receiver
plan_of-receiver getenv u r rs t c e f b h k =
    let (env, v, _) = convert_env_vars-total r.env in
    (
      record {
        exec_comm = r.command ++ make_receiver_cmd_params [] r;
        exec_comm_env = node_env getenv env;
        is_wait_deps = false;
      },
      rw (t, c, e, f, v) refl,
      ap (λ x. split_blank (r.command ++ x)) (receiver_params r)
          ∙ split_blank-args r.command (receiver_args r.backend_params)
              (rw (b, receiver_args-no_blank r.backend_params h k) refl),
      rw v refl,
      refl,
    )
