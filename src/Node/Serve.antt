-- ===== src/Node/Serve.antt =====
-- `dispatchComm`, the loop of `handleConnection`, and the start of a node.
pub mod Fetch
use ucl_tools.Base.{
  Bool, true, false, Option, none, some, List, [], ◌∷◌, if◌then◌else◌, Text, text, text_eq,
}
use ucl_tools.Settings.{cmd_distrib_comm, cmd_get_app_comm, cmd_get_executable_app_list}
use ucl_tools.Document.{Run, ok as listed, fail, panic}
use ucl_tools.Wire.{
  Result, ok, err, Fault, Writer, read_command, conn_write_with_size, send_magic_code,
}

-- What becomes of a connection: it is closed, with what was written on it, after a command or because of
-- an error; it goes to `handleConnection` with the command and what is left to read, and `dispatchComm`
-- returns no error if the flag is `true`; or the node ends by a panic.
pub data Served : Type 0 where
  closed : Writer → Served
  refused : Fault → Served
  handed_over : Text → List Text → Writer → Bool → Served
  crashed : Served

-- An answer, if there is one, and the end of the connection.
abbrev pub answer_with : Writer → Option Text → Served
answer_with conn none = closed conn
answer_with conn (some reply) = closed ((conn_write_with_size conn reply).0)

abbrev pub answer_list : Writer → Run (Option Text) → Served
answer_list conn (listed app_list) = answer_with conn app_list
answer_list conn (fail _) = closed conn
answer_list conn panic = crashed

-- The `switch` of `dispatchComm`; `app_comm` is `ReadAppComm` and `app_list` is `getExecutableAppList`.
unfoldable pub serve_command :
    (Text → Option Text) → (Text → Run (Option Text)) → Writer → Text → Text → List Text → Served
serve_command app_comm app_list conn comm_type recv_buf left =
    if text_eq comm_type cmd_get_app_comm
    then answer_with conn (app_comm recv_buf)
    else if text_eq comm_type cmd_get_executable_app_list
    then answer_list conn (app_list recv_buf)
    else if text_eq comm_type cmd_distrib_comm
    then (let (conn1, sent) = send_magic_code conn in handed_over recv_buf left conn1 sent)
    else closed conn

-- `dispatchComm` once `ReadCommand` has returned.
unfoldable pub serve_read :
    (Text → Option Text)
    → (Text → Run (Option Text))
    → Writer
    → Result (Text × Text × List Text)
    → Served
unfolding serve_command
serve_read app_comm app_list conn (err fault) = refused fault
serve_read app_comm app_list conn (ok (comm_type, recv_buf, left)) =
    serve_command app_comm app_list conn comm_type recv_buf left

-- `dispatchComm`, over what is read from the connection.
unfoldable pub dispatch_comm :
    (Text → Option Text) → (Text → Run (Option Text)) → List Text → Writer → Served
dispatch_comm app_comm app_list segments conn =
    serve_read app_comm app_list conn (read_command segments)

-- What the `select` of the loop in `handleConnection` finds: a message for the manager, with whether
-- writing it succeeds; what `ConnReadLoop` puts on its channel, with the `CommType` that `json.Unmarshal`
-- gives, if it gives one; or the end of the context.
pub data LinkEvent : Type 0 where
  to_send : Text → Bool → LinkEvent
  from_lcm : Option (Text × Option Text) → LinkEvent
  task_done : LinkEvent

-- What the loop does: it writes to the manager, hands the message to `ncountWorker`, wakes `NkeepWorker`,
-- or cancels the context.
pub data LinkDeed : Type 0 where
  write give_count : Text → LinkDeed
  wake_keeper cancel_context : LinkDeed

-- The `CommType` of `cp` after a message: `cp` keeps it when `json.Unmarshal` sets none.
abbrev pub comm_type_of : Text → Option Text → Text
comm_type_of before none = before
comm_type_of before (some comm_type) = comm_type

-- The loop, with the `CommType` of `cp`, and whether it has been left.
unfoldable pub link_loop : Text → List LinkEvent → List LinkDeed × Bool
link_loop cp [] = ([], false)
link_loop cp (to_send message true ∷ events) =
    let (deeds, left) = link_loop cp events in (write message ∷ deeds, left)
link_loop cp (to_send message false ∷ events) = ([], true)
link_loop cp (from_lcm none ∷ events) = (cancel_context ∷ [], true)
link_loop cp (from_lcm (some (message, parsed)) ∷ events) =
    let comm_type = comm_type_of cp parsed in
    let (deeds, left) = link_loop comm_type events in
    if text_eq comm_type (text "ncount")
    then (give_count message ∷ deeds, left)
    else if text_eq comm_type (text "nkeep")
    then (wake_keeper ∷ deeds, left)
    else ([], true)
link_loop cp (task_done ∷ events) = ([], true)
