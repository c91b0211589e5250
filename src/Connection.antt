-- ===== src/Connection.antt =====
-- The connection that carries a command to a node: `handleNodeConnection` of
-- cmd/ucl-lifecycle-manager/ucl_lifecycle_manager.go, and on the other side the two goroutines of
-- cmd/ucl-node/ucl_node.go that write on it, `dispatchComm` and `handleConnection`.
pub mod Race
pub mod Joined
mod Tests
use ucl_tools.Base.{
  ◌≡◌, ◌%◌, ◌^◌, Bool, true, false, Option, none, some, List, [], ◌∷◌, ◌++◌, if◌then◌else◌, Text,
  text, text_eq, length,
}
use ucl_tools.Settings.{cmd_distrib_comm}
use ucl_tools.Wire.{
  Fault, Result, ok, err, Writer, put_uint32, magic_code, send_command, wait_magic_code,
}
use ucl_tools.Wire.Dialing.{connect_target}
use ucl_tools.Node.Serve.{comm_type_of}

-- What the `select` of the loop in `handleNodeConnection` finds: a message for the node, with the
-- `CommType` that `json.Unmarshal` gives, if it gives one, and whether the write succeeds; what
-- `ConnReadLoop` puts on its channel; or the end of the context.
pub data NodeEvent : Type 0 where
  for_node : Text → Option Text → Bool → NodeEvent
  from_node : Option (Text × Option Text) → NodeEvent
  task_done : NodeEvent

-- What the loop does: it writes to the node, tells `NcountMaster` that the node has counted, wakes
-- `NkeepMaster`, or cancels the context.
pub data NodeDeed : Type 0 where
  write : Text → NodeDeed
  count_node wake_keeper cancel_context : NodeDeed

-- The message to the node, where `resp` is `respNCountMsg`.
abbrev pub message_for : Text → Text → Text → Text
message_for comm_type resp message = if text_eq comm_type (text "ncount") then resp else message

-- The loop, with the `CommType` of `cp` and `respNCountMsg`, and whether it has been left.
unfoldable pub node_loop : Text → Text → List NodeEvent → List NodeDeed × Bool
node_loop cp resp [] = ([], false)
node_loop cp resp (for_node message parsed true ∷ events) =
    let comm_type = comm_type_of cp parsed in
    let (deeds, left) = node_loop comm_type resp events in
    (write (message_for comm_type resp message) ∷ deeds, left)
node_loop cp resp (for_node message parsed false ∷ events) = ([], true)
node_loop cp resp (from_node none ∷ events) = (cancel_context ∷ [], true)
node_loop cp resp (from_node (some (message, parsed)) ∷ events) =
    let comm_type = comm_type_of cp parsed in
    let is_count = text_eq comm_type (text "ncount") in
    let (deeds, left) = node_loop comm_type (if is_count then message else resp) events in
    if is_count
    then (count_node ∷ deeds, left)
    else if text_eq comm_type (text "nkeep")
    then (wake_keeper ∷ deeds, left)
    else ([], true)
node_loop cp resp (task_done ∷ events) = ([], true)

-- How `handleNodeConnection` ends, or how its loop stands.
pub data Handled : Type 0 where
  not_connected : Handled
  not_sent : Writer → Handled
  not_answered : Fault → Handled
  joined : List NodeDeed → Bool → Handled

-- Behind `SendCommand`; `events` is what the loop finds, by what the connection carries behind the magic
-- code.
unfoldable pub after_magic : (List Text → List NodeEvent) → Result (List Text) → Handled
unfolding node_loop
after_magic events (err fault) = not_answered fault
after_magic events (ok rest) =
    let (deeds, left) = node_loop [] [] (events rest) in joined deeds left

unfoldable pub after_send : List Text → (List Text → List NodeEvent) → Writer × Bool → Handled
unfolding after_magic
after_send replies events (conn, false) = not_sent conn
after_send replies events (conn, true) = after_magic events (wait_magic_code replies)

-- `handleNodeConnection`, over the tries to connect and over what is read from the node.
unfoldable pub handle_node_connection :
    List Bool → Writer → Text → List Text → (List Text → List NodeEvent) → Handled
unfolding after_send
handle_node_connection tries conn command replies events =
    if connect_target tries
    then after_send replies events (send_command conn cmd_distrib_comm command)
    else not_connected

-- The two calls of `conn.Write` for each message of `handleConnection`.
abbrev pub writes_of : List Text → List Text
writes_of [] = []
writes_of (m ∷ ms) = put_uint32 (length m % 2 ^ 32) ∷ m ∷ writes_of ms

-- A connection on the node: whether `dispatchComm` has sent the magic code, the writes that
-- `handleConnection` has still to make, and those that were made, in order.
pub record Shared : Type 0 where
  pub answered : Bool
  pub queue : List Text
  pub wire : List Text

-- `go handleConnection(conn, recvBuf)` is followed by `SendMagicCode(conn)`: each of the two makes its
-- next write when it comes to it.
pub data Step (s : Shared) : Shared → Type 0 where
  send_magic :
      s.answered ≡ false
      → Step s (record s { answered = true; wire = s.wire ++ put_uint32 magic_code ∷ [] })
  next_write :
      (b : Text) (rest : List Text)
      → s.queue ≡ b ∷ rest
      → Step s (record s { queue = rest; wire = s.wire ++ b ∷ [] })

pub data Reach (ms : List Text) : Shared → Type 0 where
  start : Reach ms (record { answered = false; queue = writes_of ms; wire = [] })
  next : {s t : Shared} → Reach ms s → Step s t → Reach ms t
