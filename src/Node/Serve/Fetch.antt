-- ===== src/Node/Serve/Fetch.antt =====
-- What the manager reads when it asks a node for the document of an application.
use ucl_tools.Base.{
  ℕ, ◌≤◌, ◌≡◌, refl, sym, ap, ◌∙◌, true, Option, none, some, List, [], ◌++◌, append-nil, arith,
  text_eq, Text, concat, length,
}
use ucl_tools.Settings.{cmd_get_app_comm}
use ucl_tools.Document.{Run}
use ucl_tools.Wire.{
  Result, ok, err, Writer, conn_read_with_size, conn_write_with_size, send_command, max_size,
  disconnected, size_read_fail,
}
use ucl_tools.Wire.Segments.{Flowing, conn_read_short}
use ucl_tools.Wire.Messages.{frame, conn_read_with_size-Gives, conn_write_with_size_lem}
use ucl_tools.Wire.Commands.{read_command-send_command}
use ucl_tools.Gather.{get_app_info_from_node}
use ucl_tools.Node.Serve.{Served, closed, answer_with, serve_read, dispatch_comm}

-- What `ConnReadWithSize` gives to `getAppInfoFromNode`.
abbrev pub read_reply : Result (Text × List Text) → Option Text
read_reply (ok r) = some r.0
read_reply (err _) = none

-- What a connection carries when nothing else was sent on it.
abbrev pub fresh : ℕ → Writer
fresh writes = record { sent = []; writes = writes; cut = 0 }

-- The node's answer is on its connection, whole.
abbrev pub IsAnswered : ℕ → Option Text → Type 0
IsAnswered writes none = Unit
IsAnswered writes (some reply) =
    ((conn_write_with_size (fresh writes) reply).1 ≡ true) × (length reply ≤ max_size)

abbrev pub sent_answer : ℕ → Option Text → Text
sent_answer writes none = []
sent_answer writes (some reply) = (conn_write_with_size (fresh writes) reply).0.sent

read_nothing :
    (replies : List Text)
    → Flowing replies
    → concat replies ≡ []
    → conn_read_with_size replies ≡ err (size_read_fail disconnected)
unfolding conn_read_with_size
read_nothing replies f e = rw (conn_read_short replies 4 [] f (rw e (omega arith))) refl

-- However the network cuts an answer, it is read whole.
pub read_answer :
    (writes : ℕ) (reply : Option Text) (replies : List Text)
    → IsAnswered writes reply
    → Flowing replies
    → concat replies ≡ sent_answer writes reply
    → read_reply (conn_read_with_size replies) ≡ reply
read_answer writes none replies h f e = rw (read_nothing replies f e) refl
read_answer writes (some reply) replies (h, size) f e =
    let (one, sent) = conn_write_with_size_lem (fresh writes) reply h (omega arith) in
    let (left, r, _, _) =
      conn_read_with_size-Gives replies reply [] f (one, size)
        (e ∙ sent ∙ sym (append-nil (frame reply))) in
    rw r refl

-- What is written on a connection that is closed.
abbrev pub written : Served → Text
written (closed conn) = conn.sent
written _ = []

written-answer :
    (writes : ℕ) (reply : Option Text)
    → written (answer_with (fresh writes) reply) ≡ sent_answer writes reply
written-answer writes none = refl
written-answer writes (some reply) = refl

answer_with-closed :
    (conn : Writer) (reply : Option Text)
    → (after : Writer) × (answer_with conn reply ≡ closed after)
answer_with-closed conn none = (conn, refl)
answer_with-closed conn (some reply) = ((conn_write_with_size conn reply).0, refl)

-- The manager asks a node for the document of an application: if the request is sent without an error, and
-- the node's answer, if it has one, is written without an error and is not longer than `max_size`, then,
-- however the network cuts both, the node closes the connection, and `getAppInfoFromNode` puts on its
-- channel exactly what `ReadAppComm` gave: the document, or nil where there is none.
pub dispatch_comm-fetch :
    (app_comm : Text → Option Text) (app_list : Text → Run (Option Text)) (w : Writer) (name : Text)
    (segments replies : List Text) (writes : ℕ)
    → (send_command w cmd_get_app_comm name).1 ≡ true
    → length name ≤ max_size
    → Flowing segments
    → w.sent ++ concat segments ≡ (send_command w cmd_get_app_comm name).0.sent
    → IsAnswered writes (app_comm name)
    → Flowing replies
    → concat replies ≡ written (dispatch_comm app_comm app_list segments (fresh writes))
    → (conn : Writer) × (dispatch_comm app_comm app_list segments (fresh writes) ≡ closed conn)
      × (get_app_info_from_node true
            (send_command w cmd_get_app_comm name).1
            (read_reply (conn_read_with_size replies))
          ≡ some (app_comm name))
unfolding get_app_info_from_node
dispatch_comm-fetch app_comm app_list w name segments replies writes sent size f e a g r =
    let (left, got, _, _) =
      read_command-send_command w cmd_get_app_comm name segments [] sent (omega arith) size f
        (e ∙ sym (append-nil (send_command w cmd_get_app_comm name).0.sent)) in
    let served : dispatch_comm app_comm app_list segments (fresh writes)
        ≡ answer_with (fresh writes) (app_comm name) =
      unfold dispatch_comm in
      ap (serve_read app_comm app_list (fresh writes)) got ∙ unfold serve_read text_eq in refl in
    let (conn, closes) = answer_with-closed (fresh writes) (app_comm name) in
    (
      conn,
      served ∙ closes,
      rw sent (
          ap some (
            read_answer writes (app_comm name) replies a g
              (r ∙ ap written served ∙ written-answer writes (app_comm name)))),
    )
