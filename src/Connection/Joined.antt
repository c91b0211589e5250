-- ===== src/Connection/Joined.antt =====
-- How `handleNodeConnection` ends, by the order of the node's writes.
use ucl_tools.Base.{
  ◌≡◌, refl, ap, ◌∙◌, ◌≤◌, ◌%◌, ◌^◌, Bool, true, false, Option, List, [], ◌∷◌, ◌++◌, append_assoc,
  arith, Text, text_eq, length, All, concat,
}
use mathlib.Core.List.{head-eq_of_cons-eq}
use ucl_tools.Settings.{cmd_distrib_comm}
use ucl_tools.Document.{Run}
use ucl_tools.Wire.{
  Result, ok, err, magic_mismatch, magic_code, max_size, put_uint32, wait_magic_code, Writer,
  send_command, send_magic_code,
}
use ucl_tools.Wire.Dialing.{connect_target}
use ucl_tools.Wire.Segments.{Flowing}
use ucl_tools.Wire.Messages.{Sendable}
use ucl_tools.Wire.Commands.{wait_magic_code-ok, read_command-send_command}
use ucl_tools.Node.Serve.{handed_over, serve_read, dispatch_comm}
use ucl_tools.Connection.{
  NodeEvent, node_loop, Handled, joined, not_answered, after_magic, after_send,
  handle_node_connection, writes_of, Shared, Reach,
}
use ucl_tools.Connection.Race.{Ordered, answered-Ordered, wait_magic_code-sized}

-- What `WaitMagicCode` gives when `before` was written in front of the magic code and `after` behind it.
abbrev pub Answers : List Text → Text → Result (List Text) → Type 0
Answers [] after (ok rest) = (concat rest ≡ after) × Flowing rest
Answers (x ∷ before) after (err fault) = fault ≡ magic_mismatch
Answers _ after _ = ⊥

first_write :
    (x : Text) (before tail : List Text) (ms : List Text) (segments : List Text) (rest : Text)
    → x ∷ before ++ tail ≡ writes_of ms
    → All Sendable ms
    → Flowing segments
    → concat segments ≡ x ++ rest
    → wait_magic_code segments ≡ err magic_mismatch
first_write x before tail [] segments rest e h f c = cc
first_write x before tail (m ∷ ms) segments rest e h f c =
    let small : length m % 2 ^ 32 ≤ max_size = omega (arith, h.0) in
    wait_magic_code-sized segments (length m % 2 ^ 32) rest f small
      (c ∙ ap (λ y. y ++ rest) (head-eq_of_cons-eq e))

answers :
    (ms before after queue segments : List Text) (later : Text)
    → before ++ (after ++ queue) ≡ writes_of ms
    → All Sendable ms
    → Flowing segments
    → concat segments ≡ concat (before ++ put_uint32 magic_code ∷ after) ++ later
    → Answers before (concat after ++ later) (wait_magic_code segments)
answers ms [] after queue segments later o h f e =
    let (left, r, c, g) =
      wait_magic_code-ok segments (concat after ++ later) f
        (e ∙ append_assoc (put_uint32 magic_code) (concat after) later) in
    rw r (c, g)
answers ms (x ∷ before) after queue segments later o h f e =
    rw
      (first_write x before (after ++ queue) ms segments
        (concat (before ++ put_uint32 magic_code ∷ after) ++ later) o h f
        (e ∙ append_assoc x (concat (before ++ put_uint32 magic_code ∷ after)) later))
      refl

-- How `handleNodeConnection` ends.
abbrev pub Ends : (List Text → List NodeEvent) → List Text → Text → Handled → Type 0
Ends events [] after handled =
    (rest : List Text) × (concat rest ≡ after)
    × Flowing rest
    × (handled ≡ joined (node_loop [] [] (events rest)).0 (node_loop [] [] (events rest)).1)
Ends events (x ∷ before) after handled = handled ≡ not_answered magic_mismatch

after_magic-Ends :
    (events : List Text → List NodeEvent) (before : List Text) (after : Text)
    (r : Result (List Text))
    → Answers before after r
    → Ends events before after (after_magic events r)
unfolding after_magic
after_magic-Ends events [] after (ok rest) (c, f) = (rest, c, f, refl)
after_magic-Ends events (x ∷ before) after (err fault) e = ap not_answered e
after_magic-Ends events [] after (err fault) h = absurd h
after_magic-Ends events (x ∷ before) after (ok rest) h = absurd h

handle-after_magic :
    (tries : List Bool) (w : Writer) (command : Text) (replies : List Text)
    (events : List Text → List NodeEvent)
    → connect_target tries ≡ true
    → (send_command w cmd_distrib_comm command).1 ≡ true
    → handle_node_connection tries w command replies events
      ≡ after_magic events (wait_magic_code replies)
unfolding handle_node_connection
handle-after_magic tries w command replies events c h =
    rw c (sent (send_command w cmd_distrib_comm command) h)
  where
    sent :
        (r : Writer × Bool)
        → r.1 ≡ true
        → after_send replies events r ≡ after_magic events (wait_magic_code replies)
    sent (conn, true) e = refl
    sent (conn, false) e = cc

-- The manager sends a command to a node that it can dial: if the command is sent without an error and is
-- not longer than `max_size`, then, however the network cuts it, the node takes exactly this command to
-- `handleConnection`. If the messages that this writes are of a size that the reader takes, and once the
-- magic code is sent, the writes on the connection are, in order, some of these messages' writes, the magic
-- code, and further ones of them, however the two goroutines interleave. If the magic code is the first, the
-- manager comes to its loop, with all that is written behind the magic code left to read; if anything is
-- written before it, the manager leaves the connection with an error.
pub handle_node_connection-Ends :
    (app_comm : Text → Option Text) (app_list : Text → Run (Option Text)) (conn : Writer)
    (tries : List Bool) (w : Writer) (command : Text) (segments : List Text) (rest : Text)
    (ms : List Text) {s : Shared} (replies : List Text) (later : Text)
    (events : List Text → List NodeEvent)
    → connect_target tries ≡ true
    → (send_command w cmd_distrib_comm command).1 ≡ true
    → length command ≤ max_size
    → Flowing segments
    → w.sent ++ concat segments ≡ (send_command w cmd_distrib_comm command).0.sent ++ rest
    → Reach ms s
    → s.answered ≡ true
    → All Sendable ms
    → Flowing replies
    → concat replies ≡ concat s.wire ++ later
    → (left before after : List Text) × (dispatch_comm app_comm app_list segments conn
        ≡ handed_over command left (send_magic_code conn).0 (send_magic_code conn).1)
      × (concat left ≡ rest)
      × (s.wire ≡ before ++ put_uint32 magic_code ∷ after)
      × (before ++ (after ++ s.queue) ≡ writes_of ms)
      × Ends events before
          (concat after ++ later)
          (handle_node_connection tries w command replies events)
handle_node_connection-Ends app_comm app_list conn tries w command segments rest ms {s} replies
      later events dialled sent size f e r answered h g k =
    let (left, got, c, _) =
      read_command-send_command w cmd_distrib_comm command segments rest sent (omega arith) size f
        e in
    let (before, after, wire, order) : Ordered ms s true = answered-Ordered ms s r answered in
    (
      left,
      before,
      after,
      unfold dispatch_comm in
          ap (serve_read app_comm app_list conn) got ∙ unfold serve_read text_eq in refl,
      c,
      wire,
      order,
      rw (handle-after_magic tries w command replies events dialled sent) (
          after_magic-Ends events before (concat after ++ later) (wait_magic_code replies) (
            answers ms before after s.queue replies later order h g
              (k ∙ ap (λ x. concat x ++ later) wire))),
    )
