-- ===== src/Wire/Commands.antt =====
-- `SendCommand` and `ReadCommand`.
use ucl_tools.Base.{
  ◌^◌, ◌≤◌, ◌<◌, ◌≡◌, refl, ◌∙◌, ◌≢◌, true, List, [], ◌++◌, append_assoc, arith, Text, length,
  concat,
}
use mathlib.Core.List.{append_cancel_left}
use ucl_tools.Wire.Bytes.{uint32-put_uint32}
use ucl_tools.Wire.Segments.{Flowing, conn_read-Gives}
use ucl_tools.Wire.Messages.{
  frame, Gives_lem, read_head, conn_read_with_size-Gives, conn_read_with_size_huge, conn_write_lem,
  conn_write_with_size_lem, then_write_inv,
}
use ucl_tools.Wire.{
  ok, err, command_data_err, wait_magic, magic_mismatch, conn_read, magic_code, max_size,
  put_uint32, uint32, wait_magic_code, read_command, Writer, conn_write, then_write,
  conn_write_with_size, send_magic_code, send_command,
}

-- What a command is on the connection.
abbrev pub command_frames : Text → Text → Text
command_frames kind command = put_uint32 magic_code ++ (frame kind ++ frame command)

-- A command that was sent without an error is on the connection whole, and neither part is empty.
pub send_command_lem :
    (w : Writer) (kind command : Text)
    → (send_command w kind command).1 ≡ true
    → length kind < 2 ^ 32
    → length command < 2 ^ 32
    → (0 < length kind)
      × (0 < length command)
      × ((send_command w kind command).0.sent ≡ w.sent ++ command_frames kind command)
unfolding send_command send_magic_code
send_command_lem w kind command h hk hc =
    let magic = put_uint32 magic_code in
    let w1 = (conn_write w magic).0 in
    let w2 = (conn_write_with_size w1 kind).0 in
    let (first, later, e) =
      then_write_inv (conn_write w magic)
        (λ w'. then_write (conn_write_with_size w' kind) (λ w''. conn_write_with_size w'' command))
        h in
    let (second, third, e') =
      then_write_inv (conn_write_with_size w1 kind) (λ w'. conn_write_with_size w' command) later in
    let (pk, s2) = conn_write_with_size_lem w1 kind second hk in
    let (pc, s3) = conn_write_with_size_lem w2 command third hc in
    let s1 = (conn_write_lem w magic first).1 in
    (pk, pc, rw (e, e') (s3 ∙ rw (s2, s1) (simp append_assoc)))

-- The send reports no error when neither part is empty and the connection takes five more writes.
pub send_command_succeeds :
    (w : Writer) (kind command : Text)
    → 5 ≤ w.writes
    → 0 < length kind
    → 0 < length command
    → (send_command w kind command).1 ≡ true
unfolding send_command send_magic_code conn_write_with_size conn_write put_uint32
send_command_succeeds w kind command h hk hc = ground arith

-- A connection that starts with the magic code passes the wait for it.
-- The magic code is taken for an answer, and what follows it is left.
pub wait_magic_code-ok :
    (segments : List Text) (rest : Text)
    → Flowing segments
    → concat segments ≡ put_uint32 magic_code ++ rest
    → (left : List Text) × (wait_magic_code segments ≡ ok left)
      × (concat left ≡ rest)
      × Flowing left
unfolding wait_magic_code
wait_magic_code-ok segments rest f e =
    let (left, r, c, f') = read_head segments magic_code rest f e in
    (left, rw (r, uint32-put_uint32 magic_code (omega arith)) refl, c, f')

-- The bytes behind what had been sent before.
sent_suffix :
    (w : Writer) (kind command : Text) (segments : List Text) (rest : Text)
    → (send_command w kind command).0.sent ≡ w.sent ++ command_frames kind command
    → w.sent ++ concat segments ≡ (send_command w kind command).0.sent ++ rest
    → concat segments ≡ put_uint32 magic_code ++ (frame kind ++ (frame command ++ rest))
sent_suffix w kind command segments rest s e =
    append_cancel_left w.sent (concat segments) (command_frames kind command ++ rest)
      (e ∙ rw s (append_assoc w.sent (command_frames kind command) rest))
    ∙ simp append_assoc

-- A command that one side sends is read by the other, whatever was sent before it and whatever
-- follows, however the network cuts the bytes: if the send reported no error and neither part is
-- longer than `max_size`, the reader gets both parts and leaves what follows.
pub read_command-send_command :
    (w : Writer) (kind command : Text) (segments : List Text) (rest : Text)
    → (send_command w kind command).1 ≡ true
    → length kind ≤ max_size
    → length command ≤ max_size
    → Flowing segments
    → w.sent ++ concat segments ≡ (send_command w kind command).0.sent ++ rest
    → (left : List Text) × (read_command segments ≡ ok (kind, command, left))
      × (concat left ≡ rest)
      × Flowing left
unfolding read_command
read_command-send_command w kind command segments rest h hk hc f e =
    let (pk, pc, s) = send_command_lem w kind command h (omega arith) (omega arith) in
    let (s0, r0, c0, f0) =
      wait_magic_code-ok segments (frame kind ++ (frame command ++ rest)) f
        (sent_suffix w kind command segments rest s e) in
    let (s1, r1, c1, f1) =
      conn_read_with_size-Gives s0 kind (frame command ++ rest) f0 (pk, hk) c0 in
    let (s2, r2, c2, f2) = conn_read_with_size-Gives s1 command rest f1 (pc, hc) c1 in
    (s2, rw (r0, r1, r2) refl, c2, f2)

-- The sender does not check the size of a command: one that is longer than `max_size`, and shorter
-- than 2^32, is sent without an error and refused by the reader.
pub read_command_huge :
    (w : Writer) (kind command : Text) (segments : List Text) (rest : Text)
    → (send_command w kind command).1 ≡ true
    → length kind ≤ max_size
    → max_size < length command
    → length command < 2 ^ 32
    → Flowing segments
    → w.sent ++ concat segments ≡ (send_command w kind command).0.sent ++ rest
    → read_command segments ≡ err command_data_err
unfolding read_command
read_command_huge w kind command segments rest h hk hc lt f e =
    let (pk, pc, s) = send_command_lem w kind command h (omega arith) lt in
    let (s0, r0, c0, f0) =
      wait_magic_code-ok segments (frame kind ++ (frame command ++ rest)) f
        (sent_suffix w kind command segments rest s e) in
    let (s1, r1, c1, f1) =
      conn_read_with_size-Gives s0 kind (frame command ++ rest) f0 (pk, hk) c0 in
    rw (r0, r1, conn_read_with_size_huge s1 command rest f1 hc lt c1) refl

-- A connection whose first four bytes are any others than the magic code is refused, and nothing of
-- a command is taken from it.
pub read_command_foreign :
    (segments : List Text) (head rest : Text)
    → Flowing segments
    → length head ≡ 4
    → uint32 head ≢ magic_code
    → concat segments ≡ head ++ rest
    → read_command segments ≡ err (wait_magic magic_mismatch)
unfolding read_command wait_magic_code
read_command_foreign segments head rest f four ne e =
    let (left, r, c, f') =
      Gives_lem (conn_read segments 4 [])
        (rw four at (conn_read-Gives segments head rest [] f e)) in
    rw r (ground arith)
