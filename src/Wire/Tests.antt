-- ===== src/Wire/Tests.antt =====
-- A command sent by one side and read by the other, in segments that cut the magic code and a size.
use ucl_tools.Base.{
  ◌+◌, ◌≡◌, refl, true, none, some, List, [], ◌∷◌, ◌++◌, arith, Text, text, length, take, drop,
  concat, replicate, length-replicate,
}
use ucl_tools.Wire.Commands.{
  send_command_lem, send_command_succeeds, read_command-send_command, read_command_huge,
}
use ucl_tools.Wire.Messages.{frame, Sendable, conn_read_loop-frames, conn_read_with_size-Sendable}
use ucl_tools.Wire.Segments.{Flowing}
use ucl_tools.Wire.{
  wait_magic_code, ok, err, conn_read, put_uint32, magic_code, max_size, command_data_err,
  conn_read_with_size, conn_read_loop, read_command, Writer, conn_write, conn_write_with_size,
  send_magic_code, send_command, uint32,
}

abbrev line : Writer
line = record { sent = []; writes = 5; cut = 0 }

abbrev sent_bytes : Text
sent_bytes =
    0x55 ∷ 0x48 ∷ 0x4d ∷ 0x49 ∷ 0 ∷ 0 ∷ 0 ∷ 6 ∷ (text "runApp" ++ (0 ∷ 0 ∷ 0 ∷ 2 ∷ text "id"))

send_run_app :
    send_command line (text "runApp") (text "id")
    ≡ (record { sent = sent_bytes; writes = 0; cut = 0 }, true)
unfolding send_command send_magic_code conn_write_with_size conn_write put_uint32
send_run_app = refl

abbrev pieces : List Text
pieces = take 3 sent_bytes ∷ take 4 (drop 3 sent_bytes) ∷ drop 7 sent_bytes ∷ []

pieces-Flowing : Flowing pieces
pieces-Flowing = ground arith

read_run_app : read_command pieces ≡ ok (text "runApp", text "id", [])
unfolding read_command wait_magic_code conn_read_with_size conn_read uint32
read_run_app = refl

read_command-send_command_example :
    (left : List Text) × (read_command pieces ≡ ok (text "runApp", text "id", left))
    × (concat left ≡ [])
    × Flowing left
unfolding send_command send_magic_code conn_write_with_size conn_write put_uint32
read_command-send_command_example =
    read_command-send_command line (text "runApp") (text "id") pieces [] refl (omega arith)
      (omega arith) pieces-Flowing refl

abbrev replies : List Text
replies = text "Busy" ∷ text "x" ∷ []

abbrev reply_bytes : Text
reply_bytes = 0 ∷ 0 ∷ 0 ∷ 4 ∷ (text "Busy" ++ (0 ∷ 0 ∷ 0 ∷ 1 ∷ text "x"))

conn_read_loop-frames_example :
    conn_read_loop 3 (reply_bytes ∷ []) ≡ some (text "Busy") ∷ some (text "x") ∷ none ∷ []
unfolding put_uint32
conn_read_loop-frames_example =
    conn_read_loop-frames replies 3 (reply_bytes ∷ []) (ground arith) (ground arith) refl
      (omega arith)

conn_read_with_size-Sendable_example : Sendable (text "Busy")
unfolding conn_read_with_size conn_read uint32
conn_read_with_size-Sendable_example =
    conn_read_with_size-Sendable (reply_bytes ∷ [])
      {r = (text "Busy", (0 ∷ 0 ∷ 0 ∷ 1 ∷ text "x") ∷ [])} refl

abbrev long : Text
long = replicate (max_size + 1) b'x'

long-length : length long ≡ max_size + 1
long-length = length-replicate (max_size + 1) b'x'

long_sent : (send_command line (text "launchApp") long).1 ≡ true
long_sent =
    send_command_succeeds line (text "launchApp") long (omega arith) (omega arith)
      (omega (arith, long-length))

abbrev long_pieces : List Text
long_pieces = put_uint32 magic_code ∷ frame (text "launchApp") ∷ frame long ∷ []

read_command_huge_example : read_command long_pieces ≡ err command_data_err
unfolding put_uint32
read_command_huge_example =
    read_command_huge line (text "launchApp") long long_pieces [] long_sent (omega arith)
      (omega (arith, long-length)) (omega (arith, long-length)) (ground arith)
      (rw
        (send_command_lem line (text "launchApp") long long_sent (omega arith)
          (omega (arith, long-length))).2
        refl)
