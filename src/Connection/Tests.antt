-- ===== src/Connection/Tests.antt =====
-- A node whose first write comes before the magic code, and the messages of a loop.
use ucl_tools.Base.{
  ◌≡◌, refl, true, none, some, List, [], ◌∷◌, ◌++◌, arith, Text, text, text_eq, concat,
}
use ucl_tools.Document.{ok as listed}
use ucl_tools.Wire.{
  send_command, send_magic_code, conn_write_with_size, conn_write, put_uint32, magic_code,
}
use ucl_tools.Wire.Dialing.{connect_target}
use ucl_tools.Wire.Segments.{Flowing}
use ucl_tools.Node.Serve.{handed_over, dispatch_comm}
use ucl_tools.Node.Serve.Fetch.{fresh}
use ucl_tools.Connection.{
  Shared, Reach, start, next, send_magic, next_write, node_loop, for_node, from_node, task_done,
  write, count_node, wake_keeper, writes_of, handle_node_connection,
}
use ucl_tools.Connection.Joined.{Ends, handle_node_connection-Ends}

-- What the manager sends, in one segment.
abbrev command_bytes : Text
command_bytes =
    put_uint32 magic_code ++ (put_uint32 9 ++ (text "launchApp" ++ (put_uint32 2 ++ text "{}")))

-- `handleConnection` writes the size of its message, and only then comes the magic code.
abbrev raced : Shared
raced = record {
  answered = true;
  queue = text "m" ∷ [];
  wire = put_uint32 1 ∷ put_uint32 magic_code ∷ [];
}

raced-Reach : Reach (text "m" ∷ []) raced
raced-Reach = next (next start (next_write (put_uint32 1) (text "m" ∷ []) refl)) (send_magic refl)

command-Flowing : Flowing (command_bytes ∷ [])
unfolding put_uint32
command-Flowing = ground arith

raced-Flowing : Flowing (concat raced.wire ∷ [])
unfolding put_uint32
raced-Flowing = ground arith

handle_node_connection-Ends_example :
    (left before after : List Text) × (dispatch_comm
        (λ name. none)
        (λ request. listed none)
        (command_bytes ∷ [])
        (fresh 9)
      ≡ handed_over (text "{}") left (send_magic_code (fresh 9)).0 (send_magic_code (fresh 9)).1)
    × (concat left ≡ [])
    × (raced.wire ≡ before ++ put_uint32 magic_code ∷ after)
    × (before ++ (after ++ raced.queue) ≡ writes_of (text "m" ∷ []))
    × Ends
        (λ rest. [])
        before
        (concat after ++ [])
        (handle_node_connection
          (true ∷ [])
          (fresh 9)
          (text "{}")
          (concat raced.wire ∷ [])
          (λ rest. []))
unfolding send_command send_magic_code conn_write_with_size conn_write put_uint32 connect_target
handle_node_connection-Ends_example =
    handle_node_connection-Ends (λ name. none) (λ request. listed none) (fresh 9) (true ∷ [])
      (fresh 9) (text "{}") (command_bytes ∷ []) [] (text "m" ∷ []) (concat raced.wire ∷ []) []
      (λ rest. []) refl refl (omega arith) command-Flowing refl raced-Reach refl
      ((omega arith, omega arith), tt) raced-Flowing refl

-- The message that lets the nodes go on is written as the node's own, and a message of another type ends
-- the loop.
loop_ends :
    node_loop [] [] (
      from_node (some (text "n1", some (text "ncount")))
      ∷ from_node (some (text "k", some (text "nkeep")))
      ∷ for_node (text "check") (some (text "nkeep")) true
      ∷ for_node (text "go") (some (text "ncount")) true
      ∷ from_node (some (text "x", some (text "other")))
      ∷ task_done
      ∷ [])
    ≡ (count_node ∷ wake_keeper ∷ write (text "check") ∷ write (text "n1") ∷ [], true)
unfolding node_loop text_eq
loop_ends = refl
