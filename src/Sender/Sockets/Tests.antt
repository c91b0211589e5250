-- ===== src/Sender/Sockets/Tests.antt =====
-- A process with two sockets, connected to 10.0.0.2:36000.
use ucl_tools.Base.{
  ◌≡◌, refl, true, none, some, List, [], ◌∷◌, map, arith, Text, text, text_eq, has_prefix, pos,
}
use ucl_tools.Sender.Sockets.{
  hex_digits, Ipv4, has_inode, field_at, count_line, count_lines, is_connection_established,
}
use ucl_tools.Sender.Sockets.Fds.{Fd, socket_fd, other_fd, link_of}
use ucl_tools.Sender.Sockets.Counted.{Socket, AllShown, IsHeader, is_connection_established-counts}

abbrev display_ip : Ipv4
display_ip = record { a = 10; b = 0; c = 0; d = 2 }

abbrev fds : List Fd
fds = other_fd (some (text "/dev/null")) ∷ socket_fd (text "701") ∷ socket_fd (text "702") ∷ []

abbrev connected_to : Text → Socket
connected_to inode = record { remote = display_ip; port = 36000; state = 1; inode = inode }

abbrev header : List Text
header =
    text "sl"
    ∷ text "local_address"
    ∷ text "rem_address"
    ∷ text "st"
    ∷ text "tx_queue"
    ∷ text "rx_queue"
    ∷ text "tr"
    ∷ text "tm->when"
    ∷ text "retrnsmt"
    ∷ text "uid"
    ∷ text "timeout"
    ∷ text "inode"
    ∷ []

abbrev line_of : Text → List Text
line_of inode =
    text "0:"
    ∷ text "0100007F:1F90"
    ∷ text "0200000A:8CA0"
    ∷ text "01"
    ∷ text "00000000:00000000"
    ∷ text "00:00000000"
    ∷ text "00000000"
    ∷ text "1000"
    ∷ text "0"
    ∷ inode
    ∷ []

lines_shown :
    AllShown
      (connected_to (text "701") ∷ connected_to (text "702") ∷ [])
      (line_of (text "701") ∷ line_of (text "702") ∷ [])
unfolding hex_digits field_at
lines_shown = (
  ((omega arith, omega arith, omega arith, omega arith), omega arith, omega arith),
  (omega arith, refl, refl, refl),
  (
    ((omega arith, omega arith, omega arith, omega arith), omega arith, omega arith),
    (omega arith, refl, refl, refl),
    tt,
  ),
)

header-IsHeader : IsHeader header
unfolding field_at
header-IsHeader = (omega arith, text "rem_address", text "uid", refl, refl, refl)

is_connection_established-counts_example :
    is_connection_established
      (some (pos 36000))
      (some display_ip)
      (some (map link_of fds))
      (some (header ∷ line_of (text "701") ∷ line_of (text "702") ∷ []))
      2
    ≡ some true
unfolding text_eq has_inode has_prefix
is_connection_established-counts_example =
    is_connection_established-counts display_ip 36000 fds header
      (connected_to (text "701") ∷ connected_to (text "702") ∷ [])
      (line_of (text "701") ∷ line_of (text "702") ∷ []) 2
      (omega arith, omega arith, omega arith, omega arith) (omega arith) (refl, (tt, (tt, tt)))
      header-IsHeader lines_shown

-- A line of nine fields is a panic.
nine_fields :
    is_connection_established
      (some (pos 36000))
      (some display_ip)
      (some [])
      (some (
        (text "0:"
          ∷ text "a"
          ∷ text "b"
          ∷ text "c"
          ∷ text "d"
          ∷ text "e"
          ∷ text "f"
          ∷ text "g"
          ∷ text "h"
          ∷ [])
        ∷ []))
      2
    ≡ none
unfolding is_connection_established count_lines count_line field_at
nine_fields = refl
