-- ===== src/Sender/Sockets.antt =====
-- `isConnectionEstablished` of cmd/ucl-virtio-gpu-wl-send/ucl_virtio_gpu_wl_send.go.
pub mod Fds
pub mod Hex
pub mod Counted
mod Tests
use ucl_tools.Base.{
  ℕ, zero, suc, ◌+◌, ◌-◌, ◌/◌, ◌%◌, ◌^◌, Bool, true, false, ◌&&◌, ◌||◌, Option, none, some, List,
  [], ◌∷◌, ◌++◌, ltb, ◌==◌, if◌then◌else◌, Text, text, text_eq, has_prefix, ℤ, length, drop, pos,
  negsuc,
}
use ucl_tools.Node.Env.{last_is, drop_last}

abbrev pub hex_digit : ℕ → ℕ
hex_digit d = if ltb d 10 then b'0' + d else b'A' + (d - 10)

-- So many hexadecimal digits of a number, in front of `out`.
unfoldable pub hex_digits : ℕ → ℕ → Text → Text
hex_digits zero n out = out
hex_digits (suc width) n out = hex_digits width (n / 16) (hex_digit (n % 16) ∷ out)

-- The width of a number that is padded to `width` digits; so many steps as the number are enough.
unfoldable pub width_of : ℕ → ℕ → ℕ → ℕ
width_of zero width n = width
width_of (suc fuel) width n =
    let wider = width_of fuel (suc width) n in if ltb n (16 ^ width) then width else wider

-- `fmt.Sprintf("%04X", port)`.
unfoldable pub port_hex : ℤ → Text
unfolding hex_digits width_of
port_hex (pos n) = hex_digits (width_of n 4 n) n []
port_hex (negsuc n) = b'-' ∷ hex_digits (width_of (suc n) 3 (suc n)) (suc n) []

-- An address by its four bytes.
pub record Ipv4 : Type 0 where
  pub a : ℕ
  pub b : ℕ
  pub c : ℕ
  pub d : ℕ

-- `ipHex`: the bytes from the last to the first.
unfoldable pub ip_hex : Ipv4 → Text
unfolding hex_digits
ip_hex ip =
    hex_digits 2 ip.d [] ++ (hex_digits 2 ip.c [] ++ (hex_digits 2 ip.b [] ++ hex_digits 2 ip.a []))

-- `strings.TrimPrefix` and `strings.TrimSuffix` of one byte.
abbrev pub trim_prefix : Text → Text → Text
trim_prefix s prefix = if has_prefix s prefix then drop (length prefix) s else s

abbrev pub trim_last : Text → ℕ → Text
trim_last s c = if last_is c s then drop_last s else s

-- `inodes`, of what `os.Readlink` gives for the files in `fd`.
unfoldable pub inodes_of : List (Option Text) → List Text
inodes_of [] = []
inodes_of (none ∷ links) = inodes_of links
inodes_of (some link ∷ links) =
    let rest = inodes_of links in
    if has_prefix link (text "socket:")
    then trim_last (trim_prefix link (text "socket:[")) b']' ∷ rest
    else rest

unfoldable pub has_inode : Text → List Text → Bool
has_inode entry_inode [] = false
has_inode entry_inode (inode ∷ inodes) = text_eq entry_inode inode || has_inode entry_inode inodes

-- `fields[i]`; `none` is a panic.
unfoldable pub field_at : ℕ → List Text → Option Text
field_at i [] = none
field_at zero (f ∷ fields) = some f
field_at (suc i) (f ∷ fields) = field_at i fields

abbrev pub is_counted : Text → List Text → Text → Text → Text → Bool
is_counted address inodes rem_address state entry_inode =
    text_eq rem_address address && text_eq state (text "01") && has_inode entry_inode inodes

-- The body of the loop: whether the line counts.
abbrev pub count_fields : Text → List Text → Option Text → Option Text → Option Text → Option Bool
count_fields address inodes (some rem_address) (some state) (some entry_inode) =
    some (is_counted address inodes rem_address state entry_inode)
count_fields address inodes _ _ _ = none

unfoldable pub count_line : Text → List Text → List Text → Option Bool
count_line address inodes fields =
    if ltb (length fields) 9
    then some false
    else count_fields address inodes (field_at 2 fields) (field_at 3 fields) (field_at 9 fields)

abbrev pub add_line : Option Bool → Option ℕ → Option ℕ
add_line (some true) (some n) = some (suc n)
add_line (some false) (some n) = some n
add_line _ _ = none

-- `count` behind the loop, over the lines as `strings.Fields` takes them apart.
unfoldable pub count_lines : Text → List Text → List (List Text) → Option ℕ
count_lines address inodes [] = some 0
count_lines address inodes (fields ∷ table) =
    add_line (count_line address inodes fields) (count_lines address inodes table)

abbrev pub compare_count : ℕ → Option ℕ → Option Bool
compare_count num_sockets none = none
compare_count num_sockets (some count) = some (num_sockets == count)

-- `isConnectionEstablished`, over what `strconv.Atoi` and `net.ParseIP` with `To4` give, the links in `fd`
-- and the lines of `net/tcp`, where they are read; `none` is a panic.
unfoldable pub is_connection_established :
    Option ℤ
    → Option Ipv4
    → Option (List (Option Text))
    → Option (List (List Text))
    → ℕ
    → Option Bool
is_connection_established (some port) (some ip) (some links) (some table) num_sockets =
    compare_count num_sockets
      (count_lines (ip_hex ip ++ (b':' ∷ port_hex port)) (inodes_of links) table)
is_connection_established _ _ _ _ num_sockets = some false
