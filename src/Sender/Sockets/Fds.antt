-- ===== src/Sender/Sockets/Fds.antt =====
-- The sockets of a process among its open files.
use ucl_tools.Base.{
  ℕ, ◌≡◌, refl, ap, true, false, Option, none, some, List, [], ◌∷◌, ◌++◌, map, arith, Text, text,
  has_prefix, All,
}
use ucl_tools.Node.Env.{last_is, drop_last}
use ucl_tools.Sender.Sockets.{trim_last, inodes_of}

-- A file in `fd`: a socket, or one whose link does not begin like that of a socket.
pub data Fd : Type 0 where
  socket_fd : Text → Fd
  other_fd : Option Text → Fd

abbrev pub link_of : Fd → Option Text
link_of (socket_fd inode) = some (text "socket:[" ++ (inode ++ b']' ∷ []))
link_of (other_fd link) = link

abbrev pub IsFd : Fd → Type 0
IsFd (socket_fd inode) = Unit
IsFd (other_fd none) = Unit
IsFd (other_fd (some link)) = has_prefix link (text "socket:") ≡ false

abbrev pub owned : List Fd → List Text
owned [] = []
owned (socket_fd inode ∷ fds) = inode ∷ owned fds
owned (other_fd link ∷ fds) = owned fds

last_is-end : (c : ℕ) (s : Text) → last_is c (s ++ c ∷ []) ≡ true
unfolding last_is
last_is-end c [] = ground arith
last_is-end c (d ∷ []) = ground arith
last_is-end c (d ∷ e ∷ s) = last_is-end c (e ∷ s)

drop_last-end : (c : ℕ) (s : Text) → drop_last (s ++ c ∷ []) ≡ s
unfolding drop_last
drop_last-end c [] = refl
drop_last-end c (d ∷ []) = refl
drop_last-end c (d ∷ e ∷ s) = ap (λ x. d ∷ x) (drop_last-end c (e ∷ s))

trim_last-end : (s : Text) → trim_last (s ++ b']' ∷ []) b']' ≡ s
trim_last-end s = rw (last_is-end b']' s) (drop_last-end b']' s)

pub inodes_of-owned : (fds : List Fd) → All IsFd fds → inodes_of (map link_of fds) ≡ owned fds
unfolding inodes_of has_prefix
inodes_of-owned [] h = refl
inodes_of-owned (socket_fd inode ∷ fds) (_, hs) =
    rw (trim_last-end inode, inodes_of-owned fds hs) refl
inodes_of-owned (other_fd none ∷ fds) (_, hs) = inodes_of-owned fds hs
inodes_of-owned (other_fd (some link) ∷ fds) (h, hs) = rw (h, inodes_of-owned fds hs) refl
