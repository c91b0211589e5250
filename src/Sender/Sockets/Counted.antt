-- ===== src/Sender/Sockets/Counted.antt =====
-- The sockets that are counted.
use ucl_tools.Base.{
  ℕ, suc, ◌<◌, ◌≡◌, refl, sym, ap, ◌∙◌, inl, inr, Bool, false, ◌&&◌, some, List, [], ◌∷◌, ◌++◌, map,
  arith, ltb, ◌==◌, if◌then◌else◌, Bool-cases, Text, text, text_eq, text_eq_iff, length, All, pos,
}
use ucl_tools.Sender.Sockets.{
  hex_digits, port_hex, Ipv4, ip_hex, inodes_of, has_inode, field_at, is_counted, count_line,
  add_line, count_lines, compare_count, is_connection_established,
}
use ucl_tools.Sender.Sockets.Fds.{Fd, link_of, IsFd, owned, inodes_of-owned}
use ucl_tools.Sender.Sockets.Hex.{
  hex_digits-injective, number_of, IsIpv4, ip_hex-number, port_hex-digits,
}

-- A TCP socket of the host, with its state by its number, 1 for an established connection.
pub record Socket : Type 0 where
  pub remote : Ipv4
  pub port : ℕ
  pub state : ℕ
  pub inode : Text

abbrev pub IsSocket : Socket → Type 0
IsSocket s = IsIpv4 s.remote × (s.port < 65536) × (s.state < 256)

-- What the kernel prints as the remote address: the address as a number, on a machine that keeps the
-- lowest byte first, in eight digits, and the port in four.
abbrev pub shown_address : Ipv4 → ℕ → Text
shown_address ip port = hex_digits 8 (number_of ip) (b':' ∷ hex_digits 4 port [])

-- A line shows a socket.
abbrev pub Shows : Socket → List Text → Type 0
Shows s fields =
    (9 < length fields)
    × (field_at 2 fields ≡ some (shown_address s.remote s.port))
    × (field_at 3 fields ≡ some (hex_digits 2 s.state []))
    × (field_at 9 fields ≡ some s.inode)

abbrev pub AllShown : List Socket → List (List Text) → Type 0
AllShown [] [] = Unit
AllShown (s ∷ sockets) (fields ∷ table) = IsSocket s × Shows s fields × AllShown sockets table
AllShown _ _ = ⊥

-- The connections to an address among the sockets of the process.
abbrev pub is_connection : Ipv4 → ℕ → List Text → Socket → Bool
is_connection ip port inodes s =
    number_of s.remote == number_of ip && s.port == port && s.state == 1 && has_inode s.inode inodes

abbrev pub connections : Ipv4 → ℕ → List Text → List Socket → ℕ
connections ip port inodes [] = 0
connections ip port inodes (s ∷ sockets) =
    let rest = connections ip port inodes sockets in
    if is_connection ip port inodes s then suc rest else rest

module _ (ip : Ipv4) (port : ℕ) (valid : IsIpv4 ip) (small : port < 65536) where
  address_shown : ip_hex ip ++ (b':' ∷ port_hex (pos port)) ≡ shown_address ip port
  address_shown =
      rw (port_hex-digits port small) (ip_hex-number ip (b':' ∷ hex_digits 4 port []) valid)

  same_address :
      (s : Socket)
      → IsSocket s
      → text_eq (shown_address s.remote s.port) (shown_address ip port)
        ≡ (number_of s.remote == number_of ip && s.port == port)
  same_address s (v, p, _) =
      elim (Bool-cases (text_eq (shown_address s.remote s.port) (shown_address ip port))) [
        | inl e ↦
            let (n, rest) =
              hex_digits-injective 8 (number_of s.remote) (number_of ip)
                (b':' ∷ hex_digits 4 s.port []) (b':' ∷ hex_digits 4 port []) (omega arith)
                (omega arith)
                ((text_eq_iff (shown_address s.remote s.port) (shown_address ip port)).0 e) in
            let ports : hex_digits 4 s.port [] ≡ hex_digits 4 port [] = ground (arith, rest) in
            let (m, _) =
              hex_digits-injective 4 s.port port [] [] (omega arith) (omega arith) ports in
            rw e (ground (arith, n, m))
        | inr e ↦ elim (Bool-cases (number_of s.remote == number_of ip && s.port == port)) [
          | inr f ↦ e ∙ sym f
          | inl f ↦
              let n : number_of s.remote ≡ number_of ip = ground (arith, f) in
              let m : s.port ≡ port = ground (arith, f) in
              let same : shown_address s.remote s.port ≡ shown_address ip port =
                ap (λ k. hex_digits 8 k (b':' ∷ hex_digits 4 s.port [])) n
                ∙ ap (λ k. hex_digits 8 (number_of ip) (b':' ∷ hex_digits 4 k [])) m in
              absurd (
                ground (
                  arith,
                  e,
                  (text_eq_iff (shown_address s.remote s.port) (shown_address ip port)).1 same,
                ))
        ]
      ]

same_state : (state : ℕ) → state < 256 → text_eq (hex_digits 2 state []) (text "01") ≡ (state == 1)
same_state state h = elim (Bool-cases (text_eq (hex_digits 2 state []) (text "01"))) [
  | inl e ↦
      let established : hex_digits 2 1 [] ≡ text "01" = unfold hex_digits in refl in
      let (one, _) =
        hex_digits-injective 2 state 1 [] [] (omega arith) (omega arith)
          ((text_eq_iff (hex_digits 2 state []) (text "01")).0 e ∙ sym established) in
      rw e (ground (arith, one))
  | inr e ↦ elim (Bool-cases (state == 1)) [
    | inr f ↦ e ∙ sym f
    | inl f ↦
        let one : state ≡ 1 = ground (arith, f) in
        let same : hex_digits 2 state [] ≡ text "01" =
          ap (λ k. hex_digits 2 k []) one ∙ unfold hex_digits in refl in
        absurd (ground (arith, e, (text_eq_iff (hex_digits 2 state []) (text "01")).1 same))
  ]
]

-- The line above those of the sockets has another word in the place of the state.
abbrev pub IsHeader : List Text → Type 0
IsHeader fields =
    (9 < length fields)
    × (x : Text) × (y : Text) × (field_at 2 fields ≡ some x)
    × (field_at 3 fields ≡ some (text "st"))
    × (field_at 9 fields ≡ some y)

module _ (address : Text) (inodes : List Text) where
  counted_fields :
      (fields : List Text) (x s y : Text)
      → 9 < length fields
      → field_at 2 fields ≡ some x
      → field_at 3 fields ≡ some s
      → field_at 9 fields ≡ some y
      → count_line address inodes fields ≡ some (is_counted address inodes x s y)
  unfolding count_line
  counted_fields fields x s y long e2 e3 e9 =
      let enough : ltb (length fields) 9 ≡ false = ground (arith, long) in
      rw (enough, e2, e3, e9) refl

  header_skipped :
      (fields : List Text) → IsHeader fields → count_line address inodes fields ≡ some false
  header_skipped fields (long, x, y, e2, e3, e9) =
      counted_fields fields x (text "st") y long e2 e3 e9 ∙ ap some (unfold text_eq in ground arith)

module _ (ip : Ipv4) (port : ℕ) (valid : IsIpv4 ip) (small : port < 65536)
    (inodes : List Text) where
  socket_counted :
      (s : Socket) (fields : List Text)
      → IsSocket s
      → Shows s fields
      → count_line (shown_address ip port) inodes fields ≡ some (is_connection ip port inodes s)
  socket_counted s fields (v, p, t) (long, e2, e3, e9) =
      counted_fields (shown_address ip port) inodes fields (shown_address s.remote s.port)
        (hex_digits 2 s.state []) s.inode long e2 e3 e9
      ∙ ap some
          (rw (same_address ip port valid small s (v, p, t), same_state s.state t) (ground arith))

  sockets_counted :
      (sockets : List Socket) (table : List (List Text))
      → AllShown sockets table
      → count_lines (shown_address ip port) inodes table ≡ some (connections ip port inodes sockets)
  unfolding count_lines
  sockets_counted [] [] h = refl
  sockets_counted [] (fields ∷ table) h = absurd h
  sockets_counted (s ∷ sockets) [] h = absurd h
  sockets_counted (s ∷ sockets) (fields ∷ table) (v, p, h) =
      rw (socket_counted s fields v p, sockets_counted sockets table h)
        (elim (Bool-cases (is_connection ip port inodes s)) [
          | inl e ↦ rw e refl
          | inr e ↦ rw e refl
        ])

  lines_counted :
      (header : List Text) (sockets : List Socket) (table : List (List Text))
      → IsHeader header
      → AllShown sockets table
      → count_lines (shown_address ip port) inodes (header ∷ table)
        ≡ some (connections ip port inodes sockets)
  unfolding count_lines
  lines_counted header sockets table h t =
      let address = shown_address ip port in
      ap (λ x. add_line x (count_lines address inodes table))
        (header_skipped address inodes header h)
      ∙ ap (add_line (some false)) (sockets_counted sockets table t)

-- If the links in `fd` are those of the process's files, and the lines of `net/tcp` are a header and then
-- show the host's sockets one by one, in the kernel's hexadecimal form, then the connection is found
-- established exactly if so many sockets as wanted, no fewer and no more, are established, connected to the
-- address and the port, and the process's own; and the code does not panic.
pub is_connection_established-counts :
    (ip : Ipv4) (port : ℕ) (fds : List Fd) (header : List Text) (sockets : List Socket)
    (table : List (List Text)) (num_sockets : ℕ)
    → IsIpv4 ip
    → port < 65536
    → All IsFd fds
    → IsHeader header
    → AllShown sockets table
    → is_connection_established
        (some (pos port))
        (some ip)
        (some (map link_of fds))
        (some (header ∷ table))
        num_sockets
      ≡ some (num_sockets == connections ip port (owned fds) sockets)
unfolding is_connection_established
is_connection_established-counts ip port fds header sockets table num_sockets valid small f h t =
    let address = shown_address ip port in
    let lines = header ∷ table in
    ap (λ a. compare_count num_sockets (count_lines a (inodes_of (map link_of fds)) lines))
      (address_shown ip port valid small)
    ∙ ap (λ i. compare_count num_sockets (count_lines address i lines)) (inodes_of-owned fds f)
    ∙ ap (compare_count num_sockets)
        (lines_counted ip port valid small (owned fds) header sockets table h t)
