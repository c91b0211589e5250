-- ===== src/Startup/Meets.antt =====
-- The manager looks for a node where the node listens.
use ucl_tools.Base.{
  ◌≡◌, refl, sym, ap, ◌∙◌, ◌≢◌, ◌⊎◌, inl, inr, Bool, true, ◌&&◌, Option, none, some, List, [], ◌∷◌,
  ◌++◌, arith, Bool-cases, Option-cases, text, text_eq, text_eq_iff, Text, All, ℤ, pos,
}
use ucl_tools.Settings.{Interface, get_ipv4_addrs_of_all_interfaces}
use ucl_tools.Flags.{parsed, parse_flags, value_of}
use ucl_tools.Screen.{
  VScrnDef, Node, FrameworkNode, UclNode, vscrndef_file, is_candidate, get_node_id_and_ip_addr,
  get_node_port, get_node_addr, addr_of, get_framework_node, read_alias_ip, alias,
}
use ucl_tools.Route.Spec.{addr_of_node}
use ucl_tools.Screen.Address.{Distinct, absent_host, All-weaken}
use ucl_tools.Screen.Alias.{
  entry_of, framework_node_of-entry, last_row, resolved, read_alias_ip_lem,
}
use ucl_tools.Startup.{serves, serve_at, serve_for, start_up, read_at, main_flags, node_main}

-- One of the nodes has this address.
abbrev pub IsListed : Text → List UclNode → Type 0
IsListed addr [] = ⊥
IsListed addr (n ∷ nodes) = (addr ≡ addr_of n.ip n.port) ⊎ IsListed addr nodes

append-IsListed : (addr : Text) (a b : List UclNode) → IsListed addr b → IsListed addr (a ++ b)
append-IsListed addr [] b h = h
append-IsListed addr (n ∷ a) b h = inr (append-IsListed addr a b h)

entry_of-port :
    (r : Node) (rows : List FrameworkNode) (port : ℤ)
    → get_node_port r.node_id rows ≡ some port
    → entry_of rows r ≡ record { ip = r.ip; port = port; host_name = r.host_name } ∷ []
entry_of-port r rows port h = ap (λ o. entry_at o) h
  where
    entry_at : Option ℤ → List UclNode
    entry_at none = []
    entry_at (some p) = record { ip = r.ip; port = p; host_name = r.host_name } ∷ []

module _ (ip_addrs : List Text) (hostname : Text) (rows : List FrameworkNode) (port : ℤ) where
  found-IsListed :
      (nodes : List Node) (found : ℤ × Text)
      → get_node_id_and_ip_addr ip_addrs hostname nodes ≡ some found
      → get_node_port found.0 rows ≡ some port
      → IsListed (addr_of found.1 port) (get_framework_node rows nodes)
  unfolding get_node_id_and_ip_addr get_framework_node
  found-IsListed [] found e p = cc
  found-IsListed (r ∷ nodes) found e p =
      let more = get_framework_node rows nodes in
      elim (Bool-cases (text_eq hostname r.host_name && is_candidate r.ip ip_addrs)) [
        | inl c ↦
            let same : (r.node_id, r.ip) ≡ found = ground (arith, c, e) in
            let has_port : get_node_port r.node_id rows ≡ some port =
              ap (λ q. get_node_port q.0 rows) same ∙ p in
            rw (framework_node_of-entry r rows more, entry_of-port r rows port has_port, sym same)
              (inl refl)
        | inr c ↦
            let later : get_node_id_and_ip_addr ip_addrs hostname nodes ≡ some found =
              ground (arith, c, e) in
            rw (framework_node_of-entry r rows more) (
              append-IsListed (addr_of found.1 port) (entry_of rows r) more
                (found-IsListed nodes found later p))
      ]

  -- The row of a host name that is found is the last one.
  absent_row :
      (nodes : List Node) → All (λ q. q.host_name ≢ hostname) nodes → last_row hostname nodes ≡ none
  absent_row [] h = refl
  absent_row (r ∷ nodes) (h, hs) =
      rw (absent_row nodes hs) (elim (Bool-cases (text_eq r.host_name hostname)) [
        | inl e ↦ absurd (h ((text_eq_iff r.host_name hostname).0 e))
        | inr e ↦ rw e refl
      ])

  found_row :
      (nodes : List Node) (found : ℤ × Text)
      → Distinct nodes
      → get_node_id_and_ip_addr ip_addrs hostname nodes ≡ some found
      → (r : Node) × (last_row hostname nodes ≡ some r) × ((r.node_id, r.ip) ≡ found)
  unfolding get_node_id_and_ip_addr
  found_row [] found d e = absurd (ground (arith, e))
  found_row (r ∷ nodes) found (d, ds) e = elim (Bool-cases (text_eq hostname r.host_name)) [
    | inl h ↦
        let same : hostname ≡ r.host_name = (text_eq_iff hostname r.host_name).0 h in
        let others : All (λ q. q.host_name ≢ hostname) nodes =
          All-weaken _ _ (λ q p k. p.0 (k ∙ same)) nodes d in
        let back : text_eq r.host_name hostname ≡ true =
          (text_eq_iff r.host_name hostname).1 (sym same) in
        (
          r,
          rw (absent_row nodes others, back) refl,
          ground (arith, h, e, absent_host ip_addrs hostname nodes others),
        )
    | inr h ↦
        let later : get_node_id_and_ip_addr ip_addrs hostname nodes ≡ some found =
          ground (arith, h, e) in
        let (q, last, same) = found_row nodes found ds later in (q, rw last refl, same)
  ]

-- What `GetNodeAddr` goes through.
node_addr_through :
    (hostname : Text) (ifaces : Option (List Interface)) (v : VScrnDef) (addr : Text)
    → get_node_addr (some hostname) ifaces v ≡ some addr
    → (ip_addrs : List Text) × (found : ℤ × Text) × (port : ℤ) × (get_node_id_and_ip_addr ip_addrs
          hostname v.nodes
        ≡ some found)
      × (get_node_port found.0 v.framework_node ≡ some port)
      × (addr_of found.1 port ≡ addr)
unfolding get_node_addr
node_addr_through hostname ifaces v addr e =
    elim (Option-cases (get_ipv4_addrs_of_all_interfaces ifaces)) [
      | inl a ↦ absurd (ground (arith, a, e))
      | inr (ip_addrs, a) ↦
          elim (Option-cases (get_node_id_and_ip_addr ip_addrs hostname v.nodes)) [
            | inl b ↦ absurd (ground (arith, a, b, e))
            | inr (found, b) ↦ elim (Option-cases (get_node_port found.0 v.framework_node)) [
              | inl c ↦ absurd (ground (arith, a, b, c, e))
              | inr (port, c) ↦ (ip_addrs, found, port, b, c, ground (arith, a, b, c, e))
            ]
          ]
    ]

resolved_at :
    (rows : List FrameworkNode) (r : Node) (port : ℤ) (before : UclNode)
    → get_node_port r.node_id rows ≡ some port
    → resolved rows (some r) before ≡ record { ip = r.ip; port = port; host_name = [] }
resolved_at rows r port before h =
    ap (λ o. record { ip = r.ip; port = (elim o [ none ↦ pos 0 | some p ↦ p ]); host_name = [] }) h

module _ (hostname : Text) (ifaces : Option (List Interface)) (v : VScrnDef) (addr : Text) where
  node_addr-meets :
      Distinct v.nodes
      → get_node_addr (some hostname) ifaces v ≡ some addr
      → IsListed addr (get_framework_node v.framework_node v.nodes)
        × (addr_of_node (alias hostname (read_alias_ip v.framework_node v.nodes [])) ≡ addr)
  node_addr-meets d e =
      let (ip_addrs, found, port, b, c, at) = node_addr_through hostname ifaces v addr e in
      let (r, last, same) = found_row ip_addrs hostname v.framework_node port v.nodes found d b in
      let has_port : get_node_port r.node_id v.framework_node ≡ some port =
        ap (λ q. get_node_port q.0 v.framework_node) same ∙ c in
      let ip : r.ip ≡ found.1 = ap (λ q. q.1) same in
      (
        rw (sym at) (found-IsListed ip_addrs hostname v.framework_node port v.nodes found b c),
        ap addr_of_node (read_alias_ip_lem v.framework_node v.nodes hostname)
            ∙ rw
                (
                  last,
                  resolved_at v.framework_node r port
                      (record { ip = []; port = pos 0; host_name = [] }) has_port,
                  ip,
                )
                at,
      )

served-addr :
    (listens : Text → Bool) (o : Option Text) (addr : Text)
    → serve_at listens o ≡ serves addr
    → o ≡ some addr
served-addr listens none addr h = absurd (ground (arith, h))
served-addr listens (some a) addr h = elim (Bool-cases (listens a)) [
  | inl e ↦ ground (arith, e, h)
  | inr e ↦ absurd (ground (arith, e, h))
]

-- If a node serves at an address, by a definition of the virtual screen in which every row of the nodes has
-- a name and an id of its own, then by the same definition the manager asks a node at this address for
-- documents and lists, and a command for a launcher with the node's name is sent to it.
pub node_main-meets :
    (vsdpath : Option Text) (read_file : Text → Option Text) (unmarshal : Text → Option VScrnDef)
    (listens : Text → Bool) (hostname : Text) (ifaces : Option (List Interface))
    (args rest : List Text) (settings : List (Text × Text)) (v : VScrnDef) (addr : Text)
    → parse_flags main_flags args ≡ parsed settings rest
    → read_at vsdpath read_file unmarshal listens (value_of (text "f") vscrndef_file settings)
      ≡ some v
    → Distinct v.nodes
    → node_main vsdpath read_file unmarshal listens (some hostname) ifaces args ≡ serves addr
    → IsListed addr (get_framework_node v.framework_node v.nodes)
      × (addr_of_node (alias hostname (read_alias_ip v.framework_node v.nodes [])) ≡ addr)
node_main-meets vsdpath read_file unmarshal listens hostname ifaces args rest settings v addr p r d
      h =
    let read = read_at vsdpath read_file unmarshal listens in
    let address : VScrnDef → Option Text = get_node_addr (some hostname) ifaces in
    let started : node_main vsdpath read_file unmarshal listens (some hostname) ifaces args
        ≡ serve_at listens (address v) =
      unfold node_main in
      ap (start_up read address listens) p ∙ unfold start_up in ap (serve_for address listens) r in
    node_addr-meets hostname ifaces v addr d
      (served-addr listens (address v) addr (sym started ∙ h))
