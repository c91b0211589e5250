-- ===== src/Screen/Address.antt =====
-- The ids, names and addresses of the nodes.
use ucl_tools.Base.{
  ◌≡◌, refl, ◌∙◌, ◌≢◌, inl, inr, none, some, List, [], ◌∷◌, arith, Bool-cases, Option-cases, Text,
  text_eq, text_eq_iff, ℤ, int_eq_iff, int_eq_refl, All,
}
use ucl_tools.Screen.{
  Node, ◌>>=◌, get_node_id_by_host_name, get_ip_addr_by_candidates, get_node_id_and_ip_addr,
}

-- The name and the id of each row are its own.
abbrev pub Distinct : List Node → Type 0
Distinct [] = Unit
Distinct (r ∷ rows) =
    All (λ q. (q.host_name ≢ r.host_name) × (q.node_id ≢ r.node_id)) rows × Distinct rows

absent :
    (ip_addrs : List Text) (node_id : ℤ) (rows : List Node)
    → All (λ q. q.node_id ≢ node_id) rows
    → get_ip_addr_by_candidates ip_addrs node_id rows ≡ none
unfolding get_ip_addr_by_candidates
absent ip_addrs node_id [] h = refl
absent ip_addrs node_id (r ∷ rows) h =
    ground (arith, absent ip_addrs node_id rows h.1, int_eq_iff node_id r.node_id, h.0)

pub absent_host :
    (ip_addrs : List Text) (hostname : Text) (rows : List Node)
    → All (λ q. q.host_name ≢ hostname) rows
    → get_node_id_and_ip_addr ip_addrs hostname rows ≡ none
unfolding get_node_id_and_ip_addr
absent_host ip_addrs hostname [] h = refl
absent_host ip_addrs hostname (r ∷ rows) h =
    ground (arith, absent_host ip_addrs hostname rows h.1, text_eq_iff hostname r.host_name, h.0)

found_ne :
    (hostname : Text) (node_id other : ℤ) (rows : List Node)
    → All (λ q. q.node_id ≢ other) rows
    → get_node_id_by_host_name hostname rows ≡ some node_id
    → node_id ≢ other
unfolding get_node_id_by_host_name
found_ne hostname node_id other [] h e = cc
found_ne hostname node_id other (r ∷ rows) h e =
    ground (arith, found_ne hostname node_id other rows h.1, h.0)

pub All-weaken :
    (P Q : Node → Type 0) → ((n : Node) → P n → Q n) → (rows : List Node) → All P rows → All Q rows
All-weaken P Q f [] h = tt
All-weaken P Q f (r ∷ rows) h = (f r h.0, All-weaken P Q f rows h.1)

-- Where every row has a name and an id of its own, finding the id and the address of a host together,
-- as the node does for the address that it listens at, gives what finding first the id by the name and
-- then the address by the id gives, as a client does.
pub get_node_id_and_ip_addr-two_steps :
    (ip_addrs : List Text) (hostname : Text) (rows : List Node)
    → Distinct rows
    → get_node_id_and_ip_addr ip_addrs hostname rows ≡ (
        get_node_id_by_host_name hostname rows >>= λ node_id.
        get_ip_addr_by_candidates ip_addrs node_id rows >>= λ ip. some (node_id, ip))
unfolding get_node_id_and_ip_addr get_node_id_by_host_name get_ip_addr_by_candidates
get_node_id_and_ip_addr-two_steps ip_addrs hostname [] d = refl
get_node_id_and_ip_addr-two_steps ip_addrs hostname (r ∷ rows) d =
    elim (Bool-cases (text_eq hostname r.host_name)) [
      | inl same ↦
          let hosts =
            All-weaken _ (λ q. q.host_name ≢ hostname)
              (λ q p e. p.0 (e ∙ (text_eq_iff hostname r.host_name).0 same)) rows d.0 in
          let ids = All-weaken _ (λ q. q.node_id ≢ r.node_id) (λ q p. p.1) rows d.0 in
          ground (
            arith,
            absent_host ip_addrs hostname rows hosts,
            absent ip_addrs r.node_id rows ids,
            int_eq_refl r.node_id,
            same,
          )
      | inr other ↦ elim (Option-cases (get_node_id_by_host_name hostname rows)) [
        | inl none_found ↦
            ground (arith, get_node_id_and_ip_addr-two_steps ip_addrs hostname rows d.1)
        | inr (node_id, e) ↦
            let ne =
              found_ne hostname node_id r.node_id rows
                (All-weaken _ (λ q. q.node_id ≢ r.node_id) (λ q p. p.1) rows d.0) e in
            ground (
              arith,
              get_node_id_and_ip_addr-two_steps ip_addrs hostname rows d.1,
              int_eq_iff node_id r.node_id,
            )
      ]
    ]
