-- ===== src/Client/Dial.antt =====
-- From which address a client reaches the lifecycle manager.
use ucl_tools.Base.{
  ◌≡◌, refl, sym, inl, inr, Bool, true, false, not, ◌&&◌, ◌||◌, Option, none, some, List, [], ◌∷◌,
  ◌++◌, append_assoc, arith, if◌then◌else◌, Bool-cases, Text, text, text_eq, text_eq_refl, ℤ,
  int_eq, All,
}
use ucl_tools.Screen.{Node, VScrnDef, get_ip_addr_by_candidates, is_candidate}
use ucl_tools.Client.{own_ip, dial_lcm, Net, candidate_ips, is_loopback, filter_ips, try_dial}

-- The address parses, and dialling from it succeeds.
abbrev pub is_dialable : Net → Text → Bool
is_dialable net ip = elim (net.parse_ip ip) [ none ↦ false | some _ ↦ net.dial ip ]

abbrev pub parses : Net → Text → Bool
parses net ip = elim (net.parse_ip ip) [ none ↦ false | some _ ↦ true ]

-- The first address from which dialling succeeds, and whether some address parses.
abbrev pub first_dialable : Net → List Text → Option Text
first_dialable net [] = none
first_dialable net (ip ∷ ips) =
    let rest = first_dialable net ips in if is_dialable net ip then some ip else rest

abbrev pub some_parses : Net → List Text → Bool
some_parses net [] = false
some_parses net (ip ∷ ips) = parses net ip || some_parses net ips

try_dial-from :
    (net : Net) (ips : List Text) (dial_err : Bool)
    → try_dial net ips none dial_err ≡ (
      first_dialable net ips,
      elim (first_dialable net ips) [ none ↦ dial_err || some_parses net ips | some _ ↦ false ],
    )
unfolding try_dial
try_dial-from net [] dial_err = ground arith
try_dial-from net (ip ∷ ips) dial_err =
    ground (arith, try_dial-from net ips dial_err, try_dial-from net ips true)

-- The loop over the candidates ends with the first one from which dialling succeeds, and with an error
-- exactly when there is none but some candidate is an address; with no address at all it ends with
-- neither a connection nor an error.
pub try_dial_lem :
    (net : Net) (ips : List Text)
    → try_dial net ips none false ≡ (
      first_dialable net ips,
      elim (first_dialable net ips) [ none ↦ some_parses net ips | some _ ↦ false ],
    )
try_dial_lem net ips = try_dial-from net ips false

-- A test that holds of all candidates holds of the one that is dialled.
first_dialable-All :
    (net : Net) (test : Text → Bool) (ips : List Text) (ip : Text)
    → All (λ a. test a ≡ true) ips
    → first_dialable net ips ≡ some ip
    → (test ip ≡ true) × (is_dialable net ip ≡ true)
first_dialable-All net test [] ip h e = cc
first_dialable-All net test (a ∷ ips) ip (h, hs) e =
    let rest : first_dialable net ips ≡ some ip → (test ip ≡ true) × (is_dialable net ip ≡ true) =
      first_dialable-All net test ips ip hs in
    elim (Bool-cases (is_dialable net a)) [
      | inl d ↦ ground (arith, d, e, h)
      | inr d ↦ rest (ground (arith, d, e))
    ]

filter_ips-All :
    (net : Net) (test : Text → Bool) (ips : List Text)
    → All (λ a. test a ≡ true) ips
    → All (λ a. (test a && not (is_loopback net a)) ≡ true) (filter_ips net ips)
unfolding filter_ips
filter_ips-All net test [] h = tt
filter_ips-All net test (a ∷ ips) (h, hs) =
    let rest : All (λ x. (test x && not (is_loopback net x)) ≡ true) (filter_ips net ips) =
      filter_ips-All net test ips hs in
    elim (Bool-cases (is_loopback net a)) [
      | inl l ↦ rw l rest
      | inr l ↦ rw l (rw (h, l) refl, rest)
    ]

is_candidate-middle :
    (before after : List Text) (a : Text) → is_candidate a (before ++ a ∷ after) ≡ true
unfolding is_candidate
is_candidate-middle [] after a = ground (arith, text_eq_refl a)
is_candidate-middle (b ∷ before) after a = ground (arith, is_candidate-middle before after a)

is_candidate-All : (before ips : List Text) → All (λ a. is_candidate a (before ++ ips) ≡ true) ips
is_candidate-All before [] = tt
is_candidate-All before (a ∷ ips) = (
  is_candidate-middle before ips a,
  grow (append_assoc before (a ∷ []) ips) (is_candidate-All (before ++ a ∷ []) ips),
)
  where
    grow :
        {xs ys : List Text}
        → xs ≡ ys
        → All (λ x. is_candidate x xs ≡ true) ips
        → All (λ x. is_candidate x ys ≡ true) ips
    grow e h = rw (sym e) h

get_ip_addr_by_candidates-is_candidate :
    (ip_addrs : List Text) (node_id : ℤ) (rows : List Node) (ip : Text)
    → get_ip_addr_by_candidates ip_addrs node_id rows ≡ some ip
    → is_candidate ip ip_addrs ≡ true
unfolding get_ip_addr_by_candidates
get_ip_addr_by_candidates-is_candidate ip_addrs node_id [] ip e = cc
get_ip_addr_by_candidates-is_candidate ip_addrs node_id (r ∷ rows) ip e =
    elim (Bool-cases (int_eq node_id r.node_id && is_candidate r.ip ip_addrs)) [
      | inl h ↦ ground (arith, h, e)
      | inr h ↦
          get_ip_addr_by_candidates-is_candidate ip_addrs node_id rows ip (ground (arith, h, e))
    ]

own_ip-is_candidate :
    (ip_addrs : List Text) (ip : Option Text)
    → ((a : Text) → ip ≡ some a → is_candidate a ip_addrs ≡ true)
    → All (λ a. is_candidate a ip_addrs ≡ true) (own_ip ip_addrs ip)
unfolding own_ip
own_ip-is_candidate ip_addrs none h = is_candidate-All [] ip_addrs
own_ip-is_candidate ip_addrs (some ip) h = (h ip refl, tt)

candidate_ips-is_candidate :
    (v : VScrnDef) (ip_addrs : List Text) (node_id : Option ℤ)
    → All (λ a. is_candidate a ip_addrs ≡ true) (candidate_ips v ip_addrs node_id)
unfolding candidate_ips
candidate_ips-is_candidate v ip_addrs none = is_candidate-All [] ip_addrs
candidate_ips-is_candidate v ip_addrs (some node_id) =
    own_ip-is_candidate ip_addrs (get_ip_addr_by_candidates ip_addrs node_id v.nodes)
      (get_ip_addr_by_candidates-is_candidate ip_addrs node_id v.nodes)

-- Dialling a manager on another host ends, if it ends with a connection, with one from an address of
-- this host that parses, is no loopback address and can be dialled from.
pub dial_lcm-remote :
    (net : Net) (v : VScrnDef) (target_ip : Text) (ip_addrs : List Text) (node_id : Option ℤ)
    (ip : Text)
    → text_eq target_ip (text "127.0.0.1") ≡ false
    → dial_lcm net target_ip (candidate_ips v ip_addrs node_id) ≡ some (some ip)
    → (is_candidate ip ip_addrs ≡ true) × (is_loopback net ip ≡ false) × (is_dialable net ip ≡ true)
unfolding dial_lcm
dial_lcm-remote net v target_ip ip_addrs node_id ip h e =
    let candidates = candidate_ips v ip_addrs node_id in
    let good : All (λ a. (is_candidate a ip_addrs && not (is_loopback net a)) ≡ true)
        (filter_ips net candidates) =
      filter_ips-All net (λ a. is_candidate a ip_addrs) candidates
        (candidate_ips-is_candidate v ip_addrs node_id) in
    let first : first_dialable net (filter_ips net candidates) ≡ some ip =
      ground (arith, try_dial_lem net (filter_ips net candidates), h, e) in
    let found =
      first_dialable-All net (λ a. is_candidate a ip_addrs && not (is_loopback net a))
        (filter_ips net candidates) ip good first in
    (ground (arith, found.0), ground (arith, found.0), found.1)
