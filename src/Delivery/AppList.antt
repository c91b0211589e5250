-- ===== src/Delivery/AppList.antt =====
-- The list of applications, from the directories of the nodes to the manager's answer.
pub mod Asked
mod Tests
use ucl_tools.Base.{
  ℕ, ◌≡◌, refl, ap, ◌∙◌, Bool, true, false, not, ◌&&◌, ◌||◌, Option, none, some, List, [], ◌∷◌,
  ◌++◌, arith, if◌then◌else◌, Text, text_eq, All, concat, ℤ,
}
use ucl_tools.Document.{Value, node, arr, Items, nil, cons, Fields, Run, ok, fail, panic, ◌>>=◌}
use ucl_tools.Document.Decode.{Json, marshal, marshal_items, into_items}
use ucl_tools.Settings.{cmd_get_executable_app_list}
use ucl_tools.Wire.{send_command}
use ucl_tools.Wire.Commands.{send_command_succeeds}
use ucl_tools.Node.Serve.Fetch.{fresh, IsAnswered}
use ucl_tools.Delivery.Transport.{value_at, value_at_lem, answered, answered_lem, Fits}
use ucl_tools.Screen.{UclNode}
use ucl_tools.Gather.{get_app_info_from_node, get_app_list_from_each_node, split_comma, has_name}
use ucl_tools.Gather.Names.{count_name}
use ucl_tools.Gather.Lists.{listed, answers_of, all_names, get_app_list_from_each_node-count}
use ucl_tools.Node.Apps.{Entry, validate_app_info, hit_dirs, get_executable_app_list}
use ucl_tools.Node.Decode.{set_node, zero_node, decode_nodes}
use ucl_tools.Node.Decode.Parts.{InRange}
use ucl_tools.Node.Decode.Encoded.{node_read}

-- `json.Marshal(cNodes)`.
abbrev pub nodes_items : List UclNode → Items
nodes_items [] = nil
nodes_items (n ∷ nodes) = cons (node n) (nodes_items nodes)

abbrev pub nodes_request : Json → List UclNode → Value
nodes_request json nodes = marshal json.print (arr (nodes_items nodes))

abbrev opt_nodes : Option Value → Option (List UclNode)
opt_nodes none = none
opt_nodes (some value) = decode_nodes value

-- The nodes that a node reads of the request that it gets on a connection.
unfoldable pub requested : Json → List UclNode → Option (List UclNode)
requested json c_nodes =
    opt_nodes (value_at json cmd_get_executable_app_list (nodes_request json c_nodes))

-- `getAppListFromEachNode` up to its loop, where every node can be reached: each node is sent the
-- connectable nodes, and has these directories.
unfoldable pub ask_nodes :
    Json → List UclNode → List (List Entry) → Run (List (Option (Option Text)))
unfolding get_app_info_from_node
ask_nodes json c_nodes [] = ok []
ask_nodes json c_nodes (dirs ∷ more) =
    let rest = ask_nodes json c_nodes more in
    let (conn, sent) =
      send_command (fresh 5) cmd_get_executable_app_list
        (json.write (nodes_request json c_nodes)) in
    get_executable_app_list (requested json c_nodes) (some dirs) >>= λ reply.
    rest >>= λ answers. ok (get_app_info_from_node true sent (answered reply) ∷ answers)

nodes_read :
    (print : ℤ → ℤ) (nodes : List UclNode)
    → All (λ (n : UclNode). InRange n.port) nodes
    → into_items set_node zero_node (marshal_items print (nodes_items nodes)) [] ≡ some nodes
nodes_read print [] h = refl
nodes_read print (n ∷ nodes) h = rw (node_read print n h.0, nodes_read print nodes h.1) refl

requested_lem :
    (json : Json) (nodes : List UclNode)
    → All (λ (n : UclNode). InRange n.port) nodes
    → Fits json (nodes_request json nodes)
    → requested json nodes ≡ some nodes
unfolding requested decode_nodes
requested_lem json nodes p f =
    let arrives =
      value_at_lem json cmd_get_executable_app_list (nodes_request json nodes) (omega arith)
        (omega arith) f in
    ap opt_nodes arrives ∙ nodes_read json.print nodes p

-- A directory with a document that the node accepts.
abbrev accepted : Run Bool → Bool
accepted (ok b) = b
accepted (fail w) = false
accepted panic = false

abbrev is_hit : List UclNode → Bool → Option Fields → Bool
is_hit nodes false app_json = false
is_hit nodes true none = false
is_hit nodes true (some m_json) = accepted (validate_app_info nodes m_json)

module _ (nodes : List UclNode) (k : Text) where
  -- Some directory of this name has a document that the node accepts.
  abbrev pub has_app : List Entry → Bool
  has_app [] = false
  has_app (e ∷ dirs) = (is_hit nodes e.is_dir e.app_json && text_eq e.name k) || has_app dirs

  abbrev pub some_has_app : List (List Entry) → Bool
  some_has_app [] = false
  some_has_app (dirs ∷ more) = has_app dirs || some_has_app more

  -- An entry whose document is judged by `v`, in front of the entries behind it.
  judged :
      (v : Run Bool) (name : Text) (rest : Run (List Text)) (hits : List Text) (later : Bool)
      → (v >>= λ hit. if hit then (do hs ← rest; ok (name ∷ hs)) else rest) ≡ ok hits
      → ((l : List Text) → rest ≡ ok l → has_name k l ≡ later)
      → has_name k hits ≡ ((accepted v && text_eq name k) || later)
  unfolding has_name
  judged (ok true) name (ok l) hits later h ih = ground (arith, ih l)
  judged (ok false) name rest hits later h ih = ih hits h
  judged (ok true) name (fail w) hits later h ih = cc
  judged (ok true) name panic hits later h ih = cc
  judged (fail w) name rest hits later h ih = cc
  judged panic name rest hits later h ih = cc

  entry_judged :
      (b : Bool) (o : Option Fields) (name : Text) (rest : Run (List Text)) (hits : List Text)
      (later : Bool)
      → (if not b then rest else elim o [
        | none ↦ rest
        | some m_json ↦ validate_app_info nodes m_json >>= λ hit.
            if hit then (do hs ← rest; ok (name ∷ hs)) else rest
      ])
        ≡ ok hits
      → ((l : List Text) → rest ≡ ok l → has_name k l ≡ later)
      → has_name k hits ≡ ((is_hit nodes b o && text_eq name k) || later)
  entry_judged false o name rest hits later h ih = ih hits h
  entry_judged true none name rest hits later h ih = ih hits h
  entry_judged true (some m_json) name rest hits later h ih =
      judged (validate_app_info nodes m_json) name rest hits later h ih

  hit_dirs-has_app :
      (dirs : List Entry) (hits : List Text)
      → hit_dirs nodes dirs ≡ ok hits
      → has_name k hits ≡ has_app dirs
  unfolding hit_dirs
  hit_dirs-has_app [] [] h = unfold has_name in refl
  hit_dirs-has_app [] (x ∷ hits) h = cc
  hit_dirs-has_app (e ∷ dirs) hits h =
      entry_judged e.is_dir e.app_json e.name (hit_dirs nodes dirs) hits (has_app dirs) h
        (hit_dirs-has_app dirs)

  has_name-append : (a b : List Text) → has_name k (a ++ b) ≡ (has_name k a || has_name k b)
  unfolding has_name
  has_name-append [] b = refl
  has_name-append (x ∷ a) b = ground (arith, has_name-append a b)

-- What the directories of the nodes hold that the nodes accept, without a panic.
abbrev pub Hits : List UclNode → List (List Entry) → List (List Text) → Type 0
Hits nodes [] [] = Unit
Hits nodes (dirs ∷ more) (hits ∷ lists) = (hit_dirs nodes dirs ≡ ok hits) × Hits nodes more lists
Hits nodes _ _ = ⊥

all-Hits :
    (nodes : List UclNode) (k : Text) (all : List (List Entry)) (lists : List (List Text))
    → Hits nodes all lists
    → has_name k (concat lists) ≡ some_has_app nodes k all
all-Hits nodes k [] [] h = unfold has_name in refl
all-Hits nodes k [] (x ∷ lists) h = absurd h
all-Hits nodes k (dirs ∷ more) [] h = absurd h
all-Hits nodes k (dirs ∷ more) (hits ∷ lists) h =
    has_name-append nodes k hits (concat lists)
    ∙ rw (hit_dirs-has_app nodes k dirs hits h.0, all-Hits nodes k more lists h.1) refl

reply_listed :
    (nodes : List UclNode) (dirs : List Entry) (hits : List Text)
    → hit_dirs nodes dirs ≡ ok hits
    → get_executable_app_list (some nodes) (some dirs) ≡ ok (listed hits)
unfolding get_executable_app_list
reply_listed nodes dirs [] h = rw h refl
reply_listed nodes dirs (x ∷ hits) h = rw h refl

-- The lists of the nodes are short enough to be read by the manager.
abbrev pub Answered : List (List Text) → Type 0
Answered lists = All (λ hits. IsAnswered 2 (listed hits)) lists

all_answer :
    (json : Json) (nodes : List UclNode) (all : List (List Entry)) (lists : List (List Text))
    → requested json nodes ≡ some nodes
    → (send_command (fresh 5) cmd_get_executable_app_list (json.write (nodes_request json nodes))).1
      ≡ true
    → Hits nodes all lists
    → Answered lists
    → ask_nodes json nodes all ≡ ok (answers_of lists)
unfolding ask_nodes
all_answer json nodes [] [] e s h a = refl
all_answer json nodes [] (x ∷ lists) e s h a = absurd h
all_answer json nodes (dirs ∷ more) [] e s h a = absurd h
all_answer json nodes (dirs ∷ more) (hits ∷ lists) e s h a =
    rw
      (
        e,
        s,
        reply_listed nodes dirs hits h.0,
        all_answer json nodes more lists e s h.1 a.1,
        answered_lem (listed hits) a.0,
      )
      refl

-- The list that is made of the answers of all nodes that are asked.
pub ask_nodes-count :
    (json : Json) (c : ℕ) (k : Text) (nodes : List UclNode) (all : List (List Entry))
    (lists : List (List Text))
    → All (λ (n : UclNode). InRange n.port) nodes
    → Fits json (nodes_request json nodes)
    → Hits nodes all lists
    → Answered lists
    → all_names (concat lists) ≡ true
    → (answers : List (Option (Option Text))) × (l : Text) × (ask_nodes json nodes all ≡ ok answers)
      × (get_app_list_from_each_node answers ≡ some l)
      × (count_name (c ∷ k) (split_comma l) ≡ (if some_has_app nodes (c ∷ k) all then 1 else 0))
ask_nodes-count json c k nodes all lists p f h a n =
    let (l, made, count) = get_app_list_from_each_node-count c k lists n in
    (
      answers_of lists,
      l,
      all_answer json nodes all lists (requested_lem json nodes p f)
          (send_command_succeeds (fresh 5) cmd_get_executable_app_list
            (json.write (nodes_request json nodes)) (omega arith) (omega arith) f.0)
          h a,
      made,
      count ∙ ap (λ b. if b then 1 else 0) (all-Hits nodes (c ∷ k) all lists h),
    )
