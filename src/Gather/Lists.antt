-- ===== src/Gather/Lists.antt =====
-- The list that `getAppListFromEachNode` makes of the lists of the nodes.
use ucl_tools.Base.{
  ℕ, ◌≡◌, refl, sym, ap, ◌∙◌, Bool, true, false, ◌&&◌, Option, none, some, List, [], ◌∷◌, ◌++◌,
  append-nil, append_assoc, arith, ltb, if◌then◌else◌, Text, text_eq, join, length, concat,
}
use ucl_tools.Gather.{
  on_channel, receive_lists, get_app_list_from_each_node, split_comma, has_name, unique_names,
}
use ucl_tools.Gather.Names.{
  count_name, no_comma, all_no_comma, split_comma-join, unique_names-count,
}

-- The answer of a node with these applications.
abbrev pub listed : List Text → Option Text
listed [] = none
listed (h ∷ hs) = some (join (b',' ∷ []) (h ∷ hs))

abbrev pub answers_of : List (List Text) → List (Option (Option Text))
answers_of [] = []
answers_of (hits ∷ more) = some (listed hits) ∷ answers_of more

-- The names of directories: not empty, and without a comma.
abbrev pub is_name : Text → Bool
is_name [] = false
is_name (c ∷ s) = no_comma (c ∷ s)

abbrev pub all_names : List Text → Bool
all_names [] = true
all_names (w ∷ ws) = is_name w && all_names ws

join-more :
    (w : Text) (ws : List Text) (h : Text) (hs : List Text)
    → (join (b',' ∷ []) (w ∷ ws) ++ b',' ∷ []) ++ join (b',' ∷ []) (h ∷ hs)
      ≡ join (b',' ∷ []) ((w ∷ ws) ++ (h ∷ hs))
unfolding join
join-more w [] h hs = append_assoc w (b',' ∷ []) (join (b',' ∷ []) (h ∷ hs))
join-more w (v ∷ ws) h hs =
    let rest = join (b',' ∷ []) (v ∷ ws) in
    let later = join (b',' ∷ []) (h ∷ hs) in
    ap (λ x. x ++ later) (append_assoc w (b',' ∷ rest) (b',' ∷ []))
    ∙ append_assoc w ((b',' ∷ rest) ++ b',' ∷ []) later
    ∙ ap (λ x. w ++ (b',' ∷ x)) (join-more v ws h hs)

join_longer :
    (c : ℕ) (w : Text) (ws : List Text) → ltb 0 (length (join (b',' ∷ []) ((c ∷ w) ∷ ws))) ≡ true
unfolding join
join_longer c w [] = ground arith
join_longer c w (v ∷ ws) = ground arith

-- One more list behind the names so far.
add_list :
    (names : List Text) (h : Text) (hs : List Text)
    → all_names names ≡ true
    → (if ltb 0 (length (join (b',' ∷ []) names))
          then join (b',' ∷ []) names ++ b',' ∷ []
          else join (b',' ∷ []) names)
        ++ join (b',' ∷ []) (h ∷ hs)
      ≡ join (b',' ∷ []) (names ++ (h ∷ hs))
add_list [] h hs e = unfold join in refl
add_list ([] ∷ names) h hs e = cc
add_list ((c ∷ w) ∷ names) h hs e = rw (join_longer c w names) (join-more (c ∷ w) names h hs)

all_names-append :
    (a b : List Text) → all_names a ≡ true → all_names b ≡ true → all_names (a ++ b) ≡ true
all_names-append [] b h k = k
all_names-append (w ∷ a) b h k = ground (arith, all_names-append a b)

all_names-parts :
    (a b : List Text) → all_names (a ++ b) ≡ true → (all_names a ≡ true) × (all_names b ≡ true)
all_names-parts [] b h = (refl, h)
all_names-parts (w ∷ a) b h =
    let (first, rest) = all_names-parts a b (ground (arith, h)) in (ground (arith, h), rest)

receive_lists-join :
    (lists : List (List Text)) (names : List Text)
    → all_names names ≡ true
    → all_names (concat lists) ≡ true
    → receive_lists
        (length (answers_of lists))
        (on_channel (answers_of lists))
        (join (b',' ∷ []) names)
      ≡ some (join (b',' ∷ []) (names ++ concat lists))
unfolding receive_lists on_channel
receive_lists-join [] names h k = ap (λ x. some (join (b',' ∷ []) x)) (sym (append-nil names))
receive_lists-join ([] ∷ lists) names h k = receive_lists-join lists names h k
receive_lists-join ((w ∷ ws) ∷ lists) names h k =
    let (here, later) = all_names-parts (w ∷ ws) (concat lists) k in
    ap (receive_lists (length (answers_of lists)) (on_channel (answers_of lists)))
      (add_list names w ws h)
    ∙ receive_lists-join lists (names ++ (w ∷ ws)) (all_names-append names (w ∷ ws) h here) later
    ∙ ap (λ x. some (join (b',' ∷ []) x)) (append_assoc names (w ∷ ws) (concat lists))

all_names-no_comma : (ws : List Text) → all_names ws ≡ true → all_no_comma ws ≡ true
all_names-no_comma [] h = refl
all_names-no_comma ([] ∷ ws) h = cc
all_names-no_comma ((c ∷ w) ∷ ws) h = ground (arith, all_names-no_comma ws)

has_name-join :
    (c : ℕ) (k : Text) (ws : List Text)
    → all_names ws ≡ true
    → has_name (c ∷ k) (split_comma (join (b',' ∷ []) ws)) ≡ has_name (c ∷ k) ws
has_name-join c k [] h = unfold join split_comma has_name text_eq in refl
has_name-join c k (w ∷ ws) h =
    ap (has_name (c ∷ k)) (split_comma-join w ws (all_names-no_comma (w ∷ ws) h))

lists_received :
    (lists : List (List Text))
    → all_names (concat lists) ≡ true
    → receive_lists (length (answers_of lists)) (on_channel (answers_of lists)) []
      ≡ some (join (b',' ∷ []) (concat lists))
lists_received lists h =
    let none_yet : [] ≡ join (b',' ∷ []) [] = unfold join in refl in
    ap (receive_lists (length (answers_of lists)) (on_channel (answers_of lists))) none_yet
    ∙ receive_lists-join lists [] refl h

-- If every node answers, and the names are not empty and have no comma, the list that the manager makes has,
-- taken apart at its commas, each name of a node exactly once, and no other one.
pub get_app_list_from_each_node-count :
    (c : ℕ) (k : Text) (lists : List (List Text))
    → all_names (concat lists) ≡ true
    → (l : Text) × (get_app_list_from_each_node (answers_of lists) ≡ some l)
      × (count_name (c ∷ k) (split_comma l) ≡ (if has_name (c ∷ k) (concat lists) then 1 else 0))
unfolding get_app_list_from_each_node
get_app_list_from_each_node-count c k lists h =
    let all = join (b',' ∷ []) (concat lists) in
    (
      unique_names all,
      rw (lists_received lists h, get_app_list_from_each_node) refl,
      unique_names-count (c ∷ k) all
          ∙ ap (λ b. if b then 1 else 0) (has_name-join c k (concat lists) h),
    )
