-- ===== src/Gather/Names.antt =====
-- The names in the list of `getAppListFromEachNode`.
use ucl_tools.Base.{
  ℕ, ◌+◌, ◌≡◌, refl, sym, ap, ◌∙◌, inl, inr, Bool, true, not, ◌&&◌, List, [], ◌∷◌, ◌++◌, arith,
  ◌==◌, if◌then◌else◌, Bool-cases, Text, text_eq, text_eq_iff, join,
}
use ucl_tools.Gather.{split_comma, has_name, drop_seen, unique_names}

-- How often the name is in the list.
abbrev pub count_name : Text → List Text → ℕ
count_name k [] = 0
count_name k (p ∷ ps) = (if text_eq p k then 1 else 0) + count_name k ps

drop_seen-count :
    (k : Text) (seen ps : List Text)
    → count_name k (drop_seen seen ps)
      ≡ (if has_name k seen then 0 else if has_name k ps then 1 else 0)
unfolding drop_seen has_name
drop_seen-count k seen [] = ground arith
drop_seen-count k seen (p ∷ ps) =
    ground (arith, drop_seen-count k seen ps, drop_seen-count k (p ∷ seen) ps, text_eq_iff p k)

abbrev pub no_comma : Text → Bool
no_comma [] = true
no_comma (c ∷ s) = not (c == b',') && no_comma s

abbrev pub all_no_comma : List Text → Bool
all_no_comma [] = true
all_no_comma (w ∷ ws) = no_comma w && all_no_comma ws

-- The pieces: there is a first one, and none has a comma.
split_comma-pieces :
    (s : Text)
    → (w : Text) × (ws : List Text) × (split_comma s ≡ w ∷ ws) × (all_no_comma (w ∷ ws) ≡ true)
unfolding split_comma
split_comma-pieces [] = ([], [], refl, refl)
split_comma-pieces (c ∷ s) =
    let (w, ws, e, h) = split_comma-pieces s in
    elim (Bool-cases (c == b',')) [
      | inl comma ↦ ([], w ∷ ws, rw (comma, e) refl, h)
      | inr other ↦ (c ∷ w, ws, rw (other, e) refl, ground (arith, other, h))
    ]

drop_seen-no_comma :
    (seen ps : List Text) → all_no_comma ps ≡ true → all_no_comma (drop_seen seen ps) ≡ true
unfolding drop_seen
drop_seen-no_comma seen [] h = refl
drop_seen-no_comma seen (p ∷ ps) h =
    ground (arith, drop_seen-no_comma seen ps, drop_seen-no_comma (p ∷ seen) ps)

split_comma-last : (w : Text) → no_comma w ≡ true → split_comma w ≡ w ∷ []
unfolding split_comma
split_comma-last [] h = refl
split_comma-last (c ∷ w) h = ground (arith, split_comma-last w)

split_comma-piece :
    (w s : Text) → no_comma w ≡ true → split_comma (w ++ (b',' ∷ s)) ≡ w ∷ split_comma s
unfolding split_comma
split_comma-piece [] s h = refl
split_comma-piece (c ∷ w) s h = ground (arith, split_comma-piece w s)

pub split_comma-join :
    (w : Text) (ws : List Text)
    → all_no_comma (w ∷ ws) ≡ true
    → split_comma (join (b',' ∷ []) (w ∷ ws)) ≡ w ∷ ws
unfolding join
split_comma-join w [] h = split_comma-last w (ground arith)
split_comma-join w (v ∷ ws) h =
    split_comma-piece w (join (b',' ∷ []) (v ∷ ws)) (ground arith)
    ∙ ap (λ rest. w ∷ rest) (split_comma-join v ws (ground arith))

-- Taken apart at its commas, the list without duplicates has each name of the list exactly once, and no
-- other name.
pub unique_names-count :
    (k app_list : Text)
    → count_name k (split_comma (unique_names app_list))
      ≡ (if has_name k (split_comma app_list) then 1 else 0)
unfolding unique_names
unique_names-count k [] = unfold split_comma has_name in ground arith
unique_names-count k (c ∷ s) =
    let (w, ws, e, h) = split_comma-pieces (c ∷ s) in
    let full : unique_names (c ∷ s) ≡ join (b',' ∷ []) (drop_seen [] (split_comma (c ∷ s))) =
      ground arith in
    ap (λ l. count_name k (split_comma l)) full
    ∙ ap (λ ps. count_name k (split_comma (join (b',' ∷ []) (drop_seen [] ps)))) e
    ∙ ap (count_name k) (
        unfold drop_seen in
        split_comma-join w (drop_seen (w ∷ []) ws) (drop_seen-no_comma [] (w ∷ ws) h))
    ∙ unfold drop_seen in
      drop_seen-count k [] (w ∷ ws)
      ∙ unfold has_name in ap (λ ps. if has_name k ps then 1 else 0) (sym e)
