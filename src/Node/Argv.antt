-- ===== src/Node/Argv.antt =====
-- The arguments that `TimingWrapper` takes the command of a process apart into.
use ucl_tools.Base.{
  ℕ, ◌≡◌, refl, sym, ap, ◌∙◌, Bool, true, ◌&&◌, List, [], ◌∷◌, ◌++◌, append-nil, append_assoc,
  arith, ◌==◌, if◌then◌else◌, Text, no_blank,
}

abbrev pub put_head : ℕ → List Text → List Text
put_head c [] = (c ∷ []) ∷ []
put_head c (w ∷ ws) = (c ∷ w) ∷ ws

-- `strings.Split(s, " ")`.
unfoldable pub split_blank : Text → List Text
split_blank [] = [] ∷ []
split_blank (c ∷ s) = let rest = split_blank s in if c == b' ' then [] ∷ rest else put_head c rest

-- Each argument with a blank in front of it.
abbrev pub spaced : List Text → Text
spaced [] = []
spaced (a ∷ args) = (b' ' ∷ a) ++ spaced args

abbrev pub all_no_blank : List Text → Bool
all_no_blank [] = true
all_no_blank (a ∷ args) = no_blank a && all_no_blank args

pub spaced-append : (a b : List Text) → spaced (a ++ b) ≡ spaced a ++ spaced b
spaced-append [] b = refl
spaced-append (x ∷ a) b =
    ap (λ s. (b' ' ∷ x) ++ s) (spaced-append a b)
    ∙ sym (append_assoc (b' ' ∷ x) (spaced a) (spaced b))

split_blank-word :
    (w s : Text) → no_blank w ≡ true → split_blank (w ++ (b' ' ∷ s)) ≡ w ∷ split_blank s
unfolding split_blank
split_blank-word [] s h = refl
split_blank-word (c ∷ w) s h = ground (arith, split_blank-word w s)

-- A command and arguments without blanks are taken apart again, and what stands behind them is split.
pub split_blank-spaced :
    (comm : Text) (args : List Text) (rest : Text)
    → (no_blank comm && all_no_blank args) ≡ true
    → split_blank (comm ++ (spaced args ++ (b' ' ∷ rest))) ≡ comm ∷ (args ++ split_blank rest)
split_blank-spaced comm [] rest h = split_blank-word comm rest (ground arith)
split_blank-spaced comm (a ∷ args) rest h =
    ap (λ s. split_blank (comm ++ (b' ' ∷ s))) (append_assoc a (spaced args) (b' ' ∷ rest))
    ∙ split_blank-word comm (a ++ (spaced args ++ (b' ' ∷ rest))) (ground arith)
    ∙ ap (λ ws. comm ∷ ws) (split_blank-spaced a args rest (ground arith))

split_blank-no_blank : (w : Text) → no_blank w ≡ true → split_blank w ≡ w ∷ []
unfolding split_blank
split_blank-no_blank [] h = refl
split_blank-no_blank (c ∷ w) h = ground (arith, split_blank-no_blank w)

pub split_blank-args :
    (comm : Text) (args : List Text)
    → (no_blank comm && all_no_blank args) ≡ true
    → split_blank (comm ++ spaced args) ≡ comm ∷ args
split_blank-args comm [] h =
    ap split_blank (append-nil comm) ∙ split_blank-no_blank comm (ground arith)
split_blank-args comm (a ∷ args) h =
    split_blank-word comm (a ++ spaced args) (ground arith)
    ∙ ap (λ ws. comm ∷ ws) (split_blank-args a args (ground arith))
