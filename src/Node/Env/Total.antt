-- ===== src/Node/Env/Total.antt =====
-- `convertEnvVars` and the index into the parts of a variable.
use ucl_tools.Base.{
  ℕ, ◌≡◌, refl, inl, inr, Bool, true, false, ◌&&◌, ◌||◌, some, List, [], ◌∷◌, ◌++◌, arith, ◌==◌,
  Bool-cases, Text, length, All,
}
use ucl_tools.Node.Env.{
  Scan, initial, toggle, place, scan, finish, split_eq, unquote, unquote_all, convert_env_vars,
}

-- The text has an '='.
abbrev pub has_eq : Text → Bool
has_eq [] = false
has_eq (c ∷ s) = c == b'=' || has_eq s

has_eq-append : (a b : Text) → has_eq (a ++ b) ≡ (has_eq a || has_eq b)
has_eq-append [] b = refl
has_eq-append (c ∷ a) b = ground (arith, has_eq-append a b)

pub split_eq-has_eq : (s : Text) → has_eq s ≡ true → (p : Text × Text) × (split_eq s ≡ some p)
unfolding split_eq
split_eq-has_eq [] h = absurd (ground arith)
split_eq-has_eq (c ∷ s) h = elim (Bool-cases (c == b'=')) [
  | inl here ↦ (([], s), rw here refl)
  | inr later ↦
      let (p, e) = split_eq-has_eq s (ground arith) in ((c ∷ p.0, p.1), rw (later, e) refl)
]

abbrev all_eq : List Text → Bool
all_eq [] = true
all_eq (v ∷ vs) = has_eq v && all_eq vs

all_eq-concat : (vs : List Text) (v : Text) → all_eq (vs ++ v ∷ []) ≡ (all_eq vs && has_eq v)
all_eq-concat [] v = ground arith
all_eq-concat (w ∷ vs) v = ground (arith, all_eq-concat vs v)

record Inv (s : Scan) : Type 0 where
  key : s.in_value ≡ true → has_eq s.env_key ≡ true
  segments : all_eq s.env_segments ≡ true

toggle-Inv : (s : Scan) (c : ℕ) → Inv s → Inv (toggle s c)
toggle-Inv s c i = ground arith

-- A key ends in the '=' that closed it.
key-has_eq : (current : Text) (c : ℕ) → (c == b'=') ≡ true → has_eq (current ++ c ∷ []) ≡ true
key-has_eq [] c h = rw h refl
key-has_eq (d ∷ current) c h = ground (arith, key-has_eq current c h)

segment-has_eq : (key value : Text) → has_eq key ≡ true → has_eq (key ++ value) ≡ true
segment-has_eq key value h = rw (has_eq-append key value, h) refl

place-Inv : (s : Scan) (c : ℕ) → Inv s → Inv (place s c)
unfolding place
place-Inv s c i = ground (
  arith,
  key-has_eq s.current_segment c,
  segment-has_eq s.env_key s.current_segment,
  all_eq-concat s.env_segments (s.env_key ++ s.current_segment),
)

scan-Inv : (env : Text) (s : Scan) → Inv s → Inv (scan s env)
unfolding scan
scan-Inv [] s i = i
scan-Inv (c ∷ env) s i =
    scan-Inv env (place (toggle s c) c) (place-Inv (toggle s c) c (toggle-Inv s c i))

finish-all_eq : (s : Scan) → Inv s → all_eq (finish s) ≡ true
unfolding finish
finish-all_eq s i = ground (
  arith,
  segment-has_eq s.env_key s.current_segment,
  all_eq-concat s.env_segments (s.env_key ++ s.current_segment),
)

quoted-has_eq : (key value : Text) → has_eq (key ++ (b'=' ∷ value)) ≡ true
quoted-has_eq [] value = refl
quoted-has_eq (c ∷ key) value = ground (arith, quoted-has_eq key value)

unquote_all-total :
    (segments : List Text)
    → all_eq segments ≡ true
    → (r : List Text) × (unquote_all segments ≡ some r)
      × (length r ≡ length segments)
      × All (λ v. has_eq v ≡ true) r
unfolding unquote_all
unquote_all-total [] h = ([], refl, refl, tt)
unquote_all-total (s ∷ segments) h =
    let (p, e) = split_eq-has_eq s (ground arith) in
    let (r, e', n, q) = unquote_all-total segments (ground arith) in
    (
      (p.0 ++ (b'=' ∷ unquote p.1)) ∷ r,
      rw (unquote_all, e, e') refl,
      omega arith,
      (quoted-has_eq p.0 (unquote p.1), q),
    )

-- Whatever the text, also with quotes that are not closed, the conversion returns a list, and each of
-- its variables has an '='.
pub convert_env_vars-total :
    (env : Text) → (r : List Text) × (convert_env_vars env ≡ some r) × All (λ v. has_eq v ≡ true) r
unfolding convert_env_vars
convert_env_vars-total [] = ([], refl, tt)
convert_env_vars-total (c ∷ env) =
    let last = scan initial (c ∷ env) in
    let i = scan-Inv (c ∷ env) initial (record { key = λ h. cc; segments = refl }) in
    let (r, e, n, q) = unquote_all-total (finish last) (finish-all_eq last i) in (r, e, q)
