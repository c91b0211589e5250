-- ===== src/Wire/Segments.antt =====
-- `ConnRead` over the segments of a connection.
use ucl_tools.Base.{
  ℕ, zero, suc, ◌+◌, ◌-◌, ◌≤◌, ◌<◌, ◌≡◌, refl, sym, ap, ◌≢◌, inl, inr, true, List, [], ◌∷◌, ◌++◌,
  append-nil, append_assoc, arith, leb, Bool-cases, Text, length, length-append, All, take, drop,
  concat,
}
use mathlib.Core.List.{head-eq_of_cons-eq, tail-eq_of_cons-eq}
use ucl_tools.Wire.{Result, ok, err, disconnected, conn_read}

-- No `Read` returns 0 bytes.
abbrev pub Flowing : List Text → Type 0
Flowing = All (λ s. s ≢ [])

-- The read gave `bytes`, and what is left of the connection carries `rest`.
abbrev pub Gives : Result (Text × List Text) → Text → Text → Type 0
Gives (ok r) bytes rest = (r.0 ≡ bytes) × (concat r.1 ≡ rest) × Flowing r.1
Gives (err _) bytes rest = ⊥

module _ {ℓ} {A : Type ℓ} where
  pub take-append : (xs ys : List A) → take (length xs) (xs ++ ys) ≡ xs
  take-append [] ys = refl
  take-append (x ∷ xs) ys = ap (◌∷◌ x) (take-append xs ys)

  pub drop-append : (xs ys : List A) → drop (length xs) (xs ++ ys) ≡ ys
  drop-append [] ys = refl
  drop-append (x ∷ xs) ys = drop-append xs ys

  -- Where one list is cut in two ways, the shorter head is a prefix of the longer.
  pub cut_of_le :
      (a b x y : List A)
      → a ++ b ≡ x ++ y
      → length a ≤ length x
      → (m : List A) × (x ≡ a ++ m) × (b ≡ m ++ y)
  cut_of_le [] b x y e h = (x, refl, e)
  cut_of_le (c ∷ a) b [] y e h = absurd (omega arith)
  cut_of_le (c ∷ a) b (d ∷ x) y e h =
      let (m, head, rest) = cut_of_le a b x y (tail-eq_of_cons-eq e) (omega arith) in
      (m, cc (head, head-eq_of_cons-eq e), rest)

-- The bytes of a read that a first segment `c ∷ s` does not fill.
read_on :
    (c b : ℕ) (s bytes m buf rest : Text) (segments : List Text)
    → b ≡ c
    → bytes ≡ s ++ m
    → Gives (conn_read segments (length m) (buf ++ (c ∷ s))) ((buf ++ (c ∷ s)) ++ m) rest
    → Gives
        (conn_read segments (length bytes - length s) (buf ++ (c ∷ s)))
        (buf ++ (b ∷ bytes))
        rest
read_on c b s bytes m buf rest segments eb em ih =
    rw (eb, em, length-append s m, left) (rw append_assoc at ih)
  where
    left : length s + length m - length s ≡ length m
    left = omega arith

-- The bytes of a read that ends within a segment `c ∷ s`.
read_within :
    (c b : ℕ) (s bytes m buf rest : Text) (segments : List Text)
    → b ≡ c
    → s ≡ bytes ++ m
    → rest ≡ m ++ concat segments
    → length bytes < length s
    → Flowing segments
    → Gives
        (ok (buf ++ (c ∷ take (length bytes) s), drop (length bytes) s ∷ segments))
        (buf ++ (b ∷ bytes))
        rest
read_within c b s bytes m buf rest segments eb es er lt f =
    rw (es, take-append bytes m, drop-append bytes m, eb) (refl, sym er, (ne, f))
  where
    ne : m ≢ []
    ne = λ e. absurd (omega (arith, ap length es, length-append bytes m, ap length e))

-- However the bytes are cut, the read of as many as `bytes` gives them and leaves the others.
pub conn_read-Gives :
    (segments : List Text) (bytes rest buf : Text)
    → Flowing segments
    → concat segments ≡ bytes ++ rest
    → Gives (conn_read segments (length bytes) buf) (buf ++ bytes) rest
unfolding conn_read
conn_read-Gives segments [] rest buf f e = (sym (append-nil buf), e, f)
conn_read-Gives [] (b ∷ bytes) rest buf f e = cc
conn_read-Gives ([] ∷ segments) (b ∷ bytes) rest buf f e = absurd (f.0 refl)
conn_read-Gives ((c ∷ s) ∷ segments) (b ∷ bytes) rest buf f e =
    elim (Bool-cases (leb (length s) (length bytes))) [
      | inl fits ↦
          let (m, cut, later) =
            cut_of_le s (concat segments) bytes rest (tail-eq_of_cons-eq e) (ground arith) in
          rw fits (
            read_on c b s bytes m buf rest segments (sym (head-eq_of_cons-eq e)) cut
              (conn_read-Gives segments m rest (buf ++ (c ∷ s)) f.1 later))
      | inr more ↦
          let (m, cut, later) =
            cut_of_le bytes rest s (concat segments) (sym (tail-eq_of_cons-eq e)) (ground arith) in
          rw more (
            read_within c b s bytes m buf rest segments (sym (head-eq_of_cons-eq e)) cut later
              (ground arith) f.1)
    ]

-- A connection that carries fewer bytes than wanted ends the read with an error.
pub conn_read_short :
    (segments : List Text) (need : ℕ) (buf : Text)
    → Flowing segments
    → length (concat segments) < need
    → conn_read segments need buf ≡ err disconnected
unfolding conn_read
conn_read_short segments zero buf f h = absurd (omega arith)
conn_read_short [] (suc need) buf f h = refl
conn_read_short ([] ∷ segments) (suc need) buf f h = absurd (f.0 refl)
conn_read_short ((c ∷ s) ∷ segments) (suc need) buf f h =
    let size = length-append s (concat segments) in
    let fits : leb (length s) need ≡ true = ground (arith, size) in
    rw fits (conn_read_short segments (need - length s) (buf ++ (c ∷ s)) f.1 (omega (arith, size)))
