-- ===== src/Route/Receivers.antt =====
-- `removeDisconnectNode` and the receivers of a document.
use ucl_tools.Base.{
  ◌≡◌, refl, sym, ap, ◌∙◌, ◌≢◌, ◌↔◌, ◌⊎◌, inl, inr, true, false, List, arith, if◌then◌else◌,
  Bool-cases, text,
}
use ucl_tools.Document.{
  Run, Value, null, flag, number, fraction, str, arr, obj, node, Items, nil, cons, Fields, get, ok,
  fail, panic, as_node, ◌>>=◌,
}
use ucl_tools.Screen.{UclNode}
use ucl_tools.Route.{is_exist_node}
use ucl_tools.Route.Remove.{keep_receivers}

-- A value is a node, or the type assertion panics.
as_node-cases : (v : Value) → ((n : UclNode) × (v ≡ node n)) ⊎ (as_node v ≡ panic)
as_node-cases (node n) = inl (n, refl)
as_node-cases null = inr refl
as_node-cases (flag b) = inr refl
as_node-cases (number z) = inr refl
as_node-cases (fraction z) = inr refl
as_node-cases (str s) = inr refl
as_node-cases (arr xs) = inr refl
as_node-cases (obj f) = inr refl

-- A run ends well, or no bind of it does.
pub Run-cases {ℓ} :
    {A : Type ℓ} (r : Run A)
    → ((a : A) × (r ≡ ok a)) ⊎ ((B : Type 0) (f : A → Run B) (b : B) → (r >>= f) ≢ ok b)
Run-cases (ok a) = inl (a, refl)
Run-cases (fail w) = inr (λ _ f b e. cc)
Run-cases panic = inr (λ _ f b e. cc)

-- The second list is the first one without the receivers whose launcher is not among the nodes.
pub data KeptFrom (c_nodes : List UclNode) : Items → Items → Type 0 where
  kept_nil : KeptFrom c_nodes nil nil
  kept :
      (x : Fields) (n : UclNode) {xs ys : Items}
      → get (text "launcher") x ≡ node n
      → is_exist_node c_nodes n ≡ true
      → KeptFrom c_nodes xs ys
      → KeptFrom c_nodes (cons (obj x) xs) (cons (obj x) ys)
  left_out :
      (x : Fields) (n : UclNode) {xs ys : Items}
      → get (text "launcher") x ≡ node n
      → is_exist_node c_nodes n ≡ false
      → KeptFrom c_nodes xs ys
      → KeptFrom c_nodes (cons (obj x) xs) ys

-- If the loop of `removeDisconnectNode` over the receivers ends without a panic, what it keeps are the
-- receivers whose launcher is among the nodes, in their order; and whenever each receiver has a launcher
-- that is a node, it ends so, with just these.
pub keep_receivers_lem :
    (c_nodes : List UclNode) (xs ys : Items)
    → (keep_receivers c_nodes xs ≡ ok ys) ↔ KeptFrom c_nodes xs ys
unfolding keep_receivers
keep_receivers_lem c_nodes xs ys = (sound xs ys, complete)
  where
    subst_launcher :
        (x : Fields) (n : UclNode) (xs ys : Items)
        → get (text "launcher") x ≡ node n
        → keep_receivers c_nodes (cons (obj x) xs) ≡ ok ys
        → (keep_receivers c_nodes xs >>= λ k.
            ok (if is_exist_node c_nodes n then cons (obj x) k else k))
          ≡ ok ys
    subst_launcher x n xs ys l e = rw l at e

    sound : (xs ys : Items) → keep_receivers c_nodes xs ≡ ok ys → KeptFrom c_nodes xs ys
    sound nil ys e = let same : nil ≡ ys = cc in rw (sym same) kept_nil
    sound (cons (obj x) xs) ys e = elim (as_node-cases (get (text "launcher") x)) [
      | inr h ↦ let stuck : keep_receivers c_nodes (cons (obj x) xs) ≡ panic = rw h refl in cc
      | inl (n, l) ↦ elim (Run-cases (keep_receivers c_nodes xs)) [
        | inr h ↦ absurd (h Items _ ys (subst_launcher x n xs ys l e))
        | inl (zs, h) ↦ elim (Bool-cases (is_exist_node c_nodes n)) [
          | inl k ↦
              let same : cons (obj x) zs ≡ ys = ground (arith, l, h, k, e) in
              rw (sym same) (kept x n l k (sound xs zs h))
          | inr k ↦
              let same : zs ≡ ys = ground (arith, l, h, k, e) in
              left_out x n l k (sound xs ys (h ∙ ap ok same))
        ]
      ]
    ]
    sound (cons null xs) ys e = cc
    sound (cons (flag b) xs) ys e = cc
    sound (cons (number z) xs) ys e = cc
    sound (cons (fraction z) xs) ys e = cc
    sound (cons (str s) xs) ys e = cc
    sound (cons (arr zs) xs) ys e = cc
    sound (cons (node n) xs) ys e = cc

    complete : {xs ys : Items} → KeptFrom c_nodes xs ys → keep_receivers c_nodes xs ≡ ok ys
    complete kept_nil = refl
    complete (kept x n l h k) = rw (l, h, complete k) refl
    complete (left_out x n l h k) = rw (l, h, complete k) refl
