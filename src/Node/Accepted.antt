-- ===== src/Node/Accepted.antt =====
-- `validateAppInfo` and the launchers of a document.
use ucl_tools.Base.{
  ◌≡◌, refl, ◌⊎◌, inl, inr, Bool, true, false, ◌||◌, List, arith, if◌then◌else◌, Bool-cases, Text,
  text,
}
use ucl_tools.Document.{
  Run, Value, null, flag, number, fraction, str, arr, obj, node, Items, nil, cons, Fields, get,
  is_str, ok, panic, as_str, ◌>>=◌,
}
use ucl_tools.Screen.{UclNode}
use ucl_tools.Node.Apps.{
  launcher_exists, launcher_name, validate_receivers, validate_remote, validate_local,
  validate_format,
}

as_str-cases : (v : Value) → ((s : Text) × (v ≡ str s)) ⊎ (as_str v ≡ panic)
as_str-cases (str s) = inl (s, refl)
as_str-cases null = inr refl
as_str-cases (flag b) = inr refl
as_str-cases (number z) = inr refl
as_str-cases (fraction z) = inr refl
as_str-cases (node n) = inr refl
as_str-cases (arr xs) = inr refl
as_str-cases (obj f) = inr refl

-- The part of a document has a launcher, which is the name of a node.
abbrev pub IsLaunched : List UclNode → Fields → Type 0
IsLaunched nodes x =
    (name : Text) × (get (text "launcher") x ≡ str name) × (launcher_exists name nodes ≡ true)

-- So do all receivers.
abbrev pub AllLaunched : List UclNode → Items → Type 0
AllLaunched nodes nil = Unit
AllLaunched nodes (cons v xs) =
    ((x : Fields) × (v ≡ obj x) × IsLaunched nodes x) × AllLaunched nodes xs

launcher_first :
    (nodes : List UclNode) (x : Fields) (rest : Run Bool)
    → (launcher_name x >>= λ name. if launcher_exists name nodes then rest else ok false) ≡ ok true
    → IsLaunched nodes x × (rest ≡ ok true)
launcher_first nodes x rest e = elim (as_str-cases (get (text "launcher") x)) [
  | inr h ↦ absurd (ground (arith, h, e))
  | inl (name, h) ↦ ((name, h, ground (arith, h, e)), ground (arith, h, e))
]

validate_receivers-AllLaunched :
    (nodes : List UclNode) (xs : Items)
    → validate_receivers nodes xs ≡ ok true
    → AllLaunched nodes xs
unfolding validate_receivers
validate_receivers-AllLaunched nodes nil e = tt
validate_receivers-AllLaunched nodes (cons (obj x) xs) e =
    let (l, rest) = launcher_first nodes x (validate_receivers nodes xs) e in
    ((x, refl, l), validate_receivers-AllLaunched nodes xs rest)
validate_receivers-AllLaunched nodes (cons null xs) e = cc
validate_receivers-AllLaunched nodes (cons (flag b) xs) e = cc
validate_receivers-AllLaunched nodes (cons (number z) xs) e = cc
validate_receivers-AllLaunched nodes (cons (fraction z) xs) e = cc
validate_receivers-AllLaunched nodes (cons (str s) xs) e = cc
validate_receivers-AllLaunched nodes (cons (arr zs) xs) e = cc
validate_receivers-AllLaunched nodes (cons (node n) xs) e = cc

-- What an accepted document has behind its keys.
abbrev pub RemoteLaunched : List UclNode → Value → Value → Type 0
RemoteLaunched nodes sender receivers =
    ((x : Fields) × (sender ≡ obj x) × IsLaunched nodes x)
    × ((xs : Items) × (receivers ≡ arr xs) × AllLaunched nodes xs)

receivers_value :
    (nodes : List UclNode) (receivers : Value)
    → (elim receivers [ arr xs ↦ validate_receivers nodes xs | _ ↦ ok false ]) ≡ ok true
    → (xs : Items) × (receivers ≡ arr xs) × AllLaunched nodes xs
receivers_value nodes (arr xs) e = (xs, refl, validate_receivers-AllLaunched nodes xs e)
receivers_value nodes null e = cc
receivers_value nodes (flag b) e = cc
receivers_value nodes (number z) e = cc
receivers_value nodes (fraction z) e = cc
receivers_value nodes (str s) e = cc
receivers_value nodes (obj f) e = cc
receivers_value nodes (node n) e = cc

validate_remote-RemoteLaunched :
    (nodes : List UclNode) (sender receivers : Value)
    → validate_remote nodes sender receivers ≡ ok true
    → RemoteLaunched nodes sender receivers
unfolding validate_remote
validate_remote-RemoteLaunched nodes (obj x) receivers e =
    let (l, rest) =
      launcher_first nodes x
        (elim receivers [ arr xs ↦ validate_receivers nodes xs | _ ↦ ok false ]) e in
    ((x, refl, l), receivers_value nodes receivers rest)
validate_remote-RemoteLaunched nodes null receivers e = cc
validate_remote-RemoteLaunched nodes (flag b) receivers e = cc
validate_remote-RemoteLaunched nodes (number z) receivers e = cc
validate_remote-RemoteLaunched nodes (fraction z) receivers e = cc
validate_remote-RemoteLaunched nodes (str s) receivers e = cc
validate_remote-RemoteLaunched nodes (arr xs) receivers e = cc
validate_remote-RemoteLaunched nodes (node n) receivers e = cc

validate_local-IsLaunched :
    (nodes : List UclNode) (l : Value)
    → validate_local nodes l ≡ ok true
    → (x : Fields) × (l ≡ obj x) × IsLaunched nodes x
unfolding validate_local
validate_local-IsLaunched nodes (obj x) e = elim (as_str-cases (get (text "launcher") x)) [
  | inr h ↦ absurd (ground (arith, h, e))
  | inl (name, h) ↦ (x, refl, (name, h, ground (arith, h, e)))
]
validate_local-IsLaunched nodes null e = cc
validate_local-IsLaunched nodes (flag b) e = cc
validate_local-IsLaunched nodes (number z) e = cc
validate_local-IsLaunched nodes (fraction z) e = cc
validate_local-IsLaunched nodes (str s) e = cc
validate_local-IsLaunched nodes (arr xs) e = cc
validate_local-IsLaunched nodes (node n) e = cc

-- The command types of a document.
abbrev pub IsRemote : Fields → Type 0
IsRemote f =
    (is_str (get (text "command_type") f) (text "remote_virtio_gpu") ≡ true)
    ⊎ (is_str (get (text "command_type") f) (text "transport") ≡ true)

abbrev pub IsLocal : Fields → Type 0
IsLocal f = is_str (get (text "command_type") f) (text "local") ≡ true

either_holds : (a b : Bool) → (a || b) ≡ true → (a ≡ true) ⊎ (b ≡ true)
either_holds true b h = inl refl
either_holds false b h = inr h

-- A document that a node accepts is of one of the three command types and names only nodes as launchers:
-- one of type "remote_virtio_gpu" or "transport" those of its sender and of all its receivers, and one of
-- type "local" that of its local part.
pub validate_format-IsLaunched :
    (nodes : List UclNode) (f : Fields)
    → validate_format nodes f ≡ ok true
    → (IsRemote f × RemoteLaunched nodes (get (text "sender") f) (get (text "receivers") f))
      ⊎ (IsLocal f × ((x : Fields) × (get (text "local") f ≡ obj x) × IsLaunched nodes x))
unfolding validate_format
validate_format-IsLaunched nodes f e =
    let cmd = get (text "command_type") f in
    elim (Bool-cases (is_str cmd (text "remote_virtio_gpu") || is_str cmd (text "transport"))) [
      | inl h ↦ inl (either_holds _ _ h, validate_remote-RemoteLaunched nodes _ _ (rw h at e))
      | inr h ↦ elim (Bool-cases (is_str cmd (text "local"))) [
        | inl k ↦ inr (k, validate_local-IsLaunched nodes _ (rw (h, k) at e))
        | inr k ↦ absurd (ground (arith, h, k, e))
      ]
    ]
