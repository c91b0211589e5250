-- ===== src/Document.antt =====
-- The documents that the programs exchange, as `json.Unmarshal` gives them to Go: `map[string]interface{}`
-- and the values in it. A value that the code puts in itself, a `ucl.UclNode`, is one more kind. A number is
-- an integer, or a `fraction` with its integer part, which is what the conversion to `int` gives.
pub mod Decode
use ucl_tools.Base.{Bool, true, false, if◌then◌else◌, Text, text, text_eq, ℤ}
use ucl_tools.Screen.{UclNode}

mutual
  pub data Value : Type 0 where
    null : Value
    flag : Bool → Value
    number fraction : ℤ → Value
    str : Text → Value
    arr : Items → Value
    obj : Fields → Value
    node : UclNode → Value

  pub data Items : Type 0 where
    nil : Items
    cons : Value → Items → Items

  pub data Fields : Type 0 where
    end : Fields
    field : Text → Value → Fields → Fields

-- Why a function returns an error.
pub data Why : Type 0 where
  sender_not_connectable no_connectable_receivers local_not_connectable command_type_err : Why
  unmarshal_err : Why

-- The result of a function on documents; a type assertion that fails panics.
pub data Run {ℓ} (A : Type ℓ) : Type ℓ where
  ok : A → Run A
  fail : Why → Run A
  panic : Run A

infixl 5 ◌>>=◌ ◌>>◌
abbrev pub ◌>>=◌ {ℓ κ} : {A : Type ℓ} {B : Type κ} → Run A → (A → Run B) → Run B
ok a >>= f = f a
fail w >>= f = fail w
panic >>= f = panic

abbrev pub ◌>>◌ {ℓ} : {B : Type ℓ} → Run (Unit {0}) → Run B → Run B
m >> k = m >>= λ _. k

-- `m[key]`; a key that is missing gives nil.
unfoldable pub get : Text → Fields → Value
get key end = null
get key (field k v rest) = if text_eq k key then v else get key rest

-- `m[key] = v`.
unfoldable pub put : Text → Value → Fields → Fields
put key v end = field key v end
put key v (field k w rest) = if text_eq k key then field k v rest else field k w (put key v rest)

abbrev pub is_null : Value → Bool
is_null null = true
is_null _ = false

-- `v == "…"`.
abbrev pub is_str : Value → Text → Bool
is_str (str s) t = text_eq s t
is_str _ t = false

-- The type assertions.
abbrev pub as_obj : Value → Run Fields
as_obj (obj f) = ok f
as_obj _ = panic

abbrev pub as_arr : Value → Run Items
as_arr (arr xs) = ok xs
as_arr _ = panic

abbrev pub as_node : Value → Run UclNode
as_node (node n) = ok n
as_node _ = panic

abbrev pub as_str : Value → Run Text
as_str (str s) = ok s
as_str _ = panic

abbrev pub as_number : Value → Run ℤ
as_number (number n) = ok n
as_number (fraction n) = ok n
as_number _ = panic

-- `m["format_v1"].(map[string]interface{})`.
abbrev pub format_v1 : Fields → Run Fields
format_v1 m = as_obj (get (text "format_v1") m)

abbrev pub set_format_v1 : Fields → Fields → Fields
set_format_v1 f m = put (text "format_v1") (obj f) m
