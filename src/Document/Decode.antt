-- ===== src/Document/Decode.antt =====
-- How `json.Marshal` writes a document, and how `json.Unmarshal` reads one into a struct. A key names the
-- field with its tag, up to the case of ASCII letters; a later one decodes into what an earlier one left.
-- `none` is an error; the code uses nothing of what was read beside it.
use ucl_tools.Base.{
  ℕ, ◌+◌, ◌^◌, ◌≡◌, Bool, true, false, ◌&&◌, Option, none, some, List, [], ◌∷◌, if◌then◌else◌, ltb,
  leb, ◌==◌, Text, text, ℤ, pos, negsuc,
}
use ucl_tools.Document.{
  Value, null, flag, number, fraction, str, arr, obj, node, Items, nil, cons, Fields, end, field,
}
use ucl_tools.Screen.{◌>>=◌}

-- What `encoding/json` does with texts. A number of a `map[string]interface{}` is a float64: `print` is the
-- integer with whose digits `json.Marshal` writes one, `write` the text of a value that has its numbers in
-- these digits, `read` is `json.Unmarshal` into a map, and `parse` what `json.Unmarshal` into a struct finds
-- in a text, with the numbers as they are spelled.
pub record Json : Type 0 where
  pub print : ℤ → ℤ
  pub write : Value → Text
  pub read : Text → Option Fields
  pub parse : Text → Option Value

-- A value as `json.Marshal` writes it: a number of a map by its digits, and a node as an object with its
-- tags and its port, which is an `int`.
module _ (print : ℤ → ℤ) where
  abbrev mutual
    pub marshal : Value → Value
    marshal null = null
    marshal (flag b) = flag b
    marshal (number n) = number (print n)
    marshal (fraction n) = fraction n
    marshal (str s) = str s
    marshal (arr xs) = arr (marshal_items xs)
    marshal (obj m) = obj (marshal_fields m)
    marshal (node n) = obj (
        field (text "ip") (str n.ip)
          (field (text "port") (number n.port) (field (text "hostname") (str n.host_name) end)))

    pub marshal_items : Items → Items
    marshal_items nil = nil
    marshal_items (cons x xs) = cons (marshal x) (marshal_items xs)

    pub marshal_fields : Fields → Fields
    marshal_fields end = end
    marshal_fields (field k v rest) = field k (marshal v) (marshal_fields rest)

-- A key and the tag of a field, which is in small letters.
abbrev fold : Bool → ℕ → ℕ
fold true c = c + 32
fold false c = c

unfoldable pub same_key : Text → Text → Bool
same_key [] [] = true
same_key (x ∷ key) (y ∷ tag) = fold (leb b'A' x && leb x b'Z') x == y && same_key key tag
same_key _ _ = false

-- The range of Go's `int`, of 64 bits.
unfoldable pub in_int64 : ℤ → Bool
in_int64 (pos n) = ltb n (2 ^ 63)
in_int64 (negsuc n) = ltb n (2 ^ 63)

-- A number that float64 holds and that is written with its own digits.
unfoldable pub is_exact : ℤ → Bool
is_exact (pos n) = leb n (2 ^ 53)
is_exact (negsuc n) = ltb n (2 ^ 53)

abbrev pub PrintsExact : (ℤ → ℤ) → Type 0
PrintsExact print = (z : ℤ) → is_exact z ≡ true → print z ≡ z

unfoldable pub ranged : ℤ → Option ℤ
unfolding in_int64
ranged n = if in_int64 n then some n else none

-- Into a string, an `int`, and a pointer to each, which hold `old`.
abbrev pub into_str : Value → Text → Option Text
into_str null old = some old
into_str (str s) old = some s
into_str _ old = none

abbrev pub into_int : Value → ℤ → Option ℤ
into_int null old = some old
into_int (number n) old = ranged n
into_int _ old = none

abbrev pub into_str_ptr : Value → Option (Option Text)
into_str_ptr null = some none
into_str_ptr (str s) = some (some s)
into_str_ptr _ = none

abbrev pub into_int_ptr : Value → Option (Option ℤ)
into_int_ptr null = some none
into_int_ptr (number n) = do z ← ranged n; some (some z)
into_int_ptr _ = none

abbrev pub or_zero : {A : Type 0} → A → Option A → A
or_zero zero_value none = zero_value
or_zero zero_value (some a) = a

-- Into a struct, where `set` reads the value of one key.
module _ {A : Type 0} (set : Text → Value → A → Option A) where
  abbrev pub into_fields : Fields → A → Option A
  into_fields end a = some a
  into_fields (field k v rest) a = do b ← set k v a; into_fields rest b

  abbrev pub into_obj : Value → A → Option A
  into_obj null a = some a
  into_obj (obj m) a = into_fields m a
  into_obj _ a = none

  -- Into a slice of structs: in place of the elements that it has, and then from zero values.
  abbrev pub into_items : A → Items → List A → Option (List A)
  into_items zero_value nil old = some []
  into_items zero_value (cons x xs) [] = do
    a ← into_obj x zero_value
    rest ← into_items zero_value xs []
    some (a ∷ rest)
  into_items zero_value (cons x xs) (o ∷ old) = do
    a ← into_obj x o
    rest ← into_items zero_value xs old
    some (a ∷ rest)

  abbrev pub into_slice : A → Value → List A → Option (List A)
  into_slice zero_value null old = some []
  into_slice zero_value (arr xs) old = into_items zero_value xs old
  into_slice zero_value _ old = none

  -- Into a pointer to a struct.
  abbrev pub into_ptr : A → Value → Option A → Option (Option A)
  into_ptr zero_value null old = some none
  into_ptr zero_value (obj m) old = do a ← into_fields m (or_zero zero_value old); some (some a)
  into_ptr zero_value _ old = none
