-- ===== src/Json.antt =====
-- `serde_json::Value`, as the runtime reads it: the indexing and the `as_` accessors.
-- A number is a `u64`, a negative integer, or a float, which is kept as its text.
use herdr_observatory.Common.{max_safe}
use herdr_observatory.Prelude.{
  ◌≡◌, ℕ, String, Bool, true, false, Option, none, some, str_eq, leb, if◌then◌else◌, filter,
}

mutual
  pub data Value : Type 0 where
    null : Value
    boolean : Bool → Value
    unsigned : ℕ → Value
    negative : ℕ → Value
    float : String → Value
    text : String → Value
    array : Values → Value
    object : Fields → Value

  pub data Values : Type 0 where
    nil : Values
    cons : Value → Values → Values

  pub data Fields : Type 0 where
    end : Fields
    field : String → Value → Fields → Fields

unfoldable pub get : String → Fields → Option Value
get k end = none
get k (field j v fs) = if str_eq j k then some v else get k fs

abbrev pub or_null : Option Value → Value
or_null none = null
or_null (some v) = v

-- `value[key]` is `Null` where the value is no object or has no such key.
unfoldable pub index : Value → String → Value
unfolding get
index (object fs) k = or_null (get k fs)
index _ k = null

abbrev pub as_str : Value → Option String
as_str (text s) = some s
as_str _ = none

abbrev pub as_u64 : Value → Option ℕ
as_u64 (unsigned n) = some n
as_u64 _ = none

abbrev pub as_bool : Value → Option Bool
as_bool (boolean b) = some b
as_bool _ = none

abbrev pub is_null : Value → Bool
is_null null = true
is_null _ = false

-- `as_object` answers.
abbrev pub is_object : Value → Bool
is_object (object fs) = true
is_object _ = false

-- common.rs `number`.
unfoldable pub number : Value → Option ℕ
number v = filter (λ n. leb n max_safe) (as_u64 v)

pub as_str-eq_some : (v : Value) (s : String) → as_str v ≡ some s → v ≡ text s
as_str-eq_some (text t) s h = cc
as_str-eq_some _ s h = cc

pub as_u64-eq_some : (v : Value) (n : ℕ) → as_u64 v ≡ some n → v ≡ unsigned n
as_u64-eq_some (unsigned m) n h = cc
as_u64-eq_some _ n h = cc

-- `value[key] = v` on an object.
unfoldable pub insert_field : String → Value → Fields → Fields
insert_field k v end = field k v end
insert_field k v (field j w fs) =
    let rest = insert_field k v fs in if str_eq j k then field j v fs else field j w rest

unfoldable pub set : String → Value → Value → Value
unfolding insert_field
set k v (object fs) = object (insert_field k v fs)
set k v other = other

-- `json!` of an optional number.
abbrev pub json_number : Option ℕ → Value
json_number none = null
json_number (some n) = unsigned n

-- `value.get(key)`.
abbrev pub field_of : Value → String → Option Value
field_of (object fs) key = get key fs
field_of _ key = none
