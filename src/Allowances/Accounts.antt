-- ===== src/Allowances/Accounts.antt =====
-- `mapping` and `validate_config` of anton-runtime/src/allowances.rs: the accounts and the sources
-- of a configuration.
use herdr_observatory.Common.{byte_len, codes, is_alphanumeric, is_digit}
use herdr_observatory.Fleet.{first_is, profile_id, valid_target}
use herdr_observatory.Json.{
  text, Value, Values, Fields, nil, cons, end, field, object, array, index, as_str, as_u64,
  field_of, is_null,
}
use herdr_observatory.Prelude.{
  any, all, leb, is_some_and, str_eq, ltb, true, unwrap_or, false, ◌&&◌, ◌+◌, ◌||◌, List, Bool,
  Option, String, ℕ, none, some, [], ◌∷◌, if◌then◌else◌, ◌==◌, not,
}
use herdr_observatory.Result.{Result, ok, err}

unfoldable pub hash_key : String → Bool
hash_key value =
    byte_len (codes value) == 64
    && all (λ b. is_digit b || (leb b'a' b && leb b b'f')) (codes value)

pub record Account : Type 0 where
  pub id : String
  pub label : String
  pub category : String

abbrev pub is_category : String → Bool
is_category s = str_eq s "Personal" || str_eq s "Work"

-- Whether an object has some keys only.
abbrev pub keys_within : List String → Fields → Bool
keys_within keys end = true
keys_within keys (field k v fs) = any (λ x. str_eq x k) keys && keys_within keys fs

abbrev pub is_account_id : String → Bool
is_account_id id =
    not (str_eq id "")
    && leb (byte_len (codes id)) 40
    && all (λ b. is_alphanumeric b || b == b'_' || b == b'-') (codes id)

abbrev pub is_account_label : String → Bool
is_account_label label =
    not (str_eq label "")
    && leb (byte_len (codes label)) 40
    && first_is is_alphanumeric (codes label)
    && all (λ b. is_alphanumeric b || b == b' ' || b == b'_' || b == b'.' || b == b'-')
        (codes label)

abbrev pub is_week : Option Value → Bool
is_week none = true
is_week (some v) = is_some_and (as_u64 v) (λ n. n == 604800)

-- The checks on the object's values. Its window is always of 604800 seconds.
unfoldable pub mapping_of : String → String → Option String → Option Value → Result Account
mapping_of id label category window =
    if is_account_id id
      && is_account_label label
      && is_some_and category (λ s. is_category s)
      && is_week window
    then ok (record { id = id; label = label; category = unwrap_or category "" })
    else err "Invalid allowance account mapping"

unfoldable pub mapping : Value → Result Account
unfolding mapping_of
mapping (text s) =
    if is_category s
    then ok (record { id = s; label = s; category = s })
    else err "Invalid allowance account mapping"
mapping (object fs) =
    if keys_within ("id" ∷ "label" ∷ "category" ∷ "window_seconds" ∷ []) fs
    then mapping_of (unwrap_or (as_str (index (object fs) "id")) "")
        (unwrap_or (as_str (index (object fs) "label")) "") (as_str (index (object fs) "category"))
        (field_of (object fs) "window_seconds")
    else err "Invalid allowance account mapping"
mapping _ = err "Invalid allowance account mapping"

-- The loop over the accounts, with the identities that are taken: `none`, or the error's text.
unfoldable pub check_accounts : List String → Fields → Option String
unfolding mapping hash_key
check_accounts ids end = none
check_accounts ids (field key value fs) = elim (mapping value) [
  | err e ↦ some e
  | ok item ↦
      let rest = check_accounts (item.id ∷ ids) fs in
      if not (hash_key key) || any (λ x. str_eq x item.id) ids
      then some "Invalid allowance account identity"
      else rest
]

abbrev pub text_passes : (String → Bool) → Option Value → Bool
text_passes p none = true
text_passes p (some v) = is_some_and (as_str v) p

abbrev pub is_source : Value → Bool
is_source (object end) = false
is_source (object (field k v fs)) =
    keys_within ("target" ∷ "profile_id" ∷ []) (field k v fs)
    && text_passes valid_target (field_of (object (field k v fs)) "target")
    && text_passes profile_id (field_of (object (field k v fs)) "profile_id")
is_source _ = false

unfoldable pub check_sources : Values → Option String
check_sources nil = none
check_sources (cons v vs) =
    let rest = check_sources vs in
    if is_source v then rest else some "Invalid native allowance source"

-- How many fields or values there are.
abbrev pub count_fields : Fields → ℕ
count_fields end = 0
count_fields (field k v fs) = 1 + count_fields fs

abbrev pub count_values : Values → ℕ
count_values nil = 0
count_values (cons v vs) = 1 + count_values vs

unfoldable pub sources_of : Option Value → Option String
unfolding check_sources
sources_of none = none
sources_of (some (array vs)) =
    if ltb 16 (count_values vs) then some "Too many allowance sources" else check_sources vs
sources_of (some _) = some "Invalid allowance sources"

abbrev pub fields_of : Value → Option Fields
fields_of (object fs) = some fs
fields_of _ = none

-- The accounts, and then the sources.
unfoldable pub check_both : Option Fields → Option Value → Option String
unfolding check_accounts sources_of
check_both none sources = some "Invalid allowance accounts"
check_both (some accounts) sources =
    if count_fields accounts == 0 || ltb 4 (count_fields accounts)
    then some "Configure one to four allowance accounts"
    else elim (check_accounts [] accounts) [ some e ↦ some e | none ↦ sources_of sources ]

-- The configuration's object, field by field.
unfoldable pub check_object : Fields → Option String
unfolding check_both
check_object fs =
    if not (keys_within ("accounts" ∷ "sources" ∷ []) fs)
    then some "Invalid native allowances configuration"
    else check_both (fields_of (index (object fs) "accounts")) (field_of (object fs) "sources")

-- `none`, or the error's text.
unfoldable pub validate_config : Option Value → Option String
unfolding check_object
validate_config none = none
validate_config (some v) = if is_null v then none else elim (fields_of v) [
  | none ↦ some "Invalid allowances configuration"
  | some fs ↦ check_object fs
]
