-- ===== src/Fleet.antt =====
-- anton-runtime/src/fleet.rs: the inventory of machines.
pub mod Inventory
pub mod Samples
use herdr_observatory.Common.{byte_len, is_alphanumeric, safe_id, codes}
use herdr_observatory.Json.{
  field_of, as_bool, as_str, object, array, Values, Value, nil, cons, index, get,
}
use herdr_observatory.Prelude.{
  any, ◌||◌, all, str_eq, false, ◌&&◌, ltb, leb, filter, ◌+◌, Bool, String, ℕ, Option, List, zero,
  none, some, [], ◌∷◌, if◌then◌else◌, ◌==◌, not,
}
use herdr_observatory.Result.{Result, ok, err}

abbrev pub first_is : (ℕ → Bool) → List ℕ → Bool
first_is p [] = false
first_is p (c ∷ s) = p c

-- `safe_id` refuses an empty text, so the index 0 is there.
unfoldable pub profile_id : String → Bool
unfolding safe_id
profile_id value = safe_id value 40 && first_is is_alphanumeric (codes value)

-- `char::is_control`.
abbrev pub is_control : ℕ → Bool
is_control c = ltb c 32 || (leb 127 c && leb c 159)

unfoldable pub is_session : String → Bool
is_session value =
    not (str_eq value "")
    && leb (byte_len (codes value)) 1024
    && not (first_is (λ c. c == b'-') (codes value))
    && not (any is_control (codes value))

-- allowances.rs `valid_target`.
unfoldable pub valid_target : String → Bool
valid_target value =
    not (str_eq value "")
    && not (first_is (λ c. c == b'-') (codes value))
    && all (λ c. is_alphanumeric c || c == b'_' || c == b'.' || c == b'@' || c == b':' || c == b'-')
        (codes value)

pub record Profile : Type 0 where
  pub id : String
  pub target : String
  pub session : String
  pub label : String
  pub enabled : Bool

abbrev pub session_of : Option Value → Option String
session_of none = some "default"
session_of (some v) = filter (λ s. is_session s) (as_str v)

abbrev pub label_of : Option Value → String → Option String
label_of none id = some id
label_of (some v) id =
    filter (λ s. leb (byte_len (codes s)) 512 && not (any is_control (codes s))) (as_str v)

-- The rest of a row, once its identity is known.
abbrev pub finish_row :
    String → Bool → Option String → Option String → Option String → Result Profile
finish_row id enabled none session label = err "Invalid machine target"
finish_row id enabled (some target) none label = err "Invalid machine session"
finish_row id enabled (some target) (some session) none = err "Invalid machine label"
finish_row id enabled (some target) (some session) (some label) =
    ok (record { id = id; target = target; session = session; label = label; enabled = enabled })

abbrev pub target_of : Value → Option String
target_of v = filter (λ s. leb (byte_len (codes s)) 1024 && valid_target s) (as_str v)

-- One round of the loop, over the identities that the rows before took.
unfoldable pub profile_row : List String → Value → Result Profile
unfolding profile_id is_session valid_target
profile_row ids row = elim (filter (λ s. profile_id s) (as_str (index row "id"))) [
  | none ↦ err "Invalid machine identity"
  | some id ↦ elim (as_bool (index row "enabled")) [
    | none ↦ err "Ambiguous machine inventory"
    | some enabled ↦
        if any (λ x. str_eq x id) ids
        then err "Ambiguous machine inventory"
        else finish_row id enabled (target_of (index row "target"))
            (session_of (field_of row "session")) (label_of (field_of row "label") id)
  ]
]

abbrev pub push_profile : Profile → Result (List Profile) → Result (List Profile)
push_profile p (ok ps) = ok (p ∷ ps)
push_profile p (err e) = err e

unfoldable pub profile_rows : List String → Values → Result (List Profile)
unfolding profile_row
profile_rows ids nil = ok []
profile_rows ids (cons row rows) = elim (profile_row ids row) [
  | ok p ↦ push_profile p (profile_rows (p.id ∷ ids) rows)
  | err e ↦ err e
]

abbrev pub count : Values → ℕ
count nil = 0
count (cons v vs) = 1 + count vs

unfoldable pub profiles : Value → Result (List Profile)
unfolding profile_rows
profiles (array rows) =
    if leb (count rows) 64 then profile_rows [] rows else err "Invalid machine inventory"
profiles _ = err "Invalid machine inventory"
