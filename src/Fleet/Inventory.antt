-- ===== src/Fleet/Inventory.antt =====
-- What holds of every inventory that `profiles` of anton-runtime/src/fleet.rs returns.
use herdr_observatory.Common.{codes, byte_len}
use herdr_observatory.Fleet.{
  field_of, label_of, session_of, finish_row, target_of, as_bool, profile_row, valid_target,
  push_profile, count, profile_rows, is_session, Values, profile_id, Profile, profiles,
}
use herdr_observatory.Json.{as_str, Value, nil, cons, array, index}
use herdr_observatory.Prelude.{
  if◌then◌else◌, &&-eq_true, ◌&&◌, leb→le, leb, true, false, Bool-cases, ◌≡◌, ◌≤◌, length, arith,
  All, ||-eq_false, Holds, inl, inr, none, some, [], ◌∷◌, refl, filter, str_eq, Bool, Option, any,
  String, List,
}
use herdr_observatory.Result.{Result, ok, err}
use mathlib.Core.Path.{subst}

pub record ProfileOk (p : Profile) : Type 0 where
  pub id_ok : profile_id p.id ≡ true
  pub target_ok : valid_target p.target ≡ true
  pub session_ok : is_session p.session ≡ true

-- No profile has one of some identities.
abbrev pub Apart : List String → List Profile → Type 0
Apart ids [] = Unit
Apart ids (p ∷ ps) = (any (λ x. str_eq x p.id) ids ≡ false) × Apart ids ps

abbrev pub Distinct : List Profile → Type 0
Distinct [] = Unit
Distinct (p ∷ ps) = Apart (p.id ∷ []) ps × Distinct ps

pub record InventoryOk (rows : Values) (ps : List Profile) : Type 0 where
  pub each : All ProfileOk ps
  pub distinct : Distinct ps
  pub complete : length ps ≡ count rows
  pub within : length ps ≤ 64

-- What one row gives, over the identities that are taken.
abbrev Gives : List String → Result Profile → Type 0
Gives ids (ok p) = ProfileOk p × (any (λ x. str_eq x p.id) ids ≡ false)
Gives ids (err e) = Unit

session_of-Ok : (o : Option Value) → Holds (λ s. is_session s ≡ true) (session_of o)
unfolding is_session
session_of-Ok none = refl
session_of-Ok (some v) = kept (as_str v)
  where
    kept : (o : Option String) → Holds (λ s. is_session s ≡ true) (filter (λ s. is_session s) o)
    kept none = tt
    kept (some s) = elim (Bool-cases (is_session s)) [ inl h ↦ rw h h | inr h ↦ rw h tt ]

target_of-Ok : (v : Value) → Holds (λ s. valid_target s ≡ true) (target_of v)
target_of-Ok v = kept (as_str v)
  where
    kept :
        (o : Option String)
        → Holds
            (λ s. valid_target s ≡ true)
            (filter (λ s. leb (byte_len (codes s)) 1024 && valid_target s) o)
    kept none = tt
    kept (some s) = elim (Bool-cases (leb (byte_len (codes s)) 1024 && valid_target s)) [
      | inl h ↦ rw h (&&-eq_true (leb (byte_len (codes s)) 1024) (valid_target s) h).1
      | inr h ↦ rw h tt
    ]

finish_row-Gives :
    (ids : List String) (id : String) (enabled : Bool) (target session label : Option String)
    → profile_id id ≡ true
    → any (λ x. str_eq x id) ids ≡ false
    → Holds (λ s. valid_target s ≡ true) target
    → Holds (λ s. is_session s ≡ true) session
    → Gives ids (finish_row id enabled target session label)
finish_row-Gives ids id enabled (some target) (some session) (some label) i f t s =
    (record { id_ok = i; target_ok = t; session_ok = s }, f)
finish_row-Gives ids id enabled none session label i f t s = tt
finish_row-Gives ids id enabled (some target) none label i f t s = tt
finish_row-Gives ids id enabled (some target) (some session) none i f t s = tt

module _ (ids : List String) (row : Value) where
  with_id :
      (id : String) (enabled : Option Bool)
      → profile_id id ≡ true
      → Gives ids (elim enabled [
        | none ↦ err "Ambiguous machine inventory"
        | some enabled ↦
            if any (λ x. str_eq x id) ids
            then err "Ambiguous machine inventory"
            else finish_row id enabled
                (target_of (index row "target"))
                (session_of (field_of row "session"))
                (label_of (field_of row "label") id)
      ])
  with_id id none i = tt
  with_id id (some enabled) i = elim (Bool-cases (any (λ x. str_eq x id) ids)) [
    | inl h ↦ rw h tt
    | inr h ↦ rw h (
        finish_row-Gives ids id enabled (target_of (index row "target"))
          (session_of (field_of row "session")) (label_of (field_of row "label") id) i h
          (target_of-Ok (index row "target")) (session_of-Ok (field_of row "session")))
  ]

  profile_row-Gives : Gives ids (profile_row ids row)
  unfolding profile_row
  profile_row-Gives = on (as_str (index row "id"))
    where
      on :
          (o : Option String)
          → Gives ids (elim (filter (λ s. profile_id s) o) [
            | none ↦ err "Invalid machine identity"
            | some id ↦ elim (as_bool (index row "enabled")) [
              | none ↦ err "Ambiguous machine inventory"
              | some enabled ↦
                  if any (λ x. str_eq x id) ids
                  then err "Ambiguous machine inventory"
                  else finish_row id enabled
                      (target_of (index row "target"))
                      (session_of (field_of row "session"))
                      (label_of (field_of row "label") id)
            ]
          ])
      on none = tt
      on (some id) = elim (Bool-cases (profile_id id)) [
        | inl h ↦ rw h (with_id id (as_bool (index row "enabled")) h)
        | inr h ↦ rw h tt
      ]

-- What the rows from one on give.
abbrev Rows : List String → Values → Result (List Profile) → Type 0
Rows ids rows (ok ps) = All ProfileOk ps × Apart ids ps × Distinct ps × (length ps ≡ count rows)
Rows ids rows (err e) = Unit

Apart-cons :
    (id : String) (ids : List String) (ps : List Profile)
    → Apart (id ∷ ids) ps
    → Apart (id ∷ []) ps × Apart ids ps
Apart-cons id ids [] h = (tt, tt)
Apart-cons id ids (p ∷ ps) (h, rest) =
    let (here, there) = ||-eq_false (str_eq id p.id) (any (λ x. str_eq x p.id) ids) h in
    let (a, b) = Apart-cons id ids ps rest in ((rw here refl, a), (there, b))

push-Rows :
    (ids : List String) (row : Value) (rows : Values) (p : Profile) (r : Result (List Profile))
    → Gives ids (ok p)
    → Rows (p.id ∷ ids) rows r
    → Rows ids (cons row rows) (push_profile p r)
push-Rows ids row rows p (ok ps) (fine, new) (each, apart, distinct, len) =
    let (own, others) = Apart-cons p.id ids ps apart in
    ((fine, each), (new, others), (own, distinct), omega (arith, len))
push-Rows ids row rows p (err e) g h = tt

profile_rows-Rows : (ids : List String) (rows : Values) → Rows ids rows (profile_rows ids rows)
unfolding profile_rows
profile_rows-Rows ids nil = (tt, tt, tt, refl)
profile_rows-Rows ids (cons row rows) =
    after_row (profile_row ids row) (profile_row-Gives ids row)
      (λ p. profile_rows-Rows (p.id ∷ ids) rows)
  where
    after_row :
        (r : Result Profile)
        → Gives ids r
        → ((p : Profile) → Rows (p.id ∷ ids) rows (profile_rows (p.id ∷ ids) rows))
        → Rows ids
            (cons row rows)
            (elim r [ ok p ↦ push_profile p (profile_rows (p.id ∷ ids) rows) | err e ↦ err e ])
    after_row (ok p) g ih = push-Rows ids row rows p (profile_rows (p.id ∷ ids) rows) g (ih p)
    after_row (err e) g ih = tt

accepted :
    (rows : Values) (r : Result (List Profile)) (ps : List Profile)
    → Rows [] rows r
    → count rows ≤ 64
    → r ≡ ok ps
    → InventoryOk rows ps
accepted rows (ok qs) ps (each, apart, distinct, len) small eq =
    let same : qs ≡ ps = cc in
    subst (InventoryOk rows) same
      (record { each = each; distinct = distinct; complete = len; within = omega (arith, len) })
accepted rows (err e) ps h small eq = cc

-- An inventory that is accepted has one profile for each row, 64 at most, under identities that
-- all differ, each with a valid identity, target and session.
pub profiles-Ok :
    (rows : Values) (ps : List Profile) → profiles (array rows) ≡ ok ps → InventoryOk rows ps
unfolding profiles
profiles-Ok rows ps eq = elim (Bool-cases (leb (count rows) 64)) [
  | inl h ↦
      accepted rows (profile_rows [] rows) ps (profile_rows-Rows [] rows) (leb→le (count rows) 64 h)
        (rw h at eq)
  | inr h ↦ absurd (refused (rw h at eq))
]
  where
    refused : err "Invalid machine inventory" ≡ ok ps → ⊥
    refused e = cc
