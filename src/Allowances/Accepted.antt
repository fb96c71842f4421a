-- ===== src/Allowances/Accepted.antt =====
-- What `validate_config` of anton-runtime/src/allowances.rs accepts.
use herdr_observatory.Allowances.Accounts.{
  keys_within, fields_of, check_object, validate_config, check_both, count_values, sources_of,
  count_fields, is_source, check_sources, check_accounts, Account, mapping, hash_key,
}
use herdr_observatory.Json.{
  Value, Values, Fields, nil, cons, end, field, object, array, index, field_of,
}
use herdr_observatory.Prelude.{
  arith, ◌==◌, ℕ, not-eq_false, le_of_ltb, ||-eq_false, false, ltb, str_eq, true, any, Bool-cases,
  String, ◌≡◌, List, ◌≤◌, Option, inl, inr, none, some, [], ◌∷◌, not, refl, if◌then◌else◌, ◌||◌,
}
use herdr_observatory.Result.{Result, ok, err}

-- Each account is a mapping under a hashed key, and its identity is not taken.
abbrev pub Accounts : List String → Fields → Type 0
Accounts ids end = Unit
Accounts ids (field key value fs) =
    (item : Account) × (mapping value ≡ ok item)
    × (hash_key key ≡ true)
    × (any (λ x. str_eq x item.id) ids ≡ false)
    × Accounts (item.id ∷ ids) fs

abbrev pub Sources : Values → Type 0
Sources nil = Unit
Sources (cons v vs) = (is_source v ≡ true) × Sources vs

abbrev pub SourcesOk : Option Value → Type 0
SourcesOk none = Unit
SourcesOk (some (array vs)) = (count_values vs ≤ 16) × Sources vs
SourcesOk (some _) = ⊥

abbrev pub AccountsOk : Option Fields → Type 0
AccountsOk none = ⊥
AccountsOk (some accounts) =
    (1 ≤ count_fields accounts) × (count_fields accounts ≤ 4) × Accounts [] accounts

refused : (e : String) → some e ≡ none → ⊥
refused e h = cc

account_ok :
    (ids : List String) (key : String) (value : Value) (fs : Fields) (r : Result Account)
    → mapping value ≡ r
    → ((item : Account) → check_accounts (item.id ∷ ids) fs ≡ none → Accounts (item.id ∷ ids) fs)
    → elim r [
      | err e ↦ some e
      | ok item ↦
          if not (hash_key key) || any (λ x. str_eq x item.id) ids
          then some "Invalid allowance account identity"
          else check_accounts (item.id ∷ ids) fs
    ]
      ≡ none
    → Accounts ids (field key value fs)
account_ok ids key value fs (err e) m ih eq = cc
account_ok ids key value fs (ok item) m ih eq =
    elim (Bool-cases (not (hash_key key) || any (λ x. str_eq x item.id) ids)) [
      | inl h ↦ absurd (refused _ (rw h at eq))
      | inr h ↦
          let (hashed, new) =
            ||-eq_false (not (hash_key key)) (any (λ x. str_eq x item.id) ids) h in
          (item, m, not-eq_false (hash_key key) hashed, new, ih item (rw h at eq))
    ]

check_accounts-Accounts :
    (ids : List String) (fs : Fields) → check_accounts ids fs ≡ none → Accounts ids fs
unfolding check_accounts
check_accounts-Accounts ids end eq = tt
check_accounts-Accounts ids (field key value fs) eq =
    account_ok ids key value fs (mapping value) refl
      (λ item. check_accounts-Accounts (item.id ∷ ids) fs) eq

check_sources-Sources : (vs : Values) → check_sources vs ≡ none → Sources vs
unfolding check_sources
check_sources-Sources nil eq = tt
check_sources-Sources (cons v vs) eq = elim (Bool-cases (is_source v)) [
  | inl h ↦ (h, check_sources-Sources vs (rw h at eq))
  | inr h ↦ absurd (refused _ (rw h at eq))
]

sources_of-Ok : (o : Option Value) → sources_of o ≡ none → SourcesOk o
unfolding sources_of
sources_of-Ok none eq = tt
sources_of-Ok (some (array vs)) eq = elim (Bool-cases (ltb 16 (count_values vs))) [
  | inl h ↦ absurd (refused _ (rw h at eq))
  | inr h ↦ (le_of_ltb 16 (count_values vs) h, check_sources-Sources vs (rw h at eq))
]
sources_of-Ok (some _) eq = absurd (refused _ eq)

Accounts-then :
    (accounts : Fields) (o : Option Value) (r : Option String)
    → check_accounts [] accounts ≡ r
    → elim r [ some e ↦ some e | none ↦ sources_of o ] ≡ none
    → Accounts [] accounts × SourcesOk o
Accounts-then accounts o none h eq = (check_accounts-Accounts [] accounts h, sources_of-Ok o eq)
Accounts-then accounts o (some e) h eq = cc

check_both-Ok :
    (accounts : Option Fields) (sources : Option Value)
    → check_both accounts sources ≡ none
    → AccountsOk accounts × SourcesOk sources
unfolding check_both
check_both-Ok none sources eq = absurd (refused _ eq)
check_both-Ok (some accounts) sources eq =
    elim (Bool-cases (count_fields accounts == 0 || ltb 4 (count_fields accounts))) [
      | inl h ↦ absurd (refused _ (rw h at eq))
      | inr h ↦
          let (both, rest) =
            Accounts-then accounts sources (check_accounts [] accounts) refl (rw h at eq) in
          let (low, high) = between (count_fields accounts) h in ((low, high, both), rest)
    ]
  where
    between : (n : ℕ) → (n == 0 || ltb 4 n) ≡ false → (1 ≤ n) × (n ≤ 4)
    between n h = ground arith

-- An allowance configuration that is accepted has one to four accounts, each a valid mapping
-- under a hashed key with an identity of its own, and at most 16 sources if any, each with a
-- valid target, a valid profile or both.
pub validate_config-Ok :
    (fs : Fields)
    → validate_config (some (object fs)) ≡ none
    → AccountsOk (fields_of (index (object fs) "accounts"))
      × SourcesOk (field_of (object fs) "sources")
unfolding validate_config check_object
validate_config-Ok fs eq = elim (Bool-cases (not (keys_within ("accounts" ∷ "sources" ∷ []) fs))) [
  | inl h ↦ absurd (refused _ (rw h at eq))
  | inr h ↦
      check_both-Ok (fields_of (index (object fs) "accounts")) (field_of (object fs) "sources")
        (rw h at eq)
]
