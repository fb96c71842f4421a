-- ===== src/Allowances.antt =====
-- anton-runtime/src/allowances.rs: the summary of an account's allowance.
pub mod Fresh
pub mod Accounts
pub mod Accepted
pub mod Samples
use herdr_observatory.Common.{max_safe, codes}
use herdr_observatory.Json.{
  field_of, is_null, array, is_object, Values, Value, nil, cons, index, null, as_u64, as_str,
}
use herdr_observatory.Prelude.{
  str_append, is_some, all, ◌&&◌, length, ◌||◌, any, leb, ◌-◌, true, is_some_and, filter, str_eq, ℕ,
  Option, String, Bool, unwrap_or, List, zero, none, some, [], ◌∷◌, if◌then◌else◌, ◌==◌, not,
}

-- The JSON object of `summarise`, where `Null` is `none`. Its `sampled_at` is the clock's time.
pub record Summary : Type 0 where
  pub account_key : String
  pub plan : Option String
  pub weekly_remaining : Option ℕ
  pub weekly_resets_at : Option ℕ
  pub reset_count : Option ℕ
  pub reset_expires_at : Option ℕ

abbrev pub plans : List String
plans =
    "free" ∷ "go" ∷ "plus" ∷ "pro" ∷ "prolite" ∷ "team" ∷ "self_serve_business_prolite"
    ∷ "self_serve_business_usage_based" ∷ "business" ∷ "ent26" ∷ "enterprise_cbp_automation"
    ∷ "enterprise_cbp_usage_based" ∷ "enterprise" ∷ "edu" ∷ "edu_plus" ∷ "edu_pro" ∷ "unknown" ∷ []

-- allowances.rs `number`.
abbrev pub number_to : Value → ℕ → Option ℕ
number_to v maximum = filter (λ n. leb n maximum) (as_u64 v)

-- The digest is the crate sha2's.
unfoldable pub account_key : (String → String) → String → Option String
account_key sha256 value =
    if not (str_eq value "") && leb (length (codes value)) 256
    then some (sha256 (str_append "observatory-codex-account-v1:" value))
    else none

abbrev pub codex_of : Option Value → Option Value
codex_of none = none
codex_of (some v) = field_of v "codex"

-- The bucket of the limit `codex`.
unfoldable pub bucket_of : Value → Value
bucket_of raw = unwrap_or (codex_of (field_of raw "rateLimitsByLimitId")) (index raw "rateLimits")

abbrev pub is_codex : Option Value → Bool
is_codex none = true
is_codex (some v) = is_null v || is_some_and (as_str v) (λ s. str_eq s "codex")

abbrev pub is_weekly : Value → Bool
is_weekly v = is_some_and (as_u64 (index v "windowDurationMins")) (λ n. n == 10080)

-- `into_iter().filter(…).collect()`.
unfoldable pub keep : (Value → Bool) → List Value → List Value
keep p [] = []
keep p (v ∷ vs) = let rest = keep p vs in if p v then v ∷ rest else rest

-- The rows of a credit that can still be used.
abbrev pub is_available : Value → Bool
is_available v =
    is_some_and (as_str (index v "status")) (λ s. str_eq s "available")
    && is_some_and (as_str (index v "resetType")) (λ s. str_eq s "codexRateLimits")

abbrev pub to_list : Values → List Value
to_list nil = []
to_list (cons v vs) = v ∷ to_list vs

-- A set has each identity once.
abbrev pub add_id : Option String → Option (List String) → Option (List String)
add_id (some id) (some ids) = if any (λ x. str_eq x id) ids then some ids else some (id ∷ ids)
add_id _ _ = none

-- The identities as a set, if each row has one.
unfoldable pub ids_of : List Value → Option (List String)
ids_of [] = some []
ids_of (v ∷ vs) =
    let rest = ids_of vs in add_id (filter (λ s. not (str_eq s "")) (as_str (index v "id"))) rest

unfoldable pub times_of : List Value → List ℕ
times_of [] = []
times_of (v ∷ vs) =
    let rest = times_of vs in
    elim (number_to (index v "expiresAt") max_safe) [ none ↦ rest | some t ↦ t ∷ rest ]

-- `Iterator::min`.
abbrev pub earlier : ℕ → Option ℕ → ℕ
earlier t none = t
earlier t (some u) = if leb t u then t else u

unfoldable pub earliest : List ℕ → Option ℕ
earliest [] = none
earliest (t ∷ ts) = let rest = earliest ts in some (earlier t rest)

-- `later v` is `v as f64 > now`.
module _ (later : ℕ → Bool) where
  -- What is left of the one weekly window, and when it resets.
  abbrev pub weekly_pair : Option ℕ → Option ℕ → Option ℕ × Option ℕ
  weekly_pair (some used) (some reset) =
      if later reset then (some (100 - used), some reset) else (none, none)
  weekly_pair _ _ = (none, none)

  abbrev pub weekly_of : List Value → Option ℕ × Option ℕ
  weekly_of (w ∷ []) =
      weekly_pair (number_to (index w "usedPercent") 100) (number_to (index w "resetsAt") max_safe)
  weekly_of _ = (none, none)

  abbrev pub expiry_of : Option ℕ → List ℕ → Option ℕ × Option ℕ
  expiry_of count times =
      if any (λ t. not (later t)) times then (none, none) else (count, earliest times)

  -- Whether the rows account for every credit that is counted.
  abbrev pub is_counted : Option ℕ → List Value → Bool
  is_counted count rows =
      is_some_and count (λ n. n == length rows)
      && is_some_and (ids_of rows) (λ ids. length ids == length rows)
      && all
          (λ v. is_null (index v "expiresAt") || is_some (number_to (index v "expiresAt") max_safe))
          rows

  unfoldable pub credits_of : Option ℕ → Value → Option ℕ × Option ℕ
  unfolding keep ids_of times_of earliest
  credits_of count (array rows) =
      let available = keep is_available (to_list rows) in
      if leb (length (to_list rows)) 1000 && is_counted count available
      then expiry_of count (times_of available)
      else (count, none)
  credits_of count _ = (count, none)

  unfoldable pub summary_of : Value → String → Summary
  unfolding keep bucket_of credits_of
  summary_of raw key =
      let bucket = bucket_of raw in
      let weekly =
        weekly_of (keep is_weekly (index bucket "primary" ∷ index bucket "secondary" ∷ [])) in
      let credits = index raw "rateLimitResetCredits" in
      let (count, expiry) =
        credits_of (number_to (index credits "availableCount") 10000) (index credits "credits") in
      record {
        account_key = key;
        plan = filter (λ s. any (λ p. str_eq p s) plans) (as_str (index bucket "planType"));
        weekly_remaining = weekly.0;
        weekly_resets_at = weekly.1;
        reset_count = count;
        reset_expires_at = expiry;
      }

  abbrev pub key_from : (String → String) → Option String → Option String
  key_from sha256 none = none
  key_from sha256 (some id) = account_key sha256 id

  unfoldable pub summarise : (String → String) → Value → Option Summary
  unfolding account_key bucket_of summary_of
  summarise sha256 raw = elim (key_from sha256 (as_str (index raw "accountId"))) [
    | none ↦ none
    | some key ↦
        if not (is_object (bucket_of raw)) || not (is_codex (field_of (bucket_of raw) "limitId"))
        then none
        else some (summary_of raw key)
  ]
