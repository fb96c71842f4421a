-- ===== src/Allowances/Fresh.antt =====
-- What holds of every summary that `summarise` of anton-runtime/src/allowances.rs gives.
use herdr_observatory.Allowances.{
  field_of, is_codex, earlier, expiry_of, key_from, as_u64, to_list, max_safe, plans, is_weekly,
  is_available, as_str, is_counted, number_to, keep, bucket_of, times_of, weekly_of, weekly_pair,
  credits_of, earliest, summary_of, summarise, Summary,
}
use herdr_observatory.Json.{is_object, Value, array, index}
use herdr_observatory.Prelude.{
  if_elim, ==_iff, not-eq_false, ap, ||-eq_false, ◌<◌, &&-eq_true, false, true, ◌≡◌, ◌&&◌, ◌==◌,
  arith, Bool-cases, ◌≤◌, Holds, inl, inr, none, some, [], ◌∷◌, not, refl, if◌then◌else◌, ◌||◌,
  length, leb, filter, str_eq, is_some_and, any, Option, List, String, Bool, ℕ,
}
use mathlib.Core.Path.{subst}

-- What is left of the week, and a reset that is yet to come; or neither.
abbrev pub WeeklyOk : (ℕ → Bool) → Option ℕ → Option ℕ → Type 0
WeeklyOk later none none = Unit
WeeklyOk later (some left) (some reset) = (left ≤ 100) × (later reset ≡ true)
WeeklyOk later _ _ = ⊥

-- The credits that are left, and the time when the next one expires, which is yet to come.
abbrev pub CreditsOk : (ℕ → Bool) → Option ℕ → Option ℕ → Type 0
CreditsOk later count none = Holds (λ n. n ≤ 10000) count
CreditsOk later none (some t) = ⊥
CreditsOk later (some n) (some t) = (n ≤ 10000) × (later t ≡ true) × (0 < n)

pub record Fresh (later : ℕ → Bool) (s : Summary) : Type 0 where
  pub plan_known : Holds (λ p. any (λ x. str_eq x p) plans ≡ true) s.plan
  pub weekly : WeeklyOk later s.weekly_remaining s.weekly_resets_at
  pub credits : CreditsOk later s.reset_count s.reset_expires_at

first_holds : (a b c : Bool) → (a && b && c) ≡ true → a ≡ true
first_holds a b c h = ground arith

module _ (later : ℕ → Bool) where
  weekly_pair-Ok :
      (used reset : Option ℕ)
      → WeeklyOk later (weekly_pair later used reset).0 (weekly_pair later used reset).1
  weekly_pair-Ok (some used) (some reset) = elim (Bool-cases (later reset)) [
    | inl h ↦ rw h (omega arith, h)
    | inr h ↦ rw h tt
  ]
  weekly_pair-Ok (some used) none = tt
  weekly_pair-Ok none reset = tt

  weekly_of-Ok : (ws : List Value) → WeeklyOk later (weekly_of later ws).0 (weekly_of later ws).1
  weekly_of-Ok [] = tt
  weekly_of-Ok (w ∷ []) =
      weekly_pair-Ok (number_to (index w "usedPercent") 100)
        (number_to (index w "resetsAt") max_safe)
  weekly_of-Ok (w ∷ v ∷ ws) = tt

  earlier-Later :
      (t : ℕ) (o : Option ℕ)
      → later t ≡ true
      → Holds (λ u. later u ≡ true) o
      → later (earlier t o) ≡ true
  earlier-Later t none a b = a
  earlier-Later t (some u) a b = if_elim (λ v. later v ≡ true) (leb t u) (λ _. a) (λ _. b)

  earliest-Later :
      (ts : List ℕ)
      → any (λ t. not (later t)) ts ≡ false
      → Holds (λ u. later u ≡ true) (earliest ts)
  unfolding earliest
  earliest-Later [] h = tt
  earliest-Later (t ∷ ts) h =
      let (here, there) = ||-eq_false (not (later t)) (any (λ t. not (later t)) ts) h in
      earlier-Later t (earliest ts) (not-eq_false (later t) here) (earliest-Later ts there)

  -- A time can only be there if a row is.
  times_of-some : (rows : List Value) (t : ℕ) → earliest (times_of rows) ≡ some t → 0 < length rows
  unfolding earliest times_of
  times_of-some [] t e = cc
  times_of-some (v ∷ vs) t e = omega arith

  credits_ok :
      (count : Option ℕ) (expiry : Option ℕ) (n : ℕ)
      → Holds (λ n. n ≤ 10000) count
      → count ≡ some n
      → ((t : ℕ) → expiry ≡ some t → 0 < n)
      → Holds (λ t. later t ≡ true) expiry
      → CreditsOk later count expiry
  credits_ok count none n c e some_row l = c
  credits_ok none (some t) n c e some_row l = cc
  credits_ok (some m) (some t) n c e some_row l =
      let same : m ≡ n = cc in (c, l, rw same (some_row t refl))

  counted : (count : Option ℕ) (n : ℕ) → is_some_and count (λ m. m == n) ≡ true → count ≡ some n
  counted none n h = cc
  counted (some m) n h = ap some ((==_iff m n).0 h)

  expiry_of-Ok :
      (count : Option ℕ) (rows : List Value)
      → Holds (λ n. n ≤ 10000) count
      → is_counted later count rows ≡ true
      → CreditsOk later
          (expiry_of later count (times_of rows)).0
          (expiry_of later count (times_of rows)).1
  expiry_of-Ok count rows c h = elim (Bool-cases (any (λ t. not (later t)) (times_of rows))) [
    | inl p ↦ rw p tt
    | inr p ↦
        let all_counted = first_holds _ _ _ h in
        rw p (
          credits_ok count (earliest (times_of rows)) (length rows) c
            (counted count (length rows) all_counted) (times_of-some rows)
            (earliest-Later (times_of rows) p))
  ]

  credits_of-Ok :
      (count : Option ℕ) (v : Value)
      → Holds (λ n. n ≤ 10000) count
      → CreditsOk later (credits_of later count v).0 (credits_of later count v).1
  unfolding credits_of
  credits_of-Ok count (array rows) c =
      let available = keep is_available (to_list rows) in
      elim (Bool-cases (leb (length (to_list rows)) 1000 && is_counted later count available)) [
        | inl h ↦ rw h (
            expiry_of-Ok count available c
              (&&-eq_true (leb (length (to_list rows)) 1000) (is_counted later count available)
                h).1)
        | inr h ↦ rw h c
      ]
  credits_of-Ok count _ c = c

  number_to-le : (v : Value) (n : ℕ) → Holds (λ m. m ≤ n) (number_to v n)
  number_to-le v n = on (as_u64 v)
    where
      on : (o : Option ℕ) → Holds (λ m. m ≤ n) (filter (λ m. leb m n) o)
      on none = tt
      on (some m) = ground arith

  plan-Known :
      (o : Option String)
      → Holds
          (λ p. any (λ x. str_eq x p) plans ≡ true)
          (filter (λ s. any (λ p. str_eq p s) plans) o)
  plan-Known none = tt
  plan-Known (some s) = elim (Bool-cases (any (λ p. str_eq p s) plans)) [
    | inl h ↦ rw h h
    | inr h ↦ rw h tt
  ]

  summary_of-Fresh : (raw : Value) (key : String) → Fresh later (summary_of later raw key)
  unfolding summary_of
  summary_of-Fresh raw key =
      let bucket = bucket_of raw in
      let credits = index raw "rateLimitResetCredits" in
      record {
        plan_known = plan-Known (as_str (index bucket "planType"));
        weekly =
            weekly_of-Ok (keep is_weekly (index bucket "primary" ∷ index bucket "secondary" ∷ []));
        credits =
            credits_of-Ok (number_to (index credits "availableCount") 10000)
              (index credits "credits") (number_to-le (index credits "availableCount") 10000);
      }

  given :
      (raw : Value) (o : Option String) (b : Bool) (s : Summary)
      → elim o [ none ↦ none | some key ↦ if b then none else some (summary_of later raw key) ]
        ≡ some s
      → Fresh later s
  given raw (some key) false s eq =
      let same : summary_of later raw key ≡ s = cc in
      subst (Fresh later) same (summary_of-Fresh raw key)
  given raw (some key) true s eq = cc
  given raw none b s eq = cc

-- Every summary has a known plan if any; what is left of the week, 100 at most, together with a
-- reset that is yet to come, or neither; at most 10000 credits; and an expiry only if it is yet
-- to come and some credit is counted.
pub summarise-Fresh :
    (sha256 : String → String) (later : ℕ → Bool) (raw : Value) (s : Summary)
    → summarise later sha256 raw ≡ some s
    → Fresh later s
unfolding summarise
summarise-Fresh sha256 later raw s eq =
    given later raw (key_from later sha256 (as_str (index raw "accountId")))
      (not (is_object (bucket_of raw)) || not (is_codex (field_of (bucket_of raw) "limitId"))) s eq
