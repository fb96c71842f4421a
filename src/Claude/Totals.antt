-- ===== src/Claude/Totals.antt =====
-- The sums of `ClaudeCursor::totals` in anton-runtime/src/claude.rs.
use herdr_observatory.Claude.{Counters, ClaudeCursor}
use herdr_observatory.Claude.Cursor.{totals_of, open_usage, totals, sum, sum_on}
use herdr_observatory.Common.{max_safe}
use herdr_observatory.Prelude.{
  refl, none, inr, inl, Option-cases, is_some, ◌≤◌, ◌+◌, arith, ◌≡◌, some, [], ◌∷◌, true, Option, ℕ,
}

sum_two : (x y n : ℕ) → sum (x ∷ y ∷ []) ≡ some n → (x + y ≡ n) × (x + y ≤ max_safe)
unfolding sum sum_on
sum_two x y n h = ground (arith, h)

sum_two_of : (x y : ℕ) → x + y ≤ max_safe → sum (x ∷ y ∷ []) ≡ some (x + y)
unfolding sum sum_on
sum_two_of x y h = ground (arith, h)

sum_three : (x y z n : ℕ) → sum (x ∷ y ∷ z ∷ []) ≡ some n → x + y + z ≤ max_safe
unfolding sum sum_on
sum_three x y z n h = ground (arith, h)

pub sum_three_of : (x y z : ℕ) → x + y + z ≤ max_safe → sum (x ∷ y ∷ z ∷ []) ≡ some (x + y + z)
unfolding sum sum_on
sum_three_of x y z h = ground (arith, h)

pub context_fits : (x y z : ℕ) → is_some (sum (x ∷ y ∷ z ∷ [])) ≡ true → x + y + z ≤ max_safe
context_fits x y z h = elim (Option-cases (sum (x ∷ y ∷ z ∷ []))) [
  | inl e ↦ absurd (ground (arith, rw e at h))
  | inr (n, e) ↦ sum_three x y z n e
]

-- Each sum, and the context, fits a number that JSON keeps exact.
abbrev pub Fits : ClaudeCursor → Type 0
Fits c =
    let u = open_usage c.open_group in
    (c.input + u.at0 ≤ max_safe)
    × (c.output + u.at1 ≤ max_safe)
    × (c.cache_read + u.at2 ≤ max_safe)
    × (c.cache_creation + u.at3 ≤ max_safe)
    × ((c.input + u.at0) + (c.cache_read + u.at2) + (c.cache_creation + u.at3) ≤ max_safe)

-- The closed groups and the open one.
abbrev pub counted : ClaudeCursor → Counters
counted c =
    let u = open_usage c.open_group in
    record {
      at0 = c.input + u.at0;
      at1 = c.output + u.at1;
      at2 = c.cache_read + u.at2;
      at3 = c.cache_creation + u.at3;
    }

totals_of-some :
    (a b d k : ℕ)
    → a + d + k ≤ max_safe
    → totals_of (some a) (some b) (some d) (some k)
      ≡ some (record { at0 = a; at1 = b; at2 = d; at3 = k })
totals_of-some a b d k all = ground (arith, sum_three_of a d k all)

pub totals-Fits : (c : ClaudeCursor) → Fits c → totals c ≡ some (counted c)
unfolding totals
totals-Fits c (a, b, d, k, all) =
    let u = open_usage c.open_group in
    rw
      (
        sum_two_of c.input u.at0 a,
        sum_two_of c.output u.at1 b,
        sum_two_of c.cache_read u.at2 d,
        sum_two_of c.cache_creation u.at3 k,
        totals_of-some (c.input + u.at0) (c.output + u.at1) (c.cache_read + u.at2)
            (c.cache_creation + u.at3) all,
      )
      refl

is_some-totals_of :
    (a b d k : Option ℕ)
    → is_some (totals_of a b d k) ≡ true
    → (x : ℕ) × (y : ℕ) × (z : ℕ) × (w : ℕ) × (a ≡ some x)
      × (b ≡ some y)
      × (d ≡ some z)
      × (k ≡ some w)
      × (is_some (sum (x ∷ z ∷ w ∷ [])) ≡ true)
is_some-totals_of (some x) (some y) (some z) (some w) h =
    (x, y, z, w, refl, refl, refl, refl, ground (arith, h))
is_some-totals_of none _ _ _ h = absurd (ground (arith, h))
is_some-totals_of (some x) none _ _ h = absurd (ground (arith, h))
is_some-totals_of (some x) (some y) none _ h = absurd (ground (arith, h))
is_some-totals_of (some x) (some y) (some z) none h = absurd (ground (arith, h))

pub Fits-totals : (c : ClaudeCursor) → is_some (totals c) ≡ true → Fits c
unfolding totals
Fits-totals c h =
    let u = open_usage c.open_group in
    let (x, y, z, w, a, b, d, k, all) =
      is_some-totals_of (sum (c.input ∷ u.at0 ∷ [])) (sum (c.output ∷ u.at1 ∷ []))
        (sum (c.cache_read ∷ u.at2 ∷ [])) (sum (c.cache_creation ∷ u.at3 ∷ [])) h in
    let (xe, xl) = sum_two c.input u.at0 x a in
    let (ye, yl) = sum_two c.output u.at1 y b in
    let (ze, zl) = sum_two c.cache_read u.at2 z d in
    let (we, wl) = sum_two c.cache_creation u.at3 w k in
    (xl, yl, zl, wl, rw (xe, ze, we) (context_fits x z w all))
