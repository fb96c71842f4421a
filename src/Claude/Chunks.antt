-- ===== src/Claude/Chunks.antt =====
-- A line over the limit in anton-runtime/src/claude.rs, read in parts.
use herdr_observatory.Claude.Classifier.{Context, Classifier}
use herdr_observatory.Claude.Classifier.Feed.{feed, byte}
use herdr_observatory.Claude.Reader.{Reader, oversized, fed, taken}
use herdr_observatory.Json.{Value}
use herdr_observatory.Prelude.{
  ℕ, Bool, false, true, ap, sym, ◌∙◌, List, Option, none, some, [], ◌∷◌, ◌++◌, ◌≡◌, refl, not, inl,
  inr, Option-cases,
}

abbrev pub feed_on : Context → List ℕ → Option Classifier → Option Classifier
feed_on x chars none = none
feed_on x chars (some c) = feed x chars c

feed_step :
    (x : Context) (ch : ℕ) (chars : List ℕ) (c : Classifier)
    → feed x (ch ∷ chars) c ≡ feed_on x chars (byte x ch c)
unfolding feed
feed_step x ch chars c = elim (Option-cases (byte x ch c)) [
  | inl e ↦ rw (feed, e) refl
  | inr (d, e) ↦ rw (feed, e) refl
]

fed_on_append :
    (x : Context) (xs ys : List ℕ) (o : Option Classifier)
    → feed_on x (xs ++ ys) o ≡ feed_on x ys (feed_on x xs o)
unfolding feed
fed_on_append x xs ys none = refl
fed_on_append x [] ys (some c) = refl
fed_on_append x (ch ∷ xs) ys (some c) =
    feed_step x ch (xs ++ ys) c
    ∙ fed_on_append x xs ys (byte x ch c)
    ∙ sym (ap (feed_on x ys) (feed_step x ch xs c))

module _ (x : Context) (from_slice : List ℕ → Option Value) where
  split_fed :
      (c : Classifier) (xs ys : List ℕ) (terminated : Bool) (r : Reader)
      → oversized x from_slice ys terminated
          (fed (feed x xs c) false (record r { skipping = true; classifier = none }))
        ≡ fed
            (feed x (xs ++ ys) c)
            terminated
            (record r { skipping = not terminated; classifier = none })
  unfolding oversized
  split_fed c xs ys terminated r = elim (Option-cases (feed x xs c)) [
    | inl e ↦ rw (fed_on_append x xs ys (some c), e) refl
    | inr (d, e) ↦ rw (fed_on_append x xs ys (some c), e) refl
  ]

  -- Reading a line in two parts, cut anywhere, does what reading it in one part does: to the row, to the
  -- classifier that goes on, and to what is skipped.
  pub oversized-append :
      (xs ys : List ℕ) (terminated : Bool) (r : Reader)
      → oversized x from_slice ys terminated (oversized x from_slice xs false r)
        ≡ oversized x from_slice (xs ++ ys) terminated r
  unfolding oversized
  oversized-append xs ys terminated r = elim (Option-cases (taken (not r.skipping) r.classifier)) [
    | inl e ↦ rw (e) refl
    | inr (c, e) ↦ rw (e) (split_fed c xs ys terminated r)
  ]
