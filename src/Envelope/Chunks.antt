-- ===== src/Envelope/Chunks.antt =====
-- The loop of `feed` of anton-runtime/src/envelope.rs on a sequence of bytes that is cut in two:
-- the fuel, the round and the index do not matter, and the second part goes on where the first
-- one stopped.
use herdr_observatory.Envelope.{Envelope, Round, read, again, refuse, panic}
use herdr_observatory.Envelope.Feed.{no_fuel, panicked, rejected, fed, Fed, loop}
use herdr_observatory.Envelope.Grammar.{round}
use herdr_observatory.Envelope.Invariant.{Inv}
use herdr_observatory.Envelope.Total.{round-Left, Enough, Left}
use herdr_observatory.Prelude.{
  &&-eq_true, ◌==◌, ◌%◌, ap, arith, if_elim, sym, ◌∙◌, inl, length, ◌++◌, [], false, ◌≡◌, Bool, ◌*◌,
  suc, ◌∷◌, ◌+◌, List, ℕ, refl, zero, inr, ◌&&◌,
}

-- A clock whose deadline never passes.
abbrev pub in_time : ℕ → Bool
in_time k = false

-- What the rest of the loop does after a round, on some fuel.
abbrev pub after : ℕ → ℕ → ℕ → ℕ → List ℕ → Round → Fed
after fuel k index ch bytes r = elim r [
  | read e ↦ loop fuel in_time (k + 1) (index + 1) bytes e
  | again e ↦ loop fuel in_time (k + 1) index (ch ∷ bytes) e
  | refuse ↦ rejected
  | panic ↦ panicked
]

pub loop-step :
    (fuel k index ch : ℕ) (bytes : List ℕ) (e : Envelope)
    → loop (suc fuel) in_time k index (ch ∷ bytes) e ≡ after fuel k index ch bytes (round ch e)
unfolding loop
loop-step fuel k index ch bytes e =
    if_elim (λ r. r ≡ after fuel k index ch bytes (round ch e)) (index % 1024 == 0 && false)
      (λ h. cc ((&&-eq_true (index % 1024 == 0) false h).1)) (λ _. refl)

pub loop-empty : (fuel k index : ℕ) (e : Envelope) → loop (suc fuel) in_time k index [] e ≡ fed e
unfolding loop
loop-empty fuel k index e = refl

no_fuel_left : (bytes : List ℕ) (e : Envelope) → Enough 0 bytes e → ⊥
no_fuel_left bytes e (inl a) = omega arith
no_fuel_left bytes e (inr a) = omega arith

module _ (fuel fuel' : ℕ)
    (ih : (k k' index index' : ℕ) (bytes : List ℕ) (e : Envelope)
      → Inv e
      → Enough fuel bytes e
      → Enough fuel' bytes e
      → loop fuel in_time k index bytes e ≡ loop fuel' in_time k' index' bytes e) where
  after-same :
      (k k' index index' ch : ℕ) (bytes : List ℕ) (r : Round)
      → Left fuel ch bytes r
      → Left fuel' ch bytes r
      → after fuel k index ch bytes r ≡ after fuel' k' index' ch bytes r
  after-same k k' index index' ch bytes (read e) (i, a) (j, b) =
      ih (k + 1) (k' + 1) (index + 1) (index' + 1) bytes e i a b
  after-same k k' index index' ch bytes (again e) (i, a) (j, b) =
      ih (k + 1) (k' + 1) index index' (ch ∷ bytes) e i a b
  after-same k k' index index' ch bytes refuse a b = refl
  after-same k k' index index' ch bytes panic a b = refl

loop-same :
    (fuel fuel' k k' index index' : ℕ) (bytes : List ℕ) (e : Envelope)
    → Inv e
    → Enough fuel bytes e
    → Enough fuel' bytes e
    → loop fuel in_time k index bytes e ≡ loop fuel' in_time k' index' bytes e
loop-same zero fuel' k k' index index' bytes e i a b = absurd (no_fuel_left bytes e a)
loop-same (suc fuel) zero k k' index index' bytes e i a b = absurd (no_fuel_left bytes e b)
loop-same (suc fuel) (suc fuel') k k' index index' [] e i a b =
    loop-empty fuel k index e ∙ sym (loop-empty fuel' k' index' e)
loop-same (suc fuel) (suc fuel') k k' index index' (ch ∷ bytes) e i a b =
    loop-step fuel k index ch bytes e
    ∙ after-same fuel fuel' (loop-same fuel fuel') k k' index index' ch bytes (round ch e)
        (round-Left fuel ch bytes e i a) (round-Left fuel' ch bytes e i b)
    ∙ sym (loop-step fuel' k' index' ch bytes e)

-- To go on with more bytes where a run ended.
abbrev pub go_on : List ℕ → Fed → Fed
go_on ys (fed e) = loop (2 * length ys + 1) in_time 0 0 ys e
go_on ys rejected = rejected
go_on ys panicked = panicked
go_on ys no_fuel = no_fuel

module _ (fuel fuel' : ℕ) (ys : List ℕ)
    (ih : (k k' index index' : ℕ) (xs : List ℕ) (e : Envelope)
      → Inv e
      → Enough fuel (xs ++ ys) e
      → Enough fuel' xs e
      → loop fuel in_time k index (xs ++ ys) e ≡ go_on ys (loop fuel' in_time k' index' xs e)) where
  after-append :
      (k k' index index' ch : ℕ) (xs : List ℕ) (r : Round)
      → Left fuel ch (xs ++ ys) r
      → Left fuel' ch xs r
      → after fuel k index ch (xs ++ ys) r ≡ go_on ys (after fuel' k' index' ch xs r)
  after-append k k' index index' ch xs (read e) (i, a) (j, b) =
      ih (k + 1) (k' + 1) (index + 1) (index' + 1) xs e i a b
  after-append k k' index index' ch xs (again e) (i, a) (j, b) =
      ih (k + 1) (k' + 1) index index' (ch ∷ xs) e i a b
  after-append k k' index index' ch xs refuse a b = refl
  after-append k k' index index' ch xs panic a b = refl

pub loop-append :
    (fuel fuel' k k' index index' : ℕ) (xs ys : List ℕ) (e : Envelope)
    → Inv e
    → Enough fuel (xs ++ ys) e
    → Enough fuel' xs e
    → loop fuel in_time k index (xs ++ ys) e ≡ go_on ys (loop fuel' in_time k' index' xs e)
loop-append fuel zero k k' index index' xs ys e i a b = absurd (no_fuel_left xs e b)
loop-append fuel (suc fuel') k k' index index' [] ys e i a b =
    loop-same fuel (2 * length ys + 1) k 0 index 0 ys e i a (inl (omega arith))
    ∙ sym (ap (go_on ys) (loop-empty fuel' k' index' e))
loop-append zero (suc fuel') k k' index index' (ch ∷ xs) ys e i a b =
    absurd (no_fuel_left (ch ∷ xs ++ ys) e a)
loop-append (suc fuel) (suc fuel') k k' index index' (ch ∷ xs) ys e i a b =
    loop-step fuel k index ch (xs ++ ys) e
    ∙ after-append fuel fuel' ys
        (λ k k' index index' xs. loop-append fuel fuel' k k' index index' xs ys) k k' index index'
        ch xs (round ch e) (round-Left fuel ch (xs ++ ys) e i a) (round-Left fuel' ch xs e i b)
    ∙ ap (go_on ys) (sym (loop-step fuel' k' index' ch xs e))
