-- ===== src/Prelude/Options.antt =====
-- Rust's methods of `Option`, and a predicate over what an option holds.
use mathlib.Core.Path.{◌≡◌}
use native.Mathlib.Omega.{arith}
use mathlib.Core.Bool.{Bool, true, false}
use mathlib.Core.Option.{Option, none, some}
use herdr_observatory.Prelude.Tests.{if◌then◌else◌}

module _ {ℓ} {A : Type ℓ} where
  abbrev pub filter : (A → Bool) → Option A → Option A
  filter p none = none
  filter p (some a) = if p a then some a else none

  abbrev pub is_some : Option A → Bool
  is_some none = false
  is_some (some a) = true

  abbrev pub is_none : Option A → Bool
  is_none none = true
  is_none (some a) = false

  abbrev pub is_some_and : Option A → (A → Bool) → Bool
  is_some_and none p = false
  is_some_and (some a) p = p a

  abbrev pub is_none_or : Option A → (A → Bool) → Bool
  is_none_or none p = true
  is_none_or (some a) p = p a

  abbrev pub unwrap_or : Option A → A → A
  unwrap_or none d = d
  unwrap_or (some a) d = a

abbrev pub Holds {ℓ κ} : {A : Type ℓ} → (A → Type κ) → Option A → Type κ
Holds P none = Unit
Holds P (some a) = P a

pub filter-eq_some {ℓ} :
    {A : Type ℓ} (p : A → Bool) (o : Option A) (a : A)
    → filter p o ≡ some a
    → (o ≡ some a) × (p a ≡ true)
filter-eq_some p none a h = cc
filter-eq_some p (some b) a h = ground arith
