-- ===== src/BTreeMap.antt =====
-- The part of Rust's `BTreeMap<String, V>` that the runtime uses, as an association list. The
-- program never depends on the order of the entries, so a new key goes to the end.
use herdr_observatory.Prelude.{
  suc, String, ◌≡◌, refl, inl, inr, Option, none, some, List, [], ◌∷◌, arith, str_eq, eq_iff,
  if◌then◌else◌, Bool-cases, length, All,
}
use mathlib.Core.Path.{subst₂}

abbrev pub BTreeMap {ℓ} : Type ℓ → Type ℓ
BTreeMap V = List (String × V)

module _ {ℓ} {V : Type ℓ} where
  unfoldable pub get : String → BTreeMap V → Option V
  get k [] = none
  get k ((j, v) ∷ m) = if str_eq j k then some v else get k m

  unfoldable pub insert : String → V → BTreeMap V → BTreeMap V
  insert k v [] = (k, v) ∷ []
  insert k v ((j, w) ∷ m) = if str_eq j k then (k, v) ∷ m else (j, w) ∷ insert k v m

  pub get-insert :
      (k j : String) (v : V) (m : BTreeMap V)
      → get j (insert k v m) ≡ (if str_eq k j then some v else get j m)
  unfolding get insert
  get-insert k j v [] = refl
  get-insert k j v ((i, w) ∷ m) =
      ground (arith, eq_iff k j, eq_iff i k, eq_iff i j, get-insert k j v m)

  -- A key that is not there makes the map one longer.
  pub length-insert :
      (k : String) (v : V) (m : BTreeMap V)
      → get k m ≡ none
      → length (insert k v m) ≡ suc (length m)
  unfolding get insert
  length-insert k v [] h = refl
  length-insert k v ((j, w) ∷ m) h = ground (arith, length-insert k v m)

module _ {ℓ κ} {V : Type ℓ} (P : String × V → Type κ) (k : String) (v : V) where
  pub All-insert : (m : BTreeMap V) → P (k, v) → All P m → All P (insert k v m)
  unfolding insert
  All-insert [] p h = (p, tt)
  All-insert ((j, w) ∷ m) p h = elim (Bool-cases (str_eq j k)) [
    | inl e ↦ rw e (p, h.1)
    | inr e ↦ rw e (h.0, All-insert m p h.1)
  ]

module _ {ℓ κ} {V : Type ℓ} (P : String × V → Type κ) (k : String) where
  -- What holds of every entry holds of the one that a look-up finds.
  pub All-get : (m : BTreeMap V) {v : V} → All P m → get k m ≡ some v → P (k, v)
  unfolding get
  All-get [] h e = cc
  All-get ((j, w) ∷ m) {v} h e = elim (Bool-cases (str_eq j k)) [
    | inl q ↦
        let same : some w ≡ some v = rw q at e in
        let wv : w ≡ v = cc in subst₂ (λ a b. P (a, b)) ((eq_iff j k).0 q) wv h.0
    | inr q ↦ All-get m h.1 (rw q at e)
  ]
