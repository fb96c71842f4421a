-- ===== src/Claude/Classifier/Spelled.antt =====
-- Which keys the classifier of anton-runtime/src/claude/classifier.rs keeps bytes of.
use herdr_observatory.Claude.Blocks.{nodes}
use herdr_observatory.Claude.Classifier.Keys.{
  spells, viable, match_escape, escape_of, starts_lower, to_lower,
}
use herdr_observatory.Claude.Classifier.Validate.{longest, longer, name_limit}
use herdr_observatory.Common.{codes}
use herdr_observatory.Prelude.{
  ℕ, true, subst, &&-eq_true, if_elim, ◌<◌, suc, str_eq, length, List, String, Option, none, some,
  [], ◌∷◌, ◌≡◌, not, inl, inr, Option-cases, Bool-cases, arith, ◌≤◌, Holds, ◌&&◌, ◌==◌, any, ◌*◌,
  ◌+◌,
}

abbrev Matches : ℕ → ℕ → Option (List ℕ) → Type 0
Matches size letters o = Holds (λ rest. size ≤ letters + length rest) o

one_more :
    (size letters : ℕ) (o : Option (List ℕ))
    → Matches size letters o
    → Matches (suc size) (suc letters) o
one_more size letters none h = tt
one_more size letters (some rest) h = omega (arith, h)

match_escape-length : (es raw : List ℕ) → Matches (length raw) (length es) (match_escape es raw)
match_escape-length [] raw = omega arith
match_escape-length (e ∷ es) [] = omega arith
match_escape-length (e ∷ es) (r ∷ rs) =
    if_elim (Matches (suc (length rs)) (suc (length es))) (to_lower e == to_lower r)
      (λ _. one_more (length rs) (length es) (match_escape es rs) (match_escape-length es rs))
      (λ _. tt)

spells-length : (key raw : List ℕ) → spells key raw ≡ true → length raw ≤ 6 * length key
unfolding spells
spells-length key [] h = omega arith
spells-length [] (c ∷ raw) h = absurd (ground (arith, h))
spells-length (want ∷ key) (c ∷ raw) h = elim (Bool-cases (not (c == b'\\'))) [
  | inl p ↦
      let q = &&-eq_true (c == want) (spells key raw) (rw p at h) in
      omega (arith, spells-length key raw (q.1))
  | inr p ↦ elim (Option-cases (match_escape (escape_of want) raw)) [
    | inl e ↦ absurd (ground (arith, rw (p, e) at h))
    | inr (rest, e) ↦
        let q = &&-eq_true (starts_lower raw) (spells key rest) (rw (p, e) at h) in
        let m = subst (Matches (length raw) 5) e (match_escape-length (escape_of want) raw) in
        omega (arith, m, spells-length key rest (q.1))
  ]
]

longer-le : (a b : ℕ) → (a ≤ longer a b) × (b ≤ longer a b)
longer-le a b = (ground arith, ground arith)

any-longest :
    (parent : ℕ) (raw : List ℕ) (paths : List (ℕ × String))
    → any (λ (owner, key). owner == parent && not (str_eq key "") && spells (codes key) raw) paths
      ≡ true
    → length raw ≤ 6 * longest paths
unfolding longest
any-longest parent raw [] h = absurd (ground (arith, h))
any-longest parent raw ((owner, key) ∷ paths) h =
    let k = longer-le (length (codes key)) (longest paths) in
    elim (Bool-cases (owner == parent && not (str_eq key "") && spells (codes key) raw)) [
      | inl p ↦ omega (
        arith,
        spells-length (codes key) raw
            ((&&-eq_true (owner == parent && not (str_eq key "")) (spells (codes key) raw) p).1),
        k.0,
      )
      | inr p ↦ omega (arith, any-longest parent raw paths (rw p at h), k.1)
    ]

-- The bytes of a key that are kept, at whatever parent and however the key is escaped, are fewer than
-- `NAME`, one more than the longest consumed key written in escapes.
pub viable-name_limit :
    (parent : ℕ) (raw : List ℕ) → viable parent raw ≡ true → length raw < name_limit
unfolding viable name_limit
viable-name_limit parent raw h = omega (arith, any-longest parent raw nodes h)
