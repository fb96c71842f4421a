-- ===== src/Envelope/Sizes.antt =====
-- The vectors of a classifier of anton-runtime/src/envelope.rs that satisfies the invariant: what
-- `valid` asks of them.
use herdr_observatory.Envelope.Invariant.{IsBase, Below, Frames}
use herdr_observatory.Envelope.Valid.{is_container, bottom}
use herdr_observatory.Prelude.{
  ◌⊎◌, ap, ℕ, suc, ◌≤◌, ◌≡◌, refl, Bool, false, not, ◌||◌, List, [], ◌∷◌, ltb, length, any, arith,
}

none_over : (bound n : ℕ) (b : Bool) → n ≤ bound → b ≡ false → (ltb bound n || b) ≡ false
none_over bound n b h e = ground arith

container-le : (phase : ℕ) → (phase ≡ 4) ⊎ (phase ≡ 7) → phase ≤ 7
container-le phase h = ground arith

waits :
    (phase : ℕ) (b : Bool)
    → (phase ≡ 4) ⊎ (phase ≡ 7)
    → b ≡ false
    → (not (is_container phase) || b) ≡ false
waits phase b h e = ground arith

abbrev pub Sizes : List ℕ → List ℕ → List ℕ → List ℕ → Type 0
Sizes stack roles pending seen =
    (length roles ≡ length stack)
    × (length pending ≡ length stack)
    × (length seen ≡ length stack)
    × (any (λ v. ltb 7 v) stack ≡ false)
    × (any (λ v. ltb 3 v) roles ≡ false)
    × (any (λ v. ltb 3 v) pending ≡ false)
    × (any (λ v. ltb 7 v) seen ≡ false)

Sizes-Below :
    (stack roles pending seen : List ℕ)
    → Below stack roles pending seen
    → Sizes stack roles pending seen
Sizes-Below [] [] [] [] h = (refl, refl, refl, refl, refl, refl, refl)
Sizes-Below (phase ∷ stack) (role ∷ roles) (p ∷ pending) (s ∷ seen) h =
    let (a, b, c, d, x, y, z) = Sizes-Below stack roles pending seen h.5 in
    (
      ap suc a,
      ap suc b,
      ap suc c,
      none_over 7 phase (any (λ v. ltb 7 v) stack) (container-le phase h.0) d,
      none_over 3 role (any (λ v. ltb 3 v) roles) h.1 x,
      none_over 3 p (any (λ v. ltb 3 v) pending) h.2 y,
      none_over 7 s (any (λ v. ltb 7 v) seen) h.3 z,
    )
Sizes-Below [] [] [] (s ∷ seen) i = absurd i
Sizes-Below [] [] (p ∷ pending) seen i = absurd i
Sizes-Below [] (role ∷ roles) pending seen i = absurd i
Sizes-Below (phase ∷ stack) [] pending seen i = absurd i
Sizes-Below (phase ∷ stack) (role ∷ roles) [] seen i = absurd i
Sizes-Below (phase ∷ stack) (role ∷ roles) (p ∷ pending) [] i = absurd i

pub Sizes-Frames :
    (stack roles pending seen : List ℕ)
    → Frames stack roles pending seen
    → Sizes stack roles pending seen
Sizes-Frames [] [] [] [] h = (refl, refl, refl, refl, refl, refl, refl)
Sizes-Frames (phase ∷ stack) (role ∷ roles) (p ∷ pending) (s ∷ seen) h =
    let (a, b, c, d, x, y, z) = Sizes-Below stack roles pending seen h.5 in
    (
      ap suc a,
      ap suc b,
      ap suc c,
      none_over 7 phase (any (λ v. ltb 7 v) stack) h.0 d,
      none_over 3 role (any (λ v. ltb 3 v) roles) h.1 x,
      none_over 3 p (any (λ v. ltb 3 v) pending) h.2 y,
      none_over 7 s (any (λ v. ltb 7 v) seen) h.3 z,
    )
Sizes-Frames [] [] [] (s ∷ seen) i = absurd i
Sizes-Frames [] [] (p ∷ pending) seen i = absurd i
Sizes-Frames [] (role ∷ roles) pending seen i = absurd i
Sizes-Frames (phase ∷ stack) [] pending seen i = absurd i
Sizes-Frames (phase ∷ stack) (role ∷ roles) [] seen i = absurd i
Sizes-Frames (phase ∷ stack) (role ∷ roles) (p ∷ pending) [] i = absurd i

-- The innermost containers wait, and the outermost is an object in role 1.
pub Below-containers :
    (stack roles pending seen : List ℕ)
    → Below stack roles pending seen
    → any (λ v. not (is_container v)) stack ≡ false
Below-containers [] [] [] [] h = refl
Below-containers (phase ∷ stack) (role ∷ roles) (p ∷ pending) (s ∷ seen) h =
    waits phase (any (λ v. not (is_container v)) stack) h.0
      (Below-containers stack roles pending seen h.5)
Below-containers [] [] [] (s ∷ seen) i = absurd i
Below-containers [] [] (p ∷ pending) seen i = absurd i
Below-containers [] (role ∷ roles) pending seen i = absurd i
Below-containers (phase ∷ stack) [] pending seen i = absurd i
Below-containers (phase ∷ stack) (role ∷ roles) [] seen i = absurd i
Below-containers (phase ∷ stack) (role ∷ roles) (p ∷ pending) [] i = absurd i

pub base :
    (phase role p s : ℕ) (stack roles pending seen : List ℕ)
    → IsBase stack phase role
    → Below stack roles pending seen
    → (bottom (role ∷ roles) ≡ 1) × (bottom (phase ∷ stack) ≤ 4)
base phase role p s [] [] [] [] b h = b
base phase role p s (x ∷ stack) (y ∷ roles) (z ∷ pending) (w ∷ seen) b h =
    base x y z w stack roles pending seen h.4 h.5
base phase role p s [] [] [] (w ∷ seen) b i = absurd i
base phase role p s [] [] (z ∷ pending) seen b i = absurd i
base phase role p s [] (y ∷ roles) pending seen b i = absurd i
base phase role p s (x ∷ stack) [] pending seen b i = absurd i
base phase role p s (x ∷ stack) (y ∷ roles) [] seen b i = absurd i
base phase role p s (x ∷ stack) (y ∷ roles) (z ∷ pending) [] b i = absurd i
