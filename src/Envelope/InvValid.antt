-- ===== src/Envelope/InvValid.antt =====
-- A classifier that satisfies the invariant passes `valid` of anton-runtime/src/envelope.rs.

use herdr_observatory.Envelope.{Envelope}
use herdr_observatory.Envelope.Frames.{framed}
use herdr_observatory.Envelope.Invariant.{Token, Inv, Ranges}
use herdr_observatory.Envelope.Sizes.{Sizes, Sizes-Frames, Below-containers, base}
use herdr_observatory.Envelope.Valid.{
  valid, bad_token, bad_stack, bad_progress, bad_shape, bad_range, is_container, bottom,
}
use herdr_observatory.Prelude.{
  true, zero, ◌&&◌, ◌==◌, ℕ, suc, ◌≤◌, ◌≡◌, refl, Bool, false, not, ◌||◌, List, [], ◌∷◌, ltb,
  length, any, arith,
}

Ranges-pass :
    (e : Envelope)
    → Ranges e
    → e.lex ≤ 3
    → e.escape ≤ 2
    → e.hex ≤ 3
    → e.utf ≤ 3
    → length e.stack ≤ 128
    → any (λ v. ltb 7 v) e.stack ≡ false
    → bad_range e ≡ false
Ranges-pass e r l x h u d a = ground arith

shape_passes : (e : Envelope) → Sizes e.stack e.roles e.pending e.seen → bad_shape e ≡ false
shape_passes e h = ground arith

-- Without a container nothing has begun, or all of it is over.
bare_progress :
    (e : Envelope) → e.stack ≡ [] → e.lex ≡ 0 → e.started ≡ e.done → bad_progress e ≡ false
bare_progress e s l p = rw s ground arith

no_token_passes : (e : Envelope) (b : Bool) → e.lex ≡ 0 → (not (e.lex == 0) && b) ≡ false
no_token_passes e b h = ground arith

stack_passes :
    (e : Envelope) (phase role : ℕ) (stack roles : List ℕ)
    → e.stack ≡ phase ∷ stack
    → e.roles ≡ role ∷ roles
    → bottom (role ∷ roles) ≡ 1
    → bottom (phase ∷ stack) ≤ 4
    → any (λ v. not (is_container v)) stack ≡ false
    → bad_stack e ≡ false
stack_passes e phase role stack roles s t one four c = rw (s, t) ground arith

progress_passes :
    (e : Envelope) (phase : ℕ) (stack : List ℕ)
    → e.stack ≡ phase ∷ stack
    → e.started ≡ 1
    → e.done ≡ 0
    → bad_progress e ≡ false
progress_passes e phase stack s b g = rw (s, b, g) refl

all_pass :
    (a b c d f g : Bool)
    → a ≡ false
    → b ≡ false
    → c ≡ false
    → d ≡ false
    → f ≡ false
    → g ≡ true
    → (not (a || b || c || d || f) && g) ≡ true
all_pass a b c d f g h i j k l m = ground arith

Token-passes :
    (l phase : ℕ) (stack : List ℕ) (e : Envelope)
    → e.lex ≡ l
    → Token l phase e
    → (not (e.lex == 0) && bad_token (phase ∷ stack) e) ≡ false
Token-passes zero phase stack e h t = ground arith
Token-passes (suc zero) phase stack e h t = ground (arith, t.key_place, t.text_place, t.one_of)
Token-passes (suc (suc zero)) phase stack e h t = ground arith
Token-passes (suc (suc (suc zero))) phase stack e h t = ground arith
Token-passes (suc (suc (suc (suc n)))) phase stack e h t = absurd t

rest_is_quiet :
    (l phase : ℕ) (e : Envelope)
    → e.lex ≡ l
    → Token l phase e
    → (e.lex == 1 || (e.escape == 0 && e.utf == 0 && e.hex == 0)) ≡ true
rest_is_quiet zero phase e h t = ground arith
rest_is_quiet (suc zero) phase e h t = ground arith
rest_is_quiet (suc (suc zero)) phase e h t = ground arith
rest_is_quiet (suc (suc (suc zero))) phase e h t = ground arith
rest_is_quiet (suc (suc (suc (suc n)))) phase e h t = absurd t

Token-bounds :
    (l phase : ℕ) (e : Envelope)
    → Token l phase e
    → (l ≤ 3) × (e.escape ≤ 2) × (e.hex ≤ 3) × (e.utf ≤ 3)
Token-bounds zero phase e t = ground arith
Token-bounds (suc zero) phase e t = (omega arith, t.escape_le, t.hex_le, t.utf_le)
Token-bounds (suc (suc zero)) phase e t = ground arith
Token-bounds (suc (suc (suc zero))) phase e t = ground arith
Token-bounds (suc (suc (suc (suc n)))) phase e t = absurd t

valid_of_framed :
    (stack roles pending seen : List ℕ) (e : Envelope)
    → Inv (framed stack roles pending seen e)
    → valid (framed stack roles pending seen e) ≡ true
unfolding valid
valid_of_framed [] [] [] [] e i =
    let f = framed [] [] [] [] e in
    let (l, (x, u, h), p) = i.progress in
    all_pass (bad_range f) (bad_shape f) (bad_progress f) (bad_stack f) _ _
      (Ranges-pass f i.ranges (ground arith) (ground arith) (ground arith) (ground arith) i.depth
        refl)
      refl (bare_progress f refl l p) refl (no_token_passes f _ l) (ground arith)
valid_of_framed (phase ∷ stack) (role ∷ roles) (p ∷ pending) (s ∷ seen) e i =
    let f = framed (phase ∷ stack) (role ∷ roles) (p ∷ pending) (s ∷ seen) e in
    let sizes = Sizes-Frames (phase ∷ stack) (role ∷ roles) (p ∷ pending) (s ∷ seen) i.frames in
    let (one, four) = base phase role p s stack roles pending seen i.frames.4 i.frames.5 in
    let (begun, going, token) = i.progress in
    let (l, x, h, u) = Token-bounds e.lex phase f token in
    all_pass (bad_range f) (bad_shape f) (bad_progress f) (bad_stack f) _ _
      (Ranges-pass f i.ranges l x h u i.depth sizes.3) (shape_passes f sizes)
      (progress_passes f phase stack refl begun going)
      (stack_passes f phase role stack roles refl refl one four
        (Below-containers stack roles pending seen i.frames.5))
      (Token-passes e.lex phase stack f refl token) (rest_is_quiet e.lex phase f refl token)
valid_of_framed [] [] [] (s ∷ seen) e i = absurd i.frames
valid_of_framed [] [] (p ∷ pending) seen e i = absurd i.frames
valid_of_framed [] (role ∷ roles) pending seen e i = absurd i.frames
valid_of_framed (phase ∷ stack) [] pending seen e i = absurd i.frames
valid_of_framed (phase ∷ stack) (role ∷ roles) [] seen e i = absurd i.frames
valid_of_framed (phase ∷ stack) (role ∷ roles) (p ∷ pending) [] e i = absurd i.frames

pub Inv-valid : (e : Envelope) → Inv e → valid e ≡ true
Inv-valid e i = valid_of_framed e.stack e.roles e.pending e.seen e i
