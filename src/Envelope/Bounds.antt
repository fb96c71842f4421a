-- ===== src/Envelope/Bounds.antt =====
-- The bounds of what anton-runtime/src/envelope.rs sets outside a string.
use herdr_observatory.Common.{is_digit}
use herdr_observatory.Envelope.{after_value}
use herdr_observatory.Envelope.Grammar.{words, next_stage, child_role}
use herdr_observatory.Envelope.Invariant.{IsBase}
use herdr_observatory.Envelope.Valid.{takes_value, word_length}
use herdr_observatory.Prelude.{
  ℕ, zero, suc, ◌+◌, ◌≤◌, ◌<◌, ◌≡◌, ◌⊎◌, refl, Bool, true, false, ◌&&◌, ◌||◌, Option, some, List,
  [], ◌∷◌, ◌==◌, leb, length, get_elem?, arith, if◌then◌else◌, if_elim, Holds,
}

pub word_at :
    (literal : ℕ)
    → literal ≤ 2
    → (word : List ℕ) × (get_elem? words literal ≡ some word) × (length word ≡ word_length literal)
word_at zero h = (_, refl, refl)
word_at (suc zero) h = (_, refl, refl)
word_at (suc (suc zero)) h = (_, refl, refl)
word_at (suc (suc (suc n))) h = absurd (omega arith)

abbrev Small : Option ℕ → Type 0
Small = Holds (λ n. n ≤ 8)

kept_stage :
    (stage : ℕ) (b : Bool) → ((stage == 2 || stage == 4 || stage == 7) && b) ≡ true → stage ≤ 8
kept_stage stage b h = ground arith

pub next_stage-le : (stage ch : ℕ) → Holds (λ n. n ≤ 8) (next_stage stage ch)
unfolding next_stage
next_stage-le stage ch =
    if_elim Small (stage == 0 && ch == b'0') (λ _. omega arith)
      λ _.
        if_elim Small (stage == 0 && leb b'1' ch && leb ch b'9') (λ _. omega arith)
          λ _.
            if_elim Small ((stage == 2 || stage == 4 || stage == 7) && is_digit ch)
              (λ h. kept_stage stage _ h)
              λ _.
                if_elim Small ((stage == 1 || stage == 2) && ch == b'.') (λ _. omega arith)
                  λ _.
                    if_elim Small (stage == 3 && is_digit ch) (λ _. omega arith)
                      λ _.
                        if_elim Small
                          ((stage == 1 || stage == 2 || stage == 4) && (ch == b'e' || ch == b'E'))
                          (λ _. omega arith)
                          λ _.
                            if_elim Small (stage == 5 && (ch == b'+' || ch == b'-'))
                              (λ _. omega arith)
                              λ _.
                                if_elim Small ((stage == 5 || stage == 6) && is_digit ch)
                                  (λ _. omega arith) (λ _. tt)

pub IsBase-comma :
    (stack : List ℕ) (phase role : ℕ)
    → (phase == 4 || phase == 7) ≡ true
    → IsBase stack phase role
    → IsBase stack (if phase == 4 then 1 else 6) role
IsBase-comma [] phase role c h = ground arith
IsBase-comma (x ∷ stack) phase role c h = tt

pub IsBase-low :
    (stack : List ℕ) (phase n role : ℕ) → n ≤ 4 → IsBase stack phase role → IsBase stack n role
IsBase-low [] phase n role c h = (h.0, c)
IsBase-low (x ∷ stack) phase n role c h = tt

pub after_value-container :
    (phase : ℕ) → takes_value phase ≡ true → (after_value phase ≡ 4) ⊎ (after_value phase ≡ 7)
after_value-container phase h = ground arith

pub takes_value-le : (phase : ℕ) → takes_value phase ≡ true → 3 ≤ phase
takes_value-le phase h = ground arith

pub word_length-le : (literal : ℕ) → word_length literal ≤ 5
word_length-le literal = ground arith

pub next_letter : (i n m : ℕ) → n ≡ m → i < m → (i + 1 == n) ≡ false → i + 1 < m
next_letter i n m e h more = ground arith

pub flag-le : (b : Bool) → (if b then 1 else 0) ≤ 1
flag-le b = ground arith

pub all_names-le : (b : Bool) → (if b then 8191 else 0) ≤ 8191
all_names-le b = ground arith

pub comma-le : (phase : ℕ) → (if phase == 4 then 1 else 6) ≤ 7
comma-le phase = ground arith

pub IsBase-after :
    (stack : List ℕ) (phase role : ℕ)
    → 3 ≤ phase
    → IsBase stack phase role
    → IsBase stack (after_value phase) role
IsBase-after [] phase role a h = ground arith
IsBase-after (x ∷ stack) phase role a h = tt

pub word_length-lt : (i l : ℕ) → i ≡ 1 → i < word_length l
word_length-lt i l h = ground arith

pub opening-le : (b : Bool) → (if b then 0 else 5) ≤ 7
opening-le b = ground arith

pub child_role-le : (role p ch : ℕ) → child_role role p ch ≤ 3
child_role-le role p ch = ground arith

pub word-le : (ch : ℕ) → (if ch == b't' then 0 else if ch == b'f' then 1 else 2) ≤ 2
word-le ch = ground arith

pub stage-le : (ch : ℕ) → (if ch == b'-' then 0 else if ch == b'0' then 1 else 2) ≤ 8
stage-le ch = ground arith

pub key_phase-le : (phase : ℕ) → (phase == 0 || phase == 1) ≡ true → phase ≤ 1
key_phase-le phase h = ground arith

pub other_phase :
    (phase : ℕ)
    → phase ≤ 7
    → (phase == 0 || phase == 1) ≡ false
    → (phase == 2) ≡ false
    → (phase == 4 || phase == 7) ≡ false
    → takes_value phase ≡ true
other_phase phase le a b c = ground arith
