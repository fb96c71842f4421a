-- ===== src/Envelope/Utf8.antt =====
-- Characters beyond ASCII in a string of anton-runtime/src/envelope.rs: `feed` reads the UTF-8
-- encoding of each of them.
use herdr_observatory.Envelope.{Envelope, read}
use herdr_observatory.Envelope.Chunks.{after, loop-step, loop-empty, in_time}
use herdr_observatory.Envelope.Feed.{feed, loop, fed}
use herdr_observatory.Envelope.Grammar.{round}
use herdr_observatory.Envelope.Streamed.{Streamed-Inv, feed-loop, Streamed}
use herdr_observatory.Envelope.Strings.{continuation, string_byte, character, lead_byte}
use herdr_observatory.Prelude.{
  le_of_ltb, lt_of_ltb, inl, inr, Bool-cases, refl, ltb, List, ℕ, ap, ◌∙◌, arith, suc, ◌==◌, ◌+◌,
  ◌⊎◌, ◌<◌, ◌≤◌, ◌≡◌, ◌/◌, ◌%◌, [], ◌∷◌, if◌then◌else◌,
}

-- UTF-8, as Unicode describes it, for code points beyond ASCII.
abbrev pub encode : ℕ → List ℕ
encode c =
    if ltb c 2048
    then (192 + c / 64) ∷ (128 + c % 64) ∷ []
    else if ltb c 65536
    then (224 + c / 4096) ∷ (128 + c / 64 % 64) ∷ (128 + c % 64) ∷ []
    else (240 + c / 262144) ∷ (128 + c / 4096 % 64) ∷ (128 + c / 64 % 64) ∷ (128 + c % 64) ∷ []

-- Inside a string, and neither in an escape nor in a character.
abbrev pub AtCharacter : Envelope → Type 0
AtCharacter e = (e.lex ≡ 1) × (e.utf ≡ 0) × (e.escape ≡ 0)

-- The character counts as one that no name has.
abbrev pub other_character : Envelope → Envelope
other_character e = record (character 0 e) { utf = 0; lo = 128; hi = 191 }

step :
    (fuel k index ch : ℕ) (bytes : List ℕ) (e e' : Envelope)
    → round ch e ≡ read e'
    → loop (suc fuel) in_time k index (ch ∷ bytes) e
      ≡ loop fuel in_time (k + 1) (index + 1) bytes e'
step fuel k index ch bytes e e' h =
    loop-step fuel k index ch bytes e ∙ ap (after fuel k index ch bytes) h

lead :
    (ch : ℕ) (e : Envelope)
    → AtCharacter e
    → 128 ≤ ch
    → round ch e ≡ lead_byte (continuation ch) ch (character 0 e)
unfolding round string_byte
lead ch e (l, u, x) b = ground arith

go_on_character :
    (ch n : ℕ) (e : Envelope)
    → e.lex ≡ 1
    → e.utf ≡ suc n
    → e.lo ≤ ch
    → ch ≤ e.hi
    → round ch e ≡ read (record e { utf = n; lo = 128; hi = 191 })
unfolding round string_byte
go_on_character ch n e l u a b = ground arith

lead_two :
    (u : ℕ) (e : Envelope)
    → 194 ≤ u
    → u ≤ 223
    → lead_byte (continuation u) u e ≡ read (record e { utf = 1; lo = 128; hi = 191 })
unfolding lead_byte continuation
lead_two u e a b = ground arith

lead_three :
    (u : ℕ) (e : Envelope)
    → 224 ≤ u
    → u ≤ 239
    → lead_byte (continuation u) u e
      ≡ read (record e {
        utf = 2;
        lo = if u == 224 then 160 else 128;
        hi = if u == 237 then 159 else 191;
      })
unfolding lead_byte continuation
lead_three u e a b = ground arith

lead_four :
    (u : ℕ) (e : Envelope)
    → 240 ≤ u
    → u ≤ 244
    → lead_byte (continuation u) u e
      ≡ read (record e {
        utf = 3;
        lo = if u == 240 then 144 else 128;
        hi = if u == 244 then 143 else 191;
      })
unfolding lead_byte continuation
lead_four u e a b = ground arith

character-lex : (ch : ℕ) (e : Envelope) → (character ch e).lex ≡ e.lex
unfolding character
character-lex ch e = refl

-- The bounds of the second byte.
overlong_three :
    (c : ℕ)
    → 2048 ≤ c
    → c < 65536
    → (if 224 + c / 4096 == 224 then 160 else 128) ≤ 128 + c / 64 % 64
overlong_three c a b = ground arith

surrogate :
    (c : ℕ)
    → c < 65536
    → (c < 55296) ⊎ (57344 ≤ c)
    → 128 + c / 64 % 64 ≤ (if 224 + c / 4096 == 237 then 159 else 191)
surrogate c b s = ground arith

overlong_four :
    (c : ℕ)
    → 65536 ≤ c
    → c < 1114112
    → (if 240 + c / 262144 == 240 then 144 else 128) ≤ 128 + c / 4096 % 64
overlong_four c a b = ground arith

too_high :
    (c : ℕ) → c < 1114112 → 128 + c / 4096 % 64 ≤ (if 240 + c / 262144 == 244 then 143 else 191)
too_high c b = ground arith

-- A character under way, with bounds on its next byte.
abbrev under_way : Envelope → ℕ → ℕ → ℕ → Envelope
under_way e n lo hi = record (character 0 e) { utf = n; lo = lo; hi = hi }

module _ (e : Envelope) (at : AtCharacter e) where
  begins :
      (ch n lo hi : ℕ)
      → 128 ≤ ch
      → lead_byte (continuation ch) ch (character 0 e) ≡ read (under_way e n lo hi)
      → round ch e ≡ read (under_way e n lo hi)
  begins ch n lo hi b h = lead ch e at b ∙ h

  goes_on :
      (ch n lo hi : ℕ)
      → lo ≤ ch
      → ch ≤ hi
      → round ch (under_way e (suc n) lo hi) ≡ read (under_way e n 128 191)
  goes_on ch n lo hi a b =
      go_on_character ch n (under_way e (suc n) lo hi) (character-lex 0 e ∙ at.0) refl a b

  module _ (c : ℕ) where
    two :
        128 ≤ c
        → c < 2048
        → loop 5 in_time 0 0 ((192 + c / 64) ∷ (128 + c % 64) ∷ []) e ≡ fed (other_character e)
    two a b =
        step 4 0 0 (192 + c / 64) _ e (under_way e 1 128 191) (
          begins _ 1 128 191 (omega arith) (lead_two _ (character 0 e) (omega arith) (omega arith)))
        ∙ step 3 1 1 (128 + c % 64) [] (under_way e 1 128 191) (under_way e 0 128 191)
            (goes_on _ 0 128 191 (omega arith) (omega arith))
        ∙ loop-empty 2 2 2 (under_way e 0 128 191)

    abbrev third : Envelope
    third =
        under_way e 2 (if 224 + c / 4096 == 224 then 160 else 128)
          (if 224 + c / 4096 == 237 then 159 else 191)

    three :
        2048 ≤ c
        → c < 65536
        → (c < 55296) ⊎ (57344 ≤ c)
        → loop 7 in_time 0 0 ((224 + c / 4096) ∷ (128 + c / 64 % 64) ∷ (128 + c % 64) ∷ []) e
          ≡ fed (other_character e)
    three a b s =
        step 6 0 0 (224 + c / 4096) _ e third
          (begins _ 2 _ _ (omega arith) (lead_three _ (character 0 e) (omega arith) (omega arith)))
        ∙ step 5 1 1 (128 + c / 64 % 64) _ third (under_way e 1 128 191)
            (goes_on _ 1 _ _ (overlong_three c a b) (surrogate c b s))
        ∙ step 4 2 2 (128 + c % 64) [] (under_way e 1 128 191) (under_way e 0 128 191)
            (goes_on _ 0 128 191 (omega arith) (omega arith))
        ∙ loop-empty 3 3 3 (under_way e 0 128 191)

    abbrev fourth : Envelope
    fourth =
        under_way e 3 (if 240 + c / 262144 == 240 then 144 else 128)
          (if 240 + c / 262144 == 244 then 143 else 191)

    four :
        65536 ≤ c
        → c < 1114112
        → loop 9 in_time 0 0
            ((240 + c / 262144) ∷ (128 + c / 4096 % 64) ∷ (128 + c / 64 % 64) ∷ (128 + c % 64) ∷ [])
            e
          ≡ fed (other_character e)
    four a b =
        step 8 0 0 (240 + c / 262144) _ e fourth
          (begins _ 3 _ _ (omega arith) (lead_four _ (character 0 e) (omega arith) (omega arith)))
        ∙ step 7 1 1 (128 + c / 4096 % 64) _ fourth (under_way e 2 128 191)
            (goes_on _ 2 _ _ (overlong_four c a b) (too_high c b))
        ∙ step 6 2 2 (128 + c / 64 % 64) _ (under_way e 2 128 191) (under_way e 1 128 191)
            (goes_on _ 1 128 191 (omega arith) (omega arith))
        ∙ step 5 3 3 (128 + c % 64) [] (under_way e 1 128 191) (under_way e 0 128 191)
            (goes_on _ 0 128 191 (omega arith) (omega arith))
        ∙ loop-empty 4 4 4 (under_way e 0 128 191)

-- In a string, outside an escape and a character, the UTF-8 encoding of any code point beyond
-- ASCII but the surrogates is read whole, and counts as one character that no name has.
pub feed-encode :
    (c : ℕ) (e : Envelope)
    → Streamed e
    → AtCharacter e
    → 128 ≤ c
    → c < 1114112
    → (c < 55296) ⊎ (57344 ≤ c)
    → feed (encode c) in_time e ≡ fed (other_character e)
feed-encode c e s at a b gap =
    feed-loop (encode c) in_time e (Streamed-Inv s) ∙ elim (Bool-cases (ltb c 2048)) [
      | inl h ↦ rw h (two e at c a (lt_of_ltb c 2048 h))
      | inr h ↦ elim (Bool-cases (ltb c 65536)) [
        | inl i ↦ rw (h, i) (three e at c (le_of_ltb c 2048 h) (lt_of_ltb c 65536 i) gap)
        | inr i ↦ rw (h, i) (four e at c (le_of_ltb c 65536 i) b)
      ]
    ]
