-- ===== src/Envelope/Total.antt =====
-- The loop of `feed` of anton-runtime/src/envelope.rs ends: it never runs out of the model's fuel,
-- never panics, and leaves a classifier that satisfies the invariant.

use herdr_observatory.Common.{is_digit}
use herdr_observatory.Envelope.{Envelope, Round, read, again, refuse, panic, pop, value_done}
use herdr_observatory.Envelope.Feed.{feed, Fed, fed, rejected, panicked, no_fuel, loop}
use herdr_observatory.Envelope.Grammar.{
  is_space, key_phase, next_phase, open_in, value_phase, phase_byte, first_byte, plain_on,
  plain_byte, round,
}
use herdr_observatory.Envelope.Invariant.{Inv, Good}
use herdr_observatory.Envelope.Rounds.{round-Good}
use herdr_observatory.Envelope.Valid.{valid}
use herdr_observatory.Prelude.{
  inr, inl, ◌⊎◌, not, ◌||◌, ℕ, zero, suc, ◌+◌, ◌*◌, ◌%◌, ◌≤◌, ◌<◌, ◌≡◌, refl, Bool, true, false,
  ◌&&◌, List, [], ◌∷◌, ◌==◌, length, arith, if_elim,
}

clash : (n m : ℕ) → n ≡ 0 → 0 < m → (n == m) ≡ true → ⊥
clash n m e h t = ground arith

abbrev pub is_again : Round → Bool
is_again (again e) = true
is_again r = false

abbrev pub Once : Round → Type 0
Once r = is_again r ≡ false

value_done-Once : (e : Envelope) → Once (value_done e)
unfolding value_done
value_done-Once e = ground arith

key_phase-Once : (phase role ch : ℕ) (e : Envelope) → Once (key_phase phase role ch e)
unfolding key_phase
key_phase-Once phase role ch e = ground (arith, value_done-Once (pop e))

next_phase-Once :
    (phase ch : ℕ) (stack : List ℕ) (e : Envelope) → Once (next_phase phase stack ch e)
unfolding next_phase
next_phase-Once phase ch stack e = ground (arith, value_done-Once (pop e))

open_in-Once : (phase role : ℕ) (r : Round) → Once r → Once (open_in phase role r)
open_in-Once phase role r h = ground arith

value_phase-Once : (phase role p ch : ℕ) (e : Envelope) → Once (value_phase phase role p ch e)
unfolding value_phase
value_phase-Once phase role p ch e =
    if_elim Once (phase == 5 && ch == b']') (λ _. value_done-Once (pop e))
      λ _.
        if_elim Once (ch == b'"') (λ _. refl)
          λ _.
            if_elim Once (ch == b'{' || ch == b'[')
              (λ _. open_in-Once _ _ (value_done e) (value_done-Once e))
              λ _.
                if_elim Once (ch == b't' || ch == b'f' || ch == b'n') (λ _. refl)
                  λ _. if_elim Once (ch == b'-' || is_digit ch) (λ _. refl) (λ _. refl)

phase_byte-Once :
    (stack roles pending : List ℕ) (ch : ℕ) (e : Envelope)
    → Once (phase_byte stack roles pending ch e)
unfolding phase_byte
phase_byte-Once (phase ∷ stack) (role ∷ roles) (p ∷ pending) ch e =
    if_elim Once (phase == 0 || phase == 1) (λ _. key_phase-Once phase role ch e)
      λ _.
        if_elim Once (phase == 2) (λ _. if_elim Once (ch == b':') (λ _. refl) (λ _. refl))
          λ _.
            if_elim Once (phase == 4 || phase == 7) (λ _. next_phase-Once phase ch stack e)
              (λ _. value_phase-Once phase role p ch e)
phase_byte-Once [] roles pending ch e = refl
phase_byte-Once (phase ∷ stack) [] pending ch e = refl
phase_byte-Once (phase ∷ stack) (role ∷ roles) [] ch e = refl

plain_on-Once : (stack : List ℕ) (ch : ℕ) (e : Envelope) → Once (plain_on stack ch e)
unfolding first_byte
plain_on-Once [] ch e =
    if_elim Once (not (e.started == 0) || not (ch == b'{')) (λ _. refl) (λ _. refl)
plain_on-Once (phase ∷ stack) ch e = phase_byte-Once (phase ∷ stack) e.roles e.pending ch e

-- Outside a token no byte is looked at twice.
pub idle_round-Once : (ch : ℕ) (e : Envelope) → e.lex ≡ 0 → Once (round ch e)
unfolding round plain_byte
idle_round-Once ch e l =
    if_elim Once (e.lex == 1) (λ h. absurd (clash e.lex 1 l (omega arith) h))
      λ _.
        if_elim Once (e.lex == 3) (λ h. absurd (clash e.lex 3 l (omega arith) h))
          λ _.
            if_elim Once (e.lex == 2) (λ h. absurd (clash e.lex 2 l (omega arith) h))
              λ _.
                if_elim Once (is_space ch) (λ _. refl)
                  λ _.
                    if_elim Once (not (e.done == 0)) (λ _. refl) (λ _. plain_on-Once e.stack ch e)

abbrev pub Ends : Fed → Type 0
Ends (fed e) = Inv e
Ends rejected = Unit
Ends panicked = ⊥
Ends no_fuel = ⊥

-- Two rounds for each byte and one more, or one round less where no token is under way.
abbrev pub Enough : ℕ → List ℕ → Envelope → Type 0
Enough fuel bytes e =
    (2 * length bytes < fuel) ⊎ ((e.lex ≡ 0) × (2 * length bytes ≤ fuel) × (0 < fuel))

-- What a round leaves to do with the fuel that remains.
abbrev pub Left : ℕ → ℕ → List ℕ → Round → Type 0
Left fuel ch bytes (read e) = Inv e × Enough fuel bytes e
Left fuel ch bytes (again e) = Inv e × Enough fuel (ch ∷ bytes) e
Left fuel ch bytes refuse = Unit
Left fuel ch bytes panic = ⊥

left :
    (fuel ch : ℕ) (bytes : List ℕ) (e : Envelope) (r : Round)
    → Good r
    → (e.lex ≡ 0 → Once r)
    → Enough (suc fuel) (ch ∷ bytes) e
    → Left fuel ch bytes r
left fuel ch bytes e (read e') good once (inl a) = (good, inl (omega arith))
left fuel ch bytes e (read e') good once (inr (l, a, b)) = (good, inl (omega arith))
left fuel ch bytes e (again e') good once (inl a) = (good.0, inr (good.1, omega arith, omega arith))
left fuel ch bytes e (again e') good once (inr (l, a, b)) = cc (once l)
left fuel ch bytes e refuse good once enough = tt
left fuel ch bytes e panic good once enough = absurd good

pub round-Left :
    (fuel ch : ℕ) (bytes : List ℕ) (e : Envelope)
    → Inv e
    → Enough (suc fuel) (ch ∷ bytes) e
    → Left fuel ch bytes (round ch e)
round-Left fuel ch bytes e i enough =
    left fuel ch bytes e (round ch e) (round-Good ch e i) (idle_round-Once ch e) enough

module _ (fuel : ℕ) (late : ℕ → Bool)
    (ih : (k index : ℕ) (bytes : List ℕ) (e : Envelope)
      → Inv e
      → Enough fuel bytes e
      → Ends (loop fuel late k index bytes e)) where
  after_round :
      (k index ch : ℕ) (bytes : List ℕ) (r : Round)
      → Left fuel ch bytes r
      → Ends (elim r [
        | read e' ↦ loop fuel late (k + 1) (index + 1) bytes e'
        | again e' ↦ loop fuel late (k + 1) index (ch ∷ bytes) e'
        | refuse ↦ rejected
        | panic ↦ panicked
      ])
  after_round k index ch bytes (read e') (i, enough) = ih (k + 1) (index + 1) bytes e' i enough
  after_round k index ch bytes (again e') (i, enough) = ih (k + 1) index (ch ∷ bytes) e' i enough
  after_round k index ch bytes refuse l = tt
  after_round k index ch bytes panic l = absurd l

pub loop-Ends :
    (fuel : ℕ) (late : ℕ → Bool) (k index : ℕ) (bytes : List ℕ) (e : Envelope)
    → Inv e
    → Enough fuel bytes e
    → Ends (loop fuel late k index bytes e)
unfolding loop
loop-Ends zero late k index bytes e i (inl a) = absurd (omega arith)
loop-Ends zero late k index bytes e i (inr a) = absurd (omega arith)
loop-Ends (suc fuel) late k index [] e i enough = i
loop-Ends (suc fuel) late k index (ch ∷ bytes) e i enough =
    if_elim Ends (index % 1024 == 0 && late k) (λ _. tt)
      λ _.
        after_round fuel late (loop-Ends fuel late) k index ch bytes (round ch e)
          (round-Left fuel ch bytes e i enough)

-- From a classifier that satisfies the invariant, whatever the bytes and whenever the deadline
-- passes, `feed` returns: it rejects, or it leaves a classifier that satisfies the invariant. The
-- model's fuel does not run out, and no index is out of range.
pub feed-Ends : (bytes : List ℕ) (late : ℕ → Bool) (e : Envelope) → Inv e → Ends (feed bytes late e)
unfolding feed
feed-Ends bytes late e i =
    if_elim Ends (not (valid e)) (λ _. tt)
      (λ _. loop-Ends (2 * length bytes + 1) late 0 0 bytes e i (inl (omega arith)))
