-- ===== src/Envelope/Deadline.antt =====
-- The deadline and the rest of the line, in `feed` of anton-runtime/src/envelope.rs.
use herdr_observatory.Envelope.{Round, Envelope, read, again, refuse, panic}
use herdr_observatory.Envelope.Chunks.{loop-step, loop-empty, after, in_time}
use herdr_observatory.Envelope.Feed.{fed, rejected, panicked, Fed, feed, loop}
use herdr_observatory.Envelope.Grammar.{is_space, plain_byte, round}
use herdr_observatory.Envelope.Invariant.{Progress}
use herdr_observatory.Envelope.Streamed.{feed-loop, Streamed-Inv, Streamed}
use herdr_observatory.Envelope.Valid.{valid}
use herdr_observatory.Prelude.{
  [], ◌∙◌, sym, ◌==◌, arith, ◌%◌, all, ◌*◌, suc, if◌then◌else◌, ℕ, List, not, ◌∷◌, if_elim, ◌+◌,
  ◌<◌, length, Bool, ◌⊎◌, ◌≡◌, refl, zero, inl, inr, ◌&&◌,
}
use mathlib.Core.Path.{subst}

-- What a run with a deadline answers, next to the run without one.
abbrev pub Late : Fed → Fed → Type 0
Late r timely = (r ≡ rejected) ⊎ (r ≡ timely)

after-Late :
    (fuel : ℕ) (late : ℕ → Bool) (k index ch : ℕ) (bytes : List ℕ) (r : Round)
    → ((k index : ℕ) (bytes : List ℕ) (e : Envelope)
        → Late (loop fuel late k index bytes e) (loop fuel in_time k index bytes e))
    → Late
        (elim r [
          | read e ↦ loop fuel late (k + 1) (index + 1) bytes e
          | again e ↦ loop fuel late (k + 1) index (ch ∷ bytes) e
          | refuse ↦ rejected
          | panic ↦ panicked
        ])
        (after fuel k index ch bytes r)
after-Late fuel late k index ch bytes (read e) ih = ih (k + 1) (index + 1) bytes e
after-Late fuel late k index ch bytes (again e) ih = ih (k + 1) index (ch ∷ bytes) e
after-Late fuel late k index ch bytes refuse ih = inl refl
after-Late fuel late k index ch bytes panic ih = inr refl

loop-Late :
    (fuel : ℕ) (late : ℕ → Bool) (k index : ℕ) (bytes : List ℕ) (e : Envelope)
    → Late (loop fuel late k index bytes e) (loop fuel in_time k index bytes e)
unfolding loop
loop-Late zero late k index bytes e = inr refl
loop-Late (suc fuel) late k index [] e = inr refl
loop-Late (suc fuel) late k index (ch ∷ bytes) e =
    if_elim (λ r. Late r (loop (suc fuel) in_time k index (ch ∷ bytes) e))
      (index % 1024 == 0 && late k) (λ _. inl refl)
      λ _.
        subst (Late _) (sym (loop-step fuel k index ch bytes e))
          (after-Late fuel late k index ch bytes (round ch e) (loop-Late fuel late))

-- A deadline changes nothing but that it may reject: `feed` answers what it answers in time, or
-- an error.
pub feed-Late :
    (bytes : List ℕ) (late : ℕ → Bool) (e : Envelope)
    → Late (feed bytes late e) (feed bytes in_time e)
unfolding feed
feed-Late bytes late e =
    if_elim (λ r. Late r (feed bytes in_time e)) (not (valid e)) (λ _. inl refl)
      λ h. subst (Late _) (rw h refl) (loop-Late (2 * length bytes + 1) late 0 0 bytes e)

-- After the line's end.
done_round :
    (ch : ℕ) (e : Envelope)
    → e.lex ≡ 0
    → e.done ≡ 1
    → round ch e ≡ (if is_space ch then read e else refuse)
unfolding round plain_byte
done_round ch e l d = ground arith

done_after :
    (fuel k index ch : ℕ) (bytes : List ℕ) (e : Envelope)
    → loop fuel in_time (k + 1) (index + 1) bytes e
      ≡ (if all is_space bytes then fed e else rejected)
    → after fuel k index ch bytes (if is_space ch then read e else refuse)
      ≡ (if is_space ch && all is_space bytes then fed e else rejected)
done_after fuel k index ch bytes e ih = ground arith

loop-done :
    (fuel k index : ℕ) (bytes : List ℕ) (e : Envelope)
    → e.lex ≡ 0
    → e.done ≡ 1
    → length bytes < fuel
    → loop fuel in_time k index bytes e ≡ (if all is_space bytes then fed e else rejected)
loop-done zero k index bytes e l d le = absurd (omega arith)
loop-done (suc fuel) k index [] e l d le = loop-empty fuel k index e
loop-done (suc fuel) k index (ch ∷ bytes) e l d le =
    loop-step fuel k index ch bytes e
    ∙ rw (done_round ch e l d) (
        done_after fuel k index ch bytes e
          (loop-done fuel (k + 1) (index + 1) bytes e l d (omega arith)))

-- What a classifier that has read the whole object satisfies.
done_idle : (stack : List ℕ) (e : Envelope) → Progress stack e → e.done ≡ 1 → e.lex ≡ 0
done_idle [] e p d = p.0
done_idle (phase ∷ stack) e (b, g, t) d = absurd (omega (arith, d, g))

-- Once the line's object has been read whole, only white space may follow: a `feed` with no
-- deadline leaves the classifier as it is on bytes that are all white space, and rejects others.
pub feed-done :
    (bytes : List ℕ) (e : Envelope)
    → Streamed e
    → e.done ≡ 1
    → feed bytes in_time e ≡ (if all is_space bytes then fed e else rejected)
feed-done bytes e s d =
    let i = Streamed-Inv s in
    feed-loop bytes in_time e i
    ∙ loop-done (2 * length bytes + 1) 0 0 bytes e (done_idle e.stack e i.progress d) d
        (omega arith)
