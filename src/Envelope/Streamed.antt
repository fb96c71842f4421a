-- ===== src/Envelope/Streamed.antt =====
-- A line that comes in parts: the classifiers that `feed` of anton-runtime/src/envelope.rs leads
-- to, and what `feed` and `kind` answer on them.
use herdr_observatory.Envelope.{Envelope, default}
use herdr_observatory.Envelope.Chunks.{loop-append, go_on, in_time}
use herdr_observatory.Envelope.Feed.{loop, fed, rejected, panicked, no_fuel, Fed, feed, kind}
use herdr_observatory.Envelope.InvValid.{Inv-valid}
use herdr_observatory.Envelope.Invariant.{default-Inv, Inv}
use herdr_observatory.Envelope.Total.{Ends, feed-Ends}
use herdr_observatory.Envelope.Valid.{is_empty, valid}
use herdr_observatory.Prelude.{
  ap, ℕ, List, arith, ◌+◌, ◌==◌, not, length, sym, if_elim, ◌*◌, true, ◌∙◌, ◌≤◌, ◌≡◌, ◌++◌, Bool,
  refl, inl, ◌&&◌,
}
use mathlib.Core.Path.{subst}

-- The classifiers that any parts of a line, each fed under some deadline, lead to.
pub data Streamed : Envelope → Type 0 where
  fresh : Streamed default
  part :
      {e e' : Envelope} (bytes : List ℕ) (late : ℕ → Bool)
      → feed bytes late e ≡ fed e'
      → Streamed e
      → Streamed e'

fed-Inv : (r : Fed) (e : Envelope) → Ends r → r ≡ fed e → Inv e
fed-Inv r e h eq = subst Ends eq h

pub Streamed-Inv : {e : Envelope} → Streamed e → Inv e
Streamed-Inv fresh = default-Inv
Streamed-Inv (part {e} {e'} bytes late eq s) =
    fed-Inv (feed bytes late e) e' (feed-Ends bytes late e (Streamed-Inv s)) eq

pub kind-le : (e : Envelope) → Inv e → kind e ≤ 12
unfolding kind
kind-le e i =
    if_elim (λ n. n ≤ 12) (valid e && not (e.done == 0) && e.lex == 0 && is_empty e.stack)
      (λ _. i.ranges.kind_le) (λ _. omega arith)

abbrev pub Sane : Fed → Type 0
Sane (fed e) = (valid e ≡ true) × (kind e ≤ 12)
Sane rejected = Unit
Sane panicked = ⊥
Sane no_fuel = ⊥

Sane-of_Ends : (r : Fed) → Ends r → Sane r
Sane-of_Ends (fed e) i = (Inv-valid e i, kind-le e i)
Sane-of_Ends rejected i = tt
Sane-of_Ends panicked i = absurd i
Sane-of_Ends no_fuel i = absurd i

-- However a line has been cut into parts so far, and whatever comes next, `feed` returns: it
-- rejects, or it leaves a classifier that `valid` accepts and whose kind is at most 12. No index
-- is out of range, and the model's fuel does not run out.
pub Streamed-feed :
    (bytes : List ℕ) (late : ℕ → Bool) (e : Envelope) → Streamed e → Sane (feed bytes late e)
Streamed-feed bytes late e s =
    Sane-of_Ends (feed bytes late e) (feed-Ends bytes late e (Streamed-Inv s))

pub feed-loop :
    (bytes : List ℕ) (late : ℕ → Bool) (e : Envelope)
    → Inv e
    → feed bytes late e ≡ loop (2 * length bytes + 1) late 0 0 bytes e
unfolding feed
feed-loop bytes late e i = rw (Inv-valid e i) refl

-- To feed more bytes to what a call of `feed` left.
abbrev pub feed_on : List ℕ → Fed → Fed
feed_on ys (fed e) = feed ys in_time e
feed_on ys rejected = rejected
feed_on ys panicked = panicked
feed_on ys no_fuel = no_fuel

go_on-feed_on : (ys : List ℕ) (r : Fed) → Ends r → go_on ys r ≡ feed_on ys r
go_on-feed_on ys (fed e) i = sym (feed-loop ys in_time e i)
go_on-feed_on ys rejected i = refl
go_on-feed_on ys panicked i = refl
go_on-feed_on ys no_fuel i = refl

-- Where no deadline passes, a line may be cut anywhere: to feed two parts one after the other is
-- to feed them as one.
pub feed-append :
    (xs ys : List ℕ) (e : Envelope)
    → Streamed e
    → feed (xs ++ ys) in_time e ≡ feed_on ys (feed xs in_time e)
feed-append xs ys e s =
    let i = Streamed-Inv s in
    feed-loop (xs ++ ys) in_time e i
    ∙ loop-append (2 * length (xs ++ ys) + 1) (2 * length xs + 1) 0 0 0 0 xs ys e i
        (inl (omega arith)) (inl (omega arith))
    ∙ ap (go_on ys) (sym (feed-loop xs in_time e i))
    ∙ go_on-feed_on ys (feed xs in_time e) (feed-Ends xs in_time e i)
