-- ===== src/Envelope/Frames.antt =====
-- The stack operations of anton-runtime/src/envelope.rs keep the invariant.
use herdr_observatory.Envelope.{Envelope, pop, after_value, value_done}
use herdr_observatory.Envelope.Invariant.{Ranges, IsBase, Below, Frames, Quiet, Good}
use herdr_observatory.Prelude.{ℕ, ◌≤◌, ◌≡◌, List, [], ◌∷◌, length, arith}

-- A classifier with its four vectors written out.
abbrev pub framed : List ℕ → List ℕ → List ℕ → List ℕ → Envelope → Envelope
framed stack roles pending seen e = record e {
  stack = stack;
  roles = roles;
  pending = pending;
  seen = seen;
}

-- A classifier between two tokens, inside the line's object or just behind it.
pub record Between (e : Envelope) : Type 0 where
  pub ranges : Ranges e
  pub no_token : e.lex ≡ 0
  pub quiet : Quiet e
  pub begun : e.started ≡ 1
  pub going : e.done ≡ 0

abbrev pub Awaits : List ℕ → Type 0
Awaits [] = Unit
Awaits (phase ∷ stack) = 3 ≤ phase

after_value-le : (phase : ℕ) → phase ≤ 7 → after_value phase ≤ 7
after_value-le phase h = ground arith

IsBase-after :
    (stack : List ℕ) (phase role : ℕ)
    → 3 ≤ phase
    → IsBase stack phase role
    → IsBase stack (after_value phase) role
IsBase-after [] phase role a h = ground arith
IsBase-after (x ∷ stack) phase role a h = tt

Frames-of_Below :
    (stack roles pending seen : List ℕ)
    → Below stack roles pending seen
    → Frames stack roles pending seen
Frames-of_Below stack roles pending seen h = ground arith

Awaits-of_Below :
    (stack roles pending seen : List ℕ) → Below stack roles pending seen → Awaits stack
Awaits-of_Below stack roles pending seen h = ground arith

module _ (e : Envelope) (b : Between e) where
  -- The innermost container takes a value.
  pub value_done-Good :
      (stack roles pending seen : List ℕ)
      → Frames stack roles pending seen
      → Awaits stack
      → length stack ≤ 128
      → Good (value_done (framed stack roles pending seen e))
  unfolding value_done
  value_done-Good [] [] [] [] f a d = record {
    ranges = omega (arith, b.ranges);
    frames = tt;
    depth = omega arith;
    progress = (b.no_token, b.quiet, b.begun);
  }
  value_done-Good (phase ∷ stack) (role ∷ roles) (p ∷ pending) (s ∷ seen) f a d =
      let (low, r, _, n, base, below) = f in
      record {
        ranges = omega (arith, b.ranges);
        frames = (
          after_value-le phase low,
          r,
          omega arith,
          n,
          IsBase-after stack phase role a base,
          below,
        );
        depth = d;
        progress = (b.begun, b.going, rw b.no_token b.quiet);
      }
  value_done-Good [] [] [] (s ∷ seen) f a d = elim f [ ]
  value_done-Good [] [] (p ∷ pending) seen f a d = elim f [ ]
  value_done-Good [] (role ∷ roles) pending seen f a d = elim f [ ]
  value_done-Good (phase ∷ stack) [] pending seen f a d = elim f [ ]
  value_done-Good (phase ∷ stack) (role ∷ roles) [] seen f a d = elim f [ ]
  value_done-Good (phase ∷ stack) (role ∷ roles) (p ∷ pending) [] f a d = elim f [ ]

  -- A container ends.
  pub pop-Good :
      (phase role p s : ℕ) (stack roles pending seen : List ℕ)
      → Below stack roles pending seen
      → length stack ≤ 128
      → Good (value_done (pop (framed (phase ∷ stack) (role ∷ roles) (p ∷ pending) (s ∷ seen) e)))
  unfolding pop
  pop-Good phase role p s stack roles pending seen below d =
      value_done-Good stack roles pending seen (Frames-of_Below stack roles pending seen below)
        (Awaits-of_Below stack roles pending seen below) d
