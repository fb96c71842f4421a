-- ===== src/Envelope/Outside.antt =====
-- The branches of `feed` of anton-runtime/src/envelope.rs for a byte outside a string keep the
-- invariant.
use herdr_observatory.Common.{is_digit}
use herdr_observatory.Envelope.{Envelope, push, pop, value_done}
use herdr_observatory.Envelope.Bounds.{
  IsBase-comma, IsBase-low, after_value-container, takes_value-le, word_length-le, next_letter,
  flag-le, all_names-le, comma-le, IsBase-after, word_length-lt, opening-le, child_role-le, word-le,
  stage-le, key_phase-le, other_phase,
}
use herdr_observatory.Envelope.Frames.{framed, Between, value_done-Good, pop-Good}
use herdr_observatory.Envelope.Grammar.{
  literal_byte, may_end, number_byte, key_phase, next_phase, open_in, value_phase, phase_byte,
}
use herdr_observatory.Envelope.Invariant.{Ranges, IsBase, Frames, Quiet, Inv, Good}
use herdr_observatory.Envelope.Reading.{Reading-Inv}
use herdr_observatory.Envelope.Valid.{takes_value, word_length}
use herdr_observatory.Prelude.{
  le_of_ltb, ℕ, suc, ◌+◌, ◌≤◌, ◌<◌, ◌≡◌, ◌≢◌, ◌⊎◌, inl, inr, refl, true, not, ◌&&◌, ◌||◌, Option,
  none, some, List, ◌∷◌, ◌==◌, ltb, length, get_elem?, is_some_and, arith, if◌then◌else◌, if_elim,
  Holds,
}

module _ (phase role p s : ℕ) (stack roles pending seen : List ℕ)
    (f : Frames (phase ∷ stack) (role ∷ roles) (p ∷ pending) (s ∷ seen))
    (d : length (phase ∷ stack) ≤ 128) where
  abbrev inner : Envelope → Envelope
  inner e = framed (phase ∷ stack) (role ∷ roles) (p ∷ pending) (s ∷ seen) e

  -- `true`, `false`, `null`.
  pub literal_byte-Good :
      (word : List ℕ) (ch : ℕ) (e : Envelope)
      → length word ≡ word_length e.literal
      → Ranges e
      → e.started ≡ 1
      → e.done ≡ 0
      → Quiet e
      → takes_value phase ≡ true
      → 1 ≤ e.index
      → e.index < word_length e.literal
      → e.lex ≡ 3
      → Good (literal_byte (some word) ch (inner e))
  unfolding literal_byte
  literal_byte-Good word ch e len r b g q t low high l =
      if_elim Good (not (is_some_and (get_elem? word e.index) (λ c. c == ch))) (λ _. tt)
        λ _.
          if_elim Good (e.index + 1 == length word)
            (λ _.
              value_done-Good (record e { index = e.index + 1; lex = 0 })
                (record {
                  ranges = omega (arith, r, word_length-le e.literal);
                  no_token = refl;
                  quiet = q;
                  begun = b;
                  going = g;
                })
                (phase ∷ stack) (role ∷ roles) (p ∷ pending) (s ∷ seen) f (takes_value-le phase t)
                d)
            λ more. record {
              ranges = omega (arith, r, word_length-le e.literal);
              frames = f;
              depth = d;
              progress = (
                b,
                g,
                rw l (q, t, omega arith, next_letter e.index (length word) _ len high more),
              );
            }

  -- A number.
  pub number_byte-Good :
      (o : Option ℕ) (e : Envelope)
      → Holds (λ n. n ≤ 8) o
      → Ranges e
      → e.started ≡ 1
      → e.done ≡ 0
      → Quiet e
      → takes_value phase ≡ true
      → e.lex ≡ 2
      → Good (number_byte o (inner e))
  unfolding number_byte value_done
  number_byte-Good (some stage) e o r b g q t l = record {
    ranges = omega (arith, r);
    frames = f;
    depth = d;
    progress = (b, g, rw l (q, t));
  }
  number_byte-Good none e o r b g q t l =
      if_elim Good (not (may_end e.number)) (λ _. tt)
        λ _. (
          value_done-Good (record e { lex = 0 })
              (record {
                ranges = omega (arith, r);
                no_token = refl;
                quiet = q;
                begun = b;
                going = g;
              })
              (phase ∷ stack) (role ∷ roles) (p ∷ pending) (s ∷ seen) f (takes_value-le phase t) d,
          refl,
        )

  module _ (e : Envelope) (b : Between e) where
    closes : Good (value_done (pop (inner e)))
    closes = pop-Good e b phase role p s stack roles pending seen f.5 (omega arith)

    -- A string begins.
    opens_string :
        (key capture mask : ℕ)
        → key ≤ 1
        → capture ≤ 1
        → mask ≤ 8191
        → (key ≢ 0 → phase ≤ 1)
        → (key ≡ 0 → takes_value phase ≡ true)
        → Inv (inner (record e { lex = 1; key = key; capture = capture; index = 0; mask = mask }))
    opens_string key capture mask k c m place value =
        Reading-Inv phase role p s stack roles pending seen f d
          (record e { lex = 1; key = key; capture = capture; index = 0; mask = mask })
          (record {
            ranges = omega (arith, b.ranges);
            in_string = refl;
            begun = b.begun;
            going = b.going;
            inside = record {
              key_place = place;
              text_place = value;
              utf_le = omega (arith, b.quiet.1);
              escape_le = omega (arith, b.quiet.0);
              hex_le = omega (arith, b.quiet.2);
              one_of = λ _. b.quiet.0;
              digits = λ _. b.quiet.2;
            };
          })

    -- The innermost phase changes and nothing else does.
    moves_to :
        (n : ℕ)
        → n ≤ 7
        → IsBase stack n role
        → Inv (framed (n ∷ stack) (role ∷ roles) (p ∷ pending) (s ∷ seen) e)
    moves_to n le base = record {
      ranges = omega (arith, b.ranges);
      frames = (le, f.1, f.2, f.3, base, f.5);
      depth = d;
      progress = (b.begun, b.going, rw b.no_token b.quiet);
    }

    key_phase-Good : (ch : ℕ) → phase ≤ 1 → Good (key_phase phase role ch (inner e))
    unfolding key_phase
    key_phase-Good ch le =
        if_elim Good (phase == 0 && ch == b'}') (λ _. closes)
          λ _.
            if_elim Good (ch == b'"')
              (λ _.
                opens_string 1 _ _ (omega arith) (flag-le (not (role == 0)))
                  (all_names-le (not (role == 0))) (λ _. le) (λ e. cc))
              (λ _. tt)

    next_phase-Good :
        (ch : ℕ) → (phase == 4 || phase == 7) ≡ true → Good (next_phase phase stack ch (inner e))
    unfolding next_phase
    next_phase-Good ch c =
        if_elim Good (ch == (if phase == 4 then b'}' else b']')) (λ _. closes)
          λ _.
            if_elim Good (ch == b',')
              (λ _. moves_to _ (comma-le phase) (IsBase-comma stack phase role c f.4)) (λ _. tt)

    -- A container opens inside the innermost one.
    opens_container :
        (n child : ℕ)
        → n ≤ 7
        → child ≤ 3
        → takes_value phase ≡ true
        → Good (open_in n child (value_done (inner e)))
    unfolding value_done push
    opens_container n child le c t =
        if_elim Good (ltb 128 (suc (length (phase ∷ stack)))) (λ _. tt)
          λ fits. record {
            ranges = omega (arith, b.ranges);
            frames = (
              le,
              c,
              omega arith,
              omega arith,
              tt,
              (
                after_value-container phase t,
                f.1,
                omega arith,
                f.3,
                IsBase-after stack phase role (takes_value-le phase t) f.4,
                f.5,
              ),
            );
            depth = le_of_ltb 128 _ fits;
            progress = (b.begun, b.going, rw b.no_token b.quiet);
          }

    begins_token :
        (n m i l : ℕ)
        → m ≤ 8
        → l ≤ 2
        → ((n ≡ 2) ⊎ ((n ≡ 3) × (i ≡ 1)))
        → takes_value phase ≡ true
        → i ≤ 32
        → Inv (inner (record e { lex = n; number = m; index = i; literal = l }))
    begins_token n m i l hm hl (inl two) t hi = record {
      ranges = omega (arith, b.ranges);
      frames = f;
      depth = d;
      progress = (b.begun, b.going, rw two (b.quiet, t));
    }
    begins_token n m i l hm hl (inr (three, one)) t hi = record {
      ranges = omega (arith, b.ranges);
      frames = f;
      depth = d;
      progress = (b.begun, b.going, rw three (b.quiet, t, omega arith, word_length-lt i l one));
    }

    value_phase-Good :
        (ch : ℕ) → takes_value phase ≡ true → Good (value_phase phase role p ch (inner e))
    unfolding value_phase
    value_phase-Good ch t =
        if_elim Good (phase == 5 && ch == b']') (λ _. closes)
          λ _.
            if_elim Good (ch == b'"')
              (λ _.
                opens_string 0 _ _ (omega arith) (flag-le (not (role == 0) && p == 1))
                  (all_names-le (not (role == 0) && p == 1)) (λ z. absurd (z refl)) (λ _. t))
              λ _.
                if_elim Good (ch == b'{' || ch == b'[')
                  (λ _. opens_container _ _ (opening-le (ch == b'{')) (child_role-le role p ch) t)
                  λ _.
                    if_elim Good (ch == b't' || ch == b'f' || ch == b'n')
                      (λ _.
                        begins_token 3 e.number 1 _ b.ranges.number_le (word-le ch)
                          (inr (refl, refl)) t (omega arith))
                      λ _.
                        if_elim Good (ch == b'-' || is_digit ch)
                          (λ _.
                            begins_token 2 _ e.index e.literal (stage-le ch) b.ranges.literal_le
                              (inl refl) t b.ranges.index_le)
                          (λ _. tt)

    pub phase_byte-Good :
        (ch : ℕ) → Good (phase_byte (phase ∷ stack) (role ∷ roles) (p ∷ pending) ch (inner e))
    unfolding phase_byte
    phase_byte-Good ch =
        if_elim Good (phase == 0 || phase == 1) (λ h. key_phase-Good ch (key_phase-le phase h))
          λ not_key.
            if_elim Good (phase == 2)
              (λ _.
                if_elim Good (ch == b':')
                  (λ _. moves_to 3 (omega arith) (IsBase-low stack phase 3 role (omega arith) f.4))
                  (λ _. tt))
              λ not_colon.
                if_elim Good (phase == 4 || phase == 7) (λ h. next_phase-Good ch h)
                  (λ not_next.
                    value_phase-Good ch (other_phase phase f.0 not_key not_colon not_next))
