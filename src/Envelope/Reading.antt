-- ===== src/Envelope/Reading.antt =====
-- The string branch of `feed` of anton-runtime/src/envelope.rs keeps the invariant.
use herdr_observatory.Envelope.{Envelope, bump_index, value_done}
use herdr_observatory.Envelope.Bits.{test_bit, set_bit, set_bit-le}
use herdr_observatory.Envelope.Frames.{framed, value_done-Good}
use herdr_observatory.Envelope.Invariant.{Frames, Quiet, Inv, Good}
use herdr_observatory.Envelope.Names.{names, narrow, has_char, has_nibble, first_bit, complete}
use herdr_observatory.Envelope.Strings.{
  character, is_relevant, key_done, store_name, end_token, other_names, string_done, to_digit,
  hex_digit, is_escape, stands_for_itself, escaped, continuation, lead_byte, string_byte,
}
use herdr_observatory.Envelope.Text.{
  Reading-utf, Reading-escape, Reading, bump_index-le, narrow-le_of, Reading-text, Reading-names,
  character-Reading, pred-le, busy_ne, calm_eq, ne_of, no_overflow, next_digit, zero_ne_two,
  lo_bound, hi_bound, key_of-le, value_le, takes_value-le, IsBase-two,
}
use herdr_observatory.Prelude.{
  ==_iff, Holds, ℕ, ◌+◌, ◌-◌, ◌≤◌, ◌≡◌, ◌≢◌, refl, not, ◌&&◌, Option, none, some, List, ◌∷◌, ◌==◌,
  ltb, leb, length, arith, if◌then◌else◌, if_elim,
}

module _ (phase role p s : ℕ) (stack roles pending seen : List ℕ)
    (f : Frames (phase ∷ stack) (role ∷ roles) (p ∷ pending) (s ∷ seen))
    (d : length (phase ∷ stack) ≤ 128) where
  abbrev pub inner : Envelope → Envelope
  inner e = framed (phase ∷ stack) (role ∷ roles) (p ∷ pending) (s ∷ seen) e

  pub Reading-Inv : (e : Envelope) → Reading phase e → Inv (inner e)
  Reading-Inv e r = record {
    ranges = omega (arith, r.ranges);
    frames = f;
    depth = d;
    progress = (r.begun, r.going, rw r.in_string r.inside);
  }

  hex_digit-Good :
      (o : Option ℕ) (e : Envelope)
      → Reading phase e
      → e.utf ≡ 0
      → e.escape ≡ 2
      → Good (hex_digit o (inner e))
  unfolding hex_digit
  hex_digit-Good none e r u x = tt
  hex_digit-Good (some digit) e r u x =
      let m : ℕ = narrow (has_nibble e.index e.hex digit) 0 names e.mask in
      let le : m ≤ 8191 = narrow-le_of (has_nibble e.index e.hex digit) e r.ranges in
      let i : ℕ = bump_index e.index in
      if_elim Good (ltb 3 e.hex) (λ over. no_overflow e.hex r.inside.hex_le over)
        λ _.
          if_elim Inv (e.hex + 1 == 4)
            (λ _. Reading-Inv _ (
              Reading-escape _ (Reading-text phase m i e le (bump_index-le e.index) r) 0 0
                (omega arith) (omega arith) u (λ _. refl)))
            (λ more. Reading-Inv _ (
              Reading-escape _ (Reading-text phase m e.index e le r.ranges.index_le r) e.escape
                (e.hex + 1) r.inside.escape_le (next_digit e.hex r.inside.hex_le more) u
                (λ no2. absurd (no2 x))))

  escaped-Good :
      (ch : ℕ) (e : Envelope)
      → Reading phase e
      → e.utf ≡ 0
      → e.escape ≢ 2
      → Good (escaped ch (inner e))
  unfolding escaped character
  escaped-Good ch e r u one =
      if_elim Good (ch == b'u')
        (λ _. Reading-Inv _ (Reading-escape e r 2 0 (omega arith) (omega arith) u (λ _. refl)))
        λ _.
          if_elim Good (is_escape ch)
            (λ _.
              let c : ℕ = if stands_for_itself ch then ch else 0 in
              Reading-Inv _ (
                Reading-escape _
                  (Reading-text phase _ _ e (narrow-le_of (has_char e.index c) e r.ranges)
                    (bump_index-le e.index) r)
                  0 e.hex (omega arith) r.inside.hex_le u (λ _. r.inside.digits one)))
            (λ _. tt)

  lead_byte-Good :
      (o : Option ℕ) (ch : ℕ) (e : Envelope)
      → Holds (λ n. n ≤ 3) o
      → Reading phase e
      → e.escape ≡ 0
      → Good (lead_byte o ch (inner e))
  unfolding lead_byte
  lead_byte-Good none ch e o r x = tt
  lead_byte-Good (some n) ch e o r x =
      Reading-Inv _ (Reading-utf e r n _ _ o (lo_bound ch) (hi_bound ch) x)

  quiet : (e : Envelope) → Reading phase e → e.utf ≡ 0 → e.escape ≡ 0 → Quiet e
  quiet e r u x = (x, u, r.inside.digits (λ two. zero_ne_two e.escape x two))

  -- A key is complete.
  key-Inv :
      (e : Envelope) (p' s' : ℕ)
      → p' ≤ 3
      → s' ≤ 7
      → Reading phase e
      → e.utf ≡ 0
      → e.escape ≡ 0
      → Inv (framed (2 ∷ stack) (role ∷ roles) (p' ∷ pending) (s' ∷ seen) (record e { lex = 0 }))
  key-Inv e p' s' hp hs r u x =
      let (_, role_le, _, _, base, below) = f in
      record {
        ranges = omega (arith, r.ranges);
        frames = (omega arith, role_le, hp, hs, IsBase-two stack phase role base, below);
        depth = d;
        progress = (r.begun, r.going, quiet e r u x);
      }

  key_done-Good :
      (key : ℕ) (e : Envelope)
      → key ≤ 3
      → Reading phase e
      → e.utf ≡ 0
      → e.escape ≡ 0
      → Good (key_done key (phase ∷ stack) (role ∷ roles) (p ∷ pending) (s ∷ seen) (inner e))
  unfolding key_done
  key_done-Good key e k r u x =
      let (_, _, _, seen_le, _, _) = f in
      if_elim Good (is_relevant role key)
        (λ _.
          if_elim Good (test_bit s (key - 1)) (λ _. tt)
            (λ _.
              key-Inv e key (set_bit s (key - 1)) k (set_bit-le s (key - 1) seen_le (omega arith)) r
                u x))
        (λ _. key-Inv e 0 s (omega arith) seen_le r u x)

  abbrev After : Envelope → Type 0
  After u = Good (end_token (value_done u))

  -- A text is complete.
  text-Good :
      (e : Envelope)
      → Reading phase e
      → e.key ≡ 0
      → e.utf ≡ 0
      → e.escape ≡ 0
      → Good (end_token (value_done (inner e)))
  unfolding value_done
  text-Good e r k u x =
      value_done-Good (record e { lex = 0 })
        (record {
          ranges = omega (arith, r.ranges);
          no_token = refl;
          quiet = quiet e r u x;
          begun = r.begun;
          going = r.going;
        })
        (phase ∷ stack) (role ∷ roles) (p ∷ pending) (s ∷ seen) f
        (takes_value-le phase (r.inside.text_place k)) d

  store_name-Good :
      (v : ℕ) (e : Envelope)
      → v ≤ 12
      → Reading phase e
      → e.key ≡ 0
      → e.utf ≡ 0
      → e.escape ≡ 0
      → Good (end_token (value_done (store_name role v (inner e))))
  unfolding store_name
  store_name-Good v e le r k u x =
      let i = r.ranges in
      if_elim After (role == 1)
        (λ _.
          text-Good _
            (Reading-names phase v e.payload_type e.item_type e le i.payload_le i.item_le r) k u x)
        λ _.
          if_elim After (role == 2)
            (λ _.
              text-Good _ (Reading-names phase e.kind v e.item_type e i.kind_le le i.item_le r) k u
                x)
            λ _.
              if_elim After (role == 3)
                (λ _.
                  text-Good _
                    (Reading-names phase e.kind e.payload_type v e i.kind_le i.payload_le le r) k u
                    x)
                (λ _. text-Good e r k u x)

  string_done-Good :
      (e : Envelope) → Reading phase e → e.utf ≡ 0 → e.escape ≡ 0 → Good (string_done (inner e))
  unfolding string_done
  string_done-Good e r u x =
      if_elim Good (not (e.key == 0))
        (λ _. key_done-Good _ e (key_of-le (complete e.index 0 names e.mask)) r u x)
        λ text.
          let k : e.key ≡ 0 = ground arith in
          let m : ℕ = complete e.index 0 names e.mask in
          let v : ℕ = first_bit 1 (other_names names) m in
          let v_le : v ≤ 12 = value_le m in
          if_elim (λ u. Good (end_token (value_done u))) (not (role == 0) && p == 1)
            (λ _. store_name-Good (first_bit 1 (other_names names) m) e v_le r k u x)
            (λ _. text-Good e r k u x)

  continuation-le : (ch : ℕ) → Holds (λ n. n ≤ 3) (continuation ch)
  unfolding continuation
  continuation-le ch =
      if_elim (Holds (λ n. n ≤ 3)) (leb 194 ch && leb ch 223) (λ _. omega arith)
        λ _.
          if_elim (Holds (λ n. n ≤ 3)) (leb 224 ch && leb ch 239) (λ _. omega arith)
            λ _.
              if_elim (Holds (λ n. n ≤ 3)) (leb 240 ch && leb ch 244) (λ _. omega arith) (λ _. tt)

  -- Every byte inside a string keeps the invariant.
  pub string_byte-Good : (ch : ℕ) (e : Envelope) → Reading phase e → Good (string_byte ch (inner e))
  unfolding string_byte
  string_byte-Good ch e r =
      if_elim Good (not (e.utf == 0))
        (λ busy.
          if_elim Good (leb e.lo ch && leb ch e.hi)
            (λ _. Reading-Inv _ (
              Reading-utf e r (e.utf - 1) 128 191 (pred-le e.utf r.inside.utf_le) (omega arith)
                (omega arith) (r.inside.one_of (busy_ne e.utf busy))))
            (λ _. tt))
        λ calm.
          let u : e.utf ≡ 0 = calm_eq e.utf calm in
          if_elim Good (e.escape == 2)
            (λ two. hex_digit-Good (to_digit ch) e r u ((==_iff e.escape 2).0 two))
            λ not_two.
              if_elim Good (not (e.escape == 0))
                (λ _. escaped-Good ch e r u (ne_of e.escape 2 not_two))
                λ none_yet.
                  let x : e.escape ≡ 0 = calm_eq e.escape none_yet in
                  if_elim Good (ch == b'\\')
                    (λ _. Reading-Inv _ (
                      Reading-escape e r 1 e.hex (omega arith) r.inside.hex_le u
                        (λ _. r.inside.digits (ne_of e.escape 2 not_two))))
                    λ _.
                      if_elim Good (ch == b'"') (λ _. string_done-Good e r u x)
                        λ _.
                          if_elim Good (ltb ch 32) (λ _. tt)
                            λ _.
                              if_elim Good (ltb ch 128)
                                (λ _. Reading-Inv _ (character-Reading phase ch e r))
                                (λ _.
                                  lead_byte-Good (continuation ch) ch (character 0 e)
                                    (continuation-le ch) (character-Reading phase 0 e r) x)
