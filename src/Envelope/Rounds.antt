-- ===== src/Envelope/Rounds.antt =====
-- One round of `feed` of anton-runtime/src/envelope.rs keeps the invariant and does not panic.
use herdr_observatory.Envelope.{Envelope, push}
use herdr_observatory.Envelope.Bounds.{next_stage-le, word_at}
use herdr_observatory.Envelope.Frames.{framed}
use herdr_observatory.Envelope.Grammar.{next_stage, is_space, first_byte, plain_byte, round}
use herdr_observatory.Envelope.Invariant.{Ranges, Quiet, Token, Inv, Good}
use herdr_observatory.Envelope.Outside.{literal_byte-Good, number_byte-Good, phase_byte-Good}
use herdr_observatory.Envelope.Reading.{string_byte-Good}
use herdr_observatory.Prelude.{
  ℕ, zero, suc, ◌<◌, ◌≡◌, refl, true, false, not, ◌||◌, List, [], ◌∷◌, ◌==◌, ==_iff, arith, if_elim,
}
use mathlib.Core.Path.{subst}

clash : (n m : ℕ) → n ≡ 0 → 0 < m → (n == m) ≡ true → ⊥
clash n m e h t = ground arith

calm_eq : (n : ℕ) → not (n == 0) ≡ false → n ≡ 0
calm_eq n h = ground arith

idle-Token :
    (n phase : ℕ) (e : Envelope)
    → (n == 1) ≡ false
    → (n == 2) ≡ false
    → (n == 3) ≡ false
    → Token n phase e
    → (n ≡ 0) × Quiet e
idle-Token zero phase e a b c t = (refl, t)
idle-Token (suc zero) phase e a b c t = cc
idle-Token (suc (suc zero)) phase e a b c t = cc
idle-Token (suc (suc (suc zero))) phase e a b c t = cc
idle-Token (suc (suc (suc (suc n)))) phase e a b c t = absurd t

-- No container is open.
module _ (e : Envelope) where
  abbrev bare : Envelope
  bare = framed [] [] [] [] e

  bare-round-Good : (ch : ℕ) → Inv bare → Good (round ch bare)
  unfolding round plain_byte first_byte push
  bare-round-Good ch i =
      let (lex, q, same) = i.progress in
      let r : Ranges e = omega (arith, i.ranges) in
      if_elim Good (e.lex == 1) (λ h. absurd (clash e.lex 1 lex (omega arith) h))
        λ _.
          if_elim Good (e.lex == 3) (λ h. absurd (clash e.lex 3 lex (omega arith) h))
            λ _.
              if_elim Good (e.lex == 2) (λ h. absurd (clash e.lex 2 lex (omega arith) h))
                λ _.
                  if_elim Good (is_space ch) (λ _. i)
                    λ _.
                      if_elim Good (not (e.done == 0)) (λ _. tt)
                        λ going.
                          if_elim Good (not (e.started == 0) || not (ch == b'{')) (λ _. tt)
                            λ _. record {
                              ranges = omega (arith, r);
                              frames = (
                                omega arith,
                                omega arith,
                                omega arith,
                                omega arith,
                                (refl, omega arith),
                                tt,
                              );
                              depth = omega arith;
                              progress = (refl, calm_eq e.done going, rw lex q);
                            }

module _ (phase role p s : ℕ) (stack roles pending seen : List ℕ) (e : Envelope) where
  abbrev full : Envelope
  full = framed (phase ∷ stack) (role ∷ roles) (p ∷ pending) (s ∷ seen) e

  full-round-Good : (ch : ℕ) → Inv full → Good (round ch full)
  unfolding round plain_byte
  full-round-Good ch i =
      let (b, g, token) = i.progress in
      let r : Ranges e = omega (arith, i.ranges) in
      if_elim Good (e.lex == 1)
        (λ h.
          let l : e.lex ≡ 1 = (==_iff e.lex 1).0 h in
          string_byte-Good phase role p s stack roles pending seen i.frames i.depth ch e (record {
            ranges = r;
            in_string = l;
            begun = b;
            going = g;
            inside = subst (λ n. Token n phase full) l token;
          }))
        λ not1.
          if_elim Good (e.lex == 3)
            (λ h.
              let l : e.lex ≡ 3 = (==_iff e.lex 3).0 h in
              let (q, t, low, high) = subst (λ n. Token n phase full) l token in
              let (word, found, len) = word_at e.literal r.literal_le in
              rw found (
                literal_byte-Good phase role p s stack roles pending seen i.frames i.depth word ch e
                  len r b g q t low high l))
            λ not3.
              if_elim Good (e.lex == 2)
                (λ h.
                  let l : e.lex ≡ 2 = (==_iff e.lex 2).0 h in
                  let (q, t) = subst (λ n. Token n phase full) l token in
                  number_byte-Good phase role p s stack roles pending seen i.frames i.depth
                    (next_stage e.number ch) e (next_stage-le e.number ch) r b g q t l)
                (λ not2.
                  let (l, q) = idle-Token e.lex phase full not1 not2 not3 token in
                  if_elim Good (is_space ch) (λ _. i)
                    λ _.
                      if_elim Good (not (e.done == 0)) (λ _. tt)
                        λ _.
                          phase_byte-Good phase role p s stack roles pending seen i.frames i.depth e
                            (record { ranges = r; no_token = l; quiet = q; begun = b; going = g })
                            ch)

pub round-Good : (ch : ℕ) (e : Envelope) → Inv e → Good (round ch e)
round-Good ch e i = on e.stack e.roles e.pending e.seen i
  where
    on :
        (stack roles pending seen : List ℕ)
        → Inv (framed stack roles pending seen e)
        → Good (round ch (framed stack roles pending seen e))
    on [] [] [] [] i = bare-round-Good e ch i
    on (phase ∷ stack) (role ∷ roles) (p ∷ pending) (s ∷ seen) i =
        full-round-Good phase role p s stack roles pending seen e ch i
    on [] [] [] (s ∷ seen) i = absurd i.frames
    on [] [] (p ∷ pending) seen i = absurd i.frames
    on [] (role ∷ roles) pending seen i = absurd i.frames
    on (phase ∷ stack) [] pending seen i = absurd i.frames
    on (phase ∷ stack) (role ∷ roles) [] seen i = absurd i.frames
    on (phase ∷ stack) (role ∷ roles) (p ∷ pending) [] i = absurd i.frames
