-- ===== src/Claude/Analysed.antt =====
-- The analysis of a text in anton-runtime/src/claude/text.rs ends, and its result passes `validate`.
use herdr_observatory.Claude.{Text, lead_notification, lead_other}
use herdr_observatory.Claude.Analyse.{
  has_trailer, wrappers, markers, led, notified, position_from, is_task_id, statuses, close_of,
  status_other, position, is_space, is_name_char, strip_prefix, name_at, skip_spaces, close_name,
  tag, find_close, element, scan, analyse, text_valid, Seen,
}
use herdr_observatory.Common.{codes, same_bytes, hex_id}
use herdr_observatory.Prelude.{
  Option, ℕ, Bool, true, false, String, List, any, ◌+◌, Bool-cases, is_some, ◌&&◌, ◌≡◌, unwrap_or,
  ◌==◌, ◌<◌, ◌≤◌, if_elim, Holds, Option-cases, zero, suc, none, some, [], ◌∷◌, if◌then◌else◌,
  length, refl, inl, inr, arith,
}

length-skip_spaces : (us : List ℕ) → length (skip_spaces us) ≤ length us
length-skip_spaces [] = omega arith
length-skip_spaces (c ∷ cs) =
    if_elim (λ (l : List ℕ). length l ≤ suc (length cs)) (is_space c)
      (λ _. omega (arith, length-skip_spaces cs)) (λ _. omega arith)

-- What follows a part is no longer than the whole.
abbrev Shorter : ℕ → Option (List ℕ × List ℕ) → Type 0
Shorter n o = Holds (λ p. length p.1 ≤ n) o

longer_name :
    (c n : ℕ) (o : Option (List ℕ × List ℕ))
    → Shorter n o
    → Shorter (suc n) (elim o [ none ↦ none | some (name, rest) ↦ some (c ∷ name, rest) ])
longer_name c n none h = tt
longer_name c n (some (name, rest)) h = omega (arith, h)

name_at-Shorter : (n : ℕ) (us : List ℕ) → Shorter (length us) (name_at n us)
name_at-Shorter zero us = tt
name_at-Shorter (suc n) [] = tt
name_at-Shorter (suc n) (c ∷ cs) =
    if_elim (Shorter (suc (length cs))) (is_name_char c)
      (λ _. longer_name c (length cs) (name_at n cs) (name_at-Shorter n cs)) (λ _. omega arith)

close_name-Shorter : (n : ℕ) (o : Option (List ℕ × List ℕ)) → Shorter n o → Shorter n (close_name o)
close_name-Shorter n none h = tt
close_name-Shorter n (some ([], rest)) h = tt
close_name-Shorter n (some (c ∷ name, [])) h = tt
close_name-Shorter n (some (c ∷ name, end ∷ rest)) h =
    if_elim (Shorter n) (end == b'>') (λ _. omega (arith, h)) (λ _. tt)

below : (n : ℕ) (o : Option (List ℕ × List ℕ)) → Shorter n o → Holds (λ p. length p.1 < suc n) o
below n none h = tt
below n (some p) h = omega (arith, h)

wider :
    (n : ℕ) (o : Option (List ℕ)) → Holds (λ l. length l ≤ n) o → Holds (λ l. length l ≤ suc n) o
wider n none h = tt
wider n (some l) h = omega (arith, h)

-- A tag takes a unit at least.
tag-shorter : (us : List ℕ) → Holds (λ p. length p.1 < length us) (tag us)
unfolding tag
tag-shorter [] = tt
tag-shorter (c ∷ cs) =
    if_elim (Holds (λ p. length p.1 < suc (length cs))) (c == b'<')
      (λ _.
        below (length cs) (close_name (name_at 33 cs))
          (close_name-Shorter (length cs) (name_at 33 cs) (name_at-Shorter 33 cs)))
      (λ _. tt)

strip_prefix-length :
    (close us : List ℕ) → Holds (λ after. length after ≤ length us) (strip_prefix close us)
strip_prefix-length [] us = omega arith
strip_prefix-length (c ∷ cs) [] = tt
strip_prefix-length (c ∷ cs) (u ∷ us) =
    if_elim (Holds (λ after. length after ≤ suc (length us))) (c == u)
      (λ _. wider (length us) (strip_prefix cs us) (strip_prefix-length cs us)) (λ _. tt)

window-Shorter :
    (u n : ℕ) (o : Option (List ℕ)) (q : Option (List ℕ × List ℕ))
    → Holds (λ l. length l ≤ suc n) o
    → Shorter n q
    → Shorter (suc n) (elim o [
      | some after ↦ some ([], after)
      | none ↦ elim q [ none ↦ none | some (value, after) ↦ some (u ∷ value, after) ]
    ])
window-Shorter u n none q o h = longer_name u n q h
window-Shorter u n (some after) q o h = o

find_close-Shorter : (close us : List ℕ) → Shorter (length us) (find_close close us)
unfolding find_close
find_close-Shorter close [] = tt
find_close-Shorter close (u ∷ us) =
    window-Shorter u (length us) (strip_prefix close (u ∷ us)) (find_close close us)
      (strip_prefix-length close (u ∷ us)) (find_close-Shorter close us)

-- A task that is known is a hash, and a status is one that is known.
abbrev SeenOk : Seen → Type 0
SeenOk (task, status) =
    Holds (λ id. Holds (λ key. hex_id key 64 ≡ true) id) task × (status ≤ status_other)

-- The position of a name, or a default beyond all of them.
position_from-le :
    (n d : ℕ) (names : List String) (value : List ℕ)
    → n + length names ≤ d
    → unwrap_or (position_from n names value) d ≤ d
position_from-le n d [] value le = omega arith
position_from-le n d (name ∷ names) value le =
    if_elim (λ o. unwrap_or o d ≤ d) (same_bytes (codes name) value) (λ _. omega (arith, le))
      (λ _. position_from-le (suc n) d names value (omega (arith, le)))

plain-valid :
    (interrupt : Bool) (lead : ℕ)
    → lead ≤ lead_other
    → text_valid (record { lead = lead; interrupt = interrupt; task = none; status = 0 }) ≡ true
unfolding text_valid
plain-valid interrupt lead le = ground (arith, le)

module _ (sha256 : List ℕ → String)
    (hashed : (bytes : List ℕ) → hex_id (sha256 bytes) 64 ≡ true) where
  task-SeenOk :
      (b : Bool) (value : List ℕ)
      → Holds (λ key. hex_id key 64 ≡ true) (if b then some (sha256 value) else none)
  task-SeenOk true value = hashed value
  task-SeenOk false value = tt

  element-SeenOk :
      (name value : List ℕ) (seen : Seen) → SeenOk seen → SeenOk (element sha256 name value seen).1
  unfolding element
  element-SeenOk name value (task, status) (known, le) =
      if_elim (λ (p : Bool × Seen). SeenOk p.1) (same_bytes name (codes "task-id") && is_some task)
        (λ _. (tt, le))
        (λ _. (
          if_elim (λ t. Holds (λ id. Holds (λ key. hex_id key 64 ≡ true) id) t)
              (same_bytes name (codes "task-id")) (λ _. task-SeenOk (is_task_id value) value)
              (λ _. known),
          if_elim (λ n. n ≤ status_other) (same_bytes name (codes "status") && status == 0)
              (λ _. position_from-le 1 5 statuses value (omega arith)) (λ _. le),
        ))

  -- With more fuel than units the scan ends.
  scan-SeenOk :
      (n : ℕ) (rest : List ℕ) (seen : Seen)
      → length rest < n
      → SeenOk seen
      → (found : Seen) × (scan sha256 n rest seen ≡ some found) × SeenOk found
  unfolding scan
  scan-SeenOk zero rest seen enough ok = absurd (omega (arith, enough))
  scan-SeenOk (suc n) rest seen enough ok =
      let rest' = skip_spaces rest in
      elim (Option-cases (tag rest')) [
        | inl e ↦ (seen, rw (e, scan) refl, ok)
        | inr ((name, start), e) ↦
            let shorter : length start < length rest' = rw e at (tag-shorter rest') in
            elim (Option-cases (find_close (close_of name) start)) [
              | inl d ↦ (seen, rw (e, d, scan) refl, ok)
              | inr ((value, after), d) ↦
                  let left : length after ≤ length start =
                    rw d at (find_close-Shorter (close_of name) start) in
                  let found = (element sha256 name value seen).1 in
                  let kept : SeenOk found = element-SeenOk name value seen ok in
                  elim (Bool-cases (element sha256 name value seen).0) [
                    | inl stop ↦ (found, rw (e, d, stop, scan) refl, kept)
                    | inr go ↦
                        let (last, same, good) =
                          scan-SeenOk n after found
                            (omega (arith, enough, shorter, left, length-skip_spaces rest)) kept in
                        (last, rw (e, d, go, scan) same, good)
                  ]
            ]
      ]

  notified-valid :
      (interrupt trailer : Bool) (found : Seen)
      → SeenOk found
      → (t : Text) × (notified interrupt trailer (some found) ≡ some t) × (text_valid t ≡ true)
  unfolding text_valid
  notified-valid interrupt true (task, status) (known, le) = (_, refl, ground (arith, le))
  notified-valid interrupt false (none, status) (known, le) = (_, refl, ground (arith, le))
  notified-valid interrupt false (some none, status) (known, le) = (_, refl, ground (arith, le))
  notified-valid interrupt false (some (some key), status) (known, le) =
      (_, refl, ground (arith, le, known))

  led-valid :
      (interrupt : Bool) (o : Option (List ℕ × List ℕ))
      → (t : Text) × (led sha256 interrupt o ≡ some t) × (text_valid t ≡ true)
  unfolding text_valid
  led-valid interrupt none = (_, refl, refl)
  led-valid interrupt (some (name, after)) =
      let lead = unwrap_or (position wrappers name) lead_other in
      let trailer = has_trailer (find_close (codes "</task-notification>") after) in
      elim (Bool-cases (lead == lead_notification)) [
        | inl h ↦
            let (found, same, good) =
              scan-SeenOk (suc (length after)) after (none, 0) (omega arith) (tt, omega arith) in
            let (t, e, valid) = notified-valid interrupt trailer found good in
            (t, rw (h, same) e, valid)
        | inr h ↦ (
          record { lead = lead; interrupt = interrupt; task = none; status = 0 },
          rw h refl,
          plain-valid interrupt lead (position_from-le 1 8 wrappers name (omega arith)),
        )
      ]

  -- The scan of every text ends, and what is derived of it passes `validate`, given a digest of 64
  -- hexadecimal digits.
  pub analyse-valid :
      (units : List ℕ) → (t : Text) × (analyse sha256 units ≡ some t) × (text_valid t ≡ true)
  unfolding analyse
  analyse-valid units =
      led-valid (any (λ marker. same_bytes units (codes marker)) markers) (tag units)
