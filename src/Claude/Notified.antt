-- ===== src/Claude/Notified.antt =====
-- A task notification, as it is written, is read back by anton-runtime/src/claude/text.rs.
use herdr_observatory.Claude.{lead_notification}
use herdr_observatory.Claude.Analyse.{
  notified, analyse, status_other, statuses, position, close_of, position_from, skip_spaces, tag,
  Seen, element, scan, is_task_id, find_close, strip_prefix, has_trailer,
}
use herdr_observatory.Common.{same_bytes, is_alphanumeric, codes}
use herdr_observatory.Prelude.{
  String, Option, ℕ, Bool, true, false, List, ap, if_elim, suc, leb, length, unwrap_or, ltb, ◌||◌,
  ◌<◌, ◌∙◌, not-eq_true, ◌&&◌, ==_iff, &&-eq_true, is_none, all, ◌≡◌, ◌==◌, none, some, [], ◌∷◌,
  ◌++◌, not, refl, arith,
}

-- The block of one task with its status.
abbrev pub block : List ℕ → List ℕ → List ℕ
block task status =
    codes "<task-notification>\n<task-id>"
    ++ (task
        ++ (codes "</task-id>\n<status>" ++ (status ++ codes "</status>\n</task-notification>")))

-- No tag begins in these units.
abbrev pub is_plain : List ℕ → Bool
is_plain units = all (λ c. not (c == b'<')) units

strip_prefix-append : (close rest : List ℕ) → strip_prefix close (close ++ rest) ≡ some rest
strip_prefix-append [] rest = refl
strip_prefix-append (c ∷ cs) rest = rw ((==_iff c c).1 refl) (strip_prefix-append cs rest)

differs : (u : ℕ) → (u == b'<') ≡ false → (b'<' == u) ≡ false
differs u h = ground (arith, h)

-- The first closing tag after plain units.
find_close-append :
    (cs value rest : List ℕ)
    → is_plain value ≡ true
    → find_close (b'<' ∷ cs) (value ++ (b'<' ∷ (cs ++ rest))) ≡ some (value, rest)
unfolding find_close
find_close-append cs [] rest plain = rw (strip_prefix-append cs rest) refl
find_close-append cs (u ∷ us) rest plain =
    let (other, others) = &&-eq_true (not (u == b'<')) (is_plain us) plain in
    rw (differs u (not-eq_true (u == b'<') other), find_close-append cs us rest others, find_close)
      refl

-- `close` begins nowhere in these units.
abbrev passes : List ℕ → List ℕ → List ℕ → Bool
passes close [] rest = true
passes close (u ∷ us) rest = is_none (strip_prefix close (u ∷ (us ++ rest))) && passes close us rest

has_trailer-step :
    (u : ℕ) (us : List ℕ) (o : Option (List ℕ)) (q : Option (List ℕ × List ℕ))
    → is_none o ≡ true
    → has_trailer (elim o [
      | some after ↦ some ([], after)
      | none ↦ elim q [ none ↦ none | some (value, after) ↦ some (u ∷ value, after) ]
    ])
      ≡ has_trailer q
has_trailer-step u us none none h = refl
has_trailer-step u us none (some (value, after)) h = refl
has_trailer-step u us (some after) q h = absurd (ground (arith, h))

trailer_over :
    (close us rest : List ℕ)
    → passes close us rest ≡ true
    → has_trailer (find_close close (us ++ rest)) ≡ has_trailer (find_close close rest)
unfolding find_close
trailer_over close [] rest h = refl
trailer_over close (u ∷ us) rest h =
    let (first, others) =
      &&-eq_true (is_none (strip_prefix close (u ∷ (us ++ rest)))) (passes close us rest) h in
    has_trailer-step u (us ++ rest) (strip_prefix close (u ∷ (us ++ rest)))
      (find_close close (us ++ rest)) first
    ∙ trailer_over close us rest others

plain-passes : (cs us rest : List ℕ) → is_plain us ≡ true → passes (b'<' ∷ cs) us rest ≡ true
plain-passes cs [] rest plain = refl
plain-passes cs (u ∷ us) rest plain =
    let (other, others) = &&-eq_true (not (u == b'<')) (is_plain us) plain in
    rw (differs u (not-eq_true (u == b'<') other), plain-passes cs us rest others) refl

abbrev after_task : List ℕ → List ℕ
after_task word = codes "\n<status>" ++ (word ++ codes "</status>\n</task-notification>")

abbrev after_block : List ℕ → List ℕ → List ℕ
after_block task word = codes "\n<task-id>" ++ (task ++ (codes "</task-id>" ++ after_task word))

task-plain : (c : ℕ) → (is_alphanumeric c || c == b'_' || c == b'-') ≡ true → not (c == b'<') ≡ true
task-plain c h = ground (arith, h)

all-plain :
    (us : List ℕ)
    → all (λ c. is_alphanumeric c || c == b'_' || c == b'-') us ≡ true
    → is_plain us ≡ true
all-plain [] h = refl
all-plain (u ∷ us) h =
    let (first, rest) =
      &&-eq_true (is_alphanumeric u || u == b'_' || u == b'-')
        (all (λ c. is_alphanumeric c || c == b'_' || c == b'-') us) h in
    rw (task-plain u first, all-plain us rest) refl

is_task_id-plain : (task : List ℕ) → is_task_id task ≡ true → is_plain task ≡ true
is_task_id-plain task h =
    all-plain task
      (&&-eq_true (ltb 0 (length task) && leb (length task) 128)
        (all (λ c. is_alphanumeric c || c == b'_' || c == b'-') task) h).1

-- A known status or the other one is not 0.
position_from-pos :
    (n d : ℕ) (names : List String) (value : List ℕ)
    → 0 < n
    → 0 < d
    → (unwrap_or (position_from n names value) d == 0) ≡ false
position_from-pos n d [] value n_pos d_pos = ground (arith, d_pos)
position_from-pos n d (name ∷ names) value n_pos d_pos =
    if_elim (λ o. (unwrap_or o d == 0) ≡ false) (same_bytes (codes name) value)
      (λ _. ground (arith, n_pos))
      (λ _. position_from-pos (suc n) d names value (omega arith) d_pos)

module _ (sha256 : List ℕ → String) where
  scan-element :
      (n : ℕ) (rest name start value after : List ℕ) (seen : Seen)
      → tag (skip_spaces rest) ≡ some (name, start)
      → find_close (close_of name) start ≡ some (value, after)
      → scan sha256 (suc n) rest seen ≡ elim (element sha256 name value seen).0 [
        | true ↦ some (element sha256 name value seen).1
        | false ↦ scan sha256 n after (element sha256 name value seen).1
      ]
  unfolding scan
  scan-element n rest name start value after seen t c = rw (t, c, scan) refl

  scan_status :
      (n : ℕ) (word : List ℕ) (key : String)
      → is_plain word ≡ true
      → scan sha256 (suc n) (after_task word) (some (some key), 0)
        ≡ some (some (some key), unwrap_or (position statuses word) status_other)
  unfolding element tag
  scan_status n word key plain =
      scan-element n (after_task word) (codes "status")
        (word ++ codes "</status>\n</task-notification>") word (codes "\n</task-notification>")
        (some (some key), 0) refl
        (find_close-append (codes "/status>") word (codes "\n</task-notification>") plain)
      ∙ rw (position_from-pos 1 5 statuses word (omega arith) (omega arith)) refl

  scan_block :
      (n : ℕ) (task word : List ℕ)
      → is_task_id task ≡ true
      → is_plain word ≡ true
      → scan sha256 (suc (suc n)) (after_block task word) (none, 0)
        ≡ some (some (some (sha256 task)), unwrap_or (position statuses word) status_other)
  unfolding element tag
  scan_block n task word good plain =
      scan-element (suc n) (after_block task word) (codes "task-id")
        (task ++ (codes "</task-id>" ++ after_task word)) task (after_task word) (none, 0) refl
        (find_close-append (codes "/task-id>") task (after_task word) (is_task_id-plain task good))
      ∙ rw good (scan_status n word (sha256 task) plain)

trailer_block :
    (task word : List ℕ)
    → is_plain task ≡ true
    → is_plain word ≡ true
    → has_trailer (find_close (codes "</task-notification>") (after_block task word)) ≡ false
unfolding find_close
trailer_block task word t w =
    let close = codes "</task-notification>" in
    let ending = codes "</status>\n</task-notification>" in
    let rest = codes "</task-id>\n<status>" ++ (word ++ ending) in
    trailer_over close (codes "\n<task-id>") (task ++ rest) refl
    ∙ trailer_over close task rest (plain-passes (codes "/task-notification>") task rest t)
    ∙ trailer_over close (codes "</task-id>\n<status>") (word ++ ending) refl
    ∙ trailer_over close word ending (plain-passes (codes "/task-notification>") word ending w)
    ∙ refl

-- The block of a task whose identity is accepted, with a status that has no tag in it, is read back
-- as the digest of that identity and the number of that status.
pub analyse-block :
    (sha256 : List ℕ → String) (task word : List ℕ)
    → is_task_id task ≡ true
    → is_plain word ≡ true
    → analyse sha256 (block task word)
      ≡ some (record {
        lead = lead_notification;
        interrupt = false;
        task = some (sha256 task);
        status = unwrap_or (position statuses word) status_other;
      })
unfolding analyse tag
analyse-block sha256 task word good plain =
    let rest = codes "</task-id>" ++ after_task word in
    let trailer = trailer_block task word (is_task_id-plain task good) plain in
    let found =
      scan_block sha256 (length (codes "<task-id>" ++ (task ++ rest))) task word good plain in
    ap
      (λ b. notified false b (
        scan sha256 (suc (suc (length (codes "<task-id>" ++ (task ++ rest)))))
          (after_block task word) (none, 0)))
      trailer
    ∙ ap (notified false false) found
