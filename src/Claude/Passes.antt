-- ===== src/Claude/Passes.antt =====
-- The rows that passes of anton-runtime/src/claude.rs over a transcript reach, however the file changes
-- between them and wherever they stop.
use herdr_observatory.Claude.{Record}
use herdr_observatory.Claude.Apply.{apply, rejected, whole, settle}
use herdr_observatory.Claude.Classifier.{Context, Classifier}
use herdr_observatory.Claude.Classifier.Fed.{feed-Fills}
use herdr_observatory.Claude.Classifier.Feed.{has_lost, is_open, feed, outcome}
use herdr_observatory.Claude.Classifier.Filled.{Fills}
use herdr_observatory.Claude.Finish.{finish}
use herdr_observatory.Claude.Finished.{finish-RecordOk}
use herdr_observatory.Claude.KeepApply.{RecordOk}
use herdr_observatory.Claude.Parse.{is_terminated, line, parse_line}
use herdr_observatory.Claude.Reader.{
  opened_at, line_limit, apply_record, classify_with, apply_value, taken, read_line, fed, lines,
  Reader, oversized,
}
use herdr_observatory.Claude.Replayed.{Replayed, settled, OutcomeOk}
use herdr_observatory.Claude.Row.{invalid, Row}
use herdr_observatory.Claude.Walk.{from_value}
use herdr_observatory.Claude.Walked.{default-Fills, from_value-RecordOk}
use herdr_observatory.Common.{hex_id}
use herdr_observatory.Envelope.Bits.{test_bit}
use herdr_observatory.Json.{Value}
use herdr_observatory.Prelude.{
  ℕ, Bool, false, true, zero, inr, inl, leb, Bool-cases, length, ltb, ◌-◌, ◌+◌, min, List, String,
  Option, none, some, not, ◌||◌, ◌&&◌, if◌then◌else◌, ◌==◌, ◌≡◌, Holds, if_elim, suc,
}

-- What holds of a row and of the classifier of the line that is being read.
abbrev pub ReaderOk : Context → Reader → Type 0
ReaderOk x r = Replayed x.horizon r.row × Holds (Fills x) r.classifier

outcome-Ok : (x : Context) (c : Classifier) → Fills x c → OutcomeOk x.horizon (outcome c)
unfolding outcome
outcome-Ok x c f =
    if_elim (OutcomeOk x.horizon) (is_open c || test_bit c.lost 1 || test_bit c.lost 3) (λ _. tt)
      λ _.
        let e = finish c.message_object c.iterations c.blocks.content c.blocks.prompt c.entry in
        if_elim (OutcomeOk x.horizon)
          ((has_lost 64 e.kind c.lost || c.overflow) && not (e.identity == 2 || e.forked)) (λ _. tt)
          (λ _.
            finish-RecordOk c.message_object c.iterations c.blocks.content c.blocks.prompt c.entry
              f)

invalid-Replayed : {horizon : ℕ} (r : Row) → Replayed horizon r → Replayed horizon (invalid r)
unfolding settle
invalid-Replayed r p = settled rejected tt p

apply-Replayed :
    {horizon : ℕ} (e : Record) (r : Row)
    → RecordOk horizon e
    → Replayed horizon r
    → Replayed horizon (apply e r)
unfolding settle
apply-Replayed e r k p = settled (whole e) k p

fed-Ok :
    (x : Context) (o : Option Classifier) (terminated : Bool) (r : Reader)
    → Holds (Fills x) o
    → ReaderOk x (record r { classifier = none })
    → ReaderOk x (fed o terminated (record r { classifier = none }))
fed-Ok x none terminated r f (p, _) = (invalid-Replayed r.row p, tt)
fed-Ok x (some c) true r f (p, _) = (settled (outcome c) (outcome-Ok x c f) p, tt)
fed-Ok x (some c) false r f (p, _) = (p, f)

taken-Ok :
    (x : Context) (is_new : Bool) (o : Option Classifier)
    → Holds (Fills x) o
    → Holds (Fills x) (taken is_new o)
taken-Ok x true none f = default-Fills x
taken-Ok x false none f = tt
taken-Ok x is_new (some c) f = f

module _ (x : Context) (from_slice : List ℕ → Option Value)
    (hex : (s : String) → hex_id (x.sha256 s) 64 ≡ true) where
  classify_with-Ok :
      (o : Option Classifier) (bytes : List ℕ) (terminated : Bool) (r : Reader)
      → Holds (Fills x) o
      → Replayed x.horizon r.row
      → ReaderOk x (classify_with x from_slice o bytes terminated (record r { classifier = none }))
  classify_with-Ok none bytes terminated r f p = (p, tt)
  classify_with-Ok (some c) bytes terminated r f p =
      fed-Ok x (feed x bytes c) terminated r (feed-Fills x hex bytes c f) (p, tt)

  oversized-Ok :
      (bytes : List ℕ) (terminated : Bool) (r : Reader)
      → ReaderOk x r
      → ReaderOk x (oversized x from_slice bytes terminated r)
  unfolding oversized
  oversized-Ok bytes terminated r (p, f) =
      classify_with-Ok (taken (not r.skipping) r.classifier) bytes terminated
        (record r { skipping = not terminated }) (taken-Ok x (not r.skipping) r.classifier f) p

  apply_record-Ok :
      (o : Option Record) (r : Reader)
      → Holds (RecordOk x.horizon) o
      → ReaderOk x r
      → ReaderOk x (apply_record x from_slice o r)
  apply_record-Ok none r k (p, f) = (invalid-Replayed r.row p, f)
  apply_record-Ok (some e) r k (p, f) = (apply-Replayed e r.row k p, f)

  apply_value-Ok :
      (o : Option Value) (bytes : List ℕ) (r : Reader)
      → ReaderOk x r
      → ReaderOk x (apply_value x from_slice o bytes r)
  apply_value-Ok none bytes r k = oversized-Ok bytes true r k
  apply_value-Ok (some v) bytes r k =
      apply_record-Ok (from_value x v) r (from_value-RecordOk x hex v) k

  pub read_line-Ok :
      (bytes : List ℕ) (r : Reader) → ReaderOk x r → ReaderOk x (read_line x from_slice bytes r)
  unfolding read_line
  read_line-Ok bytes r k = apply_value-Ok (parse_line from_slice bytes) bytes r k

  pub lines-Ok :
      (ticks limit start : ℕ) (stream : List ℕ) (open_line : Option ℕ) (r : Reader)
      → ReaderOk x r
      → ReaderOk x ((lines x from_slice ticks limit start stream open_line r).1)
  unfolding lines
  lines-Ok zero limit start stream open_line r k = k
  lines-Ok (suc ticks) limit start stream open_line r k =
      let (bytes, rest) = line (min (line_limit + 1) (limit - start)) stream in
      let ended = is_terminated bytes in
      let is_long = r.skipping || ltb line_limit (length bytes) in
      elim (Bool-cases
        (not (ltb start limit) || leb (length bytes) 0 || (not is_long && not ended))) [
          | inl e ↦ rw (lines, e) k
          | inr e ↦
              rw (lines, e)
                (lines-Ok ticks limit (start + length bytes) rest
                  (if is_long then opened_at ended r.skipping start open_line else open_line) _
                  (if_elim (ReaderOk x) is_long (λ _. oversized-Ok bytes ended r k)
                    (λ _. read_line-Ok bytes r k)))
        ]
