-- ===== src/Claude/Reader.antt =====
-- One pass of anton-runtime/src/claude.rs over a transcript: `oversized`, `advance` and the checks of
-- `resumable`. The reads of the file succeed. What stands in the file from an offset on is a list of
-- bytes, and the clock of a pass is how often it is read before the deadline. The time of the last
-- pass, `at`, is left out: nothing here reads it.
use herdr_observatory.Claude.{Record}
use herdr_observatory.Claude.Apply.{settle, apply}
use herdr_observatory.Claude.Classifier.{Context, Classifier, default}
use herdr_observatory.Claude.Classifier.Feed.{feed, outcome}
use herdr_observatory.Claude.Parse.{parse_line, line, is_terminated}
use herdr_observatory.Claude.Row.{Row, invalid}
use herdr_observatory.Claude.Walk.{from_value}
use herdr_observatory.Json.{Value}
use herdr_observatory.Prelude.{
  ℕ, Bool, false, true, length, List, String, Option, none, some, not, ◌||◌, ◌&&◌, if◌then◌else◌,
  ◌==◌, leb, ltb, is_some, is_none, zero, suc, min, ◌+◌, ◌-◌,
}

pub record Fingerprint : Type 0 where
  pub size : ℕ
  pub mtime_us : ℕ
  pub header : String
  pub tail : String

pub record Reader : Type 0 where
  pub row : Row
  pub device : ℕ
  pub inode : ℕ
  pub offset : ℕ
  pub caught_up : Bool
  pub skipping : Bool
  pub classifier : Option Classifier
  pub fingerprint : Option Fingerprint

-- `LINE` and `TAIL`.
abbrev pub line_limit : ℕ
line_limit = 65536

abbrev pub pass_limit : ℕ
pass_limit = 524288

-- The classifier that goes on, or a new one where the line is new.
abbrev pub taken : Bool → Option Classifier → Option Classifier
taken fresh none = if fresh then some default else none
taken fresh (some c) = some c

abbrev pub fed : Option Classifier → Bool → Reader → Reader
fed none terminated r = record r { row = invalid r.row }
fed (some c) terminated r =
    if not terminated
    then record r { classifier = some c }
    else record r { row = settle (outcome c) r.row }

-- A rewind of the line that this pass began, to read it whole in the next one.
abbrev pub rewind_open : ℕ → Option ℕ → Reader → Reader
rewind_open first none r = r
rewind_open first (some start) r =
    if is_some r.classifier && (not (start == first) || ltb (r.offset - start) pass_limit)
    then record r { offset = start; skipping = false; classifier = none }
    else r

abbrev pub restore : ℕ → Option ℕ → Option Classifier → Reader → Reader
restore first open_line none r = r
restore first open_line (some c) r =
    if is_none open_line && r.skipping && is_some r.classifier && ltb (r.offset - first) pass_limit
    then record r { offset = first; classifier = some c }
    else r

-- The start of a line over the limit that is not finished.
abbrev pub opened_at : Bool → Bool → ℕ → Option ℕ → Option ℕ
opened_at terminated skipping start open_line =
    if terminated then none else if skipping then open_line else some start

module _ (x : Context) (from_slice : List ℕ → Option Value) where
  abbrev pub classify_with : Option Classifier → List ℕ → Bool → Reader → Reader
  classify_with none bytes terminated r = r
  classify_with (some c) bytes terminated r = fed (feed x bytes c) terminated r

  -- One part of a line over the limit, or a whole line that serde rejects.
  unfoldable pub oversized : List ℕ → Bool → Reader → Reader
  unfolding feed outcome settle invalid
  oversized bytes terminated r =
      classify_with (taken (not r.skipping) r.classifier) bytes terminated
        (record r { skipping = not terminated; classifier = none })

  abbrev pub apply_record : Option Record → Reader → Reader
  apply_record none r = record r { row = invalid r.row }
  apply_record (some e) r = record r { row = apply e r.row }

  abbrev pub apply_value : Option Value → List ℕ → Reader → Reader
  apply_value none bytes r = oversized bytes true r
  apply_value (some v) bytes r = apply_record (from_value x v) r

  -- A whole line.
  unfoldable pub read_line : List ℕ → Reader → Reader
  unfolding oversized from_value parse_line apply invalid
  read_line bytes r = apply_value (parse_line from_slice bytes) bytes r

  -- The lines from `start` up to `limit`, and the line that stays open.
  unfoldable pub lines : ℕ → ℕ → ℕ → List ℕ → Option ℕ → Reader → Option ℕ × Reader
  unfolding oversized read_line line is_terminated
  lines zero limit start stream open_line r = (open_line, r)
  lines (suc ticks) limit start stream open_line r =
      let (bytes, rest) = line (min (line_limit + 1) (limit - start)) stream in
      let next = start + length bytes in
      let ended = is_terminated bytes in
      let is_long = r.skipping || ltb line_limit (length bytes) in
      let r' = if is_long then oversized bytes ended r else read_line bytes r in
      let open' = if is_long then opened_at ended r.skipping start open_line else open_line in
      elim (not (ltb start limit) || leb (length bytes) 0 || (not is_long && not ended)) [
        | true ↦ (open_line, r)
        | false ↦ lines ticks limit next rest open' (record r' { offset = next })
      ]

  abbrev pub closed : ℕ → Option Classifier → Option ℕ × Reader → Reader
  closed first continued (open_line, r) =
      restore first open_line continued (rewind_open first open_line r)

  -- `advance`: `stream` is the file from the offset of the row on.
  unfoldable pub advance : ℕ → ℕ → List ℕ → Reader → Reader
  unfolding lines
  advance ticks limit stream r =
      closed r.offset (if r.skipping then r.classifier else none)
        (lines ticks limit r.offset stream none r)
