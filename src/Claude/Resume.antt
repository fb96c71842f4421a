-- ===== src/Claude/Resume.antt =====
-- `header`, `session_identity`, `resumable` and `resume` of anton-runtime/src/claude.rs: what a pass
-- over a transcript starts from. The checks of the path stand before them, and the reads of the file
-- succeed.
use herdr_observatory.Claude.Apply.{Outcome, rejected, uncertain, whole}
use herdr_observatory.Claude.Classifier.{Context, Classifier, default}
use herdr_observatory.Claude.Classifier.Feed.{feed, suspend, outcome}
use herdr_observatory.Claude.Parse.{parse_line, line, is_terminated}
use herdr_observatory.Claude.Reader.{
  Reader, Fingerprint, advance, read_line, line_limit, pass_limit,
}
use herdr_observatory.Claude.Row.{new}
use herdr_observatory.Claude.Valid.{gate}
use herdr_observatory.Json.{Value, get, text, object}
use herdr_observatory.Prelude.{
  ℕ, Bool, false, true, length, str_eq, List, String, Option, none, some, [], ◌∷◌, not, ◌||◌, ◌&&◌,
  if◌then◌else◌, ◌==◌, leb, ltb, is_none, zero, suc, min, ◌+◌, ◌-◌, is_some_and,
}
use herdr_observatory.Result.{Result, ok, err}

-- A file: its metadata and what it holds.
pub record File : Type 0 where
  pub device : ℕ
  pub inode : ℕ
  pub mtime_us : ℕ
  pub bytes : List ℕ

pub data Identity : Type 0 where
  matching : Identity
  absent : Identity
  mismatching : Identity

abbrev pub identity_at : String → Option Value → Identity
identity_at id none = absent
identity_at id (some (text value)) = if str_eq value id then matching else mismatching
identity_at id (some _) = mismatching

unfoldable pub session_identity : Value → String → Identity
unfolding get
session_identity (object fields) id = identity_at id (get "sessionId" fields)
session_identity _ id = absent

abbrev pub is_match : Identity → Bool
is_match matching = true
is_match _ = false

abbrev pub drop : ℕ → List ℕ → List ℕ
drop zero bytes = bytes
drop (suc n) [] = []
drop (suc n) (b ∷ bytes) = drop n bytes

abbrev pub take : ℕ → List ℕ → List ℕ
take zero bytes = []
take (suc n) [] = []
take (suc n) (b ∷ bytes) = b ∷ take n bytes

-- What the classifier says of the session of a header, `none` where it is no record.
abbrev pub judged : ℕ → Outcome → Option Bool
judged identity rejected = none
judged identity (uncertain kind) = some (identity == 1)
judged identity (whole e) = some (e.identity == 1)

abbrev pub judge : Option Classifier → Option Bool
judge none = none
judge (some c) = judged c.entry.identity (outcome c)

-- `Row::new`.
abbrev pub new_reader : File → ℕ → Reader
new_reader file offset = record {
  row = new;
  device = file.device;
  inode = file.inode;
  offset = offset;
  caught_up = false;
  skipping = false;
  classifier = none;
  fingerprint = none;
}

abbrev pub suspended : Option Classifier → Option Classifier
suspended none = none
suspended (some c) = some (suspend c)

-- The row is of this file, and its offset lies in it, after the header.
abbrev pub is_in_place : List ℕ → File → Reader → Bool
is_in_place head file r =
    r.device == file.device
    && r.inode == file.inode
    && (r.skipping || is_none r.classifier)
    && leb (length head) r.offset
    && leb r.offset (length file.bytes)

module _ (x : Context) (from_slice : List ℕ → Option Value) where
  unfoldable pub is_bound : List ℕ → Option Value → Option Bool
  unfolding session_identity feed outcome
  is_bound bytes none = judge (feed x bytes default)
  is_bound bytes (some v) = some (is_match (session_identity v x.id))

  abbrev pub bound_header : List ℕ → Option Bool → Result (List ℕ)
  bound_header bytes none = err "Invalid Claude session header"
  bound_header bytes (some matched) =
      if matched then ok bytes else err "Claude session identity mismatch"

  -- The first line, which must name the session.
  unfoldable pub header : List ℕ → Result (List ℕ)
  unfolding is_bound parse_line line is_terminated
  header content =
      let bytes = (line (line_limit + 1) content).0 in
      if ltb line_limit (length bytes) || not (is_terminated bytes)
      then err "Invalid Claude session header"
      else bound_header bytes (is_bound bytes (parse_line from_slice bytes))

  -- The hash of the last bytes before the offset, at most 1024.
  abbrev pub tail_of : ℕ → File → String
  tail_of offset file = x.digest (drop (offset - 1024) (take offset file.bytes))

  abbrev pub fingerprint_matches : List ℕ → File → Reader → Fingerprint → Bool
  fingerprint_matches head file r f =
      str_eq f.header (x.digest head)
      && leb r.offset f.size
      && leb f.size (length file.bytes)
      && (not (f.size == length file.bytes) || f.mtime_us == file.mtime_us)

  abbrev pub is_same_content : List ℕ → File → Reader → Bool
  is_same_content head file r =
      is_some_and r.fingerprint (fingerprint_matches head file r)
      && is_some_and r.fingerprint (λ f. str_eq f.tail (tail_of r.offset file))

  unfoldable pub resumable : List ℕ → File → Reader → Bool
  unfolding gate
  resumable head file r =
      is_in_place head file r && (gate x.horizon r.classifier r.row && is_same_content head file r)

  -- A pass that starts after the header applies it first.
  unfoldable pub restart : List ℕ → File → Reader
  unfolding read_line
  restart head file = read_line x from_slice head (new_reader file (length head))

  -- Where the pass starts, and whether it resumes the row before it.
  unfoldable pub start_of : List ℕ → File → Option Reader → Reader × Bool
  unfolding resumable restart
  start_of head file none = (restart head file, false)
  start_of head file (some r) =
      if resumable head file r then (r, true) else (restart head file, false)

  abbrev pub sealed : List ℕ → File → Reader → Reader
  sealed head file r = record r {
    classifier = suspended r.classifier;
    caught_up = r.offset == length file.bytes && not r.skipping;
    fingerprint = some (record {
      size = length file.bytes;
      mtime_us = file.mtime_us;
      header = x.digest head;
      tail = tail_of r.offset file;
    });
  }

  unfoldable pub pass : ℕ → List ℕ → File → Reader → Reader
  unfolding advance suspend
  pass ticks head file r =
      let limit = min (length file.bytes) (r.offset + pass_limit) in
      sealed head file (advance x from_slice ticks limit (drop r.offset file.bytes) r)

  abbrev pub resume_from : ℕ → File → Option Reader → Result (List ℕ) → Result (Reader × Bool)
  resume_from ticks file previous (err e) = err e
  resume_from ticks file previous (ok head) =
      let (r, resumed) = start_of head file previous in ok (pass ticks head file r, resumed)

  -- One pass over the bound file.
  unfoldable pub resume : ℕ → File → Option Reader → Result (Reader × Bool)
  unfolding header start_of pass
  resume ticks file previous = resume_from ticks file previous (header file.bytes)
