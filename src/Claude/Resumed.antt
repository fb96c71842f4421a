-- ===== src/Claude/Resumed.antt =====
-- Passes of anton-runtime/src/claude.rs, one after another, over a file that may change in between.
use herdr_observatory.Claude.{max_safe}
use herdr_observatory.Claude.Classifier.{Context, Classifier}
use herdr_observatory.Claude.Classifier.Fed.{suspend-Fills}
use herdr_observatory.Claude.Classifier.Filled.{Fills}
use herdr_observatory.Claude.Classifier.Validate.{validate}
use herdr_observatory.Claude.Elapsed.{at_time, ReaderOk-later}
use herdr_observatory.Claude.Passes.{ReaderOk, lines-Ok, read_line-Ok}
use herdr_observatory.Claude.Reader.{Reader, advance, restore, rewind_open, lines, pass_limit}
use herdr_observatory.Claude.Replayed.{gate_of, Replayed-Kept, fresh}
use herdr_observatory.Claude.Resume.{
  drop, suspended, resume, resume_from, pass, start_of, restart, resumable, new_reader, File,
  header,
}
use herdr_observatory.Claude.Valid.{gate}
use herdr_observatory.Common.{hex_id}
use herdr_observatory.Json.{Value}
use herdr_observatory.Prelude.{
  is_none_or, ◌&&◌, ℕ, Bool, true, subst, ◌+◌, length, min, ◌-◌, ltb, is_some, is_none, List,
  String, Option, none, some, not, ◌||◌, if◌then◌else◌, ◌==◌, ◌≡◌, Holds, if_elim, ◌≤◌,
}
use herdr_observatory.Result.{Result, ok, err}

rewind_open-Ok :
    (x : Context) (first : ℕ) (open_line : Option ℕ) (r : Reader)
    → ReaderOk x r
    → ReaderOk x (rewind_open first open_line r)
rewind_open-Ok x first none r k = k
rewind_open-Ok x first (some start) r (p, f) =
    if_elim (ReaderOk x)
      (is_some r.classifier && (not (start == first) || ltb (r.offset - start) pass_limit))
      (λ _. (p, tt)) (λ _. (p, f))

restore-Ok :
    (x : Context) (first : ℕ) (open_line : Option ℕ) (continued : Option Classifier) (r : Reader)
    → Holds (Fills x) continued
    → ReaderOk x r
    → ReaderOk x (restore first open_line continued r)
restore-Ok x first open_line none r f k = k
restore-Ok x first open_line (some c) r f (p, g) =
    if_elim (ReaderOk x)
      (is_none open_line && r.skipping && is_some r.classifier && ltb (r.offset - first) pass_limit)
      (λ _. (p, f)) (λ _. (p, g))

suspended-Ok :
    (x : Context) (o : Option Classifier) → Holds (Fills x) o → Holds (Fills x) (suspended o)
suspended-Ok x none f = tt
suspended-Ok x (some c) f = suspend-Fills x c f

-- What holds of the row of a pass that has one.
abbrev pub Passes : (Reader → Type 0) → Result (Reader × Bool) → Type 0
Passes P (ok (r, resumed)) = P r
Passes P (err e) = Unit

module _ (x : Context) (from_slice : List ℕ → Option Value)
    (hex : (s : String) → hex_id (x.sha256 s) 64 ≡ true) where
  advance-Ok :
      (ticks limit : ℕ) (stream : List ℕ) (r : Reader)
      → ReaderOk x r
      → ReaderOk x (advance x from_slice ticks limit stream r)
  unfolding advance
  advance-Ok ticks limit stream r (p, f) =
      let (open_line, u) = lines x from_slice ticks limit r.offset stream none r in
      restore-Ok x r.offset open_line (if r.skipping then r.classifier else none)
        (rewind_open r.offset open_line u) (if_elim (Holds (Fills x)) r.skipping (λ _. f) (λ _. tt))
        (rewind_open-Ok x r.offset open_line u
          (lines-Ok x from_slice hex ticks limit r.offset stream none r (p, f)))

  restart-Ok : (head : List ℕ) (file : File) → ReaderOk x (restart x from_slice head file)
  unfolding restart
  restart-Ok head file =
      read_line-Ok x from_slice hex head (new_reader file (length head)) (fresh, tt)

  start_of-Ok :
      (head : List ℕ) (file : File) (previous : Option Reader)
      → Holds (ReaderOk x) previous
      → ReaderOk x ((start_of x from_slice head file previous).0)
  unfolding start_of
  start_of-Ok head file none k = restart-Ok head file
  start_of-Ok head file (some r) k =
      if_elim (λ (p : Reader × Bool). ReaderOk x (p.0)) (resumable x from_slice head file r)
        (λ _. k) (λ _. restart-Ok head file)

  pass-Ok :
      (ticks : ℕ) (head : List ℕ) (file : File) (r : Reader)
      → ReaderOk x r
      → ReaderOk x (pass x from_slice ticks head file r)
  unfolding pass
  pass-Ok ticks head file r k =
      let limit = min (length file.bytes) (r.offset + pass_limit) in
      let u = advance x from_slice ticks limit (drop r.offset file.bytes) r in
      let g = advance-Ok ticks limit (drop r.offset file.bytes) r k in
      (g.0, suspended-Ok x u.classifier (g.1))

  resume_from-Ok :
      (ticks : ℕ) (file : File) (previous : Option Reader) (head : Result (List ℕ))
      → Holds (ReaderOk x) previous
      → Passes (ReaderOk x) (resume_from x from_slice ticks file previous head)
  resume_from-Ok ticks file previous (err e) k = tt
  resume_from-Ok ticks file previous (ok head) k =
      pass-Ok ticks head file ((start_of x from_slice head file previous).0)
        (start_of-Ok head file previous k)

  resume-Ok :
      (ticks : ℕ) (file : File) (previous : Option Reader)
      → Holds (ReaderOk x) previous
      → Passes (ReaderOk x) (resume x from_slice ticks file previous)
  unfolding resume
  resume-Ok ticks file previous k =
      resume_from-Ok ticks file previous (header x from_slice file.bytes) k

-- A row after the passes over a file that have been made, whatever the file held in each, and the time
-- of the last one. The clock does not go back between passes.
pub data Passed (x : Context) (from_slice : List ℕ → Option Value) : ℕ → Reader → Type 0 where
  first_pass :
      {r : Reader} {resumed : Bool} (horizon ticks : ℕ) (file : File)
      → resume (at_time horizon x) from_slice ticks file none ≡ ok (r, resumed)
      → Passed x from_slice horizon r
  next_pass :
      {before : ℕ} {previous r : Reader} {resumed : Bool} (horizon ticks : ℕ) (file : File)
      → before ≤ horizon
      → Passed x from_slice before previous
      → resume (at_time horizon x) from_slice ticks file (some previous) ≡ ok (r, resumed)
      → Passed x from_slice horizon r

Passed-Ok :
    (x : Context) (from_slice : List ℕ → Option Value) (horizon : ℕ) (r : Reader)
    → ((s : String) → hex_id (x.sha256 s) 64 ≡ true)
    → Passed x from_slice horizon r
    → ReaderOk (at_time horizon x) r
Passed-Ok x from_slice horizon _ hex (first_pass _ ticks file e) =
    subst (Passes (ReaderOk (at_time horizon x))) e
      (resume-Ok (at_time horizon x) from_slice hex ticks file none tt)
Passed-Ok x from_slice horizon _ hex
      (next_pass {before = before} {previous = previous} _ ticks file later p e) =
    subst (Passes (ReaderOk (at_time horizon x))) e (
      resume-Ok (at_time horizon x) from_slice hex ticks file (some previous)
        (ReaderOk-later later x previous (Passed-Ok x from_slice before previous hex p)))

-- Whatever the bytes of the file are, however it changes between passes, wherever each pass stops and
-- whatever line it cuts, the gate takes the row that the pass leaves exactly where the classifier of a
-- cut line validates, and always where no line is cut. This holds then and at any later time, given a
-- digest of 64 hexadecimal digits, a clock that does not go back and times that are safe integers.
pub Passed-gate :
    (x : Context) (from_slice : List ℕ → Option Value) (horizon now : ℕ) (r : Reader)
    → ((s : String) → hex_id (x.sha256 s) 64 ≡ true)
    → horizon ≤ now
    → now ≤ max_safe
    → Passed x from_slice horizon r
    → gate now r.classifier r.row ≡ is_none_or r.classifier (λ k. validate k)
Passed-gate x from_slice horizon now r hex later safe p = gate_of now r.classifier r.row (
    Replayed-Kept now r.row safe
      ((ReaderOk-later later x r (Passed-Ok x from_slice horizon r hex p)).0))
