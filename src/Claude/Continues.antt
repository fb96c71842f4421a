-- ===== src/Claude/Continues.antt =====
-- One pass of anton-runtime/src/claude.rs after another over a file that only grows.
use herdr_observatory.Claude.Classifier.{Context}
use herdr_observatory.Claude.Classifier.Validate.{validate}
use herdr_observatory.Claude.Elapsed.{at_time}
use herdr_observatory.Claude.Reader.{Reader}
use herdr_observatory.Claude.Replayed.{and_true_right}
use herdr_observatory.Claude.Resume.{
  restart, pass, resume_from, start_of, resume, resumable, File, header,
}
use herdr_observatory.Claude.Resumed.{Passed-gate, Passed, Passes, first_pass, next_pass}
use herdr_observatory.Claude.Stopped.{
  Stopped, grown, same_content, in_place_of, resume-Stopped, Started,
}
use herdr_observatory.Common.{max_safe, hex_id}
use herdr_observatory.Json.{Value}
use herdr_observatory.Prelude.{
  refl, false, ◌++◌, is_none_or, ◌&&◌, ℕ, Bool, true, length-append, length, List, String, Option,
  none, some, ◌≡◌, Holds, arith, ◌≤◌, subst,
}
use herdr_observatory.Result.{ok}

-- The row before a pass, if there is one, comes of passes that have been made by then.
abbrev pub Before : Context → (List ℕ → Option Value) → ℕ → Option Reader → Type 0
Before x from_slice horizon previous =
    Holds (λ r. (before : ℕ) × (before ≤ horizon) × Passed x from_slice before r) previous

resume-Passed :
    (x : Context) (from_slice : List ℕ → Option Value) (horizon ticks : ℕ) (file : File)
    (previous : Option Reader) (r : Reader) (resumed : Bool)
    → Before x from_slice horizon previous
    → resume (at_time horizon x) from_slice ticks file previous ≡ ok (r, resumed)
    → Passed x from_slice horizon r
resume-Passed x from_slice horizon ticks file none r resumed p e = first_pass horizon ticks file e
resume-Passed x from_slice horizon ticks file (some last) r resumed (before, le, p) e =
    next_pass horizon ticks file le p e

and_three : {a b c d : Bool} → a ≡ true → b ≡ c → d ≡ true → (a && (b && d)) ≡ c
and_three {c = c} p q r = rw (p, q, r) (and_true_right c)

grown-Started :
    (x : Context) (head : List ℕ) (file : File) (more : List ℕ) (mtime_us : ℕ) (r : Reader)
    → Stopped x head file r
    → Started head (grown file more mtime_us) r
grown-Started x head file more mtime_us r k = record {
  steady = k.steady;
  from_head = k.from_head;
  within = omega (arith, k.within, length-append file.bytes more);
}

-- The next pass takes the row where the classifier that it carries validates.
resumable_as :
    (x : Context) (from_slice : List ℕ → Option Value) (horizon now ticks : ℕ) (file : File)
    (previous : Option Reader) (head : List ℕ) (r : Reader) (resumed : Bool) (more : List ℕ)
    (mtime_us : ℕ)
    → ((s : String) → hex_id (x.sha256 s) 64 ≡ true)
    → horizon ≤ now
    → now ≤ max_safe
    → Before x from_slice horizon previous
    → header (at_time horizon x) from_slice file.bytes ≡ ok head
    → resume (at_time horizon x) from_slice ticks file previous ≡ ok (r, resumed)
    → (length more ≡ 0 → mtime_us ≡ file.mtime_us)
    → resumable (at_time now x) from_slice head (grown file more mtime_us) r
      ≡ is_none_or r.classifier (λ k. validate k)
unfolding resumable
resumable_as x from_slice horizon now ticks file previous head r resumed more mtime_us hex later
      safe p h e m =
    let y = at_time horizon x in
    let k : Stopped y head file r =
      subst (Passes (Stopped y head file)) e
        (resume-Stopped y from_slice ticks file previous head h) in
    let gated =
      Passed-gate x from_slice horizon now r hex later safe
        (resume-Passed x from_slice horizon ticks file previous r resumed p e) in
    and_three
      (in_place_of head (grown file more mtime_us) r (grown-Started y head file more mtime_us r k))
      gated (same_content y from_slice head file more mtime_us r m k)

resumed_of :
    (x : Context) (from_slice : List ℕ → Option Value) (ticks : ℕ) (head : List ℕ) (file : File)
    (r : Reader) (b : Bool)
    → resumable x from_slice head file r ≡ b
    → (u : Reader) × (resume_from x from_slice ticks file (some r) (ok head) ≡ ok (u, b))
unfolding start_of
resumed_of x from_slice ticks head file r true e = (pass x from_slice ticks head file r, rw e refl)
resumed_of x from_slice ticks head file r false e =
    (pass x from_slice ticks head file (restart x from_slice head file), rw e refl)

-- A pass over a file with a verified header leaves a row that the next pass over it, at any later time
-- and also when the file has grown by then, resumes exactly where the classifier of a line that the first
-- pass has cut validates; it always resumes where no line is cut. The header still verifies at that
-- time, the digest has 64 hexadecimal digits, the clock does not go back and its times are safe integers.
pub resume-resume :
    (x : Context) (from_slice : List ℕ → Option Value) (horizon now ticks next_ticks : ℕ)
    (file : File) (previous : Option Reader) (head : List ℕ) (r : Reader) (resumed : Bool)
    (more : List ℕ) (mtime_us : ℕ)
    → ((s : String) → hex_id (x.sha256 s) 64 ≡ true)
    → horizon ≤ now
    → now ≤ max_safe
    → Before x from_slice horizon previous
    → header (at_time horizon x) from_slice file.bytes ≡ ok head
    → resume (at_time horizon x) from_slice ticks file previous ≡ ok (r, resumed)
    → (length more ≡ 0 → mtime_us ≡ file.mtime_us)
    → header (at_time now x) from_slice (file.bytes ++ more) ≡ ok head
    → (u : Reader) × (resume
          (at_time now x)
          from_slice
          next_ticks
          (grown file more mtime_us)
          (some r)
        ≡ ok (u, is_none_or r.classifier (λ k. validate k)))
unfolding resume
resume-resume x from_slice horizon now ticks next_ticks file previous head r resumed more mtime_us
      hex later safe p h e m again =
    rw again (
      resumed_of (at_time now x) from_slice next_ticks head (grown file more mtime_us) r
        (is_none_or r.classifier (λ k. validate k))
        (resumable_as x from_slice horizon now ticks file previous head r resumed more mtime_us hex
          later safe p h e m))

-- A pass stops within its file, and not before the header.
pub resume-within :
    (x : Context) (from_slice : List ℕ → Option Value) (ticks : ℕ) (file : File)
    (previous : Option Reader) (head : List ℕ) (r : Reader) (resumed : Bool)
    → header x from_slice file.bytes ≡ ok head
    → resume x from_slice ticks file previous ≡ ok (r, resumed)
    → (length head ≤ r.offset) × (r.offset ≤ length file.bytes)
resume-within x from_slice ticks file previous head r resumed h e =
    let k : Stopped x head file r =
      subst (Passes (Stopped x head file)) e
        (resume-Stopped x from_slice ticks file previous head h) in
    (k.from_head, k.within)
