-- ===== src/Claude/Resumes.antt =====
-- The row that a pass of anton-runtime/src/claude.rs leaves goes on in the same file.
use herdr_observatory.Claude.Classifier.{Context, Classifier}
use herdr_observatory.Claude.Placed.{Steady, Place, Between, lines-Place}
use herdr_observatory.Claude.Reader.{Reader, advance, restore, rewind_open, lines, pass_limit}
use herdr_observatory.Claude.Resume.{pass, File, suspended, drop}
use herdr_observatory.Json.{Value}
use herdr_observatory.Prelude.{
  ℕ, Bool, true, min, ltb, is_none, is_some, length, List, Option, none, some, not, ◌||◌, ◌&&◌,
  if◌then◌else◌, ◌==◌, ◌≡◌, refl, Holds, if_elim, arith, ◌≤◌, ◌+◌, ◌-◌,
}

rewind_open-Place :
    {device inode first limit : ℕ} (start_at : ℕ) (open_line : Option ℕ) (r : Reader)
    → Holds (Between first limit) open_line
    → Place device inode first limit r
    → Place device inode first limit (rewind_open start_at open_line r)
rewind_open-Place start_at none r o k = k
rewind_open-Place {device} {inode} {first} {limit} start_at (some start) r o (s, at) =
    if_elim (Place device inode first limit)
      (is_some r.classifier && (not (start == start_at) || ltb (r.offset - start) pass_limit))
      (λ _. (record { same_device = s.same_device; same_inode = s.same_inode; skips = refl }, o))
      (λ _. (s, at))

skipped : (a b c d : Bool) → a && b && c && d ≡ true → b ≡ true
skipped a b c d h = ground (arith, h)

restore-Place :
    {device inode first limit : ℕ} (open_line : Option ℕ) (o : Option Classifier) (r : Reader)
    → first ≤ limit
    → Place device inode first limit r
    → Place device inode first limit (restore first open_line o r)
restore-Place open_line none r le k = k
restore-Place {device} {inode} {first} {limit} open_line (some c) r le (s, at) =
    if_elim (Place device inode first limit)
      (is_none open_line && r.skipping && is_some r.classifier && ltb (r.offset - first) pass_limit)
      (λ h. (
        record {
          same_device = s.same_device;
          same_inode = s.same_inode;
          skips = ground (
            arith,
            skipped (is_none open_line) r.skipping (is_some r.classifier)
                (ltb (r.offset - first) pass_limit) h,
          );
        },
        (omega arith, le),
      ))
      (λ _. (s, at))

suspended_none :
    (o : Option Classifier) (b : Bool) → b || is_none o ≡ true → b || is_none (suspended o) ≡ true
suspended_none none b h = h
suspended_none (some c) b h = h

module _ (x : Context) (from_slice : List ℕ → Option Value) where
  advance-Place :
      {device inode : ℕ} (ticks limit : ℕ) (stream : List ℕ) (r : Reader)
      → Steady device inode r
      → r.offset ≤ limit
      → Place device inode r.offset limit (advance x from_slice ticks limit stream r)
  unfolding advance
  advance-Place ticks limit stream r s le =
      let (open_line, u) = lines x from_slice ticks limit r.offset stream none r in
      let k =
        lines-Place x from_slice r.offset limit ticks r.offset stream none r (omega arith, le) tt
          (s, (omega arith, le)) in
      restore-Place open_line (if r.skipping then r.classifier else none)
        (rewind_open r.offset open_line u) le (rewind_open-Place r.offset open_line u (k.0) (k.1))

  -- Where a pass stops: not before its start, and within the file.
  pub pass-Place :
      {device inode : ℕ} (ticks : ℕ) (head : List ℕ) (file : File) (r : Reader)
      → Steady device inode r
      → r.offset ≤ length file.bytes
      → Place device inode r.offset (length file.bytes) (pass x from_slice ticks head file r)
  unfolding pass
  pass-Place ticks head file r s le =
      let limit = min (length file.bytes) (r.offset + pass_limit) in
      let u = advance x from_slice ticks limit (drop r.offset file.bytes) r in
      let k = advance-Place ticks limit (drop r.offset file.bytes) r s (omega (arith, le)) in
      (
        record {
          same_device = k.0.same_device;
          same_inode = k.0.same_inode;
          skips = suspended_none u.classifier u.skipping k.0.skips;
        },
        (k.1.0, omega (arith, k.1.1)),
      )
