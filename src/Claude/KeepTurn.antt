-- ===== src/Claude/KeepTurn.antt =====
-- A start and an end of a turn in anton-runtime/src/claude.rs keep the row in shape.
use herdr_observatory.Claude.{Start}
use herdr_observatory.Claude.Core.{Times, Core}
use herdr_observatory.Claude.Losing.{turns_unknown-Core, ambiguous-settles}
use herdr_observatory.Claude.Row.{ambiguous, Row}
use herdr_observatory.Claude.Timing.{confirm_start, confirm, end_interval, is_active, set_cursor}
use herdr_observatory.Prelude.{
  true, false, Option, ℕ, Bool, leb, Option-cases, is_some, arith, if_elim, ◌≡◌, none, some, refl,
  if◌then◌else◌, inl, inr,
}
use herdr_observatory.Turns.{begin, Turns}
use herdr_observatory.Turns.Preserve.{begin-Inv, Inv}

-- The pending start has been taken.
abbrev pub taken : Row → Row
taken r = set_cursor (λ c. record c { pending_command = false; pending_start = none }) r

pub taken-Times :
    {h cov : ℕ} {p : Option Start} {b : Bool} {q : Option ℕ} {floor : ℕ}
    → Times h cov p b q floor
    → Times h cov none false q floor
taken-Times t = record {
  coverage_le = t.coverage_le;
  pending_ok = refl;
  command_ok = refl;
  queued_ok = t.queued_ok;
  floor_le = t.floor_le;
}

pub unqueued-Times :
    {h cov : ℕ} {p : Option Start} {b : Bool} {q : Option ℕ} {floor : ℕ}
    → Times h cov p b q floor
    → Times h cov p b none floor
unqueued-Times t = record {
  coverage_le = t.coverage_le;
  pending_ok = t.pending_ok;
  command_ok = t.command_ok;
  queued_ok = tt;
  floor_le = t.floor_le;
}

module _ {f : Bool} {horizon : ℕ} {stamp : Option ℕ} where
  -- The start has led to a running interval, or it costs the current turn.
  started-Core :
      (s : Start) (turns : Turns) (r : Row)
      → Inv turns
      → r.claude.pending_start ≡ some s
      → Core f horizon stamp r
      → (let u = record (taken r) { turns = turns } in
          Core f horizon stamp (if is_active u then u else ambiguous u))
  started-Core s turns r v p i =
      let u = record (taken r) { turns = turns } in
      if_elim (Core f horizon stamp) (is_active u)
        (λ h. record {
          turns_ok = v;
          usage_ok = i.usage_ok;
          times_ok = taken-Times i.times_ok;
          state_ok = ground (arith, i.state_ok, h, p);
          foreign_is = i.foreign_is;
          covered = i.covered;
        })
        (λ _. ambiguous-settles u v i.usage_ok (taken-Times i.times_ok) i.foreign_is i.covered)

  confirm_at :
      (p : Option Start) (r : Row)
      → r.claude.pending_start ≡ p
      → Core f horizon stamp r
      → Core f horizon stamp (confirm_start p (taken r))
  confirm_at none r p i = record {
    turns_ok = i.turns_ok;
    usage_ok = i.usage_ok;
    times_ok = taken-Times i.times_ok;
    state_ok = ground (arith, i.state_ok, p);
    foreign_is = i.foreign_is;
    covered = i.covered;
  }
  confirm_at (some s) r p i =
      if_elim (λ (u : Row). Core f horizon stamp (if is_active u then u else ambiguous u))
        (leb r.claude.end_floor s.second)
        (λ _.
          started-Core s (begin s.key s.second r.turns) r
            (begin-Inv s.key s.second r.turns i.turns_ok) p i)
        (λ _. started-Core s r.turns r i.turns_ok p i)

  pub confirm-Core : (r : Row) → Core f horizon stamp r → Core f horizon stamp (confirm r)
  unfolding confirm
  confirm-Core r i = confirm_at r.claude.pending_start r refl i

  -- An interval that ran is over.
  settled-Core :
      (r : Row) (turns : Turns)
      → Inv turns
      → is_some turns.active ≡ false
      → is_active r ≡ true
      → r.claude.silent_end ≡ false
      → Core f horizon stamp r
      → Core f horizon stamp
          (record r { turns = turns; claude = record r.claude { queued_since_start = none } })
  settled-Core r turns v over active loud i = record {
    turns_ok = v;
    usage_ok = i.usage_ok;
    times_ok = unqueued-Times i.times_ok;
    state_ok = ground (arith, i.state_ok, over, active, loud);
    foreign_is = i.foreign_is;
    covered = i.covered;
  }

  pub end_interval-Core :
      (end : ℕ → Turns → Turns) (second : Option ℕ) (r : Row)
      → ((n : ℕ) → Inv (end n r.turns))
      → ((n : ℕ) → is_some (end n r.turns).active ≡ false)
      → r.claude.silent_end ≡ false
      → Core f horizon stamp r
      → Core f horizon stamp (end_interval second end r)
  unfolding end_interval
  end_interval-Core end second r keeps over loud i =
      if_elim (Core f horizon stamp) (is_active r)
        (λ active. elim (Option-cases second) [
          | inl e ↦ rw e (turns_unknown-Core r i)
          | inr (n, e) ↦ rw e (settled-Core r (end n r.turns) (keeps n) (over n) active loud i)
        ])
        (λ _. i)
