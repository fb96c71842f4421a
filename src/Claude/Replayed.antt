-- ===== src/Claude/Replayed.antt =====
-- The rows that the replay of anton-runtime/src/claude.rs reaches, and its gate.
use herdr_observatory.Claude.{ClaudeCursor}
use herdr_observatory.Claude.Apply.{settle, Outcome, rejected, uncertain, whole}
use herdr_observatory.Claude.Classifier.{Classifier}
use herdr_observatory.Claude.Classifier.Validate.{validate}
use herdr_observatory.Claude.Core.{UsageOk, TimesOk, Core}
use herdr_observatory.Claude.Cursor.{usage_valid, times_valid}
use herdr_observatory.Claude.Gate.{apply-Kept, Kept}
use herdr_observatory.Claude.Gone.{unclassified-Down, invalid-Down}
use herdr_observatory.Claude.KeepApply.{RecordOk}
use herdr_observatory.Claude.Losing.{unclassified-Core, invalid-Core}
use herdr_observatory.Claude.Row.{Row, new}
use herdr_observatory.Claude.Totals.{totals-Fits}
use herdr_observatory.Claude.Valid.{gate, cursor_valid}
use herdr_observatory.Common.{max_safe}
use herdr_observatory.Prelude.{
  Bool, ◌∙◌, leb, ◌&&◌, ltb, is_none_or, ◌<◌, ◌≤◌, Holds, arith, ◌≡◌, none, some, not, ◌||◌, refl,
  inl, inr, true, false, Option, ℕ,
}
use herdr_observatory.Turns.Preserve.{default-Inv}
use herdr_observatory.Turns.WellFormed.{validate_of_WellFormed}

-- A record that is whole is one that the classifier may finish.
abbrev pub OutcomeOk : ℕ → Outcome → Type 0
OutcomeOk horizon rejected = Unit
OutcomeOk horizon (uncertain kind) = Unit
OutcomeOk horizon (whole e) = RecordOk horizon e

-- A row of a file, after the records that have been read of it.
pub data Replayed (horizon : ℕ) : Row → Type 0 where
  fresh : Replayed horizon new
  settled :
      {r : Row} (o : Outcome)
      → OutcomeOk horizon o
      → Replayed horizon r
      → Replayed horizon (settle o r)

new-Core : {horizon : ℕ} → Core false horizon none new
new-Core = record {
  turns_ok = default-Inv;
  usage_ok = record {
    input_le = omega arith;
    output_le = omega arith;
    read_le = omega arith;
    creation_le = omega arith;
    context_le = omega arith;
    last_ok = refl;
    last_flag = refl;
    seq_le = omega arith;
    group_ok = refl;
    ring_le = omega arith;
    ids_ok = refl;
    compactions_le = omega arith;
  };
  times_ok = record {
    coverage_le = omega arith;
    pending_ok = refl;
    command_ok = refl;
    queued_ok = tt;
    floor_le = omega arith;
  };
  state_ok = refl;
  foreign_is = refl;
  covered = tt;
}

settle-Kept :
    (horizon : ℕ) (o : Outcome) (r : Row)
    → horizon ≤ max_safe
    → OutcomeOk horizon o
    → Kept horizon none r
    → Kept horizon none (settle o r)
unfolding settle
settle-Kept horizon rejected r safe ok (inl i) = inl (invalid-Core r i)
settle-Kept horizon rejected r safe ok (inr (i, d)) = inr (invalid-Core r i, invalid-Down r)
settle-Kept horizon (uncertain kind) r safe ok (inl i) = inl (unclassified-Core kind r i)
settle-Kept horizon (uncertain kind) r safe ok (inr (i, d)) =
    inr (unclassified-Core kind r i, unclassified-Down kind r d)
settle-Kept horizon (whole e) r safe ok k = apply-Kept horizon safe e r ok k

pub Replayed-Kept :
    (horizon : ℕ) (r : Row) → horizon ≤ max_safe → Replayed horizon r → Kept horizon none r
Replayed-Kept horizon _ safe fresh = inl new-Core
Replayed-Kept horizon _ safe (settled {r = r} o ok p) =
    settle-Kept horizon o r safe ok (Replayed-Kept horizon r safe p)

usage_of : (c : ClaudeCursor) → UsageOk c → usage_valid c ≡ true
usage_of c u = ground (
  arith,
  u.last_ok,
  u.last_flag,
  u.seq_le,
  u.group_ok,
  u.ring_le,
  u.ids_ok,
  u.compactions_le,
  totals-Fits c (u.input_le, u.output_le, u.read_le, u.creation_le, u.context_le),
)

queued_of :
    (q : Option ℕ) (covered : ℕ)
    → Holds (λ at. (0 < at) × (at ≤ covered)) q
    → is_none_or q (λ at. ltb 0 at && leb at covered) ≡ true
queued_of none covered h = refl
queued_of (some at) covered h = ground (arith, h)

times_of : (horizon : ℕ) (c : ClaudeCursor) → TimesOk horizon c → times_valid horizon c ≡ true
times_of horizon c t = ground (
  arith,
  t.coverage_le,
  t.pending_ok,
  t.command_ok,
  t.floor_le,
  queued_of c.queued_since_start c.coverage_seq t.queued_ok,
)

pub and_true_right : (b : Bool) → b && true ≡ b
and_true_right true = refl
and_true_right false = refl

-- Whatever classifier stands beside the cursor, the rest of the check holds.
cursor_of :
    (horizon : ℕ) (o : Option Classifier) (c : ClaudeCursor)
    → UsageOk c
    → TimesOk horizon c
    → (not c.foreign
        || (not c.totals_valid && not c.last_valid && is_none_or c.open_group (λ g. g.tainted)))
      ≡ true
    → cursor_valid horizon o c ≡ is_none_or o (λ k. validate k)
unfolding cursor_valid
cursor_of horizon o c u t gone = rw (usage_of c u, times_of horizon c t, gone) (and_true_right _)

pub gate_of :
    (horizon : ℕ) (o : Option Classifier) (r : Row)
    → Kept horizon none r
    → gate horizon o r ≡ is_none_or o (λ k. validate k)
unfolding gate
gate_of horizon o r (inl i) =
    rw
      (
        validate_of_WellFormed r.turns i.turns_ok.formed,
        cursor_of horizon o r.claude i.usage_ok i.times_ok (rw i.foreign_is refl),
        i.state_ok,
        i.foreign_is,
      )
      (and_true_right _ ∙ and_true_right _)
gate_of horizon o r (inr (i, d)) =
    rw
      (
        validate_of_WellFormed r.turns i.turns_ok.formed,
        cursor_of horizon o r.claude i.usage_ok i.times_ok
            (rw (i.foreign_is, d.no_totals, d.no_last, d.tainted) refl),
        i.state_ok,
        i.foreign_is,
        d.not_valid,
        d.no_compactions,
        d.no_turns,
        d.no_current,
      )
      (and_true_right _ ∙ and_true_right _)

-- For a horizon that JSON keeps exact, every row that a Claude transcript leads to passes the gate,
-- when each record that is read is hashed, dated up to the horizon and stopped if it is an assistant
-- line that is not bad; lines that are rejected or uncertain may stand between.
pub Replayed-gate :
    (horizon : ℕ) (r : Row) → horizon ≤ max_safe → Replayed horizon r → gate horizon none r ≡ true
Replayed-gate horizon r safe p = gate_of horizon none r (Replayed-Kept horizon r safe p)
