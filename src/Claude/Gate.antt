-- ===== src/Claude/Gate.antt =====
-- The replay of anton-runtime/src/claude.rs, record by record, and the gate at the end of a pass.
use herdr_observatory.Claude.{Start, Record}
use herdr_observatory.Claude.Apply.{apply, cover}
use herdr_observatory.Claude.Children.{max}
use herdr_observatory.Claude.Core.{Times, Core}
use herdr_observatory.Claude.Gone.{invalid-Down, Down}
use herdr_observatory.Claude.KeepApply.{RecordOk, apply_own-Core}
use herdr_observatory.Claude.KeepQueue.{second_mono}
use herdr_observatory.Claude.Losing.{unclassified-Core, invalid-Core}
use herdr_observatory.Claude.Row.{Row}
use herdr_observatory.Claude.Timing.{set_cursor}
use herdr_observatory.Common.{max_safe}
use herdr_observatory.Prelude.{
  ◌==◌, ◌⊎◌, ◌<◌, ◌/◌, ◌≤◌, Holds, arith, if_elim, none, some, refl, inl, inr, true, false, Option,
  ℕ, Bool,
}

-- Either the file is of this session, or its row has been given up.
abbrev pub Kept : ℕ → Option ℕ → Row → Type 0
Kept horizon stamp r = Core false horizon stamp r ⊎ (Core true horizon stamp r × Down r)

later :
    (q : Option ℕ) (covered stamp : ℕ)
    → Holds (λ at. (0 < at) × (at ≤ covered)) q
    → Holds (λ at. (0 < at) × (at ≤ max covered stamp)) q
later none covered stamp h = tt
later (some at) covered stamp h = ground (arith, h)

max_second : (a b : ℕ) → a / 1000000 ≤ max a b / 1000000
max_second a b = second_mono a (max a b) (ground arith)

seen_at :
    {h cov : ℕ} {p : Option Start} {b : Bool} {q : Option ℕ} {floor : ℕ} (stamp : ℕ)
    → stamp ≤ h
    → Times h cov p b q floor
    → Times h (max cov stamp) p b q floor
seen_at {h = h} {cov = cov} {q = q} stamp le t = record {
  coverage_le = ground (arith, t.coverage_le, le);
  pending_ok = t.pending_ok;
  command_ok = t.command_ok;
  queued_ok = later q cov stamp t.queued_ok;
  floor_le = ground (arith, t.floor_le, max_second cov stamp);
}

cover-Core :
    {f : Bool} {horizon : ℕ} (stamp : Option ℕ) (r : Row)
    → Holds (λ s. s ≤ horizon) stamp
    → Core f horizon none r
    → Core f horizon stamp (cover stamp r)
cover-Core none r le i = i
cover-Core (some stamp) r le i = record {
  turns_ok = i.turns_ok;
  usage_ok = record {
    input_le = i.usage_ok.input_le;
    output_le = i.usage_ok.output_le;
    read_le = i.usage_ok.read_le;
    creation_le = i.usage_ok.creation_le;
    context_le = i.usage_ok.context_le;
    last_ok = i.usage_ok.last_ok;
    last_flag = i.usage_ok.last_flag;
    seq_le = ground (arith, i.usage_ok.seq_le);
    group_ok = i.usage_ok.group_ok;
    ring_le = i.usage_ok.ring_le;
    ids_ok = i.usage_ok.ids_ok;
    compactions_le = i.usage_ok.compactions_le;
  };
  times_ok = seen_at stamp le i.times_ok;
  state_ok = i.state_ok;
  foreign_is = i.foreign_is;
  covered = ground arith;
}

unstamped :
    {f : Bool} {horizon : ℕ} {stamp : Option ℕ} {r : Row}
    → Core f horizon stamp r
    → Core f horizon none r
unstamped i = record {
  turns_ok = i.turns_ok;
  usage_ok = i.usage_ok;
  times_ok = i.times_ok;
  state_ok = i.state_ok;
  foreign_is = i.foreign_is;
  covered = tt;
}

between : {horizon : ℕ} {stamp : Option ℕ} (r : Row) → Kept horizon stamp r → Kept horizon none r
between r (inl i) = inl (unstamped i)
between r (inr (i, d)) = inr (unstamped i, d)

cover-Down : (stamp : Option ℕ) (r : Row) → Down r → Down (cover stamp r)
cover-Down none r d = d
cover-Down (some stamp) r d = record {
  not_valid = d.not_valid;
  no_compactions = d.no_compactions;
  no_turns = d.no_turns;
  no_current = d.no_current;
  no_totals = d.no_totals;
  no_last = d.no_last;
  tainted = d.tainted;
}

-- A record of another session.
foreign-Core :
    {f : Bool} {horizon : ℕ} {stamp : Option ℕ} (r : Row)
    → Core f horizon stamp r
    → Core true horizon stamp (set_cursor (λ c. record c { foreign = true }) r)
foreign-Core r i = record {
  turns_ok = i.turns_ok;
  usage_ok = i.usage_ok;
  times_ok = i.times_ok;
  state_ok = i.state_ok;
  foreign_is = refl;
  covered = i.covered;
}

module _ (horizon : ℕ) (safe : horizon ≤ max_safe) where
  apply-Core :
      (e : Record) (r : Row)
      → RecordOk horizon e
      → Core false horizon none r
      → Kept horizon e.stamp (apply e r)
  unfolding apply
  apply-Core e r ok i =
      let u = cover e.stamp r in
      let k : Core false horizon e.stamp u = cover-Core e.stamp r ok.stamp_le i in
      let away = set_cursor (λ c. record c { foreign = true }) u in
      if_elim (Kept horizon e.stamp) u.claude.foreign (λ _. inl k)
        λ _.
          if_elim (Kept horizon e.stamp) (e.identity == 2)
            (λ _. inr (invalid-Core away (foreign-Core u k), invalid-Down away))
            λ _.
              if_elim (Kept horizon e.stamp) (e.identity == 0)
                (λ _. inl (unclassified-Core e.kind u k))
                λ _.
                  if_elim (Kept horizon e.stamp) e.forked (λ _. inl k)
                    (λ _. inl (apply_own-Core horizon safe e ok u k))

  apply-foreign :
      (e : Record) (r : Row)
      → Holds (λ s. s ≤ horizon) e.stamp
      → Core true horizon none r
      → Down r
      → Kept horizon e.stamp (apply e r)
  unfolding apply
  apply-foreign e r le i d =
      let k = cover-Core e.stamp r le i in rw k.foreign_is (inr (k, cover-Down e.stamp r d))

  pub apply-Kept :
      (e : Record) (r : Row)
      → RecordOk horizon e
      → Kept horizon none r
      → Kept horizon none (apply e r)
  apply-Kept e r ok (inl i) = between (apply e r) (apply-Core e r ok i)
  apply-Kept e r ok (inr (i, d)) = between (apply e r) (apply-foreign e r ok.stamp_le i d)
