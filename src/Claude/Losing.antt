-- ===== src/Claude/Losing.antt =====
-- Where coverage is lost, a row of anton-runtime/src/claude.rs stays in shape.
use herdr_observatory.BTreeMap.{BTreeMap}
use herdr_observatory.Claude.{
  kind_queue, kind_attachment, kind_user, kind_system, kind_assistant, Group, Response, Start,
}
use herdr_observatory.Claude.Children.{lose_clean}
use herdr_observatory.Claude.Core.{TimesOk, UsageOk, Usage, Times, Core}
use herdr_observatory.Claude.Cursor.{group_valid}
use herdr_observatory.Claude.Row.{
  taint, is_idle, is_running, unknown_time, lose_turn, unclassified, invalid, fail_totals,
  turns_unknown, ambiguous, Row,
}
use herdr_observatory.Prelude.{
  some, true, String, List, false, Option, ℕ, Bool, ◌≤◌, Holds, ◌&&◌, ◌==◌, is_none_or, not,
  if_elim, ◌≡◌, ◌||◌, arith, none, refl,
}
use herdr_observatory.Turns.{unknown}
use herdr_observatory.Turns.Preserve.{Inv, unknown-Inv}

pub forget :
    {horizon coverage : ℕ} {p : Option Start} {b : Bool} {q : Option ℕ} {floor : ℕ}
    → Times horizon coverage p b q floor
    → Times horizon coverage none false none floor
forget t = record {
  coverage_le = t.coverage_le;
  pending_ok = refl;
  command_ok = refl;
  queued_ok = tt;
  floor_le = t.floor_le;
}

taint-valid :
    (closed : List String) (g : Option Group)
    → is_none_or g (λ g. group_valid closed g) ≡ true
    → is_none_or (taint g) (λ g. group_valid closed g) ≡ true
taint-valid closed none h = refl
taint-valid closed (some g) h = ground arith

-- The sums do not change where a group is tainted.
taint-Usage :
    {a b c d u v k : ℕ} {last : Option Response} {flag : Bool} {closed : List String}
    (g : Option Group)
    → Usage a b c d last flag u v g closed k
    → Usage a b c d none false u v (taint g) closed k
taint-Usage {closed = closed} none w = record {
  input_le = w.input_le;
  output_le = w.output_le;
  read_le = w.read_le;
  creation_le = w.creation_le;
  context_le = w.context_le;
  last_ok = refl;
  last_flag = refl;
  seq_le = w.seq_le;
  group_ok = refl;
  ring_le = w.ring_le;
  ids_ok = w.ids_ok;
  compactions_le = w.compactions_le;
}
taint-Usage {closed = closed} (some g) w = record {
  input_le = w.input_le;
  output_le = w.output_le;
  read_le = w.read_le;
  creation_le = w.creation_le;
  context_le = w.context_le;
  last_ok = refl;
  last_flag = refl;
  seq_le = w.seq_le;
  group_ok = taint-valid closed (some g) w.group_ok;
  ring_le = w.ring_le;
  ids_ok = w.ids_ok;
  compactions_le = w.compactions_le;
}

module _ {f : Bool} {horizon : ℕ} {stamp : Option ℕ} where
  pub turns_unknown-Core :
      (r : Row) → Core f horizon stamp r → Core f horizon stamp (turns_unknown r)
  unfolding unknown
  turns_unknown-Core r i = record {
    turns_ok = unknown-Inv r.turns i.turns_ok;
    usage_ok = i.usage_ok;
    times_ok = forget i.times_ok;
    state_ok = ground (arith, i.state_ok);
    foreign_is = i.foreign_is;
    covered = i.covered;
  }

  -- Whatever the state of the turns.
  pub ambiguous-settles :
      (r : Row)
      → Inv r.turns
      → UsageOk r.claude
      → TimesOk horizon r.claude
      → r.claude.foreign ≡ f
      → Holds (λ s. s ≤ r.claude.coverage_seq) stamp
      → Core f horizon stamp (ambiguous r)
  unfolding unknown
  ambiguous-settles r t u w e c = record {
    turns_ok = unknown-Inv r.turns t;
    usage_ok = u;
    times_ok = forget w;
    state_ok = refl;
    foreign_is = e;
    covered = c;
  }

  pub ambiguous-Core : (r : Row) → Core f horizon stamp r → Core f horizon stamp (ambiguous r)
  ambiguous-Core r i = ambiguous-settles r i.turns_ok i.usage_ok i.times_ok i.foreign_is i.covered

  pub lose_clean-Core : (r : Row) → Core f horizon stamp r → Core f horizon stamp (lose_clean r)
  lose_clean-Core r i = record {
    turns_ok = i.turns_ok;
    usage_ok = i.usage_ok;
    times_ok = i.times_ok;
    state_ok = ground (arith, i.state_ok);
    foreign_is = i.foreign_is;
    covered = i.covered;
  }

  -- The flags and the subagents of a row do not matter.
  pub flags-Core :
      (r : Row) (children : BTreeMap String) (seq : ℕ) (v c : Bool)
      → Core f horizon stamp r
      → Core f horizon stamp
          (record r { children = children; seq = seq; valid = v; compactions_valid = c })
  flags-Core r children seq v c i = record {
    turns_ok = i.turns_ok;
    usage_ok = i.usage_ok;
    times_ok = i.times_ok;
    state_ok = i.state_ok;
    foreign_is = i.foreign_is;
    covered = i.covered;
  }

  mark_lost-Core :
      (r : Row)
      → Core f horizon stamp r
      → Core f horizon stamp (
          let u = turns_unknown r in
          record u {
            claude = record u.claude { lost_idle = u.claude.lost_idle || not u.claude.ambiguous };
          })
  unfolding unknown
  mark_lost-Core r i = record {
    turns_ok = unknown-Inv r.turns i.turns_ok;
    usage_ok = i.usage_ok;
    times_ok = forget i.times_ok;
    state_ok = ground (arith, i.state_ok);
    foreign_is = i.foreign_is;
    covered = i.covered;
  }

  pub lose_turn-Core : (r : Row) → Core f horizon stamp r → Core f horizon stamp (lose_turn r)
  unfolding lose_turn
  lose_turn-Core r i =
      if_elim (Core f horizon stamp) (is_running r)
        (λ _. ambiguous-Core (turns_unknown r) (turns_unknown-Core r i)) (λ _. mark_lost-Core r i)

  pub unknown_time-Core : (r : Row) → Core f horizon stamp r → Core f horizon stamp (unknown_time r)
  unfolding unknown_time unknown
  unknown_time-Core r i =
      if_elim (Core f horizon stamp) (is_idle r && not r.claude.ambiguous)
        (λ h. record {
          turns_ok = unknown-Inv r.turns i.turns_ok;
          usage_ok = i.usage_ok;
          times_ok = forget i.times_ok;
          state_ok = ground (arith, i.state_ok);
          foreign_is = i.foreign_is;
          covered = i.covered;
        })
        (λ _. i)

  pub fail_totals-Core : (r : Row) → Core f horizon stamp r → Core f horizon stamp (fail_totals r)
  fail_totals-Core r i = record {
    turns_ok = i.turns_ok;
    usage_ok = taint-Usage r.claude.open_group i.usage_ok;
    times_ok = i.times_ok;
    state_ok = i.state_ok;
    foreign_is = i.foreign_is;
    covered = i.covered;
  }

  pub invalid-Core : (r : Row) → Core f horizon stamp r → Core f horizon stamp (invalid r)
  unfolding invalid
  invalid-Core r i =
      let u = record r { valid = false; compactions_valid = false } in
      fail_totals-Core (lose_turn u)
        (lose_turn-Core u (flags-Core r r.children r.seq false false i))

  pub unclassified-Core :
      (kind : ℕ) (r : Row) → Core f horizon stamp r → Core f horizon stamp (unclassified kind r)
  unfolding unclassified
  unclassified-Core kind r i =
      if_elim (Core f horizon stamp) (kind == kind_assistant)
        (λ _.
          let u = fail_totals r in
          lose_turn-Core _ (flags-Core u u.children u.seq u.valid false (fail_totals-Core r i)))
        λ _.
          if_elim (Core f horizon stamp) (kind == kind_system)
            (λ _. lose_turn-Core _ (flags-Core r r.children r.seq r.valid false i))
            λ _.
              if_elim (Core f horizon stamp) (kind == kind_user || kind == kind_attachment)
                (λ _. lose_turn-Core _ (flags-Core r r.children r.seq false r.compactions_valid i))
                λ _.
                  if_elim (Core f horizon stamp) (kind == kind_queue)
                    (λ _.
                      if_elim (Core f horizon stamp)
                        (r.claude.lost_idle || r.claude.pending_command) (λ _. ambiguous-Core r i)
                        (λ _. unknown_time-Core r i))
                    (λ _. i)
