-- ===== src/Claude/Gone.antt =====
-- The row of another session in anton-runtime/src/claude.rs.
use herdr_observatory.Claude.{
  kind_queue, kind_attachment, kind_user, kind_system, kind_assistant, Group,
}
use herdr_observatory.Claude.Row.{
  is_idle, is_running, taint, turns_unknown, fail_totals, ambiguous, invalid, Row, unclassified,
  lose_turn, unknown_time,
}
use herdr_observatory.Prelude.{
  ◌&&◌, true, ◌==◌, if_elim, false, is_none_or, ℕ, Bool, ◌≡◌, Option, refl, none, some, not, ◌||◌,
}
use herdr_observatory.Turns.{unknown}

-- What a row of another session has given up.
pub record Down (r : Row) : Type 0 where
  pub not_valid : r.valid ≡ false
  pub no_compactions : r.compactions_valid ≡ false
  pub no_turns : r.turns.valid ≡ false
  pub no_current : r.turns.current_known ≡ false
  pub no_totals : r.claude.totals_valid ≡ false
  pub no_last : r.claude.last_valid ≡ false
  pub tainted : is_none_or r.claude.open_group (λ g. g.tainted) ≡ true

taint-tainted : (g : Option Group) → is_none_or (taint g) (λ g. g.tainted) ≡ true
taint-tainted none = refl
taint-tainted (some g) = refl

pub invalid-Down : (r : Row) → Down (invalid r)
unfolding invalid lose_turn unknown
invalid-Down r =
    let u = record r { valid = false; compactions_valid = false } in
    if_elim (λ v. Down (fail_totals v)) (is_running u)
      (λ _. record {
        not_valid = refl;
        no_compactions = refl;
        no_turns = refl;
        no_current = refl;
        no_totals = refl;
        no_last = refl;
        tainted = taint-tainted r.claude.open_group;
      })
      (λ _. record {
        not_valid = refl;
        no_compactions = refl;
        no_turns = refl;
        no_current = refl;
        no_totals = refl;
        no_last = refl;
        tainted = taint-tainted r.claude.open_group;
      })

turns_unknown-Down : (r : Row) → Down r → Down (turns_unknown r)
unfolding unknown
turns_unknown-Down r d = record {
  not_valid = d.not_valid;
  no_compactions = d.no_compactions;
  no_turns = refl;
  no_current = refl;
  no_totals = d.no_totals;
  no_last = d.no_last;
  tainted = d.tainted;
}

flags-Down :
    (r : Row) (v c : Bool)
    → v ≡ false
    → c ≡ false
    → Down r
    → Down (record r { valid = v; compactions_valid = c })
flags-Down r v c not_valid no_compactions d = record {
  not_valid = not_valid;
  no_compactions = no_compactions;
  no_turns = d.no_turns;
  no_current = d.no_current;
  no_totals = d.no_totals;
  no_last = d.no_last;
  tainted = d.tainted;
}

-- Flags of the turns alone.
idle_flags-Down :
    (r : Row) (ambiguous lost local : Bool)
    → Down r
    → Down (record r {
      claude = record r.claude { ambiguous = ambiguous; lost_idle = lost; local_idle = local };
    })
idle_flags-Down r ambiguous lost local d = record {
  not_valid = d.not_valid;
  no_compactions = d.no_compactions;
  no_turns = d.no_turns;
  no_current = d.no_current;
  no_totals = d.no_totals;
  no_last = d.no_last;
  tainted = d.tainted;
}

ambiguous-Down : (r : Row) → Down r → Down (ambiguous r)
ambiguous-Down r d = idle_flags-Down (turns_unknown r) true false false (turns_unknown-Down r d)

lose_turn-Down : (r : Row) → Down r → Down (lose_turn r)
unfolding lose_turn unknown
lose_turn-Down r d =
    let u = turns_unknown r in
    let k : Down u = turns_unknown-Down r d in
    if_elim Down (is_running r) (λ _. ambiguous-Down u k)
      (λ _.
        idle_flags-Down u u.claude.ambiguous (u.claude.lost_idle || not u.claude.ambiguous)
          u.claude.local_idle k)

unknown_time-Down : (r : Row) → Down r → Down (unknown_time r)
unfolding unknown_time unknown
unknown_time-Down r d =
    let u = turns_unknown r in
    if_elim Down (is_idle r && not r.claude.ambiguous)
      (λ _. idle_flags-Down u u.claude.ambiguous true u.claude.local_idle (turns_unknown-Down r d))
      (λ _. d)

fail_totals-Down : (r : Row) → Down r → Down (fail_totals r)
fail_totals-Down r d = record {
  not_valid = d.not_valid;
  no_compactions = d.no_compactions;
  no_turns = d.no_turns;
  no_current = d.no_current;
  no_totals = refl;
  no_last = refl;
  tainted = taint-tainted r.claude.open_group;
}

pub unclassified-Down : (kind : ℕ) (r : Row) → Down r → Down (unclassified kind r)
unfolding unclassified
unclassified-Down kind r d =
    if_elim Down (kind == kind_assistant)
      (λ _.
        lose_turn-Down _
          (flags-Down (fail_totals r) r.valid false d.not_valid refl (fail_totals-Down r d)))
      λ _.
        if_elim Down (kind == kind_system)
          (λ _. lose_turn-Down _ (flags-Down r r.valid false d.not_valid refl d))
          λ _.
            if_elim Down (kind == kind_user || kind == kind_attachment)
              (λ _.
                lose_turn-Down _ (flags-Down r false r.compactions_valid refl d.no_compactions d))
              λ _.
                if_elim Down (kind == kind_queue)
                  (λ _.
                    if_elim Down (r.claude.lost_idle || r.claude.pending_command)
                      (λ _. ambiguous-Down r d) (λ _. unknown_time-Down r d))
                  (λ _. d)
