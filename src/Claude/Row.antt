-- ===== src/Claude/Row.antt =====
-- The state of the replay in anton-runtime/src/claude.rs, and what is lost where a record cannot
-- be read.
use herdr_observatory.BTreeMap.{BTreeMap}
use herdr_observatory.Claude.{
  kind_queue, kind_attachment, kind_user, kind_system, kind_assistant, Group, ClaudeCursor,
  default as default_cursor,
}
use herdr_observatory.Prelude.{
  ℕ, true, Option, Bool, String, false, is_some, is_none, ◌&&◌, none, some, [], if◌then◌else◌, ◌==◌,
  not, ◌||◌,
}
use herdr_observatory.Turns.{Turns, unknown, default as default_turns}

-- The fields that only the reading of the file uses (`file`, `offset`, `caught_up`, `skipping`,
-- `fingerprint` and `at`) are left out.
pub record Row : Type 0 where
  pub children : BTreeMap String
  pub seq : ℕ
  pub valid : Bool
  pub compactions_valid : Bool
  pub turns : Turns
  pub claude : ClaudeCursor

abbrev pub new : Row
new = record {
  children = [];
  seq = 0;
  valid = true;
  compactions_valid = true;
  turns = default_turns;
  claude = default_cursor;
}

abbrev pub taint : Option Group → Option Group
taint none = none
taint (some g) = some (record g { tainted = true; response = none })

abbrev pub fail_last : Row → Row
fail_last r = record r {
  claude = record r.claude {
    last_valid = false;
    last = none;
    open_group = taint r.claude.open_group;
  };
}

abbrev pub fail_totals : Row → Row
fail_totals r = fail_last (record r { claude = record r.claude { totals_valid = false } })

abbrev pub turns_unknown : Row → Row
turns_unknown r = record r {
  turns = unknown r.turns;
  claude = record r.claude {
    clean = false;
    pending_start = none;
    pending_command = false;
    queued_since_start = none;
    silent_end = false;
  };
}

abbrev pub ambiguous : Row → Row
ambiguous r =
    let u = turns_unknown r in
    record u {
      claude = record u.claude { ambiguous = true; lost_idle = false; local_idle = false };
    }

abbrev pub is_running : Row → Bool
is_running r = is_some r.turns.active || is_some r.claude.pending_start || r.claude.lost_idle

unfoldable pub lose_turn : Row → Row
lose_turn r =
    let u = turns_unknown r in
    if is_running r then ambiguous u else record u {
      claude = record u.claude { lost_idle = u.claude.lost_idle || not u.claude.ambiguous };
    }

abbrev pub is_idle : Row → Bool
is_idle r = is_none r.turns.active && is_none r.claude.pending_start

unfoldable pub unknown_time : Row → Row
unknown_time r =
    if is_idle r && not r.claude.ambiguous
    then (let u = turns_unknown r in record u { claude = record u.claude { lost_idle = true } })
    else r

unfoldable pub invalid : Row → Row
unfolding lose_turn
invalid r = fail_totals (lose_turn (record r { valid = false; compactions_valid = false }))

-- What a record that cannot be classified costs, by its kind.
unfoldable pub unclassified : ℕ → Row → Row
unfolding lose_turn unknown_time
unclassified kind r =
    if kind == kind_assistant
    then lose_turn (record (fail_totals r) { compactions_valid = false })
    else if kind == kind_system
    then lose_turn (record r { compactions_valid = false })
    else if kind == kind_user || kind == kind_attachment
    then lose_turn (record r { valid = false })
    else if kind == kind_queue
    then (if r.claude.lost_idle || r.claude.pending_command then ambiguous r else unknown_time r)
    else r
