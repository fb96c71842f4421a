-- ===== src/Claude/Samples.antt =====
-- Records as anton-runtime/src/claude.rs keeps them, and the theorems at them.
use herdr_observatory.BTreeMap.{get}
use herdr_observatory.Claude.{Record, kind_user, kind_assistant}
use herdr_observatory.Claude.Answers.{usage-Answer, IsCounted}
use herdr_observatory.Claude.Apply.{apply, rejected, settle, whole}
use herdr_observatory.Claude.Published.{usage-ResponseOk}
use herdr_observatory.Claude.Replayed.{fresh, settled, Replayed, Replayed-gate}
use herdr_observatory.Claude.Row.{Row, new}
use herdr_observatory.Claude.Usage.{is_usage_known, usage}
use herdr_observatory.Claude.Valid.{gate}
use herdr_observatory.Claude.Withheld.{settle_all, settle_all-NoTotals, NoTotals}
use herdr_observatory.Common.{max_safe, hex_id}
use herdr_observatory.Prelude.{
  [], ◌∷◌, true, false, ℕ, ◌≤◌, ◌&&◌, Holds, ◌≡◌, is_some, none, some, refl, arith,
}
use herdr_observatory.Telemetry.Names.{safe_model}
use herdr_observatory.Turns.{begin}

abbrev empty_record : Record
empty_record = record {
  kind = 0;
  subtype = 0;
  identity = 1;
  forked = false;
  compact_summary = false;
  meta = false;
  stamp = none;
  uuid = none;
  message = none;
  synthetic = false;
  model = none;
  stop = 0;
  usage = record { at0 = none; at1 = none; at2 = none; at3 = none };
  selected = none;
  compaction_iteration = false;
  bad = false;
  origin = 0;
  tool = false;
  launch = false;
  spawn = false;
  agent = none;
  agent_bad = false;
  resumed = none;
  resumed_bad = false;
  success = false;
  duration = false;
  interrupted = false;
  aborted = false;
  queued = false;
  mode = 0;
  operation = 0;
  text = none;
  interrupt = false;
  elapsed = none;
  background = false;
}

-- A prompt of the user at second 5.
abbrev prompt : Record
prompt = record empty_record {
  kind = kind_user;
  stamp = some 5000000;
  uuid = some "0123456789abcdef01234567";
  origin = 1;
}

-- A line of the answer at second 7.
abbrev answer : Record
answer = record empty_record {
  kind = kind_assistant;
  stamp = some 7000000;
  message = some "0123456789abcdef";
  stop = 3;
  usage = record { at0 = some 10; at1 = some 20; at2 = some 30; at3 = some 40 };
}

abbrev answered : Row
answered = settle (whole answer) (settle (whole prompt) new)

abbrev now_horizon : ℕ
now_horizon = 9000000

answered_replay : Replayed now_horizon answered
unfolding hex_id
answered_replay =
    settled (whole answer)
      (record {
        uuid_hex = tt;
        message_hex = refl;
        stop_known = λ _ _. (omega arith, omega arith);
        stamp_le = omega arith;
      })
      (settled (whole prompt)
        (record {
          uuid_hex = refl;
          message_hex = tt;
          stop_known = λ _ k. cc;
          stamp_le = omega arith;
        })
        fresh)

answered_running : is_some answered.turns.active ≡ true
unfolding settle begin hex_id get
answered_running = refl

answered_totals : (usage answered).total_input ≡ some 80
unfolding settle usage begin hex_id get
answered_totals = refl

Replayed-gate_example : gate now_horizon none answered ≡ true
Replayed-gate_example = Replayed-gate now_horizon answered (omega arith) answered_replay

answered_known : (is_usage_known answered && answered.claude.totals_valid) ≡ true
unfolding settle begin hex_id get
answered_known = refl

-- A line of the next answer at second 8, which closes the first one.
abbrev next_answer : Record
next_answer = record answer {
  stamp = some 8000000;
  message = some "fedcba9876543210";
  usage = record { at0 = some 1; at1 = some 2; at2 = some 3; at3 = some 4 };
}

next_known :
    (is_usage_known (apply next_answer answered)
      && (apply next_answer answered).claude.totals_valid)
    ≡ true
unfolding settle apply begin hex_id get
next_known = refl

next_totals : (usage (apply next_answer answered)).total_output ≡ some 22
unfolding settle apply usage begin hex_id get
next_totals = refl

answered_own : answered.claude.foreign ≡ false
unfolding settle begin hex_id get
answered_own = refl

usage-Answer_example :
    IsCounted next_answer "fedcba9876543210" answered (apply next_answer answered)
unfolding hex_id
usage-Answer_example =
    usage-Answer now_horizon next_answer answered "fedcba9876543210" 8000000 (omega arith)
      answered_replay
      (record {
        uuid_hex = tt;
        message_hex = refl;
        stop_known = λ _ _. (omega arith, omega arith);
        stamp_le = omega arith;
      })
      (record {
        is_assistant = refl;
        is_own = refl;
        is_new = refl;
        is_real = refl;
        is_good = refl;
        has_id = refl;
        has_stamp = refl;
      })
      answered_own next_known

usage-ResponseOk_example :
    Holds (λ m. safe_model m ≡ true) (usage answered).model
    × (is_some (usage answered).context ≡ is_some (usage answered).output_tokens)
    × Holds (λ n. n ≤ max_safe) (usage answered).context
usage-ResponseOk_example = usage-ResponseOk now_horizon answered (omega arith) answered_replay

abbrev broken : Row
broken = settle rejected answered

broken_totals : broken.claude.totals_valid ≡ false
unfolding settle begin hex_id get
broken_totals = refl

settle_all-NoTotals_example : NoTotals (usage (settle_all (whole next_answer ∷ []) broken))
settle_all-NoTotals_example = settle_all-NoTotals (whole next_answer ∷ []) broken broken_totals

-- A file in which a line has named another session.
abbrev strange : Row
strange = settle (whole (record answer { identity = 2 })) answered
