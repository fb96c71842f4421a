-- ===== src/Claude/FieldSamples.antt =====
-- The fields of a line as anton-runtime/src/claude.rs reads them, and the theorem of Claude/Finished.
use herdr_observatory.Claude.Fields.{set_all, default_record}
use herdr_observatory.Claude.Finish.{finish, Iterations, Texts, no_usage}
use herdr_observatory.Claude.Finished.{set_all-RecordOk}
use herdr_observatory.Claude.KeepApply.{RecordOk}
use herdr_observatory.Common.{safe_id, hex_id}
use herdr_observatory.Json.{Value, text, unsigned}
use herdr_observatory.Prelude.{String, List, ℕ, Option, false, true, ◌≡◌, none, some, [], ◌∷◌, refl}

abbrev some_digest : String → String
some_digest s = "0123456789abcdef0123456789abcdef0123456789abcdef0123456789abcdef"

some_digest-hex : (s : String) → hex_id (some_digest s) 64 ≡ true
unfolding hex_id
some_digest-hex s = refl

abbrev fixed_stamp : String → Option ℕ
fixed_stamp s = some 7000000

abbrev answer_fields : List (ℕ × Value)
answer_fields =
    (1, text "assistant")
    ∷ (3, text "session-1")
    ∷ (4, text "line-1")
    ∷ (5, text "2026-01-01T00:00:00Z")
    ∷ (10, text "message-1")
    ∷ (12, text "end_turn")
    ∷ (14, unsigned 10)
    ∷ []

abbrev no_iterations : Iterations
no_iterations = record {
  shape = 0;
  compaction = false;
  candidate = none;
  kind = 0;
  counters = no_usage;
}

abbrev no_texts : Texts
no_texts = record { first = none; interrupt = false }

answer_finished :
    (finish true no_iterations no_texts no_texts
      (set_all some_digest fixed_stamp "session-1" 9000000 answer_fields default_record)).message
    ≡ some "0123456789abcdef"
unfolding finish set_all safe_id
answer_finished = refl

set_all-RecordOk_example : RecordOk 9000000 (
    finish true no_iterations no_texts no_texts
      (set_all some_digest fixed_stamp "session-1" 9000000 answer_fields default_record))
set_all-RecordOk_example =
    set_all-RecordOk some_digest fixed_stamp "session-1" 9000000 answer_fields true no_iterations
      no_texts no_texts some_digest-hex
