-- ===== src/Claude/Valid.antt =====
-- `ClaudeCursor::validate` and `Row::gate` of anton-runtime/src/claude.rs.
use herdr_observatory.Claude.{ClaudeCursor}
use herdr_observatory.Claude.Apply.{turn_state}
use herdr_observatory.Claude.Classifier.{Classifier}
use herdr_observatory.Claude.Classifier.Validate.{validate as validate_classifier}
use herdr_observatory.Claude.Cursor.{usage_valid, times_valid, totals, sum}
use herdr_observatory.Claude.Row.{Row}
use herdr_observatory.Prelude.{ℕ, Bool, Option, is_none_or, not, ◌&&◌, ◌||◌}
use herdr_observatory.Turns.Validate.{validate}

-- `horizon` is the time in microseconds, one second from now, and at most `max_safe`.
-- The classifier that the cursor holds while a long line is read stands beside it.
unfoldable pub cursor_valid : ℕ → Option Classifier → ClaudeCursor → Bool
unfolding totals sum validate_classifier
cursor_valid horizon classifier c =
    usage_valid c
    && times_valid horizon c
    && is_none_or classifier (λ k. validate_classifier k)
    && (not c.foreign
        || (not c.totals_valid && not c.last_valid && is_none_or c.open_group (λ g. g.tainted)))

-- The replay state that every pass boundary must leave resumable.
unfoldable pub gate : ℕ → Option Classifier → Row → Bool
unfolding cursor_valid
gate horizon classifier r =
    validate r.turns
    && cursor_valid horizon classifier r.claude
    && turn_state r
    && (not r.claude.foreign
        || (not r.valid
            && not r.compactions_valid
            && not r.turns.valid
            && not r.turns.current_known))
