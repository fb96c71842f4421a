-- ===== src/Claude/Timing.antt =====
-- `turn` of anton-runtime/src/claude.rs: what one record says about the current turn.
mod Times
mod Inputs
mod Edges
unfoldable pub use Times.*
unfoldable pub use Inputs.*
unfoldable pub use Edges.*
use herdr_observatory.Claude.{Record}
use herdr_observatory.Claude.Roles.{
  role_of, Role, abort, trigger, ignored, unknown, assistant, end, silent, queue,
}
use herdr_observatory.Claude.Row.{ambiguous, Row}

abbrev pub turn_as : Role → Record → Row → Row
turn_as ignored e r = ignored_turn e r
turn_as unknown e r = ambiguous r
turn_as queue e r = queue_turn e r
turn_as silent e r = silent_turn r
turn_as assistant e r = assistant_turn e r
turn_as trigger e r = trigger_turn e r
turn_as abort e r = aborted_turn e r
turn_as end e r = ended_turn e r

unfoldable pub turn : Record → Row → Row
unfolding role_of ignored_turn queue_turn silent_turn assistant_turn trigger_turn aborted_turn
    ended_turn
turn e r = turn_as (role_of e) e r
