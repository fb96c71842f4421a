-- ===== src/Claude/TextSamples.antt =====
-- Texts as anton-runtime/src/claude/text.rs reads them, and the theorems at them.
use herdr_observatory.Claude.{Text, lead_notification}
use herdr_observatory.Claude.Analyse.{analyse, text_of, text_valid}
use herdr_observatory.Claude.Analysed.{analyse-valid}
use herdr_observatory.Claude.Notified.{analyse-block, block}
use herdr_observatory.Common.{hex_id, codes}
use herdr_observatory.Prelude.{ℕ, true, false, String, List, ◌≡◌, none, some, refl}

abbrev fixed_digest : List ℕ → String
fixed_digest bytes = "0123456789abcdef0123456789abcdef0123456789abcdef0123456789abcdef"

fixed_digest-hex : (bytes : List ℕ) → hex_id (fixed_digest bytes) 64 ≡ true
unfolding hex_id
fixed_digest-hex bytes = refl

command_lead :
    text_of fixed_digest (codes "<command-name>/clear</command-name>")
    ≡ some (record { lead = 1; interrupt = false; task = none; status = 0 })
unfolding text_of
command_lead = refl

interrupt_marker :
    text_of fixed_digest (codes "[Request interrupted by user]")
    ≡ some (record { lead = 0; interrupt = true; task = none; status = 0 })
unfolding text_of
interrupt_marker = refl

-- A second block makes the identity unreadable.
second_block :
    text_of fixed_digest (
      codes
        "<task-notification><task-id>a</task-id><status>failed</status></task-notification> <b>")
    ≡ some (record { lead = 7; interrupt = false; task = none; status = 2 })
unfolding text_of
second_block = refl

analyse-valid_example :
    (t : Text) × (analyse fixed_digest (block (codes "agent-1") (codes "completed")) ≡ some t)
    × (text_valid t ≡ true)
analyse-valid_example =
    analyse-valid fixed_digest fixed_digest-hex (block (codes "agent-1") (codes "completed"))

analyse-block_example :
    analyse fixed_digest (block (codes "agent-1") (codes "completed"))
    ≡ some (record {
      lead = lead_notification;
      interrupt = false;
      task = some (fixed_digest (codes "agent-1"));
      status = 1;
    })
analyse-block_example = analyse-block fixed_digest (codes "agent-1") (codes "completed") refl refl
