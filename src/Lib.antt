-- ===== src/Lib.antt =====
-- herdr-observatory: the session accounting of the runtime in omarchy/anton-runtime.
--
-- The runtime follows the transcripts of coding agents. It classifies each line of a transcript as
-- it comes in, in parts and under a deadline (src/envelope.rs), and keeps the account of a session's
-- turns: which turn is open, which ones are finished, and how long they took (src/turns.rs). These two
-- records are saved in a checkpoint, and checked when they are loaded: `Envelope::valid` and
-- `Turns::validate`. The results below are about these checks, about what the operations keep, and
-- about what they compute. Of the telemetry that an agent reports in its tokens, the runtime publishes a
-- view through an allowlist (src/telemetry.rs); of the machines that it knows, and of an account's
-- allowance, it accepts what passes the checks of src/fleet.rs and src/allowances.rs. Of a Claude
-- transcript (src/claude.rs) it replays each record into a row, which keeps the account of turns, usage
-- and subagents, and passes a gate before it is saved or published.
--
-- The files, with the code they are about (in omarchy/anton-runtime/src):
--   Prelude    names of the libraries, tests on numbers and lemmas on lists and options.
--   BTreeMap   a map as an association list; nothing depends on the order of its entries.
--   Json       `serde_json::Value` with the accessors that the code calls.
--   Common     common.rs: `safe_id`, `hex_id` and the largest safe number.
--   Turns      turns.rs: the record `Turns`, `begin`, `finish`, `abort` and `unknown`;
--              Turns/Observe: `observe`; Turns/Validate: `validate`. The others hold proofs:
--              WellFormed on `validate`, Touch, Preserve and Reached on a Claude transcript,
--              Bounded, Completed, ObserveInv and Observed on a Codex transcript, Grows and Kept
--              on what is never undone, History on whole transcripts.
--   Envelope   envelope.rs: the record `Envelope` with its stack; Envelope/Bits and Names: masks;
--              Valid: `valid`; Strings: `character`, `string_done` and bytes in strings; Grammar:
--              all other bytes; Feed: `feed` and `kind`. The others hold proofs: Invariant, Frames,
--              Text, Reading, Bounds, Outside and Rounds on one round of the loop, Total on the
--              whole loop, Sizes and InvValid on `valid`, Chunks and Streamed on a line in parts,
--              Deadline on deadlines, Utf8 on characters beyond ASCII.
--   Telemetry  telemetry.rs: the view that is published of an agent's telemetry. Telemetry/Names:
--              the names that are let through; View: `telemetry_view_at`; Agent: `session_binding`,
--              `decimal` and `telemetry_from_agent`. Coherent and Bound hold proofs.
--   Claude     claude.rs: the data of the replay of a Claude transcript. Claude/Cursor: `totals` and
--              parts of `validate`; Roles: `Turn::of`; Row: how coverage is lost; Children: subagents; Timing
--              and its children: `turn`; Apply: `assistant`, `apply` and `published_turns`;
--              Valid: `gate`, with the cursor's `validate` and that of the classifier beside it;
--              Usage: `usage`; Fields, Blocks and Finish: `Record::set`, `Blocks`, `Iterations` and
--              `Record::finish`; Walk: `Record::from_value`; Analyse: claude/text.rs; Parse:
--              `parse_line`, and `line` of native.rs; Reader: `oversized` and `advance`; Resume:
--              `header`, `resumable` and `resume`. Claude/Classifier: claude/classifier.rs, with Keys,
--              Strings, Tokens and Structure on the bytes of a record, Feed: `feed`, `suspend` and
--              `finish`, and Validate: `validate`.
--              Core says what holds of a row between two records. Losing, Gone, the modules Keep,
--              Totals, Gate, Replayed, Published, Answers, Frame, Later, Latched, Withheld,
--              Finished, Analysed, Notified, Walked, Passes, Elapsed, Resumed, Placed, Resumes, Stopped, Continues and Chunks, and
--              Filled, Fed and Spelled of the classifier hold the proofs.
--   Config     config.rs: `validate`, which calls the checks of Fleet and Allowances; Checked, Accepted
--              and Validated hold the proofs.
--   Owner      main.rs: `OwnerLines`, the framing of the panel's commands; Owner/Framed: its proofs.
--   Fleet      fleet.rs: the inventory of machines; Fleet/Inventory holds the proofs.
--   Allowances allowances.rs: the summary of an account; Allowances/Accounts: `mapping` and
--              `validate_config`. Fresh and Accepted hold the proofs.
--   Result     a value or an error's text.
--   Tests and the modules Samples: concrete inputs.
--
-- A method that mutates `self` is a function from the old record to the new one. The numbers are
-- natural numbers; `u64::checked_add` keeps its bound, and a `u8` or `u16` field stays within the
-- bounds that `valid` names. The classifier's vectors are lists with the last element first: `feed`
-- begins with `valid`, which has the four of one length, so `roles[stack.len() - 1]` is the head.
-- An index out of range, where the program panics, is a result of its own.
--
-- The loop of `feed` runs on fuel: two rounds for each byte and one more, since only a byte that
-- ends a number is looked at twice. That this is enough is part of the result on `feed`. The scan of a
-- task notification runs on one more round than there are units, since each round takes a unit at
-- least, and that it ends is part of the result on `analyse`.
--
-- A pass over a Claude transcript reads the file that it is given as a list of bytes. The clock of the
-- pass is how often it is read before the deadline, on which the loop of `advance` is recursive. A line
-- that serde_json reads is walked, and any other goes to the classifier, whose three vectors of open
-- containers are one list of frames; its `u16` of an escape wraps around. `horizon` is the time in
-- microseconds of the last check, one second from then, and no stamp is later. An addition of `u64`
-- wraps around in the model. From one pass to the next the clock does not go back.
--
-- Parameters: the SHA-256 digest (a function on texts, with 64 hexadecimal digits where that
-- matters), the parser of serde_json on one value and on one line (where an object keeps the keys that
-- it repeats), whether the text of a float lies in the interval from 2 to 60, the reading of a
-- timestamp, the metadata of a file, and the clocks (which times have been reached; in which rounds the
-- deadline has passed).
--
-- Not modelled: `turn_timing_view_at` of telemetry.rs, which computes with floats; `timestamp_us` of
-- native.rs, which reads a timestamp; reads of a file that fail, the checks of its path, and the scans
-- of directories in claude.rs; the other files of the runtime, which follow other transcripts, talk to
-- other processes and print reports; and the panel in omarchy/herdr.observatory.
pub mod Prelude
pub mod BTreeMap
pub mod Common
pub mod Json
pub mod Result
pub mod Turns
pub mod Envelope
pub mod Telemetry
pub mod Claude
pub mod Config
pub mod Owner
pub mod Fleet
pub mod Allowances
pub mod Tests
