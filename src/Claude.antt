-- ===== src/Claude.antt =====
-- anton-runtime/src/claude.rs and claude/text.rs: the data of the replay of a Claude transcript.
pub mod Cursor
pub mod Roles
pub mod Row
pub mod Children
pub mod Timing
pub mod Apply
pub mod Valid
pub mod Core
pub mod Losing
pub mod Gone
pub mod KeepTurn
pub mod KeepRole
pub mod KeepQueue
pub mod KeepTrigger
pub mod KeepEnd
pub mod Totals
pub mod KeepUsage
pub mod KeepLine
pub mod KeepChildren
pub mod KeepApply
pub mod Gate
pub mod Replayed
pub mod Usage
pub mod Walk
pub mod Parse
pub mod Reader
pub mod Resume
pub mod Walked
pub mod Passes
pub mod Elapsed
pub mod Resumed
pub mod Stopped
pub mod Chunks
pub mod Continues
pub mod PassSamples
pub mod Resumes
pub mod Placed
pub mod Published
pub mod Answers
pub mod Withheld
pub mod Analyse
pub mod Analysed
pub mod Notified
pub mod TextSamples
pub mod Fields
pub mod Blocks
pub mod Classifier
pub mod Finish
pub mod Finished
pub mod FieldSamples
pub mod Frame
pub mod Later
pub mod Latched
pub mod Samples
use herdr_observatory.Common.{max_safe}
use herdr_observatory.Prelude.{ℕ, String, Bool, true, false, Option, none, some, List, []}

-- The facts of one text value.
pub record Text : Type 0 where
  pub lead : ℕ
  pub interrupt : Bool
  pub task : Option String
  pub status : ℕ

-- An array of four: input, output, cache read, cache creation.
pub record Four (A : Type 0) : Type 0 where
  pub at0 : A
  pub at1 : A
  pub at2 : A
  pub at3 : A

abbrev pub Counters : Type 0
Counters = Four ℕ

abbrev pub no_counters : Counters
no_counters = record { at0 = 0; at1 = 0; at2 = 0; at3 = 0 }

pub record Response : Type 0 where
  pub usage : Counters
  pub model : Option String

-- The open group of one `message.id`.
pub record Group : Type 0 where
  pub id : String
  pub usage : Counters
  pub stop : ℕ
  pub response : Option Response
  pub tainted : Bool

pub record Start : Type 0 where
  pub key : String
  pub second : ℕ

-- Its field `classifier` is the state of a line that is read in parts, which the replay of whole
-- records leaves alone.
pub record ClaudeCursor : Type 0 where
  pub input : ℕ
  pub output : ℕ
  pub cache_read : ℕ
  pub cache_creation : ℕ
  pub totals_valid : Bool
  pub last : Option Response
  pub last_valid : Bool
  pub usage_seq : ℕ
  pub coverage_seq : ℕ
  pub open_group : Option Group
  pub closed : List String
  pub compactions : ℕ
  pub compaction_iteration : Bool
  pub pending_start : Option Start
  pub pending_command : Bool
  pub abort_adjacent : Bool
  pub queued_since_start : Option ℕ
  pub silent_end : Bool
  pub ambiguous : Bool
  pub lost_idle : Bool
  pub local_idle : Bool
  pub clean : Bool
  pub foreign : Bool
  pub end_floor : ℕ

abbrev pub default : ClaudeCursor
default = record {
  input = 0;
  output = 0;
  cache_read = 0;
  cache_creation = 0;
  totals_valid = true;
  last = none;
  last_valid = true;
  usage_seq = 0;
  coverage_seq = 0;
  open_group = none;
  closed = [];
  compactions = 0;
  compaction_iteration = false;
  pending_start = none;
  pending_command = false;
  abort_adjacent = false;
  queued_since_start = none;
  silent_end = false;
  ambiguous = false;
  lost_idle = false;
  local_idle = false;
  clean = true;
  foreign = false;
  end_floor = 0;
}

-- The fields of one record that the replay consumes.
pub record Record : Type 0 where
  pub kind : ℕ
  pub subtype : ℕ
  pub identity : ℕ
  pub forked : Bool
  pub compact_summary : Bool
  pub meta : Bool
  pub stamp : Option ℕ
  pub uuid : Option String
  pub message : Option String
  pub synthetic : Bool
  pub model : Option String
  pub stop : ℕ
  pub usage : Four (Option ℕ)
  pub selected : Option Counters
  pub compaction_iteration : Bool
  pub bad : Bool
  pub origin : ℕ
  pub tool : Bool
  pub launch : Bool
  pub spawn : Bool
  pub agent : Option String
  pub agent_bad : Bool
  pub resumed : Option String
  pub resumed_bad : Bool
  pub success : Bool
  pub duration : Bool
  pub interrupted : Bool
  pub aborted : Bool
  pub queued : Bool
  pub mode : ℕ
  pub operation : ℕ
  pub text : Option Text
  pub interrupt : Bool
  pub elapsed : Option ℕ
  pub background : Bool

abbrev pub kind_assistant : ℕ
kind_assistant = 1

abbrev pub kind_user : ℕ
kind_user = 2

abbrev pub kind_attachment : ℕ
kind_attachment = 3

abbrev pub kind_system : ℕ
kind_system = 4

abbrev pub kind_queue : ℕ
kind_queue = 5

abbrev pub stop_null : ℕ
stop_null = 1

abbrev pub stop_end_turn : ℕ
stop_end_turn = 2

abbrev pub stop_other : ℕ
stop_other = 4

abbrev pub lead_command : ℕ
lead_command = 1

abbrev pub lead_notification : ℕ
lead_notification = 7

abbrev pub lead_other : ℕ
lead_other = 8

abbrev pub origin_other : ℕ
origin_other = 5

abbrev pub mode_prompt : ℕ
mode_prompt = 1

abbrev pub mode_notification : ℕ
mode_notification = 2
