-- ===== src/Claude/Classifier.antt =====
-- anton-runtime/src/claude/classifier.rs: the classifier of a record that is read in parts. Its three
-- vectors `stack`, `nodes` and `pending` are pushed and popped together: they are one list of frames,
-- the innermost one first. The bytes of a string or a number are kept in the order of reading.
pub mod Fed
pub mod Feed
pub mod Filled
pub mod Keys
pub mod Spelled
pub mod Strings
pub mod Structure
pub mod Tokens
pub mod Validate
use herdr_observatory.Claude.{Record}
use herdr_observatory.Claude.Blocks.{Blocks, nodes, set_block, set_iteration, push_block}
use herdr_observatory.Claude.Fields.{default_record, set as set_field}
use herdr_observatory.Claude.Finish.{Texts, Iterations, no_usage, push as push_iteration}
use herdr_observatory.Envelope.Bits.{test_bit, set_bit, clear_bit}
use herdr_observatory.Json.{Value, text, array, object, nil, end, is_null}
use herdr_observatory.Prelude.{
  ℕ, Bool, false, true, length, ◌&&◌, leb, ◌==◌, List, String, Option, none, some, [], ◌∷◌, not,
  ◌||◌, if◌then◌else◌,
}

-- What the classifier calls and is told: the digest, the parser of serde_json on the bytes of one
-- value, the reading of a timestamp, the session and the latest stamp.
pub record Context : Type 0 where
  pub sha256 : String → String
  pub digest : List ℕ → String
  pub parse : List ℕ → Option Value
  pub timestamp_us : String → Option ℕ
  pub id : String
  pub horizon : ℕ

pub record Frame : Type 0 where
  pub phase : ℕ
  pub node : ℕ
  pub pending : ℕ

pub record Classifier : Type 0 where
  pub frames : List Frame
  pub lex : ℕ
  pub number : ℕ
  pub literal : ℕ
  pub index : ℕ
  pub key : ℕ
  pub escape : ℕ
  pub hex : ℕ
  pub utf : ℕ
  pub lo : ℕ
  pub hi : ℕ
  pub started : ℕ
  pub done : ℕ
  pub name : List ℕ
  pub miss : Bool
  pub capture : ℕ
  pub seen : ℕ
  pub lost : ℕ
  pub deep : ℕ
  pub overflow : Bool
  pub message_object : Bool
  pub entry : Record
  pub iterations : Iterations
  pub blocks : Blocks
  pub value : List ℕ
  pub scan : List ℕ
  pub code : ℕ
  pub high : Bool

-- `NONE`.
abbrev pub no_node : ℕ
no_node = 255

abbrev pub cap : ℕ
cap = 1024

abbrev pub depth : ℕ
depth = 128

abbrev pub deep_limit : ℕ
deep_limit = 1048576

abbrev pub no_iterations : Iterations
no_iterations = record {
  shape = 0;
  compaction = false;
  candidate = none;
  kind = 0;
  counters = no_usage;
}

abbrev pub no_texts : Texts
no_texts = record { first = none; interrupt = false }

abbrev pub no_blocks : Blocks
no_blocks = record { content = no_texts; prompt = no_texts; is_text_block = false; value = none }

abbrev pub default : Classifier
default = record {
  frames = [];
  lex = 0;
  number = 0;
  literal = 0;
  index = 0;
  key = 0;
  escape = 0;
  hex = 0;
  utf = 0;
  lo = 128;
  hi = 191;
  started = 0;
  done = 0;
  name = [];
  miss = false;
  capture = no_node;
  seen = 0;
  lost = 0;
  deep = 0;
  overflow = false;
  message_object = false;
  entry = default_record;
  iterations = no_iterations;
  blocks = no_blocks;
  value = [];
  scan = [];
  code = 0;
  high = false;
}

-- `none` is an error.
unfoldable pub push : ℕ → ℕ → Classifier → Option Classifier
push phase node c =
    if leb depth (length c.frames)
    then none
    else some
        (record c { frames = record { phase = phase; node = node; pending = no_node } ∷ c.frames })

abbrev pub pop_frame : List Frame → List Frame
pop_frame [] = []
pop_frame (frame ∷ frames) = frames

abbrev pub pop : Classifier → Classifier
pop c = record c { frames = pop_frame c.frames }

-- The node of a value that starts in the innermost container.
unfoldable pub target : List Frame → ℕ
target [] = no_node
target (frame ∷ frames) =
    if frame.phase == 3
    then frame.pending
    else if (frame.phase == 5 || frame.phase == 6) && frame.node == 18
    then 19
    else if (frame.phase == 5 || frame.phase == 6) && (frame.node == 39 || frame.node == 38)
    then 40
    else no_node

abbrev pub clear_items : ℕ → ℕ
clear_items seen = clear_bit (clear_bit (clear_bit (clear_bit (clear_bit seen 20) 21) 22) 23) 24

abbrev pub clear_blocks : ℕ → ℕ
clear_blocks seen = clear_bit (clear_bit seen 41) 42

-- An element of an array is complete.
abbrev pub element_done : ℕ → Classifier → Classifier
element_done node c =
    if node == 18
    then record c { iterations = push_iteration c.iterations; seen = clear_items c.seen }
    else if node == 39 || node == 38
    then record c { blocks = push_block node c.blocks; seen = clear_blocks c.seen }
    else c

abbrev pub value_done_in : List Frame → Classifier → Classifier
value_done_in [] c = record c { done = 1 }
value_done_in (frame ∷ frames) c =
    if frame.phase == 3
    then record c { frames = record frame { phase = 4; pending = no_node } ∷ frames }
    else if frame.phase == 5 || frame.phase == 6
    then element_done frame.node
        (record c { frames = record frame { phase = 7; pending = no_node } ∷ frames })
    else record c { frames = record frame { pending = no_node } ∷ frames }

-- A value of the innermost container is complete.
unfoldable pub value_done : Classifier → Classifier
unfolding push_block clear_bit
value_done c = value_done_in c.frames c

abbrev pub is_frame : ℕ → Bool
is_frame node = node == 9 || node == 13 || node == 19 || node == 35 || node == 40

abbrev pub is_text_node : ℕ → Bool
is_text_node node = node == 38 || node == 39 || node == 42

abbrev pub is_presence : ℕ → Bool
is_presence node = node == 7 || node == 8 || node == 25 || node == 27 || node == 33

abbrev pub stand_in : Bool → Value
stand_in is_map = if is_map then object end else array nil

module _ (x : Context) where
  -- A consumed scalar value is complete.
  unfoldable pub scalar : ℕ → Value → Classifier → Classifier
  unfolding set_iteration set_block set_field
  scalar node v c =
      if node == 18
      then record c { iterations = record c.iterations { shape = if is_null v then 0 else 2 } }
      else if leb 20 node && leb node 24
      then record c { iterations = set_iteration node v c.iterations }
      else if node == 38 || node == 39 || node == 41 || node == 42
      then record c { blocks = set_block x.digest node v c.blocks }
      else if node == no_node || is_frame node
      then c
      else record c { entry = set_field x.sha256 x.timestamp_us x.id x.horizon node v c.entry }

  -- A container starts at `node`: the node of its frame, and the classifier after it.
  unfoldable pub open_container : ℕ → Bool → Classifier → ℕ × Classifier
  unfolding scalar
  open_container node is_map c =
      if node == 9 && is_map
      then (9, record c { message_object = true })
      else if ((node == 13 || node == 19 || node == 35 || node == 40) && is_map)
          || ((node == 39 || node == 38) && not is_map)
      then (node, c)
      else if (node == 25 || node == 27) && is_map
      then (node, scalar node (object end) c)
      else if node == 18 && not is_map
      then (18, record c { iterations = record c.iterations { shape = 1 } })
      else if node == 18
      then (no_node, record c { iterations = record c.iterations { shape = 2 } })
      else if node == no_node || is_frame node
      then (no_node, c)
      else (no_node, scalar node (stand_in is_map) c)
