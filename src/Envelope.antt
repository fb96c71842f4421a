-- ===== src/Envelope.antt =====
-- anton-runtime/src/envelope.rs: the incremental classifier of transcript lines. Its `u8` and
-- `u16` fields are numbers, and its four vectors are lists with the last element first.
pub mod Bits
pub mod Names
pub mod Valid
pub mod Strings
pub mod Grammar
pub mod Feed
pub mod Samples
pub mod Invariant
pub mod Frames
pub mod Text
pub mod Reading
pub mod Bounds
pub mod Outside
pub mod Rounds
pub mod Total
pub mod Chunks
pub mod Streamed
pub mod Deadline
pub mod Utf8
pub mod Sizes
pub mod InvValid
use herdr_observatory.Prelude.{ℕ, ◌+◌, List, [], ◌∷◌, ◌==◌, min, ltb, if◌then◌else◌}

pub record Envelope : Type 0 where
  pub stack : List ℕ
  pub lex : ℕ
  pub number : ℕ
  pub literal : ℕ
  pub index : ℕ
  pub mask : ℕ
  pub key : ℕ
  pub capture : ℕ
  pub escape : ℕ
  pub hex : ℕ
  pub utf : ℕ
  pub lo : ℕ
  pub hi : ℕ
  pub started : ℕ
  pub done : ℕ
  pub seen : List ℕ
  pub pending : List ℕ
  pub kind : ℕ
  pub roles : List ℕ
  pub payload_type : ℕ
  pub item_type : ℕ

abbrev pub default : Envelope
default = record {
  stack = [];
  lex = 0;
  number = 0;
  literal = 0;
  index = 0;
  mask = 0;
  key = 0;
  capture = 0;
  escape = 0;
  hex = 0;
  utf = 0;
  lo = 128;
  hi = 191;
  started = 0;
  done = 0;
  seen = [];
  pending = [];
  kind = 0;
  roles = [];
  payload_type = 0;
  item_type = 0;
}

-- What one round of the loop in `feed` comes to: the byte is read, the byte is to be looked at
-- again, `Err(())`, or an index out of range, where the program panics.
pub data Round : Type 0 where
  read : Envelope → Round
  again : Envelope → Round
  refuse : Round
  panic : Round

unfoldable pub push : ℕ → ℕ → Envelope → Envelope
push phase role e = record e {
  stack = phase ∷ e.stack;
  roles = role ∷ e.roles;
  pending = 0 ∷ e.pending;
  seen = 0 ∷ e.seen;
}

abbrev pub drop_last : List ℕ → List ℕ
drop_last [] = []
drop_last (x ∷ xs) = xs

unfoldable pub pop : Envelope → Envelope
pop e = record e {
  stack = drop_last e.stack;
  roles = drop_last e.roles;
  pending = drop_last e.pending;
  seen = drop_last e.seen;
}

-- `(self.index + 1).min(32)`.
abbrev pub bump_index : ℕ → ℕ
bump_index i = if ltb (i + 1) 32 then i + 1 else 32

-- The phase of a value's frame once the value is read.
abbrev pub after_value : ℕ → ℕ
after_value phase =
    if phase == 3 then 4 else if phase == 5 then 7 else if phase == 6 then 7 else phase

abbrev pub value_done_on : List ℕ → List ℕ → Envelope → Round
value_done_on [] pending e = read (record e { done = 1 })
value_done_on (phase ∷ stack) [] e = panic
value_done_on (phase ∷ stack) (p ∷ pending) e =
    read (record e { stack = after_value phase ∷ stack; pending = 0 ∷ pending })

unfoldable pub value_done : Envelope → Round
value_done e = value_done_on e.stack e.pending e
