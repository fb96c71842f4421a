-- ===== src/Tests.antt =====
-- Concrete inputs: the theorems on anton-runtime/src/turns.rs and envelope.rs applied to them.
use herdr_observatory.BTreeMap.{get as get_row, insert}
use herdr_observatory.Common.{safe_id, hex_id, codes}
use herdr_observatory.Envelope.{default as line, Envelope}
use herdr_observatory.Envelope.Chunks.{in_time}
use herdr_observatory.Envelope.Deadline.{feed-Late, feed-done, Late}
use herdr_observatory.Envelope.Feed.{fed, rejected, feed}
use herdr_observatory.Envelope.Streamed.{
  fresh as line_start, feed-append, feed_on, Streamed-feed, part, Sane,
}
use herdr_observatory.Envelope.Utf8.{feed-encode, other_character, encode}
use herdr_observatory.Json.{unsigned, index, get}
use herdr_observatory.Prelude.{
  inl, ◌++◌, ◌↔◌, List, [], false, ◌∷◌, leb→le, ◌≤◌, leb, true, ◌≡◌, Bool, arith, String, ℕ, refl,
  none, some, if◌then◌else◌, str_eq, if_elim,
}
use herdr_observatory.Turns.{Row, Turns, default, begin, finish, abort, unknown}
use herdr_observatory.Turns.Grows.{Grows}
use herdr_observatory.Turns.History.{
  start_payload, end_payload, observe_all-ledger, observe_all, Follows, Sound, Turn, Keeps,
}
use herdr_observatory.Turns.Kept.{Reached-Grows, observe-Grows}
use herdr_observatory.Turns.Observe.{completed, observe}
use herdr_observatory.Turns.ObserveInv.{NoContradiction}
use herdr_observatory.Turns.Observed.{
  completed_contradiction, Observed-validate, Surroundings, fresh, observed,
}
use herdr_observatory.Turns.Reached.{Reached-validate, Reached, fresh as new, begun, finished}
use herdr_observatory.Turns.Validate.{validate}
use herdr_observatory.Turns.WellFormed.{validate_iff, WellFormed}

abbrev zeros : String
zeros = "0000000000000000000000000000000000000000000000000000000000000000"

abbrev ones : String
ones = "1111111111111111111111111111111111111111111111111111111111111111"

-- A digest that tells the turn `b` from the others.
abbrev digest : String → String
digest m = if str_eq m "anton-turn-v1:s:b" then ones else zeros

digest-hex : (m : String) → hex_id (digest m) 64 ≡ true
unfolding hex_id
digest-hex m =
    if_elim (λ d. hex_id d 64 ≡ true) (str_eq m "anton-turn-v1:s:b") (λ _. refl) (λ _. refl)

abbrev around : Surroundings
around = record { sha256 = digest; bound = 2000000000; hex = digest-hex; fits = omega arith }

-- A clock that stands at 2000000000.
abbrev clock : ℕ → Bool
clock v = leb v 2000000000

clock-le : (v : ℕ) → clock v ≡ true → v ≤ 2000000000
clock-le v h = leb→le v 2000000000 h

abbrev first : Turn
first = record { id = "a"; begun = 100; ended = 160; was_aborted = false }

abbrev second : Turn
second = record { id = "b"; begun = 160; ended = 170; was_aborted = true }

first-Sound : Sound digest clock "s" first
unfolding safe_id
first-Sound = record {
  safe = refl;
  positive = omega arith;
  ordered = omega arith;
  begun_seen = refl;
  ended_seen = refl;
}

second-Sound : Sound digest clock "s" second
unfolding safe_id
second-Sound = record {
  safe = refl;
  positive = omega arith;
  ordered = omega arith;
  begun_seen = refl;
  ended_seen = refl;
}

two_turns : Follows digest clock "s" (first ∷ second ∷ []) [] none
unfolding get_row insert
two_turns = (first-Sound, refl, tt, (second-Sound, refl, (omega arith, omega arith), tt))

observe_all-ledger_example :
    Keeps digest clock "s"
      (first ∷ second ∷ [])
      default
      (observe_all digest clock "s" (first ∷ second ∷ []) default)
observe_all-ledger_example =
    observe_all-ledger digest clock "s" (first ∷ second ∷ []) two_turns (omega arith) (omega arith)

-- The record with the first turn open.
abbrev open_turn : Turns
open_turn = observe digest clock (start_payload first) "s" default

open_turn-start : open_turn.start ≡ some 100
unfolding observe index get get_row safe_id
open_turn-start = refl

same_number : (n m : ℕ) → unsigned n ≡ unsigned m → n ≡ m
same_number n m e = cc

start_agrees : NoContradiction digest (start_payload first) "s" default
start_agrees turn r i b c same other = tt

end_agrees : NoContradiction digest (end_payload first) "s" open_turn
unfolding index
end_agrees turn r i b c same other =
    let ended = same_number 160 r.ended c in rw open_turn-start (omega (arith, ended))

abbrev closed_turn : Turns
closed_turn = observe digest clock (end_payload first) "s" open_turn

Observed-validate_example : validate closed_turn ≡ true
Observed-validate_example = Observed-validate around closed_turn (
    observed clock (end_payload first) "s" clock-le end_agrees
      (observed clock (start_payload first) "s" clock-le start_agrees fresh))

observe-Grows_example : Grows open_turn closed_turn
observe-Grows_example = observe-Grows digest clock (end_payload first) "s" open_turn

-- An open turn, and the same turn completed under a later start.
abbrev other_row : Row
other_row = record { begun = 90; ended = 95; outcome = "completed" }

abbrev key : String
key = "000000000000000000000000"

abbrev still_open : Turns
still_open = record default { active = some key; start = some 100; current_known = true }

completed_contradiction_example : validate (completed key other_row still_open) ≡ false
unfolding get_row
completed_contradiction_example =
    completed_contradiction key other_row 100 still_open refl refl refl refl (omega arith)
      (omega arith) (omega arith)

-- A Claude transcript: a turn that is completed, one that is cut short by the next, and one that
-- ends before it begins.
abbrev claude_turns : Turns
claude_turns = finish 40 (
    begin "222222222222222222222222" 50
      (begin "111111111111111111111111" 30 (finish 20 (begin key 10 default))))

claude_Reached : Reached claude_turns
claude_Reached = finished 40 (
    begun "222222222222222222222222" 50
      (begun "111111111111111111111111" 30 (finished 20 (begun key 10 new))))

Reached-validate_example : validate claude_turns ≡ true
Reached-validate_example = Reached-validate claude_turns claude_Reached

Reached-Grows_example :
    Grows claude_turns (begin "333333333333333333333333" 60 claude_turns)
    × Grows claude_turns (finish 70 claude_turns)
    × Grows claude_turns (abort 70 claude_turns)
    × Grows claude_turns (unknown claude_turns)
Reached-Grows_example = Reached-Grows claude_turns "333333333333333333333333" 60 70 claude_Reached

validate_iff_example : (validate claude_turns ≡ true) ↔ WellFormed claude_turns
validate_iff_example = validate_iff claude_turns

-- A line, cut in the middle of a key.
abbrev head : List ℕ
head = codes "{\"ty"

abbrev tail : List ℕ
tail = codes "pe\":\"compacted\"}"

Streamed-feed_example : Sane (feed (codes "{\"type\":\"compacted\"} x") in_time line)
Streamed-feed_example = Streamed-feed (codes "{\"type\":\"compacted\"} x") in_time line line_start

feed-append_example : feed (head ++ tail) in_time line ≡ feed_on tail (feed head in_time line)
feed-append_example = feed-append head tail line line_start

feed-Late_example : Late (feed head (λ k. leb 2 k) line) (feed head in_time line)
feed-Late_example = feed-Late head (λ k. leb 2 k) line

-- What is left of the line `{}`.
abbrev done_line : Envelope
done_line = record line { started = 1; done = 1 }

done_line-fed : feed (codes "{}") in_time line ≡ fed done_line
unfolding feed
done_line-fed = refl

feed-done_example : feed (codes " x") in_time done_line ≡ rejected
feed-done_example =
    feed-done (codes " x") done_line (part (codes "{}") in_time done_line-fed line_start) refl

-- Inside the first key of a line.
abbrev in_key : Envelope
in_key = record line {
  stack = 0 ∷ [];
  roles = 1 ∷ [];
  pending = 0 ∷ [];
  seen = 0 ∷ [];
  started = 1;
  lex = 1;
  key = 1;
  capture = 1;
  mask = 8191;
}

in_key-fed : feed (codes "{\"") in_time line ≡ fed in_key
unfolding feed
in_key-fed = refl

feed-encode_example : feed (encode 8364) in_time in_key ≡ fed (other_character in_key)
feed-encode_example =
    feed-encode 8364 in_key (part (codes "{\"") in_time in_key-fed line_start) (refl, refl, refl)
      (omega arith) (omega arith) (inl (omega arith))
