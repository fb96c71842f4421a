-- ===== src/Turns/Observed.antt =====
-- Whole Codex transcripts through `observe` of anton-runtime/src/turns.rs: what `validate` says of
-- the record that they lead to.
use herdr_observatory.BTreeMap.{get}
use herdr_observatory.Common.{hex_id, max_safe}
use herdr_observatory.Common.Prefix.{hex_id-take_chars}
use herdr_observatory.Json.{Value}
use herdr_observatory.Prelude.{
  ◌∙◌, ℕ, ◌*◌, ◌≤◌, ◌<◌, String, ◌≡◌, ◌≢◌, Bool, true, false, none, some, arith, inl, inr,
  Bool-cases, length,
}
use herdr_observatory.Turns.{set_last, Row, Turns, default, capacity}
use herdr_observatory.Turns.Bounded.{Bounded}
use herdr_observatory.Turns.Observe.{observe, completed, store_row}
use herdr_observatory.Turns.ObserveInv.{NoContradiction, observe-Bounded}
use herdr_observatory.Turns.Preserve.{default-Inv}
use herdr_observatory.Turns.Touch.{get-insert_self}
use herdr_observatory.Turns.Validate.{validate}
use herdr_observatory.Turns.WellFormed.{WellFormed-of_validate, validate_of_WellFormed}
use text.Mathlib.TextPositions.{eq_refl}

-- What `observe` takes from outside: a digest of 64 hexadecimal digits, and a clock that stays
-- so low that 512 turns fit into `max_safe`.
pub record Surroundings : Type 0 where
  pub sha256 : String → String
  pub bound : ℕ
  pub hex : (m : String) → hex_id (sha256 m) 64 ≡ true
  pub fits : capacity * bound ≤ max_safe

-- The records that a Codex transcript leads to, payload by payload. At each payload the clock
-- answers by `reached`, and the payload does not contradict the open turn.
pub data Observed (e : Surroundings) : Turns → Type 0 where
  fresh : Observed e default
  observed :
      {t : Turns} (reached : ℕ → Bool) (payload : Value) (session : String)
      → ((v : ℕ) → reached v ≡ true → v ≤ e.bound)
      → NoContradiction e.sha256 payload session t
      → Observed e t
      → Observed e (observe e.sha256 reached payload session t)

default-Bounded : (bound : ℕ) → Bounded bound default
default-Bounded bound = record {
  formed = default-Inv.formed;
  start_pos = tt;
  ends = tt;
  last_stored = tt;
}

Observed-Bounded : {e : Surroundings} {t : Turns} → Observed e t → Bounded e.bound t
Observed-Bounded {e} fresh = default-Bounded e.bound
Observed-Bounded {e} (observed {t} reached payload session by good r) =
    observe-Bounded e.sha256 (λ m. hex_id-take_chars (e.sha256 m) 64 24 (e.hex m) (omega arith))
      reached e.bound e.fits by payload session t good (Observed-Bounded r)

-- With a digest of 64 hexadecimal digits and a clock whose bound is safe 512 times over, `validate`
-- accepts every record that `observe` makes of a transcript of any payloads, as long as the clock
-- stays below the bound and no payload ends the open turn under another start that lies at or
-- after that payload's end.
pub Observed-validate : (e : Surroundings) (t : Turns) → Observed e t → validate t ≡ true
Observed-validate e t r = validate_of_WellFormed t (Observed-Bounded r).formed

open_and_stored :
    (key : String) (r : Row) (t : Turns)
    → t.active ≡ some key
    → get key t.finished ≡ some r
    → validate t ≡ false
open_and_stored key r t a g = elim (Bool-cases (validate t)) [
  | inl good ↦
      let absent : get key t.finished ≡ none =
        rw a at (WellFormed-of_validate t good).active_fresh in
      cc (g, absent)
  | inr bad ↦ bad
]

active-store_row : (key : String) (r : Row) (t : Turns) → (store_row key r t).active ≡ t.active
unfolding store_row
active-store_row key r t = ground arith

start-store_row : (key : String) (r : Row) (t : Turns) → (store_row key r t).start ≡ t.start
unfolding store_row
start-store_row key r t = ground arith

last_end-store_row :
    (key : String) (r : Row) (t : Turns) → (store_row key r t).last_end ≡ t.last_end
unfolding store_row
last_end-store_row key r t = ground arith

get-store_row :
    (key : String) (r : Row) (t : Turns)
    → length t.finished < capacity
    → get key (store_row key r t).finished ≡ some r
unfolding store_row
get-store_row key r t room = ground (arith, get-insert_self key r t.finished)

module _ (key : String) (r : Row) (begun : ℕ) (t : Turns) (a : t.active ≡ some key)
    (s : t.start ≡ some begun) (l : t.last_end ≡ none) (missing : get key t.finished ≡ none)
    (ne : begun ≢ r.begun) (before : r.ended ≤ begun) where
  completed-unmatched :
      completed key r t ≡ set_last key r (store_row key r (record t { valid = false }))
  unfolding completed
  completed-unmatched = ground (
    arith,
    eq_refl key,
    active-store_row key r (record t { valid = false }),
    start-store_row key r (record t { valid = false }),
    last_end-store_row key r (record t { valid = false }),
  )

-- What the premise on contradictions excludes: a record with an open turn, no last end and room
-- for one more row is refused by `validate` after the open turn is finished under another start,
-- with an end no later than the open start.
pub completed_contradiction :
    (key : String) (r : Row) (begun : ℕ) (t : Turns)
    → t.active ≡ some key
    → t.start ≡ some begun
    → t.last_end ≡ none
    → get key t.finished ≡ none
    → length t.finished < capacity
    → begun ≢ r.begun
    → r.ended ≤ begun
    → validate (completed key r t) ≡ false
completed_contradiction key r begun t a s l missing room ne before =
    rw (completed-unmatched key r begun t a s l missing ne before) (
      open_and_stored key r (set_last key r (store_row key r (record t { valid = false })))
        (active-store_row key r (record t { valid = false }) ∙ a)
        (get-store_row key r (record t { valid = false }) room))
