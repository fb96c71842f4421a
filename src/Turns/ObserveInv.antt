-- ===== src/Turns/ObserveInv.antt =====
-- `observe` of anton-runtime/src/turns.rs keeps a record that `validate` accepts, unless a finished
-- turn contradicts the open one.
use herdr_observatory.BTreeMap.{get}
use herdr_observatory.Common.{hex_id, safe_id, max_safe, take_chars}
use herdr_observatory.Json.{
  Value, text, unsigned, index, as_str, as_u64, as_str-eq_some, as_u64-eq_some,
}
use herdr_observatory.Prelude.{
  &&-eq_true, leb→le, lt_of_ltb, ℕ, ◌*◌, ◌≤◌, ◌<◌, String, ◌≡◌, refl, Bool, true, false, ◌&&◌,
  Option, none, some, str_eq, ltb, leb, ◌==◌, arith, filter-eq_some, if◌then◌else◌, is_some,
  is_some_and, if_elim, unwrap_or,
}
use herdr_observatory.Turns.{Row, Turns, capacity, unknown, open_interval}
use herdr_observatory.Turns.Bounded.{Bounded, Bounded-touch, unknown-Bounded, flags-Bounded}
use herdr_observatory.Turns.Completed.{Agrees, completed-Bounded}
use herdr_observatory.Turns.Observe.{
  turn_id, opt_is, opt_eq, started, completed, is_turn_event, turn_key, start_time, end_time,
  outcome_of, observe_turn, observe_event, observe,
}
use herdr_observatory.Turns.Validate.{is_outcome}

module _ {bound : ℕ} (key : String) (begun : ℕ) (hex : hex_id key 24 ≡ true) (pos : 0 < begun)
    (safe : begun ≤ max_safe) where
  open-Bounded :
      (t : Turns) (v : Bool)
      → (v ≡ true → t.valid ≡ true)
      → get key t.finished ≡ none
      → Bounded bound t
      → Bounded bound (open_interval key begun (record t { valid = v }))
  open-Bounded t v keeps missing =
      Bounded-touch t v t.supported true (some key) (some begun) (record {
        keeps = keeps;
        interval = refl;
        hex = hex;
        safe = safe;
        pos = pos;
        fresh = missing;
      })

  module _ (t : Turns) (h : Bounded bound t) where
    started_found :
        (o : Option Row)
        → get key t.finished ≡ o
        → Bounded bound (elim o [
          | some row ↦ if row.begun == begun then t else unknown t
          | none ↦
              if opt_is t.active key
              then if opt_eq t.start begun then t else unknown t
              else if is_some t.active && is_some_and t.start (λ old. ltb begun old)
              then record t { valid = false }
              else if is_some_and t.last_end (λ ended. ltb begun ended)
              then unknown t
              else open_interval key begun
                  (if is_some t.active then record t { valid = false } else t)
        ])
    started_found none e =
        if_elim (Bounded bound) (opt_is t.active key)
          (λ _. if_elim (Bounded bound) (opt_eq t.start begun) (λ _. h) (λ _. unknown-Bounded t h))
          λ _.
            if_elim (Bounded bound) (is_some t.active && is_some_and t.start (λ old. ltb begun old))
              (λ _. flags-Bounded t false t.supported (λ e. cc) h)
              λ _.
                if_elim (Bounded bound) (is_some_and t.last_end (λ ended. ltb begun ended))
                  (λ _. unknown-Bounded t h)
                  λ _.
                    if_elim (λ u. Bounded bound (open_interval key begun u)) (is_some t.active)
                      (λ _. open-Bounded t false (λ e. cc) e h)
                      (λ _. open-Bounded t t.valid (λ e. e) e h)
    started_found (some row) e =
        if_elim (Bounded bound) (row.begun == begun) (λ _. h) (λ _. unknown-Bounded t h)

    started-Bounded : Bounded bound (started key begun t)
    unfolding started
    started-Bounded = started_found (get key t.finished) refl

outcome_of-known : (kind : String) → is_outcome (outcome_of kind) ≡ true
outcome_of-known kind =
    if_elim (λ s. is_outcome s ≡ true) (str_eq kind "turn_aborted") (λ _. refl) (λ _. refl)

-- The payload's times, where the model reads them.
module _ (payload : Value) where
  abbrev pub Started : ℕ → Type 0
  Started begun = index payload "started_at" ≡ unsigned begun

  abbrev pub Completed : ℕ → Type 0
  Completed ended = index payload "completed_at" ≡ unsigned ended

-- A finished turn with the open turn's key and another start ends after the open start.
abbrev pub NoContradiction : (String → String) → Value → String → Turns → Type 0
NoContradiction sha256 payload session t =
    (turn : String) (r : Row)
    → index payload "turn_id" ≡ text turn
    → Started payload r.begun
    → Completed payload r.ended
    → Agrees (turn_key sha256 session turn) r t

module _ (sha256 : String → String)
    (hex : (m : String) → hex_id (take_chars 24 (sha256 m)) 24 ≡ true) (reached : ℕ → Bool)
    (bound : ℕ) (fits : capacity * bound ≤ max_safe)
    (by_bound : (v : ℕ) → reached v ≡ true → v ≤ bound) (payload : Value) (session : String) where
  module _ (t : Turns) (good : NoContradiction sha256 payload session t) (h : Bounded bound t) where
    module _ (kind : String) (turn : String) (begun : ℕ)
        (is_turn : index payload "turn_id" ≡ text turn) (is_start : Started payload begun)
        (pos : 0 < begun) (before : begun ≤ bound) where
      ended_found :
          (o : Option ℕ)
          → end_time reached payload begun ≡ o
          → Bounded bound (elim o [
            | none ↦ unknown t
            | some ended ↦
                completed
                  (turn_key sha256 session turn)
                  (record { begun = begun; ended = ended; outcome = outcome_of kind })
                  t
          ])
      ended_found none e = unknown-Bounded t h
      ended_found (some ended) e =
          let (is_u64, both) =
            filter-eq_some (λ v. leb begun v && reached v) (as_u64 (index payload "completed_at"))
              ended e in
          let (after, seen) = &&-eq_true (leb begun ended) (reached ended) both in
          let before' : ended ≤ bound = by_bound ended seen in
          completed-Bounded bound fits (turn_key sha256 session turn) _ t
            (record {
              key_hex = hex _;
              begun_pos = pos;
              ordered = leb→le begun ended after;
              ended_safe = omega arith;
              outcome_known = outcome_of-known kind;
            })
            before'
            (good turn (record { begun = begun; ended = ended; outcome = outcome_of kind }) is_turn
              is_start (as_u64-eq_some (index payload "completed_at") ended is_u64))
            h

      observe_turn-Bounded :
          Bounded bound (observe_turn reached kind (turn_key sha256 session turn) begun payload t)
      unfolding observe_turn
      observe_turn-Bounded =
          if_elim (Bounded bound) (str_eq kind "task_started")
            (λ _.
              started-Bounded (turn_key sha256 session turn) begun (hex _) pos (omega arith) t h)
            (λ _. ended_found (end_time reached payload begun) refl)

    module _ (kind : String) where
      begun_found :
          (turn : String)
          → index payload "turn_id" ≡ text turn
          → (o : Option ℕ) → start_time reached payload ≡ o
          → Bounded bound (elim o [
            | none ↦ unknown t
            | some begun ↦ observe_turn reached kind (turn_key sha256 session turn) begun payload t
          ])
      begun_found turn is_turn none e = unknown-Bounded t h
      begun_found turn is_turn (some begun) e =
          let (is_u64, both) =
            filter-eq_some (λ v. ltb 0 v && reached v) (as_u64 (index payload "started_at")) begun
              e in
          let (pos, seen) = &&-eq_true (ltb 0 begun) (reached begun) both in
          observe_turn-Bounded kind turn begun is_turn
            (as_u64-eq_some (index payload "started_at") begun is_u64) (lt_of_ltb 0 begun pos)
            (by_bound begun seen)

      turn_found :
          (o : Option String)
          → turn_id payload ≡ o
          → Bounded bound (elim o [
            | none ↦ unknown t
            | some turn ↦ elim (start_time reached payload) [
              | none ↦ unknown t
              | some begun ↦
                  observe_turn reached kind (turn_key sha256 session turn) begun payload t
            ]
          ])
      turn_found none e = unknown-Bounded t h
      turn_found (some turn) e =
          let (is_str, _) =
            filter-eq_some (λ s. safe_id s 128) (as_str (index payload "turn_id")) turn e in
          begun_found turn (as_str-eq_some (index payload "turn_id") turn is_str)
            (start_time reached payload) refl

      observe_event-Bounded : Bounded bound (observe_event sha256 reached kind payload session t)
      unfolding observe_event
      observe_event-Bounded = turn_found (turn_id payload) refl

  pub observe-Bounded :
      (t : Turns)
      → NoContradiction sha256 payload session t
      → Bounded bound t
      → Bounded bound (observe sha256 reached payload session t)
  unfolding observe
  observe-Bounded t good h =
      if_elim (Bounded bound) (is_turn_event (unwrap_or (as_str (index payload "type")) ""))
        (λ _.
          observe_event-Bounded (record t { supported = true }) good
            (flags-Bounded t t.valid true (λ e. e) h) _)
        (λ _. h)
