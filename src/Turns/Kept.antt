-- ===== src/Turns/Kept.antt =====
-- `begin`, `finish`, `abort`, `unknown` and `observe` of anton-runtime/src/turns.rs keep every
-- finished turn, and never make a record valid again.
use herdr_observatory.BTreeMap.{get}
use herdr_observatory.Common.{max_safe}
use herdr_observatory.Json.{index, as_str, Value}
use herdr_observatory.Prelude.{
  false, ◌&&◌, is_some, str_eq, unwrap_or, is_some_and, ◌||◌, inr, length, inl, Option-cases, ltb,
  Holds, if_elim, Bool, Option, ◌≡◌, ℕ, true, String, refl, none, some, if◌then◌else◌, ◌==◌, not,
}
use herdr_observatory.Turns.{
  capacity, duration, add_safe, hex_id, begin_closed, store_total, open_interval, end_turn,
  end_from, end_open, Row, Turns, unknown, begin, finish, abort,
}
use herdr_observatory.Turns.Grows.{
  completed-Grows, insert-Grows, unknown-Grows, Grows-refl, invalid-Grows, Grows-trans, still,
  Grows,
}
use herdr_observatory.Turns.Observe.{
  outcome_of, turn_key, is_turn_event, end_time, start_time, turn_id, opt_eq, opt_is, observe_event,
  observe_turn, observe, started,
}
use herdr_observatory.Turns.Reached.{Reached-validate, Reached}
use herdr_observatory.Turns.WellFormed.{WellFormed-of_validate}

opened : (key : String) (begun : ℕ) (t u : Turns) → Grows t u → Grows t (open_interval key begun u)
opened key begun t u g = Grows-trans t u _ g (still u _ refl (λ e. e))

-- Both `started` and `begin` on the row that is stored under the key.
module _ (key : String) (begun : ℕ) (t : Turns) where
  started-Grows : Grows t (started key begun t)
  unfolding started
  started-Grows = elim (Option-cases (get key t.finished)) [
    | inr (row, e) ↦
        rw (e, started)
          (if_elim (Grows t) (row.begun == begun) (λ _. Grows-refl t) (λ _. unknown-Grows t))
    | inl e ↦
        rw (e, started)
          (if_elim (Grows t) (opt_is t.active key)
            (λ _.
              if_elim (Grows t) (opt_eq t.start begun) (λ _. Grows-refl t) (λ _. unknown-Grows t))
            λ _.
              if_elim (Grows t) (is_some t.active && is_some_and t.start (λ old. ltb begun old))
                (λ _. invalid-Grows t)
                λ _.
                  if_elim (Grows t) (is_some_and t.last_end (λ ended. ltb begun ended))
                    (λ _. unknown-Grows t)
                    λ _.
                      opened key begun t
                        (if is_some t.active then record t { valid = false } else t)
                        (if_elim (Grows t) (is_some t.active) (λ _. invalid-Grows t)
                          (λ _. Grows-refl t)))
  ]

  begin_closed-Grows : Grows t (begin_closed key begun t)
  unfolding begin_closed
  begin_closed-Grows = elim (Option-cases (get key t.finished)) [
    | inr (row, e) ↦
        rw (e, begin_closed)
          (if_elim (Grows t) (row.begun == begun) (λ _. Grows-refl t) (λ _. unknown-Grows t))
    | inl e ↦
        rw (e, begin_closed)
          (if_elim (Grows t) (is_some_and t.last_end (λ ended. ltb begun ended))
            (λ _. unknown-Grows t) (λ _. opened key begun t t (Grows-refl t)))
  ]

supported : (t : Turns) → Grows t (record t { supported = true })
supported t = still t _ refl (λ e. e)

begin-Grows : (key : String) (begun : ℕ) (t : Turns) → Grows t (begin key begun t)
unfolding begin
begin-Grows key begun t =
    let u = record t { supported = true } in
    if_elim (Grows t) (not (hex_id key 24) || begun == 0 || ltb max_safe begun)
      (λ _. Grows-trans t u _ (supported t) (unknown-Grows u))
      λ _.
        let w = if is_some u.active then unknown u else u in
        Grows-trans t w _
          (if_elim (Grows t) (is_some u.active)
            (λ _. Grows-trans t u _ (supported t) (unknown-Grows u)) (λ _. supported t))
          (begin_closed-Grows key begun w)

module _ (key : String) (row : Row) (t : Turns) (missing : get key t.finished ≡ none) where
  store_total-Grows : Grows t (store_total key row t)
  unfolding store_total
  store_total-Grows = elim (Option-cases (add_safe t.total (duration row))) [
    | inr (total, e) ↦
        rw (e, store_total)
          (if_elim (Grows t) (ltb (length t.finished) capacity)
            (λ _. insert-Grows key row total t missing) (λ _. invalid-Grows t))
    | inl e ↦ rw (e, store_total) (invalid-Grows t)
  ]

end_open-Grows :
    (key : String) (row : Row) (t : Turns)
    → get key t.finished ≡ none
    → Grows t (end_open key row t)
unfolding end_open
end_open-Grows key row t missing =
    if_elim (Grows t) (ltb row.ended row.begun || ltb max_safe row.ended) (λ _. unknown-Grows t)
      λ _.
        let u = record t { active = none; start = none; current_known = true } in
        Grows-trans t u _ (still t u refl (λ e. e)) (
          Grows-trans u (store_total key row u) _ (store_total-Grows key row u missing)
            (still (store_total key row u) _ refl (λ e. e)))

end_from-Grows :
    (a : Option String) (s : Option ℕ) (ended : ℕ) (outcome : String) (t : Turns)
    → Holds (λ key. get key t.finished ≡ none) a
    → Grows t (end_from a s ended outcome t)
unfolding end_from
end_from-Grows (some key) (some begun) ended outcome t missing =
    end_open-Grows key (record { begun = begun; ended = ended; outcome = outcome }) t missing
end_from-Grows (some key) none ended outcome t missing = invalid-Grows t
end_from-Grows none s ended outcome t missing = invalid-Grows t

end_turn-Grows :
    (ended : ℕ) (outcome : String) (t : Turns)
    → Holds (λ key. get key t.finished ≡ none) t.active
    → Grows t (end_turn ended outcome t)
unfolding end_turn
end_turn-Grows ended outcome t missing =
    let u = record t { supported = true } in
    Grows-trans t u _ (supported t) (end_from-Grows t.active t.start ended outcome u missing)

-- Every operation on a record that a Claude transcript leads to keeps the turns that are finished,
-- each with its start, end and outcome, and does not make an invalid record valid.
pub Reached-Grows :
    (t : Turns) (key : String) (begun ended : ℕ)
    → Reached t
    → Grows t (begin key begun t)
      × Grows t (finish ended t)
      × Grows t (abort ended t)
      × Grows t (unknown t)
unfolding finish abort
Reached-Grows t key begun ended r =
    let missing = (WellFormed-of_validate t (Reached-validate t r)).active_fresh in
    (
      begin-Grows key begun t,
      end_turn-Grows ended "completed" t missing,
      end_turn-Grows ended "aborted" t missing,
      unknown-Grows t,
    )

module _ (sha256 : String → String) (reached : ℕ → Bool) (payload : Value) where
  observe_turn-Grows :
      (kind key : String) (begun : ℕ) (t : Turns)
      → Grows t (observe_turn reached kind key begun payload t)
  unfolding observe_turn
  observe_turn-Grows kind key begun t =
      if_elim (Grows t) (str_eq kind "task_started") (λ _. started-Grows key begun t)
        λ _. elim (Option-cases (end_time reached payload begun)) [
          | inr (ended, e) ↦ rw e (
              completed-Grows key
                (record { begun = begun; ended = ended; outcome = outcome_of kind }) t)
          | inl e ↦ rw e (unknown-Grows t)
        ]

  observe_event-Grows :
      (kind session : String) (t : Turns)
      → Grows t (observe_event sha256 reached kind payload session t)
  unfolding observe_event
  observe_event-Grows kind session t = elim (Option-cases (turn_id payload)) [
    | inr (turn, e) ↦ elim (Option-cases (start_time reached payload)) [
      | inr (begun, f) ↦
          rw (e, f, observe_event) (observe_turn-Grows kind (turn_key sha256 session turn) begun t)
      | inl f ↦ rw (e, f, observe_event) (unknown-Grows t)
    ]
    | inl e ↦ rw (e, observe_event) (unknown-Grows t)
  ]

-- Whatever the payload, the digest, the clock and the record, `observe` keeps the turns that are
-- finished, each with its start, end and outcome, and does not make an invalid record valid.
pub observe-Grows :
    (sha256 : String → String) (reached : ℕ → Bool) (payload : Value) (session : String) (t : Turns)
    → Grows t (observe sha256 reached payload session t)
unfolding observe
observe-Grows sha256 reached payload session t =
    let kind = unwrap_or (as_str (index payload "type")) "" in
    let u = record t { supported = true } in
    if_elim (Grows t) (is_turn_event kind)
      (λ _.
        Grows-trans t u _ (supported t) (observe_event-Grows sha256 reached payload kind session u))
      (λ _. Grows-refl t)
