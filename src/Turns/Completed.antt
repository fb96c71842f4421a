-- ===== src/Turns/Completed.antt =====
-- A finished turn in `observe` of anton-runtime/src/turns.rs, step by step.
use herdr_observatory.BTreeMap.{All-insert, BTreeMap, get, insert, get-insert, length-insert}
use herdr_observatory.Common.{max_safe}
use herdr_observatory.Prelude.{
  if◌then◌else◌, is_some, is_some_and, refl, le_of_ltb, lt_of_ltb, suc, ℕ, ◌+◌, ◌*◌, ◌≤◌, ◌<◌,
  String, ◌≡◌, ◌⊎◌, inl, inr, Bool, true, false, ◌&&◌, Option, none, some, str_eq, eq_iff, ltb,
  ◌==◌, length, Holds, arith, Bool-cases, if_elim,
}
use herdr_observatory.Turns.{unknown, set_last, Row, Turns, capacity, duration}
use herdr_observatory.Turns.Bounded.{
  unknown-Bounded, EndsBy, add_safe_fits, NoRoom, Bounded, total_duration-le, Bounded-touch,
  closed_Interval, flags-Bounded,
}
use herdr_observatory.Turns.Observe.{
  row_eq, is_later, straddles, completed, settle_last, add_total, store_row, opt_is, opt_eq,
  is_matched, close_interval, mark_gap,
}
use herdr_observatory.Turns.Touch.{get-insert_self, WellFormed-set_last, WellFormed-insert}
use herdr_observatory.Turns.WellFormed.{RowOk, IntervalOk}

-- A finished turn that has the open turn's key and another start ends after the open start.
abbrev pub Agrees : String → Row → Turns → Type 0
Agrees key r t =
    opt_is t.active key ≡ true → opt_eq t.start r.begun ≡ false → Holds (λ s. s < r.ended) t.start

-- The row of a finished turn is stored, or there was no room and the record is invalid.
abbrev Stored : String → Row → Turns → Type 0
Stored key r t =
    (get key t.finished ≡ some r)
    ⊎ ((get key t.finished ≡ none) × (t.valid ≡ false) × (capacity ≤ length t.finished))

module _ (bound : ℕ) (fits : capacity * bound ≤ max_safe) (key : String) (r : Row) where
  mark_gap-Bounded : (m : Bool) (t : Turns) → Bounded bound t → Bounded bound (mark_gap m r t)
  unfolding mark_gap
  mark_gap-Bounded m t h =
      if_elim (Bounded bound) _ (λ _. flags-Bounded t false t.supported (λ e. cc) h) (λ _. h)

  close_interval-Bounded :
      (m : Bool) (t : Turns) → Bounded bound t → Bounded bound (close_interval m r t)
  unfolding close_interval
  close_interval-Bounded m t h =
      if_elim (Bounded bound) m
        (λ _.
          Bounded-touch t t.valid t.supported true none none
            (closed_Interval t t.valid true (λ e. e)) h)
        λ _.
          if_elim (Bounded bound) _
            (λ _.
              Bounded-touch t t.valid t.supported false none none
                (closed_Interval t t.valid false (λ e. e)) h)
            (λ _. h)

  -- Once the interval is settled, the finished turn is not the open one.
  abbrev Other : Turns → Type 0
  Other u = Holds (λ k. str_eq key k ≡ false) u.active

  not_open_at :
      (o : Option String) (b : Option ℕ) (t : Turns)
      → IntervalOk o b t.current_known
      → (opt_is o key ≡ true → opt_eq b r.begun ≡ false → Holds (λ s. s < r.ended) b)
      → Other
          (close_interval (opt_is o key && opt_eq b r.begun) r (record t { active = o; start = b }))
  unfolding close_interval
  not_open_at none b t i g = tt
  not_open_at (some k) none t i g = absurd i
  not_open_at (some k) (some n) t i g =
      if_elim Other (str_eq k key && n == r.begun) (λ _. tt)
        λ m.
          if_elim Other (ltb n r.ended) (λ _. tt)
            λ late. elim (Bool-cases (str_eq key k)) [
              | inl e ↦
                  let same : str_eq k key ≡ true = ground (arith, eq_iff key k, eq_iff k key) in
                  let other : (n == r.begun) ≡ false = ground arith in
                  absurd (ground (arith, g same other))
              | inr e ↦ e
            ]

  not_open :
      (t : Turns)
      → IntervalOk t.active t.start t.current_known
      → Agrees key r t
      → Other (close_interval (is_matched key r.begun t) r t)
  not_open t = not_open_at t.active t.start t

  not_last :
      (o : Option String) (t : Turns)
      → get key t.finished ≡ none
      → length t.finished < capacity
      → Holds (NoRoom t.finished) o
      → Holds (λ k. str_eq key k ≡ false) o
  not_last none t missing room h = tt
  not_last (some k) t missing room h = elim (Bool-cases (str_eq key k)) [
    | inl e ↦ absurd (omega (arith, h (rw (← (eq_iff key k).0 e) missing)))
    | inr e ↦ e
  ]

  total_fits :
      (t : Turns)
      → r.ended ≤ bound
      → Bounded bound t
      → length t.finished < capacity
      → t.total + duration r ≤ max_safe
  total_fits t by h room =
      grind (arith, total_duration-le bound t.finished h.ends, h.formed.total_is_sum)

  NoRoom-insert_key :
      (k : String) (m : BTreeMap Row) → get key m ≡ none → NoRoom m k → NoRoom (insert key r m) k
  NoRoom-insert_key k m missing h e =
      let longer : length (insert key r m) ≡ suc (length m) = length-insert key r m missing in
      let absent : get k m ≡ none = ground (arith, get-insert key k r m) in
      omega (arith, longer, h absent)

  NoRoom-insert :
      (o : Option String) (m : BTreeMap Row)
      → get key m ≡ none
      → Holds (NoRoom m) o
      → Holds (NoRoom (insert key r m)) o
  NoRoom-insert none m missing h = tt
  NoRoom-insert (some k) m missing h = NoRoom-insert_key k m missing h

  add_total_fits :
      (t : Turns) (m : BTreeMap Row)
      → t.total + duration r ≤ max_safe
      → add_total r (record t { finished = m })
        ≡ record t { finished = m; total = t.total + duration r }
  unfolding add_total
  add_total_fits t m h = rw (add_safe_fits t.total (duration r) h, add_total)

  -- What storing a row leaves behind.
  abbrev AfterStore : Turns → Type 0
  AfterStore u = Bounded bound u × Stored key r u

  module _ (t : Turns) (missing : get key t.finished ≡ none) (ok : RowOk key r)
      (by : r.ended ≤ bound) (other : Other t) (h : Bounded bound t) where
    store_fits :
        length t.finished < capacity
        → AfterStore (record t { finished = insert key r t.finished; total = t.total + duration r })
    store_fits room = (
      record {
        formed =
            WellFormed-insert t key r missing ok room (total_fits t by h room) other
              (not_last t.last t missing room h.last_stored) h.formed;
        start_pos = h.start_pos;
        ends = All-insert (EndsBy bound) key r t.finished by h.ends;
        last_stored = NoRoom-insert t.last t.finished missing h.last_stored;
      },
      inl (get-insert_self key r t.finished),
    )

    store_full : capacity ≤ length t.finished → AfterStore (record t { valid = false })
    store_full full = (flags-Bounded t false t.supported (λ e. cc) h, inr (missing, refl, full))

    store_row-AfterStore : AfterStore (store_row key r t)
    unfolding store_row
    store_row-AfterStore =
        if_elim AfterStore (ltb (length t.finished) capacity)
          (λ room.
            let fit : length t.finished < capacity = lt_of_ltb _ _ room in
            rw (add_total_fits t (insert key r t.finished) (total_fits t by h fit))
              (store_fits fit))
          (λ full. store_full (le_of_ltb _ _ full))

  set_last-Bounded : (t : Turns) → RowOk key r → AfterStore t → Bounded bound (set_last key r t)
  set_last-Bounded t ok (h, inl stored) = record {
    formed = WellFormed-set_last t key r (inl stored) ok h.formed;
    start_pos = h.start_pos;
    ends = h.ends;
    last_stored = λ absent. cc (stored, absent);
  }
  set_last-Bounded t ok (h, inr (absent, invalid, full)) = record {
    formed = WellFormed-set_last t key r (inr (absent, invalid)) ok h.formed;
    start_pos = h.start_pos;
    ends = h.ends;
    last_stored = λ _. full;
  }

  settle_last-Bounded :
      (m : Bool) (t : Turns) → RowOk key r → AfterStore t → Bounded bound (settle_last m key r t)
  unfolding settle_last
  settle_last-Bounded m t ok a =
      if_elim (Bounded bound) (straddles m r t)
        (λ _.
          Bounded-touch t t.valid t.supported false none none
            (closed_Interval t t.valid false (λ e. e)) a.0)
        λ _. if_elim (Bounded bound) (is_later m r t) (λ _. set_last-Bounded t ok a) (λ _. a.0)

  -- Storing and closing touch different fields.
  close_interval-store_row :
      (m : Bool) (t : Turns)
      → close_interval m r (store_row key r t) ≡ store_row key r (close_interval m r t)
  unfolding close_interval store_row
  close_interval-store_row m t = ground arith

  abbrev Missing : Turns → Type 0
  Missing u = get key u.finished ≡ none

  mark_gap-eq :
      (m : Bool) (t : Turns) → mark_gap m r t ≡ record t { valid = (mark_gap m r t).valid }
  unfolding mark_gap
  mark_gap-eq m t = ground arith

  -- The steps of a finished turn, closing before storing.
  module _ (t : Turns) (ok : RowOk key r) (by : r.ended ≤ bound) (g : Agrees key r t)
      (h : Bounded bound t) where
    missing_after_close :
        (m : Bool) (u : Turns)
        → get key u.finished ≡ none
        → get key (close_interval m r u).finished ≡ none
    unfolding close_interval
    missing_after_close m u e =
        if_elim Missing m (λ _. e)
          λ _.
            if_elim Missing (is_some u.active && is_some_and u.start (λ begun. ltb begun r.ended))
              (λ _. e) (λ _. e)

    new_turn_from :
        (w : Bool)
        → get key t.finished ≡ none
        → Bounded bound (record t { valid = w })
        → Bounded bound (
            settle_last (is_matched key r.begun t) key r (
              close_interval
                (is_matched key r.begun t)
                r
                (store_row key r (record t { valid = w }))))
    new_turn_from w missing hw =
        let m : Bool = is_matched key r.begun t in
        let u : Turns = record t { valid = w } in
        rw (close_interval-store_row m u) (
          settle_last-Bounded m _ ok (
            store_row-AfterStore (close_interval m r u) (missing_after_close m u missing) ok by
              (not_open u hw.formed.interval g) (close_interval-Bounded m u hw)))

    new_turn-Bounded :
        get key t.finished ≡ none
        → Bounded bound (
            settle_last (is_matched key r.begun t) key r (
              close_interval
                (is_matched key r.begun t)
                r
                (store_row key r (mark_gap (is_matched key r.begun t) r t))))
    new_turn-Bounded missing = rw (mark_gap-eq (is_matched key r.begun t) t) (
        new_turn_from _ missing (
          rw (mark_gap-eq (is_matched key r.begun t) t) at
            (mark_gap-Bounded (is_matched key r.begun t) t h)))

    found-Bounded :
        (o : Option Row)
        → get key t.finished ≡ o
        → Bounded bound (elim o [
          | some previous ↦ if row_eq previous r then t else unknown t
          | none ↦ settle_last (is_matched key r.begun t) key r (
              close_interval
                (is_matched key r.begun t)
                r
                (store_row key r (mark_gap (is_matched key r.begun t) r t)))
        ])
    found-Bounded none e = new_turn-Bounded e
    found-Bounded (some previous) e =
        if_elim (Bounded bound) (row_eq previous r) (λ _. h) (λ _. unknown-Bounded t h)

    pub completed-Bounded : Bounded bound (completed key r t)
    unfolding completed
    completed-Bounded = found-Bounded (get key t.finished) refl
