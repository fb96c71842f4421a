-- ===== src/Turns/Touch.antt =====
-- Lemmas on records of anton-runtime/src/turns.rs: what well-formedness asks when an operation
-- changes the open interval and the flags only, and when it stores a row or moves the last turn.
use herdr_observatory.BTreeMap.{All-insert, length-insert, BTreeMap, get, insert, get-insert}
use herdr_observatory.Common.{hex_id, max_safe}
use herdr_observatory.Prelude.{
  ap, ◌<◌, length, ℕ, ◌+◌, ◌≤◌, String, ◌≡◌, refl, ◌∙◌, ◌⊎◌, inl, inr, Bool, true, false, Option,
  none, some, [], ◌∷◌, str_eq, Holds, arith,
}
use herdr_observatory.Turns.{capacity, set_last, Row, Turns, duration}
use herdr_observatory.Turns.WellFormed.{
  EntryOk, total_duration, RowOk, IntervalOk, StoredLast, LastOk, WellFormed,
}
use text.Mathlib.TextPositions.{eq_refl}

-- Any change of the flags and of the open interval.
abbrev pub touch : Bool → Bool → Bool → Option String → Option ℕ → Turns → Turns
touch valid supported known active start t = record t {
  valid = valid;
  supported = supported;
  current_known = known;
  active = active;
  start = start;
}

StoredLast-touch :
    (o : Option Row) (t : Turns) (v s k : Bool) (a : Option String) (b : Option ℕ)
    → (v ≡ true → t.valid ≡ true)
    → StoredLast o t
    → StoredLast o (touch v s k a b t)
StoredLast-touch none t true s k a b keeps h = cc (keeps refl)
StoredLast-touch none t false s k a b keeps h = refl
StoredLast-touch (some r) t v s k a b keeps h = h

LastOk-touch :
    (o : Option String) (t : Turns) (v s k : Bool) (a : Option String) (b : Option ℕ)
    → (v ≡ true → t.valid ≡ true)
    → LastOk o t
    → LastOk o (touch v s k a b t)
LastOk-touch none t v s k a b keeps h = h
LastOk-touch (some key) t v s k a b keeps h =
    StoredLast-touch (get key t.finished) t v s k a b keeps h

pub WellFormed-touch :
    (t : Turns) (v s k : Bool) (a : Option String) (b : Option ℕ)
    → (v ≡ true → t.valid ≡ true)
    → IntervalOk a b k
    → Holds (λ key. hex_id key 24 ≡ true) a
    → Holds (λ n. n ≤ max_safe) b
    → Holds (λ key. get key t.finished ≡ none) a
    → WellFormed t
    → WellFormed (touch v s k a b t)
WellFormed-touch t v s k a b keeps interval hex safe fresh w = record {
  active_hex = hex;
  last_hex = w.last_hex;
  start_safe = safe;
  duration_safe = w.duration_safe;
  end_safe = w.end_safe;
  total_safe = w.total_safe;
  last_outcome_known = w.last_outcome_known;
  interval = interval;
  within_capacity = w.within_capacity;
  rows = w.rows;
  total_is_sum = w.total_is_sum;
  active_fresh = fresh;
  last_ok = LastOk-touch t.last t v s k a b keeps w.last_ok;
}

pub total_duration-insert :
    (key : String) (r : Row) (m : BTreeMap Row)
    → get key m ≡ none
    → total_duration (insert key r m) ≡ total_duration m + duration r
unfolding get insert
total_duration-insert key r [] h = omega arith
total_duration-insert key r ((j, v) ∷ m) h = ground (arith, total_duration-insert key r m)

-- Another key's entry stays.
pub get-insert_ne :
    (key j : String) (r : Row) (m : BTreeMap Row)
    → get j m ≡ none
    → str_eq key j ≡ false
    → get j (insert key r m) ≡ none
get-insert_ne key j r m h ne = get-insert key j r m ∙ rw ne h

pub get-insert_self :
    (key : String) (r : Row) (m : BTreeMap Row) → get key (insert key r m) ≡ some r
get-insert_self key r m = get-insert key key r m ∙ rw (eq_refl key)

Fresh-insert :
    (o : Option String) (key : String) (r : Row) (m : BTreeMap Row)
    → Holds (λ k. str_eq key k ≡ false) o
    → Holds (λ k. get k m ≡ none) o
    → Holds (λ k. get k (insert key r m) ≡ none) o
Fresh-insert none key r m ne h = tt
Fresh-insert (some k) key r m ne h = get-insert_ne key k r m h ne

StoredLast-insert :
    (o : Option Row) (t : Turns) (m : BTreeMap Row) (n : ℕ)
    → StoredLast o t
    → StoredLast o (record t { finished = m; total = n })
StoredLast-insert none t m n h = h
StoredLast-insert (some r) t m n h = h

LastOk-insert :
    (o : Option String) (t : Turns) (key : String) (r : Row) (n : ℕ)
    → Holds (λ k. str_eq key k ≡ false) o
    → LastOk o t
    → LastOk o (record t { finished = insert key r t.finished; total = n })
LastOk-insert none t key r n ne h = h
LastOk-insert (some k) t key r n ne h =
    rw (get-insert key k r t.finished, ne)
      (StoredLast-insert (get k t.finished) t (insert key r t.finished) n h)

module _ (t : Turns) (key : String) (r : Row) where
  -- A row goes in under a key that is neither stored, nor open, nor the last one.
  pub WellFormed-insert :
      get key t.finished ≡ none
      → RowOk key r
      → length t.finished < capacity
      → t.total + duration r ≤ max_safe
      → Holds (λ k. str_eq key k ≡ false) t.active
      → Holds (λ k. str_eq key k ≡ false) t.last
      → WellFormed t
      → WellFormed (record t { finished = insert key r t.finished; total = t.total + duration r })
  WellFormed-insert missing ok room safe not_active not_last w = record {
    active_hex = w.active_hex;
    last_hex = w.last_hex;
    start_safe = w.start_safe;
    duration_safe = w.duration_safe;
    end_safe = w.end_safe;
    total_safe = safe;
    last_outcome_known = w.last_outcome_known;
    interval = w.interval;
    within_capacity = omega (arith, length-insert key r t.finished missing);
    rows = All-insert EntryOk key r t.finished ok w.rows;
    total_is_sum =
        total_duration-insert key r t.finished missing ∙ ap (λ n. n + duration r) w.total_is_sum;
    active_fresh = Fresh-insert t.active key r t.finished not_active w.active_fresh;
    last_ok = LastOk-insert t.last t key r (t.total + duration r) not_last w.last_ok;
  }

  -- The last turn moves to a stored row, or to a row that an invalid record could not store.
  pub WellFormed-set_last :
      (get key t.finished ≡ some r) ⊎ ((get key t.finished ≡ none) × (t.valid ≡ false))
      → RowOk key r
      → WellFormed t
      → WellFormed (set_last key r t)
  WellFormed-set_last found ok w = record {
    active_hex = w.active_hex;
    last_hex = ok.key_hex;
    start_safe = w.start_safe;
    duration_safe = omega (arith, ok.ended_safe);
    end_safe = ok.ended_safe;
    total_safe = w.total_safe;
    last_outcome_known = ok.outcome_known;
    interval = w.interval;
    within_capacity = w.within_capacity;
    rows = w.rows;
    total_is_sum = w.total_is_sum;
    active_fresh = w.active_fresh;
    last_ok = elim found [ inl e ↦ rw e (refl, refl, refl) | inr (e, invalid) ↦ rw e invalid ];
  }

-- The same record without a last turn.
abbrev pub forget_last : Turns → Turns
forget_last t = record t { last = none; last_duration = none; last_outcome = none; last_end = none }

pub WellFormed-forget_last : (t : Turns) → WellFormed t → WellFormed (forget_last t)
WellFormed-forget_last t w = record {
  active_hex = w.active_hex;
  last_hex = tt;
  start_safe = w.start_safe;
  duration_safe = tt;
  end_safe = tt;
  total_safe = w.total_safe;
  last_outcome_known = tt;
  interval = w.interval;
  within_capacity = w.within_capacity;
  rows = w.rows;
  total_is_sum = w.total_is_sum;
  active_fresh = w.active_fresh;
  last_ok = (refl, refl, refl);
}
