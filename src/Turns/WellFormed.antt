-- ===== src/Turns/WellFormed.antt =====
-- What `validate` of anton-runtime/src/turns.rs accepts, written as a predicate, and the proof
-- that the two agree.
use herdr_observatory.BTreeMap.{BTreeMap, get}
use herdr_observatory.Common.{hex_id, max_safe}
use herdr_observatory.Prelude.{
  ℕ, ◌+◌, ◌^◌, ◌≤◌, ◌<◌, String, ◌≡◌, refl, ap, ◌↔◌, Bool, true, false, not, ◌||◌, Option, none,
  some, [], ◌∷◌, ltb, length, any, is_some, is_some_and, Holds, All, arith, eq_iff, ||-eq_false,
  le_of_ltb,
}
use herdr_observatory.Turns.{Row, Turns, capacity, duration}
use herdr_observatory.Turns.Observe.{opt_is, opt_eq}
use herdr_observatory.Turns.Validate.{
  is_outcome, bad_interval, bad_row, bad_stored, bad_last, sum_from, validate,
}

abbrev pub total_duration : BTreeMap Row → ℕ
total_duration [] = 0
total_duration ((key, r) ∷ rows) = duration r + total_duration rows

pub record RowOk (key : String) (r : Row) : Type 0 where
  pub key_hex : hex_id key 24 ≡ true
  pub begun_pos : 0 < r.begun
  pub ordered : r.begun ≤ r.ended
  pub ended_safe : r.ended ≤ max_safe
  pub outcome_known : is_outcome r.outcome ≡ true

abbrev pub EntryOk : String × Row → Type 0
EntryOk (key, r) = RowOk key r

-- An open interval has a start and is known, and a closed one has none.
abbrev pub IntervalOk : Option String → Option ℕ → Bool → Type 0
IntervalOk none none known = Unit
IntervalOk none (some n) known = ⊥
IntervalOk (some key) none known = ⊥
IntervalOk (some key) (some n) known = known ≡ true

abbrev pub StoredLast : Option Row → Turns → Type 0
StoredLast none t = t.valid ≡ false
StoredLast (some r) t =
    (t.last_duration ≡ some (duration r))
    × (t.last_outcome ≡ some r.outcome)
    × (t.last_end ≡ some r.ended)

abbrev pub LastOk : Option String → Turns → Type 0
LastOk none t = (t.last_duration ≡ none) × (t.last_outcome ≡ none) × (t.last_end ≡ none)
LastOk (some key) t = StoredLast (get key t.finished) t

pub record WellFormed (t : Turns) : Type 0 where
  pub active_hex : Holds (λ key. hex_id key 24 ≡ true) t.active
  pub last_hex : Holds (λ key. hex_id key 24 ≡ true) t.last
  pub start_safe : Holds (λ n. n ≤ max_safe) t.start
  pub duration_safe : Holds (λ n. n ≤ max_safe) t.last_duration
  pub end_safe : Holds (λ n. n ≤ max_safe) t.last_end
  pub total_safe : t.total ≤ max_safe
  pub last_outcome_known : Holds (λ s. is_outcome s ≡ true) t.last_outcome
  pub interval : IntervalOk t.active t.start t.current_known
  pub within_capacity : length t.finished ≤ capacity
  pub rows : All EntryOk t.finished
  pub total_is_sum : total_duration t.finished ≡ t.total
  pub active_fresh : Holds (λ key. get key t.finished ≡ none) t.active
  pub last_ok : LastOk t.last t

bad_row_iff : (e : String × Row) → (bad_row e ≡ false) ↔ EntryOk e
bad_row_iff (key, r) = (λ h. ground arith, λ h. ground arith)

rows_iff : (m : BTreeMap Row) → (any bad_row m ≡ false) ↔ All EntryOk m
rows_iff [] = (λ h. tt, λ h. refl)
rows_iff (e ∷ m) = (
  λ h.
      let (a, b) = ||-eq_false (bad_row e) (any bad_row m) h in
      ((bad_row_iff e).0 a, (rows_iff m).0 b),
  λ h. rw ((bad_row_iff e).1 h.0) ((rows_iff m).1 h.1),
)

-- Within `u64`, the checked sum is the sum.
sum_from-eq_some :
    (m : BTreeMap Row) (acc n : ℕ) → sum_from acc m ≡ some n → acc + total_duration m ≡ n
unfolding sum_from
sum_from-eq_some [] acc n e = ground arith
sum_from-eq_some ((key, r) ∷ m) acc n e = ground (arith, sum_from-eq_some m (acc + duration r) n)

sum_from_lem :
    (m : BTreeMap Row) (acc : ℕ)
    → acc + total_duration m < 2 ^ 64
    → sum_from acc m ≡ some (acc + total_duration m)
unfolding sum_from
sum_from_lem [] acc h = ground arith
sum_from_lem ((key, r) ∷ m) acc h = ground (arith, sum_from_lem m (acc + duration r))

abbrev bad_totals : Turns → Bool
bad_totals t = not (opt_eq (sum_from 0 t.finished) t.total)

total_iff :
    (t : Turns)
    → t.total ≤ max_safe
    → (bad_totals t ≡ false) ↔ (total_duration t.finished ≡ t.total)
total_iff t safe = (
  λ h. ground (arith, sum_from-eq_some t.finished 0 t.total),
  λ h. ground (arith, sum_from_lem t.finished 0),
)

-- The disjunctions that `validate` is made of, taken apart and put together.
header_false :
    (a b c d e f g h i : Bool)
    → (a || b || c || d || e || f || g || h || i) ≡ false
    → (a ≡ false)
      × (b ≡ false)
      × (c ≡ false)
      × (d ≡ false)
      × (e ≡ false)
      × (f ≡ false)
      × (g ≡ false)
      × (h ≡ false)
      × (i ≡ false)
header_false a b c d e f g h i p = ground arith

parts_false :
    (a b c d e : Bool)
    → not (a || b || (c || d) || e) ≡ true
    → (a ≡ false) × (b ≡ false) × (c ≡ false) × (d ≡ false) × (e ≡ false)
parts_false a b c d e p = ground arith

opt_is_iff : (o : Option String) (s : String) → (opt_is o s ≡ true) ↔ (o ≡ some s)
opt_is_iff none s = (λ h. cc, λ h. cc)
opt_is_iff (some x) s = (λ h. ap some ((eq_iff x s).0 h), λ h. ground (arith, eq_iff x s))

hex_iff :
    (o : Option String)
    → (is_some_and o (λ key. not (hex_id key 24)) ≡ false) ↔ Holds (λ key. hex_id key 24 ≡ true) o
hex_iff none = (λ h. tt, λ h. refl)
hex_iff (some key) = (λ h. ground arith, λ h. ground arith)

safe_iff :
    (o : Option ℕ) → (is_some_and o (λ n. ltb max_safe n) ≡ false) ↔ Holds (λ n. n ≤ max_safe) o
safe_iff none = (λ h. tt, λ h. refl)
safe_iff (some n) = (λ h. ground arith, λ h. ground arith)

outcome_iff :
    (o : Option String)
    → (is_some_and o (λ s. not (is_outcome s)) ≡ false) ↔ Holds (λ s. is_outcome s ≡ true) o
outcome_iff none = (λ h. tt, λ h. refl)
outcome_iff (some s) = (λ h. ground arith, λ h. ground arith)

interval_iff :
    (active : Option String) (start : Option ℕ) (known : Bool)
    → (bad_interval active start known ≡ false) ↔ IntervalOk active start known
interval_iff none none known = (λ h. tt, λ h. refl)
interval_iff none (some n) known = (λ h. cc, λ h. absurd h)
interval_iff (some k) none known = (λ h. cc, λ h. absurd h)
interval_iff (some k) (some n) known = (λ h. ground arith, λ h. ground arith)

fresh_iff :
    (o : Option String) (m : BTreeMap Row)
    → (is_some_and o (λ key. is_some (get key m)) ≡ false) ↔ Holds (λ key. get key m ≡ none) o
fresh_iff none m = (λ h. tt, λ h. refl)
fresh_iff (some key) m = (λ h. ground arith, λ h. ground arith)

stored_iff : (found : Option Row) (t : Turns) → (bad_stored found t ≡ false) ↔ StoredLast found t
stored_iff none t = (λ h. h, λ h. h)
stored_iff (some r) t = (
  λ h. ground (arith, opt_is_iff t.last_outcome r.outcome),
  λ h. ground (arith, opt_is_iff t.last_outcome r.outcome),
)

last_iff : (last : Option String) (t : Turns) → (bad_last last t ≡ false) ↔ LastOk last t
last_iff none t = (λ h. ground arith, λ h. ground arith)
last_iff (some key) t = stored_iff (get key t.finished) t

module _ (t : Turns) where
  -- Every record that `validate` accepts is well formed.
  pub WellFormed-of_validate : validate t ≡ true → WellFormed t
  unfolding validate
  WellFormed-of_validate h =
      let (a, rows, sum, fresh, last) = parts_false _ _ _ _ _ h in
      let (a1, a2, a3, a4, a5, a6, a7, a8, a9) = header_false _ _ _ _ _ _ _ _ _ a in
      let safe : t.total ≤ max_safe = le_of_ltb max_safe t.total a6 in
      record {
        active_hex = (hex_iff t.active).0 a1;
        last_hex = (hex_iff t.last).0 a2;
        start_safe = (safe_iff t.start).0 a3;
        duration_safe = (safe_iff t.last_duration).0 a4;
        end_safe = (safe_iff t.last_end).0 a5;
        total_safe = safe;
        last_outcome_known = (outcome_iff t.last_outcome).0 a7;
        interval = (interval_iff t.active t.start t.current_known).0 a8;
        within_capacity = le_of_ltb capacity (length t.finished) a9;
        rows = (rows_iff t.finished).0 rows;
        total_is_sum = (total_iff t safe).0 sum;
        active_fresh = (fresh_iff t.active t.finished).0 fresh;
        last_ok = (last_iff t.last t).0 last;
      }

  pub validate_of_WellFormed : WellFormed t → validate t ≡ true
  unfolding validate
  validate_of_WellFormed w =
      rw
        (
          (hex_iff t.active).1 w.active_hex,
          (hex_iff t.last).1 w.last_hex,
          (safe_iff t.start).1 w.start_safe,
          (safe_iff t.last_duration).1 w.duration_safe,
          (safe_iff t.last_end).1 w.end_safe,
          (outcome_iff t.last_outcome).1 w.last_outcome_known,
          (interval_iff t.active t.start t.current_known).1 w.interval,
          (rows_iff t.finished).1 w.rows,
          (total_iff t w.total_safe).1 w.total_is_sum,
          (fresh_iff t.active t.finished).1 w.active_fresh,
          (last_iff t.last t).1 w.last_ok,
        )
        (ground arith)

-- `validate` accepts exactly the records that are well formed: safe numbers and hexadecimal keys,
-- an open interval that is known and stored nowhere, at most 512 rows in order whose durations
-- add up to the total, and a last row that is a stored one.
pub validate_iff : (t : Turns) → (validate t ≡ true) ↔ WellFormed t
validate_iff t = (WellFormed-of_validate t, validate_of_WellFormed t)
