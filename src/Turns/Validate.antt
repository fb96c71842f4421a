-- ===== src/Turns/Validate.antt =====
-- `Turns::validate` of anton-runtime/src/turns.rs: the check on a stored record.
use herdr_observatory.BTreeMap.{BTreeMap, get}
use herdr_observatory.Common.{hex_id, max_safe}
use herdr_observatory.Prelude.{
  ℕ, String, Bool, not, ◌&&◌, ◌||◌, Option, none, some, [], ◌∷◌, str_eq, ltb, ◌==◌, length, any,
  is_some, is_none, is_some_and,
}
use herdr_observatory.Turns.{Row, Turns, capacity, checked_add, duration}
use herdr_observatory.Turns.Observe.{opt_is, opt_eq}

abbrev pub is_outcome : String → Bool
is_outcome s = str_eq s "completed" || str_eq s "aborted"

-- An open interval has no start or is not known, or a closed one has a start.
abbrev pub bad_interval : Option String → Option ℕ → Bool → Bool
bad_interval active start known =
    (is_some active && (is_none start || not known)) || (is_none active && is_some start)

-- The first `if`.
abbrev pub bad_header : Turns → Bool
bad_header t =
    is_some_and t.active (λ key. not (hex_id key 24))
    || is_some_and t.last (λ key. not (hex_id key 24))
    || is_some_and t.start (λ n. ltb max_safe n)
    || is_some_and t.last_duration (λ n. ltb max_safe n)
    || is_some_and t.last_end (λ n. ltb max_safe n)
    || ltb max_safe t.total
    || is_some_and t.last_outcome (λ s. not (is_outcome s))
    || bad_interval t.active t.start t.current_known
    || ltb capacity (length t.finished)

abbrev pub bad_row : String × Row → Bool
bad_row (key, r) =
    not (hex_id key 24)
    || r.begun == 0
    || ltb r.ended r.begun
    || ltb max_safe r.ended
    || not (is_outcome r.outcome)

-- The `try_fold` over the rows.
unfoldable pub sum_from : ℕ → BTreeMap Row → Option ℕ
sum_from sum [] = some sum
sum_from sum ((key, r) ∷ rows) = elim (checked_add sum (duration r)) [
  | none ↦ none
  | some sum' ↦ sum_from sum' rows
]

abbrev pub bad_total : Turns → Bool
bad_total t =
    not (opt_eq (sum_from 0 t.finished) t.total)
    || is_some_and t.active (λ key. is_some (get key t.finished))

-- A last turn that is stored agrees with its row; one that is not stored makes the record invalid.
abbrev pub bad_stored : Option Row → Turns → Bool
bad_stored none t = t.valid
bad_stored (some r) t =
    not (opt_eq t.last_duration (duration r))
    || not (opt_is t.last_outcome r.outcome)
    || not (opt_eq t.last_end r.ended)

abbrev pub bad_last : Option String → Turns → Bool
bad_last none t = is_some t.last_duration || is_some t.last_outcome || is_some t.last_end
bad_last (some last) t = bad_stored (get last t.finished) t

unfoldable pub validate : Turns → Bool
unfolding sum_from
validate t = not (bad_header t || any bad_row t.finished || bad_total t || bad_last t.last t)
