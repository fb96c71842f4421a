-- ===== src/Claude/Cursor.antt =====
-- `sum`, `ClaudeCursor::totals` and `ClaudeCursor::validate` of anton-runtime/src/claude.rs.
use herdr_observatory.Claude.{max_safe, no_counters, Counters, Response, Group, Start, ClaudeCursor}
use herdr_observatory.Common.{hex_id}
use herdr_observatory.Prelude.{
  true, String, ℕ, Option, Bool, List, length, ◌/◌, str_eq, is_none, ltb, is_none_or, any, ◌||◌,
  ◌&&◌, leb, is_some, filter, none, some, [], ◌∷◌, ◌==◌, not,
}
use herdr_observatory.Telemetry.Names.{safe_model}
use herdr_observatory.Turns.{checked_add}

-- `try_fold` with `checked_add`, from an accumulator on.
unfoldable pub sum_on : ℕ → List ℕ → Option ℕ
sum_on acc [] = some acc
sum_on acc (x ∷ xs) = elim (checked_add acc x) [ none ↦ none | some total ↦ sum_on total xs ]

unfoldable pub sum : List ℕ → Option ℕ
unfolding sum_on
sum counters = filter (λ total. leb total max_safe) (sum_on 0 counters)

abbrev pub sum_all : Counters → Option ℕ
sum_all u = sum (u.at0 ∷ u.at1 ∷ u.at2 ∷ u.at3 ∷ [])

-- `Response::validate`.
abbrev pub response_valid : Response → Bool
response_valid r = is_some (sum_all r.usage) && is_none_or r.model (λ m. safe_model m)

abbrev pub open_usage : Option Group → Counters
open_usage none = no_counters
open_usage (some g) = g.usage

-- The four sums, once each is known.
abbrev pub totals_of : Option ℕ → Option ℕ → Option ℕ → Option ℕ → Option Counters
totals_of (some a) (some b) (some c) (some d) = elim (sum (a ∷ c ∷ d ∷ [])) [
  | none ↦ none
  | some all ↦ some (record { at0 = a; at1 = b; at2 = c; at3 = d })
]
totals_of _ _ _ _ = none

unfoldable pub totals : ClaudeCursor → Option Counters
unfolding sum
totals c =
    let u = open_usage c.open_group in
    totals_of (sum (c.input ∷ u.at0 ∷ [])) (sum (c.output ∷ u.at1 ∷ []))
      (sum (c.cache_read ∷ u.at2 ∷ [])) (sum (c.cache_creation ∷ u.at3 ∷ []))

abbrev pub contains : List String → String → Bool
contains ids id = any (λ x. str_eq x id) ids

abbrev pub group_valid : List String → Group → Bool
group_valid closed g =
    hex_id g.id 16
    && (leb 1 g.stop && leb g.stop 4)
    && (not (g.stop == 1) || is_none g.response)
    && (not g.tainted || is_none g.response)
    && is_none_or g.response (λ r. response_valid r)
    && not (contains closed g.id)

-- All hexadecimal, and no two the same.
abbrev pub ids_valid : List String → Bool
ids_valid [] = true
ids_valid (id ∷ ids) = hex_id id 16 && not (contains ids id) && ids_valid ids

abbrev pub start_valid : Start → Bool
start_valid s = hex_id s.key 24 && (leb 1 s.second && leb s.second max_safe)

-- The part on usage, and the part on turns.
abbrev pub usage_valid : ClaudeCursor → Bool
usage_valid c =
    is_some (totals c)
    && is_none_or c.last (λ r. response_valid r)
    && (c.last_valid || is_none c.last)
    && leb c.usage_seq c.coverage_seq
    && is_none_or c.open_group (λ g. group_valid c.closed g)
    && leb (length c.closed) 32
    && ids_valid c.closed
    && leb c.compactions max_safe

abbrev pub times_valid : ℕ → ClaudeCursor → Bool
times_valid horizon c =
    leb c.coverage_seq horizon
    && is_none_or c.pending_start (λ s. start_valid s)
    && (not c.pending_command || is_some c.pending_start)
    && is_none_or c.queued_since_start (λ at. ltb 0 at && leb at c.coverage_seq)
    && leb c.end_floor (c.coverage_seq / 1000000)
