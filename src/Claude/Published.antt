-- ===== src/Claude/Published.antt =====
-- What `Row::usage` of anton-runtime/src/claude.rs publishes of a replayed row.
use herdr_observatory.Claude.{ClaudeCursor, Response, Group}
use herdr_observatory.Claude.Core.{UsageOk}
use herdr_observatory.Claude.Cursor.{sum_all, group_valid, sum, sum_on, totals, response_valid}
use herdr_observatory.Claude.Gate.{Kept}
use herdr_observatory.Claude.KeepUsage.{group_facts}
use herdr_observatory.Claude.Replayed.{Replayed-Kept, Replayed}
use herdr_observatory.Claude.Row.{Row}
use herdr_observatory.Claude.Totals.{totals-Fits, sum_three_of, counted}
use herdr_observatory.Claude.Usage.{
  field, usage_of_response, response_of_row, context_of, is_usage_known, model_of_response,
  open_response, usage,
}
use herdr_observatory.Common.{max_safe}
use herdr_observatory.Prelude.{
  String, List, true, false, Option, ℕ, Bool, ◌&&◌, filter, &&-eq_true, ◌+◌, Holds, is_some, ◌≡◌,
  is_none_or, ◌≤◌, none, some, [], ◌∷◌, inl, inr, refl, arith,
}
use herdr_observatory.Telemetry.Names.{safe_model}

pub Usage-of_Kept : {horizon : ℕ} (r : Row) → Kept horizon none r → UsageOk r.claude
Usage-of_Kept r (inl i) = i.usage_ok
Usage-of_Kept r (inr (i, d)) = i.usage_ok

kept_totals :
    (b : Bool) (c : ClaudeCursor)
    → b ≡ true
    → UsageOk c
    → filter (λ _. b) (totals c) ≡ some (counted c)
kept_totals b c known u =
    rw (totals-Fits c (u.input_le, u.output_le, u.read_le, u.creation_le, u.context_le), known) refl

-- A replayed row whose usage is known and whose totals are valid publishes all five totals, which
-- are those of the closed groups and the open one, and what was read in all is kept exact.
pub usage-counted :
    (horizon : ℕ) (r : Row)
    → horizon ≤ max_safe
    → Replayed horizon r
    → (is_usage_known r && r.claude.totals_valid) ≡ true
    → ((usage r).total_input
        ≡ some ((counted r.claude).at0 + (counted r.claude).at2 + (counted r.claude).at3))
      × ((usage r).total_uncached_input ≡ some (counted r.claude).at0)
      × ((usage r).total_output ≡ some (counted r.claude).at1)
      × ((usage r).total_cache_read ≡ some (counted r.claude).at2)
      × ((usage r).total_cache_write ≡ some (counted r.claude).at3)
      × ((counted r.claude).at0 + (counted r.claude).at2 + (counted r.claude).at3 ≤ max_safe)
unfolding usage
usage-counted horizon r safe p known =
    let u = Usage-of_Kept r (Replayed-Kept horizon r safe p) in
    let t = counted r.claude in
    let all = kept_totals (is_usage_known r && r.claude.totals_valid) r.claude known u in
    (
      rw all (sum_three_of t.at0 t.at2 t.at3 u.context_le),
      rw all refl,
      rw all refl,
      rw all refl,
      rw all refl,
      u.context_le,
    )

sum_four : (a b d k : ℕ) → is_some (sum (a ∷ b ∷ d ∷ k ∷ [])) ≡ true → a + d + k ≤ max_safe
unfolding sum sum_on
sum_four a b d k h = ground (arith, h)

-- What may be published of a response.
abbrev ResponseOk : Option Response → Type 0
ResponseOk o =
    Holds (λ m. safe_model m ≡ true) (model_of_response o)
    × (is_some (context_of (usage_of_response o))
        ≡ is_some (field (λ t. t.at1) (usage_of_response o)))
    × Holds (λ n. n ≤ max_safe) (context_of (usage_of_response o))

safe_model_of :
    (m : Option String)
    → is_none_or m (λ m. safe_model m) ≡ true
    → Holds (λ m. safe_model m ≡ true) m
safe_model_of none h = tt
safe_model_of (some m) h = h

ResponseOk-of_valid :
    (o : Option Response) → is_none_or o (λ r. response_valid r) ≡ true → ResponseOk o
ResponseOk-of_valid none h = (tt, refl, tt)
ResponseOk-of_valid (some r) h =
    let (fits, model) =
      &&-eq_true (is_some (sum_all r.usage)) (is_none_or r.model (λ m. safe_model m)) h in
    let le = sum_four r.usage.at0 r.usage.at1 r.usage.at2 r.usage.at3 fits in
    let e = sum_three_of r.usage.at0 r.usage.at2 r.usage.at3 le in
    (safe_model_of r.model model, rw e refl, rw e le)

filter-valid :
    (b : Bool) (o : Option Response)
    → is_none_or o (λ r. response_valid r) ≡ true
    → is_none_or (filter (λ _. b) o) (λ r. response_valid r) ≡ true
filter-valid true none h = h
filter-valid true (some r) h = h
filter-valid false none h = h
filter-valid false (some r) h = refl

open_response-valid :
    (closed : List String) (g : Option Group)
    → is_none_or g (λ g. group_valid closed g) ≡ true
    → is_none_or (open_response g) (λ r. response_valid r) ≡ true
open_response-valid closed none h = refl
open_response-valid closed (some g) h = (group_facts closed g h).1

pick-valid :
    (o last : Option Response)
    → is_none_or o (λ r. response_valid r) ≡ true
    → is_none_or last (λ r. response_valid r) ≡ true
    → is_none_or (elim o [ some response ↦ some response | none ↦ last ]) (λ r. response_valid r)
      ≡ true
pick-valid none last h l = l
pick-valid (some r) last h l = h

-- The model that a replayed row publishes is one of the names that may be shown, its context is
-- known exactly where its output is, and it is a number that JSON keeps exact.
pub usage-ResponseOk :
    (horizon : ℕ) (r : Row)
    → horizon ≤ max_safe
    → Replayed horizon r
    → Holds (λ m. safe_model m ≡ true) (usage r).model
      × (is_some (usage r).context ≡ is_some (usage r).output_tokens)
      × Holds (λ n. n ≤ max_safe) (usage r).context
unfolding usage
usage-ResponseOk horizon r safe p =
    let u = Usage-of_Kept r (Replayed-Kept horizon r safe p) in
    ResponseOk-of_valid (filter (λ _. is_usage_known r) (response_of_row r)) (
      filter-valid (is_usage_known r) (response_of_row r) (
        pick-valid (open_response r.claude.open_group)
          (filter (λ _. r.claude.last_valid) r.claude.last)
          (open_response-valid r.claude.closed r.claude.open_group u.group_ok)
          (filter-valid r.claude.last_valid r.claude.last u.last_ok)))
