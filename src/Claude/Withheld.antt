-- ===== src/Claude/Withheld.antt =====
-- What `usage` of anton-runtime/src/claude.rs withholds from a row on, whatever lines follow.
use herdr_observatory.Claude.Apply.{Outcome, settle}
use herdr_observatory.Claude.Cursor.{totals}
use herdr_observatory.Claude.Frame.{known}
use herdr_observatory.Claude.Latched.{settle-Later}
use herdr_observatory.Claude.Later.{Later, Later-refl, Later-trans}
use herdr_observatory.Claude.Row.{Row}
use herdr_observatory.Claude.Usage.{Usage, usage, is_usage_known}
use herdr_observatory.Prelude.{
  Bool, true, false, ◌&&◌, List, [], ◌∷◌, Option, none, some, ◌≡◌, refl, arith, filter,
}

-- Line after line.
unfoldable pub settle_all : List Outcome → Row → Row
unfolding settle
settle_all [] r = r
settle_all (o ∷ os) r = settle_all os (settle o r)

settle_all-Later : (os : List Outcome) (r : Row) → Later (known r) (known (settle_all os r))
unfolding settle_all
settle_all-Later [] r = Later-refl (known r)
settle_all-Later (o ∷ os) r = Later-trans (settle-Later o r) (settle_all-Later os (settle o r))

-- No total is published.
abbrev pub NoTotals : Usage → Type 0
NoTotals s =
    (s.total_input ≡ none)
    × (s.total_uncached_input ≡ none)
    × (s.total_output ≡ none)
    × (s.total_cache_read ≡ none)
    × (s.total_cache_write ≡ none)

-- Nothing is published.
abbrev pub Nothing : Usage → Type 0
Nothing s =
    NoTotals s
    × (s.input ≡ none)
    × (s.output_tokens ≡ none)
    × (s.cache_read ≡ none)
    × (s.cache_write ≡ none)
    × (s.context ≡ none)
    × (s.model ≡ none)
    × (s.usage_seq ≡ none)
    × (s.compactions ≡ none)

filter_by_false : {A : Type 0} (o : Option A) (b : Bool) → b ≡ false → filter (λ _. b) o ≡ none
filter_by_false none b e = refl
filter_by_false (some a) b e = rw e refl

not_again : (a b : Bool) → (b ≡ true → a ≡ true) → a ≡ false → b ≡ false
not_again a true f e = absurd (ground (arith, f refl, e))
not_again a false f e = refl

usage-NoTotals : (u : Row) → u.claude.totals_valid ≡ false → NoTotals (usage u)
unfolding usage
usage-NoTotals u e =
    let k =
      filter_by_false (totals u.claude) (is_usage_known u && u.claude.totals_valid)
        (ground (arith, e)) in
    (rw k refl, rw k refl, rw k refl, rw k refl, rw k refl)

-- Once the totals of a row are not valid, no total is published after any number of further lines, of
-- whatever kind.
pub settle_all-NoTotals :
    (os : List Outcome) (r : Row)
    → r.claude.totals_valid ≡ false
    → NoTotals (usage (settle_all os r))
settle_all-NoTotals os r e = usage-NoTotals (settle_all os r) (
    not_again r.claude.totals_valid (settle_all os r).claude.totals_valid
      (settle_all-Later os r).totals e)
