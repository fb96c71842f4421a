-- ===== src/Telemetry/Coherent.antt =====
-- What holds of every view that `telemetry_view_at` of anton-runtime/src/telemetry.rs publishes.
use herdr_observatory.Common.{max_safe}
use herdr_observatory.Json.{as_str, index, as_u64, is_object, number, Value}
use herdr_observatory.Prelude.{
  str_eq, not, sym, &&-eq_true, ==_iff, ap, filter, true, ||-eq_false, ◌&&◌, is_some, inr,
  get_elem?, leb, inl, Bool-cases, ◌||◌, false, ◌<◌, ltb, arith, ◌≤◌, Bool, is_some_and, Holds, ◌≡◌,
  List, ℕ, String, Option, if◌then◌else◌, ◌==◌, none, some, refl,
}
use herdr_observatory.Telemetry.{TelemetryView}
use herdr_observatory.Telemetry.Names.{
  outcome_keys, tool_name-Known, tool_name, safe_model, phases, known_tools, events, contains,
}
use herdr_observatory.Telemetry.View.{
  collect, tool_of, telemetry_view_at, is_coherent, view_of, numbers_of, number_keys, without,
  bad_usage, sum, totals_valid, when, clear_window, clear_percent, clear_totals, usage_numbers,
  exceeds,
}
use mathlib.Core.Path.{subst}

-- The usage numbers fit together.
pub record Fits (numbers : String → Option ℕ) : Type 0 where
  pub percent : Holds (λ v. v ≤ 100) (numbers "context_percent")
  pub cached : exceeds (numbers "total_cache_read") (numbers "total_input") ≡ false
  pub context : exceeds (numbers "context") (numbers "window") ≡ false
  pub window : Holds (λ v. 0 < v) (numbers "window")

-- The five values that matter, cleared one after the other.
percent_ok : (o : Option ℕ) → is_some_and o (λ v. ltb 100 v) ≡ false → Holds (λ v. v ≤ 100) o
percent_ok none h = tt
percent_ok (some v) h = ground arith

window_ok : (o : Option ℕ) → is_some_and o (λ v. v == 0) ≡ false → Holds (λ v. 0 < v) o
window_ok none h = tt
window_ok (some v) h = ground arith

clear_percent-percent :
    (n : String → Option ℕ) → Holds (λ v. v ≤ 100) (clear_percent n "context_percent")
unfolding clear_percent
clear_percent-percent n = elim (Bool-cases (is_some_and (n "context_percent") (λ v. ltb 100 v))) [
  | inl h ↦ rw h tt
  | inr h ↦ rw h (percent_ok (n "context_percent") h)
]

clear_totals-cached :
    (n : String → Option ℕ)
    → exceeds (clear_totals n "total_cache_read") (clear_totals n "total_input") ≡ false
unfolding clear_totals
clear_totals-cached n = elim (Bool-cases (exceeds (n "total_cache_read") (n "total_input"))) [
  | inl h ↦ rw h refl
  | inr h ↦ rw h h
]

clear_totals-percent :
    (n : String → Option ℕ) → clear_totals n "context_percent" ≡ n "context_percent"
unfolding clear_totals
clear_totals-percent n = ground arith

abbrev window_bad : (String → Option ℕ) → Bool
window_bad n = is_some_and (n "window") (λ v. v == 0) || exceeds (n "context") (n "window")

clear_window-Fits :
    (n : String → Option ℕ)
    → Holds (λ v. v ≤ 100) (n "context_percent")
    → exceeds (n "total_cache_read") (n "total_input") ≡ false
    → Fits (clear_window n)
unfolding clear_window
clear_window-Fits n p c = elim (Bool-cases (window_bad n)) [
  | inl h ↦ record { percent = rw h tt; cached = rw h c; context = rw h refl; window = rw h tt }
  | inr h ↦
      let (zero_free, inside) =
        ||-eq_false (is_some_and (n "window") (λ v. v == 0)) (exceeds (n "context") (n "window"))
          h in
      record {
        percent = rw h p;
        cached = rw h c;
        context = rw h inside;
        window = rw h (window_ok (n "window") zero_free);
      }
]

usage_numbers-Fits : (past : ℕ → Bool) (raw : Value) → Fits (usage_numbers past raw)
unfolding usage_numbers
usage_numbers-Fits past raw =
    let n = if bad_usage past raw then without number_keys (numbers_of raw) else numbers_of raw in
    clear_window-Fits (clear_totals (clear_percent n))
      (rw (clear_totals-percent (clear_percent n)) (clear_percent-percent n))
      (clear_totals-cached (clear_percent n))

-- The subagents that are counted: all three totals or none, each within the next.
abbrev pub Counted : Option ℕ → Option ℕ → Option ℕ → ℕ → Type 0
Counted (some t) (some d) (some s) seq = (d ≤ t) × (t ≤ 128) × (0 < s) × (s ≤ seq)
Counted none none none seq = Unit
Counted _ _ _ seq = ⊥

totals-Counted :
    (t d s : Option ℕ) (seq : ℕ)
    → Counted
        (when (totals_valid t d s seq) t)
        (when (totals_valid t d s seq) d)
        (when (totals_valid t d s seq) s)
        seq
totals-Counted (some t) (some d) (some s) seq =
    elim (Bool-cases (leb d t && leb t 128 && ltb 0 s && leb s seq)) [
      | inl h ↦ rw h (ground arith)
      | inr h ↦ rw h tt
    ]
totals-Counted none d s seq = tt
totals-Counted (some t) none s seq = tt
totals-Counted (some t) (some d) none seq = tt

-- The outcomes add up to the total, and the second one is the number of subagents that are done.
abbrev pub AddsUp : Option (List ℕ) → Option ℕ → Option ℕ → Type 0
AddsUp none total ended = Unit
AddsUp (some xs) total ended =
    (total ≡ some (sum xs)) × (get_elem? xs 1 ≡ ended) × (is_some ended ≡ true)

adds_up : (xs : List ℕ) (t d : Option ℕ) → is_coherent (some xs) t d ≡ true → AddsUp (some xs) t d
adds_up xs (some t) (some d) h =
    let (total, second) = &&-eq_true (sum xs == t) (is_some_and (get_elem? xs 1) (λ v. v == d)) h in
    (ap some (sym ((==_iff (sum xs) t).0 total)), second_is (get_elem? xs 1) d second, refl)
  where
    second_is : (o : Option ℕ) (d : ℕ) → is_some_and o (λ v. v == d) ≡ true → o ≡ some d
    second_is none d h = cc
    second_is (some v) d h = ap some ((==_iff v d).0 h)
adds_up xs none d h = cc
adds_up xs (some t) none h = absurd (not_equal (get_elem? xs 1) (sum xs == t) h)
  where
    not_equal : (o : Option ℕ) (b : Bool) → (b && is_some_and o (λ v. false)) ≡ true → ⊥
    not_equal none b h = ground arith
    not_equal (some v) b h = ground arith

outcomes-AddsUp :
    (o : Option (List ℕ)) (t d : Option ℕ) (b : Bool)
    → AddsUp (if b && is_coherent o t d then o else none) (when b t) (when b d)
outcomes-AddsUp o t d false = tt
outcomes-AddsUp none t d true = tt
outcomes-AddsUp (some xs) t d true = elim (Bool-cases (is_coherent (some xs) t d)) [
  | inl h ↦ rw h (adds_up xs t d h)
  | inr h ↦ rw h tt
]

-- What a reader of a view may rely on.
pub record Coherent (past : ℕ → Bool) (v : TelemetryView) : Type 0 where
  pub seq_past : past v.seq ≡ true
  pub seq_safe : v.seq ≤ max_safe
  pub event_known : contains events v.event ≡ true
  pub phase_known : contains phases v.phase ≡ true
  pub tool_known : Holds (λ s. contains known_tools s ≡ true) v.tool
  pub model_safe : Holds (λ s. safe_model s ≡ true) v.model
  pub usage : Fits v.numbers
  pub counted : Counted v.subagent_total v.subagent_done v.subagent_status_seq v.seq
  pub adds : AddsUp v.outcomes v.subagent_total v.subagent_done

filter-Holds : (p : String → Bool) (o : Option String) → Holds (λ s. p s ≡ true) (filter p o)
filter-Holds p none = tt
filter-Holds p (some s) = elim (Bool-cases (p s)) [ inl h ↦ rw h h | inr h ↦ rw h tt ]

tool_of-Known : (v : Value) → Holds (λ s. contains known_tools s ≡ true) (tool_of v)
tool_of-Known v = on (filter (λ s. not (str_eq s "")) (as_str v))
  where
    on :
        (o : Option String)
        → Holds
            (λ s. contains known_tools s ≡ true)
            (elim o [ none ↦ none | some tool ↦ some (tool_name tool) ])
    on none = tt
    on (some tool) = tool_name-Known tool

module _ (past : ℕ → Bool) (raw : Value) where
  view_of-Coherent :
      (seq : ℕ) (event phase : String)
      → past seq ≡ true
      → seq ≤ max_safe
      → contains events event ≡ true
      → contains phases phase ≡ true
      → Coherent past (view_of past seq event phase raw)
  unfolding view_of
  view_of-Coherent seq event phase p s e f =
      let total = number (index raw "subagent_total") in
      let ended = number (index raw "subagent_done") in
      let stamp = number (index raw "subagent_status_seq") in
      record {
        seq_past = p;
        seq_safe = s;
        event_known = e;
        phase_known = f;
        tool_known = tool_of-Known (index raw "tool");
        model_safe = filter-Holds (λ s. safe_model s) (as_str (index raw "model"));
        usage = usage_numbers-Fits past raw;
        counted = totals-Counted total ended stamp seq;
        adds =
            outcomes-AddsUp (collect raw outcome_keys) total ended
              (totals_valid total ended stamp seq);
      }

  ask :
      (seq : Option ℕ) (event phase : Option String) (v : TelemetryView)
      → Holds (λ n. (past n ≡ true) × (n ≤ max_safe)) seq
      → Holds (λ s. contains events s ≡ true) event
      → Holds (λ s. contains phases s ≡ true) phase
      → elim seq [
        | none ↦ none
        | some n ↦ elim event [
          | none ↦ none
          | some e ↦ elim phase [ none ↦ none | some f ↦ some (view_of past n e f raw) ]
        ]
      ]
        ≡ some v
      → Coherent past v
  ask (some n) (some e) (some f) v (p, s) he hf eq =
      let same : view_of past n e f raw ≡ v = cc in
      subst (Coherent past) same (view_of-Coherent n e f p s he hf)
  ask (some n) (some e) none v p he hf eq = cc
  ask (some n) none f v p he hf eq = cc
  ask none e f v p he hf eq = cc

  seq-Safe :
      (o : Option ℕ)
      → Holds (λ n. (past n ≡ true) × (n ≤ max_safe)) (filter past (filter (λ n. leb n max_safe) o))
  seq-Safe none = tt
  seq-Safe (some n) = ground arith

-- Every view that is published has a known event and phase at a time that has passed, a known
-- tool and a safe model if any, usage numbers that fit together (a percentage of at most 100, no
-- more read from the cache than all of the input, no more context than a window that is not 0),
-- and counts of subagents that add up.
pub telemetry_view_at-Coherent :
    (past : ℕ → Bool) (raw : Value) (v : TelemetryView)
    → telemetry_view_at past raw ≡ some v
    → Coherent past v
unfolding telemetry_view_at number
telemetry_view_at-Coherent past raw v eq = elim (Bool-cases (is_object raw)) [
  | inl h ↦
      ask past raw _ _ _ v (seq-Safe past raw (as_u64 (index raw "seq")))
        (filter-Holds (λ s. contains events s) (as_str (index raw "event")))
        (filter-Holds (λ s. contains phases s) (as_str (index raw "phase"))) (rw h at eq)
  | inr h ↦ absurd (refused (rw h at eq))
]
  where
    refused : none ≡ some v → ⊥
    refused e = cc
