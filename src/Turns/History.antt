-- ===== src/Turns/History.antt =====
-- `observe` of anton-runtime/src/turns.rs over a transcript of turns that follow one another: it
-- keeps exactly the ledger of the turns and the sum of their durations.
use herdr_observatory.BTreeMap.{length-insert, BTreeMap, get, insert}
use herdr_observatory.Common.{safe_id, max_safe}
use herdr_observatory.Json.{Value, text, unsigned, object, field, end, index}
use herdr_observatory.Prelude.{
  refl, ap, ◌∙◌, ℕ, ◌+◌, ◌≤◌, ◌<◌, String, ◌≡◌, Bool, true, false, Option, none, some, List, [],
  ◌∷◌, length, arith, if◌then◌else◌,
}
use herdr_observatory.Turns.{default, Row, Turns, capacity, duration, set_last}
use herdr_observatory.Turns.Bounded.{add_safe_fits}
use herdr_observatory.Turns.Observe.{turn_key, started, completed, observe}
use package.text.Mathlib.TextPositions.{eq_refl}

-- One turn of a transcript.
pub record Turn : Type 0 where
  pub id : String
  pub begun : ℕ
  pub ended : ℕ
  pub was_aborted : Bool

abbrev pub row_of : Turn → Row
row_of x = record {
  begun = x.begun;
  ended = x.ended;
  outcome = if x.was_aborted then "aborted" else "completed";
}

abbrev pub start_payload : Turn → Value
start_payload x = object (
    field "type" (text "task_started")
      (field "turn_id" (text x.id) (field "started_at" (unsigned x.begun) end)))

abbrev pub end_payload : Turn → Value
end_payload x = object (
    field "type" (text (if x.was_aborted then "turn_aborted" else "task_complete")) (
      field "turn_id" (text x.id)
        (field "started_at" (unsigned x.begun) (field "completed_at" (unsigned x.ended) end))))

-- The turn starts no earlier than the last end, and ends later.
abbrev pub After : Option ℕ → Turn → Type 0
After none x = Unit
After (some e) x = (e ≤ x.begun) × (e < x.ended)

module _ (sha256 : String → String) (reached : ℕ → Bool) (session : String) where
  abbrev pub key_of : Turn → String
  key_of x = turn_key sha256 session x.id

  -- Both payloads of one turn.
  pub observe_turn_pair : Turn → Turns → Turns
  observe_turn_pair x t =
      observe sha256 reached (end_payload x) session
        (observe sha256 reached (start_payload x) session t)

  pub observe_all : List Turn → Turns → Turns
  observe_all [] t = t
  observe_all (x ∷ xs) t = observe_all xs (observe_turn_pair x t)

  -- The ledger that the transcript describes.
  abbrev pub ledger : List Turn → BTreeMap Row → BTreeMap Row
  ledger [] m = m
  ledger (x ∷ xs) m = ledger xs (insert (key_of x) (row_of x) m)

  abbrev pub durations : List Turn → ℕ
  durations [] = 0
  durations (x ∷ xs) = duration (row_of x) + durations xs

  -- A turn whose payloads pass the guards of `observe`.
  pub record Sound (x : Turn) : Type 0 where
    pub safe : safe_id x.id 128 ≡ true
    pub positive : 0 < x.begun
    pub ordered : x.begun ≤ x.ended
    pub begun_seen : reached x.begun ≡ true
    pub ended_seen : reached x.ended ≡ true

  -- Sound turns, each under a new key, each after the end of the one before.
  abbrev pub Follows : List Turn → BTreeMap Row → Option ℕ → Type 0
  Follows [] m floor = Unit
  Follows (x ∷ xs) m floor =
      Sound x
      × (get (key_of x) m ≡ none)
      × After floor x
      × Follows xs (insert (key_of x) (row_of x) m) (some x.ended)

  -- A valid record between two turns.
  pub record Idle (t : Turns) : Type 0 where
    pub is_valid : t.valid ≡ true
    pub no_turn : t.active ≡ none
    pub no_start : t.start ≡ none

  observe-start :
      (x : Turn) (t : Turns)
      → Sound x
      → observe sha256 reached (start_payload x) session t
        ≡ started (key_of x) x.begun (record t { supported = true })
  unfolding observe index
  observe-start x t s = ground arith

  observe-end_at :
      (aborted : Bool) (id : String) (begun ended : ℕ) (t : Turns)
      → safe_id id 128 ≡ true
      → 0 < begun
      → begun ≤ ended
      → reached begun ≡ true
      → reached ended ≡ true
      → (let x : Turn = record { id = id; begun = begun; ended = ended; was_aborted = aborted } in
          observe sha256 reached (end_payload x) session t
          ≡ completed (key_of x) (row_of x) (record t { supported = true }))
  unfolding observe index
  observe-end_at true id begun ended t safe pos ord b e = ground arith
  observe-end_at false id begun ended t safe pos ord b e = ground arith

  observe-end :
      (x : Turn) (t : Turns)
      → Sound x
      → observe sha256 reached (end_payload x) session t
        ≡ completed (key_of x) (row_of x) (record t { supported = true })
  observe-end x t s =
      observe-end_at x.was_aborted x.id x.begun x.ended t s.safe s.positive s.ordered s.begun_seen
        s.ended_seen

  -- The record after a turn that follows.
  abbrev after : Turn → Turns → Turns
  after x t = set_last (key_of x) (row_of x) (record t {
    supported = true;
    current_known = true;
    total = t.total + duration (row_of x);
    finished = insert (key_of x) (row_of x) t.finished;
  })

  module _ (x : Turn) (t : Turns) (s : Sound x) (i : Idle t)
      (new : get (key_of x) t.finished ≡ none) (follows : After t.last_end x) where
    started-idle : started (key_of x) x.begun (record t { supported = true }) ≡ record t {
      supported = true;
      current_known = true;
      active = some (key_of x);
      start = some x.begun;
    }
    unfolding started
    started-idle = ground arith

    completed-open :
        length t.finished < capacity
        → t.total + duration (row_of x) ≤ max_safe
        → completed (key_of x) (row_of x) (record t {
          supported = true;
          current_known = true;
          active = some (key_of x);
          start = some x.begun;
        })
          ≡ after x t
    unfolding completed
    completed-open room safe =
        ground (arith, eq_refl (key_of x), add_safe_fits t.total (duration (row_of x)))

    observe_turn_pair-eq :
        length t.finished < capacity
        → t.total + duration (row_of x) ≤ max_safe
        → observe_turn_pair x t ≡ after x t
    unfolding observe_turn_pair
    observe_turn_pair-eq room safe =
        observe-end x (observe sha256 reached (start_payload x) session t) s
        ∙ ap (λ u. completed (key_of x) (row_of x) (record u { supported = true }))
            (observe-start x t s ∙ started-idle)
        ∙ completed-open room safe

  abbrev pub Keeps : List Turn → Turns → Turns → Type 0
  Keeps xs t u =
      (u.valid ≡ true)
      × (u.active ≡ none)
      × (u.finished ≡ ledger xs t.finished)
      × (u.total ≡ t.total + durations xs)

  observe_all-Keeps :
      (xs : List Turn) (t : Turns)
      → Idle t
      → Follows xs t.finished t.last_end
      → length t.finished + length xs ≤ capacity
      → t.total + durations xs ≤ max_safe
      → Keeps xs t (observe_all xs t)
  unfolding observe_all
  observe_all-Keeps [] t i f room safe = (i.is_valid, i.no_turn, refl, omega arith)
  observe_all-Keeps (x ∷ xs) t i (s, new, later, f) room safe =
      let longer = length-insert (key_of x) (row_of x) t.finished new in
      let (v, a, m, n) =
        observe_all-Keeps xs (after x t)
          (record { is_valid = i.is_valid; no_turn = i.no_turn; no_start = i.no_start }) f
          (omega (arith, longer)) (omega arith) in
      rw (observe_turn_pair-eq x t s i new later (omega arith) (omega arith), observe_all)
        (v, a, m, omega arith)

  -- A transcript of at most 512 sound turns under different keys, each begun no earlier than the
  -- end of the one before and ended later than it, and whose durations fit into `max_safe`,
  -- leaves a valid record with no open turn, whose finished turns are the ledger of the
  -- transcript and whose total is the sum of the durations.
  pub observe_all-ledger :
      (xs : List Turn)
      → Follows xs [] none
      → length xs ≤ capacity
      → durations xs ≤ max_safe
      → Keeps xs default (observe_all xs default)
  observe_all-ledger xs f room safe =
      observe_all-Keeps xs default (record { is_valid = refl; no_turn = refl; no_start = refl }) f
        (omega arith) (omega arith)
