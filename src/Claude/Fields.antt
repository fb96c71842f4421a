-- ===== src/Claude/Fields.antt =====
-- `Record::set`, `Iterations` and `Record::finish` of anton-runtime/src/claude.rs: how the fields of a
-- record are filled in from the values of a line.
use herdr_observatory.Claude.{Record, Four, origin_other, stop_null, stop_end_turn, stop_other}
use herdr_observatory.Common.{safe_id, take_chars}
use herdr_observatory.Json.{Value, null, boolean, text, as_str, is_null, number}
use herdr_observatory.Prelude.{
  Option, ℕ, Bool, true, false, String, List, is_some, ◌-◌, ltb, ◌&&◌, ◌==◌, is_some_and, filter,
  leb, str_eq, none, some, [], ◌∷◌, not, ◌||◌, if◌then◌else◌, zero, suc,
}
use herdr_observatory.Telemetry.Names.{safe_model}
use herdr_observatory.Turns.Observe.{turn_key}

abbrev pub index_from : ℕ → List String → String → ℕ
index_from n [] value = 0
index_from n (name ∷ names) value = if str_eq name value then n else index_from (suc n) names value

-- From 1 on, and 0 for no name.
abbrev pub index : List String → Option String → ℕ
index names none = 0
index names (some value) = index_from 1 names value

abbrev pub kinds : List String
kinds = "assistant" ∷ "user" ∷ "attachment" ∷ "system" ∷ "queue-operation" ∷ []

abbrev pub subtypes : List String
subtypes =
    "compact_boundary" ∷ "microcompact_boundary" ∷ "turn_duration" ∷ "stop_hook_summary"
    ∷ "local_command" ∷ []

abbrev pub origins : List String
origins = "human" ∷ "task-notification" ∷ "peer" ∷ "coordinator" ∷ []

abbrev pub modes : List String
modes = "prompt" ∷ "task-notification" ∷ []

abbrev pub operations : List String
operations = "enqueue" ∷ "dequeue" ∷ "remove" ∷ []

abbrev pub launches : List String
launches = "async_launched" ∷ "teammate_spawned" ∷ "remote_launched" ∷ "forked" ∷ []

abbrev pub is_true : Value → Bool
is_true (boolean b) = b
is_true _ = false

abbrev pub is_false : Value → Bool
is_false (boolean b) = not b
is_false _ = false

abbrev pub is_text : String → Value → Bool
is_text s v = is_some_and (as_str v) (λ t. str_eq t s)

-- `session_identity` of a record that has the value under `sessionId`.
abbrev pub identity_of : String → Value → ℕ
identity_of id v = if is_text id v then 1 else 2

abbrev pub stop_of : Value → ℕ
stop_of null = stop_null
stop_of (text stop) =
    if str_eq stop "end_turn"
    then stop_end_turn
    else if str_eq stop "tool_use"
    then 3
    else stop_other
stop_of _ = 0

abbrev pub origin_of : ℕ → ℕ
origin_of kind = if kind == 0 then origin_other else kind

abbrev pub set_at : ℕ → Option ℕ → Four (Option ℕ) → Four (Option ℕ)
set_at zero n u = record u { at0 = n }
set_at (suc zero) n u = record u { at1 = n }
set_at (suc (suc zero)) n u = record u { at2 = n }
set_at (suc (suc (suc i))) n u = record u { at3 = n }

abbrev pub hashed : (String → String) → Option String → Option String
hashed hash none = none
hashed hash (some s) = some (hash s)

-- The fields on the origin of a record and on the result of a tool.
unfoldable pub set_user : ℕ → Value → Record → Record
set_user node v e =
    if node == 26
    then record e { origin = origin_of (index origins (as_str v)) }
    else if node == 25
    then record e { origin = if is_null v then 0 else origin_other }
    else if node == 27
    then record e { tool = not (is_null v) }
    else if node == 28
    then record e { launch = is_text "async_launched" v; spawn = ltb 0 (index launches (as_str v)) }
    else if node == 31
    then record e { success = is_true v }
    else if node == 32
    then record e { duration = is_some (number v) }
    else if node == 33
    then record e { interrupted = not (is_null v) }
    else e

unfoldable pub set_other : ℕ → Value → Record → Record
set_other node v e =
    if node == 34
    then record e { aborted = is_true v }
    else if node == 36
    then record e { queued = is_text "queued_command" v }
    else if node == 37
    then record e { mode = index modes (as_str v) }
    else if node == 43
    then record e { operation = index operations (as_str v) }
    else if node == 44
    then record e { elapsed = number v }
    else if node == 45 || node == 46
    then record e { background = e.background || not (is_some_and (number v) (λ n. n == 0)) }
    else e

abbrev pub stamp_of : (String → Option ℕ) → ℕ → Option String → Option ℕ
stamp_of timestamp_us horizon none = none
stamp_of timestamp_us horizon (some s) = filter (λ stamp. leb stamp horizon) (timestamp_us s)

module _ (sha256 : String → String) where
  unfoldable pub set_message : ℕ → Value → Record → Record
  set_message node v e =
      if node == 10
      then record e {
        message = hashed (λ m. take_chars 16 (sha256 m)) (filter (λ m. safe_id m 128) (as_str v));
      }
      else if node == 11
      then record e {
        synthetic = is_text "<synthetic>" v;
        model = filter (λ model. safe_model model) (as_str v);
      }
      else if node == 12
      then record e { stop = stop_of v }
      else if leb 14 node && leb node 17
      then record e { usage = set_at (node - 14) (number v) e.usage }
      else e

  -- The identity of an agent, and whether it is malformed.
  abbrev pub agent : Value → Option String × Bool
  agent null = (none, false)
  agent (text name) = if safe_id name 128 then (some (sha256 name), false) else (none, true)
  agent _ = (none, true)

  unfoldable pub set_agent : ℕ → Value → Record → Record
  set_agent node v e =
      if node == 29
      then record e { agent = (agent v).0; agent_bad = (agent v).1 }
      else if node == 30
      then record e { resumed = (agent v).0; resumed_bad = (agent v).1 }
      else e

module _ (sha256 : String → String) (timestamp_us : String → Option ℕ) (id : String)
    (horizon : ℕ) where
  unfoldable pub set_head : ℕ → Value → Record → Record
  set_head node v e =
      if node == 1
      then record e { kind = index kinds (as_str v) }
      else if node == 2
      then record e { subtype = index subtypes (as_str v) }
      else if node == 3
      then record e { identity = identity_of id v }
      else if node == 4
      then record e {
        uuid =
            hashed (λ uuid. turn_key sha256 id uuid) (filter (λ uuid. safe_id uuid 128) (as_str v));
      }
      else if node == 5
      then record e { stamp = stamp_of timestamp_us horizon (as_str v) }
      else if node == 6
      then record e { meta = is_true v }
      else if node == 7
      then record e { forked = not (is_null v) }
      else if node == 8
      then record e { compact_summary = not (is_null v) && not (is_false v) }
      else e

  -- One consumed field, by its number; no two of the parts have a number in common.
  unfoldable pub set : ℕ → Value → Record → Record
  unfolding set_user set_other set_head set_message set_agent
  set node v e =
      if leb node 9
      then set_head node v e
      else if leb node 17
      then set_message sha256 node v e
      else if node == 29 || node == 30
      then set_agent sha256 node v e
      else if leb node 33
      then set_user node v e
      else set_other node v e

  -- The fields of a line, in the order in which they are met.
  unfoldable pub set_all : List (ℕ × Value) → Record → Record
  unfolding set
  set_all [] e = e
  set_all ((node, v) ∷ fields) e = set_all fields (set node v e)

-- `Record::default`.
abbrev pub default_record : Record
default_record = record {
  kind = 0;
  subtype = 0;
  identity = 0;
  forked = false;
  compact_summary = false;
  meta = false;
  stamp = none;
  uuid = none;
  message = none;
  synthetic = false;
  model = none;
  stop = 0;
  usage = record { at0 = none; at1 = none; at2 = none; at3 = none };
  selected = none;
  compaction_iteration = false;
  bad = false;
  origin = 0;
  tool = false;
  launch = false;
  spawn = false;
  agent = none;
  agent_bad = false;
  resumed = none;
  resumed_bad = false;
  success = false;
  duration = false;
  interrupted = false;
  aborted = false;
  queued = false;
  mode = 0;
  operation = 0;
  text = none;
  interrupt = false;
  elapsed = none;
  background = false;
}
