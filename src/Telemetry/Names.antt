-- ===== src/Telemetry/Names.antt =====
-- The names that anton-runtime/src/telemetry.rs lets through: events, phases, tools and models.
use herdr_observatory.Common.{byte_len, is_alphanumeric, codes}
use herdr_observatory.Prelude.{
  refl, if_elim, inr, inl, all, length, Bool-cases, ◌&&◌, str_eq, true, any, [], ◌||◌, false, leb,
  ◌≡◌, Bool, ◌∷◌, ℕ, String, List, if◌then◌else◌, ◌==◌, not,
}

abbrev pub contains : List String → String → Bool
contains names s = any (λ name. str_eq name s) names

abbrev pub outcome_keys : List String
outcome_keys =
    "subagent_running" ∷ "subagent_completed" ∷ "subagent_interrupted" ∷ "subagent_failed"
    ∷ "subagent_unknown" ∷ []

abbrev pub events : List String
events =
    "session" ∷ "turn" ∷ "tool-start" ∷ "tool-end" ∷ "thinking" ∷ "output" ∷ "compact-start"
    ∷ "compact-end" ∷ "compact-failed" ∷ "idle" ∷ "interrupt" ∷ "end" ∷ "model" ∷ "subagent-start"
    ∷ "subagent-stop" ∷ []

abbrev pub phases : List String
phases =
    "ready" ∷ "working" ∷ "tool" ∷ "thinking" ∷ "output" ∷ "compacting" ∷ "idle" ∷ "interrupted"
    ∷ "ended" ∷ []

abbrev pub known_tools : List String
known_tools =
    "Bash" ∷ "bash" ∷ "apply_patch" ∷ "read" ∷ "write" ∷ "edit" ∷ "grep" ∷ "find" ∷ "ls"
    ∷ "exec_command" ∷ "write_stdin" ∷ "exec" ∷ "web" ∷ "mcp-tool" ∷ "custom-tool" ∷ []

-- `str::starts_with`.
unfoldable pub starts_with : List ℕ → List ℕ → Bool
starts_with [] s = true
starts_with (p ∷ prefix) [] = false
starts_with (p ∷ prefix) (c ∷ s) = p == c && starts_with prefix s

-- `str::contains` of a text.
unfoldable pub contains_text : List ℕ → List ℕ → Bool
unfolding starts_with
contains_text part [] = starts_with part []
contains_text part (c ∷ s) = starts_with part (c ∷ s) || contains_text part s

-- `str::split`: the part before the first separator, and the parts after it.
unfoldable pub first_part : ℕ → List ℕ → List ℕ
first_part by [] = []
first_part by (c ∷ s) = let rest = first_part by s in if c == by then [] else c ∷ rest

unfoldable pub later_parts : ℕ → List ℕ → List (List ℕ)
unfolding first_part
later_parts by [] = []
later_parts by (c ∷ s) =
    let rest = later_parts by s in if c == by then first_part by s ∷ rest else rest

unfoldable pub split : ℕ → List ℕ → List (List ℕ)
unfolding first_part later_parts
split by s = first_part by s ∷ later_parts by s

abbrev pub is_model_char : ℕ → Bool
is_model_char c = is_alphanumeric c || c == b'_' || c == b'.' || c == b':' || c == b'-'

-- A part that is not empty, begins with a letter or a digit, and has plain characters only.
abbrev pub is_model_part : List ℕ → Bool
is_model_part [] = false
is_model_part (c ∷ s) = is_alphanumeric c && all is_model_char (c ∷ s)

unfoldable pub safe_model : String → Bool
unfolding contains_text split
safe_model model =
    let s = codes model in
    leb (byte_len s) 64
    && not (contains_text (codes "..") s)
    && not (contains_text (codes ":/") s)
    && leb (length (split b'/' s)) 2
    && all is_model_part (split b'/' s)

-- The name of the tool that is published.
unfoldable pub tool_name : String → String
unfolding starts_with
tool_name tool =
    if contains known_tools tool
    then tool
    else if starts_with (codes "mcp") (codes tool)
    then "mcp-tool"
    else "custom-tool"

-- Whatever the tool is called, one of the fixed names is published.
pub tool_name-Known : (tool : String) → contains known_tools (tool_name tool) ≡ true
unfolding tool_name
tool_name-Known tool = elim (Bool-cases (contains known_tools tool)) [
  | inl h ↦ rw h h
  | inr h ↦ rw h (
      if_elim (λ s. contains known_tools s ≡ true) (starts_with (codes "mcp") (codes tool))
        (λ _. refl) (λ _. refl))
]
