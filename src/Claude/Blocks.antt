-- ===== src/Claude/Blocks.antt =====
-- `Blocks`, `Iterations::set` and the consumed paths of anton-runtime/src/claude.rs. The hashes of a
-- text's units and of a string are the same digest.
use herdr_observatory.Claude.{Text}
use herdr_observatory.Claude.Analyse.{text_of}
use herdr_observatory.Claude.Fields.{is_text, set_at, index}
use herdr_observatory.Claude.Finish.{Texts, fold, Iterations}
use herdr_observatory.Common.{codes}
use herdr_observatory.Json.{Value, as_str, number}
use herdr_observatory.Prelude.{
  Option, ℕ, Bool, false, String, List, ◌-◌, ◌&&◌, leb, ◌==◌, none, some, [], ◌∷◌, ◌||◌,
  if◌then◌else◌,
}

pub record Blocks : Type 0 where
  pub content : Texts
  pub prompt : Texts
  pub is_text_block : Bool
  pub value : Option Text

abbrev pub node_prompt : ℕ
node_prompt = 38

abbrev pub node_content : ℕ
node_content = 39

abbrev pub node_block_text : ℕ
node_block_text = 42

-- The consumed paths as (parent node, key); a node's number is its place.
abbrev pub nodes : List (ℕ × String)
nodes =
    (0, "")
    ∷ (0, "type")
    ∷ (0, "subtype")
    ∷ (0, "sessionId")
    ∷ (0, "uuid")
    ∷ (0, "timestamp")
    ∷ (0, "isMeta")
    ∷ (0, "forkedFrom")
    ∷ (0, "isCompactSummary")
    ∷ (0, "message")
    ∷ (9, "id")
    ∷ (9, "model")
    ∷ (9, "stop_reason")
    ∷ (9, "usage")
    ∷ (13, "input_tokens")
    ∷ (13, "output_tokens")
    ∷ (13, "cache_read_input_tokens")
    ∷ (13, "cache_creation_input_tokens")
    ∷ (13, "iterations")
    ∷ (18, "")
    ∷ (19, "type")
    ∷ (19, "input_tokens")
    ∷ (19, "output_tokens")
    ∷ (19, "cache_read_input_tokens")
    ∷ (19, "cache_creation_input_tokens")
    ∷ (0, "origin")
    ∷ (25, "kind")
    ∷ (0, "toolUseResult")
    ∷ (27, "status")
    ∷ (27, "agentId")
    ∷ (27, "resumedAgentId")
    ∷ (27, "success")
    ∷ (27, "totalDurationMs")
    ∷ (0, "interruptedMessageId")
    ∷ (0, "isAbortedMidStream")
    ∷ (0, "attachment")
    ∷ (35, "type")
    ∷ (35, "commandMode")
    ∷ (35, "prompt")
    ∷ (9, "content")
    ∷ (39, "")
    ∷ (40, "type")
    ∷ (40, "text")
    ∷ (0, "operation")
    ∷ (0, "durationMs")
    ∷ (0, "pendingBackgroundAgentCount")
    ∷ (0, "pendingWorkflowCount")
    ∷ []

abbrev pub node_count : ℕ
node_count = 47

abbrev pub iteration_kinds : List String
iteration_kinds = "message" ∷ "fallback_message" ∷ "advisor_message" ∷ "compaction" ∷ []

-- One field of the element that is being read.
unfoldable pub set_iteration : ℕ → Value → Iterations → Iterations
set_iteration node v i =
    if node == 20
    then record i { kind = index iteration_kinds (as_str v) }
    else if leb 21 node && leb node 24
    then record i { counters = set_at (node - 21) (number v) i.counters }
    else i

-- `self.texts(node).fold(text)`.
abbrev pub fold_at : ℕ → Text → Blocks → Blocks
fold_at node t b =
    if node == node_prompt
    then record b { prompt = fold b.prompt t }
    else record b { content = fold b.content t }

-- The analysed text of a text node.
unfoldable pub text_value : ℕ → Text → Blocks → Blocks
text_value node t b =
    if node == node_block_text
    then record b { value = some t }
    else if node == node_prompt || node == node_content
    then fold_at node t b
    else b

abbrev pub fold_block : ℕ → Option Text → Blocks → Blocks
fold_block node none b = b
fold_block node (some t) b = if b.is_text_block then fold_at node t b else b

-- The block that has been read joins the array of `node`.
unfoldable pub push_block : ℕ → Blocks → Blocks
push_block node b =
    let u = fold_block node b.value b in record u { value = none; is_text_block = false }

abbrev pub text_result : ℕ → Option Text → Blocks → Blocks
text_result node none b = b
text_result node (some t) b = text_value node t b

module _ (sha256 : List ℕ → String) where
  abbrev pub set_text : ℕ → Option String → Blocks → Blocks
  set_text node none b = b
  set_text node (some s) b = text_result node (text_of sha256 (codes s)) b

  -- One field from its value; only strings carry text. The analysis always has a result.
  unfoldable pub set_block : ℕ → Value → Blocks → Blocks
  unfolding text_of text_value
  set_block node v b =
      if node == 41
      then record b { is_text_block = is_text "text" v }
      else set_text node (as_str v) b
