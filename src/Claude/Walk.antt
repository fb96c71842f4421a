-- ===== src/Claude/Walk.antt =====
-- `Record::from_value` of anton-runtime/src/claude.rs: the consumed paths of a line that has been
-- parsed, in the order of the nodes.
use herdr_observatory.Claude.{Record}
use herdr_observatory.Claude.Blocks.{
  Blocks, nodes, set_block, set_iteration, push_block, node_prompt, node_content,
}
use herdr_observatory.Claude.Classifier.{Context, no_iterations, no_blocks}
use herdr_observatory.Claude.Fields.{default_record, set}
use herdr_observatory.Claude.Finish.{Iterations, finish, push as push_iteration}
use herdr_observatory.Json.{Value, Values, array, object, nil, cons, index, get, is_object, null}
use herdr_observatory.Prelude.{
  ℕ, List, String, Option, none, some, [], ◌∷◌, ◌||◌, if◌then◌else◌, ◌==◌, suc,
}

abbrev pub field_of : String → Value → Option Value
field_of key (object fs) = get key fs
field_of key _ = none

-- `none` for the parents whose children are elements of an array.
abbrev pub parent_at : ℕ → Value → Option Value
parent_at parent v =
    if parent == 0
    then some v
    else if parent == 9
    then some (index v "message")
    else if parent == 13
    then some (index (index v "message") "usage")
    else if parent == 25
    then some (index v "origin")
    else if parent == 27
    then some (index v "toolUseResult")
    else if parent == 35
    then some (index v "attachment")
    else none

abbrev pub found : Option Value → String → Option Value
found none key = none
found (some parent) key = field_of key parent

-- The children of `parent` that an element has, by their nodes.
abbrev pub listed : ℕ → Option Value → List (ℕ × Value) → List (ℕ × Value)
listed n none rest = rest
listed n (some v) rest = (n, v) ∷ rest

unfoldable pub picks : ℕ → ℕ → List (ℕ × String) → Value → List (ℕ × Value)
unfolding get
picks n parent [] item = []
picks n parent ((owner, key) ∷ rest) item =
    let others = picks (suc n) parent rest item in
    if owner == parent then listed n (field_of key item) others else others

abbrev pub set_iterations : List (ℕ × Value) → Iterations → Iterations
set_iterations [] i = i
set_iterations ((node, v) ∷ rest) i = set_iterations rest (set_iteration node v i)

-- Each element of `iterations`.
unfoldable pub iterate : Values → Iterations → Iterations
unfolding picks set_iteration
iterate nil i = i
iterate (cons item items) i =
    iterate items (push_iteration (set_iterations (picks 0 19 nodes item) i))

abbrev pub iterations_of : Value → Iterations
iterations_of null = no_iterations
iterations_of (array items) = iterate items (record no_iterations { shape = 1 })
iterations_of _ = record no_iterations { shape = 2 }

module _ (x : Context) where
  -- `Record::field`.
  unfoldable pub set_node : ℕ → Value → Record × Blocks → Record × Blocks
  unfolding set set_block
  set_node node v (e, b) =
      if node == 38 || node == 39 || node == 41 || node == 42
      then (e, set_block x.digest node v b)
      else (set x.sha256 x.timestamp_us x.id x.horizon node v e, b)

  abbrev pub set_found : ℕ → Option Value → Record × Blocks → Record × Blocks
  set_found node none s = s
  set_found node (some v) s = set_node node v s

  unfoldable pub walk : ℕ → List (ℕ × String) → Value → Record × Blocks → Record × Blocks
  unfolding set_node index get
  walk n [] v s = s
  walk n ((owner, key) ∷ rest) v s =
      walk (suc n) rest v (set_found n (found (parent_at owner v) key) s)

  abbrev pub set_blocks : List (ℕ × Value) → Blocks → Blocks
  set_blocks [] b = b
  set_blocks ((node, v) ∷ rest) b = set_blocks rest (set_block x.digest node v b)

  -- Each element of the content or the prompt.
  unfoldable pub fold_items : ℕ → Values → Blocks → Blocks
  unfolding picks set_block push_block
  fold_items node nil b = b
  fold_items node (cons item items) b =
      fold_items node items (push_block node (set_blocks (picks 0 40 nodes item) b))

  abbrev pub fold_list : ℕ → Value → Blocks → Blocks
  fold_list node (array items) b = fold_items node items b
  fold_list node _ b = b

  abbrev pub finished : Value → Record × Blocks → Record
  finished v (e, b) =
      let c = fold_list node_prompt (index (index v "attachment") "prompt") b in
      let d = fold_list node_content (index (index v "message") "content") c in
      finish (is_object (index v "message"))
        (iterations_of (index (index (index v "message") "usage") "iterations")) d.content d.prompt
        e

  -- `none` where the line is no object.
  unfoldable pub from_value : Value → Option Record
  unfolding walk fold_items iterate finish index
  from_value v =
      if is_object v then some (finished v (walk 0 nodes v (default_record, no_blocks))) else none
