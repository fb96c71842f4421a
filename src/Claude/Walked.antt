-- ===== src/Claude/Walked.antt =====
-- The record of a parsed line in anton-runtime/src/claude.rs is one that the replay may take.
use herdr_observatory.Claude.{Record}
use herdr_observatory.Claude.Blocks.{node_content, node_prompt, nodes, Blocks}
use herdr_observatory.Claude.Classifier.{no_blocks, Context, default}
use herdr_observatory.Claude.Classifier.Filled.{Fills}
use herdr_observatory.Claude.Fields.{default_record}
use herdr_observatory.Claude.Finished.{FillingOk, finish-RecordOk, set-Ok}
use herdr_observatory.Claude.KeepApply.{RecordOk}
use herdr_observatory.Claude.Walk.{
  finished, fold_list, iterations_of, parent_at, found, set_found, from_value, walk, set_node,
}
use herdr_observatory.Common.{hex_id}
use herdr_observatory.Json.{index, is_object, Value}
use herdr_observatory.Prelude.{
  ℕ, true, List, String, Option, none, some, [], ◌∷◌, ◌||◌, ◌==◌, ◌≡◌, Holds, if_elim, arith, suc,
}

pub default-Fills : (x : Context) → Fills x default
default-Fills x = record { uuid_hex = tt; message_hex = tt; stop_le = omega arith; stamp_le = tt }

module _ (x : Context) (hex : (s : String) → hex_id (x.sha256 s) 64 ≡ true) where
  set_node-Ok :
      (node : ℕ) (v : Value) (e : Record) (b : Blocks)
      → FillingOk x.horizon e
      → FillingOk x.horizon ((set_node x node v (e, b)).0)
  unfolding set_node
  set_node-Ok node v e b f =
      if_elim (λ (p : Record × Blocks). FillingOk x.horizon (p.0))
        (node == 38 || node == 39 || node == 41 || node == 42) (λ _. f)
        (λ _. set-Ok x.sha256 hex x.timestamp_us x.id x.horizon node v e f)

  set_found-Ok :
      (node : ℕ) (o : Option Value) (e : Record) (b : Blocks)
      → FillingOk x.horizon e
      → FillingOk x.horizon ((set_found x node o (e, b)).0)
  set_found-Ok node none e b f = f
  set_found-Ok node (some v) e b f = set_node-Ok node v e b f

  walk-Ok :
      (n : ℕ) (paths : List (ℕ × String)) (v : Value) (s : Record × Blocks)
      → FillingOk x.horizon (s.0)
      → FillingOk x.horizon ((walk x n paths v s).0)
  unfolding walk
  walk-Ok n [] v s f = f
  walk-Ok n ((owner, key) ∷ rest) v (e, b) f =
      walk-Ok (suc n) rest v (set_found x n (found (parent_at owner v) key) (e, b))
        (set_found-Ok n (found (parent_at owner v) key) e b f)

  finished-Ok :
      (v : Value) (e : Record) (b : Blocks)
      → FillingOk x.horizon e
      → RecordOk x.horizon (finished x v (e, b))
  finished-Ok v e b f =
      let c = fold_list x node_prompt (index (index v "attachment") "prompt") b in
      let d = fold_list x node_content (index (index v "message") "content") c in
      finish-RecordOk (is_object (index v "message"))
        (iterations_of (index (index (index v "message") "usage") "iterations")) d.content d.prompt
        e f

  walked-Ok :
      (v : Value) (s : Record × Blocks)
      → FillingOk x.horizon (s.0)
      → RecordOk x.horizon (finished x v s)
  walked-Ok v (e, b) f = finished-Ok v e b f

  -- Whatever a parsed line holds, its record is one that the replay may take, given a digest of 64
  -- hexadecimal digits.
  pub from_value-RecordOk : (v : Value) → Holds (RecordOk x.horizon) (from_value x v)
  unfolding from_value
  from_value-RecordOk v =
      if_elim (Holds (RecordOk x.horizon)) (is_object v)
        (λ _.
          walked-Ok v (walk x 0 nodes v (default_record, no_blocks))
            (walk-Ok 0 nodes v (default_record, no_blocks) (default-Fills x)))
        (λ _. tt)
