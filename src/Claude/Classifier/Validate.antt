-- ===== src/Claude/Classifier/Validate.antt =====
-- `validate` of anton-runtime/src/claude/classifier.rs and of the `Blocks` and `Iterations` that a
-- classifier carries: what a restored classifier must be. Its three vectors have one length, since they
-- are one list of frames.
use herdr_observatory.Claude.{Four, Record}
use herdr_observatory.Claude.Analyse.{text_valid}
use herdr_observatory.Claude.Blocks.{Blocks, nodes, node_count}
use herdr_observatory.Claude.Classifier.{Classifier, Frame, no_node, depth, deep_limit}
use herdr_observatory.Claude.Classifier.Keys.{viable, parent_of}
use herdr_observatory.Claude.Classifier.Tokens.{word}
use herdr_observatory.Claude.Finish.{Iterations}
use herdr_observatory.Common.{max_safe, hex_id, codes}
use herdr_observatory.Prelude.{
  ℕ, Bool, false, true, length, is_none, ◌^◌, ltb, List, String, Option, none, some, [], ◌∷◌, not,
  ◌||◌, ◌&&◌, ◌==◌, leb, if◌then◌else◌, any, all, is_none_or, ◌+◌, ◌*◌,
}
use herdr_observatory.Telemetry.Names.{safe_model}

abbrev pub longer : ℕ → ℕ → ℕ
longer a b = if ltb a b then b else a

unfoldable pub longest : List (ℕ × String) → ℕ
longest [] = 0
longest ((owner, key) ∷ rest) = longer (length (codes key)) (longest rest)

-- `NAME`: every character of the longest key as an escape, and one byte more.
unfoldable pub name_limit : ℕ
unfolding longest
name_limit = 6 * longest nodes + 1

abbrev pub is_container : ℕ → Bool
is_container node =
    any (λ n. n == node) (0 ∷ 9 ∷ 13 ∷ 18 ∷ 19 ∷ 25 ∷ 27 ∷ 35 ∷ 39 ∷ 38 ∷ 40 ∷ no_node ∷ [])

-- The outermost frame is the record's.
unfoldable pub is_rooted : List Frame → Bool
is_rooted [] = true
is_rooted (frame ∷ []) = frame.node == 0
is_rooted (frame ∷ outer ∷ frames) = is_rooted (outer ∷ frames)

abbrev pub frame_valid : Frame → Bool
frame_valid f =
    leb f.phase 7 && is_container f.node && (ltb f.pending node_count || f.pending == no_node)

unfoldable pub shape : Classifier → Bool
unfolding is_rooted
shape c = leb (length c.frames) depth && all (λ f. frame_valid f) c.frames && is_rooted c.frames

abbrev pub is_clear : List ℕ → Bool
is_clear [] = true
is_clear (b ∷ bytes) = false

abbrev pub has_frames : List Frame → Bool
has_frames [] = false
has_frames (frame ∷ frames) = true

abbrev pub word_length : ℕ → ℕ
word_length literal = elim (word literal) [ none ↦ 0 | some (letters, v) ↦ length letters ]

abbrev pub phase_of : List Frame → ℕ
phase_of [] = 0
phase_of (frame ∷ frames) = frame.phase

unfoldable pub in_range : Classifier → Bool
in_range c =
    leb c.lex 3
    && leb c.number 7
    && leb c.literal 2
    && leb c.index 5
    && leb c.key 1
    && leb c.escape 2
    && leb c.hex 3
    && leb c.utf 3
    && leb 128 c.lo
    && leb c.lo 191
    && leb 128 c.hi
    && leb c.hi 191
    && leb c.started 1
    && leb c.done 1

unfoldable pub name_valid : Classifier → Bool
unfolding name_limit viable
name_valid c =
    leb (length c.name) name_limit
    && (c.key == 1 || (is_clear c.name && not c.miss))
    && (not c.miss || is_clear c.name)
    && (is_clear c.name || (has_frames c.frames && viable (parent_of c.frames) c.name))

unfoldable pub token_valid : Classifier → Bool
token_valid c =
    (c.capture == no_node || (c.lex == 3 && ltb c.capture node_count))
    && is_clear c.value
    && (c.started == 1 || (not (has_frames c.frames) && c.done == 0 && c.lex == 0))
    && (c.done == 0 || (not (has_frames c.frames) && c.lex == 0))
    && (c.lex == 0 || has_frames c.frames)
    && (c.lex == 1 || (c.escape == 0 && c.hex == 0 && c.utf == 0))
    && (c.lex == 1 || c.key == 0)
    && (not (c.lex == 3) || ltb c.index (word_length c.literal))

-- What is nested past the bound.
unfoldable pub deep_valid : Classifier → Bool
deep_valid c =
    leb c.deep deep_limit
    && (c.deep == 0 || c.overflow)
    && (c.deep == 0
        || (length c.frames == depth
            && leb c.lex 1
            && c.key == 0
            && c.capture == no_node
            && is_clear c.name
            && not c.miss
            && any (λ phase. phase == phase_of c.frames) (3 ∷ 5 ∷ 6 ∷ [])))

abbrev pub is_safe : Option ℕ → Bool
is_safe o = is_none_or o (λ v. leb v max_safe)

abbrev pub counters_safe : Four (Option ℕ) → Bool
counters_safe u = is_safe u.at0 && is_safe u.at1 && is_safe u.at2 && is_safe u.at3

-- The record while its fields are set; what is derived at its end is not there.
unfoldable pub fields_valid : Record → Bool
unfolding hex_id safe_model
fields_valid e =
    leb e.kind 5
    && leb e.subtype 5
    && leb e.identity 2
    && leb e.stop 4
    && is_safe e.stamp
    && is_none_or e.uuid (λ key. hex_id key 24)
    && is_none_or e.message (λ key. hex_id key 16)
    && is_none_or e.model safe_model
    && counters_safe e.usage
    && is_none e.selected
    && not e.compaction_iteration
    && not e.bad
    && leb e.origin 5
    && leb e.mode 2
    && leb e.operation 3
    && is_safe e.elapsed
    && is_none_or e.agent (λ key. hex_id key 64)
    && is_none_or e.resumed (λ key. hex_id key 64)
    && is_none e.text
    && not e.interrupt

abbrev pub candidate_valid : Option (ℕ × Four (Option ℕ)) → Bool
candidate_valid none = true
candidate_valid (some (kind, counters)) = leb kind 4 && counters_safe counters

-- `Iterations::validate`.
unfoldable pub iterations_valid : Iterations → Bool
iterations_valid i =
    leb i.shape 2 && leb i.kind 4 && candidate_valid i.candidate && counters_safe i.counters

-- `Blocks::validate`.
unfoldable pub blocks_valid : Blocks → Bool
unfolding text_valid
blocks_valid b =
    is_none_or b.content.first text_valid
    && is_none_or b.prompt.first text_valid
    && is_none_or b.value text_valid

unfoldable pub validate : Classifier → Bool
unfolding shape in_range name_valid token_valid deep_valid fields_valid iterations_valid
    blocks_valid
validate c =
    shape c
    && in_range c
    && name_valid c
    && token_valid c
    && deep_valid c
    && fields_valid c.entry
    && ltb c.seen (2 ^ node_count)
    && ltb c.lost (2 ^ node_count)
    && iterations_valid c.iterations
    && blocks_valid c.blocks
    && is_clear c.scan
