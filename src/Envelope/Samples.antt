-- ===== src/Envelope/Samples.antt =====
-- Runs of the classifier of anton-runtime/src/envelope.rs on whole lines.
use herdr_observatory.Common.{codes}
use herdr_observatory.Envelope.{default}
use herdr_observatory.Envelope.Bits.{test_bit, clear_bit, set_bit}
use herdr_observatory.Envelope.Feed.{Fed, fed, feed, kind}
use herdr_observatory.Envelope.Names.{narrow, complete, first_bit}
use herdr_observatory.Prelude.{ℕ, String, ◌≡◌, refl, Bool, false, List, [], ◌∷◌}

abbrev in_time : ℕ → Bool
in_time k = false

abbrev kinds : Fed → List ℕ
kinds (fed e) = kind e ∷ e.payload_type ∷ e.item_type ∷ []
kinds _ = []

abbrev classify : String → List ℕ
classify line = kinds (feed (codes line) in_time default)

item_line :
    classify
      "{\"ts\":[1,-2.5e+3],\"type\":\"event_msg\",\"payload\":{\"type\":\"item_completed\",\"item\":{\"type\":\"McpToolCall\"}}} "
    ≡ 5 ∷ 8 ∷ 12 ∷ []
unfolding feed kind test_bit clear_bit set_bit narrow complete first_bit
item_line = refl

escaped_line : classify "{\"t\\u0079pe\":\"compacted\"}" ≡ 4 ∷ 0 ∷ 0 ∷ []
unfolding feed kind test_bit clear_bit set_bit narrow complete first_bit
escaped_line = refl

twice_line : classify "{\"type\":\"compacted\",\"type\":\"compacted\"}" ≡ []
unfolding feed kind test_bit clear_bit set_bit narrow complete first_bit
twice_line = refl
