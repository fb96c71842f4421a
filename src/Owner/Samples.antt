-- ===== src/Owner/Samples.antt =====
-- Input of the panel, and the theorems of Owner/Framed at it.
use herdr_observatory.Owner.{owner_line_limit, codes, default, push, refresh}
use herdr_observatory.Owner.Framed.{push-lines, commands, lines}
use herdr_observatory.Prelude.{◌≤◌, ◌≡◌, ℕ, List, [], ◌∷◌, ◌++◌, length, refl}

abbrev input : List ℕ
input = codes "refresh\nrefresh\r\nrefres" ++ (b'h' ∷ b'\n' ∷ [])

input_commands : (push input default).1 ≡ refresh ∷ refresh ∷ refresh ∷ []
unfolding push
input_commands = refl

push-lines_example :
    ((push input default).1 ≡ commands (lines [] input))
    × (length (push input default).0.line ≤ owner_line_limit)
push-lines_example = push-lines input
