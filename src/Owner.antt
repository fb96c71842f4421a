-- ===== src/Owner.antt =====
-- `OwnerLines` of anton-runtime/src/main.rs: the commands that the panel writes, one for each line.
pub mod Framed
pub mod Samples
use herdr_observatory.Common.{same_bytes, codes}
use herdr_observatory.Prelude.{
  ◌&&◌, ℕ, Bool, true, false, not, List, [], ◌∷◌, ◌++◌, ◌==◌, ltb, if◌then◌else◌, length, zero, suc,
}

pub data OwnerCommand : Type 0 where
  refresh : OwnerCommand

pub record OwnerLines : Type 0 where
  pub line : List ℕ
  pub discarding : Bool

abbrev pub default : OwnerLines
default = record { line = []; discarding = false }

abbrev pub owner_line_limit : ℕ
owner_line_limit = 64

-- `[rest @ .., b'\r']`: a last carriage return is dropped.
abbrev pub strip_cr : List ℕ → List ℕ
strip_cr [] = []
strip_cr (byte ∷ []) = if byte == b'\r' then [] else byte ∷ []
strip_cr (byte ∷ next ∷ line) = byte ∷ strip_cr (next ∷ line)

abbrev pub is_refresh : List ℕ → Bool
is_refresh line = same_bytes (strip_cr line) (codes "refresh")

-- The commands of a line that has ended.
abbrev pub commands_of : List ℕ → List OwnerCommand
commands_of line = if is_refresh line then refresh ∷ [] else []

-- One byte: the new state, and the commands that are given.
unfoldable pub push_byte : ℕ → OwnerLines → OwnerLines × List OwnerCommand
push_byte byte o =
    if byte == b'\n'
    then (default, if o.discarding then [] else commands_of o.line)
    else if o.discarding
    then (o, [])
    else if length o.line == owner_line_limit
    then (record { line = []; discarding = true }, [])
    else (record o { line = o.line ++ (byte ∷ []) }, [])

unfoldable pub push : List ℕ → OwnerLines → OwnerLines × List OwnerCommand
unfolding push_byte
push [] o = (o, [])
push (byte ∷ bytes) o =
    let (u, given) = push_byte byte o in let (v, rest) = push bytes u in (v, given ++ rest)
