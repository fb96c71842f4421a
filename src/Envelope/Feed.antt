-- ===== src/Envelope/Feed.antt =====
-- `Envelope::feed` and `kind` of anton-runtime/src/envelope.rs.
use herdr_observatory.Envelope.{Envelope, read, again, refuse, panic}
use herdr_observatory.Envelope.Grammar.{round}
use herdr_observatory.Envelope.Valid.{valid, is_empty}
use herdr_observatory.Prelude.{
  ℕ, zero, suc, ◌+◌, ◌*◌, ◌%◌, Bool, ◌&&◌, not, List, [], ◌∷◌, ◌==◌, if◌then◌else◌, length,
}

-- `Ok(())` with the classifier as the loop leaves it, `Err(())`, or a panic. The loop of the
-- model may also run out of fuel.
pub data Fed : Type 0 where
  fed : Envelope → Fed
  rejected : Fed
  panicked : Fed
  no_fuel : Fed

-- `late k` says whether the deadline has passed when the loop begins its round `k`; the loop asks
-- at each index that 1024 divides.
unfoldable pub loop : ℕ → (ℕ → Bool) → ℕ → ℕ → List ℕ → Envelope → Fed
loop zero late k index bytes e = no_fuel
loop (suc fuel) late k index [] e = fed e
loop (suc fuel) late k index (ch ∷ bytes) e =
    if index % 1024 == 0 && late k then rejected else elim (round ch e) [
      | read e' ↦ loop fuel late (k + 1) (index + 1) bytes e'
      | again e' ↦ loop fuel late (k + 1) index (ch ∷ bytes) e'
      | refuse ↦ rejected
      | panic ↦ panicked
    ]

-- A byte takes two rounds at most.
unfoldable pub feed : List ℕ → (ℕ → Bool) → Envelope → Fed
unfolding valid loop round
feed bytes late e =
    let result = loop (2 * length bytes + 1) late 0 0 bytes e in
    if not (valid e) then rejected else result

unfoldable pub kind : Envelope → ℕ
unfolding valid
kind e = if valid e && not (e.done == 0) && e.lex == 0 && is_empty e.stack then e.kind else 0
