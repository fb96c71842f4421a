-- ===== src/Turns/Reached.antt =====
-- The records that `begin`, `finish`, `abort` and `unknown` of anton-runtime/src/turns.rs lead to
-- from the default one, which is how a Claude transcript uses them.
use herdr_observatory.Prelude.{true, ◌≡◌, ℕ, String}
use herdr_observatory.Turns.{unknown, abort, finish, begin, default, Turns}
use herdr_observatory.Turns.Preserve.{
  unknown-Inv, abort-Inv, finish-Inv, begin-Inv, default-Inv, Inv,
}
use herdr_observatory.Turns.Validate.{validate}
use herdr_observatory.Turns.WellFormed.{validate_of_WellFormed}

-- The records that a Claude transcript leads to, operation by operation.
pub data Reached : Turns → Type 0 where
  fresh : Reached default
  begun : {t : Turns} (key : String) (start : ℕ) → Reached t → Reached (begin key start t)
  finished : {t : Turns} (ended : ℕ) → Reached t → Reached (finish ended t)
  aborted : {t : Turns} (ended : ℕ) → Reached t → Reached (abort ended t)
  lost : {t : Turns} → Reached t → Reached (unknown t)

Reached-Inv : {t : Turns} → Reached t → Inv t
Reached-Inv fresh = default-Inv
Reached-Inv (begun {t} key start r) = begin-Inv key start t (Reached-Inv r)
Reached-Inv (finished {t} ended r) = finish-Inv ended t (Reached-Inv r)
Reached-Inv (aborted {t} ended r) = abort-Inv ended t (Reached-Inv r)
Reached-Inv (lost {t} r) = unknown-Inv t (Reached-Inv r)

-- Whatever keys, starts and ends the operations begin, finish, abort and unknown are called with,
-- in whatever order, `validate` accepts the record that they lead to.
pub Reached-validate : (t : Turns) → Reached t → validate t ≡ true
Reached-validate t r = validate_of_WellFormed t (Reached-Inv r).formed
