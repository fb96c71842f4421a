-- ===== src/Claude/Elapsed.antt =====
-- What holds of a row of anton-runtime/src/claude.rs at the time of a pass holds at a later time.
use herdr_observatory.Claude.{Record}
use herdr_observatory.Claude.Apply.{Outcome, rejected, uncertain, whole}
use herdr_observatory.Claude.Classifier.{Context, Classifier}
use herdr_observatory.Claude.Classifier.Filled.{Fills}
use herdr_observatory.Claude.Finished.{FillingOk}
use herdr_observatory.Claude.Passes.{ReaderOk}
use herdr_observatory.Claude.Reader.{Reader}
use herdr_observatory.Claude.Replayed.{Replayed, fresh, settled, OutcomeOk}
use herdr_observatory.Claude.Row.{Row}
use herdr_observatory.Prelude.{ℕ, Option, none, some, ◌≤◌, Holds, arith}

-- A context at another time.
abbrev pub at_time : ℕ → Context → Context
at_time horizon x = record x { horizon = horizon }

module _ {before horizon : ℕ} (later : before ≤ horizon) where
  stamp_later : (o : Option ℕ) → Holds (λ s. s ≤ before) o → Holds (λ s. s ≤ horizon) o
  stamp_later none h = tt
  stamp_later (some s) h = omega (arith, h)

  OutcomeOk-later : (o : Outcome) → OutcomeOk before o → OutcomeOk horizon o
  OutcomeOk-later rejected k = tt
  OutcomeOk-later (uncertain kind) k = tt
  OutcomeOk-later (whole e) k = record {
    uuid_hex = k.uuid_hex;
    message_hex = k.message_hex;
    stop_known = k.stop_known;
    stamp_le = stamp_later e.stamp k.stamp_le;
  }

  Replayed-later : (r : Row) → Replayed before r → Replayed horizon r
  Replayed-later _ fresh = fresh
  Replayed-later _ (settled {r = r} o k p) = settled o (OutcomeOk-later o k) (Replayed-later r p)

  FillingOk-later : (e : Record) → FillingOk before e → FillingOk horizon e
  FillingOk-later e f = record {
    uuid_hex = f.uuid_hex;
    message_hex = f.message_hex;
    stop_le = f.stop_le;
    stamp_le = stamp_later e.stamp f.stamp_le;
  }

  Fills-later :
      (x : Context) (o : Option Classifier)
      → Holds (Fills (at_time before x)) o
      → Holds (Fills (at_time horizon x)) o
  Fills-later x none f = tt
  Fills-later x (some c) f = FillingOk-later c.entry f

  pub ReaderOk-later :
      (x : Context) (r : Reader) → ReaderOk (at_time before x) r → ReaderOk (at_time horizon x) r
  ReaderOk-later x r (p, f) = (Replayed-later r.row p, Fills-later x r.classifier f)
