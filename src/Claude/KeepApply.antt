-- ===== src/Claude/KeepApply.antt =====
-- `apply` of anton-runtime/src/claude.rs keeps the row in shape.
use herdr_observatory.Claude.{kind_system, kind_assistant, Record}
use herdr_observatory.Claude.Apply.{assistant, count_compaction, apply_own, is_relevant}
use herdr_observatory.Claude.Children.{children}
use herdr_observatory.Claude.Core.{Core}
use herdr_observatory.Claude.KeepChildren.{children-Core}
use herdr_observatory.Claude.KeepEnd.{ended_turn-Core, aborted_turn-Core}
use herdr_observatory.Claude.KeepLine.{StopOk, assistant-Core, iteration-Core}
use herdr_observatory.Claude.KeepQueue.{queue_turn-Core}
use herdr_observatory.Claude.KeepRole.{assistant_turn-Core, silent_turn-Core, ignored_turn-Core}
use herdr_observatory.Claude.KeepTrigger.{trigger_turn-Core}
use herdr_observatory.Claude.Losing.{ambiguous-Core, unclassified-Core}
use herdr_observatory.Claude.Roles.{
  Role, role_of, abort, trigger, ignored, unknown, end, silent, queue, assistant as answer,
}
use herdr_observatory.Claude.Row.{Row}
use herdr_observatory.Claude.Timing.{turn_as, turn}
use herdr_observatory.Common.{hex_id, max_safe}
use herdr_observatory.Prelude.{
  ==_iff, ◌==◌, ◌&&◌, Holds, ◌≤◌, arith, if_elim, ◌≡◌, if◌then◌else◌, true, false, ℕ, Bool,
}

-- What the classifier promises of a finished record: the identities that it keeps are hashes, and
-- an assistant line that is not bad has a stop.
pub record RecordOk (horizon : ℕ) (e : Record) : Type 0 where
  pub uuid_hex : Holds (λ key. hex_id key 24 ≡ true) e.uuid
  pub message_hex : Holds (λ id. hex_id id 16 ≡ true) e.message
  pub stop_known : e.bad ≡ false → e.kind ≡ kind_assistant → StopOk e
  pub stamp_le : Holds (λ s. s ≤ horizon) e.stamp

module _ {f : Bool} (horizon : ℕ) (safe : horizon ≤ max_safe) (e : Record)
    (ok : RecordOk horizon e) where
  turn_as-Core :
      (role : Role) (r : Row) → Core f horizon e.stamp r → Core f horizon e.stamp (turn_as role e r)
  turn_as-Core ignored r i = ignored_turn-Core e r i
  turn_as-Core unknown r i = ambiguous-Core r i
  turn_as-Core queue r i = queue_turn-Core e r i
  turn_as-Core silent r i = silent_turn-Core r i
  turn_as-Core answer r i = assistant_turn-Core e r i
  turn_as-Core trigger r i = trigger_turn-Core horizon safe e r ok.uuid_hex i
  turn_as-Core abort r i = aborted_turn-Core e r i
  turn_as-Core end r i = ended_turn-Core e r i

  turn-Core : (r : Row) → Core f horizon e.stamp r → Core f horizon e.stamp (turn e r)
  unfolding turn
  turn-Core r i = turn_as-Core (role_of e) r i

  count_compaction-Core :
      (r : Row) → Core f horizon e.stamp r → Core f horizon e.stamp (count_compaction e r)
  count_compaction-Core r i =
      if_elim (Core f horizon e.stamp) (e.kind == kind_system && e.subtype == 1)
        (λ _. record {
          turns_ok = i.turns_ok;
          usage_ok = record {
            input_le = i.usage_ok.input_le;
            output_le = i.usage_ok.output_le;
            read_le = i.usage_ok.read_le;
            creation_le = i.usage_ok.creation_le;
            context_le = i.usage_ok.context_le;
            last_ok = i.usage_ok.last_ok;
            last_flag = i.usage_ok.last_flag;
            seq_le = i.usage_ok.seq_le;
            group_ok = i.usage_ok.group_ok;
            ring_le = i.usage_ok.ring_le;
            ids_ok = i.usage_ok.ids_ok;
            compactions_le = ground arith;
          };
          times_ok = i.times_ok;
          state_ok = i.state_ok;
          foreign_is = i.foreign_is;
          covered = i.covered;
        })
        (λ _. i)

  read-Core :
      (r : Row)
      → (e.bad && is_relevant e) ≡ false
      → Core f horizon e.stamp r
      → Core f horizon e.stamp (
          let u = count_compaction e r in
          let v = if e.kind == kind_assistant then assistant e u else u in turn e (children e v))
  read-Core r good i =
      let u = count_compaction e r in
      let v = if e.kind == kind_assistant then assistant e u else u in
      let k : Core f horizon e.stamp v =
        if_elim (Core f horizon e.stamp) (e.kind == kind_assistant)
          (λ h.
            assistant-Core e u ok.message_hex
              (ok.stop_known (ground (arith, good, h)) ((==_iff e.kind kind_assistant).0 h))
              (count_compaction-Core r i))
          (λ _. count_compaction-Core r i) in
      turn-Core (children e v) (children-Core e v k)

  pub apply_own-Core : (r : Row) → Core f horizon e.stamp r → Core f horizon e.stamp (apply_own e r)
  unfolding apply_own
  apply_own-Core r i =
      if_elim (Core f horizon e.stamp) (e.kind == kind_assistant && e.synthetic)
        (λ _. turn-Core _ (iteration-Core e.compaction_iteration r i))
        λ _.
          if_elim (Core f horizon e.stamp) (e.bad && is_relevant e)
            (λ _. unclassified-Core e.kind r i) (λ good. read-Core r good i)
