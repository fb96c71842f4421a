-- ===== src/Claude/Roles.antt =====
-- `Turn::of` of anton-runtime/src/claude.rs: the role of a record in the timing of turns.
use herdr_observatory.Claude.{
  mode_notification, kind_attachment, lead_other, kind_user, origin_other, kind_system,
  lead_notification, lead_command, kind_queue, kind_assistant, Text, Record,
}
use herdr_observatory.Prelude.{ℕ, Option, ltb, ◌&&◌, ◌||◌, leb, none, some, if◌then◌else◌, ◌==◌}

-- The source's `Turn`.
pub data Role : Type 0 where
  abort : Role
  trigger : Role
  ignored : Role
  unknown : Role
  assistant : Role
  end : Role
  silent : Role
  queue : Role

abbrev pub lead_of : Option Text → Option ℕ
lead_of none = none
lead_of (some t) = some t.lead

-- Rule 4: what the text's leading tag says.
abbrev pub lead_role : Option ℕ → Role
lead_role none = unknown
lead_role (some lead) =
    if lead == 0 || lead == lead_command || lead == lead_notification || lead == lead_other
    then trigger
    else ignored

unfoldable pub user_role : Record → Role
user_role r =
    if leb 1 r.origin && ltb r.origin origin_other
    then trigger
    else if r.origin == origin_other
    then unknown
    else if r.meta || r.tool || r.compact_summary
    then ignored
    else lead_role (lead_of r.text)

unfoldable pub role_of : Record → Role
unfolding user_role
role_of r =
    if r.interrupt || r.interrupted || r.aborted
    then abort
    else if r.kind == kind_assistant
    then assistant
    else if r.kind == kind_queue
    then queue
    else if r.kind == kind_system
    then (if r.subtype == 3 then end else if r.subtype == 4 then silent else ignored)
    else if r.kind == kind_user
    then user_role r
    else if r.kind == kind_attachment && r.queued && r.mode == mode_notification
    then trigger
    else ignored
