-- ===== src/Claude/Children.antt =====
-- `child` and `children` of anton-runtime/src/claude.rs: the subagents that a transcript names.
use herdr_observatory.BTreeMap.{get, insert}
use herdr_observatory.Claude.{
  mode_notification, kind_attachment, lead_notification, kind_user, Text, Record,
}
use herdr_observatory.Claude.Row.{Row}
use herdr_observatory.Prelude.{
  true, Bool, ℕ, Option, false, String, length, ltb, is_some, ◌&&◌, leb, str_eq, ◌||◌, none, some,
  if◌then◌else◌, ◌==◌, not,
}

abbrev pub lose_valid : Row → Row
lose_valid r = record r { valid = false }

abbrev pub lose_clean : Row → Row
lose_clean r = record r { claude = record r.claude { clean = false } }

abbrev pub max : ℕ → ℕ → ℕ
max a b = if leb a b then b else a

abbrev pub is_known : String → Row → Bool
is_known key r = is_some (get key r.children)

abbrev pub child_at : String → String → Bool → Option ℕ → Row → Row
child_at key status allowed none r = lose_valid r
child_at key status allowed (some stamp) r =
    if allowed
    then record r { children = insert key status r.children; seq = max r.seq stamp }
    else lose_valid r

unfoldable pub child : String → String → Bool → Option ℕ → Row → Row
child key status launch stamp r =
    child_at key status (is_known key r || (launch && ltb (length r.children) 128)) stamp r

-- A synchronous result, or a launch.
abbrev pub child_of : Option String → Bool → Bool → Option ℕ → Row → Row
child_of none launch sync stamp r = r
child_of (some agent) launch sync stamp r =
    if launch
    then child agent "running" true stamp r
    else if sync
    then child agent "completed" true stamp r
    else r

abbrev pub resume : Option String → Bool → Option ℕ → Row → Row
resume none success stamp r = r
resume (some resumed) success stamp r =
    if success
    then (let u = lose_clean r in
        if is_known resumed u then child resumed "running" false stamp u else u)
    else r

abbrev pub is_notification : Record → Bool
is_notification e =
    (e.kind == kind_user && e.origin == 2)
    || (e.kind == kind_attachment && e.queued && e.mode == mode_notification)

abbrev pub task_of : Option Text → Option String
task_of none = none
task_of (some t) = if t.lead == lead_notification then t.task else none

abbrev pub text_status : Option Text → ℕ
text_status none = 0
text_status (some t) = t.status

abbrev pub status_name : ℕ → String
status_name status =
    if status == 1
    then "completed"
    else if status == 2
    then "errored"
    else if status == 3
    then "interrupted"
    else "unknown"

abbrev pub notify_task : Option String → ℕ → Option ℕ → Row → Row
notify_task none status stamp r = lose_valid r
notify_task (some task) status stamp r =
    let u = if str_eq (status_name status) "unknown" then lose_clean r else r in
    if is_known task u then child task (status_name status) false stamp u else u

abbrev pub notify : Record → Row → Row
notify e r =
    if is_notification e then notify_task (task_of e.text) (text_status e.text) e.stamp r else r

-- A result of a tool, and then a notification.
unfoldable pub children : Record → Row → Row
unfolding child
children e r =
    if e.kind == kind_user && e.tool
    then (let u = if e.spawn then lose_clean r else r in
        let sync = not e.launch && e.duration in
        if (e.agent_bad && (e.launch || sync)) || e.resumed_bad
        then lose_valid u
        else notify e
            (resume e.resumed e.success e.stamp (child_of e.agent e.launch sync e.stamp u)))
    else notify e r
