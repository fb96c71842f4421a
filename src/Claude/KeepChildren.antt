-- ===== src/Claude/KeepChildren.antt =====
-- What a record in anton-runtime/src/claude.rs says of subagents leaves the row in shape.
use herdr_observatory.BTreeMap.{insert}
use herdr_observatory.Claude.{kind_user, Record}
use herdr_observatory.Claude.Children.{
  text_status, max, task_of, status_name, is_notification, notify, child_of, resume, child_at,
  notify_task, lose_valid, is_known, lose_clean, children, child,
}
use herdr_observatory.Claude.Core.{Core}
use herdr_observatory.Claude.Losing.{flags-Core, lose_clean-Core}
use herdr_observatory.Claude.Row.{Row}
use herdr_observatory.Prelude.{
  length, ltb, ◌==◌, str_eq, ◌&&◌, if_elim, none, some, not, ◌||◌, if◌then◌else◌, true, false,
  Option, ℕ, Bool, String,
}

module _ {f : Bool} {horizon : ℕ} {st : Option ℕ} where
  lose_valid-Core : (r : Row) → Core f horizon st r → Core f horizon st (lose_valid r)
  lose_valid-Core r i = flags-Core r r.children r.seq false r.compactions_valid i

  child_at-Core :
      (key status : String) (allowed : Bool) (stamp : Option ℕ) (r : Row)
      → Core f horizon st r
      → Core f horizon st (child_at key status allowed stamp r)
  child_at-Core key status allowed none r i = lose_valid-Core r i
  child_at-Core key status allowed (some stamp) r i =
      if_elim (Core f horizon st) allowed
        (λ _.
          flags-Core r (insert key status r.children) (max r.seq stamp) r.valid r.compactions_valid
            i)
        (λ _. lose_valid-Core r i)

  child-Core :
      (key status : String) (launch : Bool) (stamp : Option ℕ) (r : Row)
      → Core f horizon st r
      → Core f horizon st (child key status launch stamp r)
  unfolding child
  child-Core key status launch stamp r i =
      child_at-Core key status (is_known key r || (launch && ltb (length r.children) 128)) stamp r i

  child_of-Core :
      (agent : Option String) (launch sync : Bool) (stamp : Option ℕ) (r : Row)
      → Core f horizon st r
      → Core f horizon st (child_of agent launch sync stamp r)
  child_of-Core none launch sync stamp r i = i
  child_of-Core (some agent) launch sync stamp r i =
      if_elim (Core f horizon st) launch (λ _. child-Core agent "running" true stamp r i)
        λ _.
          if_elim (Core f horizon st) sync (λ _. child-Core agent "completed" true stamp r i)
            (λ _. i)

  resume-Core :
      (resumed : Option String) (success : Bool) (stamp : Option ℕ) (r : Row)
      → Core f horizon st r
      → Core f horizon st (resume resumed success stamp r)
  resume-Core none success stamp r i = i
  resume-Core (some resumed) success stamp r i =
      let u = lose_clean r in
      if_elim (Core f horizon st) success
        (λ _.
          if_elim (Core f horizon st) (is_known resumed u)
            (λ _. child-Core resumed "running" false stamp u (lose_clean-Core r i))
            (λ _. lose_clean-Core r i))
        (λ _. i)

  notify_task-Core :
      (task : Option String) (status : ℕ) (stamp : Option ℕ) (r : Row)
      → Core f horizon st r
      → Core f horizon st (notify_task task status stamp r)
  notify_task-Core none status stamp r i = lose_valid-Core r i
  notify_task-Core (some task) status stamp r i =
      let u = if str_eq (status_name status) "unknown" then lose_clean r else r in
      let k : Core f horizon st u =
        if_elim (Core f horizon st) (str_eq (status_name status) "unknown")
          (λ _. lose_clean-Core r i) (λ _. i) in
      if_elim (Core f horizon st) (is_known task u)
        (λ _. child-Core task (status_name status) false stamp u k) (λ _. k)

  notify-Core : (e : Record) (r : Row) → Core f horizon st r → Core f horizon st (notify e r)
  notify-Core e r i =
      if_elim (Core f horizon st) (is_notification e)
        (λ _. notify_task-Core (task_of e.text) (text_status e.text) e.stamp r i) (λ _. i)

  pub children-Core :
      (e : Record) (r : Row) → Core f horizon st r → Core f horizon st (children e r)
  unfolding children
  children-Core e r i =
      let u = if e.spawn then lose_clean r else r in
      let sync = not e.launch && e.duration in
      let k : Core f horizon st u =
        if_elim (Core f horizon st) e.spawn (λ _. lose_clean-Core r i) (λ _. i) in
      if_elim (Core f horizon st) (e.kind == kind_user && e.tool)
        (λ _.
          if_elim (Core f horizon st) ((e.agent_bad && (e.launch || sync)) || e.resumed_bad)
            (λ _. lose_valid-Core u k)
            (λ _.
              let launched = child_of e.agent e.launch sync e.stamp u in
              notify-Core e (resume e.resumed e.success e.stamp launched) (
                resume-Core e.resumed e.success e.stamp launched
                  (child_of-Core e.agent e.launch sync e.stamp u k))))
        (λ _. notify-Core e r i)
