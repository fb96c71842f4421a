-- ===== src/Claude/Latched.antt =====
-- Flags of a row in anton-runtime/src/claude.rs that no line sets again.
use herdr_observatory.Claude.{kind_assistant, kind_system, Group, Record}
use herdr_observatory.Claude.Apply.{
  zero_group, fresh_group, is_relevant, is_complete, count_line, close_group_of, cover,
  count_compaction, assistant_line, open_new, group_line, assistant, apply, close_group, count_open,
  apply_own, settle, Outcome, rejected, uncertain, whole,
}
use herdr_observatory.Claude.Children.{children, max}
use herdr_observatory.Claude.Cursor.{totals, contains}
use herdr_observatory.Claude.Frame.{known-turn, known}
use herdr_observatory.Claude.Later.{
  fail_totals-Later, children-Later, Later-of_eq, Later-trans, invalid-Later, unclassified-Later,
  Later-refl, Later, From,
}
use herdr_observatory.Claude.Row.{unclassified, invalid, Row}
use herdr_observatory.Claude.Timing.{set_cursor, turn}
use herdr_observatory.Prelude.{
  is_none, ◌&&◌, str_eq, ◌≡◌, ◌==◌, if_elim, true, String, ℕ, Option, none, some, refl,
  if◌then◌else◌, not, ◌||◌, arith,
}

count_open-Later : (e : Record) (stamp : ℕ) (g : Group) (r : Row) → From r (count_open e stamp g r)
unfolding count_open
count_open-Later e stamp g r =
    let u =
      set_cursor
        (λ c. record c {
          usage_seq = max c.usage_seq stamp;
          compaction_iteration = c.compaction_iteration || e.compaction_iteration;
          open_group = some (count_line e g);
        })
        r in
    if_elim (From r) (not (is_complete e) || is_none (totals u.claude))
      (λ _.
        fail_totals-Later (set_cursor (λ c. record c { open_group = zero_group c.open_group }) u))
      (λ _. Later-refl (known r))

close_group_of-known :
    (o : Option Group) (r : Row) → known (set_cursor (λ c. close_group_of o c) r) ≡ known r
close_group_of-known none r = refl
close_group_of-known (some g) r = refl

known-close_group : (r : Row) → known (set_cursor (λ c. close_group c) r) ≡ known r
unfolding close_group
known-close_group r = close_group_of-known r.claude.open_group r

open_new-Later : (e : Record) (stamp : ℕ) (id : String) (r : Row) → From r (open_new e stamp id r)
open_new-Later e stamp id r =
    let u = set_cursor (λ c. close_group c) r in
    Later-trans (Later-of_eq (known r) (known u) (known-close_group r)) (
      if_elim (From u) (contains u.claude.closed id) (λ _. fail_totals-Later u)
        (λ _. count_open-Later e stamp (fresh_group id) u))

group_line-Later :
    (o : Option Group) (e : Record) (stamp : ℕ) (id : String) (r : Row)
    → From r (group_line e stamp id o r)
group_line-Later none e stamp id r = open_new-Later e stamp id r
group_line-Later (some g) e stamp id r =
    if_elim (From r) (str_eq g.id id) (λ _. count_open-Later e stamp g r)
      (λ _. open_new-Later e stamp id r)

assistant_line-Later :
    (message : Option String) (stamp : Option ℕ) (e : Record) (r : Row)
    → From r (assistant_line message stamp e r)
assistant_line-Later (some id) (some stamp) e r = group_line-Later r.claude.open_group e stamp id (
    set_cursor
      (λ c. record c { compaction_iteration = c.compaction_iteration || e.compaction_iteration }) r)
assistant_line-Later (some id) none e r = unclassified-Later kind_assistant r
assistant_line-Later none stamp e r = unclassified-Later kind_assistant r

assistant-Later : (e : Record) (r : Row) → From r (assistant e r)
unfolding assistant
assistant-Later e r = assistant_line-Later e.message e.stamp e r

turn-Later : (e : Record) (r u : Row) → From r u → From r (turn e u)
turn-Later e r u h = Later-trans h (Later-of_eq (known u) (known (turn e u)) (known-turn e u))

known-count_compaction : (e : Record) (r : Row) → known (count_compaction e r) ≡ known r
known-count_compaction e r =
    if_elim (λ (u : Row). known u ≡ known r) (e.kind == kind_system && e.subtype == 1) (λ _. refl)
      (λ _. refl)

read-Later :
    (e : Record) (r : Row)
    → (let u = count_compaction e r in
        let v = if e.kind == kind_assistant then assistant e u else u in
        From r (turn e (children e v)))
read-Later e r =
    let u = count_compaction e r in
    let v = if e.kind == kind_assistant then assistant e u else u in
    let counted : From r u = Later-of_eq (known r) (known u) (known-count_compaction e r) in
    let answered : From u v =
      if_elim (From u) (e.kind == kind_assistant) (λ _. assistant-Later e u)
        (λ _. Later-refl (known u)) in
    turn-Later e r (children e v) (Later-trans counted (Later-trans answered (children-Later e v)))

apply_own-Later : (e : Record) (r : Row) → From r (apply_own e r)
unfolding apply_own
apply_own-Later e r =
    let u =
      set_cursor
        (λ c. record c { compaction_iteration = c.compaction_iteration || e.compaction_iteration })
        r in
    if_elim (From r) (e.kind == kind_assistant && e.synthetic)
      (λ _. turn-Later e r u (Later-refl (known r)))
      λ _.
        if_elim (From r) (e.bad && is_relevant e) (λ _. unclassified-Later e.kind r)
          (λ _. read-Later e r)

cover-Later : (stamp : Option ℕ) (r : Row) → From r (cover stamp r)
cover-Later none r = Later-refl (known r)
cover-Later (some stamp) r = record {
  valid = λ h. h;
  compactions = λ h. h;
  totals = λ h. h;
  foreign = λ h. h;
  coverage = ground arith;
}

mark_foreign-Later : (r : Row) → From r (set_cursor (λ c. record c { foreign = true }) r)
mark_foreign-Later r = record {
  valid = λ h. h;
  compactions = λ h. h;
  totals = λ h. h;
  foreign = λ h. refl;
  coverage = omega arith;
}

apply_covered-Later :
    (e : Record) (u : Row)
    → From u (
        if u.claude.foreign
        then u
        else if e.identity == 2
        then invalid (set_cursor (λ c. record c { foreign = true }) u)
        else if e.identity == 0
        then unclassified e.kind u
        else if e.forked
        then u
        else apply_own e u)
apply_covered-Later e u =
    let away = set_cursor (λ c. record c { foreign = true }) u in
    if_elim (From u) u.claude.foreign (λ _. Later-refl (known u))
      λ _.
        if_elim (From u) (e.identity == 2)
          (λ _. Later-trans (mark_foreign-Later u) (invalid-Later away))
          λ _.
            if_elim (From u) (e.identity == 0) (λ _. unclassified-Later e.kind u)
              λ _. if_elim (From u) e.forked (λ _. Later-refl (known u)) (λ _. apply_own-Later e u)

apply-Later : (e : Record) (r : Row) → From r (apply e r)
unfolding apply
apply-Later e r = Later-trans (cover-Later e.stamp r) (apply_covered-Later e (cover e.stamp r))

-- One line never makes the subagents, the compactions or the totals valid where they are not. It
-- leaves a foreign file foreign, and the latest time that is covered does not go back.
pub settle-Later : (o : Outcome) (r : Row) → Later (known r) (known (settle o r))
unfolding settle
settle-Later rejected r = invalid-Later r
settle-Later (uncertain kind) r = unclassified-Later kind r
settle-Later (whole e) r = apply-Later e r
