-- ===== src/Claude/Later.antt =====
-- Subagents and lost lines in anton-runtime/src/claude.rs: flags that are not set again.
use herdr_observatory.Claude.{
  kind_queue, kind_attachment, kind_user, kind_system, kind_assistant, Record,
}
use herdr_observatory.Claude.Children.{
  status_name, is_known, lose_clean, text_status, task_of, is_notification, resume, child_of,
  children, child, lose_valid, notify_task, notify,
}
use herdr_observatory.Claude.Frame.{known-unknown_time, Known, known, known-lose_turn}
use herdr_observatory.Claude.Row.{unknown_time, fail_totals, unclassified, Row, lose_turn, invalid}
use herdr_observatory.Prelude.{
  some, ℕ, String, Option, true, false, Bool, none, if◌then◌else◌, length, str_eq, not, ltb, ◌||◌,
  ◌==◌, if_elim, ◌∙◌, ap, ◌≤◌, ◌&&◌, ◌≡◌, arith,
}

-- `b` may come after `a`: no more is valid, a foreign file stays foreign, and no less is covered.
pub record Later (a b : Known) : Type 0 where
  pub valid : b.valid ≡ true → a.valid ≡ true
  pub compactions : b.compactions_valid ≡ true → a.compactions_valid ≡ true
  pub totals : b.totals_valid ≡ true → a.totals_valid ≡ true
  pub foreign : a.foreign ≡ true → b.foreign ≡ true
  pub coverage : a.coverage_seq ≤ b.coverage_seq

pub Later-refl : (a : Known) → Later a a
Later-refl a = record {
  valid = λ h. h;
  compactions = λ h. h;
  totals = λ h. h;
  foreign = λ h. h;
  coverage = omega arith;
}

pub Later-trans : {a b c : Known} → Later a b → Later b c → Later a c
Later-trans x y = record {
  valid = λ h. x.valid (y.valid h);
  compactions = λ h. x.compactions (y.compactions h);
  totals = λ h. x.totals (y.totals h);
  foreign = λ h. y.foreign (x.foreign h);
  coverage = omega (arith, x.coverage, y.coverage);
}

pub Later-of_eq : (a b : Known) → b ≡ a → Later a b
Later-of_eq a b e = rw e (Later-refl a)

abbrev pub From : Row → Row → Type 0
From r u = Later (known r) (known u)

pub invalid-Later : (r : Row) → From r (invalid r)
unfolding invalid
invalid-Later r =
    let u = record r { valid = false; compactions_valid = false } in
    let same : known (lose_turn u) ≡ known u = known-lose_turn u in
    record {
      valid = λ h. absurd (ground (arith, h, ap (λ k. k.valid) same));
      compactions = λ h. absurd (ground (arith, h, ap (λ k. k.compactions_valid) same));
      totals = λ h. cc;
      foreign = λ h. ap (λ k. k.foreign) same ∙ h;
      coverage = omega (arith, ap (λ k. k.coverage_seq) same);
    }

lose_valid-Later : (r : Row) → From r (lose_valid r)
lose_valid-Later r = record {
  valid = λ h. cc;
  compactions = λ h. h;
  totals = λ h. h;
  foreign = λ h. h;
  coverage = omega arith;
}

pub fail_totals-Later : (r : Row) → From r (fail_totals r)
fail_totals-Later r = record {
  valid = λ h. h;
  compactions = λ h. h;
  totals = λ h. cc;
  foreign = λ h. h;
  coverage = omega arith;
}

-- Turns that are lost cost nothing else.
lose_turn-Later : (r u : Row) → From r u → From r (lose_turn u)
lose_turn-Later r u h =
    Later-trans h (Later-of_eq (known u) (known (lose_turn u)) (known-lose_turn u))

pub unclassified-Later : (kind : ℕ) (r : Row) → From r (unclassified kind r)
unfolding unclassified
unclassified-Later kind r =
    if_elim (From r) (kind == kind_assistant)
      (λ _.
        lose_turn-Later r (record (fail_totals r) { compactions_valid = false })
          (record {
            valid = λ h. h;
            compactions = λ h. cc;
            totals = λ h. cc;
            foreign = λ h. h;
            coverage = omega arith;
          }))
      λ _.
        if_elim (From r) (kind == kind_system)
          (λ _.
            lose_turn-Later r (record r { compactions_valid = false })
              (record {
                valid = λ h. h;
                compactions = λ h. cc;
                totals = λ h. h;
                foreign = λ h. h;
                coverage = omega arith;
              }))
          λ _.
            if_elim (From r) (kind == kind_user || kind == kind_attachment)
              (λ _. lose_turn-Later r (lose_valid r) (lose_valid-Later r))
              λ _.
                if_elim (From r) (kind == kind_queue)
                  (λ _.
                    if_elim (From r) (r.claude.lost_idle || r.claude.pending_command)
                      (λ _. Later-refl (known r))
                      (λ _. Later-of_eq (known r) (known (unknown_time r)) (known-unknown_time r)))
                  (λ _. Later-refl (known r))

-- Subagents: at most `valid` is lost.
child-Later :
    (key status : String) (launch : Bool) (stamp : Option ℕ) (r : Row)
    → From r (child key status launch stamp r)
unfolding child
child-Later key status launch none r = lose_valid-Later r
child-Later key status launch (some stamp) r =
    if_elim (From r) (is_known key r || (launch && ltb (length r.children) 128))
      (λ _. Later-refl (known r)) (λ _. lose_valid-Later r)

child_of-Later :
    (agent : Option String) (launch sync : Bool) (stamp : Option ℕ) (r : Row)
    → From r (child_of agent launch sync stamp r)
child_of-Later none launch sync stamp r = Later-refl (known r)
child_of-Later (some agent) launch sync stamp r =
    if_elim (From r) launch (λ _. child-Later agent "running" true stamp r)
      λ _.
        if_elim (From r) sync (λ _. child-Later agent "completed" true stamp r)
          (λ _. Later-refl (known r))

resume-Later :
    (resumed : Option String) (success : Bool) (stamp : Option ℕ) (r : Row)
    → From r (resume resumed success stamp r)
resume-Later none success stamp r = Later-refl (known r)
resume-Later (some resumed) success stamp r =
    if_elim (From r) success
      (λ _.
        if_elim (From r) (is_known resumed (lose_clean r))
          (λ _. child-Later resumed "running" false stamp (lose_clean r))
          (λ _. Later-refl (known r)))
      (λ _. Later-refl (known r))

notify_task-Later :
    (task : Option String) (status : ℕ) (stamp : Option ℕ) (r : Row)
    → From r (notify_task task status stamp r)
notify_task-Later none status stamp r = lose_valid-Later r
notify_task-Later (some task) status stamp r =
    if_elim
      (λ (u : Row).
        From r (if is_known task u then child task (status_name status) false stamp u else u))
      (str_eq (status_name status) "unknown") (λ _. told (lose_clean r)) (λ _. told r)
  where
    told :
        (u : Row)
        → From u (if is_known task u then child task (status_name status) false stamp u else u)
    told u =
        if_elim (From u) (is_known task u)
          (λ _. child-Later task (status_name status) false stamp u) (λ _. Later-refl (known u))

notify-Later : (e : Record) (r : Row) → From r (notify e r)
notify-Later e r =
    if_elim (From r) (is_notification e)
      (λ _. notify_task-Later (task_of e.text) (text_status e.text) e.stamp r)
      (λ _. Later-refl (known r))

pub children-Later : (e : Record) (r : Row) → From r (children e r)
unfolding children
children-Later e r =
    let u = if e.spawn then lose_clean r else r in
    let sync = not e.launch && e.duration in
    let spawned : From r u =
      if_elim (From r) e.spawn (λ _. Later-refl (known r)) (λ _. Later-refl (known r)) in
    let launched = child_of e.agent e.launch sync e.stamp u in
    let resumed = resume e.resumed e.success e.stamp launched in
    if_elim (From r) (e.kind == kind_user && e.tool)
      (λ _.
        if_elim (From r) ((e.agent_bad && (e.launch || sync)) || e.resumed_bad)
          (λ _. Later-trans spawned (lose_valid-Later u))
          (λ _. Later-trans spawned (
            Later-trans (child_of-Later e.agent e.launch sync e.stamp u) (
              Later-trans (resume-Later e.resumed e.success e.stamp launched)
                (notify-Later e resumed)))))
      (λ _. notify-Later e r)
