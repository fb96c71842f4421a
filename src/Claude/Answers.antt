-- ===== src/Claude/Answers.antt =====
-- What one assistant line adds to the usage in anton-runtime/src/claude.rs.
use herdr_observatory.Claude.{
  kind_system, max_safe, Record, Group, Counters, no_counters, kind_assistant,
}
use herdr_observatory.Claude.Apply.{
  whole, settle, is_relevant, cover, apply_own, apply, assistant, fresh_group, group_line, open_new,
  close_group_of, add64, close_group, count_open, zeros_for, all_present, is_complete, count_line,
}
use herdr_observatory.Claude.Children.{children, max}
use herdr_observatory.Claude.Core.{UsageOk}
use herdr_observatory.Claude.Cursor.{contains, open_usage, totals}
use herdr_observatory.Claude.Frame.{purse-turn, known-turn, Purse, purse}
use herdr_observatory.Claude.KeepApply.{RecordOk}
use herdr_observatory.Claude.Published.{usage-counted, Usage-of_Kept}
use herdr_observatory.Claude.Replayed.{settled, Replayed-Kept, Replayed}
use herdr_observatory.Claude.Row.{unclassified, Row}
use herdr_observatory.Claude.Timing.{turn, set_cursor}
use herdr_observatory.Claude.Totals.{counted}
use herdr_observatory.Claude.Usage.{usage, is_usage_known}
use herdr_observatory.Prelude.{
  &&-eq_true, subst, sym, ◌==◌, ◌∙◌, refl, inr, inl, Bool-cases, ap, ◌≤◌, ||-eq_false, ℕ, String,
  Option, Bool, true, false, none, some, ◌≡◌, ◌+◌, ◌&&◌, not, ◌||◌, str_eq, arith, if_elim,
  if◌then◌else◌, is_none,
}

-- A line that is an answer of this session and says what it used.
pub record Answer (e : Record) (id : String) (stamp : ℕ) : Type 0 where
  pub is_assistant : e.kind ≡ kind_assistant
  pub is_own : e.identity ≡ 1
  pub is_new : e.forked ≡ false
  pub is_real : e.synthetic ≡ false
  pub is_good : e.bad ≡ false
  pub has_id : e.message ≡ some id
  pub has_stamp : e.stamp ≡ some stamp

-- What the open group holds of an earlier line of the same answer.
abbrev pub replaced : String → Option Group → Counters
replaced id none = no_counters
replaced id (some g) = if str_eq g.id id then g.usage else no_counters

-- From `a` to `b` the numbers of `old` have made place for those of `own`.
pub record Counts (own old a b : Counters) : Type 0 where
  pub input : b.at0 + old.at0 ≡ a.at0 + own.at0
  pub output : b.at1 + old.at1 ≡ a.at1 + own.at1
  pub cache_read : b.at2 + old.at2 ≡ a.at2 + own.at2
  pub cache_creation : b.at3 + old.at3 ≡ a.at3 + own.at3

-- The totals of the closed groups alone.
abbrev closed_totals : Row → Counters
closed_totals r = record {
  at0 = r.claude.input;
  at1 = r.claude.output;
  at2 = r.claude.cache_read;
  at3 = r.claude.cache_creation;
}

-- With the line in the open group, the closed groups and the line are what is counted.
abbrev Adds : Record → Counters → Row → Type 0
Adds e a u =
    Counts (zeros_for e.usage) no_counters a (counted u.claude) × (all_present e.usage ≡ true)

abbrev Known : Row → Type 0
Known u = u.claude.totals_valid ≡ true

present_of : (a b c : Bool) → (not (a && b && c) ≡ false) → a ≡ true
present_of a b c h = ground (arith, h)

count_open-Adds :
    (e : Record) (stamp : ℕ) (g : Group) (r : Row)
    → Known (count_open e stamp g r)
    → Adds e (closed_totals r) (count_open e stamp g r)
unfolding count_open
count_open-Adds e stamp g r =
    let u =
      set_cursor
        (λ c. record c {
          usage_seq = max c.usage_seq stamp;
          compaction_iteration = c.compaction_iteration || e.compaction_iteration;
          open_group = some (count_line e g);
        })
        r in
    if_elim (λ (v : Row). Known v → Adds e (closed_totals r) v)
      (not (is_complete e) || is_none (totals u.claude)) (λ _ h. absurd (ground (arith, h)))
      (λ q h. (
        record {
          input = omega arith;
          output = omega arith;
          cache_read = omega arith;
          cache_creation = omega arith;
        },
        present_of _ _ _ ((||-eq_false (not (is_complete e)) (is_none (totals u.claude)) q).0),
      ))

-- Nothing has wrapped around.
abbrev Bounded : Row → Type 0
Bounded r =
    (r.claude.input + (open_usage r.claude.open_group).at0 ≤ max_safe)
    × (r.claude.output + (open_usage r.claude.open_group).at1 ≤ max_safe)
    × (r.claude.cache_read + (open_usage r.claude.open_group).at2 ≤ max_safe)
    × (r.claude.cache_creation + (open_usage r.claude.open_group).at3 ≤ max_safe)

-- A closed group stays counted.
abbrev Stays : Row → Row → Type 0
Stays r u =
    (counted r.claude).at0 ≡ u.claude.input
    × (counted r.claude).at1 ≡ u.claude.output
    × (counted r.claude).at2 ≡ u.claude.cache_read
    × (counted r.claude).at3 ≡ u.claude.cache_creation

no_wrap : (a b : ℕ) → a + b ≤ max_safe → a + b ≡ add64 a b
no_wrap a b h = omega (arith, h)

closed_of :
    (o : Option Group) (r : Row)
    → (a b c d : ℕ) → a + (open_usage o).at0 ≤ max_safe
    → b + (open_usage o).at1 ≤ max_safe
    → c + (open_usage o).at2 ≤ max_safe
    → d + (open_usage o).at3 ≤ max_safe
    → Stays
        (record r {
          claude = record r.claude {
            input = a;
            output = b;
            cache_read = c;
            cache_creation = d;
            open_group = o;
          };
        })
        (record r {
          claude = close_group_of o (record r.claude {
            input = a;
            output = b;
            cache_read = c;
            cache_creation = d;
            open_group = o;
          });
        })
closed_of none r a b c d p q s t = (omega arith, omega arith, omega arith, omega arith)
closed_of (some g) r a b c d p q s t = (
  no_wrap a g.usage.at0 p,
  no_wrap b g.usage.at1 q,
  no_wrap c g.usage.at2 s,
  no_wrap d g.usage.at3 t,
)

close_group-Stays : (r : Row) → UsageOk r.claude → Stays r (set_cursor (λ c. close_group c) r)
unfolding close_group
close_group-Stays r k =
    closed_of r.claude.open_group r r.claude.input r.claude.output r.claude.cache_read
      r.claude.cache_creation k.input_le k.output_le k.read_le k.creation_le

-- A line of another answer than the open one.
open_new-Adds :
    (e : Record) (stamp : ℕ) (id : String) (r : Row)
    → UsageOk r.claude
    → Known (open_new e stamp id r)
    → Adds e (counted r.claude) (open_new e stamp id r)
open_new-Adds e stamp id r k =
    let u = set_cursor (λ c. close_group c) r in
    let (a, b, c, d) = close_group-Stays r k in
    if_elim (λ (v : Row). Known v → Adds e (counted r.claude) v) (contains u.claude.closed id)
      (λ _ h. absurd (ground (arith, h)))
      (λ _ h.
        let (n, p) = count_open-Adds e stamp (fresh_group id) u h in
        (
          record {
            input = omega (arith, n.input, a);
            output = omega (arith, n.output, b);
            cache_read = omega (arith, n.cache_read, c);
            cache_creation = omega (arith, n.cache_creation, d);
          },
          p,
        ))

-- What a line does to what is counted, and that it says all that it used.
abbrev Replaces : Record → String → Row → Row → Type 0
Replaces e id r u =
    Counts (zeros_for e.usage) (replaced id r.claude.open_group) (counted r.claude)
      (counted u.claude)
    × (all_present e.usage ≡ true)

abbrev Moves : Record → String → Option Group → Row → Row → Type 0
Moves e id o r u =
    Counts (zeros_for e.usage) (replaced id o) (counted r.claude) (counted u.claude)
    × (all_present e.usage ≡ true)

Counts-open :
    (own : Counters) (g : Group) (r : Row) (b : Counters)
    → r.claude.open_group ≡ some g
    → Counts own no_counters (closed_totals r) b
    → Counts own g.usage (counted r.claude) b
Counts-open own g r b e n =
    let u : open_usage r.claude.open_group ≡ g.usage = ap (λ o. open_usage o) e in
    record {
      input = omega (arith, n.input, ap (λ c. c.at0) u);
      output = omega (arith, n.output, ap (λ c. c.at1) u);
      cache_read = omega (arith, n.cache_read, ap (λ c. c.at2) u);
      cache_creation = omega (arith, n.cache_creation, ap (λ c. c.at3) u);
    }

group_line-Moves :
    (e : Record) (stamp : ℕ) (id : String) (o : Option Group) (r : Row)
    → r.claude.open_group ≡ o
    → UsageOk r.claude
    → Known (group_line e stamp id o r)
    → Moves e id o r (group_line e stamp id o r)
group_line-Moves e stamp id none r q k = λ h. open_new-Adds e stamp id r k h
group_line-Moves e stamp id (some g) r q k = elim (Bool-cases (str_eq g.id id)) [
  | inl same ↦ rw same (λ h.
      let (n, p) = count_open-Adds e stamp g r h in
      (Counts-open (zeros_for e.usage) g r (counted (count_open e stamp g r).claude) q n, p))
  | inr other ↦ rw other (λ h. open_new-Adds e stamp id r k h)
]

assistant-Moves :
    (e : Record) (stamp : ℕ) (id : String) (r : Row)
    → e.message ≡ some id
    → e.stamp ≡ some stamp
    → UsageOk r.claude
    → Known (assistant e r)
    → Moves e id r.claude.open_group r (assistant e r)
unfolding assistant
assistant-Moves e stamp id r m s k =
    let u =
      set_cursor
        (λ c. record c { compaction_iteration = c.compaction_iteration || e.compaction_iteration })
        r in
    rw (m, s) (group_line-Moves e stamp id r.claude.open_group u refl k)

children_answer : (e : Record) (r : Row) → e.kind ≡ kind_assistant → children e r ≡ r
unfolding children
children_answer e r h = rw h refl

cover_foreign : (o : Option ℕ) (r : Row) → (cover o r).claude.foreign ≡ r.claude.foreign
cover_foreign none r = refl
cover_foreign (some stamp) r = refl

purse-cover : (o : Option ℕ) (r : Row) → purse (cover o r) ≡ purse r
purse-cover none r = refl
purse-cover (some stamp) r = refl

if_false : (b : Bool) (u v : Row) → b ≡ false → (if b then u else v) ≡ v
if_false b u v e = rw e refl

if_true : {b : Bool} (u v : Row) → b ≡ true → (if b then u else v) ≡ u
if_true u v e = rw e refl

-- An answer passes all the guards.
apply_own-Answer :
    (e : Record) (u : Row) (id : String) (stamp : ℕ)
    → Answer e id stamp
    → apply_own e u ≡ turn e (assistant e u)
unfolding apply_own
apply_own-Answer e u id stamp a =
    let answered : (if e.kind == kind_assistant then assistant e u else u) ≡ assistant e u =
      if_true (assistant e u) u (ground (arith, a.is_assistant)) in
    if_false (e.kind == kind_assistant && e.synthetic) _ _ (ground (arith, a.is_real))
    ∙ if_false (e.bad && is_relevant e) _ _ (ground (arith, a.is_good))
    ∙ ap (λ v. turn e (children e (if e.kind == kind_assistant then assistant e v else v)))
        (if_false (e.kind == kind_system && e.subtype == 1) _ u (ground (arith, a.is_assistant)))
    ∙ ap (λ v. turn e (children e v)) answered
    ∙ ap (λ v. turn e v) (children_answer e (assistant e u) a.is_assistant)

apply-Answer :
    (e : Record) (r : Row) (id : String) (stamp : ℕ)
    → Answer e id stamp
    → r.claude.foreign ≡ false
    → apply e r ≡ turn e (assistant e (cover e.stamp r))
unfolding apply
apply-Answer e r id stamp a h =
    if_false (cover e.stamp r).claude.foreign _ _ (cover_foreign e.stamp r ∙ h)
    ∙ if_false (e.identity == 2) _
        (if e.identity == 0
          then unclassified e.kind (cover e.stamp r)
          else if e.forked
          then cover e.stamp r
          else apply_own e (cover e.stamp r))
        (ground (arith, a.is_own))
    ∙ if_false (e.identity == 0) _
        (if e.forked then cover e.stamp r else apply_own e (cover e.stamp r))
        (ground (arith, a.is_own))
    ∙ if_false e.forked (cover e.stamp r) (apply_own e (cover e.stamp r)) a.is_new
    ∙ apply_own-Answer e (cover e.stamp r) id stamp a

abbrev counts_of : Purse → Counters
counts_of p =
    let u = open_usage p.open_group in
    record {
      at0 = p.input + u.at0;
      at1 = p.output + u.at1;
      at2 = p.cache_read + u.at2;
      at3 = p.cache_creation + u.at3;
    }

abbrev Spends : Record → String → Purse → Purse → Type 0
Spends e id p q =
    Counts (zeros_for e.usage) (replaced id p.open_group) (counts_of p) (counts_of q)
    × (all_present e.usage ≡ true)

cover-UsageOk : (o : Option ℕ) (r : Row) → UsageOk r.claude → UsageOk (cover o r).claude
cover-UsageOk none r k = k
cover-UsageOk (some stamp) r k = record {
  input_le = k.input_le;
  output_le = k.output_le;
  read_le = k.read_le;
  creation_le = k.creation_le;
  context_le = k.context_le;
  last_ok = k.last_ok;
  last_flag = k.last_flag;
  seq_le = ground (arith, k.seq_le);
  group_ok = k.group_ok;
  ring_le = k.ring_le;
  ids_ok = k.ids_ok;
  compactions_le = k.compactions_le;
}

apply-Spends :
    (e : Record) (r : Row) (id : String) (stamp : ℕ)
    → Answer e id stamp
    → r.claude.foreign ≡ false
    → UsageOk r.claude
    → Known (apply e r)
    → Spends e id (purse r) (purse (apply e r))
apply-Spends e r id stamp a f k h =
    let u = cover e.stamp r in
    let v = assistant e u in
    let same : apply e r ≡ turn e v = apply-Answer e r id stamp a f in
    let known_v : Known v =
      sym (ap (λ n. n.totals_valid) (known-turn e v))
      ∙ sym (ap (λ w. w.claude.totals_valid) same)
      ∙ h in
    let m = assistant-Moves e stamp id u a.has_id a.has_stamp (cover-UsageOk e.stamp r k) known_v in
    let p : Spends e id (purse r) (purse v) =
      subst (λ p. Spends e id p (purse v)) (purse-cover e.stamp r) m in
    subst (λ q. Spends e id (purse r) q) (sym (ap (λ w. purse w) same ∙ purse-turn e v)) p

-- What is counted in `u`, after the line `e` in `r`, and that it is what is published.
abbrev pub IsCounted : Record → String → Row → Row → Type 0
IsCounted e id r u =
    let t = counted u.claude in
    let s = usage u in
    Counts (zeros_for e.usage) (replaced id r.claude.open_group) (counted r.claude) t
    × (all_present e.usage ≡ true)
    × (s.total_input ≡ some (t.at0 + t.at2 + t.at3))
    × (s.total_uncached_input ≡ some t.at0)
    × (s.total_output ≡ some t.at1)
    × (s.total_cache_read ≡ some t.at2)
    × (s.total_cache_write ≡ some t.at3)

-- One answer of a session adds to the totals exactly the four numbers that it says, in place of those
-- of the earlier lines of the same answer, and what is published then are these totals: of a replayed
-- row that is not of a foreign file, and of an answer after which the usage and the totals are known.
pub usage-Answer :
    (horizon : ℕ) (e : Record) (r : Row) (id : String) (stamp : ℕ)
    → horizon ≤ max_safe
    → Replayed horizon r
    → RecordOk horizon e
    → Answer e id stamp
    → r.claude.foreign ≡ false
    → (is_usage_known (apply e r) && (apply e r).claude.totals_valid) ≡ true
    → IsCounted e id r (apply e r)
unfolding settle
usage-Answer horizon e r id stamp safe p k a f known =
    let (spent, all) =
      apply-Spends e r id stamp a f (Usage-of_Kept r (Replayed-Kept horizon r safe p))
        ((&&-eq_true (is_usage_known (apply e r)) _ known).1) in
    let (i, u, o, c, w, le) =
      usage-counted horizon (apply e r) safe (settled (whole e) k p) known in
    (spent, all, i, u, o, c, w)
