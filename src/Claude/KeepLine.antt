-- ===== src/Claude/KeepLine.antt =====
-- An assistant line in anton-runtime/src/claude.rs keeps the row in shape.
use herdr_observatory.Claude.{
  kind_assistant, Counters, no_counters, ClaudeCursor, Group, Record, Response,
}
use herdr_observatory.Claude.Apply.{
  assistant_line, fresh_group, group_line, open_new, assistant, close_group, count_line, count_open,
  is_complete, response_of,
}
use herdr_observatory.Claude.Children.{max}
use herdr_observatory.Claude.Core.{Core}
use herdr_observatory.Claude.Cursor.{totals, group_valid, contains, response_valid}
use herdr_observatory.Claude.KeepUsage.{group_facts, close_group-Usage}
use herdr_observatory.Claude.Losing.{fail_totals-Core, unclassified-Core}
use herdr_observatory.Claude.Row.{fail_totals, Row}
use herdr_observatory.Claude.Timing.{set_cursor}
use herdr_observatory.Claude.Totals.{Fits-totals, Fits}
use herdr_observatory.Common.{hex_id}
use herdr_observatory.Prelude.{
  str_eq, is_some, Holds, Option-cases, ◌&&◌, filter, is_none, is_none_or, ◌≤◌, ◌==◌, arith,
  if_elim, ◌≡◌, none, some, not, ◌||◌, refl, if◌then◌else◌, inl, inr, true, false, Option, ℕ, Bool,
  String, List,
}

-- What an assistant line that is not bad says of its stop.
abbrev pub StopOk : Record → Type 0
StopOk e = (1 ≤ e.stop) × (e.stop ≤ 4)

response_kept :
    (complete tainted : Bool) (o : Option Response)
    → (complete ≡ true → is_none_or o (λ r. response_valid r) ≡ true)
    → (is_none_or (filter (λ r. complete && not tainted) o) (λ r. response_valid r) ≡ true)
      × ((not tainted || is_none (filter (λ r. complete && not tainted) o)) ≡ true)
response_kept true false none h = (refl, refl)
response_kept true false (some r) h = (h refl, refl)
response_kept true true none h = (refl, refl)
response_kept true true (some r) h = (refl, refl)
response_kept false false none h = (refl, refl)
response_kept false false (some r) h = (refl, refl)
response_kept false true none h = (refl, refl)
response_kept false true (some r) h = (refl, refl)

no_response :
    (e : Record) (b : Bool)
    → (not (e.stop == 1) || is_none (filter (λ r. b) (response_of e))) ≡ true
no_response e b = ground arith

count_line-valid :
    (e : Record) (g : Group) (closed : List String)
    → StopOk e
    → hex_id g.id 16 ≡ true
    → contains closed g.id ≡ false
    → group_valid closed (count_line e g) ≡ true
count_line-valid e g closed stop hex new =
    let (good, untainted) =
      response_kept (is_complete e) g.tainted (response_of e) (λ h. ground (arith, h)) in
    ground (arith, stop, hex, new, good, untainted, no_response e (is_complete e && not g.tainted))

coverage-close_group : (c : ClaudeCursor) → (close_group c).coverage_seq ≡ c.coverage_seq
unfolding close_group
coverage-close_group c = ground arith

known_totals : (b : Bool) (o : Option Counters) → (b || is_none o) ≡ false → is_some o ≡ true
known_totals true o h = cc
known_totals false none h = cc
known_totals false (some u) h = refl

module _ {f : Bool} {horizon : ℕ} {st : Option ℕ} where
  counted-Core :
      (e : Record) (stamp : ℕ) (g : Group) (r : Row)
      → stamp ≤ r.claude.coverage_seq
      → group_valid r.claude.closed g ≡ true
      → (let c = record r.claude {
        usage_seq = max r.claude.usage_seq stamp;
        compaction_iteration = r.claude.compaction_iteration || e.compaction_iteration;
        open_group = some g;
      } in
          Fits c → Core f horizon st r → Core f horizon st (record r { claude = c }))
  counted-Core e stamp g r seen ok (a, b, d, k, all) i = record {
    turns_ok = i.turns_ok;
    usage_ok = record {
      input_le = a;
      output_le = b;
      read_le = d;
      creation_le = k;
      context_le = all;
      last_ok = i.usage_ok.last_ok;
      last_flag = i.usage_ok.last_flag;
      seq_le = ground (arith, i.usage_ok.seq_le, seen);
      group_ok = ok;
      ring_le = i.usage_ok.ring_le;
      ids_ok = i.usage_ok.ids_ok;
      compactions_le = i.usage_ok.compactions_le;
    };
    times_ok = i.times_ok;
    state_ok = i.state_ok;
    foreign_is = i.foreign_is;
    covered = i.covered;
  }

  -- A group that counts nothing fits.
  zero-Fits :
      (r : Row) (g : Group) (seq : ℕ) (b : Bool)
      → Core f horizon st r
      → Fits (record r.claude {
        usage_seq = seq;
        compaction_iteration = b;
        open_group = some (record g { usage = no_counters });
      })
  zero-Fits r g seq b i = (
    omega (arith, i.usage_ok.input_le),
    omega (arith, i.usage_ok.output_le),
    omega (arith, i.usage_ok.read_le),
    omega (arith, i.usage_ok.creation_le),
    omega (arith, i.usage_ok.context_le),
  )

  count_open-Core :
      (e : Record) (stamp : ℕ) (g : Group) (r : Row)
      → stamp ≤ r.claude.coverage_seq
      → StopOk e
      → hex_id g.id 16 ≡ true
      → contains r.claude.closed g.id ≡ false
      → Core f horizon st r
      → Core f horizon st (count_open e stamp g r)
  unfolding count_open
  count_open-Core e stamp g r seen stop hex new i =
      let line = count_line e g in
      let seq = max r.claude.usage_seq stamp in
      let b = r.claude.compaction_iteration || e.compaction_iteration in
      let u = record r.claude {
        usage_seq = seq;
        compaction_iteration = b;
        open_group = some line;
      } in
      let ok = count_line-valid e g r.claude.closed stop hex new in
      let zeroed = record line { usage = no_counters } in
      if_elim (Core f horizon st) (not (is_complete e) || is_none (totals u))
        (λ _.
          fail_totals-Core _ (counted-Core e stamp zeroed r seen ok (zero-Fits r line seq b i) i))
        (λ h.
          counted-Core e stamp line r seen ok
            (Fits-totals u (known_totals (not (is_complete e)) (totals u) h)) i)

  closed-Core :
      (r : Row) → Core f horizon st r → Core f horizon st (set_cursor (λ c. close_group c) r)
  unfolding close_group
  closed-Core r i = elim (Option-cases r.claude.open_group) [
    | inl e ↦ record {
      turns_ok = i.turns_ok;
      usage_ok = unfold close_group in close_group-Usage r.claude i.usage_ok;
      times_ok = rw e i.times_ok;
      state_ok = rw e i.state_ok;
      foreign_is = rw e i.foreign_is;
      covered = rw e i.covered;
    }
    | inr (g, e) ↦ record {
      turns_ok = i.turns_ok;
      usage_ok = unfold close_group in close_group-Usage r.claude i.usage_ok;
      times_ok = rw e i.times_ok;
      state_ok = rw e i.state_ok;
      foreign_is = rw e i.foreign_is;
      covered = rw e i.covered;
    }
  ]

  fresh-Core :
      (e : Record) (stamp : ℕ) (id : String) (r : Row)
      → stamp ≤ r.claude.coverage_seq
      → StopOk e
      → hex_id id 16 ≡ true
      → Core f horizon st r
      → Core f horizon st (
          if contains r.claude.closed id
          then fail_totals r
          else count_open e stamp (fresh_group id) r)
  fresh-Core e stamp id r seen stop hex i =
      if_elim (Core f horizon st) (contains r.claude.closed id) (λ _. fail_totals-Core r i)
        (λ new. count_open-Core e stamp (fresh_group id) r seen stop hex new i)

  open_new-Core :
      (e : Record) (stamp : ℕ) (id : String) (r : Row)
      → stamp ≤ r.claude.coverage_seq
      → StopOk e
      → hex_id id 16 ≡ true
      → Core f horizon st r
      → Core f horizon st (open_new e stamp id r)
  open_new-Core e stamp id r seen stop hex i =
      let u = set_cursor (λ c. close_group c) r in
      fresh-Core e stamp id u (rw (coverage-close_group r.claude) seen) stop hex (closed-Core r i)

  group_line-Core :
      (o : Option Group) (e : Record) (stamp : ℕ) (id : String) (r : Row)
      → r.claude.open_group ≡ o
      → stamp ≤ r.claude.coverage_seq
      → StopOk e
      → hex_id id 16 ≡ true
      → Core f horizon st r
      → Core f horizon st (group_line e stamp id o r)
  group_line-Core none e stamp id r o seen stop hex i = open_new-Core e stamp id r seen stop hex i
  group_line-Core (some g) e stamp id r o seen stop hex i =
      let (same, _, new) = group_facts r.claude.closed g (rw o at i.usage_ok.group_ok) in
      if_elim (Core f horizon st) (str_eq g.id id)
        (λ _. count_open-Core e stamp g r seen stop same new i)
        (λ _. open_new-Core e stamp id r seen stop hex i)

  -- A compaction iteration leaves the rest alone.
  pub iteration-Core :
      (b : Bool) (r : Row)
      → Core f horizon st r
      → Core f horizon st
          (set_cursor (λ c. record c { compaction_iteration = c.compaction_iteration || b }) r)
  iteration-Core b r i = record {
    turns_ok = i.turns_ok;
    usage_ok = i.usage_ok;
    times_ok = i.times_ok;
    state_ok = i.state_ok;
    foreign_is = i.foreign_is;
    covered = i.covered;
  }

module _ {f : Bool} {horizon : ℕ} where
  assistant_line-Core :
      (message : Option String) (stamp : Option ℕ) (e : Record) (r : Row)
      → Holds (λ id. hex_id id 16 ≡ true) message
      → StopOk e
      → Core f horizon stamp r
      → Core f horizon stamp (assistant_line message stamp e r)
  assistant_line-Core (some id) (some stamp) e r hex stop i =
      let u =
        set_cursor
          (λ c. record c {
            compaction_iteration = c.compaction_iteration || e.compaction_iteration;
          })
          r in
      group_line-Core u.claude.open_group e stamp id u refl i.covered stop hex
        (iteration-Core e.compaction_iteration r i)
  assistant_line-Core (some id) none e r hex stop i = unclassified-Core kind_assistant r i
  assistant_line-Core none stamp e r hex stop i = unclassified-Core kind_assistant r i

  pub assistant-Core :
      (e : Record) (r : Row)
      → Holds (λ id. hex_id id 16 ≡ true) e.message
      → StopOk e
      → Core f horizon e.stamp r
      → Core f horizon e.stamp (assistant e r)
  unfolding assistant
  assistant-Core e r hex stop i = assistant_line-Core e.message e.stamp e r hex stop i
