-- ===== src/Claude/Finish.antt =====
-- `Texts`, `Iterations`, `select` and `Record::finish` of anton-runtime/src/claude.rs.
use herdr_observatory.Claude.{
  Record, Text, Counters, Four, kind_user, kind_attachment, kind_queue, kind_system, kind_assistant,
}
use herdr_observatory.Claude.Cursor.{sum_all}
use herdr_observatory.Prelude.{
  Option, ℕ, Bool, false, ltb, is_some_and, ◌&&◌, is_none, ◌==◌, filter, none, some, not, ◌||◌,
  if◌then◌else◌,
}

pub record Texts : Type 0 where
  pub first : Option Text
  pub interrupt : Bool

-- A further text after the first one makes its task unreadable.
abbrev pub fold_first : Option Text → Text → Option Text
fold_first none t = some t
fold_first (some first) t = some (record first { task = none })

abbrev pub fold : Texts → Text → Texts
fold texts t = record {
  first = fold_first texts.first t;
  interrupt = texts.interrupt || t.interrupt;
}

abbrev pub no_usage : Four (Option ℕ)
no_usage = record { at0 = none; at1 = none; at2 = none; at3 = none }

pub record Iterations : Type 0 where
  pub shape : ℕ
  pub compaction : Bool
  pub candidate : Option (ℕ × Four (Option ℕ))
  pub kind : ℕ
  pub counters : Four (Option ℕ)

-- The element that has been read joins the selection.
abbrev pub push : Iterations → Iterations
push i = record i {
  compaction = i.compaction || i.kind == 4;
  candidate = if i.kind == 3 || i.kind == 4 then i.candidate else some (i.kind, i.counters);
  kind = 0;
  counters = no_usage;
}

abbrev pub all_of : Four (Option ℕ) → Option Counters
all_of u = elim u.at0 [
  | none ↦ none
  | some a ↦ elim u.at1 [
    | none ↦ none
    | some b ↦ elim u.at2 [
      | none ↦ none
      | some c ↦ elim u.at3 [
        | none ↦ none
        | some d ↦ some (record { at0 = a; at1 = b; at2 = c; at3 = d })
      ]
    ]
  ]
]

unfoldable pub select : ℕ → Four (Option ℕ) → Option Counters
select kind counters =
    filter (λ u. (kind == 1 || kind == 2) && is_some_and (sum_all u) (λ total. ltb 0 total))
      (all_of counters)

abbrev pub selected_of : Option (ℕ × Four (Option ℕ)) → Option Counters
selected_of none = none
selected_of (some (kind, counters)) = select kind counters

-- What only a record of the user has.
abbrev pub clear_user : Record → Record
clear_user e = record e {
  origin = 0;
  tool = false;
  launch = false;
  spawn = false;
  agent = none;
  agent_bad = false;
  resumed = none;
  resumed_bad = false;
  success = false;
  duration = false;
}

abbrev pub clear_attachment : Record → Record
clear_attachment e = record e { queued = false; mode = 0 }

abbrev pub clear_duration : Record → Record
clear_duration e = record e { elapsed = none; background = false }

-- What only an assistant line has.
abbrev pub clear_assistant : Record → Record
clear_assistant e = record e {
  message = none;
  synthetic = false;
  model = none;
  stop = 0;
  usage = no_usage;
  aborted = false;
}

abbrev pub clear_others : Record → Record
clear_others e =
    let a = if e.kind == kind_user then e else clear_user e in
    let b = if a.kind == kind_attachment then a else clear_attachment a in
    let c = if b.kind == kind_queue then b else record b { operation = 0 } in
    if c.kind == kind_system && c.subtype == 3 then c else clear_duration c

abbrev pub text_for : Record → Texts → Texts → Option Text
text_for e content prompt =
    if e.kind == kind_user
    then content.first
    else if e.kind == kind_attachment && e.queued
    then prompt.first
    else none

-- What is derived of an assistant line.
abbrev pub derive : Bool → Iterations → Record → Record
derive message_object i e = record e {
  compaction_iteration = i.compaction;
  selected = selected_of i.candidate;
  bad = not message_object || is_none e.message || e.stop == 0 || is_none e.stamp || i.shape == 2;
}

unfoldable pub finish : Bool → Iterations → Texts → Texts → Record → Record
unfolding select
finish message_object i content prompt e =
    let u = clear_others e in
    let v = record u {
      text = text_for u content prompt;
      interrupt = u.kind == kind_user && content.interrupt;
    } in
    if v.kind == kind_assistant then derive message_object i v else clear_assistant v
