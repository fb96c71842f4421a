-- ===== src/Turns/Grows.antt =====
-- What the operations of anton-runtime/src/turns.rs never undo: a finished turn stays as it was
-- stored, and a record that has lost its validity does not get it back.
use herdr_observatory.BTreeMap.{get, insert, get-insert}
use herdr_observatory.Prelude.{
  if◌then◌else◌, is_some_and, ◌||◌, length, ◌&&◌, is_some, ltb, not, arith, if_elim, Bool, ◌∙◌, inr,
  eq_iff, sym, inl, str_eq, Bool-cases, ℕ, true, ◌≡◌, false, String, Option, refl, none, some,
}
use herdr_observatory.Turns.{duration, add_safe, capacity, Row, Turns, unknown}
use herdr_observatory.Turns.Observe.{
  row_eq, is_later, straddles, is_matched, add_total, settle_last, close_interval, completed,
  store_row, mark_gap,
}

pub record Grows (t u : Turns) : Type 0 where
  pub valid_before : u.valid ≡ true → t.valid ≡ true
  pub rows_stay :
      (key : String) (r : Row) → get key t.finished ≡ some r → get key u.finished ≡ some r

pub Grows-trans : (t u v : Turns) → Grows t u → Grows u v → Grows t v
Grows-trans t u v g h = record {
  valid_before = λ e. g.valid_before (h.valid_before e);
  rows_stay = λ key r e. h.rows_stay key r (g.rows_stay key r e);
}

-- An operation that leaves the rows alone.
pub still : (t u : Turns) → u.finished ≡ t.finished → (u.valid ≡ true → t.valid ≡ true) → Grows t u
still t u same keeps = record { valid_before = keeps; rows_stay = λ key r e. rw same e }

pub Grows-refl : (t : Turns) → Grows t t
Grows-refl t = still t t refl (λ e. e)

clash : (a b : Option Row) (r : Row) → a ≡ none → a ≡ some r → ⊥
clash a b r m e = cc

-- A row under a new key.
pub insert-Grows :
    (key : String) (row : Row) (n : ℕ) (t : Turns)
    → get key t.finished ≡ none
    → Grows t (record t { finished = insert key row t.finished; total = n })
insert-Grows key row n t missing = record {
  valid_before = λ e. e;
  rows_stay = λ k r e. elim (Bool-cases (str_eq key k)) [
    | inl same ↦
        let here : get k t.finished ≡ none = rw (sym ((eq_iff key k).0 same)) missing in
        absurd (clash (get k t.finished) none r here e)
    | inr other ↦ get-insert key k row t.finished ∙ rw other e
  ];
}

pub unknown-Grows : (t : Turns) → Grows t (unknown t)
unfolding unknown
unknown-Grows t = still t _ refl (λ e. cc)

pub invalid-Grows : (t : Turns) → Grows t (record t { valid = false })
invalid-Grows t = still t _ refl (λ e. cc)

mark_gap-Grows : (matched : Bool) (row : Row) (t : Turns) → Grows t (mark_gap matched row t)
unfolding mark_gap
mark_gap-Grows matched row t =
    if_elim (Grows t) (not matched || is_some_and t.last_end (λ last. ltb row.begun last))
      (λ _. invalid-Grows t) (λ _. Grows-refl t)

mark_gap-finished :
    (matched : Bool) (row : Row) (t : Turns) → (mark_gap matched row t).finished ≡ t.finished
unfolding mark_gap
mark_gap-finished matched row t = ground arith

add_total-Grows :
    (key : String) (row : Row) (o : Option ℕ) (t : Turns)
    → get key t.finished ≡ none
    → Grows t (elim o [
      | some total ↦ record t { finished = insert key row t.finished; total = total }
      | none ↦ record t { finished = insert key row t.finished; valid = false }
    ])
add_total-Grows key row (some total) t missing = insert-Grows key row total t missing
add_total-Grows key row none t missing =
    let u = record t { finished = insert key row t.finished } in
    Grows-trans t u _ (insert-Grows key row t.total t missing) (invalid-Grows u)

store_row-Grows :
    (key : String) (row : Row) (t : Turns)
    → get key t.finished ≡ none
    → Grows t (store_row key row t)
unfolding store_row add_total
store_row-Grows key row t missing =
    if_elim (Grows t) (ltb (length t.finished) capacity)
      (λ _. add_total-Grows key row (add_safe t.total (duration row)) t missing)
      (λ _. invalid-Grows t)

close_interval-Grows :
    (matched : Bool) (row : Row) (t : Turns) → Grows t (close_interval matched row t)
unfolding close_interval
close_interval-Grows matched row t =
    if_elim (Grows t) matched (λ _. still t _ refl (λ e. e))
      λ _.
        if_elim (Grows t) (is_some t.active && is_some_and t.start (λ begun. ltb begun row.ended))
          (λ _. still t _ refl (λ e. e)) (λ _. Grows-refl t)

settle_last-Grows :
    (matched : Bool) (key : String) (row : Row) (t : Turns)
    → Grows t (settle_last matched key row t)
unfolding settle_last
settle_last-Grows matched key row t =
    if_elim (Grows t) (straddles matched row t) (λ _. still t _ refl (λ e. e))
      λ _.
        if_elim (Grows t) (is_later matched row t) (λ _. still t _ refl (λ e. e))
          (λ _. Grows-refl t)

module _ (key : String) (row : Row) (t : Turns) where
  -- The four steps on a turn that is not stored yet.
  abbrev marked : Turns
  marked = mark_gap (is_matched key row.begun t) row t

  abbrev stored : Turns
  stored = store_row key row marked

  abbrev closed : Turns
  closed = close_interval (is_matched key row.begun t) row stored

  stored_anew :
      get key t.finished ≡ none → Grows t (settle_last (is_matched key row.begun t) key row closed)
  stored_anew missing =
      let m = is_matched key row.begun t in
      let gone : get key marked.finished ≡ none = rw (mark_gap-finished m row t) missing in
      Grows-trans t marked _ (mark_gap-Grows m row t) (
        Grows-trans marked stored _ (store_row-Grows key row marked gone) (
          Grows-trans stored closed _ (close_interval-Grows m row stored)
            (settle_last-Grows m key row closed)))

  completed_found :
      (o : Option Row)
      → get key t.finished ≡ o
      → Grows t (elim o [
        | some previous ↦ if row_eq previous row then t else unknown t
        | none ↦ settle_last (is_matched key row.begun t) key row closed
      ])
  completed_found (some previous) e =
      if_elim (Grows t) (row_eq previous row) (λ _. Grows-refl t) (λ _. unknown-Grows t)
  completed_found none e = stored_anew e

pub completed-Grows : (key : String) (row : Row) (t : Turns) → Grows t (completed key row t)
unfolding completed
completed-Grows key row t = completed_found key row t (get key t.finished) refl
