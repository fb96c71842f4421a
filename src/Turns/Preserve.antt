-- ===== src/Turns/Preserve.antt =====
-- `begin`, `finish`, `abort` and `unknown` of anton-runtime/src/turns.rs keep a record that
-- `validate` accepts.
use herdr_observatory.BTreeMap.{get, insert}
use herdr_observatory.Common.{hex_id, max_safe}
use herdr_observatory.Prelude.{
  is_some_and, not, if_elim, ◌||◌, ◌==◌, lt_of_ltb, ℕ, ◌+◌, ◌≤◌, ◌<◌, String, ◌≡◌, refl, inl, inr,
  Bool, true, false, Option, none, some, ltb, length, Holds, arith, if◌then◌else◌, is_some,
}
use herdr_observatory.Turns.{
  default, Row, Turns, capacity, duration, add_safe, unknown, open_interval, begin, begin_closed,
  set_last, store_total, end_open, end_from, end_turn, finish, abort,
}
use herdr_observatory.Turns.Touch.{
  WellFormed-touch, WellFormed-insert, WellFormed-set_last, forget_last, WellFormed-forget_last,
  get-insert_self,
}
use herdr_observatory.Turns.Validate.{is_outcome}
use herdr_observatory.Turns.WellFormed.{RowOk, WellFormed}

-- What holds between two operations: `validate` does not ask for a positive start.
pub record Inv (t : Turns) : Type 0 where
  pub formed : WellFormed t
  pub start_pos : Holds (λ n. 0 < n) t.start

pub unknown-WellFormed : (t : Turns) → WellFormed t → WellFormed (unknown t)
unfolding unknown
unknown-WellFormed t = WellFormed-touch t false t.supported false none none (λ e. cc) tt tt tt tt

pub unknown-Inv : (t : Turns) → Inv t → Inv (unknown t)
unfolding unknown
unknown-Inv t h = record {
  formed = unfold unknown in unknown-WellFormed t h.formed;
  start_pos = tt;
}

-- The flags `supported` and `valid` alone.
pub flags-Inv :
    (t : Turns) (v s : Bool)
    → (v ≡ true → t.valid ≡ true)
    → Inv t
    → Inv (record t { valid = v; supported = s })
flags-Inv t v s keeps h = record {
  formed =
      WellFormed-touch t v s t.current_known t.active t.start keeps h.formed.interval
        h.formed.active_hex h.formed.start_safe h.formed.active_fresh h.formed;
  start_pos = h.start_pos;
}

begin_guard :
    (hex : Bool) (begun : ℕ)
    → (not hex || begun == 0 || ltb max_safe begun) ≡ false
    → (hex ≡ true) × (0 < begun) × (begun ≤ max_safe)
begin_guard hex begun h = ground arith

pub open_interval-Inv :
    (t : Turns) (key : String) (begun : ℕ)
    → hex_id key 24 ≡ true
    → 0 < begun
    → begun ≤ max_safe
    → get key t.finished ≡ none
    → Inv t
    → Inv (open_interval key begun t)
open_interval-Inv t key begun hex pos safe fresh h = record {
  formed =
      WellFormed-touch t t.valid t.supported true (some key) (some begun) (λ e. e) refl hex safe
        fresh h.formed;
  start_pos = pos;
}

module _ (key : String) (begun : ℕ) (t : Turns) (hex : hex_id key 24 ≡ true) (pos : 0 < begun)
    (safe : begun ≤ max_safe) (h : Inv t) where
  begin_found :
      (o : Option Row)
      → get key t.finished ≡ o
      → Inv (elim o [
        | some row ↦ if row.begun == begun then t else unknown t
        | none ↦
            if is_some_and t.last_end (λ ended. ltb begun ended)
            then unknown t
            else open_interval key begun t
      ])
  begin_found none e =
      if_elim Inv _ (λ _. unknown-Inv t h) (λ _. open_interval-Inv t key begun hex pos safe e h)
  begin_found (some row) e = if_elim Inv _ (λ _. h) (λ _. unknown-Inv t h)

  begin_closed-Inv : Inv (begin_closed key begun t)
  unfolding begin_closed
  begin_closed-Inv = begin_found (get key t.finished) refl

pub begin-Inv : (key : String) (begun : ℕ) (t : Turns) → Inv t → Inv (begin key begun t)
unfolding begin
begin-Inv key begun t h =
    let u : Turns = record t { supported = true } in
    let hu : Inv u = flags-Inv t t.valid true (λ e. e) h in
    if_elim Inv _ (λ _. unknown-Inv u hu)
      λ good.
        let (hex, pos, safe) = begin_guard (hex_id key 24) begun good in
        begin_closed-Inv key begun _ hex pos safe
          (if_elim Inv (is_some u.active) (λ _. unknown-Inv u hu) (λ _. hu))

pub add_safe_lem : (a b n : ℕ) → add_safe a b ≡ some n → (a + b ≡ n) × (a + b ≤ max_safe)
add_safe_lem a b n h = ground arith

-- A record whose interval has just been closed: the turn is stored, or the record is invalid.
module _ (key : String) (r : Row) (t : Turns) (idle : t.active ≡ none) (ok : RowOk key r)
    (missing : get key t.finished ≡ none) (w : WellFormed t) where
  stored_turn :
      length t.finished < capacity
      → t.total + duration r ≤ max_safe
      → WellFormed (
          set_last key r
            (record t { finished = insert key r t.finished; total = t.total + duration r }))
  stored_turn room safe = WellFormed-set_last _ key r (inl (get-insert_self key r t.finished)) ok (
      WellFormed-insert (forget_last t) key r missing ok room safe (rw idle tt) tt
        (WellFormed-forget_last t w))

  lost_turn : WellFormed (set_last key r (record t { valid = false }))
  lost_turn = WellFormed-set_last _ key r (inr (missing, refl)) ok (
      WellFormed-touch t false t.supported t.current_known t.active t.start (λ e. cc) w.interval
        w.active_hex w.start_safe w.active_fresh w)

  stored_total :
      (o : Option ℕ)
      → add_safe t.total (duration r) ≡ o
      → WellFormed (
          set_last key r (elim o [
            | some total ↦
                if ltb (length t.finished) capacity
                then record t { finished = insert key r t.finished; total = total }
                else record t { valid = false }
            | none ↦ record t { valid = false }
          ]))
  stored_total none e = lost_turn
  stored_total (some total) e =
      let (same, safe) = add_safe_lem t.total (duration r) total e in
      rw (← same) (
        if_elim (λ u. WellFormed (set_last key r u)) _
          (λ room. stored_turn (lt_of_ltb _ _ room) safe) (λ _. lost_turn))

  store_total-WellFormed : WellFormed (set_last key r (store_total key r t))
  unfolding store_total
  store_total-WellFormed = stored_total (add_safe t.total (duration r)) refl

start-store_total : (key : String) (r : Row) (t : Turns) → (store_total key r t).start ≡ t.start
unfolding store_total
start-store_total key r t = ground arith

-- A closed interval is a row.
RowOk-of_interval :
    (key : String) (r : Row) (t : Turns)
    → t.active ≡ some key
    → t.start ≡ some r.begun
    → is_outcome r.outcome ≡ true
    → (ltb r.ended r.begun || ltb max_safe r.ended) ≡ false
    → Inv t
    → RowOk key r
RowOk-of_interval key r t a s o good h = record {
  key_hex = rw a at h.formed.active_hex;
  begun_pos = rw s at h.start_pos;
  ordered = ground arith;
  ended_safe = ground arith;
  outcome_known = o;
}

end_open-Inv :
    (key : String) (r : Row) (t : Turns)
    → t.active ≡ some key
    → t.start ≡ some r.begun
    → is_outcome r.outcome ≡ true
    → Inv t
    → Inv (end_open key r t)
unfolding end_open
end_open-Inv key r t a s o h =
    if_elim Inv _ (λ _. unknown-Inv t h)
      λ good. record {
        formed =
            store_total-WellFormed key r
              (record t { active = none; start = none; current_known = true }) refl
              (RowOk-of_interval key r t a s o good h) (rw a at h.formed.active_fresh)
              (WellFormed-touch t t.valid t.supported true none none (λ e. e) tt tt tt tt h.formed);
        start_pos =
            rw
              (start-store_total key r
                (record t { active = none; start = none; current_known = true }))
              tt;
      }

end_from-Inv :
    (a : Option String) (s : Option ℕ) (ended : ℕ) (outcome : String) (t : Turns)
    → t.active ≡ a
    → t.start ≡ s
    → is_outcome outcome ≡ true
    → Inv t
    → Inv (end_from a s ended outcome t)
unfolding end_from
end_from-Inv (some key) (some begun) ended outcome t a s o h = end_open-Inv key _ t a s o h
end_from-Inv (some key) none ended outcome t a s o h = flags-Inv t false t.supported (λ e. cc) h
end_from-Inv none _ ended outcome t a s o h = flags-Inv t false t.supported (λ e. cc) h

end_turn-Inv :
    (ended : ℕ) (outcome : String) (t : Turns)
    → is_outcome outcome ≡ true
    → Inv t
    → Inv (end_turn ended outcome t)
unfolding end_turn
end_turn-Inv ended outcome t o h =
    end_from-Inv t.active t.start ended outcome _ refl refl o (flags-Inv t t.valid true (λ e. e) h)

pub finish-Inv : (ended : ℕ) (t : Turns) → Inv t → Inv (finish ended t)
unfolding finish
finish-Inv ended t = end_turn-Inv ended "completed" t refl

pub abort-Inv : (ended : ℕ) (t : Turns) → Inv t → Inv (abort ended t)
unfolding abort
abort-Inv ended t = end_turn-Inv ended "aborted" t refl

pub default-Inv : Inv default
default-Inv = record {
  formed = record {
    active_hex = tt;
    last_hex = tt;
    start_safe = tt;
    duration_safe = tt;
    end_safe = tt;
    total_safe = omega arith;
    last_outcome_known = tt;
    interval = tt;
    within_capacity = omega arith;
    rows = tt;
    total_is_sum = refl;
    active_fresh = tt;
    last_ok = (refl, refl, refl);
  };
  start_pos = tt;
}
