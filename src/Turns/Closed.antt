-- ===== src/Turns/Closed.antt =====
-- `finish` and `abort` of anton-runtime/src/turns.rs leave no interval open.
use herdr_observatory.Prelude.{
  ltb, true, ap, false, is_some, ℕ, Option, String, arith, if_elim, ◌≡◌, none, some, ◌||◌, refl,
}
use herdr_observatory.Turns.{
  max_safe, Turns, Row, store_total, end_open, end_from, end_turn, finish, abort, unknown,
}
use herdr_observatory.Turns.Preserve.{flags-Inv, Inv}

active-store_total :
    (key : String) (row : Row) (t : Turns) → (store_total key row t).active ≡ t.active
unfolding store_total
active-store_total key row t = ground arith

active-end_open :
    (key : String) (row : Row) (t : Turns) → is_some (end_open key row t).active ≡ false
unfolding end_open unknown
active-end_open key row t =
    if_elim (λ (u : Turns). is_some u.active ≡ false)
      (ltb row.ended row.begun || ltb max_safe row.ended) (λ _. refl)
      (λ _. ap is_some (
        active-store_total key row
          (record t { active = none; start = none; current_known = true })))

active-end_from :
    (a : Option String) (s : Option ℕ) (n : ℕ) (outcome : String) (t : Turns)
    → t.active ≡ a
    → t.start ≡ s
    → Inv t
    → is_some (end_from a s n outcome t).active ≡ false
unfolding end_from
active-end_from (some key) (some begun) n outcome t a s i =
    active-end_open key (record { begun = begun; ended = n; outcome = outcome }) t
active-end_from (some key) none n outcome t a s i = absurd (rw (a, s) at i.formed.interval)
active-end_from none _ n outcome t a s i = ground (arith, a)

active-end_turn :
    (n : ℕ) (outcome : String) (t : Turns) → Inv t → is_some (end_turn n outcome t).active ≡ false
unfolding end_turn
active-end_turn n outcome t i =
    active-end_from t.active t.start n outcome _ refl refl (flags-Inv t t.valid true (λ e. e) i)

pub active-finish : (t : Turns) → Inv t → (n : ℕ) → is_some (finish n t).active ≡ false
unfolding finish
active-finish t i n = active-end_turn n "completed" t i

pub active-abort : (t : Turns) → Inv t → (n : ℕ) → is_some (abort n t).active ≡ false
unfolding abort
active-abort t i n = active-end_turn n "aborted" t i
