-- ===== src/Turns/Bounded.antt =====
-- The invariant of `observe` of anton-runtime/src/turns.rs, under a clock that stays below
-- `bound`, and the steps that `observe` is made of.
use herdr_observatory.BTreeMap.{BTreeMap, get}
use herdr_observatory.Common.{hex_id, max_safe}
use herdr_observatory.Prelude.{
  ℕ, ◌+◌, ◌*◌, ◌≤◌, ◌<◌, String, ◌≡◌, Bool, true, false, Option, none, some, [], ◌∷◌, length, Holds,
  All, arith,
}
use herdr_observatory.Turns.{Row, Turns, capacity, add_safe, unknown}
use herdr_observatory.Turns.Touch.{touch, WellFormed-touch}
use herdr_observatory.Turns.WellFormed.{total_duration, IntervalOk, WellFormed}

abbrev pub EndsBy : ℕ → String × Row → Type 0
EndsBy bound (key, r) = r.ended ≤ bound

-- A last turn that is not stored did not fit.
abbrev pub NoRoom : BTreeMap Row → String → Type 0
NoRoom m key = get key m ≡ none → capacity ≤ length m

pub record Bounded (bound : ℕ) (t : Turns) : Type 0 where
  pub formed : WellFormed t
  pub start_pos : Holds (λ n. 0 < n) t.start
  pub ends : All (EndsBy bound) t.finished
  pub last_stored : Holds (NoRoom t.finished) t.last

-- What a change of the flags and of the open interval must give.
pub record Interval (t : Turns) (valid known : Bool) (active : Option String) (start : Option ℕ)
    : Type 0 where
  pub keeps : valid ≡ true → t.valid ≡ true
  pub interval : IntervalOk active start known
  pub hex : Holds (λ key. hex_id key 24 ≡ true) active
  pub safe : Holds (λ n. n ≤ max_safe) start
  pub pos : Holds (λ n. 0 < n) start
  pub fresh : Holds (λ key. get key t.finished ≡ none) active

pub total_duration-le :
    (bound : ℕ) (m : BTreeMap Row) → All (EndsBy bound) m → total_duration m ≤ length m * bound
total_duration-le bound [] h = omega arith
total_duration-le bound ((key, r) ∷ m) h = omega (arith, total_duration-le bound m h.1, h.0)

pub add_safe_fits : (a b : ℕ) → a + b ≤ max_safe → add_safe a b ≡ some (a + b)
add_safe_fits a b h = ground arith

pub closed_Interval :
    (t : Turns) → (v k : Bool) → (v ≡ true → t.valid ≡ true) → Interval t v k none none
closed_Interval t v k keeps = record {
  keeps = keeps;
  interval = tt;
  hex = tt;
  safe = tt;
  pos = tt;
  fresh = tt;
}

module _ {bound : ℕ} (t : Turns) where
  pub Bounded-touch :
      (v s k : Bool) (a : Option String) (b : Option ℕ)
      → Interval t v k a b
      → Bounded bound t
      → Bounded bound (touch v s k a b t)
  Bounded-touch v s k a b i h = record {
    formed = WellFormed-touch t v s k a b i.keeps i.interval i.hex i.safe i.fresh h.formed;
    start_pos = i.pos;
    ends = h.ends;
    last_stored = h.last_stored;
  }

  -- The interval as it is.
  pub same_Interval :
      (v : Bool)
      → (v ≡ true → t.valid ≡ true)
      → Bounded bound t
      → Interval t v t.current_known t.active t.start
  same_Interval v keeps h = record {
    keeps = keeps;
    interval = h.formed.interval;
    hex = h.formed.active_hex;
    safe = h.formed.start_safe;
    pos = h.start_pos;
    fresh = h.formed.active_fresh;
  }

  pub unknown-Bounded : Bounded bound t → Bounded bound (unknown t)
  unfolding unknown
  unknown-Bounded =
      Bounded-touch false t.supported false none none (closed_Interval t false false (λ e. cc))

  pub flags-Bounded :
      (v s : Bool)
      → (v ≡ true → t.valid ≡ true)
      → Bounded bound t
      → Bounded bound (record t { valid = v; supported = s })
  flags-Bounded v s keeps h =
      Bounded-touch v s t.current_known t.active t.start (same_Interval v keeps h) h
