-- ===== src/Envelope/Text.antt =====
-- A classifier of anton-runtime/src/envelope.rs inside a string: the bounds of its fields.
use herdr_observatory.Envelope.{Envelope, bump_index}
use herdr_observatory.Envelope.Invariant.{Ranges, IsBase, InString}
use herdr_observatory.Envelope.Names.{names, narrow, has_char, narrow-le, first_bit, first_bit-lt}
use herdr_observatory.Envelope.Strings.{character, key_of, other_names}
use herdr_observatory.Envelope.Valid.{takes_value}
use herdr_observatory.Prelude.{
  ℕ, ◌+◌, ◌-◌, ◌≤◌, ◌≡◌, ◌≢◌, Bool, true, false, not, List, [], ◌∷◌, ◌==◌, ltb, arith,
  if◌then◌else◌,
}
use native.Mathlib.Nat.{le_trans}

-- A classifier inside a string, in a container in this phase.
pub record Reading (phase : ℕ) (e : Envelope) : Type 0 where
  pub ranges : Ranges e
  pub in_string : e.lex ≡ 1
  pub begun : e.started ≡ 1
  pub going : e.done ≡ 0
  pub inside : InString phase e.key e.utf e.escape e.hex

Ranges-text :
    (e : Envelope) (mask index : ℕ)
    → Ranges e
    → mask ≤ 8191
    → index ≤ 32
    → Ranges (record e { mask = mask; index = index })
Ranges-text e mask index r m i = omega (arith, r)

pub bump_index-le : (i : ℕ) → bump_index i ≤ 32
bump_index-le i = ground arith

pub narrow-le_of :
    (keep : List ℕ → Bool) (e : Envelope) → Ranges e → narrow keep 0 names e.mask ≤ 8191
narrow-le_of keep e r = le_trans (narrow-le keep 0 names e.mask) r.mask_le

pub Reading-text :
    (phase mask index : ℕ) (e : Envelope)
    → mask ≤ 8191
    → index ≤ 32
    → Reading phase e
    → Reading phase (record e { mask = mask; index = index })
Reading-text phase mask index e m i r = record {
  ranges = Ranges-text e mask index r.ranges m i;
  in_string = r.in_string;
  begun = r.begun;
  going = r.going;
  inside = r.inside;
}

pub Reading-names :
    (phase kind payload item : ℕ) (e : Envelope)
    → kind ≤ 12
    → payload ≤ 12
    → item ≤ 12
    → Reading phase e
    → Reading phase (record e { kind = kind; payload_type = payload; item_type = item })
Reading-names phase kind payload item e k p i r = record {
  ranges = omega (arith, r.ranges);
  in_string = r.in_string;
  begun = r.begun;
  going = r.going;
  inside = r.inside;
}

pub character-Reading :
    (phase ch : ℕ) (e : Envelope) → Reading phase e → Reading phase (character ch e)
unfolding character
character-Reading phase ch e r =
    Reading-text phase _ _ e (narrow-le_of (has_char e.index ch) e r.ranges) (bump_index-le e.index)
      r

pub pred-le : (n : ℕ) → n ≤ 3 → n - 1 ≤ 3
pred-le n h = omega arith

pub busy_ne : (n : ℕ) → not (n == 0) ≡ true → n ≢ 0
busy_ne n h = ground arith

pub calm_eq : (n : ℕ) → not (n == 0) ≡ false → n ≡ 0
calm_eq n h = ground arith

pub ne_of : (n m : ℕ) → (n == m) ≡ false → n ≢ m
ne_of n m h = ground arith

pub no_overflow : (n : ℕ) → n ≤ 3 → ltb 3 n ≡ true → ⊥
no_overflow n h o = ground arith

pub next_digit : (n : ℕ) → n ≤ 3 → (n + 1 == 4) ≡ false → n + 1 ≤ 3
next_digit n h more = ground arith

pub zero_ne_two : (n : ℕ) → n ≡ 0 → n ≡ 2 → ⊥
zero_ne_two n a b = omega arith

pub lo_bound : (ch : ℕ) → (if ch == 224 then 160 else if ch == 240 then 144 else 128) ≤ 244
lo_bound ch = ground arith

pub hi_bound : (ch : ℕ) → (if ch == 237 then 159 else if ch == 244 then 143 else 191) ≤ 244
hi_bound ch = ground arith

pub key_of-le : (mask : ℕ) → key_of mask ≤ 3
key_of-le mask = ground arith

pub value_le : (mask : ℕ) → first_bit 1 (other_names names) mask ≤ 12
value_le mask = omega (arith, first_bit-lt 1 (other_names names) mask)

pub takes_value-le : (phase : ℕ) → takes_value phase ≡ true → 3 ≤ phase
takes_value-le phase h = ground arith

pub IsBase-two : (stack : List ℕ) (phase role : ℕ) → IsBase stack phase role → IsBase stack 2 role
IsBase-two [] phase role h = (h.0, omega arith)
IsBase-two (x ∷ stack) phase role h = tt

-- What an update of the UTF-8 and escape fields must give.
module _ {phase : ℕ} (e : Envelope) (r : Reading phase e) where
  pub Reading-utf :
      (utf lo hi : ℕ)
      → utf ≤ 3
      → lo ≤ 244
      → hi ≤ 244
      → e.escape ≡ 0
      → Reading phase (record e { utf = utf; lo = lo; hi = hi })
  Reading-utf utf lo hi u l h quiet = record {
    ranges = omega (arith, r.ranges);
    in_string = r.in_string;
    begun = r.begun;
    going = r.going;
    inside = record {
      key_place = r.inside.key_place;
      text_place = r.inside.text_place;
      utf_le = u;
      escape_le = r.inside.escape_le;
      hex_le = r.inside.hex_le;
      one_of = λ _. quiet;
      digits = r.inside.digits;
    };
  }

  pub Reading-escape :
      (escape hex : ℕ)
      → escape ≤ 2
      → hex ≤ 3
      → e.utf ≡ 0
      → (escape ≢ 2 → hex ≡ 0)
      → Reading phase (record e { escape = escape; hex = hex })
  Reading-escape escape hex u h quiet idle = record {
    ranges = omega (arith, r.ranges);
    in_string = r.in_string;
    begun = r.begun;
    going = r.going;
    inside = record {
      key_place = r.inside.key_place;
      text_place = r.inside.text_place;
      utf_le = r.inside.utf_le;
      escape_le = u;
      hex_le = h;
      one_of = λ busy. absurd (busy quiet);
      digits = idle;
    };
  }
