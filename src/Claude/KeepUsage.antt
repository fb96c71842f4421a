-- ===== src/Claude/KeepUsage.antt =====
-- The usage bookkeeping of anton-runtime/src/claude.rs keeps the row in shape.
use herdr_observatory.Claude.{ClaudeCursor, Group, Response}
use herdr_observatory.Claude.Apply.{
  close_group_of, answer_of, close_group, add64, drop_first, push_closed,
}
use herdr_observatory.Claude.Core.{UsageOk}
use herdr_observatory.Claude.Cursor.{response_valid, group_valid, contains, ids_valid}
use herdr_observatory.Common.{hex_id, max_safe}
use herdr_observatory.Prelude.{
  eq_iff, sym, ◌∙◌, is_some, is_none_or, Bool-cases, is_none, length-append, ltb, str_eq, ◌++◌, suc,
  ◌≤◌, ◌+◌, length, arith, if_elim, ◌≡◌, none, some, [], ◌∷◌, ◌||◌, refl, inl, inr, true, false,
  Option, ℕ, Bool, String, List,
}

-- A sum that fits does not wrap around.
add64_lem : (a b : ℕ) → a + b ≤ max_safe → add64 a b ≡ a + b
add64_lem a b h = omega (arith, h)

str_eq-sym : (a b : String) → str_eq a b ≡ str_eq b a
str_eq-sym a b = elim (Bool-cases (str_eq a b)) [
  | inl h ↦ h ∙ sym ((eq_iff b a).1 (sym ((eq_iff a b).0 h)))
  | inr h ↦ elim (Bool-cases (str_eq b a)) [
    | inl g ↦ (eq_iff a b).1 (sym ((eq_iff b a).0 g)) ∙ sym g
    | inr g ↦ h ∙ sym g
  ]
]

contains-append :
    (ids : List String) (id x : String)
    → contains (ids ++ (id ∷ [])) x ≡ (contains ids x || str_eq id x)
contains-append [] id x = ground arith
contains-append (y ∷ ys) id x = ground (arith, contains-append ys id x)

ids_valid-append :
    (ids : List String) (id : String)
    → ids_valid ids ≡ true
    → hex_id id 16 ≡ true
    → contains ids id ≡ false
    → ids_valid (ids ++ (id ∷ [])) ≡ true
ids_valid-append [] id ok hex new = ground (arith, hex)
ids_valid-append (x ∷ xs) id ok hex new = ground (
  arith,
  ok,
  new,
  contains-append xs id x,
  str_eq-sym x id,
  ids_valid-append xs id (ground (arith, ok)) hex (ground (arith, new)),
)

ids_valid-drop_first :
    (ids : List String) → ids_valid ids ≡ true → ids_valid (drop_first ids) ≡ true
ids_valid-drop_first [] ok = refl
ids_valid-drop_first (x ∷ xs) ok = ground (arith, ok)

length-drop_first : (ids : List String) (n : ℕ) → length ids ≤ suc n → length (drop_first ids) ≤ n
length-drop_first [] n le = omega arith
length-drop_first (x ∷ xs) n le = omega (arith, le)

push_closed-ids_valid :
    (closed : List String) (id : String)
    → ids_valid closed ≡ true
    → hex_id id 16 ≡ true
    → contains closed id ≡ false
    → ids_valid (push_closed closed id) ≡ true
push_closed-ids_valid closed id ok hex new =
    let longer = closed ++ (id ∷ []) in
    let kept : ids_valid longer ≡ true = ids_valid-append closed id ok hex new in
    if_elim (λ ids. ids_valid ids ≡ true) (ltb 32 (length longer))
      (λ _. ids_valid-drop_first longer kept) (λ _. kept)

length-push_closed :
    (closed : List String) (id : String) → length closed ≤ 32 → length (push_closed closed id) ≤ 32
length-push_closed closed id le =
    let longer = closed ++ (id ∷ []) in
    let one : length longer ≤ 33 = omega (arith, le, length-append closed (id ∷ [])) in
    if_elim (λ (ids : List String). length ids ≤ 32) (ltb 32 (length longer))
      (λ _. length-drop_first longer 32 one) (λ short. ground (arith, short))

pub group_facts :
    (closed : List String) (g : Group)
    → group_valid closed g ≡ true
    → (hex_id g.id 16 ≡ true)
      × (is_none_or g.response (λ r. response_valid r) ≡ true)
      × (contains closed g.id ≡ false)
group_facts closed g h = ground (arith, h)

answer-valid :
    (response last : Option Response)
    → is_none_or response (λ r. response_valid r) ≡ true
    → is_none_or last (λ r. response_valid r) ≡ true
    → is_none_or (answer_of response last) (λ r. response_valid r) ≡ true
answer-valid none last r l = l
answer-valid (some response) last r l = r

answer-flag :
    (response last : Option Response) (flag : Bool)
    → (flag || is_none last) ≡ true
    → ((is_some response || flag) || is_none (answer_of response last)) ≡ true
answer-flag none last flag h = h
answer-flag (some response) last flag h = refl

close_at :
    (g : Group) (c : ClaudeCursor)
    → c.open_group ≡ some g
    → UsageOk c
    → UsageOk (close_group_of (some g) c)
close_at g c e u =
    let (hex, good, new) = group_facts c.closed g (rw e at u.group_ok) in
    let a : c.input + g.usage.at0 ≤ max_safe = rw e at u.input_le in
    let b : c.output + g.usage.at1 ≤ max_safe = rw e at u.output_le in
    let d : c.cache_read + g.usage.at2 ≤ max_safe = rw e at u.read_le in
    let k : c.cache_creation + g.usage.at3 ≤ max_safe = rw e at u.creation_le in
    let all : (c.input + g.usage.at0)
          + (c.cache_read + g.usage.at2)
          + (c.cache_creation + g.usage.at3)
        ≤ max_safe =
      rw e at u.context_le in
    record {
      input_le = omega (arith, a);
      output_le = omega (arith, b);
      read_le = omega (arith, d);
      creation_le = omega (arith, k);
      context_le = omega (arith, a, d, k, all);
      last_ok = answer-valid g.response c.last good u.last_ok;
      last_flag = answer-flag g.response c.last c.last_valid u.last_flag;
      seq_le = u.seq_le;
      group_ok = refl;
      ring_le = length-push_closed c.closed g.id u.ring_le;
      ids_ok = push_closed-ids_valid c.closed g.id u.ids_ok hex new;
      compactions_le = u.compactions_le;
    }

close_from :
    (o : Option Group) (c : ClaudeCursor)
    → c.open_group ≡ o
    → UsageOk c
    → UsageOk (close_group_of o c)
close_from none c e u = u
close_from (some g) c e u = close_at g c e u

pub close_group-Usage : (c : ClaudeCursor) → UsageOk c → UsageOk (close_group c)
unfolding close_group
close_group-Usage c u = close_from c.open_group c refl u
