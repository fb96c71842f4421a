-- ===== src/Claude/Placed.antt =====
-- Where a pass of anton-runtime/src/claude.rs stops in its file.
use herdr_observatory.Claude.{Record}
use herdr_observatory.Claude.Classifier.{Context, Classifier}
use herdr_observatory.Claude.Classifier.Feed.{feed}
use herdr_observatory.Claude.Parse.{is_terminated, after, parse_line, line}
use herdr_observatory.Claude.Reader.{
  opened_at, apply_record, line_limit, classify_with, taken, apply_value, Reader, lines, fed,
  oversized, read_line,
}
use herdr_observatory.Claude.Walk.{from_value}
use herdr_observatory.Json.{Value}
use herdr_observatory.Prelude.{
  ℕ, Bool, false, true, Option-cases, leb, ltb, ◌+◌, ◌-◌, min, Bool-cases, is_none, length, List,
  Option, none, some, [], ◌∷◌, not, ◌||◌, ◌&&◌, if◌then◌else◌, ◌==◌, ◌≡◌, refl, Holds, if_elim,
  arith, suc, zero, ◌≤◌, inl, inr,
}

after-length : (n c : ℕ) (p : List ℕ × List ℕ) → length (p.0) ≤ n → length ((after c p).0) ≤ suc n
after-length n c (bytes, rest) h = omega (arith, h)

pub line-length : (n : ℕ) (stream : List ℕ) → length ((line n stream).0) ≤ n
unfolding line
line-length zero stream = omega arith
line-length (suc n) [] = omega arith
line-length (suc n) (c ∷ stream) = elim (Bool-cases (c == b'\n')) [
  | inl e ↦ rw (line, e) (omega arith)
  | inr e ↦ rw (line, e) (after-length n c (line n stream) (line-length n stream))
]

after-within :
    (c : ℕ) (p : List ℕ × List ℕ) (stream : List ℕ)
    → length (p.0) ≤ length stream
    → length ((after c p).0) ≤ suc (length stream)
after-within c (bytes, rest) stream h = omega (arith, h)

pub line-within : (n : ℕ) (stream : List ℕ) → length ((line n stream).0) ≤ length stream
unfolding line
line-within zero stream = omega arith
line-within (suc n) [] = omega arith
line-within (suc n) (c ∷ stream) = elim (Bool-cases (c == b'\n')) [
  | inl e ↦ rw (line, e) (omega arith)
  | inr e ↦ rw (line, e) (after-within c (line n stream) stream (line-within n stream))
]

-- The file of a row; only a line that is skipped has a classifier.
pub record Steady (device inode : ℕ) (r : Reader) : Type 0 where
  pub same_device : r.device ≡ device
  pub same_inode : r.inode ≡ inode
  pub skips : r.skipping || is_none r.classifier ≡ true

fed-Steady :
    {device inode : ℕ} (o : Option Classifier) (terminated : Bool) (r : Reader)
    → Steady device inode r
    → Steady device inode
        (fed o terminated (record r { skipping = not terminated; classifier = none }))
fed-Steady none true r k = record {
  same_device = k.same_device;
  same_inode = k.same_inode;
  skips = refl;
}
fed-Steady none false r k = record {
  same_device = k.same_device;
  same_inode = k.same_inode;
  skips = refl;
}
fed-Steady (some c) true r k = record {
  same_device = k.same_device;
  same_inode = k.same_inode;
  skips = refl;
}
fed-Steady (some c) false r k = record {
  same_device = k.same_device;
  same_inode = k.same_inode;
  skips = refl;
}

none-skips : (b : Bool) → b || true ≡ true
none-skips true = refl
none-skips false = refl

module _ (x : Context) (from_slice : List ℕ → Option Value) {device inode : ℕ} where
  classify_with-Steady :
      (o : Option Classifier) (bytes : List ℕ) (terminated : Bool) (r : Reader)
      → Steady device inode r
      → Steady device inode (
          classify_with x from_slice o bytes terminated
            (record r { skipping = not terminated; classifier = none }))
  classify_with-Steady none bytes terminated r k = record {
    same_device = k.same_device;
    same_inode = k.same_inode;
    skips = none-skips (not terminated);
  }
  classify_with-Steady (some c) bytes terminated r k = fed-Steady (feed x bytes c) terminated r k

  oversized-Steady :
      (bytes : List ℕ) (terminated : Bool) (r : Reader)
      → Steady device inode r
      → Steady device inode (oversized x from_slice bytes terminated r)
  unfolding oversized
  oversized-Steady bytes terminated r k =
      classify_with-Steady (taken (not r.skipping) r.classifier) bytes terminated r k

  apply_record-Steady :
      (o : Option Record) (r : Reader)
      → Steady device inode r
      → Steady device inode (apply_record x from_slice o r)
  apply_record-Steady none r k = record {
    same_device = k.same_device;
    same_inode = k.same_inode;
    skips = k.skips;
  }
  apply_record-Steady (some e) r k = record {
    same_device = k.same_device;
    same_inode = k.same_inode;
    skips = k.skips;
  }

  apply_value-Steady :
      (o : Option Value) (bytes : List ℕ) (r : Reader)
      → Steady device inode r
      → Steady device inode (apply_value x from_slice o bytes r)
  apply_value-Steady none bytes r k = oversized-Steady bytes true r k
  apply_value-Steady (some v) bytes r k = apply_record-Steady (from_value x v) r k

  pub read_line-Steady :
      (bytes : List ℕ) (r : Reader)
      → Steady device inode r
      → Steady device inode (read_line x from_slice bytes r)
  unfolding read_line
  read_line-Steady bytes r k = apply_value-Steady (parse_line from_slice bytes) bytes r k

-- The bounds of an offset.
abbrev pub Between : ℕ → ℕ → ℕ → Type 0
Between first limit offset = (first ≤ offset) × (offset ≤ limit)

abbrev pub Place : ℕ → ℕ → ℕ → ℕ → Reader → Type 0
Place device inode first limit r = Steady device inode r × Between first limit r.offset

next-Between :
    (first limit start n size : ℕ)
    → Between first limit start
    → size ≤ min n (limit - start)
    → Between first limit (start + size)
next-Between first limit start n size (h, k) le = (omega (arith, h), omega (arith, k, le))

module _ (x : Context) (from_slice : List ℕ → Option Value) {device inode : ℕ}
    (first limit : ℕ) where
  pub lines-Place :
      (ticks start : ℕ) (stream : List ℕ) (open_line : Option ℕ) (r : Reader)
      → Between first limit start
      → Holds (Between first limit) open_line
      → Place device inode first limit r
      → (let (open', r') = lines x from_slice ticks limit start stream open_line r in
          Holds (Between first limit) open' × Place device inode first limit r')
  unfolding lines
  lines-Place zero start stream open_line r at o k = (o, k)
  lines-Place (suc ticks) start stream open_line r at o k =
      let (bytes, rest) = line (min (line_limit + 1) (limit - start)) stream in
      let ended = is_terminated bytes in
      let is_long = r.skipping || ltb line_limit (length bytes) in
      let next =
        next-Between first limit start (line_limit + 1) (length bytes) at
          (line-length (min (line_limit + 1) (limit - start)) stream) in
      let r' =
        if is_long then oversized x from_slice bytes ended r else read_line x from_slice bytes r in
      let s : Steady device inode r' =
        if_elim (Steady device inode) is_long
          (λ _. oversized-Steady x from_slice bytes ended r (k.0))
          (λ _. read_line-Steady x from_slice bytes r (k.0)) in
      elim (Bool-cases
        (not (ltb start limit) || leb (length bytes) 0 || (not is_long && not ended))) [
          | inl e ↦ rw (lines, e) (o, k)
          | inr e ↦
              rw (lines, e)
                (lines-Place ticks (start + length bytes) rest
                  (if is_long then opened_at ended r.skipping start open_line else open_line)
                  (record r' { offset = start + length bytes }) next
                  (if_elim (Holds (Between first limit)) is_long
                    (λ _.
                      if_elim (Holds (Between first limit)) ended (λ _. tt)
                        (λ _. if_elim (Holds (Between first limit)) r.skipping (λ _. o) (λ _. at)))
                    (λ _. o))
                  (
                    record {
                      same_device = s.same_device;
                      same_inode = s.same_inode;
                      skips = s.skips;
                    },
                    next,
                  ))
        ]

-- The rest of a line is not read, so the offset of the row stays.
abbrev pub SameOffset : Reader → Reader → Type 0
SameOffset r u = u.offset ≡ r.offset

fed-offset :
    (o : Option Classifier) (terminated : Bool) (r : Reader) → SameOffset r (fed o terminated r)
fed-offset none terminated r = refl
fed-offset (some c) true r = refl
fed-offset (some c) false r = refl

module _ (x : Context) (from_slice : List ℕ → Option Value) where
  classify_with-offset :
      (o : Option Classifier) (bytes : List ℕ) (terminated : Bool) (r : Reader)
      → SameOffset r (classify_with x from_slice o bytes terminated r)
  classify_with-offset none bytes terminated r = refl
  classify_with-offset (some c) bytes terminated r = fed-offset (feed x bytes c) terminated r

  apply_value-offset :
      (o : Option Value) (bytes : List ℕ) (r : Reader)
      → SameOffset r (apply_value x from_slice o bytes r)
  unfolding oversized
  apply_value-offset none bytes r =
      classify_with-offset (taken (not r.skipping) r.classifier) bytes true
        (record r { skipping = false; classifier = none })
  apply_value-offset (some v) bytes r = elim (Option-cases (from_value x v)) [
    | inl e ↦ rw (e) refl
    | inr (c, e) ↦ rw (e) refl
  ]

  pub read_line-offset :
      (bytes : List ℕ) (r : Reader) → SameOffset r (read_line x from_slice bytes r)
  unfolding read_line
  read_line-offset bytes r = apply_value-offset (parse_line from_slice bytes) bytes r
