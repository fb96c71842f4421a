-- ===== src/Owner/Framed.antt =====
-- The framing of `OwnerLines` in anton-runtime/src/main.rs, and what it promises.
use herdr_observatory.Common.{eq_of_same_bytes}
use herdr_observatory.Owner.{
  codes, is_refresh, strip_cr, owner_line_limit, commands_of, OwnerLines, OwnerCommand, default,
  push, push_byte,
}
use herdr_observatory.Prelude.{
  Bool-cases, ==_iff, sym, if_elim, ap, length-append, ◌<◌, ◌⊎◌, ◌≤◌, ◌≡◌, ℕ, true, false, List, [],
  ◌∷◌, ◌++◌, ◌==◌, if◌then◌else◌, length, suc, refl, inl, inr, arith,
}

-- The lines that end in `bytes`, the first of which has begun with `begun`; what is left is no line.
unfoldable pub lines : List ℕ → List ℕ → List (List ℕ)
lines begun [] = []
lines begun (byte ∷ bytes) =
    if byte == b'\n' then begun ∷ lines [] bytes else lines (begun ++ (byte ∷ [])) bytes

-- A command for each line that is `refresh`, whatever its length.
unfoldable pub commands : List (List ℕ) → List OwnerCommand
commands [] = []
commands (line ∷ rest) = commands_of line ++ commands rest

-- What the state keeps of the line that has begun: all of it, or only that it is too long.
abbrev Frames : List ℕ → OwnerLines → Type 0
Frames begun o =
    ((o.discarding ≡ false) × (o.line ≡ begun) × (length begun ≤ owner_line_limit))
    ⊎ ((o.discarding ≡ true)
        × (owner_line_limit < length begun)
        × (length o.line ≤ owner_line_limit))

length-strip_cr : (line : List ℕ) → length line ≤ suc (length (strip_cr line))
length-strip_cr [] = omega arith
length-strip_cr (byte ∷ []) = ground arith
length-strip_cr (byte ∷ next ∷ line) = omega (arith, length-strip_cr (next ∷ line))

-- A line beyond the limit is no command.
long-commands_of : (line : List ℕ) → owner_line_limit < length line → commands_of line ≡ []
long-commands_of line long =
    if_elim (λ given. given ≡ []) (is_refresh line)
      (λ h. absurd (
        omega (
          arith,
          long,
          length-strip_cr line,
          ap length (eq_of_same_bytes (strip_cr line) (codes "refresh") h),
        )))
      (λ _. refl)

-- One byte within a line, and the byte that ends it.
within_line :
    (begun : List ℕ) (byte : ℕ) (o : OwnerLines)
    → (byte == b'\n') ≡ false
    → Frames begun o
    → Frames (begun ++ (byte ∷ [])) (push_byte byte o).0 × ((push_byte byte o).1 ≡ [])
unfolding push_byte
within_line begun byte o other (inl (kept, same, short)) = rw other (
    rw kept (
      let longer = length-append begun (byte ∷ []) in
      if_elim
        (λ (p : OwnerLines × List OwnerCommand). Frames (begun ++ (byte ∷ [])) p.0 × (p.1 ≡ []))
        (length o.line == owner_line_limit)
        (λ full. (
          inr (
            refl,
            omega (arith, longer, ap length same, (==_iff (length o.line) 64).0 full),
            omega arith,
          ),
          refl,
        ))
        (λ room. (
          inl (
            refl,
            ap (λ l. l ++ (byte ∷ [])) same,
            ground (arith, longer, ap length same, room, short),
          ),
          refl,
        ))))
within_line begun byte o other (inr (lost, long, short)) =
    rw other
      (rw lost (inr (refl, omega (arith, long, length-append begun (byte ∷ [])), short), refl))

line_end :
    (begun : List ℕ) (byte : ℕ) (o : OwnerLines)
    → (byte == b'\n') ≡ true
    → Frames begun o
    → ((push_byte byte o).0 ≡ default) × ((push_byte byte o).1 ≡ commands_of begun)
unfolding push_byte
line_end begun byte o end (inl (kept, same, short)) = rw end (refl, rw kept (ap commands_of same))
line_end begun byte o end (inr (lost, long, short)) =
    rw end (refl, rw lost (sym (long-commands_of begun long)))

-- The state keeps what it needs of the line that has begun, and gives the commands of the rest.
pushed :
    (bytes begun : List ℕ) (o : OwnerLines)
    → Frames begun o
    → ((push bytes o).1 ≡ commands (lines begun bytes))
      × (length (push bytes o).0.line ≤ owner_line_limit)
unfolding push lines commands
pushed [] begun o (inl (kept, same, short)) = (refl, rw same short)
pushed [] begun o (inr (lost, long, short)) = (refl, short)
pushed (byte ∷ bytes) begun o i = elim (Bool-cases (byte == b'\n')) [
  | inl end ↦
      let (next, given) = line_end begun byte o end i in
      let (rest, small) = pushed bytes [] default (inl (refl, refl, omega arith)) in
      (rw (given, next, rest, end) refl, rw next small)
  | inr other ↦
      let (kept, none_given) = within_line begun byte o other i in
      let (rest, small) = pushed bytes (begun ++ (byte ∷ [])) (push_byte byte o).0 kept in
      (rw (none_given, rest, other) refl, small)
]

-- From the start, the commands that are given are those of the lines that are `refresh`, up to a
-- last carriage return, and what is kept of a line never exceeds the limit.
pub push-lines :
    (bytes : List ℕ)
    → ((push bytes default).1 ≡ commands (lines [] bytes))
      × (length (push bytes default).0.line ≤ owner_line_limit)
push-lines bytes = pushed bytes [] default (inl (refl, refl, omega arith))
