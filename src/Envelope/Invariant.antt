-- ===== src/Envelope/Invariant.antt =====
-- What holds of a classifier of anton-runtime/src/envelope.rs between two rounds of `feed`.
use herdr_observatory.Envelope.{Envelope, Round, read, again, refuse, panic, default}
use herdr_observatory.Envelope.Valid.{word_length, takes_value}
use herdr_observatory.Prelude.{
  zero, suc, ◌≢◌, ℕ, ◌≤◌, ◌<◌, ◌≡◌, ◌⊎◌, refl, true, List, [], ◌∷◌, length, arith,
}

-- The numeric fields, but for the tokens.
pub record Ranges (e : Envelope) : Type 0 where
  pub number_le : e.number ≤ 8
  pub literal_le : e.literal ≤ 2
  pub index_le : e.index ≤ 32
  pub mask_le : e.mask ≤ 8191
  pub key_le : e.key ≤ 1
  pub capture_le : e.capture ≤ 1
  pub lo_le : e.lo ≤ 244
  pub hi_le : e.hi ≤ 244
  pub started_le : e.started ≤ 1
  pub done_le : e.done ≤ 1
  pub kind_le : e.kind ≤ 12
  pub payload_le : e.payload_type ≤ 12
  pub item_le : e.item_type ≤ 12

-- The outermost container is an object, in role 1.
abbrev pub IsBase : List ℕ → ℕ → ℕ → Type 0
IsBase [] phase role = (role ≡ 1) × (phase ≤ 4)
IsBase (x ∷ xs) phase role = Unit

-- The containers around the innermost one: each waits for its next member.
abbrev pub Below : List ℕ → List ℕ → List ℕ → List ℕ → Type 0
Below [] [] [] [] = Unit
Below (phase ∷ stack) (role ∷ roles) (p ∷ pending) (s ∷ seen) =
    ((phase ≡ 4) ⊎ (phase ≡ 7))
    × (role ≤ 3)
    × (p ≤ 3)
    × (s ≤ 7)
    × IsBase stack phase role
    × Below stack roles pending seen
Below _ _ _ _ = ⊥

-- The four vectors have one length, and fit together.
abbrev pub Frames : List ℕ → List ℕ → List ℕ → List ℕ → Type 0
Frames [] [] [] [] = Unit
Frames (phase ∷ stack) (role ∷ roles) (p ∷ pending) (s ∷ seen) =
    (phase ≤ 7)
    × (role ≤ 3)
    × (p ≤ 3)
    × (s ≤ 7)
    × IsBase stack phase role
    × Below stack roles pending seen
Frames _ _ _ _ = ⊥

-- Inside a string: which of UTF-8, escape and digits may be under way.
pub record InString (phase key utf escape hex : ℕ) : Type 0 where
  pub key_place : key ≢ 0 → phase ≤ 1
  pub text_place : key ≡ 0 → takes_value phase ≡ true
  pub utf_le : utf ≤ 3
  pub escape_le : escape ≤ 2
  pub hex_le : hex ≤ 3
  pub one_of : utf ≢ 0 → escape ≡ 0
  pub digits : escape ≢ 2 → hex ≡ 0

abbrev pub Quiet : Envelope → Type 0
Quiet e = (e.escape ≡ 0) × (e.utf ≡ 0) × (e.hex ≡ 0)

-- The token under way, on the innermost phase.
abbrev pub Token : ℕ → ℕ → Envelope → Type 0
Token zero phase e = Quiet e
Token (suc zero) phase e = InString phase e.key e.utf e.escape e.hex
Token (suc (suc zero)) phase e = Quiet e × (takes_value phase ≡ true)
Token (suc (suc (suc zero))) phase e =
    Quiet e × (takes_value phase ≡ true) × (1 ≤ e.index) × (e.index < word_length e.literal)
Token (suc (suc (suc (suc n)))) phase e = ⊥

-- No container is open before the line begins and after it ends.
abbrev pub Progress : List ℕ → Envelope → Type 0
Progress [] e = (e.lex ≡ 0) × Quiet e × (e.started ≡ e.done)
Progress (phase ∷ stack) e = (e.started ≡ 1) × (e.done ≡ 0) × Token e.lex phase e

pub record Inv (e : Envelope) : Type 0 where
  pub ranges : Ranges e
  pub frames : Frames e.stack e.roles e.pending e.seen
  pub depth : length e.stack ≤ 128
  pub progress : Progress e.stack e

pub default-Inv : Inv default
default-Inv = record {
  ranges = omega arith;
  frames = tt;
  depth = omega arith;
  progress = (refl, (refl, refl, refl), refl);
}

-- A round keeps the invariant, and does not panic.
abbrev pub Good : Round → Type 0
Good (read e) = Inv e
Good (again e) = Inv e × (e.lex ≡ 0)
Good refuse = Unit
Good panic = ⊥
