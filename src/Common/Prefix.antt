-- ===== src/Common/Prefix.antt =====
-- A prefix of a hexadecimal identifier of anton-runtime/src/common.rs is one too.
use Prim.Native.Char.{code}
use herdr_observatory.Common.{codes, byte_len, is_hex, hex_id, take_chars}
use herdr_observatory.Prelude.{
  ℕ, zero, suc, ◌≤◌, String, ◌≡◌, refl, ap, sym, ◌∙◌, true, ◌==◌, List, [], ◌∷◌, all, length, arith,
  &&-eq_true, ==_iff,
}

abbrev Digits : List ℕ → Type 0
Digits s = all is_hex s ≡ true

byte_len-hex : (s : List ℕ) → Digits s → byte_len s ≡ length s
byte_len-hex [] h = refl
byte_len-hex (c ∷ s) h = ground (arith, byte_len-hex s)

take_chars-hex :
    (n : ℕ) (s : String)
    → Digits (codes s)
    → n ≤ length (codes s)
    → Digits (codes (take_chars n s)) × (length (codes (take_chars n s)) ≡ n)
take_chars-hex zero s h le = (refl, refl)
take_chars-hex (suc n) String.[] h le = absurd (omega arith)
take_chars-hex (suc n) (String.◌∷◌ c s) h le =
    let (first, rest) = &&-eq_true (is_hex (code c)) (all is_hex (codes s)) h in
    let (digits, len) = take_chars-hex n s rest (omega arith) in (rw first digits, ap suc len)

pub hex_id-take_chars :
    (s : String) (m n : ℕ) → hex_id s m ≡ true → n ≤ m → hex_id (take_chars n s) n ≡ true
unfolding hex_id
hex_id-take_chars s m n h le =
    let (len, digits) = &&-eq_true (byte_len (codes s) == m) (all is_hex (codes s)) h in
    let whole : length (codes s) ≡ m =
      sym (byte_len-hex (codes s) digits) ∙ (==_iff (byte_len (codes s)) m).0 len in
    let (digits', len') = take_chars-hex n s digits (omega arith) in
    let bytes : byte_len (codes (take_chars n s)) ≡ n =
      byte_len-hex (codes (take_chars n s)) digits' ∙ len' in
    rw ((==_iff (byte_len (codes (take_chars n s))) n).1 bytes) digits'
