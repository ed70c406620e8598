-- ===== src/Text.antt =====
-- std::string as the transports use it, as a list of its bytes: literals, find and substr, tolower.
pub mod Laws
use Prim.Native.Char.{code}
use Prim.Native.String
use cppmcp.Map.{Ord}
use cppmcp.Base.{
  ltb, ℕ, ◌+◌, String, leb, Eq, ◌==◌, nat_eq, nat_beq_iff, ◌≡◌, ◌↔◌, arith, Bool, true, false, not,
  ◌&&◌, ◌||◌, List, [], ◌∷◌, map, Option, none, some, if◌then◌else◌, is_some,
}

abbrev pub Bytes : Type 0
Bytes = List ℕ

-- The bytes of a literal, which is ASCII.
abbrev pub codes : String → Bytes
codes String.[] = []
codes (String.◌∷◌ c s) = code c ∷ codes s

abbrev pub bytes_beq : Bytes → Bytes → Bool
bytes_beq [] [] = true
bytes_beq [] (d ∷ t) = false
bytes_beq (c ∷ s) [] = false
bytes_beq (c ∷ s) (d ∷ t) = c == d && bytes_beq s t

pub bytes_beq_iff : (s t : Bytes) → (bytes_beq s t ≡ true) ↔ (s ≡ t)
bytes_beq_iff [] [] = ground arith
bytes_beq_iff [] (d ∷ t) = ground arith
bytes_beq_iff (c ∷ s) [] = ground arith
bytes_beq_iff (c ∷ s) (d ∷ t) = ground (arith, bytes_beq_iff s t)

instance abbrev pub bytes_eq : Eq Bytes
bytes_eq = record { same = bytes_beq; same_iff = bytes_beq_iff }

-- empty()
abbrev pub is_nil : Bytes → Bool
is_nil [] = true
is_nil (c ∷ s) = false

-- The text before the first byte `c`, and what follows it if there is one: substr(0, find(c)) and
-- substr(find(c) + 1).
unfoldable pub cut : ℕ → Bytes → Bytes × Option Bytes
cut c [] = ([], none)
cut c (d ∷ s) = let rest = cut c s in if d == c then ([], some s) else (d ∷ rest.0, rest.1)

-- find(c) == npos
unfoldable pub is_free : ℕ → Bytes → Bool
is_free c [] = true
is_free c (d ∷ s) = not (d == c) && is_free c s

-- What follows the prefix `p`, if the text has it.
unfoldable pub strip_prefix : Bytes → Bytes → Option Bytes
strip_prefix [] s = some s
strip_prefix (c ∷ p) [] = none
strip_prefix (c ∷ p) (d ∷ s) = if c == d then strip_prefix p s else none

abbrev pub after_byte : ℕ → Option (Bytes × Bytes) → Option (Bytes × Bytes)
after_byte d none = none
after_byte d (some (before, after)) = some (d ∷ before, after)

abbrev pub or_found : Option Bytes → Option (Bytes × Bytes) → Option (Bytes × Bytes)
or_found none found = found
or_found (some after) found = some ([], after)

-- The text before the first occurrence of `p`, and what follows that.
unfoldable pub find_text : Bytes → Bytes → Option (Bytes × Bytes)
unfolding strip_prefix
find_text p [] = or_found (strip_prefix p []) none
find_text p (d ∷ s) = or_found (strip_prefix p (d ∷ s)) (after_byte d (find_text p s))

unfoldable pub contains_text : Bytes → Bytes → Bool
unfolding find_text
contains_text p s = is_some (find_text p s)

abbrev pub lower_byte : ℕ → ℕ
lower_byte c = if leb 65 c && leb c 90 then c + 32 else c

-- `for (auto& c : s) c = tolower(c);`
abbrev pub to_lower : Bytes → Bytes
to_lower s = map lower_byte s

-- operator<, on unsigned bytes
abbrev pub bytes_before : Bytes → Bytes → Bool
bytes_before s [] = false
bytes_before [] (d ∷ t) = true
bytes_before (c ∷ s) (d ∷ t) = ltb c d || (c == d && bytes_before s t)

instance abbrev pub bytes_ord : Ord Bytes
bytes_ord = record { before = bytes_before }
