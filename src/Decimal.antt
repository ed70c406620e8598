-- ===== src/Decimal.antt =====
-- The decimal text of a size_t, as src/server.cpp writes and reads it: std::to_string, the test that
-- a text has digits only, and std::stoull.
use Prim.Native.Char.{Char, code}
use Prim.Native.String.{[], ◌∷◌}
use text.Mathlib.TextLemmas.{cons-ne-nil}
use cppmcp.Base.{
  ℕ, zero, suc, ◌+◌, ◌-◌, ◌*◌, ◌/◌, ◌%◌, ◌^◌, ◌<◌, String, ltb, leb, ◌==◌, nat_eq, string_eq,
  Bool-cases, inl, inr, ◌≡◌, refl, Bool, true, false, ◌&&◌, if◌then◌else◌, arith, is_empty,
}
use cppmcp.Outcome.{Result, ok, throw, std}

abbrev digit : ℕ → Char
digit d =
    if d == 0
    then "0"
    else if d == 1
    then "1"
    else if d == 2
    then "2"
    else if d == 3
    then "3"
    else if d == 4
    then "4"
    else if d == 5
    then "5"
    else if d == 6
    then "6"
    else if d == 7
    then "7"
    else if d == 8
    then "8"
    else "9"

-- The digits of `n` before `out`; `rounds` bounds their number.
unfoldable print : ℕ → ℕ → String → String
print zero n out = out
print (suc rounds) n out =
    let longer : String = print rounds (n / 10) (digit (n % 10) ∷ out) in
    if ltb n 10 then digit (n % 10) ∷ out else longer

-- A number of 64 bits has at most twenty digits.
unfoldable pub to_string : ℕ → String
unfolding print
to_string n = print 20 n ""

-- find_first_not_of("0123456789") == npos
unfoldable pub all_digits : String → Bool
all_digits [] = true
all_digits (c ∷ s) = leb 48 (code c) && (leb (code c) 57 && all_digits s)

-- The number that digits spell behind `n`.
unfoldable value : ℕ → String → ℕ
value n [] = n
value n (c ∷ s) = value (n * 10 + (code c - 48)) s

-- std::stoull of a text of digits
unfoldable pub stoull : {V : Type 0} → String → Result V ℕ
unfolding value
stoull s = let n = value 0 s in if ltb n (2 ^ 64) then ok n else throw (std "stoull")

abbrev limit : ℕ → ℕ
limit zero = 1
limit (suc rounds) = 10 * limit rounds

code-digit : (d : ℕ) → d < 10 → code (digit d) ≡ 48 + d
code-digit zero h = refl
code-digit (suc zero) h = refl
code-digit (suc (suc zero)) h = refl
code-digit (suc (suc (suc zero))) h = refl
code-digit (suc (suc (suc (suc zero)))) h = refl
code-digit (suc (suc (suc (suc (suc zero))))) h = refl
code-digit (suc (suc (suc (suc (suc (suc zero)))))) h = refl
code-digit (suc (suc (suc (suc (suc (suc (suc zero))))))) h = refl
code-digit (suc (suc (suc (suc (suc (suc (suc (suc zero)))))))) h = refl
code-digit (suc (suc (suc (suc (suc (suc (suc (suc (suc zero))))))))) h = refl
code-digit (suc (suc (suc (suc (suc (suc (suc (suc (suc (suc d)))))))))) h = absurd (omega arith)

value-print :
    (rounds n : ℕ) (out : String) → n < limit rounds → value 0 (print rounds n out) ≡ value n out
unfolding value print
value-print zero n out h = ground arith
value-print (suc rounds) n out h = ground (
  arith,
  code-digit (n % 10) (omega arith),
  value-print rounds (n / 10) (digit (n % 10) ∷ out) (omega arith),
)

all_digits-print :
    (rounds n : ℕ) (out : String) → all_digits out ≡ true → all_digits (print rounds n out) ≡ true
unfolding all_digits print
all_digits-print zero n out h = h
all_digits-print (suc rounds) n out h = ground (
  arith,
  code-digit (n % 10) (omega arith),
  all_digits-print rounds (n / 10) (digit (n % 10) ∷ out)
      (ground (arith, code-digit (n % 10) (omega arith))),
)

pub stoull-to_string : {V : Type 0} (n : ℕ) → n < 2 ^ 64 → stoull {V = V} (to_string n) ≡ ok n
unfolding stoull to_string
stoull-to_string n h = rw (value-print 20 n "" (omega arith)) (ground arith)

pub all_digits-to_string : (n : ℕ) → all_digits (to_string n) ≡ true
unfolding to_string all_digits
all_digits-to_string n = all_digits-print 20 n "" refl

is_empty-cons : (c : Char) (s : String) → is_empty (c ∷ s) ≡ false
is_empty-cons c s = elim (Bool-cases (is_empty (c ∷ s))) [
  | inl h ↦ absurd (cons-ne-nil c s ((string_eq.same_iff (c ∷ s) "").0 h))
  | inr h ↦ h
]

print-ne-empty :
    (rounds n : ℕ) (out : String) → is_empty out ≡ false → is_empty (print rounds n out) ≡ false
unfolding print
print-ne-empty zero n out h = h
print-ne-empty (suc rounds) n out h = ground (
  arith,
  print-ne-empty rounds (n / 10) (digit (n % 10) ∷ out) (is_empty-cons _ out),
  is_empty-cons (digit (n % 10)) out,
)

pub to_string-ne-empty : (n : ℕ) → is_empty (to_string n) ≡ false
unfolding to_string print
to_string-ne-empty n = ground (
  arith,
  print-ne-empty 19 (n / 10) (digit (n % 10) ∷ "") (is_empty-cons _ ""),
  is_empty-cons (digit (n % 10)) "",
)
