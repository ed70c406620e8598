-- ===== src/Lines/Framing.antt =====
-- The lines that are read do not depend on the pieces in which the bytes arrive.
use mathlib.Core.List.{append_assoc}
use cppmcp.Base.{
  ℕ, zero, suc, ◌<◌, ◌≤◌, ◌≡◌, refl, sym, ap, subst, ◌∙◌, ◌⊎◌, true, List, [], ◌∷◌, ◌++◌, Option,
  none, some, length, length-append, All, All-append, arith, inl, inr,
}
use cppmcp.Text.{Bytes, is_free, cut}
use cppmcp.Text.Laws.{is_free-cut, joined, joined-cut, cut-append}
use cppmcp.Lines.{found_line, after_line, read_until, read_lines, lines_of}

-- A line: bytes other than the newline, and the newline.
abbrev pub IsLine : Bytes → Type 0
IsLine line = (text : Bytes) × (is_free 10 text ≡ true) × (line ≡ text ++ 10 ∷ [])

abbrev pub concat : List Bytes → Bytes
concat [] = []
concat (line ∷ lines) = line ++ concat lines

pub concat-append : (xs ys : List Bytes) → concat (xs ++ ys) ≡ concat xs ++ concat ys
concat-append [] ys = refl
concat-append (x ∷ xs) ys =
    ap (◌++◌ x) (concat-append xs ys) ∙ sym (append_assoc x (concat xs) (concat ys))

read_until-line :
    (text rest : Bytes)
    → is_free 10 text ≡ true
    → read_until (text ++ 10 ∷ rest) ≡ some (text ++ 10 ∷ [], rest)
unfolding read_until
read_until-line text rest free = ap found_line (cut-append 10 text rest free)

cut-free : (s : Bytes) → is_free 10 s ≡ true → (cut 10 s).1 ≡ none
unfolding cut is_free
cut-free [] h = refl
cut-free (c ∷ s) h = ground (arith, cut-free s)

read_until-none : (s : Bytes) → is_free 10 s ≡ true → read_until s ≡ none
unfolding read_until
read_until-none s free = none_found (cut 10 s) (cut-free s free)
  where
    none_found : (p : Bytes × Option Bytes) → p.1 ≡ none → found_line p ≡ none
    none_found (line, none) h = refl
    none_found (line, some rest) h = absurd (ground arith)

-- What a read finds, in a buffer with a newline or without.
read_until-parts :
    (s : Bytes)
    → ((read_until s ≡ none) × (is_free 10 s ≡ true))
      ⊎ ((line rest : Bytes) × (read_until s ≡ some (line, rest))
          × IsLine line
          × (s ≡ line ++ rest))
unfolding read_until
read_until-parts s = parts (cut 10 s) (joined-cut 10 s) (is_free-cut 10 s)
  where
    parts :
        (p : Bytes × Option Bytes)
        → joined 10 p ≡ s
        → is_free 10 p.0 ≡ true
        → ((found_line p ≡ none) × (is_free 10 s ≡ true))
          ⊎ ((line rest : Bytes) × (found_line p ≡ some (line, rest))
              × IsLine line
              × (s ≡ line ++ rest))
    parts (before, none) e free = inl (refl, ap (is_free 10) (sym e) ∙ free)
    parts (before, some after) e free = inr (
      before ++ 10 ∷ [],
      after,
      refl,
      (before, free, refl),
      sym e ∙ sym (append_assoc before (10 ∷ []) after),
    )

read_lines-none : (n : ℕ) (s : Bytes) → read_until s ≡ none → read_lines (suc n) s ≡ ([], s)
unfolding read_lines
read_lines-none n s e = ap (after_line (read_lines n) s) e

read_lines-some :
    (n : ℕ) (s line rest : Bytes)
    → read_until s ≡ some (line, rest)
    → read_lines (suc n) s ≡ (line ∷ (read_lines n rest).0, (read_lines n rest).1)
unfolding read_lines
read_lines-some n s line rest e = ap (after_line (read_lines n) s) e

-- What a row of reads has found: all the lines, and a text behind them without a newline.
abbrev pub Splits : Bytes → List Bytes × Bytes → Type 0
Splits buffer (lines, left) =
    (buffer ≡ concat lines ++ left) × All IsLine lines × (is_free 10 left ≡ true)

shorter : (line rest : Bytes) → IsLine line → suc (length rest) ≤ length (line ++ rest)
shorter line rest (text, free, e) =
    omega (arith, length-append line rest, ap length e, length-append text (10 ∷ []))

-- With more reads than bytes in the buffer, the reads take off all its lines.
pub read_lines-Splits :
    (fuel : ℕ) (buffer : Bytes) → length buffer < fuel → Splits buffer (read_lines fuel buffer)
read_lines-Splits zero buffer enough = absurd (omega arith)
read_lines-Splits (suc fuel) buffer enough = elim (read_until-parts buffer) [
  | inl (e, free) ↦ subst (Splits buffer) (sym (read_lines-none fuel buffer e)) (refl, tt, free)
  | inr (line, rest, e, is_line, same) ↦
      let (whole, are, free) =
        read_lines-Splits fuel rest
          (omega (arith, enough, ap length same, shorter line rest is_line)) in
      subst (Splits buffer) (sym (read_lines-some fuel buffer line rest e)) (
        same
            ∙ ap (◌++◌ line) whole
            ∙ sym (append_assoc line (concat (read_lines fuel rest).0) (read_lines fuel rest).1),
        (is_line, are),
        free,
      )
]

-- A row of lines and a text without a newline behind them are read as they are.
pub read_lines-concat :
    (fuel : ℕ) (lines : List Bytes) (left : Bytes)
    → All IsLine lines
    → is_free 10 left ≡ true
    → length lines < fuel
    → read_lines fuel (concat lines ++ left) ≡ (lines, left)
read_lines-concat zero lines left are free enough = absurd (omega arith)
read_lines-concat (suc fuel) [] left are free enough =
    read_lines-none fuel left (read_until-none left free)
read_lines-concat (suc fuel) (line ∷ lines) left ((text, clean, e), are) free enough =
    let rest = concat lines ++ left in
    read_lines-some fuel ((line ++ concat lines) ++ left) line rest (
      ap (λ l. read_until ((l ++ concat lines) ++ left)) e
      ∙ ap read_until
          (append_assoc (text ++ 10 ∷ []) (concat lines) left ∙ append_assoc text (10 ∷ []) rest)
      ∙ read_until-line text rest clean
      ∙ ap (λ l. some (l, rest)) (sym e))
    ∙ ap (λ (r : List Bytes × Bytes). (line ∷ r.0, r.1))
        (read_lines-concat fuel lines left are free (omega (arith, enough)))

count-lines : (lines : List Bytes) → All IsLine lines → length lines ≤ length (concat lines)
count-lines [] are = omega arith
count-lines (line ∷ lines) ((text, free, e), are) = omega (
  arith,
  count-lines lines are,
  ap length e,
  length-append text (10 ∷ []),
  length-append line (concat lines),
)

pub lines_of-Splits : (s : Bytes) → Splits s (lines_of s)
unfolding lines_of
lines_of-Splits s = read_lines-Splits (suc (length s)) s (omega arith)

-- A text splits in one way only.
lines_of_unique : (s : Bytes) (r : List Bytes × Bytes) → Splits s r → lines_of s ≡ r
unfolding lines_of
lines_of_unique s (lines, left) (e, are, free) =
    ap (read_lines (suc (length s))) e
    ∙ read_lines-concat (suc (length s)) lines left are free
        (omega (arith, ap length e, length-append (concat lines) left, count-lines lines are))

-- Two chunks, read one after the other with what the first has left before the second, give the lines
-- of both together, and leave the same text.
pub lines_of-append :
    (a b : Bytes)
    → lines_of (a ++ b)
      ≡ ((lines_of a).0 ++ (lines_of ((lines_of a).1 ++ b)).0, (lines_of ((lines_of a).1 ++ b)).1)
lines_of-append a b =
    let (whole, are, free) = lines_of-Splits a in
    let (whole', are', free') = lines_of-Splits ((lines_of a).1 ++ b) in
    let xs = (lines_of a).0 in
    let ys = (lines_of ((lines_of a).1 ++ b)).0 in
    let left = (lines_of ((lines_of a).1 ++ b)).1 in
    lines_of_unique (a ++ b) (xs ++ ys, left)
      (
        ap (λ s. s ++ b) whole
            ∙ append_assoc (concat xs) (lines_of a).1 b
            ∙ ap (◌++◌ (concat xs)) whole'
            ∙ sym (append_assoc (concat xs) (concat ys) left)
            ∙ ap (λ s. s ++ left) (sym (concat-append xs ys)),
        All-append IsLine xs ys are are',
        free',
      )
