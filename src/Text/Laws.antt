-- ===== src/Text/Laws.antt =====
-- What the pieces of a text are.
use mathlib.Core.List.{append-nil}
use cppmcp.Base.{
  ℕ, nat_eq, ◌≡◌, refl, sym, ◌∙◌, ◌⊎◌, true, [], ◌∷◌, ◌++◌, Option, none, some, arith, Option-cases,
  inl, inr,
}
use cppmcp.Text.{Bytes, cut, is_free, strip_prefix, find_text, to_lower}

pub is_free-cut : (c : ℕ) (s : Bytes) → is_free c (cut c s).0 ≡ true
unfolding is_free cut
is_free-cut c [] = refl
is_free-cut c (d ∷ s) = ground (arith, is_free-cut c s)

-- What `cut` has split.
abbrev pub joined : ℕ → Bytes × Option Bytes → Bytes
joined c (before, none) = before
joined c (before, some after) = before ++ c ∷ after

pub joined-cut : (c : ℕ) (s : Bytes) → joined c (cut c s) ≡ s
unfolding cut
joined-cut c [] = refl
joined-cut c (d ∷ s) = ground (arith, joined-cut c s)

-- A text without the byte, then the byte: it is cut there.
pub cut-append :
    (c : ℕ) (s after : Bytes) → is_free c s ≡ true → cut c (s ++ c ∷ after) ≡ (s, some after)
unfolding cut is_free
cut-append c [] after h = ground arith
cut-append c (b ∷ s) after h = ground (arith, cut-append c s after)

pub strip_prefix-some : (p s after : Bytes) → strip_prefix p s ≡ some after → s ≡ p ++ after
unfolding strip_prefix
strip_prefix-some [] s after h = ground arith
strip_prefix-some (c ∷ p) [] after h = ground arith
strip_prefix-some (c ∷ p) (d ∷ s) after h = ground (arith, strip_prefix-some p s after)

pub find_text-some :
    (p s before after : Bytes) → find_text p s ≡ some (before, after) → s ≡ before ++ (p ++ after)
unfolding find_text
find_text-some p [] before after h = ground (arith, strip_prefix-some p [] after)
find_text-some p (d ∷ s) before after h = elim (Option-cases (strip_prefix p (d ∷ s))) [
  | inr (rest, e) ↦ ground (arith, strip_prefix-some p (d ∷ s) rest)
  | inl e ↦ elim (Option-cases (find_text p s)) [
    | inl none_there ↦ ground arith
    | inr ((b, a), found) ↦ ground (arith, find_text-some p s b a)
  ]
]

-- A line ends at the first "\r\n" if it has no "\r" itself.
pub find_text-line :
    (line after : Bytes)
    → is_free 13 line ≡ true
    → find_text (13 ∷ 10 ∷ []) (line ++ 13 ∷ 10 ∷ after) ≡ some (line, after)
unfolding find_text is_free strip_prefix
find_text-line [] after h = refl
find_text-line (c ∷ line) after h = ground (arith, find_text-line line after)

pub is_free-append :
    (c : ℕ) (s t : Bytes) → is_free c s ≡ true → is_free c t ≡ true → is_free c (s ++ t) ≡ true
unfolding is_free
is_free-append c [] t h k = k
is_free-append c (d ∷ s) t h k = ground (arith, is_free-append c s t)

pub is_free-to_lower : (s : Bytes) → is_free 58 s ≡ true → is_free 58 (to_lower s) ≡ true
unfolding is_free
is_free-to_lower [] h = refl
is_free-to_lower (c ∷ s) h = ground (arith, is_free-to_lower s)

pub is_free-left : (c : ℕ) (s t : Bytes) → is_free c (s ++ t) ≡ true → is_free c s ≡ true
unfolding is_free
is_free-left c [] t h = refl
is_free-left c (d ∷ s) t h = ground (arith, is_free-left c s t)

pub is_free-right : (c : ℕ) (s t : Bytes) → is_free c (s ++ t) ≡ true → is_free c t ≡ true
unfolding is_free
is_free-right c [] t h = h
is_free-right c (d ∷ s) t h = is_free-right c s t (ground arith)

-- A text that is empty or begins with the byte.
abbrev pub Starts : ℕ → Bytes → Type 0
Starts c t = (t ≡ []) ⊎ ((after : Bytes) × (t ≡ c ∷ after))

pub cut-parts : (c : ℕ) (s : Bytes) → (t : Bytes) × (s ≡ (cut c s).0 ++ t) × Starts c t
cut-parts c s = parts (cut c s) (joined-cut c s)
  where
    parts : (p : Bytes × Option Bytes) → joined c p ≡ s → (t : Bytes) × (s ≡ p.0 ++ t) × Starts c t
    parts (before, none) e = ([], sym e ∙ sym (append-nil before), inl refl)
    parts (before, some after) e = (c ∷ after, sym e, inr (after, refl))
