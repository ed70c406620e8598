-- ===== src/Map.antt =====
-- std::map and std::set: an association list in the order of its keys, with one entry for a key.
use Prim.Native.Nat.{Ordering}
use Prim.Native.String.{compare}
use cppmcp.Base.{
  ℤ, pos, negsuc, ℤ_eq, String, Eq, ◌==◌, string_eq, ◌≡◌, refl, ◌∙◌, Bool, true, false, List, [],
  ◌∷◌, Option, none, some, arith, if◌then◌else◌, ltb, map, length, suc, ◌≤◌, ap, sym, subst, All,
  Bool-cases, inl, inr, ◌⊎◌,
}

-- The order of keys, `operator<`.
pub record Ord (K : Type 0) : Type 0 where
  pub before : K → K → Bool

abbrev pub string_before : String → String → Bool
string_before s t = elim (compare s t) [ Ordering.lt ↦ true | _ ↦ false ]

instance abbrev pub string_ord : Ord String
string_ord = record { before = string_before }

abbrev pub ℤ_before : ℤ → ℤ → Bool
ℤ_before (pos a) (pos b) = ltb a b
ℤ_before (pos a) (negsuc b) = false
ℤ_before (negsuc a) (pos b) = true
ℤ_before (negsuc a) (negsuc b) = ltb b a

instance abbrev pub ℤ_ord : Ord ℤ
ℤ_ord = record { before = ℤ_before }

abbrev pub Map : Type 0 → Type 0 → Type 0
Map K A = List (K × A)

abbrev pub map_some : {A B : Type 0} → (A → B) → Option A → Option B
map_some f none = none
map_some f (some a) = some (f a)

module _ {K A : Type 0} ⦃e : Eq K⦄ where
  -- find
  unfoldable pub find : K → Map K A → Option A
  find k [] = none
  find k ((j, a) ∷ m) = if j == k then some a else find k m

  -- erase(key)
  unfoldable pub erase : K → Map K A → Map K A
  erase k [] = []
  erase k ((j, a) ∷ m) = if j == k then erase k m else (j, a) ∷ erase k m

  -- An update through a reference to the value.
  unfoldable pub adjust : (A → A) → K → Map K A → Map K A
  adjust f k [] = []
  adjust f k ((j, a) ∷ m) = (j, if j == k then f a else a) ∷ adjust f k m

  pub length-adjust : (f : A → A) (k : K) (m : Map K A) → length (adjust f k m) ≡ length m
  unfolding adjust
  length-adjust f k [] = refl
  length-adjust f k ((j, a) ∷ m) = ap suc (length-adjust f k m)

  pub length-erase : (k : K) (m : Map K A) → length (erase k m) ≤ length m
  unfolding erase
  length-erase k [] = omega arith
  length-erase k ((j, a) ∷ m) = ground (arith, length-erase k m)

  pub find-adjust :
      (f : A → A) (k j : K) (m : Map K A)
      → find j (adjust f k m) ≡ (if k == j then map_some f (find j m) else find j m)
  unfolding find adjust
  find-adjust f k j [] = ground arith
  find-adjust f k j ((i, a) ∷ m) =
      ground (arith, find-adjust f k j m, e.same_iff k j, e.same_iff i k, e.same_iff i j)

  -- A property of every entry.
  pub All-erase :
      (P : K × A → Type 0) (k : K) (m : Map K A)
      → All (λ (entry : _). (entry.0 ≡ k) ⊎ P entry) m
      → All P (erase k m)
  unfolding erase
  All-erase P k [] h = tt
  All-erase P k ((j, a) ∷ m) (inl same, h) = rw ((e.same_iff j k).1 same) (All-erase P k m h)
  All-erase P k ((j, a) ∷ m) (inr p, h) = elim (Bool-cases (j == k)) [
    | inl same ↦ rw same (All-erase P k m h)
    | inr other ↦ rw other (p, All-erase P k m h)
  ]

  pub All-adjust :
      (P : K × A → Type 0) (f : A → A) (k : K) (m : Map K A)
      → ((a : A) → P (k, f a))
      → All (λ (entry : _). (entry.0 ≡ k) ⊎ P entry) m
      → All P (adjust f k m)
  unfolding adjust
  All-adjust P f k [] new h = tt
  All-adjust P f k ((j, a) ∷ m) new (inl same, h) = (
    rw ((e.same_iff j k).1 same) (subst (λ i. P (i, f a)) (sym same) (new a)),
    All-adjust P f k m new h,
  )
  All-adjust P f k ((j, a) ∷ m) new (inr p, h) = elim (Bool-cases (j == k)) [
    | inl same ↦ (
      rw same (subst (λ i. P (i, f a)) (sym ((e.same_iff j k).0 same)) (new a)),
      All-adjust P f k m new h,
    )
    | inr other ↦ (rw other p, All-adjust P f k m new h)
  ]

  pub All-adjust_kept :
      (P : K × A → Type 0) (f : A → A) (k : K) (m : Map K A)
      → ((j : K) (a : A) → P (j, a) → P (j, f a))
      → All P m
      → All P (adjust f k m)
  unfolding adjust
  All-adjust_kept P f k [] keeps h = tt
  All-adjust_kept P f k ((j, a) ∷ m) keeps (p, h) = (one (j == k), All-adjust_kept P f k m keeps h)
    where
      one : (b : Bool) → P (j, if b then f a else a)
      one true = keeps j a p
      one false = p

  pub find-erase :
      (k j : K) (m : Map K A) → find j (erase k m) ≡ (if k == j then none else find j m)
  unfolding find erase
  find-erase k j [] = ground arith
  find-erase k j ((i, a) ∷ m) =
      ground (arith, find-erase k j m, e.same_iff k j, e.same_iff i k, e.same_iff i j)

  pub find-erase-same : (k : K) (m : Map K A) → find k (erase k m) ≡ none
  find-erase-same k m = find-erase k k m ∙ rw ((e.same_iff k k).1 refl) refl

  pub find-adjust-same :
      (f : A → A) (k : K) (m : Map K A) → find k (adjust f k m) ≡ map_some f (find k m)
  find-adjust-same f k m = find-adjust f k k m ∙ rw ((e.same_iff k k).1 refl) refl

module _ {K A : Type 0} ⦃e : Eq K⦄ ⦃o : Ord K⦄ where
  -- m[key] = value
  unfoldable pub insert : K → A → Map K A → Map K A
  insert k a [] = (k, a) ∷ []
  insert k a ((j, b) ∷ m) =
      if j == k
      then (k, a) ∷ m
      else if o.before k j
      then (k, a) ∷ (j, b) ∷ m
      else (j, b) ∷ insert k a m

  pub find-insert :
      (k : K) (a : A) (j : K) (m : Map K A)
      → find j (insert k a m) ≡ (if k == j then some a else find j m)
  unfolding find insert
  find-insert k a j [] = refl
  find-insert k a j ((i, b) ∷ m) =
      ground (arith, find-insert k a j m, e.same_iff k j, e.same_iff i k, e.same_iff i j)

  pub length-insert : (k : K) (a : A) (m : Map K A) → length (insert k a m) ≤ suc (length m)
  unfolding insert
  length-insert k a [] = omega arith
  length-insert k a ((j, b) ∷ m) = ground (arith, length-insert k a m)

  pub All-insert :
      (P : K × A → Type 0) (k : K) (a : A) (m : Map K A) → P (k, a) → All P m → All P (insert k a m)
  unfolding insert
  All-insert P k a [] h all = (h, tt)
  All-insert P k a ((j, b) ∷ m) h (hb, all) = elim (Bool-cases (j == k)) [
    | inl same ↦ rw same (h, all)
    | inr other ↦ elim (Bool-cases (o.before k j)) [
      | inl front ↦ rw (other, front) (h, (hb, all))
      | inr behind ↦ rw (other, behind) (hb, All-insert P k a m h all)
    ]
  ]

  pub find-insert-same : (k : K) (a : A) (m : Map K A) → find k (insert k a m) ≡ some a
  find-insert-same k a m = find-insert k a k m ∙ rw ((e.same_iff k k).1 refl) refl

-- The values in the order of the keys.
abbrev pub values : {K A : Type 0} → Map K A → List A
values m = map (λ (entry : _). entry.1) m
