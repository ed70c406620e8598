-- ===== src/Base/Tests.antt =====
-- The conditional, Boolean tests, and equality tests as an interface.
use Prim.Native.Nat.{ℕ, compare, Ordering}
use Prim.Native.String
use Prim.Native.String.{String}
use mathlib.Core.Path.{◌≡◌, refl}
use mathlib.Core.Logic.{◌↔◌, ◌⊎◌, inl, inr}
use mathlib.Core.Bool.{Bool, true, false}
use mathlib.Core.Option.{Option, none, some}
use native.Mathlib.Omega.{arith}
use text.Mathlib.Text.{◌==◌ as str_eq}
use text.Mathlib.TextEquality.{eq_iff}

-- These compute to `compare`, which `ground` and `grind` read with no lemma listed.
abbrev pub ltb : ℕ → ℕ → Bool
ltb a b = elim (compare a b) [ Ordering.lt ↦ true | _ ↦ false ]

abbrev pub leb : ℕ → ℕ → Bool
leb a b = elim (compare a b) [ Ordering.gt ↦ false | _ ↦ true ]

abbrev pub nat_beq : ℕ → ℕ → Bool
nat_beq a b = elim (compare a b) [ Ordering.eq ↦ true | _ ↦ false ]

infix 1 if◌then◌else◌
abbrev pub if◌then◌else◌ {ℓ} : {A : Type ℓ} → Bool → A → A → A
if true then x else y = x
if false then x else y = y

pub nat_beq_iff : (a b : ℕ) → (nat_beq a b ≡ true) ↔ (a ≡ b)
nat_beq_iff a b = ground arith

-- A type whose values the program compares with `==`, and what the comparison decides.
pub record Eq {ℓ} (A : Type ℓ) : Type ℓ where
  pub same : A → A → Bool
  pub same_iff : (x y : A) → (same x y ≡ true) ↔ (x ≡ y)

instance abbrev pub string_eq : Eq String
string_eq = record { same = str_eq; same_iff = eq_iff }

instance abbrev pub nat_eq : Eq ℕ
nat_eq = record { same = nat_beq; same_iff = nat_beq_iff }

infix 50 ◌==◌
abbrev pub ◌==◌ {κ} : {B : Type κ} ⦃test : Eq B⦄ → B → B → Bool
◌==◌ ⦃test⦄ x y = test.same x y

-- To split on a computed value and keep the equation.
pub Bool-cases : (b : Bool) → (b ≡ true) ⊎ (b ≡ false)
Bool-cases true = inl refl
Bool-cases false = inr refl

pub Option-cases {ℓ} : {A : Type ℓ} (o : Option A) → (o ≡ none) ⊎ ((a : A) × (o ≡ some a))
Option-cases none = inl refl
Option-cases (some a) = inr (a, refl)

abbrev pub is_some {ℓ} : {A : Type ℓ} → Option A → Bool
is_some none = false
is_some (some a) = true

abbrev pub is_empty : String → Bool
is_empty s = str_eq s ""

-- The concatenation of texts.
infixr 60 ◌<>◌
abbrev pub ◌<>◌ : String → String → String
s <> t = String.◌++◌ s t

-- A property of what a test or an option chooses.
pub if-split {ℓ κ} :
    {A : Type ℓ} (P : A → Type κ) (b : Bool) (x y : A)
    → (b ≡ true → P x)
    → (b ≡ false → P y)
    → P (if b then x else y)
if-split P true x y h k = h refl
if-split P false x y h k = k refl

pub Option-split {ℓ κ μ} :
    {A : Type ℓ} {B : Type κ} (P : B → Type μ) (o : Option A) (x : B) (f : A → B)
    → (o ≡ none → P x)
    → ((a : A) → o ≡ some a → P (f a))
    → P (elim o [ none ↦ x | some a ↦ f a ])
Option-split P none x f h k = h refl
Option-split P (some a) x f h k = k a refl

-- A property of what an option holds.
abbrev pub OnSome {ℓ κ} : {A : Type ℓ} → (A → Type κ) → Option A → Type κ
OnSome P none = Unit
OnSome P (some a) = P a
