-- ===== src/Prelude/Tests.antt =====
-- Boolean tests on the native numbers and on byte strings, and the conditional.
use Prim.Native.Nat.{ℕ, compare, Ordering, ◌≤◌, ◌<◌}
use mathlib.Core.Path.{◌≡◌, refl}
use mathlib.Core.Logic.{◌↔◌, ◌⊎◌, inl, inr}
use mathlib.Core.Bool.{Bool, true, false, ◌&&◌}
use mathlib.Core.List.{List, [], ◌∷◌}
use mathlib.Core.Option.{Option, none, some}
use native.Mathlib.Omega.{arith}

abbrev pub ltb : ℕ → ℕ → Bool
ltb a b = elim (compare a b) [ Ordering.lt ↦ true | _ ↦ false ]

abbrev pub leb : ℕ → ℕ → Bool
leb a b = elim (compare a b) [ Ordering.gt ↦ false | _ ↦ true ]

infix 50 ◌==◌
abbrev pub ◌==◌ : ℕ → ℕ → Bool
a == b = elim (compare a b) [ Ordering.eq ↦ true | _ ↦ false ]

infix 1 if◌then◌else◌
abbrev pub if◌then◌else◌ {ℓ} : {A : Type ℓ} → Bool → A → A → A
if true then x else y = x
if false then x else y = y

pub ==_iff : (a b : ℕ) → ((a == b) ≡ true) ↔ (a ≡ b)
==_iff a b = ground arith

-- To split on a computed value and keep the equation.
pub Bool-cases : (b : Bool) → (b ≡ true) ⊎ (b ≡ false)
Bool-cases true = inl refl
Bool-cases false = inr refl

pub Option-cases {ℓ} : {A : Type ℓ} (o : Option A) → (o ≡ none) ⊎ ((a : A) × (o ≡ some a))
Option-cases none = inl refl
Option-cases (some a) = inr (a, refl)

-- Go compares strings byte by byte.
unfoldable pub bytes_eq : List ℕ → List ℕ → Bool
bytes_eq [] [] = true
bytes_eq [] (y ∷ ys) = false
bytes_eq (x ∷ xs) [] = false
bytes_eq (x ∷ xs) (y ∷ ys) = x == y && bytes_eq xs ys

pub bytes_eq_sound : (xs ys : List ℕ) → bytes_eq xs ys ≡ true → xs ≡ ys
unfolding bytes_eq
bytes_eq_sound [] [] h = refl
bytes_eq_sound [] (y ∷ ys) h = cc
bytes_eq_sound (x ∷ xs) [] h = cc
bytes_eq_sound (x ∷ xs) (y ∷ ys) h = ground (arith, bytes_eq_sound xs ys)

pub bytes_eq_refl : (xs : List ℕ) → bytes_eq xs xs ≡ true
unfolding bytes_eq
bytes_eq_refl [] = refl
bytes_eq_refl (x ∷ xs) = ground (arith, bytes_eq_refl xs)

pub bytes_eq_iff : (xs ys : List ℕ) → (bytes_eq xs ys ≡ true) ↔ (xs ≡ ys)
bytes_eq_iff xs ys = (bytes_eq_sound xs ys, λ e. subst_eq xs ys e)
  where
    subst_eq : (xs ys : List ℕ) → xs ≡ ys → bytes_eq xs ys ≡ true
    subst_eq xs ys e = rw e (bytes_eq_refl ys)

pub ltb-eq-false : (a b : ℕ) → b ≤ a → ltb a b ≡ false
ltb-eq-false a b h = ground arith

pub ltb-eq-true : (a b : ℕ) → a < b → ltb a b ≡ true
ltb-eq-true a b h = ground arith

pub leb-eq-true : (a b : ℕ) → a ≤ b → leb a b ≡ true
leb-eq-true a b h = ground arith

pub le_of_ltb-eq-false : (a b : ℕ) → ltb a b ≡ false → b ≤ a
le_of_ltb-eq-false a b h = ground arith

-- A property of both branches.
pub if_both {ℓ κ} :
    {X : Type ℓ} (C : X → Type κ) (b : Bool) (x y : X) → C x → C y → C (if b then x else y)
if_both C true x y p q = p
if_both C false x y p q = q

-- The same, with the test's value at hand.
pub if_split {ℓ κ} :
    {X : Type ℓ} (C : X → Type κ) (b : Bool) (x y : X)
    → (b ≡ true → C x)
    → (b ≡ false → C y)
    → C (if b then x else y)
if_split C true x y p q = p refl
if_split C false x y p q = q refl

pub of_if {ℓ κ} :
    {X : Type ℓ} (C : X → Type κ) (D : Type κ) (b : Bool) (x y : X)
    → (C x → D)
    → (C y → D)
    → C (if b then x else y)
    → D
of_if C D true x y p q = p
of_if C D false x y p q = q

pub option_both {ℓ κ} :
    {A X : Type ℓ} (C : X → Type κ) (o : Option A) (x : X) (f : A → X)
    → C x
    → ((a : A) → C (f a))
    → C (elim o [ none ↦ x | some a ↦ f a ])
option_both C none x f p q = p
option_both C (some a) x f p q = q a

pub elim_some {ℓ κ} :
    {A : Type ℓ} {X : Type κ} {o : Option A} {a : A} (x : X) (f : A → X)
    → o ≡ some a
    → elim o [ none ↦ x | some b ↦ f b ] ≡ f a
elim_some x f h i = elim (h i) [ none ↦ x | some b ↦ f b ]

pub elim_none {ℓ κ} :
    {A : Type ℓ} {X : Type κ} {o : Option A} (x : X) (f : A → X)
    → o ≡ none
    → elim o [ none ↦ x | some b ↦ f b ] ≡ x
elim_none x f h i = elim (h i) [ none ↦ x | some b ↦ f b ]
