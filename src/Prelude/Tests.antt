-- ===== src/Prelude/Tests.antt =====
-- Boolean tests on native numbers, the conditional, and the wrapping counters of the C code.
use Prim.Native.Nat.{ℕ, zero, suc, ◌+◌, ◌%◌, ◌^◌, ◌≤◌, ◌<◌, compare, Ordering}
use mathlib.Core.Path.{◌≡◌, refl}
use mathlib.Core.Logic.{◌↔◌, ◌⊎◌, inl, inr}
use mathlib.Core.Bool.{Bool, true, false, ◌&&◌}
use mathlib.Core.Option.{Option, none, some}
use native.Mathlib.Omega.{arith}

abbrev pub ltb : ℕ → ℕ → Bool
ltb a b = elim (compare a b) [ Ordering.lt ↦ true | _ ↦ false ]

abbrev pub leb : ℕ → ℕ → Bool
leb a b = elim (compare a b) [ Ordering.gt ↦ false | _ ↦ true ]

infix 50 ◌==◌
abbrev pub ◌==◌ : ℕ → ℕ → Bool
a == b = elim (compare a b) [ Ordering.eq ↦ true | _ ↦ false ]

infix 1 if◌then◌else◌
abbrev pub if◌then◌else◌ {ℓ} : {A : Type ℓ} → Bool → A → A → A
if true then x else y = x
if false then x else y = y

pub ltb→lt : (a b : ℕ) → ltb a b ≡ true → a < b
ltb→lt a b h = ground arith

pub lt→ltb : (a b : ℕ) → a < b → ltb a b ≡ true
lt→ltb a b h = ground arith

pub leb→le : (a b : ℕ) → leb a b ≡ true → a ≤ b
leb→le a b h = ground arith

pub ==_iff : (a b : ℕ) → ((a == b) ≡ true) ↔ (a ≡ b)
==_iff a b = ground arith

-- To split on a computed test and keep the equation.
pub Bool-cases : (b : Bool) → (b ≡ true) ⊎ (b ≡ false)
Bool-cases true = inl refl
Bool-cases false = inr refl

-- `unsigned` and `unsigned long` have 32 bits on the Classic target.
abbrev pub word : ℕ
word = 2 ^ 32

-- `n++` on such a counter
abbrev pub inc : ℕ → ℕ
inc n = (n + 1) % word

-- Over a small range, a test is checked at each number by evaluation.
unfoldable pub all_below : ℕ → (ℕ → Bool) → Bool
all_below zero test = true
all_below (suc top) test = let rest = all_below top test in test top && rest

pub all_below_sound :
    (top : ℕ) (test : ℕ → Bool) (k : ℕ) → all_below top test ≡ true → k < top → test k ≡ true
unfolding all_below
all_below_sound zero test k passed lt = absurd (omega arith)
all_below_sound (suc top) test k passed lt =
    let earlier = all_below_sound top test k in ground (arith, earlier)

pub Option-cases {ℓ} : {A : Type ℓ} (o : Option A) → (o ≡ none) ⊎ ((a : A) × (o ≡ some a))
Option-cases none = inl refl
Option-cases (some a) = inr (a, refl)

-- `none` is a read outside of the memory that the caller gave, or a loop that has used up its fuel.
infixl 5 ◌>>=◌
abbrev pub ◌>>=◌ {ℓ κ} : {A : Type ℓ} {B : Type κ} → Option A → (A → Option B) → Option B
none >>= f = none
some a >>= f = f a

-- The computation ends without either, and its result satisfies `P`.
abbrev pub Returns {ℓ} : {A : Type ℓ} → (A → Type 0) → Option A → Type 0
Returns P none = ⊥
Returns P (some a) = P a

-- Rules for branches and for computations in sequence.
pub if_Returns {ℓ} :
    {A : Type ℓ} (P : A → Type 0) (b : Bool) (x y : Option A)
    → (b ≡ true → Returns P x)
    → (b ≡ false → Returns P y)
    → Returns P (if b then x else y)
if_Returns P true x y hx hy = hx refl
if_Returns P false x y hx hy = hy refl

pub then_Returns {ℓ κ} :
    {A : Type ℓ} {B : Type κ} (Q : A → Type 0) (P : B → Type 0) (o : Option A) (f : A → Option B)
    → Returns Q o
    → ((x : A) → Q x → Returns P (f x))
    → Returns P (o >>= f)
then_Returns Q P none f h more = h
then_Returns Q P (some x) f h more = more x h

pub elim_Returns {ℓ} :
    {A : Type ℓ} (P : A → Type 0) (b : Bool) (x y : Option A)
    → (b ≡ true → Returns P x)
    → (b ≡ false → Returns P y)
    → Returns P (elim b [ true ↦ x | false ↦ y ])
elim_Returns P true x y hx hy = hx refl
elim_Returns P false x y hx hy = hy refl

pub Returns-map {ℓ} :
    {A : Type ℓ} (P Q : A → Type 0) (o : Option A)
    → Returns P o
    → ((x : A) → P x → Q x)
    → Returns Q o
Returns-map P Q none h more = h
Returns-map P Q (some x) h more = more x h

pub if_true {ℓ} : {A : Type ℓ} (b : Bool) (x y : A) → b ≡ true → (if b then x else y) ≡ x
if_true true x y e = refl
if_true false x y e = cc

pub if_false {ℓ} : {A : Type ℓ} (b : Bool) (x y : A) → b ≡ false → (if b then x else y) ≡ y
if_false true x y e = cc
if_false false x y e = refl

-- a property of both branches
pub pick {ℓ} :
    {A : Type ℓ} (P : A → Type 0) (b : Bool) (x y : A) → P x → P y → P (if b then x else y)
pick P true x y hx hy = hx
pick P false x y hx hy = hy

pub Returns-both {ℓ} :
    {A : Type ℓ} (P Q : A → Type 0) (o : Option A)
    → Returns P o
    → Returns Q o
    → Returns (λ a. P a × Q a) o
Returns-both P Q none p q = p
Returns-both P Q (some a) p q = (p, q)

-- The result, if there is one, satisfies `P`.
abbrev pub Ends {ℓ} : {A : Type ℓ} → (A → Type 0) → Option A → Type 0
Ends P none = Unit
Ends P (some a) = P a

pub then_Ends {ℓ κ} :
    {A : Type ℓ} {B : Type κ} (Q : A → Type 0) (P : B → Type 0) (o : Option A) (f : A → Option B)
    → Ends Q o
    → ((x : A) → Q x → Ends P (f x))
    → Ends P (o >>= f)
then_Ends Q P none f h more = tt
then_Ends Q P (some x) f h more = more x h

pub elim_Ends {ℓ} :
    {A : Type ℓ} (P : A → Type 0) (b : Bool) (x y : Option A)
    → Ends P x
    → Ends P y
    → Ends P (elim b [ true ↦ x | false ↦ y ])
elim_Ends P true x y hx hy = hx
elim_Ends P false x y hx hy = hy

-- A computation that ends, with two properties of its result.
pub Returns-Ends {ℓ} :
    {A : Type ℓ} (P Q : A → Type 0) (o : Option A)
    → Returns P o
    → Ends Q o
    → Returns (λ x. P x × Q x) o
Returns-Ends P Q none h k = h
Returns-Ends P Q (some x) h k = (h, k)
