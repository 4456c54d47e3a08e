-- ===== src/Base/Lists.antt =====
-- Lists measured and searched by native numbers, under the library's names; predicates on lists
-- by recursion, which the tactics read.
use Prim.Native.Nat.{ℕ, zero, suc, ◌+◌, ◌≤◌}
use Prim.Native.Char.{code}
use Prim.Native.String.{String}
use mathlib.Core.Path.{◌≡◌, refl, sym, ap, subst}
use mathlib.Core.Logic.{◌↔◌}
use mathlib.Core.Bool.{Bool, true, false, ◌&&◌, ◌||◌}
use mathlib.Core.Option.{Option, none, some}
use mathlib.Core.List.{List, [], ◌∷◌, ◌++◌, Memᴰ}
use native.Mathlib.Omega.{arith}
use cyber.Base.Tests.{if◌then◌else◌, ◌==◌, ==_iff}

module _ {ℓ} {A : Type ℓ} where
  abbrev pub length : List A → ℕ
  length [] = 0
  length (x ∷ xs) = suc (length xs)

  abbrev pub take : ℕ → List A → List A
  take zero xs = []
  take (suc n) [] = []
  take (suc n) (x ∷ xs) = x ∷ take n xs

  abbrev pub drop : ℕ → List A → List A
  drop zero xs = xs
  drop (suc n) [] = []
  drop (suc n) (x ∷ xs) = drop n xs

  abbrev pub get_elem? : List A → ℕ → Option A
  get_elem? [] i = none
  get_elem? (x ∷ xs) zero = some x
  get_elem? (x ∷ xs) (suc i) = get_elem? xs i

  -- `[x for x in xs if p(x)]`
  abbrev pub keep : (A → Bool) → List A → List A
  keep p [] = []
  keep p (x ∷ xs) = if p x then x ∷ keep p xs else keep p xs

  -- `any(p(x) for x in xs)`
  abbrev pub some_of : (A → Bool) → List A → Bool
  some_of p [] = false
  some_of p (x ∷ xs) = p x || some_of p xs

  abbrev pub All {κ} : (A → Type κ) → List A → Type κ
  All P [] = Unit
  All P (x ∷ xs) = P x × All P xs

-- Types whose values are compared by `==`.
pub record Comparable {ℓ} (A : Type ℓ) : Type ℓ where
  pub equals : A → A → Bool
  pub equals_iff : (a b : A) → (equals a b ≡ true) ↔ (a ≡ b)

instance abbrev pub nat_eq : Comparable ℕ
nat_eq = record { equals = ◌==◌; equals_iff = ==_iff }

-- The members of an enumeration are listed once each, so their places tell them apart.
pub eq_by_iff {ℓ} :
    {A : Type ℓ} (members : List A) (place : A → ℕ)
    → ((a : A) → get_elem? members (place a) ≡ some a)
    → (a b : A) → ((place a == place b) ≡ true) ↔ (a ≡ b)
eq_by_iff members place found a b = (
  λ h. let e : place a ≡ place b = (==_iff _ _).0 h in cc (found a, found b),
  λ h. (==_iff _ _).1 (ap place h),
)

abbrev pub eq_by {ℓ} :
    {A : Type ℓ} (members : List A) (place : A → ℕ)
    → ((a : A) → get_elem? members (place a) ≡ some a)
    → Comparable A
eq_by members place found = record {
  equals = λ a b. place a == place b;
  equals_iff = eq_by_iff members place found;
}

module _ {ℓ} {A : Type ℓ} ⦃e : Comparable A⦄ where
  -- `a in xs`
  abbrev pub contains : A → List A → Bool
  contains a [] = false
  contains a (x ∷ xs) = e.equals a x || contains a xs

  -- `set(ys).issuperset(xs)`
  abbrev pub is_subset : List A → List A → Bool
  is_subset [] ys = true
  is_subset (x ∷ xs) ys = contains x ys && is_subset xs ys

  -- Every member of the first list is a member of the second.
  abbrev pub Within : List A → List A → Type ℓ
  Within xs ys = (a : A) → contains a xs ≡ true → contains a ys ≡ true

  pub is_subset-Within : (xs ys : List A) → is_subset xs ys ≡ true → Within xs ys
  is_subset-Within [] ys h a m = cc
  is_subset-Within (x ∷ xs) ys h a m =
      ground (arith, is_subset-Within xs ys, e.equals_iff a x, is_subset-Within xs ys _ a)

  pub contains-keep :
      (p : A → Bool) (a : A) (xs : List A) → contains a (keep p xs) ≡ (contains a xs && p a)
  contains-keep p a [] = refl
  contains-keep p a (x ∷ xs) = ground (arith, contains-keep p a xs, e.equals_iff a x)

  pub contains-take :
      (n : ℕ) (a : A) (xs : List A) → contains a (take n xs) ≡ true → contains a xs ≡ true
  contains-take zero a xs h = cc
  contains-take (suc n) a [] h = h
  contains-take (suc n) a (x ∷ xs) h = ground (arith, contains-take n a xs)

module _ {ℓ} {A : Type ℓ} where
  pub length-append : (xs ys : List A) → length (xs ++ ys) ≡ length xs + length ys
  length-append [] ys = omega arith
  length-append (x ∷ xs) ys = omega (arith, length-append xs ys)

  pub length-take-le : (n : ℕ) (xs : List A) → length (take n xs) ≤ n
  length-take-le zero xs = omega arith
  length-take-le (suc n) [] = omega arith
  length-take-le (suc n) (x ∷ xs) = omega (arith, length-take-le n xs)

  pub length-keep-le : (p : A → Bool) (xs : List A) → length (keep p xs) ≤ length xs
  length-keep-le p [] = omega arith
  length-keep-le p (x ∷ xs) = ground (arith, length-keep-le p xs)

pub weaken-All {ℓ κ μ} :
    {A : Type ℓ} {P : A → Type κ} {Q : A → Type μ} (xs : List A)
    → ((a : A) → P a → Q a)
    → All P xs
    → All Q xs
weaken-All [] f h = tt
weaken-All (x ∷ xs) f (here, rest) = (f x here, weaken-All xs f rest)

pub All-Memᴰ {ℓ κ} :
    {A : Type ℓ} (P : A → Type κ) (xs : List A) → All P xs → {a : A} → Memᴰ a xs → P a
All-Memᴰ P [] h m = elim m [ ]
All-Memᴰ P (x ∷ xs) h (Memᴰ.head e) = subst P (sym e) h.0
All-Memᴰ P (x ∷ xs) h (Memᴰ.tail m) = All-Memᴰ P xs h.1 m

-- A text that the code slices or measures is the list of its code points.
abbrev pub Text : Type 0
Text = List ℕ

-- The code points of a literal.
abbrev pub codes : String → Text
codes String.[] = []
codes (String.◌∷◌ c s) = code c ∷ codes s
