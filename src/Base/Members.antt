-- ===== src/Base/Members.antt =====
-- Members of lists, and predicates that all members meet.
use mathlib.Core.Path.{◌≡◌, refl, sym, ap, ◌∙◌}
use mathlib.Core.Logic.{◌⊎◌, inl, inr}
use mathlib.Core.Bool.{Bool, true, false}
use mathlib.Core.List.{List, [], ◌∷◌, ◌++◌, map, Memᴰ}
use native.Mathlib.Omega.{arith}
use cyber.Base.Tests.{if◌then◌else◌}
use cyber.Base.Lists.{keep, some_of, All}

Mem_cases {ℓ} :
    {A : Type ℓ} (b : Bool) (x : A) (ys : List A) {a : A}
    → Memᴰ a (if b then x ∷ ys else ys)
    → ((a ≡ x) × (b ≡ true)) ⊎ Memᴰ a ys
Mem_cases true x ys (Memᴰ.head e) = inl (e, refl)
Mem_cases true x ys (Memᴰ.tail m) = inr m
Mem_cases false x ys m = inr m

-- A row of a selection is in the table and meets the condition.
pub Mem-keep {ℓ} :
    {A : Type ℓ} (p : A → Bool) (xs : List A) {a : A}
    → Memᴰ a (keep p xs)
    → Memᴰ a xs × (p a ≡ true)
Mem-keep p [] m = elim m [ ]
Mem-keep p (x ∷ xs) m = elim (Mem_cases (p x) x (keep p xs) m) [
  | inl (e, kept) ↦ (Memᴰ.head e, ap p e ∙ kept)
  | inr rest ↦ let (member, meets) = Mem-keep p xs rest in (Memᴰ.tail member, meets)
]

-- A member that passes is enough.
pub some_of-Mem {ℓ} :
    {A : Type ℓ} (p : A → Bool) (xs : List A) {x : A} → Memᴰ x xs → p x ≡ true → some_of p xs ≡ true
some_of-Mem p [] m h = elim m [ ]
some_of-Mem p (y ∷ xs) (Memᴰ.head e) h =
    let here : p y ≡ true = sym (ap p e) ∙ h in ground (arith, here)
some_of-Mem p (y ∷ xs) (Memᴰ.tail m) h = ground (arith, some_of-Mem p xs m h)

pub All-append {ℓ κ} :
    {A : Type ℓ} (P : A → Type κ) (xs ys : List A) → All P xs → All P ys → All P (xs ++ ys)
All-append P [] ys f g = g
All-append P (x ∷ xs) ys (here, f) g = (here, All-append P xs ys f g)

-- Nothing is a member of a list that is empty.
pub no_member {ℓ κ} : {A : Type ℓ} {B : Type κ} {xs : List A} {a : A} → xs ≡ [] → Memᴰ a xs → B
no_member {xs = []} e m = elim m [ ]
no_member {xs = x ∷ xs} e m = cc

-- A member of a mapped list comes from a member.
pub Mem-map {ℓ κ} :
    {A : Type ℓ} {B : Type κ} (f : A → B) (xs : List A) {b : B}
    → Memᴰ b (map f xs)
    → (a : A) × Memᴰ a xs × (b ≡ f a)
Mem-map f [] m = elim m [ ]
Mem-map f (x ∷ xs) (Memᴰ.head e) = (x, Memᴰ.head refl, e)
Mem-map f (x ∷ xs) (Memᴰ.tail m) = let (a, member, e) = Mem-map f xs m in (a, Memᴰ.tail member, e)
