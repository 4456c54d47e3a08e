-- ===== src/Auth/Authority.antt =====
-- Whose authority a request has: the membership as it is stored, never the role that a token carries.
use mathlib.Core.List.{Memᴰ}
use cyber.Base.{
  ℕ, ◌≡◌, ◌&&◌, ◌==◌, ==_iff, Option, none, some, Option-cases, inl, inr, Bool-cases, Mem-keep,
  List, [], ◌∷◌, arith, keep,
}
use cyber.Base.Errors.{ok}
use cyber.Identity.{Role, Principal}
use cyber.Repository.{head_of}
use cyber.Auth.Data.{
  User, Membership, TokenClaims, resolve_membership, precedes, first_membership, default_membership,
  active_membership, member_principal,
}
use cyber.Auth.Session.{resolve_principal}

pub Mem-head_of {ℓ} : {A : Type ℓ} (xs : List A) {a : A} → head_of xs ≡ some a → Memᴰ a xs
Mem-head_of [] h = cc
Mem-head_of (x ∷ xs) h = Memᴰ.head cc

Mem-first_membership :
    (ms : List Membership) {m : Membership} → first_membership ms ≡ some m → Memᴰ m ms
unfolding first_membership
Mem-first_membership [] h = cc
Mem-first_membership (x ∷ ms) h = elim (Option-cases (first_membership ms)) [
  | inl alone ↦ Memᴰ.head (ground (arith, h, alone))
  | inr (best, found) ↦ elim (Bool-cases (precedes x best)) [
    | inl ahead ↦ Memᴰ.head (ground (arith, h, found, ahead))
    | inr behind ↦ Memᴰ.tail (Mem-first_membership ms (ground (arith, h, found, behind)))
  ]
]

default_membership-Mem :
    (user_id : ℕ) (members : List Membership) {m : Membership}
    → default_membership user_id members ≡ some m
    → Memᴰ m members × (m.user_id ≡ user_id)
unfolding default_membership
default_membership-Mem user_id members {m} h =
    let (member, own) =
      Mem-keep _ members (Mem-first_membership (keep (λ m. m.user_id == user_id) members) h) in
    (member, (==_iff _ _).0 own)

resolve_membership-Mem :
    (user_id organization_id : ℕ) (members : List Membership) {m : Membership}
    → resolve_membership user_id organization_id members ≡ some m
    → Memᴰ m members × (m.user_id ≡ user_id) × (m.organization_id ≡ organization_id)
unfolding resolve_membership
resolve_membership-Mem user_id organization_id members {m} h =
    let (member, own) = Mem-keep _ members (
      Mem-head_of (keep (λ m. m.user_id == user_id && m.organization_id == organization_id) members)
        h) in
    (member, ground (arith, own), ground (arith, own))

active_membership-Mem :
    (user_id : ℕ) (requested : Option ℕ) (members : List Membership) {m : Membership}
    → active_membership user_id requested members ≡ some m
    → Memᴰ m members × (m.user_id ≡ user_id)
unfolding active_membership
active_membership-Mem user_id none members h = default_membership-Mem user_id members h
active_membership-Mem user_id (some requested) members {m} h =
    elim (Option-cases (resolve_membership user_id requested members)) [
      | inl stale ↦ default_membership-Mem user_id members (ground (arith, h, stale))
      | inr (row, found) ↦
          let same : resolve_membership user_id requested members ≡ some m =
            ground (arith, h, found) in
          let (member, own, here) = resolve_membership-Mem user_id requested members same in
          (member, own)
    ]

-- A request is made with the role of a membership that is stored for the user; the role that the token
-- carries has no part in it.
pub resolve_principal_lem :
    (u : User) (c : TokenClaims) (role : Option Role) (members : List Membership) (p : Principal)
    → resolve_principal u c members ≡ ok p
    → ((m : Membership) × Memᴰ m members
        × (m.user_id ≡ u.id)
        × (p.user_id ≡ some u.id)
        × (p.organization_id ≡ m.organization_id)
        × (p.role ≡ m.role))
      × (resolve_principal u (record c { role = role }) members ≡ ok p)
unfolding resolve_principal member_principal
resolve_principal_lem u c role members p h =
    elim (Option-cases (active_membership u.id c.organization_id members)) [
      | inl outside ↦ ground (arith, h, outside)
      | inr (m, found) ↦
          let (member, own) = active_membership-Mem u.id c.organization_id members found in
          (
            (
              m,
              member,
              own,
              ground (arith, h, found),
              ground (arith, h, found),
              ground (arith, h, found),
            ),
            h,
          )
    ]
