-- ===== src/Auth/Data.antt =====
-- Users, memberships and tokens, and the libraries that hash passwords and sign tokens.
use Prim.Native.String.{String}
use cyber.Base.{
  ℕ, ◌+◌, ◌*◌, ◌/◌, ◌<◌, ◌≤◌, ◌⊎◌, ◌≡◌, Bool, true, false, ◌&&◌, ◌==◌, Option, none, some, List, [],
  ◌∷◌, keep, ltb, leb, if◌then◌else◌, Text, lower, strip, text_same, length, one_of, codes,
}
use cyber.Base.Errors.{authentication, user_error, internal, Result, ok, err}
use cyber.Identity.{Role, Principal, ActorType}
use cyber.Repository.{head_of}

-- `User`
pub record User : Type 0 where
  pub id : ℕ
  pub email : String
  pub password_hash : Text
  pub is_active : Bool
  pub last_login_at : Option ℕ
  pub failed_login_count : ℕ
  pub locked_until : Option ℕ
  pub password_changed_at : Option ℕ

-- `Membership`
pub record Membership : Type 0 where
  pub id : ℕ
  pub organization_id : ℕ
  pub user_id : ℕ
  pub role : Role
  pub is_default : Bool
  pub created_at : ℕ
  pub invited_by_id : Option ℕ
  pub accepted_at : Option ℕ

-- `settings.security`
pub record SecuritySettings : Type 0 where
  pub login_max_attempts : ℕ
  pub login_lockout_seconds : ℕ
  pub access_token_ttl_minutes : ℕ
  pub refresh_token_ttl_days : ℕ
  pub password_reset_ttl_minutes : ℕ
  pub min_password_length : ℕ

-- `text.isascii()`
abbrev pub is_ascii : Text → Bool
is_ascii [] = true
is_ascii (c ∷ text) = ltb c 128 && is_ascii text

-- `argon2.PasswordHasher`: `hash` with the salt that it drew, and `verify`, whose first argument is the
-- encoded hash: the three errors that `verify_password` catches are `some false`, any other is `none`. It
-- accepts what it hashed. A text that is no encoded hash is refused by one of the three; one that is not ASCII
-- may be refused by another error, since an encoded hash is read as ASCII.
pub record Hasher : Type 0 where
  pub hash : (salt : ℕ) → Text → Text
  pub verify : (encoded password : Text) → Option Bool
  pub needs_rehash : Text → Bool
  pub is_encoded : Text → Bool
  pub verify-hash : (salt : ℕ) (p : Text) → verify (hash salt p) p ≡ some true
  pub verify_unencoded :
      (e p : Text)
      → is_encoded e ≡ false
      → (verify e p ≡ some false) ⊎ ((is_ascii e ≡ false) × (verify e p ≡ none))

pub data TokenType : Type 0 where
  access refresh password_reset : TokenType

-- The payload of a token, as `TokenClaims` and its `raw`; `issued_at` and `expires_at` count seconds.
pub record TokenClaims : Type 0 where
  pub subject : ℕ
  pub token_type : TokenType
  pub jti : ℕ
  pub organization_id : Option ℕ
  pub role : Option Role
  pub issued_at : ℕ
  pub expires_at : ℕ

-- The `jwt` library with the secret and the issuer of the settings: `decode` gives `none` for its
-- errors. It reads back what it signed from the time of issue until it expires, and nothing that has expired.
pub record Jwt : Type 0 where
  pub encode : TokenClaims → Text
  pub decode : (now : ℕ) → Text → Option TokenClaims
  pub decode-encode :
      (now : ℕ) (c : TokenClaims)
      → c.issued_at * 1000 ≤ now
      → now < c.expires_at * 1000
      → decode now (encode c) ≡ some c
  pub decode_expired :
      (now : ℕ) (t : Text) (c : TokenClaims) → decode now t ≡ some c → now < c.expires_at * 1000

-- `verify_password`: the password comes first. An error that is none of the three that it catches goes on.
unfoldable pub verify_password : Hasher → (password password_hash : Text) → Result Bool
verify_password h password password_hash = elim (h.verify password_hash password) [
  | none ↦ err internal
  | some matched ↦ ok matched
]

-- `_COMMON_PASSWORDS`
abbrev pub common_passwords : List Text
common_passwords =
    codes "password"
    ∷ codes "password1"
    ∷ codes "password123"
    ∷ codes "123456789012"
    ∷ codes "qwertyuiop12"
    ∷ codes "administrator"
    ∷ codes "letmein12345"
    ∷ codes "changeme1234"
    ∷ codes "welcome12345"
    ∷ codes "cynuxpassword"
    ∷ codes "securitypassword"
    ∷ []

-- `validate_password_strength`
unfoldable pub validate_password_strength : SecuritySettings → Text → Result (Unit {0})
validate_password_strength s password =
    if ltb (length password) s.min_password_length
    then err user_error
    else if ltb 1024 (length password)
    then err user_error
    else if one_of (lower password) common_passwords
    then err user_error
    else ok tt

-- `token_type == expect`
unfoldable pub is_type : TokenType → TokenType → Bool
is_type access access = true
is_type refresh refresh = true
is_type password_reset password_reset = true
is_type _ _ = false

-- `create_token`, its claims; `jti` is the one that it drew.
unfoldable pub create_token :
    (now jti ttl_seconds subject : ℕ) → TokenType → Option ℕ → Option Role → TokenClaims
create_token now jti ttl_seconds subject kind organization_id role = record {
  subject = subject;
  token_type = kind;
  jti = jti;
  organization_id = organization_id;
  role = role;
  issued_at = now / 1000;
  expires_at = (now + ttl_seconds * 1000) / 1000;
}

-- `decode_token`
unfoldable pub decode_token : Jwt → (now : ℕ) → Text → TokenType → Result TokenClaims
unfolding is_type
decode_token j now token expect = elim (j.decode now token) [
  | none ↦ err authentication
  | some c ↦ if is_type c.token_type expect then ok c else err authentication
]

-- `_load_user_by_email`, over the table of users; an address is unique.
unfoldable pub load_user_by_email : Text → List User → Option User
load_user_by_email email users =
    head_of (keep (λ u. text_same (codes u.email) (lower (strip email))) users)

-- `_load_user`
unfoldable pub load_user : ℕ → List User → Result User
load_user id users = elim (head_of (keep (λ u. u.id == id) users)) [
  | none ↦ err authentication
  | some u ↦ ok u
]

-- `_assert_active`
unfoldable pub assert_active : User → Result (Unit {0})
assert_active u = if u.is_active then ok tt else err authentication

-- `resolve_membership`; an organization and a user have one membership at most.
unfoldable pub resolve_membership :
    (user_id organization_id : ℕ) → List Membership → Option Membership
resolve_membership user_id organization_id members =
    head_of (keep (λ m. m.user_id == user_id && m.organization_id == organization_id) members)

-- Whether `ORDER BY is_default DESC, created_at` puts the first before the second.
unfoldable pub precedes : Membership → Membership → Bool
precedes a b =
    if a.is_default
    then (if b.is_default then leb a.created_at b.created_at else true)
    else (if b.is_default then false else leb a.created_at b.created_at)

-- The row that comes first in that order.
unfoldable pub first_membership : List Membership → Option Membership
unfolding precedes
first_membership [] = none
first_membership (m ∷ ms) = elim (first_membership ms) [
  | none ↦ some m
  | some best ↦ some (if precedes m best then m else best)
]

-- `default_membership`
unfoldable pub default_membership : ℕ → List Membership → Option Membership
unfolding first_membership
default_membership user_id members = first_membership (keep (λ m. m.user_id == user_id) members)

-- `_active_membership`
unfoldable pub active_membership : ℕ → Option ℕ → List Membership → Option Membership
unfolding resolve_membership default_membership
active_membership user_id none members = default_membership user_id members
active_membership user_id (some requested) members =
    elim (resolve_membership user_id requested members) [
      | some m ↦ some m
      | none ↦ default_membership user_id members
    ]

-- The principal of a membership.
unfoldable pub member_principal : User → Membership → Principal
member_principal u m = record {
  user_id = some u.id;
  organization_id = m.organization_id;
  role = m.role;
  email = some u.email;
  actor_type = ActorType.user;
  source_ip = none;
  user_agent = none;
  request_id = none;
  trace_id = none;
}
