-- ===== src/Tests/Tokens.antt =====
-- Libraries that passwords and tokens of backend/app/services/auth.py can stand on: a hasher that marks what
-- it hashed, and tokens that are not signed.
use cyber.Base.{
  ◌⊎◌, Bool-cases, inl, inr, ap, ℕ, zero, suc, ◌*◌, ◌<◌, ◌≡◌, refl, subst, Bool, true, false,
  Option, none, some, List, [], ◌∷◌, arith, ltb, ◌==◌, if◌then◌else◌, Text, text_same, get_elem?,
}
use cyber.Identity.{Role}
use cyber.Auth.Data.{is_ascii, Hasher, Jwt, TokenClaims, TokenType}

abbrev hash : ℕ → Text → Text
hash salt p = 36 ∷ p

abbrev is_encoded : Text → Bool
is_encoded [] = false
is_encoded (c ∷ t) = c == 36

-- An error that is not caught for a first character that is not ASCII.
abbrev verify : Text → Text → Option Bool
verify [] p = some false
verify (c ∷ t) p = if c == 36 then some (text_same t p) else if ltb c 128 then some false else none

pub text_same_refl : (t : Text) → text_same t t ≡ true
text_same_refl [] = refl
text_same_refl (c ∷ t) = ground (arith, text_same_refl t)

pub verify_unencoded :
    (e p : Text)
    → is_encoded e ≡ false
    → (verify e p ≡ some false) ⊎ ((is_ascii e ≡ false) × (verify e p ≡ none))
verify_unencoded [] p h = inl refl
verify_unencoded (c ∷ t) p h = elim (Bool-cases (ltb c 128)) [
  | inl narrow ↦ inl (rw (h, narrow) refl)
  | inr wide ↦ inr (rw wide refl, rw (h, wide) refl)
]

abbrev pub marker : Hasher
marker = record {
  hash = hash;
  verify = verify;
  needs_rehash = λ e. false;
  is_encoded = is_encoded;
  verify-hash = λ salt p. ap some (text_same_refl p);
  verify_unencoded = verify_unencoded;
}

abbrev type_code : TokenType → ℕ
type_code TokenType.access = 0
type_code TokenType.refresh = 1
type_code TokenType.password_reset = 2

abbrev types : List TokenType
types = TokenType.access ∷ TokenType.refresh ∷ TokenType.password_reset ∷ []

abbrev role_code : Option Role → ℕ
role_code none = 0
role_code (some Role.viewer) = 1
role_code (some Role.security_engineer) = 2
role_code (some Role.admin) = 3
role_code (some Role.owner) = 4
role_code (some Role.developer) = 5

abbrev roles : List (Option Role)
roles =
    none
    ∷ some Role.viewer
    ∷ some Role.security_engineer
    ∷ some Role.admin
    ∷ some Role.owner
    ∷ some Role.developer
    ∷ []

abbrev option_code : Option ℕ → ℕ
option_code none = 0
option_code (some n) = suc n

abbrev option_of : ℕ → Option ℕ
option_of zero = none
option_of (suc n) = some n

abbrev pub encode : TokenClaims → Text
encode c =
    c.subject
    ∷ type_code c.token_type
    ∷ c.jti
    ∷ option_code c.organization_id
    ∷ role_code c.role
    ∷ c.issued_at
    ∷ c.expires_at
    ∷ []

-- The claims of a token, from what its fields are read as.
abbrev build :
    (subject : ℕ)
    → Option TokenType
    → (jti : ℕ) → Option ℕ
    → Option (Option Role)
    → (issued_at expires_at : ℕ) → Option TokenClaims
build subject none jti org role issued_at expires_at = none
build subject (some t) jti org none issued_at expires_at = none
build subject (some t) jti org (some r) issued_at expires_at = some (record {
  subject = subject;
  token_type = t;
  jti = jti;
  organization_id = org;
  role = r;
  issued_at = issued_at;
  expires_at = expires_at;
})

abbrev read_claims : (subject kind jti org role issued_at expires_at : ℕ) → Option TokenClaims
read_claims subject kind jti org role issued_at expires_at =
    build subject (get_elem? types kind) jti (option_of org) (get_elem? roles role) issued_at
      expires_at

abbrev live : ℕ → Option TokenClaims → Option TokenClaims
live now none = none
live now (some c) = if ltb now (c.expires_at * 1000) then some c else none

abbrev decode : ℕ → Text → Option TokenClaims
decode now (subject ∷ kind ∷ jti ∷ org ∷ role ∷ issued_at ∷ expires_at ∷ []) =
    live now (read_claims subject kind jti org role issued_at expires_at)
decode now _ = none

types_listed : (t : TokenType) → get_elem? types (type_code t) ≡ some t
types_listed TokenType.access = refl
types_listed _ = refl

roles_listed : (r : Option Role) → get_elem? roles (role_code r) ≡ some r
roles_listed none = refl
roles_listed (some Role.owner) = refl
roles_listed (some _) = refl

option_read : (o : Option ℕ) → option_of (option_code o) ≡ o
option_read none = refl
option_read (some n) = refl

claims_read :
    (c : TokenClaims)
    → read_claims c.subject
        (type_code c.token_type)
        c.jti
        (option_code c.organization_id)
        (role_code c.role)
        c.issued_at
        c.expires_at
      ≡ some c
claims_read c =
    rw (types_listed c.token_type, roles_listed c.role, option_read c.organization_id) refl

pub decode-encode :
    (now : ℕ) (c : TokenClaims) → now < c.expires_at * 1000 → decode now (encode c) ≡ some c
decode-encode now c h = rw (claims_read c) (ground (arith, h))

live_expired :
    (now : ℕ) (o : Option TokenClaims) (c : TokenClaims)
    → live now o ≡ some c
    → now < c.expires_at * 1000
live_expired now none c h = cc
live_expired now (some d) c h = ground (arith, h)

pub decode_expired :
    (now : ℕ) (t : Text) (c : TokenClaims) → decode now t ≡ some c → now < c.expires_at * 1000
decode_expired now [] c h = cc
decode_expired now (_ ∷ []) c h = cc
decode_expired now (_ ∷ _ ∷ []) c h = cc
decode_expired now (_ ∷ _ ∷ _ ∷ []) c h = cc
decode_expired now (_ ∷ _ ∷ _ ∷ _ ∷ []) c h = cc
decode_expired now (_ ∷ _ ∷ _ ∷ _ ∷ _ ∷ []) c h = cc
decode_expired now (_ ∷ _ ∷ _ ∷ _ ∷ _ ∷ _ ∷ []) c h = cc
decode_expired now (subject ∷ kind ∷ jti ∷ org ∷ role ∷ issued_at ∷ expires_at ∷ []) c h =
    live_expired now (read_claims subject kind jti org role issued_at expires_at) c h
decode_expired now (_ ∷ _ ∷ _ ∷ _ ∷ _ ∷ _ ∷ _ ∷ _ ∷ rest) c h = cc

abbrev pub plain : Jwt
plain = record {
  encode = encode;
  decode = decode;
  decode-encode = λ now c issued early. decode-encode now c early;
  decode_expired = decode_expired;
}

-- A token is read as the claims that it was made of, or not at all.
pub signed :
    (c : TokenClaims) (at : ℕ) (read_as : TokenClaims)
    → plain.decode at (encode c) ≡ some read_as
    → read_as ≡ c
signed c at read_as h =
    let e : live at (some c) ≡ some read_as =
      subst (λ o. live at o ≡ some read_as) (claims_read c) h in
    ground (arith, e)
