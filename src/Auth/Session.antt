-- ===== src/Auth/Session.antt =====
-- `authenticate_token`, `resolve_principal`, `refresh`, `logout`, `switch_organization`.
use cyber.Base.{ℕ, ◌-◌, ◌*◌, ◌/◌, Option, none, some, List, ◌==◌, if◌then◌else◌, Text, map_option}
use cyber.Base.Errors.{authentication, permission_denied, not_found, Result, ok, err, ◌>>=◌}
use cyber.Identity.{Principal}
use cyber.Audit
use cyber.Audit.{AuditEvent, record_event}
use cyber.Redis.DenyList.{DenyList, revoke_token, revoke_all_for_user, is_revoked}
use cyber.Auth.Data.{
  User, Membership, SecuritySettings, Jwt, TokenClaims, TokenType, decode_token, load_user,
  resolve_membership, active_membership, member_principal,
}
use cyber.Auth.Login.{TokenPair, issue_pair}

-- `_revoke`: a token that has less than a second left is not stored.
unfoldable pub revoke : ℕ → TokenClaims → DenyList → DenyList
revoke now c d =
    let ttl = (c.expires_at * 1000 - now) / 1000 in
    if ttl == 0 then d else revoke_token now c.jti ttl d

-- `authenticate_token`, from the claims that it read.
unfoldable pub admit : ℕ → DenyList → List User → TokenClaims → Result (User × TokenClaims)
admit now d users c =
    if is_revoked now c.jti c.subject c.issued_at d
    then err authentication
    else (load_user c.subject users >>= λ u. if u.is_active then ok (u, c) else err authentication)

-- `authenticate_token`
unfoldable pub authenticate_token :
    Jwt → ℕ → Text → TokenType → DenyList → List User → Result (User × TokenClaims)
authenticate_token j now token expect d users =
    decode_token j now token expect >>= admit now d users

-- `resolve_principal`; the provenance of the request is not modelled.
unfoldable pub resolve_principal : User → TokenClaims → List Membership → Result Principal
resolve_principal u c members = elim (active_membership u.id c.organization_id members) [
  | none ↦ err permission_denied
  | some m ↦ ok (member_principal u m)
]

-- What a refresh leaves: the new pair, the deny list, and the audit row of a user with a membership.
pub record Refreshed : Type 0 where
  pub tokens : TokenPair
  pub denied : DenyList
  pub event : Option AuditEvent

unfoldable pub refresh_event : ℕ → User → Membership → AuditEvent
refresh_event now u m =
    record_event now Audit.token_refresh (some (member_principal u m)) none (some u.id)
      Audit.success

-- `refresh`, from the account and the claims.
unfoldable pub rotate :
    SecuritySettings
    → (now access_jti refresh_jti : ℕ) → List Membership
    → DenyList
    → User × TokenClaims
    → Result Refreshed
rotate s now access_jti refresh_jti members d (u, c) =
    let membership = active_membership u.id c.organization_id members in
    ok (record {
      tokens = issue_pair s now access_jti refresh_jti u membership;
      denied = revoke now c d;
      event = map_option (refresh_event now u) membership;
    })

-- `refresh`: the deny list that it read, and the one that it writes to.
unfoldable pub refresh :
    Jwt
    → SecuritySettings
    → (now access_jti refresh_jti : ℕ) → Text
    → List Membership
    → List User
    → (seen d : DenyList) → Result Refreshed
refresh j s now access_jti refresh_jti token members users seen d =
    authenticate_token j now token TokenType.refresh seen users
    >>= rotate s now access_jti refresh_jti members d

-- The second half of `logout`, on a refresh token that could be read.
unfoldable pub logout_refresh : ℕ → TokenClaims → Result TokenClaims → DenyList → DenyList
logout_refresh now c (err e) d = d
logout_refresh now c (ok r) d = if r.subject == c.subject then revoke now r d else d

-- `logout`, on the deny list
unfoldable pub logout : Jwt → ℕ → TokenClaims → Option Text → DenyList → DenyList
logout j now c none d = revoke now c d
logout j now c (some token) d =
    logout_refresh now c (decode_token j now token TokenType.refresh) (revoke now c d)

-- `switch_organization`
unfoldable pub switch_organization :
    SecuritySettings
    → (now access_jti refresh_jti organization_id : ℕ) → User
    → List Membership
    → Result TokenPair
switch_organization s now access_jti refresh_jti organization_id u members =
    elim (resolve_membership u.id organization_id members) [
      | none ↦ err not_found
      | some m ↦ ok (issue_pair s now access_jti refresh_jti u (some m))
    ]

-- `_revoke_all_sessions`
unfoldable pub revoke_all_sessions : SecuritySettings → ℕ → User → DenyList → DenyList
revoke_all_sessions s now u d = revoke_all_for_user now u.id (s.refresh_token_ttl_days * 86400) d
