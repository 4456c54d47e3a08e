-- ===== src/Auth/Rotation.antt =====
-- What the deny list does to tokens: a refresh token is exchanged once, and a change of password ends
-- every session.
use cyber.Base.{
  ℕ, ◌+◌, ◌-◌, ◌*◌, ◌/◌, ◌≤◌, ◌<◌, ◌≡◌, ◌∙◌, refl, ap, subst, true, Bool-cases, Option-cases, inl,
  inr, some, List, ◌==◌, arith, Text,
}
use cyber.Base.Errors.{authentication, ok, err, >>=-ok}
use cyber.Redis.DenyList.{DenyList, is_revoked, is_revoked-revoke_token, is_revoked-revoke_all}
use cyber.Auth.Data.{User, Membership, SecuritySettings, Jwt, TokenClaims, TokenType, decode_token}
use cyber.Auth.Session.{
  revoke, admit, authenticate_token, Refreshed, rotate, refresh, revoke_all_sessions,
}

admit_revoked :
    (now : ℕ) (d : DenyList) (users : List User) (c : TokenClaims)
    → is_revoked now c.jti c.subject c.issued_at d ≡ true
    → admit now d users c ≡ err authentication
unfolding admit
admit_revoked now d users c revoked = rw revoked

-- A token is refused when all that it can be read as is revoked.
authenticate_revoked :
    (j : Jwt) (now : ℕ) (token : Text) (kind : TokenType) (d : DenyList) (users : List User)
    → ((c : TokenClaims)
        → j.decode now token ≡ some c
        → is_revoked now c.jti c.subject c.issued_at d ≡ true)
    → authenticate_token j now token kind d users ≡ err authentication
unfolding authenticate_token decode_token
authenticate_revoked j now token kind d users all = elim (Option-cases (j.decode now token)) [
  | inl unread ↦ rw (unread, authenticate_token, decode_token) refl
  | inr (c, readable) ↦
      let shut = admit_revoked now d users c (all c readable) in ground (arith, readable, shut)
]

-- After the sessions of a user are revoked, every token of that user that was issued in an earlier
-- second, and for no longer than a refresh token lasts, is refused for ever.
pub sessions_end :
    (j : Jwt) (s : SecuritySettings) (now later : ℕ) (u : User) (c : TokenClaims) (token : Text)
    → (kind : TokenType) (d : DenyList) (users : List User)
    → ((at : ℕ) (read_as : TokenClaims) → j.decode at token ≡ some read_as → read_as ≡ c)
    → c.subject ≡ u.id
    → c.issued_at < now / 1000
    → c.expires_at ≤ c.issued_at + s.refresh_token_ttl_days * 86400
    → authenticate_token j later token kind (revoke_all_sessions s now u d) users
      ≡ err authentication
unfolding revoke_all_sessions
sessions_end j s now later u c token kind d users signed subject earlier lifetime =
    authenticate_revoked j later token kind _ users (λ read_as readable.
      let same = signed later read_as readable in
      let alive =
        subst (λ x. later < x.expires_at * 1000) same
          (j.decode_expired later token read_as readable) in
      rw (same, subject)
        (is_revoked-revoke_all now later c.jti (s.refresh_token_ttl_days * 86400) u.id c.issued_at d
          (omega (arith, earlier, lifetime, alive)) earlier))

-- A token that was accepted is what the library reads it as.
authenticate_token-ok :
    (j : Jwt) (now : ℕ) (token : Text) (kind : TokenType) (d : DenyList) (users : List User)
    → {u : User} {c : TokenClaims} → authenticate_token j now token kind d users ≡ ok (u, c)
    → j.decode now token ≡ some c
unfolding authenticate_token decode_token admit
authenticate_token-ok j now token kind d users h = ground (arith, h)

-- A token that has a second left is denied for as long as it has one.
revoke_lem :
    (now later : ℕ) (c : TokenClaims) (d : DenyList)
    → now + 1000 ≤ c.expires_at * 1000
    → later + 1000 ≤ c.expires_at * 1000
    → is_revoked later c.jti c.subject c.issued_at (revoke now c d) ≡ true
unfolding revoke
revoke_lem now later c d valid early =
    let ttl = (c.expires_at * 1000 - now) / 1000 in
    elim (Bool-cases (ttl == 0)) [
      | inl nothing ↦ ground (arith, nothing, valid)
      | inr some_time ↦ rw some_time (
          is_revoked-revoke_token now later c.jti ttl c.subject c.issued_at d
            (omega (arith, valid, early)))
    ]

rotate_denied :
    (s : SecuritySettings) (now access_jti refresh_jti : ℕ) (members : List Membership)
    (d : DenyList)
    → (u : User) (c : TokenClaims) {given : Refreshed}
    → rotate s now access_jti refresh_jti members d (u, c) ≡ ok given
    → given.denied ≡ revoke now c d
unfolding rotate
rotate_denied s now access_jti refresh_jti members d u c h = cc

rotate_goes_through :
    (s : SecuritySettings) (now access_jti refresh_jti : ℕ) (members : List Membership)
    (d : DenyList)
    → (found : User × TokenClaims)
    → (given : Refreshed) × (rotate s now access_jti refresh_jti members d found ≡ ok given)
unfolding rotate
rotate_goes_through s now access_jti refresh_jti members d (u, c) = (_, refl)

-- A refresh token that was exchanged with a second left is not exchanged again while it has a second
-- left: a later exchange finds it denied. An exchange that had looked at the deny list before the first
-- one wrote to it goes through all the same.
pub refresh_lem :
    (j : Jwt) (s : SecuritySettings) (now access_jti refresh_jti : ℕ) (token : Text)
    → (members : List Membership) (users : List User) (d : DenyList) (first : Refreshed)
    → refresh j s now access_jti refresh_jti token members users d d ≡ ok first
    → (later access' refresh' : ℕ) (members' : List Membership) (users' : List User)
      (c : TokenClaims)
    → ((at : ℕ) (read_as : TokenClaims) → j.decode at token ≡ some read_as → read_as ≡ c)
    → now + 1000 ≤ c.expires_at * 1000
    → later + 1000 ≤ c.expires_at * 1000
    → (refresh j s later access' refresh' token members' users' first.denied first.denied
        ≡ err authentication)
      × ((second : Refreshed) × (refresh j s now access' refresh' token members users d first.denied
            ≡ ok second))
unfolding refresh
refresh_lem j s now access_jti refresh_jti token members users d first h later access' refresh'
      members' users' c signed valid early =
    let ((u, read_as), accepted, exchanged) =
      >>=-ok (authenticate_token j now token TokenType.refresh d users) _ h in
    let same =
      signed now read_as (authenticate_token-ok j now token TokenType.refresh d users accepted) in
    let denied : first.denied ≡ revoke now c d =
      rotate_denied s now access_jti refresh_jti members d u read_as exchanged
      ∙ ap (λ x. revoke now x d) same in
    let shut =
      authenticate_revoked j later token TokenType.refresh first.denied users'
        (λ read_again readable.
          rw (signed later read_again readable, denied) (revoke_lem now later c d valid early)) in
    (
      rw shut refl,
      rw accepted (rotate_goes_through s now access' refresh' members first.denied (u, read_as)),
    )
