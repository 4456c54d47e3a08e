-- ===== src/Tests/Auths.antt =====
-- backend/app/services/auth.py with one account.
use mathlib.Core.List.{Memᴰ}
use cyber.Base.{◌≡◌, refl, true, none, some, [], ◌∷◌, arith, Text, codes}
use cyber.Base.Errors.{Error, authentication, ok, err}
use cyber.Identity.{Role}
use cyber.Redis.{read}
use cyber.Redis.DenyList.{DenyList, is_revoked}
use cyber.Auth.Data.{
  User, Membership, SecuritySettings, TokenClaims, TokenType, decode_token, is_type, load_user,
  load_user_by_email, assert_active, validate_password_strength, verify_password,
  resolve_membership, active_membership, member_principal,
}
use cyber.Auth.Login.{login, issue_pair}
use cyber.Auth.Session.{
  revoke, admit, authenticate_token, Refreshed, rotate, refresh, refresh_event, resolve_principal,
  revoke_all_sessions,
}
use cyber.Auth.Password.{
  ResetToken, ResetDone, is_row_of, mark_used, confirm_password_reset, set_password, reset_account,
  redeem, spend_single_use_token,
}
use cyber.Auth.Lockout.{IsRefused, login_refuses_passwords}
use cyber.Auth.Rotation.{refresh_lem}
use cyber.Auth.Redeem.{confirm_password_reset_lem, reset_ends_sessions}
use cyber.Auth.Authority.{resolve_principal_lem}
use cyber.Tests.Tokens.{marker, encode, plain, signed}

abbrev settings : SecuritySettings
settings = record {
  login_max_attempts = 5;
  login_lockout_seconds = 900;
  access_token_ttl_minutes = 15;
  refresh_token_ttl_days = 14;
  password_reset_ttl_minutes = 30;
  min_password_length = 12;
}

abbrev secret : Text
secret = codes "correct horse battery"

abbrev ada : User
ada = record {
  id = 3;
  email = "ada@x.io";
  password_hash = marker.hash 0 secret;
  is_active = true;
  last_login_at = none;
  failed_login_count = 2;
  locked_until = none;
  password_changed_at = none;
}

abbrev ada_member : Membership
ada_member = record {
  id = 1;
  organization_id = 7;
  user_id = 3;
  role = Role.developer;
  is_default = true;
  created_at = 1;
  invited_by_id = none;
  accepted_at = some 1;
}

abbrev nobody_denied : DenyList
nobody_denied = record { tokens = λ j. none; cutoffs = λ u. none }

-- A refresh token that lasts until second 1000.
abbrev session_token : TokenClaims
session_token = record {
  subject = 3;
  token_type = TokenType.refresh;
  jti = 11;
  organization_id = some 7;
  role = none;
  issued_at = 100;
  expires_at = 1000;
}

login_refuses_passwords_example :
    IsRefused settings 500 secret (load_user_by_email (codes "ada@x.io") (ada ∷ [])) (
      login marker settings 500 1 2 3
        (codes "$x")
        (codes "ada@x.io")
        secret
        (ada_member ∷ [])
        (ada ∷ []))
login_refuses_passwords_example =
    login_refuses_passwords marker settings 500 1 2 3 (codes "$x") (codes "ada@x.io") secret
      (ada_member ∷ []) (ada ∷ []) refl

granted :
    resolve_principal ada session_token (ada_member ∷ []) ≡ ok (member_principal ada ada_member)
unfolding resolve_principal active_membership
granted = refl

resolve_principal_lem_example :
    ((m : Membership) × Memᴰ m (ada_member ∷ [])
      × (m.user_id ≡ ada.id)
      × (some ada.id ≡ some ada.id)
      × (ada_member.organization_id ≡ m.organization_id)
      × (Role.developer ≡ m.role))
    × (resolve_principal ada (record session_token { role = some Role.owner }) (ada_member ∷ [])
        ≡ ok (member_principal ada ada_member))
unfolding member_principal
resolve_principal_lem_example =
    resolve_principal_lem ada session_token (some Role.owner) (ada_member ∷ [])
      (member_principal ada ada_member) granted

-- The account exchanges its refresh token in second 200.
abbrev exchanged : Refreshed
exchanged = record {
  tokens = issue_pair settings 200000 21 22 ada (some ada_member);
  denied = revoke 200000 session_token nobody_denied;
  event = some (refresh_event 200000 ada ada_member);
}

exchange :
    refresh plain settings 200000 21 22
      (encode session_token)
      (ada_member ∷ [])
      (ada ∷ [])
      nobody_denied
      nobody_denied
    ≡ ok exchanged
unfolding refresh authenticate_token decode_token is_type admit is_revoked read load_user rotate
    active_membership resolve_membership
exchange = refl

refresh_lem_example :
    (refresh plain settings 300000 31 32
        (encode session_token)
        (ada_member ∷ [])
        (ada ∷ [])
        exchanged.denied
        exchanged.denied
      ≡ err authentication)
    × ((second : Refreshed) × (refresh plain settings 200000 31 32
            (encode session_token)
            (ada_member ∷ [])
            (ada ∷ [])
            nobody_denied
            exchanged.denied
          ≡ ok second))
refresh_lem_example =
    refresh_lem plain settings 200000 21 22 (encode session_token) (ada_member ∷ []) (ada ∷ [])
      nobody_denied exchanged exchange 300000 31 32 (ada_member ∷ []) (ada ∷ []) session_token
      (signed session_token) (omega arith) (omega arith)

abbrev reset_claims : TokenClaims
reset_claims = record {
  subject = 3;
  token_type = TokenType.password_reset;
  jti = 12;
  organization_id = none;
  role = none;
  issued_at = 150;
  expires_at = 1950;
}

abbrev digest : Text → Text
digest t = 0 ∷ t

abbrev reset_row : ResetToken
reset_row = record {
  user_id = 3;
  token_hash = digest (encode reset_claims);
  expires_at = 1950000;
  created_at = 150000;
  used_at = none;
}

abbrev phrase : Text
phrase = codes "an entirely new phrase"

abbrev done : ResetDone
done = record {
  account = set_password marker settings 200000 9 phrase ada;
  reset_tokens = mark_used digest 200000 (encode reset_claims) (reset_row ∷ []);
  denied = revoke_all_sessions settings 200000 ada nobody_denied;
}

reset_goes_through :
    confirm_password_reset marker settings digest plain 200000 9
      (encode reset_claims)
      phrase
      (ada ∷ [])
      nobody_denied
      (reset_row ∷ [])
      (reset_row ∷ [])
    ≡ ok done
unfolding confirm_password_reset validate_password_strength decode_token is_type
    spend_single_use_token is_row_of redeem load_user reset_account assert_active verify_password
reset_goes_through = refl

confirm_password_reset_lem_example :
    (marker.verify done.account.password_hash phrase ≡ some true)
    × (done.account.locked_until ≡ none)
    × ((e : Error) × (confirm_password_reset marker settings digest plain 300000 8
            (encode reset_claims)
            secret
            (ada ∷ [])
            nobody_denied
            done.reset_tokens
            done.reset_tokens
          ≡ err e))
    × ((again : ResetDone) × (confirm_password_reset marker settings digest plain 200000 8
            (encode reset_claims)
            phrase
            (ada ∷ [])
            nobody_denied
            (reset_row ∷ [])
            done.reset_tokens
          ≡ ok again))
confirm_password_reset_lem_example =
    confirm_password_reset_lem marker settings digest plain 200000 9 (encode reset_claims) phrase
      (ada ∷ []) nobody_denied (reset_row ∷ []) done reset_goes_through 300000 8 secret (ada ∷ [])
      nobody_denied

same_account : 3 ≡ done.account.id
unfolding set_password
same_account = refl

reset_ends_sessions_example :
    authenticate_token plain 300000 (encode session_token) TokenType.refresh done.denied (ada ∷ [])
    ≡ err authentication
reset_ends_sessions_example =
    reset_ends_sessions marker settings digest plain 200000 9 (encode reset_claims) phrase
      (ada ∷ []) nobody_denied (reset_row ∷ []) (reset_row ∷ []) done reset_goes_through 300000
      session_token (encode session_token) TokenType.refresh (ada ∷ []) (signed session_token)
      same_account (omega arith) (omega arith)
