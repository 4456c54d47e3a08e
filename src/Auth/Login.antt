-- ===== src/Auth/Login.antt =====
-- `login` and the lockout of an account.
use cyber.Base.{
  ℕ, suc, ◌+◌, ◌-◌, ◌*◌, ◌/◌, max, not, Option, none, some, List, ltb, leb, Bool, if◌then◌else◌,
  Text,
}
use cyber.Base.Errors.{authentication, Result, ok, err}
use cyber.Audit
use cyber.Audit.{AuditEvent, record_event}
use cyber.Auth.Data.{
  User, Membership, SecuritySettings, Hasher, verify_password, load_user_by_email,
  active_membership, member_principal, TokenClaims, TokenType, create_token,
}

-- `_lockout_remaining`, in seconds
unfoldable pub lockout_remaining : ℕ → User → ℕ
lockout_remaining now u = elim u.locked_until [ none ↦ 0 | some until ↦ (until - now) / 1000 ]

-- The UPDATE of `_register_failed_login`, on the row as it is by then.
unfoldable pub register_failed_login : SecuritySettings → ℕ → User → User
register_failed_login s now u =
    let count = suc u.failed_login_count in
    record u {
      failed_login_count = count;
      locked_until =
          if leb (max s.login_max_attempts 1) count
          then some (now + s.login_lockout_seconds * 1000)
          else u.locked_until;
    }

-- `_clear_failed_logins`
unfoldable pub clear_failed_logins : ℕ → User → User
clear_failed_logins now u = record u {
  failed_login_count = 0;
  locked_until = none;
  last_login_at = some now;
}

-- `TokenPairOut`, as the claims of its two tokens
pub record TokenPair : Type 0 where
  pub access_token : TokenClaims
  pub refresh_token : TokenClaims

-- `_issue_pair`; the two identifiers are drawn at random.
unfoldable pub issue_pair :
    SecuritySettings → (now access_jti refresh_jti : ℕ) → User → Option Membership → TokenPair
issue_pair s now access_jti refresh_jti u none = record {
  access_token =
      create_token now access_jti (s.access_token_ttl_minutes * 60) u.id TokenType.access none none;
  refresh_token =
      create_token now refresh_jti (s.refresh_token_ttl_days * 86400) u.id TokenType.refresh none
        none;
}
issue_pair s now access_jti refresh_jti u (some m) = record {
  access_token =
      create_token now access_jti (s.access_token_ttl_minutes * 60) u.id TokenType.access
        (some m.organization_id) (some m.role);
  refresh_token =
      create_token now refresh_jti (s.refresh_token_ttl_days * 86400) u.id TokenType.refresh
        (some m.organization_id) none;
}

-- What a request to sign in does: the account's row as it is kept, the audit row that is kept, if there
-- is one, and the answer.
pub record LoginOutcome : Type 0 where
  pub user : Option User
  pub event : Option AuditEvent
  pub answer : Result TokenPair

-- The audit row of a sign-in.
unfoldable pub login_event : ℕ → User → Option Membership → AuditEvent
login_event now u none = record_event now Audit.login none none (some u.id) Audit.success
login_event now u (some m) =
    record_event now Audit.login (some (member_principal u m)) none (some u.id) Audit.success

module _ (h : Hasher) (s : SecuritySettings) where
  -- `if needs_rehash(...): user.password_hash = hash_password(...)`
  unfoldable pub rehash : (salt : ℕ) → Text → User → User
  rehash salt password u =
      if h.needs_rehash u.password_hash
      then record u { password_hash = h.hash salt password }
      else u

  -- `login`, from what the check of the password gave; an exception leaves all as it is.
  unfoldable pub login_checked :
      (now salt access_jti refresh_jti : ℕ)
      → (password : Text) → List Membership
      → User
      → Result Bool
      → LoginOutcome
  login_checked now salt access_jti refresh_jti password members u (err e) = record {
    user = some u;
    event = none;
    answer = err e;
  }
  login_checked now salt access_jti refresh_jti password members u (ok matched) =
      if not matched
      then record {
        user = some (register_failed_login s now u);
        event = some (record_event now Audit.login_failed none none (some u.id) Audit.failure);
        answer = err authentication;
      }
      else if not u.is_active
      then record { user = some u; event = none; answer = err authentication }
      else (let membership = active_membership u.id none members in
          record {
            user = some (clear_failed_logins now (rehash salt password u));
            event = some (login_event now u membership);
            answer = ok (issue_pair s now access_jti refresh_jti u membership);
          })

  -- `login`, from the account that it found. The hash is passed where the password belongs, and the
  -- password where the hash belongs.
  unfoldable pub login_user :
      (now salt access_jti refresh_jti : ℕ)
      → (password : Text) → List Membership
      → User
      → LoginOutcome
  login_user now salt access_jti refresh_jti password members u =
      if ltb 0 (lockout_remaining now u)
      then record {
        user = some u;
        event = some (record_event now Audit.login_locked none none (some u.id) Audit.denied);
        answer = err authentication;
      }
      else login_checked now salt access_jti refresh_jti password members u
          (verify_password h u.password_hash password)

  -- An address that is not known, after the check that is made for its time alone.
  unfoldable pub login_unknown : ℕ → Result Bool → LoginOutcome
  login_unknown now (err e) = record { user = none; event = none; answer = err e }
  login_unknown now (ok matched) = record {
    user = none;
    event = some (record_event now Audit.login_failed none none none Audit.failure);
    answer = err authentication;
  }

  -- `login`, from what the address found. The first text is `_dummy_password_hash()`.
  unfoldable pub login_found :
      (now salt access_jti refresh_jti : ℕ)
      → (dummy password : Text) → List Membership
      → Option User
      → LoginOutcome
  login_found now salt access_jti refresh_jti dummy password members none =
      login_unknown now (verify_password h dummy password)
  login_found now salt access_jti refresh_jti dummy password members (some u) =
      login_user now salt access_jti refresh_jti password members u

  -- `login`
  unfoldable pub login :
      (now salt access_jti refresh_jti : ℕ)
      → (dummy email password : Text) → List Membership
      → List User
      → LoginOutcome
  login now salt access_jti refresh_jti dummy email password members users =
      login_found now salt access_jti refresh_jti dummy password members
        (load_user_by_email email users)
