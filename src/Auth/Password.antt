-- ===== src/Auth/Password.antt =====
-- Reset tokens and changes of a password: `request_password_reset`, `_spend_single_use_token`,
-- `confirm_password_reset`, `change_password`, `register`. The delivery of the mail is not modelled.
use Prim.Native.String.{String}
use cyber.Base.{
  ℕ, ◌*◌, Bool, true, not, ◌||◌, Option, none, some, List, [], ◌∷◌, ◌++◌, leb, is_some, ◌==◌,
  if◌then◌else◌, Text, text_same, codes, keep,
}
use cyber.Base.Errors.{user_error, authentication, conflict, Result, ok, err, ◌>>=◌, ◌>>◌}
use cyber.Repository.{head_of}
use cyber.Repository.Update.{update_rows}
use cyber.Redis.DenyList.{DenyList}
use cyber.Auth.Data.{
  User, SecuritySettings, Hasher, Jwt, TokenClaims, TokenType, verify_password,
  validate_password_strength, decode_token, create_token, load_user_by_email, load_user,
  assert_active,
}
use cyber.Auth.Session.{revoke_all_sessions}

-- `PasswordResetToken`
pub record ResetToken : Type 0 where
  pub user_id : ℕ
  pub token_hash : Text
  pub expires_at : ℕ
  pub created_at : ℕ
  pub used_at : Option ℕ

-- `row.used_at = now`
unfoldable pub use_row : ℕ → ResetToken → ResetToken
use_row now r = record r { used_at = some now }

module _ (digest : Text → Text) where
  -- `token_hash == _hash_token(token)`; the digest is SHA-256.
  unfoldable pub is_row_of : Text → ResetToken → Bool
  is_row_of token r = text_same r.token_hash (digest token)

  -- `_store_single_use_token`
  unfoldable pub store_single_use_token :
      (now user_id : ℕ) → (token : Text) → (expires_at : ℕ) → List ResetToken → List ResetToken
  store_single_use_token now user_id token expires_at table =
      table
      ++ record {
        user_id = user_id;
        token_hash = digest token;
        expires_at = expires_at;
        created_at = now;
        used_at = none;
      }
        ∷ []

  -- The UPDATE of the row of a token, written to the table as it is by then.
  unfoldable pub mark_used : ℕ → Text → List ResetToken → List ResetToken
  mark_used now token table = (update_rows (is_row_of token) (use_row now) table).0

  -- `_spend_single_use_token`: the row as it was seen, and the table. The hash is unique.
  unfoldable pub spend_single_use_token :
      (now : ℕ) → Text → (seen table : List ResetToken) → Result (ResetToken × List ResetToken)
  spend_single_use_token now token seen table = elim (head_of (keep (is_row_of token) seen)) [
    | none ↦ err authentication
    | some r ↦
        if is_some r.used_at || leb r.expires_at now
        then err authentication
        else ok (r, mark_used now token table)
  ]

  -- `request_password_reset`: the table; the answer is the same whoever asks.
  unfoldable pub request_password_reset :
      Jwt
      → SecuritySettings
      → (now jti : ℕ) → (email : Text) → List User
      → List ResetToken
      → List ResetToken
  request_password_reset j s now jti email users table = elim (load_user_by_email email users) [
    | none ↦ table
    | some u ↦
        let claims =
          create_token now jti (s.password_reset_ttl_minutes * 60) u.id TokenType.password_reset
            none none in
        if u.is_active
        then store_single_use_token now u.id (j.encode claims) (claims.expires_at * 1000) table
        else table
  ]

-- What a reset leaves: the account, the table of reset tokens, and the deny list.
pub record ResetDone : Type 0 where
  pub account : User
  pub reset_tokens : List ResetToken
  pub denied : DenyList

module _ (h : Hasher) (s : SecuritySettings) where
  -- `user.password_hash = hash_password(...)`, and what goes with it.
  unfoldable pub set_password : (now salt : ℕ) → Text → User → User
  set_password now salt password u = record u {
    password_hash = h.hash salt password;
    password_changed_at = some now;
    failed_login_count = 0;
    locked_until = none;
  }

  -- `confirm_password_reset`, from the account. The hash is passed where the password belongs.
  unfoldable pub reset_account :
      (now salt : ℕ) → (password : Text) → DenyList → List ResetToken → User → Result ResetDone
  reset_account now salt password d table u =
      assert_active u
      >> (verify_password h u.password_hash password >>= λ reused.
          if reused
          then err user_error
          else ok (record {
            account = set_password now salt password u;
            reset_tokens = table;
            denied = revoke_all_sessions s now u d;
          }))

  -- `confirm_password_reset`, from the claims and the stored row.
  unfoldable pub redeem :
      (now salt : ℕ)
      → (password : Text) → List User
      → DenyList
      → TokenClaims
      → ResetToken × List ResetToken
      → Result ResetDone
  redeem now salt password users d c (r, table) =
      if not (r.user_id == c.subject)
      then err authentication
      else (load_user c.subject users >>= reset_account now salt password d table)

  -- `confirm_password_reset`; the rows that it saw, and the table that it writes to.
  unfoldable pub confirm_password_reset :
      (digest : Text → Text)
      → Jwt
      → (now salt : ℕ) → (token new_password : Text) → List User
      → DenyList
      → (seen table : List ResetToken) → Result ResetDone
  confirm_password_reset digest j now salt token new_password users d seen table =
      validate_password_strength s new_password
      >> (decode_token j now token TokenType.password_reset >>= λ c.
          spend_single_use_token digest now token seen table
          >>= redeem now salt new_password users d c)

  -- `change_password`: the account and the deny list.
  unfoldable pub change_password :
      (now salt : ℕ)
      → (current_password new_password : Text) → DenyList
      → User
      → Result (User × DenyList)
  change_password now salt current_password new_password d u =
      verify_password h u.password_hash current_password >>= λ matched.
      if not matched
      then err authentication
      else (validate_password_strength s new_password
          >> (verify_password h u.password_hash new_password >>= λ reused.
              if reused
              then err user_error
              else ok (
                record u {
                  password_hash = h.hash salt new_password;
                  password_changed_at = some now;
                },
                revoke_all_sessions s now u d,
              )))

  -- The account that `register` adds, as it is in the end.
  unfoldable pub new_user : (now salt id : ℕ) → (email : String) → (password : Text) → User
  new_user now salt id email password = record {
    id = id;
    email = email;
    password_hash = h.hash salt password;
    is_active = true;
    last_login_at = some now;
    failed_login_count = 0;
    locked_until = none;
    password_changed_at = some now;
  }

  -- `register`, up to the account; the check and the unique address give the same error. The
  -- address is as `strip().lower()` leaves it.
  unfoldable pub register_user :
      (now salt id : ℕ)
      → (email : String) → (password : Text) → List User
      → Result (User × List User)
  register_user now salt id email password users =
      validate_password_strength s password
      >> (if is_some (load_user_by_email (codes email) users)
          then err conflict
          else (let user = new_user now salt id email password in ok (user, users ++ user ∷ [])))
