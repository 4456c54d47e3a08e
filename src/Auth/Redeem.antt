-- ===== src/Auth/Redeem.antt =====
-- A reset link is spent once, and a new password ends every session.
use cyber.Base.{
  sym, ℕ, ◌==◌, ◌+◌, ◌*◌, ◌/◌, ◌≤◌, ◌<◌, ◌≡◌, refl, ap, ◌∙◌, true, not, none, some, Option-cases,
  inl, inr, List, [], ◌∷◌, arith, map_option, Text, keep,
}
use cyber.Base.Errors.{Error, authentication, ok, err, >>=-ok, refuse-ok, Result-cases, ok_inj}
use cyber.Repository.{head_of}
use cyber.Repository.Update.{update_rows}
use cyber.Redis.DenyList.{DenyList}
use cyber.Auth.Data.{
  User, SecuritySettings, Hasher, Jwt, TokenClaims, TokenType, verify_password,
  validate_password_strength, decode_token, load_user, assert_active,
}
use cyber.Auth.Session.{authenticate_token, revoke_all_sessions}
use cyber.Auth.Rotation.{sessions_end}
use cyber.Auth.Password.{
  ResetToken, ResetDone, is_row_of, use_row, mark_used, spend_single_use_token, set_password,
  reset_account, redeem, confirm_password_reset,
}

module _ (digest : Text → Text) where
  row_of-mark_used :
      (now : ℕ) (token : Text) (table : List ResetToken)
      → head_of (keep (is_row_of digest token) (mark_used digest now token table))
        ≡ map_option (use_row now) (head_of (keep (is_row_of digest token) table))
  unfolding mark_used is_row_of update_rows use_row
  row_of-mark_used now token [] = refl
  row_of-mark_used now token (r ∷ table) = ground (arith, row_of-mark_used now token table)

  -- A link that was spent is not spent again.
  pub spend-mark_used :
      (now later : ℕ) (token : Text) (table : List ResetToken)
      → spend_single_use_token digest later token
          (mark_used digest now token table)
          (mark_used digest now token table)
        ≡ err authentication
  unfolding spend_single_use_token use_row
  spend-mark_used now later token table =
      elim (Option-cases (head_of (keep (is_row_of digest token) table))) [
        | inl unknown ↦ ground (arith, row_of-mark_used now token table, unknown)
        | inr (r, known) ↦ ground (arith, row_of-mark_used now token table, known)
      ]

  spend-ok :
      (now : ℕ) (token : Text) (seen table : List ResetToken) {r : ResetToken}
      {left : List ResetToken}
      → spend_single_use_token digest now token seen table ≡ ok (r, left)
      → (left ≡ mark_used digest now token table)
        × ((table' : List ResetToken)
            → spend_single_use_token digest now token seen table'
              ≡ ok (r, mark_used digest now token table'))
  unfolding spend_single_use_token
  spend-ok now token seen table h =
      elim (Option-cases (head_of (keep (is_row_of digest token) seen))) [
        | inl unknown ↦ ground (arith, h, unknown)
        | inr (r, known) ↦ (ground (arith, h, known), λ table'. ground (arith, h, known))
      ]

module _ (h : Hasher) (s : SecuritySettings) where
  -- What a reset wrote is for the account that was loaded.
  reset_account-ok :
      (now salt : ℕ) (password : Text) (d : DenyList) (table : List ResetToken) (u : User)
      {done : ResetDone}
      → reset_account h s now salt password d table u ≡ ok done
      → (done.account ≡ set_password h s now salt password u)
        × (done.reset_tokens ≡ table)
        × (done.denied ≡ revoke_all_sessions s now u d)
  unfolding reset_account assert_active
  reset_account-ok now salt password d table u e =
      let (checked, active, e1) = >>=-ok (assert_active u) _ e in
      let (reused, verified, e2) = >>=-ok (verify_password h u.password_hash password) _ e1 in
      let built = ok_inj (refuse-ok reused _ _ e2).1 in
      (
        sym (ap (λ r. r.account) built),
        sym (ap (λ r. r.reset_tokens) built),
        sym (ap (λ r. r.denied) built),
      )

  reset_account_again :
      (now salt salt' : ℕ) (password : Text) (d : DenyList) (table table' : List ResetToken)
      (u : User) {done : ResetDone}
      → reset_account h s now salt password d table u ≡ ok done
      → (again : ResetDone) × (reset_account h s now salt' password d table' u ≡ ok again)
  unfolding reset_account
  reset_account_again now salt salt' password d table table' u e =
      let (checked, active, rest) = >>=-ok (assert_active u) _ e in
      let (reused, verified, e1) = >>=-ok (verify_password h u.password_hash password) _ rest in
      let (fresh, built) = refuse-ok reused _ _ e1 in rw (active, verified, fresh) (_, refl)

  redeem-ok :
      (now salt : ℕ) (password : Text) (users : List User) (d : DenyList) (c : TokenClaims)
      (r : ResetToken) (table : List ResetToken) {done : ResetDone}
      → redeem h s now salt password users d c (r, table) ≡ ok done
      → (u : User) × (load_user c.subject users ≡ ok u)
        × (reset_account h s now salt password d table u ≡ ok done)
  unfolding redeem
  redeem-ok now salt password users d c r table e =
      let (same, rest) = refuse-ok (not (r.user_id == c.subject)) _ _ e in
      >>=-ok (load_user c.subject users) _ rest

  redeem_again :
      (now salt salt' : ℕ) (password : Text) (users : List User) (d : DenyList) (c : TokenClaims)
      (r : ResetToken) (table table' : List ResetToken) {done : ResetDone}
      → redeem h s now salt password users d c (r, table) ≡ ok done
      → (again : ResetDone) × (redeem h s now salt' password users d c (r, table') ≡ ok again)
  unfolding redeem
  redeem_again now salt salt' password users d c r table table' e =
      let (same, rest) = refuse-ok (not (r.user_id == c.subject)) _ _ e in
      let (u, loaded, built) = >>=-ok (load_user c.subject users) _ rest in
      rw (same, loaded) (reset_account_again now salt salt' password d table table' u built)

  -- What a reset that went through read and wrote.
  confirm_password_reset-ok :
      (digest : Text → Text) (j : Jwt) (now salt : ℕ) (token password : Text) (users : List User)
      (d : DenyList)
      → (seen table : List ResetToken) {done : ResetDone}
      → confirm_password_reset h s digest j now salt token password users d seen table ≡ ok done
      → (u : User) × (done.account ≡ set_password h s now salt password u)
        × (done.reset_tokens ≡ mark_used digest now token table)
        × (done.denied ≡ revoke_all_sessions s now u d)
        × ((salt' : ℕ) (table' : List ResetToken)
            → (again : ResetDone) × (confirm_password_reset h s digest j now salt' token password
                  users d seen table'
                ≡ ok again))
  unfolding confirm_password_reset
  confirm_password_reset-ok digest j now salt token password users d seen table e =
      let (checked, strong, e1) = >>=-ok (validate_password_strength s password) _ e in
      let (c, readable, e2) = >>=-ok (decode_token j now token TokenType.password_reset) _ e1 in
      let ((r, left), spent, e3) =
        >>=-ok (spend_single_use_token digest now token seen table) _ e2 in
      let (u, loaded, e4) = redeem-ok now salt password users d c r left e3 in
      let (account, tokens, denied) = reset_account-ok now salt password d left u e4 in
      (
        u,
        account,
        tokens ∙ (spend-ok digest now token seen table spent).0,
        denied,
        λ salt' table'.
            rw (strong, readable, (spend-ok digest now token seen table spent).1 table')
              (redeem_again now salt salt' password users d c r left
                (mark_used digest now token table') e3),
      )

  -- A link whose row is used is refused, whatever else holds.
  confirm_used :
      (digest : Text → Text) (j : Jwt) (now salt : ℕ) (token password : Text) (users : List User)
      (d : DenyList)
      → (table : List ResetToken)
      → spend_single_use_token digest now token table table ≡ err authentication
      → (e : Error) × (confirm_password_reset h s digest j now salt token password users d table
            table
          ≡ err e)
  unfolding confirm_password_reset
  confirm_used digest j now salt token password users d table used =
      elim (Result-cases (validate_password_strength s password)) [
        | inl (e, weak) ↦ rw weak (_, refl)
        | inr (checked, strong) ↦
            elim (Result-cases (decode_token j now token TokenType.password_reset)) [
              | inl (e, unreadable) ↦ rw (strong, unreadable) (_, refl)
              | inr (c, readable) ↦ rw (strong, readable, used) (_, refl)
            ]
      ]

  -- A reset that went through stores a hash that the new password passes, and clears the lock; its link is
  -- refused from then on. A reset by the same link that had looked for its row before goes through all
  -- the same.
  pub confirm_password_reset_lem :
      (digest : Text → Text) (j : Jwt) (now salt : ℕ) (token password : Text) (users : List User)
      (d : DenyList)
      → (table : List ResetToken) (done : ResetDone)
      → confirm_password_reset h s digest j now salt token password users d table table ≡ ok done
      → (later salt' : ℕ) (password' : Text) (users' : List User) (d' : DenyList)
      → (h.verify done.account.password_hash password ≡ some true)
        × (done.account.locked_until ≡ none)
        × ((e : Error) × (confirm_password_reset h s digest j later salt' token password' users' d'
                done.reset_tokens done.reset_tokens
              ≡ err e))
        × ((again : ResetDone) × (confirm_password_reset h s digest j now salt' token password users
                d table done.reset_tokens
              ≡ ok again))
  unfolding set_password
  confirm_password_reset_lem digest j now salt token password users d table done e later salt'
        password' users' d' =
      let (u, account, tokens, denied, again) =
        confirm_password_reset-ok digest j now salt token password users d table table e in
      (
        rw account (h.verify-hash salt password),
        ap (λ a. a.locked_until) account,
        rw tokens (
            confirm_used digest j later salt' token password' users' d'
              (mark_used digest now token table) (spend-mark_used digest now later token table)),
        again salt' done.reset_tokens,
      )

  -- After a reset, every token of that account that was issued in an earlier second, and for no longer
  -- than a refresh token lasts, is refused for ever.
  pub reset_ends_sessions :
      (digest : Text → Text) (j : Jwt) (now salt : ℕ) (link password : Text) (users : List User)
      (d : DenyList)
      → (seen table : List ResetToken) (done : ResetDone)
      → confirm_password_reset h s digest j now salt link password users d seen table ≡ ok done
      → (later : ℕ) (c : TokenClaims) (token : Text) (kind : TokenType) (users' : List User)
      → ((at : ℕ) (read_as : TokenClaims) → j.decode at token ≡ some read_as → read_as ≡ c)
      → c.subject ≡ done.account.id
      → c.issued_at < now / 1000
      → c.expires_at ≤ c.issued_at + s.refresh_token_ttl_days * 86400
      → authenticate_token j later token kind done.denied users' ≡ err authentication
  unfolding set_password
  reset_ends_sessions digest j now salt link password users d seen table done e later c token kind
        users' signed subject earlier lifetime =
      let (u, account, tokens, denied, again) =
        confirm_password_reset-ok digest j now salt link password users d seen table e in
      rw denied (
        sessions_end j s now later u c token kind d users' signed (subject ∙ ap (λ a. a.id) account)
          earlier lifetime)
