-- ===== src/Redis/DenyList.antt =====
-- `TokenDenyList`. The clock counts milliseconds, the times in a token count seconds.
use cyber.Base.{
  ℕ, ◌+◌, ◌*◌, ◌/◌, ◌≤◌, ◌<◌, ◌≡◌, ◌≢◌, max, Bool, true, false, ◌||◌, ◌==◌, Option, none, some,
  arith, ltb, is_some, if◌then◌else◌,
}
use cyber.Redis.{Key, read}

-- The keys of the deny list: one for a token's `jti`, one for a user's cutoff.
pub record DenyList : Type 0 where
  pub tokens : ℕ → Option Key
  pub cutoffs : ℕ → Option Key

-- `revoke_token`
unfoldable pub revoke_token : (now jti ttl_seconds : ℕ) → DenyList → DenyList
revoke_token now jti ttl_seconds d = record d {
  tokens = λ j.
      if j == jti
      then some (record { value = 1; until = now + max ttl_seconds 1 * 1000 })
      else d.tokens j;
}

-- `revoke_all_for_user`; the cutoff is `int(time.time())`.
unfoldable pub revoke_all_for_user : (now user_id ttl_seconds : ℕ) → DenyList → DenyList
revoke_all_for_user now user_id ttl_seconds d = record d {
  cutoffs = λ u.
      if u == user_id
      then some (record { value = now / 1000; until = now + max ttl_seconds 1 * 1000 })
      else d.cutoffs u;
}

-- `is_revoked`
unfoldable pub is_revoked : (now jti user_id issued_at : ℕ) → DenyList → Bool
unfolding read
is_revoked now jti user_id issued_at d =
    is_some (read now (d.tokens jti))
    || elim (read now (d.cutoffs user_id)) [ none ↦ false | some cutoff ↦ ltb issued_at cutoff ]

-- A token that was retired is refused until its key expires.
pub is_revoked-revoke_token :
    (now later jti ttl user_id issued_at : ℕ) (d : DenyList)
    → later < now + max ttl 1 * 1000
    → is_revoked later jti user_id issued_at (revoke_token now jti ttl d) ≡ true
unfolding is_revoked revoke_token
is_revoked-revoke_token now later jti ttl user_id issued_at d h = ground arith

-- Retiring a token or a user's sessions gives none back.
pub is_revoked-kept :
    (now later jti ttl other user_id issued_at : ℕ) (d : DenyList)
    → now ≤ later
    → is_revoked later jti user_id issued_at d ≡ true
    → jti ≢ other
    → is_revoked later jti user_id issued_at (revoke_token now other ttl d) ≡ true
unfolding is_revoked revoke_token
is_revoked-kept now later jti ttl other user_id issued_at d h revoked differ =
    ground (arith, revoked)

-- Every token that was issued in an earlier second than the cutoff is refused while its key lasts.
pub is_revoked-revoke_all :
    (now later jti ttl user_id issued_at : ℕ) (d : DenyList)
    → later < now + max ttl 1 * 1000
    → issued_at < now / 1000
    → is_revoked later jti user_id issued_at (revoke_all_for_user now user_id ttl d) ≡ true
unfolding is_revoked revoke_all_for_user
is_revoked-revoke_all now later jti ttl user_id issued_at d h earlier = ground (arith, h, earlier)
