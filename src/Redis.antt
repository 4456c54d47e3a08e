-- ===== src/Redis.antt =====
-- backend/app/core/redis_client.py: keys that expire, and the deny list of tokens over them.
pub mod DenyList
pub mod Limits
use cyber.Base.{ℕ, Option, none, some, ltb, if◌then◌else◌}

-- A key: its value, and the time from which it is gone.
pub record Key : Type 0 where
  pub value : ℕ
  pub until : ℕ

-- `GET`: a key that has expired is no key.
unfoldable pub read : ℕ → Option Key → Option ℕ
read now none = none
read now (some k) = if ltb now k.until then some k.value else none
