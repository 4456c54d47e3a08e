-- ===== src/Targets/Classify.antt =====
-- `classify`, the builders, `validate_target`.
use cyber.Base.{
  ℕ, zero, suc, Bool, not, ◌&&◌, ◌||◌, ltb, if◌then◌else◌, Option, none, some, List, [], ◌∷◌, ◌++◌,
  length, contains, nat_eq, is_some, Text, codes, text_same, lower, strip, starts_with, occurs_in,
  rstrip, some_of, one_of,
}
use cyber.Base.Errors.{invalid_target, value_error, Result, ok, err, ◌>>=◌, ◌>>◌}
use cyber.Targets.Data.{
  TargetType, domain, ip, url, cidr, repository, container_image, ValidatedTarget,
  TargetPolicySettings, IpAddress, num_addresses,
}
use cyber.Targets.Policy.{enforce_policy}

-- The groups of `_REPO_RE`.
pub record RepoMatch : Type 0 where
  pub host : Text
  pub owner : Text
  pub repo : Text

-- The groups of `_IMAGE_RE`.
pub record ImageMatch : Type 0 where
  pub registry : Option Text
  pub path : Text
  pub tag : Option Text
  pub digest : Option Text

-- What `urlparse` gives; `port` is `none` where reading it raises a `ValueError`.
pub record ParseResult : Type 0 where
  pub scheme : Text
  pub netloc : Text
  pub hostname : Option Text
  pub port : Option (Option ℕ)
  pub has_credentials : Bool
  pub path : Text
  pub query : Text

-- Python's `re` on the three patterns of the file, `urllib.parse`, and the `idna` codec.
pub record Parsers : Type 0 where
  pub domain_re : Text → Bool
  pub repo_re : Text → Option RepoMatch
  pub image_re : Text → Option ImageMatch
  pub urlparse : Text → ParseResult
  pub urlunparse : (scheme netloc path query : Text) → Text
  pub idna : Text → Option Text

-- `_FORBIDDEN_CHARS`
abbrev pub forbidden_chars : List ℕ
forbidden_chars = 10 ∷ 13 ∷ 9 ∷ 34 ∷ 92 ∷ codes ";|&$`<>()!*?[]{}' "

-- `value.split(separator, 1)[0]`
unfoldable pub before : Text → Text → Text
before separator [] = []
before separator (c ∷ s) =
    let rest = before separator s in if starts_with (c ∷ s) separator then [] else c ∷ rest

-- A failed parse as an error, and a value that goes on.
abbrev pub or_invalid {ℓ} : {A : Type ℓ} → Option A → Result A
or_invalid none = err invalid_target
or_invalid (some a) = ok a

-- `a or b`, where an empty text is no text
abbrev pub or_text : Text → Text → Text
or_text [] other = other
or_text (c ∷ s) other = c ∷ s

-- The value of an optional group, or a default.
abbrev pub group_or : Option Text → Text → Text
group_or none other = other
group_or (some t) other = t

-- `parsed.port or (443 if scheme == "https" else 80)`
unfoldable pub port_or_default : Option ℕ → Text → ℕ
port_or_default none scheme = if text_same scheme (codes "https") then 443 else 80
port_or_default (some zero) scheme = if text_same scheme (codes "https") then 443 else 80
port_or_default (some (suc port)) scheme = suc port

module _ (i : IpAddress) (x : Parsers) where
  -- `classify`, on a text with a scheme.
  unfoldable pub classify_scheme : Text → Result TargetType
  classify_scheme scheme =
      if one_of scheme (codes "http" ∷ codes "https" ∷ [])
      then ok url
      else if one_of scheme (codes "git" ∷ codes "ssh" ∷ [])
      then ok repository
      else err invalid_target

  -- `classify`, on a text with a slash.
  unfoldable pub classify_path : Text → Result TargetType
  classify_path value =
      if is_some (i.ip_network value)
      then ok cidr
      else if is_some (x.repo_re value)
      then ok repository
      else if is_some (x.image_re value)
      then ok container_image
      else err invalid_target

  -- `classify`, on a text with neither.
  unfoldable pub classify_name : Text → Result TargetType
  classify_name value =
      if starts_with value (codes "git@")
      then ok repository
      else if is_some (i.ip_address value)
      then ok ip
      else if x.domain_re value
      then ok domain
      else if contains 58 (rstrip (codes ".") value) && is_some (x.image_re value)
      then ok container_image
      else err invalid_target

  -- `classify`
  unfoldable pub classify : Text → Result TargetType
  classify raw =
      let value = strip raw in
      if text_same value []
      then err invalid_target
      else if occurs_in (codes "://") value && not (starts_with value (codes "git@"))
      then classify_scheme (lower (before (codes "://") value))
      else if contains 47 value
      then classify_path value
      else classify_name value

  -- `_build_url`, once it has a host and a port.
  unfoldable pub url_target : ParseResult → Text → Option ℕ → Result ValidatedTarget
  url_target parsed hostname port =
      let host = lower hostname in
      let scheme = or_text (lower parsed.scheme) (codes "https") in
      if parsed.has_credentials
      then err invalid_target
      else if not (x.domain_re host || is_some (i.ip_address host))
      then err invalid_target
      else ok (record {
        kind = url;
        canonical =
            x.urlunparse scheme (lower parsed.netloc) (or_text parsed.path (codes "/"))
              parsed.query;
        host = host;
        port = some (port_or_default port scheme);
        host_count = 1;
      })

  -- `_build_url`, from its port: a port that is no port number raises the library's `ValueError`.
  unfoldable pub url_with_port : ParseResult → Text → Option (Option ℕ) → Result ValidatedTarget
  url_with_port parsed hostname none = err value_error
  url_with_port parsed hostname (some port) = url_target parsed hostname port

  -- `_build_url`
  unfoldable pub build_url : Text → Result ValidatedTarget
  build_url value =
      let parsed = x.urlparse value in
      or_invalid parsed.hostname >>= λ hostname. url_with_port parsed hostname parsed.port

  -- `_build_cidr`
  unfoldable pub build_cidr : Text → Result ValidatedTarget
  build_cidr value = or_invalid (i.ip_network value) >>= λ net. ok (record {
    kind = cidr;
    canonical = i.text_of_network net;
    host = i.text_of_network net;
    port = none;
    host_count = num_addresses net;
  })

  -- `_build_ip`; `classify` has read the address before.
  unfoldable pub build_ip : Text → Result ValidatedTarget
  build_ip value = or_invalid (i.ip_address value) >>= λ addr. ok (record {
    kind = ip;
    canonical = i.text_of_address addr;
    host = i.text_of_address addr;
    port = none;
    host_count = 1;
  })

  -- `_build_domain`
  unfoldable pub build_domain : Text → Result ValidatedTarget
  build_domain value = or_invalid (x.idna (lower (rstrip (codes ".") (strip value)))) >>= λ host.
      if ltb 253 (length host)
      then err invalid_target
      else ok (record { kind = domain; canonical = host; host = host; port = none; host_count = 1 })

  -- `_build_repository`
  unfoldable pub build_repository : Text → Result ValidatedTarget
  build_repository value = or_invalid (x.repo_re value) >>= λ m. ok (record {
    kind = repository;
    canonical = codes "https://" ++ lower m.host ++ codes "/" ++ m.owner ++ codes "/" ++ m.repo;
    host = lower m.host;
    port = none;
    host_count = 1;
  })

  -- What follows the path in the canonical form of an image.
  unfoldable pub image_suffix : Option Text → Option Text → Text
  image_suffix tag (some digest) = codes "@sha256:" ++ digest
  image_suffix tag none = codes ":" ++ group_or tag (codes "latest")

  -- `_build_image`
  unfoldable pub build_image : Text → Result ValidatedTarget
  build_image value = or_invalid (x.image_re value) >>= λ m.
      let registry = lower (group_or m.registry (codes "docker.io")) in
      ok (record {
        kind = container_image;
        canonical = registry ++ codes "/" ++ m.path ++ image_suffix m.tag m.digest;
        host = registry;
        port = none;
        host_count = 1;
      })

  -- `_build`
  unfoldable pub build : TargetType → Text → Result ValidatedTarget
  build url value = build_url value
  build cidr value = build_cidr value
  build ip value = build_ip value
  build domain value = build_domain value
  build repository value = build_repository value
  build container_image value = build_image value

  -- `validate_target`
  unfoldable pub validate_target : Text → TargetPolicySettings → Result ValidatedTarget
  validate_target raw policy =
      let value = strip raw in
      if ltb 2048 (length value)
      then err invalid_target
      else if some_of (λ c. contains c forbidden_chars) value
      then err invalid_target
      else (classify value >>= λ kind.
          build kind value >>= λ target. enforce_policy i target policy >> ok target)
