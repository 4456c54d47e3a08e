-- ===== src/Targets/Policy.antt =====
-- `_enforce_policy` and what it asks, `expand_cidr`, `is_public_hostname`.
use cyber.Base.{
  ℕ, Bool, true, false, not, ◌&&◌, ◌||◌, ◌==◌, ltb, if◌then◌else◌, Option, none, some, List, [],
  ◌∷◌, ◌++◌, Text, codes, text_same, lower, strip, lstrip, ends_with, one_of, some_of,
}
use cyber.Base.Errors.{target_denied, Result, ok, err, ◌>>◌}
use cyber.Targets.Data.{
  TargetType, cidr, url, domain, ip, ValidatedTarget, TargetPolicySettings, Address, Network,
  IpAddress, is_within,
}

-- `_METADATA_HOSTS`
abbrev pub metadata_hosts : List Text
metadata_hosts =
    codes "169.254.169.254"
    ∷ codes "metadata.google.internal"
    ∷ codes "metadata.goog"
    ∷ codes "instance-data"
    ∷ codes "100.100.100.200"
    ∷ codes "169.254.169.253"
    ∷ codes "fd00:ec2::254"
    ∷ []

-- `_ALWAYS_DENIED_SUFFIXES`
abbrev pub always_denied_suffixes : List Text
always_denied_suffixes =
    codes ".localhost" ∷ codes ".local" ∷ codes ".internal" ∷ codes ".arpa" ∷ codes ".onion" ∷ []

-- `target.type == TargetType.CIDR`
abbrev pub is_cidr : TargetType → Bool
is_cidr cidr = true
is_cidr _ = false

abbrev pub is_empty {ℓ} : {A : Type ℓ} → List A → Bool
is_empty [] = true
is_empty (x ∷ xs) = false

-- `100.64.0.0/10`
abbrev pub carrier_grade_nat : Network
carrier_grade_nat = record {
  version = 4;
  network_address = 1681915904;
  broadcast_address = 1686110207;
}

-- `pattern.strip().lower().lstrip("*.")`
unfoldable pub pattern_text : Text → Text
pattern_text pattern = lstrip (codes "*.") (lower (strip pattern))

-- `raise TargetDeniedError` when the test holds
abbrev pub deny : Bool → Result (Unit {0})
deny test = if test then err target_denied else ok tt

module _ (i : IpAddress) where
  -- `_is_non_public`
  unfoldable pub is_non_public : Address → Bool
  unfolding is_within
  is_non_public a =
      i.is_private a
      || i.is_loopback a
      || i.is_link_local a
      || i.is_multicast a
      || i.is_reserved a
      || i.is_unspecified a
      || is_within a carrier_grade_nat

  -- The ends of a network.
  unfoldable pub ends_of : Option Network → List Address
  ends_of none = []
  ends_of (some n) =
      record { version = n.version; value = n.network_address }
      ∷ record { version = n.version; value = n.broadcast_address }
      ∷ []

  -- The address that a host is, if it is one.
  unfoldable pub address_of : Option Address → List Address
  address_of none = []
  address_of (some a) = a ∷ []

  -- `_addresses_of`; the canonical form of a range is a text that the library printed.
  unfoldable pub addresses_of : ValidatedTarget → List Address
  unfolding ends_of address_of
  addresses_of t =
      if is_cidr t.kind
      then ends_of (i.ip_network t.canonical)
      else address_of (i.ip_address t.host)

  -- Whether a pattern names a network that has one of the addresses.
  unfoldable pub covers : List Address → Option Network → Bool
  covers addresses none = false
  covers addresses (some n) = some_of (λ a. is_within a n) addresses

  -- One round of the loop of `_matches_any`.
  unfoldable pub matches_pattern : ValidatedTarget → Text → Bool
  unfolding covers
  matches_pattern t pattern =
      let pat = pattern_text pattern in
      if is_empty pat
      then false
      else (text_same (lower t.host) pat
          || ends_with (lower t.host) (codes "." ++ pat)
          || covers (addresses_of t) (i.ip_network pat))

  -- `_matches_any`
  unfoldable pub matches_any : ValidatedTarget → List Text → Bool
  matches_any t patterns = some_of (matches_pattern t) patterns

  -- `_enforce_policy`
  unfoldable pub enforce_policy : ValidatedTarget → TargetPolicySettings → Result (Unit {0})
  enforce_policy t p =
      deny (p.block_metadata_endpoints && one_of (lower t.host) metadata_hosts)
      >> (deny (some_of (ends_with (lower t.host)) always_denied_suffixes)
          >> (deny (is_cidr t.kind && ltb p.max_cidr_hosts t.host_count)
              >> (deny (p.block_private_ranges && some_of is_non_public (addresses_of t))
                  >> (deny (matches_any t p.deny_list)
                      >> deny (not (is_empty p.allow_list) && not (matches_any t p.allow_list))))))

  -- `is_public_hostname`, from what the host is read as.
  unfoldable pub is_public_address : Text → Option Address → Bool
  is_public_address host none = not (some_of (ends_with (lower host)) always_denied_suffixes)
  is_public_address host (some a) = not (is_non_public a)

  -- `is_public_hostname`
  unfoldable pub is_public_hostname : Text → Bool
  is_public_hostname host = is_public_address host (i.ip_address host)

-- `self.port in (80, 443, 8080, 8443)`
abbrev pub is_web_port : Option ℕ → Bool
is_web_port none = false
is_web_port (some port) = port == 80 || port == 443 || port == 8080 || port == 8443

-- `ValidatedTarget.is_web`
unfoldable pub is_web : ValidatedTarget → Bool
is_web t = elim t.kind [
  | url ↦ true
  | domain ↦ is_web_port t.port
  | ip ↦ is_web_port t.port
  | _ ↦ false
]
