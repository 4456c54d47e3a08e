-- ===== src/Tests/Ranges.antt =====
-- backend/app/core/targets.py with addresses and networks that are written as their numbers.
use mathlib.Core.List.{Memᴰ}
use cyber.Base.{ℕ, ◌≡◌, refl, true, false, Option, none, some, [], ◌∷◌, Text}
use cyber.Base.Errors.{target_denied, err}
use cyber.Targets.Data.{
  ip, cidr, ValidatedTarget, TargetPolicySettings, Address, Network, IpAddress, is_within,
}
use cyber.Targets.Policy.{pattern_text, enforce_policy}
use cyber.Targets.Classify.{Parsers}
use cyber.Targets.Ranges.{denied_address_refused}

abbrev pub ip_address : Text → Option Address
ip_address (v ∷ a ∷ []) = some (record { version = v; value = a })
ip_address _ = none

abbrev pub ip_network : Text → Option Network
ip_network (v ∷ a ∷ b ∷ []) =
    some (record { version = v; network_address = a; broadcast_address = b })
ip_network _ = none

abbrev pub numbers : IpAddress
numbers = record {
  ip_address = ip_address;
  ip_network = ip_network;
  text_of_address = λ a. a.version ∷ a.value ∷ [];
  text_of_network = λ n. n.version ∷ n.network_address ∷ n.broadcast_address ∷ [];
  is_private = λ a. false;
  is_loopback = λ a. false;
  is_link_local = λ a. false;
  is_multicast = λ a. false;
  is_reserved = λ a. false;
  is_unspecified = λ a. false;
  ip_address-text = λ a. refl;
  ip_network-text = λ n. refl;
}

-- Every text is a domain, and none has a repository or an image.
abbrev pub domains : Parsers
domains = record {
  domain_re = λ t. true;
  repo_re = λ t. none;
  image_re = λ t. none;
  urlparse = λ t. record {
    scheme = [];
    netloc = t;
    hostname = some t;
    port = some none;
    has_credentials = false;
    path = [];
    query = [];
  };
  urlunparse = λ scheme netloc path query. netloc;
  idna = λ t. some t;
}

-- Addresses 2000 to 2007 may not be scanned, and 3000 to 3001 may.
abbrev pub strict : TargetPolicySettings
strict = record {
  block_private_ranges = true;
  block_metadata_endpoints = true;
  max_cidr_hosts = 4096;
  allow_list = [];
  deny_list = (4 ∷ 2000 ∷ 2007 ∷ []) ∷ [];
}

abbrev scoped : TargetPolicySettings
scoped = record strict { allow_list = (4 ∷ 3000 ∷ 3001 ∷ []) ∷ [] }

abbrev denied_net : Network
denied_net = record { version = 4; network_address = 2000; broadcast_address = 2007 }

abbrev allowed_net : Network
allowed_net = record { version = 4; network_address = 3000; broadcast_address = 3001 }

abbrev single : ValidatedTarget
single = record {
  kind = ip;
  canonical = 4 ∷ 2003 ∷ [];
  host = 4 ∷ 2003 ∷ [];
  port = none;
  host_count = 1;
}

abbrev range : ℕ → ℕ → ValidatedTarget
range a b = record {
  kind = cidr;
  canonical = 4 ∷ a ∷ b ∷ [];
  host = 4 ∷ a ∷ b ∷ [];
  port = none;
  host_count = 64;
}

abbrev range_net : ℕ → ℕ → Network
range_net a b = record { version = 4; network_address = a; broadcast_address = b }

denied_address_refused_example : enforce_policy numbers single strict ≡ err target_denied
denied_address_refused_example =
    denied_address_refused numbers single strict (4 ∷ 2000 ∷ 2007 ∷ []) denied_net
      (record { version = 4; value = 2003 }) refl refl (Memᴰ.head refl)
      (unfold pattern_text in refl) (unfold pattern_text in refl) (unfold is_within in refl)
