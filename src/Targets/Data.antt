-- ===== src/Targets/Data.antt =====
-- `ValidatedTarget`, the policy's settings, and Python's `ipaddress`.
use cyber.Base.{ℕ, ◌≡◌, ◌+◌, ◌-◌, Bool, ◌&&◌, ◌==◌, leb, Option, some, List, Text}

pub data TargetType : Type 0 where
  domain ip url cidr repository container_image : TargetType

-- `ValidatedTarget`, without the metadata and the raw text.
pub record ValidatedTarget : Type 0 where
  pub kind : TargetType
  pub canonical : Text
  pub host : Text
  pub port : Option ℕ
  pub host_count : ℕ

-- `TargetPolicySettings`
pub record TargetPolicySettings : Type 0 where
  pub block_private_ranges : Bool
  pub block_metadata_endpoints : Bool
  pub max_cidr_hosts : ℕ
  pub allow_list : List Text
  pub deny_list : List Text

-- An address: its version, 4 or 6, and its bits as a number.
pub record Address : Type 0 where
  pub version : ℕ
  pub value : ℕ

-- A network: its first and its last address.
pub record Network : Type 0 where
  pub version : ℕ
  pub network_address : ℕ
  pub broadcast_address : ℕ

-- Python's `ipaddress`: the two parsers, with `none` for a `ValueError` and networks not strict; what they
-- print, which they read back; and the properties of an address that `_is_non_public` asks for.
pub record IpAddress : Type 0 where
  pub ip_address : Text → Option Address
  pub ip_network : Text → Option Network
  pub text_of_address : Address → Text
  pub text_of_network : Network → Text
  pub is_private : Address → Bool
  pub is_loopback : Address → Bool
  pub is_link_local : Address → Bool
  pub is_multicast : Address → Bool
  pub is_reserved : Address → Bool
  pub is_unspecified : Address → Bool
  pub ip_address-text : (a : Address) → ip_address (text_of_address a) ≡ some a
  pub ip_network-text : (n : Network) → ip_network (text_of_network n) ≡ some n

-- `addr in net`, of one version
unfoldable pub is_within : Address → Network → Bool
is_within a n =
    a.version == n.version && leb n.network_address a.value && leb a.value n.broadcast_address

-- `net.num_addresses`
unfoldable pub num_addresses : Network → ℕ
num_addresses n = n.broadcast_address - n.network_address + 1
