-- ===== src/Targets/Ranges.antt =====
-- What the lists of the policy say of addresses and of ranges.
use mathlib.Core.List.{Memᴰ}
use cyber.Base.{
  ◌≤◌, ◌<◌, ◌≡◌, refl, true, false, Bool-cases, inl, inr, arith, some, [], ◌∷◌, ◌++◌, Text, codes,
  text_same, lower, ends_with, some_of, some_of-Mem,
}
use cyber.Base.Errors.{target_denied, err}
use cyber.Targets.Data.{
  ValidatedTarget, TargetPolicySettings, Address, Network, IpAddress, is_within,
}
use cyber.Targets.Policy.{
  is_cidr, is_empty, pattern_text, ends_of, addresses_of, covers, matches_pattern, matches_any,
  enforce_policy,
}

module _ (i : IpAddress) where
  refused_by_deny_list :
      (t : ValidatedTarget) (p : TargetPolicySettings)
      → matches_any i t p.deny_list ≡ true
      → enforce_policy i t p ≡ err target_denied
  unfolding enforce_policy
  refused_by_deny_list t p h = ground (arith, h)

  matches_network :
      (t : ValidatedTarget) (pattern : Text) (m : Network)
      → is_empty (pattern_text pattern) ≡ false
      → i.ip_network (pattern_text pattern) ≡ some m
      → some_of (λ a. is_within a m) (addresses_of i t) ≡ true
      → matches_pattern i t pattern ≡ true
  unfolding matches_pattern covers
  matches_network t pattern m filled network inside = ground (arith, filled, network, inside)

  -- A single address that lies in a network of the deny list is refused.
  pub denied_address_refused :
      (t : ValidatedTarget) (p : TargetPolicySettings) (pattern : Text) (m : Network) (a : Address)
      → is_cidr t.kind ≡ false
      → i.ip_address t.host ≡ some a
      → Memᴰ pattern p.deny_list
      → is_empty (pattern_text pattern) ≡ false
      → i.ip_network (pattern_text pattern) ≡ some m
      → is_within a m ≡ true
      → enforce_policy i t p ≡ err target_denied
  unfolding matches_any addresses_of
  denied_address_refused t p pattern m a single address listed filled network inside =
      refused_by_deny_list t p (
        some_of-Mem (matches_pattern i t) p.deny_list listed
          (matches_network t pattern m filled network (ground (arith, single, address, inside))))

  misses_inside :
      (t : ValidatedTarget) (pattern : Text) (n m : Network)
      → is_cidr t.kind ≡ true
      → i.ip_network t.canonical ≡ some n
      → i.ip_network (pattern_text pattern) ≡ some m
      → n.network_address < m.network_address
      → m.broadcast_address < n.broadcast_address
      → text_same (lower t.host) (pattern_text pattern) ≡ false
      → ends_with (lower t.host) (codes "." ++ pattern_text pattern) ≡ false
      → matches_pattern i t pattern ≡ false
  unfolding matches_pattern covers addresses_of ends_of is_within
  misses_inside t pattern n m range canonical network after before other suffix =
      ground (arith, range, canonical, network, after, before, other, suffix)

  -- An entry of the deny list that lies strictly inside a range, and is not spelled like it, makes no
  -- difference to the range: only the two ends of a range are compared.
  pub denied_inside_ignored :
      (t : ValidatedTarget) (p : TargetPolicySettings) (pattern : Text) (n m : Network)
      → is_cidr t.kind ≡ true
      → i.ip_network t.canonical ≡ some n
      → i.ip_network (pattern_text pattern) ≡ some m
      → n.network_address < m.network_address
      → m.broadcast_address < n.broadcast_address
      → text_same (lower t.host) (pattern_text pattern) ≡ false
      → ends_with (lower t.host) (codes "." ++ pattern_text pattern) ≡ false
      → enforce_policy i t (record p { deny_list = pattern ∷ p.deny_list }) ≡ enforce_policy i t p
  unfolding enforce_policy matches_any
  denied_inside_ignored t p pattern n m range canonical network after before other suffix =
      let missed = misses_inside t pattern n m range canonical network after before other suffix in
      rw missed refl

  -- A range one end of which lies in a network of the allow list is in scope as a whole: the allow list
  -- makes no difference to it.
  pub allowed_by_one_end :
      (t : ValidatedTarget) (p : TargetPolicySettings) (pattern : Text) (n m : Network)
      → is_cidr t.kind ≡ true
      → i.ip_network t.canonical ≡ some n
      → Memᴰ pattern p.allow_list
      → is_empty (pattern_text pattern) ≡ false
      → i.ip_network (pattern_text pattern) ≡ some m
      → n.version ≡ m.version
      → m.network_address ≤ n.network_address
      → n.network_address ≤ m.broadcast_address
      → enforce_policy i t p ≡ enforce_policy i t (record p { allow_list = [] })
  unfolding enforce_policy addresses_of ends_of is_within matches_any
  allowed_by_one_end t p pattern n m range canonical listed filled network version low high =
      let matched = some_of-Mem (matches_pattern i t) p.allow_list listed (
        matches_network t pattern m filled network
          (ground (arith, range, canonical, version, low, high))) in
      elim (Bool-cases (is_empty p.allow_list)) [
        | inl unset ↦ rw (matched, unset) refl
        | inr set ↦ rw (matched, set) refl
      ]
