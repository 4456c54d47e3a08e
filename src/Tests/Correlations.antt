-- ===== src/Tests/Correlations.antt =====
-- Three findings of one asset.
use mathlib.Core.List.{Memᴰ}
use cyber.Base.{ℕ, ◌≤◌, ◌≡◌, refl, none, some, List, [], ◌∷◌, map, arith, Text, codes, length}
use cyber.Finding.Data.{Severity}
use cyber.Correlation.Groups.{
  Correlated, DuplicateGroup, cut_at, normalize_endpoint, sorted, insert_sorted, join,
  number_or_empty, endpoint_or_empty, rank_or_zero, worst, add_to_group, reported, reported_all,
  asset_text, fingerprint, group_all, deterministic_duplicates,
}
use cyber.Correlation.Classes.{
  Reports, fingerprinted, deterministic_duplicates-Reports, fingerprinted-Reports,
}
use cyber.Correlation.Merge.{
  CorrelationOut, DupGroup, same_set, known_in, known, known_ids, representative, group_of,
  model_groups, merge, correlate_findings,
}
use cyber.Correlation.Grounded.{IsGrounded, correlate_findings-IsGrounded}
use cyber.Tests.Queues.{marked}

abbrev open_port : Correlated
open_port = record {
  id = 1;
  asset_id = some 2;
  cwe = none;
  endpoint = none;
  cve_ids = [];
  title = codes "Port 22 is open";
  severity = some Severity.info;
}

abbrev old_tls : Correlated
old_tls = record open_port {
  id = 2;
  title = codes "TLS 1.0 is enabled";
  severity = some Severity.medium;
}

abbrev injection : Correlated
injection = record open_port { id = 3; endpoint = some (codes "https://a/q/?id=1") }

abbrev all_three : List Correlated
all_three = open_port ∷ old_tls ∷ injection ∷ []

-- A digest that keeps the text.
abbrev same_text : Text → Text
same_text t = t

abbrev lumped : DuplicateGroup
lumped = record {
  finding_ids = 1 ∷ 2 ∷ [];
  canonical_title = codes "TLS 1.0 is enabled";
  representative_id = 2;
}

-- Two findings that have no CWE, endpoint or CVE are put together, whatever they say.
lumps : deterministic_duplicates marked same_text all_three ≡ lumped ∷ []
unfolding deterministic_duplicates group_all add_to_group fingerprint reported_all reported worst
    rank_or_zero cut_at normalize_endpoint sorted insert_sorted join number_or_empty
    endpoint_or_empty asset_text
lumps = refl

abbrev shared : Text
shared = codes "uII|||"

shared_by_two : 2 ≤ length (fingerprinted marked same_text shared all_three)
unfolding fingerprint cut_at normalize_endpoint sorted insert_sorted join number_or_empty
    endpoint_or_empty asset_text
shared_by_two = omega arith

fingerprinted-Reports_example :
    (d : DuplicateGroup) × Memᴰ d (deterministic_duplicates marked same_text all_three)
    × Reports (fingerprinted marked same_text shared all_three) d
fingerprinted-Reports_example =
    fingerprinted-Reports marked same_text all_three shared shared_by_two

lumped_found : Memᴰ lumped (deterministic_duplicates marked same_text all_three)
unfolding deterministic_duplicates group_all add_to_group fingerprint reported_all reported worst
    rank_or_zero cut_at normalize_endpoint sorted insert_sorted join number_or_empty
    endpoint_or_empty asset_text
lumped_found = Memᴰ.head refl

deterministic_duplicates-Reports_example :
    (k : Text) × Reports (fingerprinted marked same_text k all_three) lumped
deterministic_duplicates-Reports_example =
    deterministic_duplicates-Reports marked same_text all_three lumped lumped_found

-- A model that repeats one finding, and one that adds an identifier that it made up.
abbrev repeated : DupGroup
repeated = record {
  finding_ids = "uIII" ∷ "uIII" ∷ [];
  canonical_title = [];
  representative_id = "uI";
}

abbrev made_up : DupGroup
made_up = record {
  finding_ids = "uI" ∷ "uII" ∷ "uIIIIIIII" ∷ [];
  canonical_title = [];
  representative_id = "uII";
}

abbrev answer : CorrelationOut
answer = record {
  false_positive_candidates = [];
  duplicates = repeated ∷ made_up ∷ [];
  compound_risks = [];
  coverage_gaps = [];
}

correlate_findings-IsGrounded_example :
    IsGrounded marked all_three (correlate_findings marked same_text (some answer) all_three)
correlate_findings-IsGrounded_example =
    correlate_findings-IsGrounded marked same_text (some answer) all_three

-- The one finding is a duplicate of itself under a representative outside the group, and the group that is
-- known already is listed again.
groups_again :
    map {B = List ℕ × ℕ}
      (λ g. (g.finding_ids, g.representative_id))
      (merge marked all_three (lumped ∷ []) (some answer)).duplicate_groups
    ≡ (1 ∷ 2 ∷ [], 2) ∷ (3 ∷ 3 ∷ [], 1) ∷ (1 ∷ 2 ∷ [], 2) ∷ []
unfolding merge model_groups group_of known_ids known known_in same_set representative
groups_again = refl
