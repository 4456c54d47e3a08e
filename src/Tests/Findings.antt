-- ===== src/Tests/Findings.antt =====
-- backend/app/services/finding.py on concrete findings.
use cyber.Base.{ℕ, ◌+◌, ◌*◌, ◌≤◌, ◌/◌, ◌≡◌, refl, true, false, none, some, arith, codes}
use cyber.Finding.Data.{
  Severity, FindingStatus, Enrichment, Finding, kev_state, is_exploited, is_exposed, ransomware_use,
  criticality_of, criticality_named, raw_criticality, criticality_weight,
}
use cyber.Finding.Score.{
  Rounding, cvss_of, severity_component, epss_of, probability_component, components, sum_of,
  is_excluded, score,
}
use cyber.Finding.Status.{DdFinding}

nearest : (n : ℕ) → (1000 * ((n + 500) / 1000) ≤ n + 500) × (n ≤ 1000 * ((n + 500) / 1000) + 500)
nearest n = (omega arith, omega arith)

abbrev half_up : Rounding
half_up = record { round = λ n. (n + 500) / 1000; nearest = nearest }

abbrev pub listed : Enrichment
listed = record {
  nvd_cvss_v31_score = some 98;
  nvd_cvss_v31_vector = some (codes "CVSS:3.1/AV:N/AC:H/PR:N/UI:N/S:U/C:L/I:N/A:N");
  in_kev = some true;
  kev_ransomware_use = some (codes " Known");
  epss_score = some 12345;
}

abbrev pub exploited : Finding
exploited = record {
  severity = Severity.medium;
  cvss_score = none;
  cwe = some 79;
  status = FindingStatus.active;
  is_duplicate = false;
  is_false_positive = false;
  asset = some (record { internet_exposed = false; criticality = some (codes "high") });
  asset_criticality = some (codes "normal");
  enrichment = some listed;
}

-- 44.1 for severity, 20 for exploitation, 1.48 for EPSS, 7.5 for the asset and 3 for ransomware.
score-exploited : score half_up exploited ≡ 7608
unfolding score sum_of components severity_component cvss_of is_exploited kev_state
    probability_component epss_of is_exposed criticality_of criticality_named raw_criticality
    criticality_weight ransomware_use is_excluded
score-exploited = refl

abbrev plain : Finding
plain = record exploited { enrichment = none }

is_exploited-exploited : is_exploited exploited ≡ true
unfolding is_exploited kev_state
is_exploited-exploited = refl

abbrev record_of_dojo : DdFinding
record_of_dojo = record {
  active = true;
  verified = true;
  false_p = false;
  duplicate = false;
  risk_accepted = true;
  out_of_scope = false;
  is_mitigated = false;
}
