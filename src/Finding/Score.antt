-- ===== src/Finding/Score.antt =====
-- `_score`: the six components of the risk score and their sum.
use cyber.Base.{
  ℕ, ◌+◌, ◌*◌, ◌≤◌, ◌≡◌, inl, inr, Option-cases, min, max, Bool, ◌||◌, Option, none, some, arith,
  if◌then◌else◌,
}
use cyber.Finding.Data.{
  Severity, critical, high, medium, low, info, Criticality, criticality_weight, Finding,
  is_exploited, ransomware_use, criticality_of, is_exposed,
}

-- `round(x, 2)` of a float: of `n` hundred-thousandths it gives a nearest number of hundredths;
-- which one, at a tie, hangs on the float that stands for it.
pub record Rounding : Type 0 where
  pub round : ℕ → ℕ
  pub nearest : (n : ℕ) → (1000 * round n ≤ n + 500) × (n ≤ 1000 * round n + 500)

-- `_SEVERITY_POINTS`
unfoldable pub severity_points : Severity → ℕ
severity_points critical = 3800
severity_points high = 2900
severity_points medium = 1700
severity_points low = 700
severity_points info = 100

-- `finding.cvss_score`, else that of the NVD
unfoldable pub cvss_of : Finding → Option ℕ
cvss_of f = elim f.cvss_score [
  | some score ↦ some score
  | none ↦ elim f.enrichment [ none ↦ none | some e ↦ e.nvd_cvss_v31_score ]
]

-- The component `severity`; a CVSS tenth is worth 45 hundredths of a point.
unfoldable pub severity_component : Finding → ℕ
severity_component f = elim (cvss_of f) [
  | some cvss ↦ min 4500 (cvss * 45)
  | none ↦ severity_points f.severity
]

-- `enrichment.epss_score`
unfoldable pub epss_of : Finding → Option ℕ
epss_of f = elim f.enrichment [ none ↦ none | some e ↦ e.epss_score ]

pub record Components : Type 0 where
  pub severity : ℕ
  pub exploitation : ℕ
  pub exploit_probability : ℕ
  pub exposure : ℕ
  pub asset_criticality : ℕ
  pub ransomware : ℕ

-- `sum(components.values())`
unfoldable pub sum_of : Components → ℕ
sum_of c =
    c.severity + c.exploitation + c.exploit_probability + c.exposure + c.asset_criticality
    + c.ransomware

-- `finding.is_duplicate or finding.is_false_positive`
unfoldable pub is_excluded : Finding → Bool
is_excluded f = f.is_duplicate || f.is_false_positive

module _ (r : Rounding) where
  -- The component `exploit_probability`; an EPSS of one is worth 12 points.
  unfoldable pub probability_component : Finding → ℕ
  probability_component f = elim (epss_of f) [
    | none ↦ 0
    | some epss ↦ r.round (min 1200000 (epss * 12))
  ]

  unfoldable pub components : Finding → Components
  components f = record {
    severity = severity_component f;
    exploitation = if is_exploited f then 2000 else 0;
    exploit_probability = probability_component f;
    exposure = if is_exposed f then 1000 else 0;
    asset_criticality = 10 * criticality_weight (criticality_of f);
    ransomware = if ransomware_use f.enrichment then 300 else 0;
  }

  -- `_score`, in hundredths, without the factors that it records.
  unfoldable pub score : Finding → ℕ
  unfolding components sum_of is_excluded
  score f = if is_excluded f then 0 else min 10000 (max 0 (sum_of (components f)))

  exploit_probability_le : (n : ℕ) → r.round (min 1200000 n) ≤ 1200
  exploit_probability_le n = omega (arith, r.nearest (min 1200000 n))

  probability_component_le : (f : Finding) → probability_component f ≤ 1200
  unfolding probability_component
  probability_component_le f = elim (Option-cases (epss_of f)) [
    | inl missing ↦ ground (arith, missing)
    | inr (epss, known) ↦ ground (arith, known, exploit_probability_le (epss * 12))
  ]

  severity_component_le : (f : Finding) → severity_component f ≤ 4500
  unfolding severity_component severity_points
  severity_component_le f = ground arith

  criticality_weight_le : (c : Criticality) → criticality_weight c ≤ 100
  unfolding criticality_weight
  criticality_weight_le c = ground arith

  sum_of_le : (f : Finding) → sum_of (components f) ≤ 10000
  unfolding sum_of components
  sum_of_le f =
      let exploitation : (if is_exploited f then 2000 else 0) ≤ 2000 = ground arith in
      let exposure : (if is_exposed f then 1000 else 0) ≤ 1000 = ground arith in
      let ransomware : (if ransomware_use f.enrichment then 300 else 0) ≤ 300 = ground arith in
      omega (
        arith,
        severity_component_le f,
        exploitation,
        probability_component_le f,
        exposure,
        criticality_weight_le (criticality_of f),
        ransomware,
      )

  -- The weights sum to exactly 100 points: the clamp of the total never cuts anything off, so the
  -- score is the sum of the components, at most 100, and 0 for a duplicate or a false positive.
  pub score_is_sum :
      (f : Finding)
      → (score f ≡ (if is_excluded f then 0 else sum_of (components f))) × (score f ≤ 10000)
  unfolding score
  score_is_sum f = ground (arith, sum_of_le f)
