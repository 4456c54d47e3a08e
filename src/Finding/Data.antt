-- ===== src/Finding/Data.antt =====
-- A finding, its enrichment and its asset, as far as the score reads them. A score that is a
-- Python float is a whole number of its last decimal: CVSS in tenths, EPSS in hundred-thousandths,
-- points of the risk score in hundredths.
use cyber.Base.{
  ℕ, Bool, false, Option, none, some, List, [], ◌∷◌, Text, codes, if◌then◌else◌, text_same, lower,
  strip, one_of,
}

pub data Severity : Type 0 where
  critical high medium low info : Severity

-- `Severity.rank`
unfoldable pub severity_rank : Severity → ℕ
severity_rank info = 0
severity_rank low = 1
severity_rank medium = 2
severity_rank high = 3
severity_rank critical = 4

pub data Criticality : Type 0 where
  critical high normal low unknown : Criticality

-- `Criticality.weight`, in hundredths
unfoldable pub criticality_weight : Criticality → ℕ
criticality_weight Criticality.critical = 100
criticality_weight Criticality.high = 75
criticality_weight normal = 50
criticality_weight Criticality.low = 25
criticality_weight unknown = 40

-- `Criticality(raw)`, with `none` for its `ValueError`
unfoldable pub criticality_named : Text → Option Criticality
criticality_named raw =
    if text_same raw (codes "critical")
    then some Criticality.critical
    else if text_same raw (codes "high")
    then some Criticality.high
    else if text_same raw (codes "normal")
    then some normal
    else if text_same raw (codes "low")
    then some Criticality.low
    else if text_same raw (codes "unknown")
    then some unknown
    else none

pub data FindingStatus : Type 0 where
  active verified false_positive risk_accepted out_of_scope mitigated duplicate : FindingStatus

-- `FindingEnrichment`
pub record Enrichment : Type 0 where
  pub nvd_cvss_v31_score : Option ℕ
  pub nvd_cvss_v31_vector : Option Text
  pub in_kev : Option Bool
  pub kev_ransomware_use : Option Text
  pub epss_score : Option ℕ

pub record Asset : Type 0 where
  pub internet_exposed : Bool
  pub criticality : Option Text

pub record Finding : Type 0 where
  pub severity : Severity
  pub cvss_score : Option ℕ
  pub cwe : Option ℕ
  pub status : FindingStatus
  pub is_duplicate : Bool
  pub is_false_positive : Bool
  pub asset : Option Asset
  pub asset_criticality : Option Text
  pub enrichment : Option Enrichment

-- `_kev_state`
unfoldable pub kev_state : Finding → Option Bool
kev_state f = elim f.enrichment [ none ↦ none | some e ↦ e.in_kev ]

-- `_kev_state(finding) is True`
unfoldable pub is_exploited : Finding → Bool
is_exploited f = elim (kev_state f) [ none ↦ false | some state ↦ state ]

-- `_RANSOMWARE_YES`
abbrev pub ransomware_yes : List Text
ransomware_yes = codes "known" ∷ codes "true" ∷ codes "yes" ∷ []

-- `_ransomware_use`; an empty text is none of the three.
unfoldable pub ransomware_use : Option Enrichment → Bool
ransomware_use none = false
ransomware_use (some e) = elim e.kev_ransomware_use [
  | none ↦ false
  | some text ↦ one_of (lower (strip text)) ransomware_yes
]

-- The text that `_criticality_of` reads: the live asset's, else the snapshot.
unfoldable pub raw_criticality : Finding → Option Text
raw_criticality f = elim f.asset [ none ↦ f.asset_criticality | some a ↦ a.criticality ]

-- `_criticality_of`
unfoldable pub criticality_of : Finding → Criticality
criticality_of f = elim (raw_criticality f) [
  | none ↦ unknown
  | some text ↦ elim (criticality_named text) [ none ↦ unknown | some c ↦ c ]
]

-- `finding.asset is not None and finding.asset.internet_exposed`
unfoldable pub is_exposed : Finding → Bool
is_exposed f = elim f.asset [ none ↦ false | some a ↦ a.internet_exposed ]
