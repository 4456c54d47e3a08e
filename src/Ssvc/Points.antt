-- ===== src/Ssvc/Points.antt =====
-- The four decision points of `evaluate_ssvc`, and its outcome.
use cyber.Base.{
  ◌↔◌, zero, suc, starts_with-decimal, starts_with-occurs_in, decimal, ℕ, ◌≤◌, ◌≡◌, ◌⊎◌, refl, Bool,
  true, false, not, ◌&&◌, ◌||◌, Option, none, some, List, [], ◌∷◌, arith, if◌then◌else◌, leb, Text,
  codes, lower, starts_with, occurs_in, one_of,
}
use cyber.Finding.Data.{
  Severity, Criticality, criticality_named, Enrichment, Finding, ransomware_yes,
}
use cyber.Ssvc.Tree.{
  ExploitationStatus, Automatable, TechnicalImpact, MissionPrevalence, SsvcOutcome, decision_tree,
  urgency,
}

-- `score is not None and score >= bound`
abbrev pub reaches : ℕ → Option ℕ → Bool
reaches bound none = false
reaches bound (some score) = leb bound score

-- `str(ransomware).lower() in ("known", "true", "yes")`
unfoldable pub ransomware_known : Enrichment → Bool
ransomware_known e = elim e.kev_ransomware_use [
  | none ↦ false
  | some text ↦ one_of (lower text) ransomware_yes
]

-- `enrichment.in_kev is True`
unfoldable pub in_kev : Enrichment → Bool
in_kev e = elim e.in_kev [ none ↦ false | some state ↦ state ]

-- `_exploitation_status`
unfoldable pub exploitation_status : Option Enrichment → ExploitationStatus
exploitation_status none = ExploitationStatus.none
exploitation_status (some e) =
    if in_kev e
    then ExploitationStatus.active
    else if reaches 50000 e.epss_score
    then ExploitationStatus.active
    else if reaches 10000 e.epss_score
    then ExploitationStatus.poc
    else if ransomware_known e
    then ExploitationStatus.active
    else ExploitationStatus.none

-- The vector that the decision points read; an empty text is none.
unfoldable pub vector_of : Option Enrichment → Option Text
vector_of none = none
vector_of (some e) = elim e.nvd_cvss_v31_vector [
  | none ↦ none
  | some text ↦ elim text [ [] ↦ none | c ∷ rest ↦ some (c ∷ rest) ]
]

-- Whether a vector says that no privilege is needed over the network.
unfoldable pub network_reachable : Text → Bool
network_reachable v =
    occurs_in (codes "AV:N") v
    && (occurs_in (codes "PR:N") v
        || (not (occurs_in (codes "PR:L") v) && not (occurs_in (codes "PR:H") v)))

abbrev pub automatable_cwes : List Text
automatable_cwes =
    codes "CWE-79"
    ∷ codes "CWE-89"
    ∷ codes "CWE-611"
    ∷ codes "CWE-918"
    ∷ codes "CWE-502"
    ∷ codes "CWE-22"
    ∷ codes "CWE-78"
    ∷ []

-- `any(cwe.startswith(c) for c in prefixes)`
abbrev pub starts_with_any : Text → List Text → Bool
starts_with_any cwe [] = false
starts_with_any cwe (c ∷ cs) = starts_with cwe c || starts_with_any cwe cs

unfoldable pub epss_score_of : Option Enrichment → Option ℕ
epss_score_of none = none
epss_score_of (some e) = e.epss_score

-- `str(finding.cwe or "")`; the column is a number.
unfoldable pub cwe_text : Option ℕ → Text
cwe_text none = []
cwe_text (some zero) = []
cwe_text (some (suc n)) = decimal (suc n)

-- `_automatable`
unfoldable pub automatable : Finding → Option Enrichment → Automatable
automatable f enrichment =
    if elim (vector_of enrichment) [ none ↦ false | some v ↦ network_reachable v ]
    then Automatable.yes
    else if starts_with_any (cwe_text f.cwe) automatable_cwes
    then Automatable.yes
    else if reaches 90 f.cvss_score
    then Automatable.yes
    else if reaches 70000 (epss_score_of enrichment)
    then Automatable.yes
    else Automatable.no

-- The tests of `_technical_impact` on a vector: a changed scope, or one high impact.
unfoldable pub vector_total : Text → Bool
vector_total v =
    (occurs_in (codes "C:H") v && occurs_in (codes "I:H") v)
    || occurs_in (codes "S:C") v
    || (occurs_in (codes "C:H") v || occurs_in (codes "I:H") v || occurs_in (codes "A:H") v)

-- `sev in (Severity.CRITICAL.value, Severity.HIGH.value)`
unfoldable pub is_severe : Severity → Bool
is_severe Severity.critical = true
is_severe Severity.high = true
is_severe _ = false

-- `_technical_impact`
unfoldable pub technical_impact : Finding → Option Enrichment → TechnicalImpact
technical_impact f enrichment =
    if elim (vector_of enrichment) [ none ↦ false | some v ↦ vector_total v ]
    then TechnicalImpact.total
    else if reaches 90 f.cvss_score
    then TechnicalImpact.total
    else if reaches 70 f.cvss_score
    then TechnicalImpact.total
    else if is_severe f.severity
    then TechnicalImpact.total
    else TechnicalImpact.partial

unfoldable pub mission_of : Criticality → MissionPrevalence
mission_of Criticality.critical = MissionPrevalence.critical
mission_of Criticality.high = MissionPrevalence.critical
mission_of Criticality.normal = MissionPrevalence.support
mission_of Criticality.low = MissionPrevalence.minimal
mission_of Criticality.unknown = MissionPrevalence.support

-- `_mission_prevalence`; an empty text names no criticality.
unfoldable pub mission_prevalence : Finding → MissionPrevalence
mission_prevalence f = elim f.asset_criticality [
  | none ↦ MissionPrevalence.support
  | some text ↦ elim (criticality_named text) [
    | none ↦ MissionPrevalence.support
    | some c ↦ mission_of c
  ]
]

-- `evaluate_ssvc`, its outcome
unfoldable pub evaluate_ssvc : Finding → Option Enrichment → SsvcOutcome
evaluate_ssvc f enrichment =
    decision_tree (exploitation_status enrichment) (automatable f enrichment)
      (technical_impact f enrichment) (mission_prevalence f)

-- A high attack complexity is read as a high impact on confidentiality.
occurs_in-ac : (v : Text) → occurs_in (codes "AC:H") v ≡ true → occurs_in (codes "C:H") v ≡ true
occurs_in-ac [] h = h
occurs_in-ac (c ∷ v) h = ground (arith, occurs_in-ac v, starts_with-occurs_in (codes "C:H") v)

no_letter :
    (s : Text)
    → ((prefix : Text) → starts_with s (67 ∷ prefix) ≡ false)
    → starts_with_any s automatable_cwes ≡ false
no_letter s h =
    rw
      (
        h (codes "WE-79"),
        h (codes "WE-89"),
        h (codes "WE-611"),
        h (codes "WE-918"),
        h (codes "WE-502"),
        h (codes "WE-22"),
        h (codes "WE-78"),
      )
      refl

cwe_text_lem : (cwe : Option ℕ) → starts_with_any (cwe_text cwe) automatable_cwes ≡ false
unfolding cwe_text
cwe_text_lem none = refl
cwe_text_lem (some zero) = refl
cwe_text_lem (some (suc n)) = no_letter (decimal (suc n)) (starts_with-decimal (suc n))

-- The weakness class of a finding does not count: whatever number stands in its column, the answer
-- is the same.
pub automatable_ignores_cwe :
    (f : Finding) (enrichment : Option Enrichment) (cwe : Option ℕ)
    → automatable (record f { cwe = cwe }) enrichment ≡ automatable f enrichment
unfolding automatable
automatable_ignores_cwe f enrichment cwe = rw (cwe_text_lem cwe, cwe_text_lem f.cwe) refl

-- A vulnerability whose vector names a high attack complexity has total technical impact, whatever
-- its impact metrics say, its score and its severity.
pub technical_impact_complexity :
    (f : Finding) (e : Enrichment) (v : Text)
    → e.nvd_cvss_v31_vector ≡ some v
    → occurs_in (codes "AC:H") v ≡ true
    → technical_impact f (some e) ≡ TechnicalImpact.total
unfolding technical_impact vector_of vector_total
technical_impact_complexity f e [] h high = cc
technical_impact_complexity f e (c ∷ v) h high = ground (arith, h, occurs_in-ac (c ∷ v) high)

-- A finding that CISA lists as exploited calls for action when its impact is total or its mission
-- critical, and is at least attended to otherwise.
pub evaluate_ssvc-kev :
    (f : Finding) (e : Enrichment)
    → in_kev e ≡ true
    → (2 ≤ urgency (evaluate_ssvc f (some e)))
      × ((evaluate_ssvc f (some e) ≡ SsvcOutcome.act) ↔ (
          (technical_impact f (some e) ≡ TechnicalImpact.total)
          ⊎ (mission_prevalence f ≡ MissionPrevalence.critical)))
unfolding evaluate_ssvc exploitation_status decision_tree
evaluate_ssvc-kev f e listed = ground (arith, listed)
