-- ===== src/Tests/Guards.antt =====
-- Three sentences of a model, under plain patterns: a sentence is a line, and a source is the text
-- between brackets.
use cyber.Base.{
  ℕ, ◌≡◌, refl, false, some, List, [], ◌∷◌, ◌++◌, if◌then◌else◌, ◌==◌, map, get_elem?, length, Text,
  codes, text_eq, occurs_in, starts_with, Within, keep,
}
use cyber.Base.Errors.{unverifiable_claim, ok, err}
use cyber.Guard.Claims.{
  Patterns, is_claim, unverifiable_statement, key_like, first_source, resolved_at, resolved_before,
  known_first, source_near, add_opinion, add_claim, is_blank, sources_in, check_from, sentences_of,
  verify_claims, normalize_cve, refused, assert_no_invented_cve, assert_no_invented_cvss,
}
use cyber.Guard.Sourced.{Checked, verify_claims-Checked, assert_no_invented_cve-Within}

-- The pieces between the separators.
abbrev pieces : (separator : ℕ) → Text → List Text
pieces separator [] = [] ∷ []
pieces separator (c ∷ s) =
    let rest = pieces separator s in
    if c == separator then [] ∷ rest else elim rest [ [] ↦ (c ∷ []) ∷ [] | t ∷ ts ↦ (c ∷ t) ∷ ts ]

-- The text up to a bracket that closes.
abbrev up_to : Text → Text
up_to [] = []
up_to (c ∷ s) = let rest = up_to s in if c == 93 then [] else c ∷ rest

abbrev brackets : Text → List Text
brackets [] = []
brackets (c ∷ s) = let rest = brackets s in if c == 91 then up_to s ∷ rest else rest

abbrev plain : Patterns
plain = record {
  split = pieces 10;
  indicators = occurs_in (codes "CVE-") ∷ occurs_in (codes "KEV") ∷ [];
  markers = brackets;
  cves = λ text. keep (λ t. starts_with t (codes "CVE-")) (pieces 32 text);
  speaks_of_cvss = occurs_in (codes "CVSS");
  scores = λ text. if occurs_in (codes "9.8") text then 98 ∷ [] else [];
  upper = λ t. t;
}

abbrev supplied : List Text
supplied = codes "nvd:1" ∷ []

abbrev said : Text
said =
    codes "CVE-1 is bad."
    ++ 10 ∷ codes "See [NVD:1]."
    ++ 10 ∷ codes "Patch it."
    ++ 10 ∷ codes "CVE-2 is worse."

-- The first claim is cited by the sentence after it, and the last one by none.
two_claims :
    (verify_claims plain supplied said).lines
    ≡ codes "CVE-1 is bad." ∷ codes "See [NVD:1]." ∷ codes "Patch it." ∷ unverifiable_statement ∷ []
unfolding verify_claims is_claim check_from sentences_of is_blank sources_in first_source key_like
    add_opinion add_claim source_near resolved_at resolved_before known_first
two_claims = refl

said_something : is_blank said ≡ false
unfolding is_blank
said_something = refl

first_sentence : get_elem? (sentences_of plain supplied said) 0 ≡ some (codes "CVE-1 is bad.")
unfolding sentences_of is_blank
first_sentence = refl

verify_claims-Checked_example :
    (length (verify_claims plain supplied said).lines ≡ length (sentences_of plain supplied said))
    × (line : Text) × (get_elem? (verify_claims plain supplied said).lines 0 ≡ some line)
    × Checked plain supplied (sentences_of plain supplied said) 0 (codes "CVE-1 is bad.") line
verify_claims-Checked_example =
    verify_claims-Checked plain supplied said said_something 0 first_sentence

known_only :
    assert_no_invented_cve plain (codes "CVE-1 and CVE-3") (codes " CVE-3" ∷ codes "CVE-1" ∷ [])
    ≡ ok tt
unfolding assert_no_invented_cve normalize_cve refused
known_only = refl

assert_no_invented_cve-Within_example :
    Within
      (map (normalize_cve plain) (codes "CVE-1" ∷ codes "CVE-3" ∷ []))
      (map (normalize_cve plain) (codes " CVE-3" ∷ codes "CVE-1" ∷ []))
assert_no_invented_cve-Within_example =
    assert_no_invented_cve-Within plain (codes "CVE-1 and CVE-3")
      (codes " CVE-3" ∷ codes "CVE-1" ∷ []) known_only

invented_score : assert_no_invented_cvss plain (codes "CVSS 9.8") (75 ∷ []) ≡ err unverifiable_claim
unfolding assert_no_invented_cvss refused
invented_score = refl
