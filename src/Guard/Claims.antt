-- ===== src/Guard/Claims.antt =====
-- `verify_claims`, `assert_no_invented_cve` and `assert_no_invented_cvss`. The matching of the patterns is that of Python's `re`.
use cyber.Base.{
  ℕ, leb, zero, suc, Bool, true, false, not, ◌||◌, Option, none, some, List, [], ◌∷◌, map,
  if◌then◌else◌, contains, nat_eq, keep, get_elem?, Text, codes, text_same, text_eq, lower, strip,
}
use cyber.Base.Errors.{unverifiable_claim, Result, ok, err}

-- The patterns of the module, by what they find in a text.
pub record Patterns : Type 0 where
  -- `_SENTENCE_SPLIT_RE.split`
  pub split : Text → List Text
  -- `pattern.search`, for each of `CLAIM_INDICATORS`
  pub indicators : List (Text → Bool)
  -- The groups of the matches of `SOURCE_MARKER_RE`
  pub markers : Text → List Text
  -- The matches of `CVE_RE`
  pub cves : Text → List Text
  -- A match of `CVSS_CONTEXT_RE`
  pub speaks_of_cvss : Text → Bool
  -- The matches of `CVSS_RE`, in tenths
  pub scores : Text → List ℕ
  -- `value.upper()`
  pub upper : Text → Text

-- `UNVERIFIABLE_STATEMENT`
abbrev pub unverifiable_statement : Text
unverifiable_statement = codes "Unable to verify from available security intelligence."

pub record Claim : Type 0 where
  pub text : Text
  pub source_id : Option Text

-- `GuardResult`; the lines are those that `stripped_text` joins.
pub record GuardResult : Type 0 where
  pub accepted : Bool
  pub claims : List Claim
  pub unsupported : List Text
  pub lines : List Text

-- `_is_claim`
unfoldable pub is_claim : List (Text → Bool) → Text → Bool
is_claim [] sentence = false
is_claim (search ∷ patterns) sentence = search sentence || is_claim patterns sentence

-- `lowered.get(candidate)`, where a later key goes before an earlier one
unfoldable pub key_like : Text → List Text → Option Text
key_like candidate [] = none
key_like candidate (key ∷ keys) = elim (key_like candidate keys) [
  | some found ↦ some found
  | none ↦ if text_same (lower key) candidate then some key else none
]

-- The loop of `_sources_in`
unfoldable pub first_source : List Text → (evidence : List Text) → Option Text
unfolding key_like
first_source [] evidence = none
first_source (m ∷ ms) evidence =
    let rest = first_source ms evidence in
    elim (key_like (lower m) evidence) [ none ↦ rest | some key ↦ some key ]

-- `resolved[index]`
unfoldable pub resolved_at : List (Option Text) → ℕ → Option Text
resolved_at resolved i = elim (get_elem? resolved i) [ none ↦ none | some source ↦ source ]

-- `resolved[index - 1]`, where there is one
unfoldable pub resolved_before : List (Option Text) → ℕ → Option Text
unfolding resolved_at
resolved_before resolved zero = none
resolved_before resolved (suc i) = resolved_at resolved i

unfoldable pub known_first : Option Text → Option Text → Option Text
known_first none other = other
known_first (some source) other = some source

-- The source of a claim: its own sentence's, or the one before's, or the one after's.
unfoldable pub source_near : List (Option Text) → ℕ → Option Text
unfolding resolved_at resolved_before known_first
source_near resolved i =
    known_first (known_first (resolved_at resolved i) (resolved_before resolved i))
      (resolved_at resolved (suc i))

-- A sentence, seen.
unfoldable pub add_opinion : Text → GuardResult → GuardResult
add_opinion s r = record r { lines = s ∷ r.lines }

unfoldable pub add_claim : Text → Option Text → GuardResult → GuardResult
add_claim s none r = record {
  accepted = false;
  claims = record { text = strip s; source_id = none } ∷ r.claims;
  unsupported = strip s ∷ r.unsupported;
  lines = unverifiable_statement ∷ r.lines;
}
add_claim s (some source) r = record r {
  claims = record { text = strip s; source_id = some source } ∷ r.claims;
  lines = s ∷ r.lines;
}

-- `text` has no more than white space.
unfoldable pub is_blank : Text → Bool
is_blank text = elim (strip text) [ [] ↦ true | c ∷ s ↦ false ]

module _ (p : Patterns) (evidence : List Text) where
  -- `_sources_in`
  unfoldable pub sources_in : Text → Option Text
  unfolding first_source
  sources_in sentence = first_source (p.markers sentence) evidence

  -- The loop of `verify_claims`, from a sentence on
  unfoldable pub check_from : (resolved : List (Option Text)) → ℕ → List Text → GuardResult
  unfolding is_claim add_opinion add_claim source_near
  check_from resolved i [] = record { accepted = true; claims = []; unsupported = []; lines = [] }
  check_from resolved i (s ∷ sentences) =
      let rest = check_from resolved (suc i) sentences in
      if is_claim p.indicators s
      then add_claim s (source_near resolved i) rest
      else add_opinion s rest

  -- `[s for s in _SENTENCE_SPLIT_RE.split(text) if s.strip()]`
  unfoldable pub sentences_of : Text → List Text
  unfolding is_blank
  sentences_of text = keep (λ s. not (is_blank s)) (p.split text)

  -- `verify_claims`
  unfoldable pub verify_claims : Text → GuardResult
  unfolding check_from sentences_of is_blank sources_in
  verify_claims text =
      let sentences = sentences_of text in
      let checked = check_from (map sources_in sentences) 0 sentences in
      if is_blank text
      then record { accepted = true; claims = []; unsupported = []; lines = text ∷ [] }
      else checked

-- `normalize_cve`
unfoldable pub normalize_cve : Patterns → Text → Text
normalize_cve p value = p.upper (strip value)

-- What the text asserts and is not known; it is refused, if there is any.
unfoldable pub refused {ℓ} : {A : Type ℓ} → List A → Result (Unit {0})
refused [] = ok tt
refused (c ∷ cs) = err unverifiable_claim

-- `assert_no_invented_cve`
unfoldable pub assert_no_invented_cve :
    Patterns → Text → (known_cves : List Text) → Result (Unit {0})
unfolding normalize_cve refused
assert_no_invented_cve p text known_cves = refused (
    keep (λ c. not (contains c (map (normalize_cve p) known_cves)))
      (map (normalize_cve p) (p.cves text)))

-- `assert_no_invented_cvss`, for scores in tenths
unfoldable pub assert_no_invented_cvss :
    Patterns → Text → (known_scores : List ℕ) → Result (Unit {0})
unfolding refused
assert_no_invented_cvss p text known_scores =
    if p.speaks_of_cvss text
    then refused (keep (λ s. not (contains s known_scores)) (keep (λ s. leb s 100) (p.scores text)))
    else ok tt
