-- ===== src/Guard/Sourced.antt =====
-- The lines of `verify_claims` against the sentences, and the names that pass.
use cyber.Base.{
  ℕ, zero, suc, ◌+◌, ◌≤◌, ◌≡◌, refl, sym, ap, subst, ◌∙◌, true, false, not, Bool-cases,
  Option-cases, inl, inr, ◌⊎◌, arith, Option, none, some, List, [], ◌∷◌, map, contains,
  contains-keep, keep, get_elem?, length, Text, text_same, text_eq, text_same_iff, lower, Within,
  Comparable, leb, nat_eq,
}
use cyber.Base.Errors.{ok}
use cyber.Guard.Claims.{
  Patterns, is_claim, unverifiable_statement, GuardResult, key_like, first_source, resolved_at,
  resolved_before, known_first, source_near, add_opinion, add_claim, is_blank, sources_in,
  check_from, sentences_of, verify_claims, normalize_cve, refused, assert_no_invented_cve,
  assert_no_invented_cvss,
}

key_like-contains :
    (candidate : Text) (keys : List Text) {key : Text}
    → key_like candidate keys ≡ some key
    → contains key keys ≡ true
unfolding key_like
key_like-contains candidate [] h = cc
key_like-contains candidate (k ∷ keys) {key} h = elim (Option-cases (key_like candidate keys)) [
  | inr (other, later) ↦
      let same : key_like candidate (k ∷ keys) ≡ some other = rw (later, key_like) refl in
      ground (arith, key_like-contains candidate keys (later ∙ (sym same ∙ h)))
  | inl none_later ↦ elim (Bool-cases (text_same (lower k) candidate)) [
    | inl here ↦
        let same : key_like candidate (k ∷ keys) ≡ some k = rw (none_later, here, key_like) refl in
        let e : key ≡ k = cc (same, h) in ground (arith, (text_same_iff key k).1 e)
    | inr other ↦
        let same : key_like candidate (k ∷ keys) ≡ none = rw (none_later, other, key_like) refl in
        cc (sym same ∙ h)
  ]
]

first_source-contains :
    (ms evidence : List Text) {key : Text}
    → first_source ms evidence ≡ some key
    → contains key evidence ≡ true
unfolding first_source
first_source-contains [] evidence h = cc
first_source-contains (m ∷ ms) evidence h = elim (Option-cases (key_like (lower m) evidence)) [
  | inl unknown ↦
      let same : first_source (m ∷ ms) evidence ≡ first_source ms evidence =
        rw (unknown, first_source) refl in
      first_source-contains ms evidence (sym same ∙ h)
  | inr (key, found) ↦
      let same : first_source (m ∷ ms) evidence ≡ some key = rw (found, first_source) refl in
      key_like-contains (lower m) evidence (found ∙ (sym same ∙ h))
]

module _ (p : Patterns) (evidence : List Text) where
  -- A sentence at most one away that cites a part of the evidence.
  pub record Near (sentences : List Text) (i : ℕ) : Type 0 where
    pub place : ℕ
    pub cited : Text
    pub key : Text
    pub after : place ≤ suc i
    pub before : i ≤ suc place
    pub there : get_elem? sentences place ≡ some cited
    pub source : sources_in p evidence cited ≡ some key
    pub supplied : contains key evidence ≡ true

  -- What a line is, against its sentence.
  abbrev pub Checked : (sentences : List Text) (i : ℕ) (s line : Text) → Type 0
  Checked sentences i s line =
      ((is_claim p.indicators s ≡ false) × (line ≡ s))
      ⊎ ((is_claim p.indicators s ≡ true) × (line ≡ s) × Near sentences i)
      ⊎ ((is_claim p.indicators s ≡ true)
          × (line ≡ unverifiable_statement)
          × (source_near (map (sources_in p evidence) sentences) i ≡ none))

  resolved_at-map :
      (sentences : List Text) (i : ℕ) {key : Text}
      → resolved_at (map (sources_in p evidence) sentences) i ≡ some key
      → (t : Text) × (get_elem? sentences i ≡ some t) × (sources_in p evidence t ≡ some key)
  unfolding resolved_at
  resolved_at-map [] i h = cc
  resolved_at-map (t ∷ sentences) zero h = (t, refl, h)
  resolved_at-map (t ∷ sentences) (suc i) h = resolved_at-map sentences i h

  at_place :
      (sentences : List Text) (i j : ℕ) {key : Text}
      → j ≤ suc i
      → i ≤ suc j
      → resolved_at (map (sources_in p evidence) sentences) j ≡ some key
      → Near sentences i
  unfolding sources_in
  at_place sentences i j {key} after before h =
      let (t, there, source) = resolved_at-map sentences j h in
      record {
        place = j;
        cited = t;
        key = key;
        after = after;
        before = before;
        there = there;
        source = source;
        supplied = first_source-contains (p.markers t) evidence source;
      }

  before_place :
      (sentences : List Text) (i : ℕ) {key : Text}
      → resolved_before (map (sources_in p evidence) sentences) i ≡ some key
      → Near sentences i
  unfolding resolved_before
  before_place sentences zero h = cc
  before_place sentences (suc i) h = at_place sentences (suc i) i (omega arith) (omega arith) h

  known_first-cases :
      (a b : Option Text) {key : Text}
      → known_first a b ≡ some key
      → (a ≡ some key) ⊎ (b ≡ some key)
  unfolding known_first
  known_first-cases none b h = inr h
  known_first-cases (some x) b h = inl h

  source_near-Near :
      (sentences : List Text) (i : ℕ) {key : Text}
      → source_near (map (sources_in p evidence) sentences) i ≡ some key
      → Near sentences i
  unfolding source_near
  source_near-Near sentences i h =
      let resolved = map (sources_in p evidence) sentences in
      elim (known_first-cases (known_first (resolved_at resolved i) (resolved_before resolved i))
        (resolved_at resolved (suc i)) h) [
          | inr after ↦ at_place sentences i (suc i) (omega arith) (omega arith) after
          | inl h1 ↦
              elim (known_first-cases (resolved_at resolved i) (resolved_before resolved i) h1) [
                | inl own ↦ at_place sentences i i (omega arith) (omega arith) own
                | inr earlier ↦ before_place sentences i earlier
              ]
        ]

  lines-add_claim :
      (s : Text) (o : Option Text) (r : GuardResult)
      → ((add_claim s o r).lines ≡ s ∷ r.lines) × ((key : Text) × (o ≡ some key))
        ⊎ ((add_claim s o r).lines ≡ unverifiable_statement ∷ r.lines) × (o ≡ none)
  unfolding add_claim
  lines-add_claim s none r = inr (refl, refl)
  lines-add_claim s (some key) r = inl (refl, (key, refl))

  -- The line of one sentence, and the lines that follow.
  check_step :
      (all : List Text) (k : ℕ) (s : Text) (ss : List Text)
      → (line : Text) × ((check_from p evidence (map (sources_in p evidence) all) k (s ∷ ss)).lines
          ≡ line ∷ (check_from p evidence (map (sources_in p evidence) all) (suc k) ss).lines)
        × Checked all k s line
  unfolding check_from add_opinion
  check_step all k s ss =
      let resolved = map (sources_in p evidence) all in
      let rest = check_from p evidence resolved (suc k) ss in
      elim (Bool-cases (is_claim p.indicators s)) [
        | inr opinion ↦ (s, rw (opinion, check_from) refl, inl (opinion, refl))
        | inl claim ↦ elim (lines-add_claim s (source_near resolved k) rest) [
          | inl (lines, (key, e)) ↦
              (s, rw (claim, check_from) lines, inr (inl (claim, refl, source_near-Near all k e)))
          | inr (lines, e) ↦
              (unverifiable_statement, rw (claim, check_from) lines, inr (inr (claim, refl, e)))
        ]
      ]

  check_from-Checked :
      (all : List Text) (k : ℕ) (ss : List Text) (i : ℕ) {s : Text}
      → get_elem? ss i ≡ some s
      → (line : Text) × (get_elem?
            (check_from p evidence (map (sources_in p evidence) all) k ss).lines
            i
          ≡ some line)
        × Checked all (k + i) s line
  check_from-Checked all k [] i h = cc
  check_from-Checked all k (t ∷ ss) zero {s} h =
      let (line, lines, checked) = check_step all k t ss in
      let place : k ≡ k + 0 = omega arith in
      let same : t ≡ s = cc h in
      (
        line,
        ap (λ ls. get_elem? ls 0) lines,
        subst (λ n. Checked all n s line) place (subst (λ u. Checked all k u line) same checked),
      )
  check_from-Checked all k (t ∷ ss) (suc i) {s} h =
      let (_, lines, _) = check_step all k t ss in
      let (line, there, checked) = check_from-Checked all (suc k) ss i h in
      let place : suc k + i ≡ k + suc i = omega arith in
      (
        line,
        ap (λ ls. get_elem? ls (suc i)) lines ∙ there,
        subst (λ n. Checked all n s line) place checked,
      )

  length-check_from :
      (all : List Text) (k : ℕ) (ss : List Text)
      → length (check_from p evidence (map (sources_in p evidence) all) k ss).lines ≡ length ss
  unfolding check_from
  length-check_from all k [] = refl
  length-check_from all k (s ∷ ss) =
      let (_, lines, _) = check_step all k s ss in
      ap length lines ∙ ap suc (length-check_from all (suc k) ss)

  whole :
      (text : Text)
      → is_blank text ≡ false
      → verify_claims p evidence text
        ≡ check_from p evidence
            (map (sources_in p evidence) (sentences_of p evidence text))
            0
            (sentences_of p evidence text)
  unfolding verify_claims
  whole text filled = rw (filled, verify_claims) refl

  -- What is left of a text that is not blank has a line for each sentence, and no more. The line is the
  -- sentence as it is where that makes no claim; where it does, the sentence as it is only where it or a
  -- sentence next to it cites a part of the evidence, and the fixed statement otherwise.
  pub verify_claims-Checked :
      (text : Text)
      → is_blank text ≡ false
      → (i : ℕ) {s : Text} → get_elem? (sentences_of p evidence text) i ≡ some s
      → (length (verify_claims p evidence text).lines ≡ length (sentences_of p evidence text))
        × (line : Text) × (get_elem? (verify_claims p evidence text).lines i ≡ some line)
        × Checked (sentences_of p evidence text) i s line
  verify_claims-Checked text filled i {s} h =
      let sentences = sentences_of p evidence text in
      let same = whole text filled in
      let (line, there, checked) = check_from-Checked sentences 0 sentences i h in
      let place : 0 + i ≡ i = omega arith in
      (
        ap (λ r. length r.lines) same ∙ length-check_from sentences 0 sentences,
        line,
        ap (λ r. get_elem? r.lines i) same ∙ there,
        subst (λ n. Checked sentences n s line) place checked,
      )

module _ {ℓ} {A : Type ℓ} ⦃e : Comparable A⦄ where
  refused_none : (cs : List A) → refused cs ≡ ok tt → cs ≡ []
  unfolding refused
  refused_none [] h = refl
  refused_none (c ∷ cs) h = cc

  refused-Within :
      (asserted known : List A)
      → refused (keep (λ a. not (contains a known)) asserted) ≡ ok tt
      → Within asserted known
  refused-Within asserted known h a there =
      let empty = refused_none (keep (λ b. not (contains b known)) asserted) h in
      let kept = contains-keep (λ b. not (contains b known)) a asserted in
      elim (Bool-cases (contains a known)) [
        | inl listed ↦ listed
        | inr unknown ↦ ground (arith, kept, there, unknown, ap (contains a) empty)
      ]

-- A text that passes names no CVE but the known ones, up to white space and case.
pub assert_no_invented_cve-Within :
    (p : Patterns) (text : Text) (known_cves : List Text)
    → assert_no_invented_cve p text known_cves ≡ ok tt
    → Within (map (normalize_cve p) (p.cves text)) (map (normalize_cve p) known_cves)
unfolding assert_no_invented_cve
assert_no_invented_cve-Within p text known_cves h =
    refused-Within (map (normalize_cve p) (p.cves text)) (map (normalize_cve p) known_cves) h

-- A text that speaks of CVSS and passes has no score up to ten but the known ones.
assert_no_invented_cvss-Within :
    (p : Patterns) (text : Text) (known_scores : List ℕ)
    → p.speaks_of_cvss text ≡ true
    → assert_no_invented_cvss p text known_scores ≡ ok tt
    → Within (keep (λ s. leb s 100) (p.scores text)) known_scores
unfolding assert_no_invented_cvss
assert_no_invented_cvss-Within p text known_scores speaks h =
    let asserted = keep (λ s. leb s 100) (p.scores text) in
    let same : assert_no_invented_cvss p text known_scores
        ≡ refused (keep (λ s. not (contains s known_scores)) asserted) =
      rw (speaks, assert_no_invented_cvss) refl in
    refused-Within asserted known_scores (sym same ∙ h)
