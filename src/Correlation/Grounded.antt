-- ===== src/Correlation/Grounded.antt =====
-- A model's answer adds no finding that the assessment does not have.
use mathlib.Core.List.{Memᴰ}
use cyber.Base.{
  ℕ, ◌≤◌, ◌≡◌, refl, sym, ap, subst, ◌∙◌, Bool-cases, Option-cases, inl, inr, arith, Option, none,
  some, List, [], ◌∷◌, map, length, length-take-le, take, All, All-append, some_of, Text, Mem-map,
  Mem-keep, text_same,
}
use Prim.Native.String.{String}
use cyber.Approval.Data.{string_eq, Uuid}
use cyber.Correlation.Groups.{Correlated, DuplicateGroup, fingerprint, deterministic_duplicates}
use cyber.Correlation.Classes.{Reports, fingerprinted, deterministic_duplicates-Reports}
use cyber.Correlation.Merge.{
  FalsePositiveCandidate, CompoundRisk, CorrelationResult, FpItem, DupGroup, CompoundItem,
  CorrelationOut, same_set, known_in, known, known_ids, candidates, representative, group_of,
  model_groups, risk_of, risks, merge, correlate_findings,
}

-- An identifier of one of the findings.
abbrev pub IsKnown : List Correlated → ℕ → Type 0
IsKnown findings id = Memᴰ id (map (λ f. f.id) findings)

known_in-IsKnown :
    (u : Uuid) (raw : String) (fs : List Correlated) {n : ℕ}
    → known_in u raw fs ≡ some n
    → IsKnown fs n
unfolding known_in
known_in-IsKnown u raw [] h = cc
known_in-IsKnown u raw (f ∷ fs) {n} h = elim (Option-cases (known_in u raw fs)) [
  | inr (m, later) ↦
      let same : known_in u raw (f ∷ fs) ≡ some m = rw (later, known_in) refl in
      Memᴰ.tail (known_in-IsKnown u raw fs (later ∙ (sym same ∙ h)))
  | inl none_later ↦ elim (Bool-cases (string_eq.equals (u.text f.id) raw)) [
    | inl here ↦
        let same : known_in u raw (f ∷ fs) ≡ some f.id = rw (none_later, here, known_in) refl in
        Memᴰ.head (cc (same, h))
    | inr other ↦
        let same : known_in u raw (f ∷ fs) ≡ none = rw (none_later, other, known_in) refl in
        cc (sym same ∙ h)
  ]
]

module _ (u : Uuid) (fs : List Correlated) where
  known-IsKnown : (raw : String) {n : ℕ} → known u fs raw ≡ some n → IsKnown fs n
  unfolding known
  known-IsKnown raw h = known_in-IsKnown u raw fs h

  known_ids-IsKnown : (raws : List String) → All (IsKnown fs) (known_ids u fs raws)
  unfolding known_ids
  known_ids-IsKnown [] = tt
  known_ids-IsKnown (raw ∷ raws) = elim (Option-cases (known u fs raw)) [
    | inl unknown ↦ rw (unknown, known_ids) (known_ids-IsKnown raws)
    | inr (n, e) ↦ rw (e, known_ids) (known-IsKnown raw e, known_ids-IsKnown raws)
  ]

  -- A candidate is a finding of the assessment, with a short reason.
  abbrev pub GroundedCandidate : FalsePositiveCandidate → Type 0
  GroundedCandidate c = IsKnown fs c.finding_id × (length c.reason ≤ 500)

  -- A group has findings of the assessment, and so is its representative.
  abbrev pub GroundedGroup : DuplicateGroup → Type 0
  GroundedGroup g = All (IsKnown fs) g.finding_ids × IsKnown fs g.representative_id

  abbrev pub GroundedRisk : CompoundRisk → Type 0
  GroundedRisk r = All (IsKnown fs) r.finding_ids

  candidates_lem : (items : List FpItem) → All GroundedCandidate (candidates u fs items)
  unfolding candidates
  candidates_lem [] = tt
  candidates_lem (item ∷ items) = elim (Option-cases (known u fs item.finding_id)) [
    | inl unknown ↦ rw (unknown, candidates) (candidates_lem items)
    | inr (n, e) ↦
        rw (e, candidates)
          ((known-IsKnown item.finding_id e, length-take-le 500 item.reason), candidates_lem items)
  ]

  representative-IsKnown :
      (raw : String) (first : ℕ) → IsKnown fs first → IsKnown fs (representative u fs raw first)
  unfolding representative
  representative-IsKnown raw first k = elim (Option-cases (known u fs raw)) [
    | inl unknown ↦ rw (unknown, representative) k
    | inr (n, e) ↦ rw (e, representative) (known-IsKnown raw e)
  ]

  group_of_lem :
      (g : DupGroup) (ids : List ℕ) → All (IsKnown fs) ids → All GroundedGroup (group_of u fs g ids)
  unfolding group_of
  group_of_lem g [] h = tt
  group_of_lem g (a ∷ []) h = tt
  group_of_lem g (a ∷ b ∷ ids) (k, h) =
      (((k, h), representative-IsKnown g.representative_id a k), tt)

  model_groups_lem :
      (given : List DuplicateGroup) (gs : List DupGroup)
      → All GroundedGroup (model_groups u fs given gs)
  unfolding model_groups
  model_groups_lem given [] = tt
  model_groups_lem given (g ∷ gs) =
      elim (Bool-cases (some_of (λ d. same_set g.finding_ids (map u.text d.finding_ids)) given)) [
        | inl covered ↦ rw (covered, model_groups) (model_groups_lem given gs)
        | inr fresh ↦
            rw (fresh, model_groups)
              (All-append GroundedGroup (group_of u fs g (known_ids u fs g.finding_ids))
                (model_groups u fs given gs)
                (group_of_lem g (known_ids u fs g.finding_ids) (known_ids-IsKnown g.finding_ids))
                (model_groups_lem given gs))
      ]

  risk_of_lem :
      (item : CompoundItem) (ids : List ℕ)
      → All (IsKnown fs) ids
      → All GroundedRisk (risk_of u fs item ids)
  unfolding risk_of
  risk_of_lem item [] h = tt
  risk_of_lem item (id ∷ ids) h = (h, tt)

  risks_lem : (items : List CompoundItem) → All GroundedRisk (risks u fs items)
  unfolding risks
  risks_lem [] = tt
  risks_lem (item ∷ items) =
      All-append GroundedRisk (risk_of u fs item (known_ids u fs item.finding_ids))
        (risks u fs items)
        (risk_of_lem item (known_ids u fs item.finding_ids) (known_ids-IsKnown item.finding_ids))
        (risks_lem items)

  -- What a correlation says is of the findings of the assessment, and it names at most ten gaps.
  pub record IsGrounded (r : CorrelationResult) : Type 0 where
    pub false_positives : All GroundedCandidate r.false_positives
    pub duplicate_groups : All GroundedGroup r.duplicate_groups
    pub compound_risks : All GroundedRisk r.compound_risks
    pub coverage_gaps : length r.coverage_gaps ≤ 10

  merge-IsGrounded :
      (given : List DuplicateGroup) (answer : Option CorrelationOut)
      → All GroundedGroup given
      → IsGrounded (merge u fs given answer)
  unfolding merge
  merge-IsGrounded given none h = record {
    false_positives = tt;
    duplicate_groups = h;
    compound_risks = tt;
    coverage_gaps = omega arith;
  }
  merge-IsGrounded given (some out) h = record {
    false_positives = candidates_lem out.false_positive_candidates;
    duplicate_groups =
        All-append GroundedGroup given (model_groups u fs given out.duplicates) h
          (model_groups_lem given out.duplicates);
    compound_risks = risks_lem out.compound_risks;
    coverage_gaps = length-take-le 10 (map (take 300) out.coverage_gaps);
  }

All-members : {P : ℕ → Type 0} (xs : List ℕ) → ((a : ℕ) → Memᴰ a xs → P a) → All P xs
All-members [] f = tt
All-members (x ∷ xs) f = (f x (Memᴰ.head refl), All-members xs (λ a m. f a (Memᴰ.tail m)))

member-IsKnown : (f : Correlated) (fs : List Correlated) → Memᴰ f fs → IsKnown fs f.id
member-IsKnown f [] m = elim m [ ]
member-IsKnown f (g ∷ fs) (Memᴰ.head e) = Memᴰ.head (ap (λ x. x.id) e)
member-IsKnown f (g ∷ fs) (Memᴰ.tail m) = Memᴰ.tail (member-IsKnown f fs m)

module _ (u : Uuid) (digest : Text → Text) (fs : List Correlated) where
  given-IsKnown : (k : Text) → All (IsKnown fs) (map (λ f. f.id) (fingerprinted u digest k fs))
  given-IsKnown k = All-members (map (λ f. f.id) (fingerprinted u digest k fs)) (λ id m.
      let (f, kept, e) = Mem-map (λ f. f.id) (fingerprinted u digest k fs) m in
      let (member, _) = Mem-keep (λ f. text_same (fingerprint u digest f) k) fs kept in
      subst (IsKnown fs) (sym e) (member-IsKnown f fs member))

  Reports-Grounded :
      (k : Text) (d : DuplicateGroup)
      → Reports (fingerprinted u digest k fs) d
      → GroundedGroup u fs d
  Reports-Grounded k d r = (
    subst (All (IsKnown fs)) (sym r.ids) (given-IsKnown k),
    let (member, _) = Mem-keep (λ f. text_same (fingerprint u digest f) k) fs r.member in
        subst (IsKnown fs) (sym r.named) (member-IsKnown r.representative fs member),
  )

  deterministic-Grounded : All (GroundedGroup u fs) (deterministic_duplicates u digest fs)
  deterministic-Grounded = from_members (deterministic_duplicates u digest fs) (λ d m.
      let (k, r) = deterministic_duplicates-Reports u digest fs d m in Reports-Grounded k d r)
    where
      from_members :
          {P : DuplicateGroup → Type 0} (ds : List DuplicateGroup)
          → ((d : DuplicateGroup) → Memᴰ d ds → P d)
          → All P ds
      from_members [] f = tt
      from_members (d ∷ ds) f = (f d (Memᴰ.head refl), from_members ds (λ e m. f e (Memᴰ.tail m)))

-- Whatever the model answers, or if it fails, each finding that a correlation names, as a false
-- positive, in a group, as a representative or in a risk, is one of those that were loaded; the reason of
-- a false positive has at most 500 characters, and at most ten gaps are named.
pub correlate_findings-IsGrounded :
    (u : Uuid) (digest : Text → Text) (answer : Option CorrelationOut) (fs : List Correlated)
    → IsGrounded u fs (correlate_findings u digest answer fs)
unfolding correlate_findings
correlate_findings-IsGrounded u digest answer [] = record {
  false_positives = tt;
  duplicate_groups = tt;
  compound_risks = tt;
  coverage_gaps = omega arith;
}
correlate_findings-IsGrounded u digest answer (f ∷ fs) =
    merge-IsGrounded u (f ∷ fs) (deterministic_duplicates u digest (f ∷ fs)) answer
      (deterministic-Grounded u digest (f ∷ fs))
