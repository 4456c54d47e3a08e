-- ===== src/Correlation/Merge.antt =====
-- `_merge` and `correlate_findings`. What the model answers is a parameter; `none` is an answer that failed.
use Prim.Native.String.{String}
use cyber.Base.{
  ℕ, Bool, ◌&&◌, Option, none, some, List, [], ◌∷◌, ◌++◌, map, if◌then◌else◌, take, some_of,
  is_subset, Text,
}
use cyber.Approval.Data.{string_eq, Uuid}
use cyber.Correlation.Groups.{Correlated, DuplicateGroup, or_duplicate, deterministic_duplicates}

pub record FalsePositiveCandidate : Type 0 where
  pub finding_id : ℕ
  pub reason : Text
  pub confidence : Text

pub record CompoundRisk : Type 0 where
  pub finding_ids : List ℕ
  pub title : Text
  pub description : Text
  pub effective_severity : Text
  pub attack_chain : Text

pub record CorrelationResult : Type 0 where
  pub false_positives : List FalsePositiveCandidate
  pub duplicate_groups : List DuplicateGroup
  pub compound_risks : List CompoundRisk
  pub coverage_gaps : List Text

-- `_FPItem`
pub record FpItem : Type 0 where
  pub finding_id : String
  pub reason : Text
  pub confidence : Text

-- `_DupGroup`
pub record DupGroup : Type 0 where
  pub finding_ids : List String
  pub canonical_title : Text
  pub representative_id : String

-- `_CompoundItem`
pub record CompoundItem : Type 0 where
  pub finding_ids : List String
  pub title : Text
  pub description : Text
  pub effective_severity : Text
  pub attack_chain : Text

-- `_CorrelationOut`
pub record CorrelationOut : Type 0 where
  pub false_positive_candidates : List FpItem
  pub duplicates : List DupGroup
  pub compound_risks : List CompoundItem
  pub coverage_gaps : List Text

-- Two lists as sets.
unfoldable pub same_set : List String → List String → Bool
same_set xs ys = is_subset xs ys && is_subset ys xs

-- `id_map.get(raw)`, where a later entry goes before an earlier one
unfoldable pub known_in : Uuid → String → List Correlated → Option ℕ
known_in u raw [] = none
known_in u raw (f ∷ fs) = elim (known_in u raw fs) [
  | some n ↦ some n
  | none ↦ if string_eq.equals (u.text f.id) raw then some f.id else none
]

module _ (u : Uuid) (findings : List Correlated) where
  unfoldable pub known : String → Option ℕ
  unfolding known_in
  known raw = known_in u raw findings

  -- `[id_map[fid] for fid in ids if fid in id_map]`
  unfoldable pub known_ids : List String → List ℕ
  unfolding known
  known_ids [] = []
  known_ids (raw ∷ raws) =
      let rest = known_ids raws in elim (known raw) [ none ↦ rest | some n ↦ n ∷ rest ]

  unfoldable pub candidates : List FpItem → List FalsePositiveCandidate
  unfolding known
  candidates [] = []
  candidates (item ∷ items) =
      let rest = candidates items in
      elim (known item.finding_id) [
        | none ↦ rest
        | some id ↦
            record { finding_id = id; reason = take 500 item.reason; confidence = item.confidence }
            ∷ rest
      ]

  -- `id_map.get(grp.representative_id) or fids[0]`
  unfoldable pub representative : String → ℕ → ℕ
  unfolding known
  representative raw first = elim (known raw) [ none ↦ first | some id ↦ id ]

  -- The group that the model's becomes, if two of its identifiers are known.
  unfoldable pub group_of : DupGroup → List ℕ → List DuplicateGroup
  unfolding representative
  group_of g (a ∷ b ∷ ids) =
      record {
        finding_ids = a ∷ b ∷ ids;
        canonical_title = or_duplicate g.canonical_title;
        representative_id = representative g.representative_id a;
      }
      ∷ []
  group_of g _ = []

  -- The model's groups that are not among the given ones.
  unfoldable pub model_groups : (given : List DuplicateGroup) → List DupGroup → List DuplicateGroup
  unfolding same_set group_of known_ids
  model_groups given [] = []
  model_groups given (g ∷ gs) =
      let rest = model_groups given gs in
      if some_of (λ d. same_set g.finding_ids (map u.text d.finding_ids)) given
      then rest
      else group_of g (known_ids g.finding_ids) ++ rest

  unfoldable pub risk_of : CompoundItem → List ℕ → List CompoundRisk
  risk_of item [] = []
  risk_of item (id ∷ ids) =
      record {
        finding_ids = id ∷ ids;
        title = take 200 item.title;
        description = take 1000 item.description;
        effective_severity = item.effective_severity;
        attack_chain = take 500 item.attack_chain;
      }
      ∷ []

  unfoldable pub risks : List CompoundItem → List CompoundRisk
  unfolding risk_of known_ids
  risks [] = []
  risks (item ∷ items) = risk_of item (known_ids item.finding_ids) ++ risks items

  -- `_merge`
  unfoldable pub merge : List DuplicateGroup → Option CorrelationOut → CorrelationResult
  unfolding candidates model_groups risks
  merge given none = record {
    false_positives = [];
    duplicate_groups = given;
    compound_risks = [];
    coverage_gaps = [];
  }
  merge given (some out) = record {
    false_positives = candidates out.false_positive_candidates;
    duplicate_groups = given ++ model_groups given out.duplicates;
    compound_risks = risks out.compound_risks;
    coverage_gaps = take 10 (map (take 300) out.coverage_gaps);
  }

-- `correlate_findings`, of the findings that were loaded
unfoldable pub correlate_findings :
    Uuid
    → (digest : Text → Text) (answer : Option CorrelationOut) → List Correlated
    → CorrelationResult
unfolding merge deterministic_duplicates
correlate_findings u digest answer [] = record {
  false_positives = [];
  duplicate_groups = [];
  compound_risks = [];
  coverage_gaps = [];
}
correlate_findings u digest answer (f ∷ fs) =
    merge u (f ∷ fs) (deterministic_duplicates u digest (f ∷ fs)) answer
