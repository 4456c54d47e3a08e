-- ===== src/Correlation/Groups.antt =====
-- `_fingerprint` and `_deterministic_duplicates`.
use cyber.Base.{
  ℕ, zero, suc, Bool, true, false, Option, none, some, List, [], ◌∷◌, ◌++◌, map, if◌then◌else◌, ltb,
  ◌==◌, Text, codes, text_same, text_eq, lower, rstrip, decimal,
}
use cyber.Finding.Data.{Severity, severity_rank}
use cyber.Approval.Data.{Uuid}

-- The columns of `Finding` that the correlation reads; a severity that is no member is `none`.
pub record Correlated : Type 0 where
  pub id : ℕ
  pub asset_id : Option ℕ
  pub cwe : Option ℕ
  pub endpoint : Option Text
  pub cve_ids : List Text
  pub title : Text
  pub severity : Option Severity

pub record DuplicateGroup : Type 0 where
  pub finding_ids : List ℕ
  pub canonical_title : Text
  pub representative_id : ℕ

-- `endpoint[: endpoint.index(delim)]`, and the whole where there is none
unfoldable pub cut_at : (delim : ℕ) → Text → Text
cut_at delim [] = []
cut_at delim (c ∷ s) = let rest = cut_at delim s in if c == delim then [] else c ∷ rest

-- `_normalize_endpoint`
unfoldable pub normalize_endpoint : Text → Text
unfolding cut_at
normalize_endpoint endpoint = rstrip (47 ∷ []) (lower (cut_at 35 (cut_at 63 endpoint)))

-- `s < t`
unfoldable pub text_lt : Text → Text → Bool
text_lt s [] = false
text_lt [] (d ∷ t) = true
text_lt (c ∷ s) (d ∷ t) = let rest = text_lt s t in if c == d then rest else ltb c d

unfoldable pub insert_sorted : Text → List Text → List Text
unfolding text_lt
insert_sorted t [] = t ∷ []
insert_sorted t (s ∷ ts) =
    let rest = insert_sorted t ts in if text_lt t s then t ∷ s ∷ ts else s ∷ rest

-- `sorted(ts)`
unfoldable pub sorted : List Text → List Text
unfolding insert_sorted
sorted [] = []
sorted (t ∷ ts) = insert_sorted t (sorted ts)

-- `separator.join(parts)`
unfoldable pub join : (separator : Text) → List Text → Text
join separator [] = []
join separator (t ∷ []) = t
join separator (t ∷ s ∷ ts) = t ++ separator ++ join separator (s ∷ ts)

-- `str(n or "")`
unfoldable pub number_or_empty : Option ℕ → Text
number_or_empty none = []
number_or_empty (some zero) = []
number_or_empty (some (suc n)) = decimal (suc n)

unfoldable pub endpoint_or_empty : Option Text → Text
endpoint_or_empty none = []
endpoint_or_empty (some t) = t

-- The key of `max`: the rank of a severity, or 0.
unfoldable pub rank_or_zero : Option Severity → ℕ
unfolding severity_rank
rank_or_zero none = 0
rank_or_zero (some s) = severity_rank s

-- `max(group, key=...)`: the first of the worst.
unfoldable pub worst : Correlated → List Correlated → Correlated
unfolding rank_or_zero
worst best [] = best
worst best (f ∷ fs) =
    let better = worst f fs in
    let same = worst best fs in
    if ltb (rank_or_zero best.severity) (rank_or_zero f.severity) then better else same

abbrev pub or_duplicate : Text → Text
or_duplicate [] = codes "Duplicate finding"
or_duplicate (c ∷ s) = c ∷ s

-- `groups[key].append(f)`, on a dict in insertion order
unfoldable pub add_to_group :
    Text → Correlated → List (Text × List Correlated) → List (Text × List Correlated)
add_to_group key f [] = (key, f ∷ []) ∷ []
add_to_group key f ((k, group) ∷ groups) =
    let rest = add_to_group key f groups in
    if text_same k key then (k, group ++ f ∷ []) ∷ groups else (k, group) ∷ rest

-- The group that is reported, of a class with two members or more.
unfoldable pub reported : List Correlated → List DuplicateGroup
unfolding worst
reported [] = []
reported (f ∷ []) = []
reported (f ∷ g ∷ fs) =
    let rep = worst f (g ∷ fs) in
    record {
      finding_ids = map (λ x. x.id) (f ∷ g ∷ fs);
      canonical_title = or_duplicate rep.title;
      representative_id = rep.id;
    }
    ∷ []

unfoldable pub reported_all : List (Text × List Correlated) → List DuplicateGroup
unfolding reported
reported_all [] = []
reported_all ((k, group) ∷ groups) = reported group ++ reported_all groups

-- `digest` is `hashlib.sha256(s.encode()).hexdigest()[:16]`.
module _ (u : Uuid) (digest : Text → Text) where
  unfoldable pub asset_text : Option ℕ → Text
  asset_text none = []
  asset_text (some n) = codes (u.text n)

  -- `_fingerprint`
  unfoldable pub fingerprint : Correlated → Text
  unfolding join asset_text number_or_empty normalize_endpoint endpoint_or_empty sorted
  fingerprint f = digest (
      join (codes "|") (
        asset_text f.asset_id
        ∷ number_or_empty f.cwe
        ∷ normalize_endpoint (endpoint_or_empty f.endpoint)
        ∷ join (codes ",") (sorted f.cve_ids)
        ∷ []))

  -- The loop that fills `groups`
  unfoldable pub group_all :
      List Correlated → List (Text × List Correlated) → List (Text × List Correlated)
  unfolding add_to_group fingerprint
  group_all [] groups = groups
  group_all (f ∷ fs) groups = group_all fs (add_to_group (fingerprint f) f groups)

  -- `_deterministic_duplicates`
  unfoldable pub deterministic_duplicates : List Correlated → List DuplicateGroup
  unfolding group_all reported_all
  deterministic_duplicates fs = reported_all (group_all fs [])
