-- ===== src/Correlation/Classes.antt =====
-- The groups of duplicates are the classes of findings with one fingerprint.
use mathlib.Core.List.{Memᴰ, append_assoc, append-nil}
use cyber.Base.{
  ◌≤◌, ◌≡◌, refl, sym, ap, subst, ◌∙◌, true, false, Bool-cases, inl, inr, ◌⊎◌, arith, List, [], ◌∷◌,
  ◌++◌, map, if◌then◌else◌, keep, length, All, weaken-All, Text, text_same, text_same_iff, ltb,
}
use cyber.Approval.Data.{Uuid}
use cyber.Correlation.Groups.{
  Correlated, DuplicateGroup, rank_or_zero, worst, add_to_group, reported, reported_all,
  fingerprint, group_all, deterministic_duplicates,
}

abbrev Groups : Type 0
Groups = List (Text × List Correlated)

-- `groups[k]`
abbrev found : Text → Groups → List Correlated
found k [] = []
found k ((j, group) ∷ groups) = if text_same j k then group else found k groups

-- No entry has this key.
abbrev Fresh : Text → Groups → Type 0
Fresh k groups = All (λ e. text_same k e.0 ≡ false) groups

-- Every key has one entry.
abbrev Distinct : Groups → Type 0
Distinct [] = Unit
Distinct ((k, group) ∷ groups) = Fresh k groups × Distinct groups

same_text : (s t : Text) → text_same s t ≡ true → s ≡ t
same_text s t = (text_same_iff s t).0

text_refl : (s : Text) → text_same s s ≡ true
text_refl s = (text_same_iff s s).1 refl

found-add_to_group :
    (k key : Text) (f : Correlated) (groups : Groups)
    → found k (add_to_group key f groups)
      ≡ (if text_same key k then found k groups ++ f ∷ [] else found k groups)
unfolding add_to_group
found-add_to_group k key f [] = ground arith
found-add_to_group k key f ((j, group) ∷ groups) = ground (
  arith,
  found-add_to_group k key f groups,
  text_same_iff j key,
  text_same_iff j k,
  text_same_iff key k,
)

Fresh-add_to_group :
    (k key : Text) (f : Correlated) (groups : Groups)
    → text_same k key ≡ false
    → Fresh k groups
    → Fresh k (add_to_group key f groups)
unfolding add_to_group
Fresh-add_to_group k key f [] other h = (other, tt)
Fresh-add_to_group k key f ((j, group) ∷ groups) other (here, h) =
    elim (Bool-cases (text_same j key)) [
      | inl same ↦ rw same (here, h)
      | inr differ ↦ rw differ (here, Fresh-add_to_group k key f groups other h)
    ]

Distinct-add_to_group :
    (key : Text) (f : Correlated) (groups : Groups)
    → Distinct groups
    → Distinct (add_to_group key f groups)
unfolding add_to_group
Distinct-add_to_group key f [] h = (tt, tt)
Distinct-add_to_group key f ((j, group) ∷ groups) (fresh, h) = elim (Bool-cases (text_same j key)) [
  | inl same ↦ rw same (fresh, h)
  | inr differ ↦
      rw differ
        (Fresh-add_to_group j key f groups differ fresh, Distinct-add_to_group key f groups h)
]

-- In a dict, an entry is what a look-up of its key finds.
Distinct-found : (groups : Groups) → Distinct groups → All (λ e. found e.0 groups ≡ e.1) groups
Distinct-found [] h = tt
Distinct-found ((j, group) ∷ groups) (fresh, h) =
    (rw (text_refl j) refl, later j group groups groups fresh (Distinct-found groups h))
  where
    later :
        (j : Text) (group : List Correlated) (groups rest : Groups)
        → Fresh j rest
        → All (λ e. found e.0 groups ≡ e.1) rest
        → All (λ e. found e.0 ((j, group) ∷ groups) ≡ e.1) rest
    later j group groups [] fresh h = tt
    later j group groups (e ∷ rest) (other, fresh) (here, h) =
        (rw other here, later j group groups rest fresh h)

module _ (u : Uuid) (digest : Text → Text) where
  -- The findings with a fingerprint, in their order.
  abbrev pub fingerprinted : Text → List Correlated → List Correlated
  fingerprinted k fs = keep (λ f. text_same (fingerprint u digest f) k) fs

  found-group_all :
      (k : Text) (fs : List Correlated) (groups : Groups)
      → found k (group_all u digest fs groups) ≡ found k groups ++ fingerprinted k fs
  unfolding group_all
  found-group_all k [] groups = sym (append-nil (found k groups))
  found-group_all k (f ∷ fs) groups =
      found-group_all k fs (add_to_group (fingerprint u digest f) f groups)
      ∙ ap (λ xs. xs ++ fingerprinted k fs) (found-add_to_group k (fingerprint u digest f) f groups)
      ∙ move k f fs groups
    where
      move :
          (k : Text) (f : Correlated) (fs : List Correlated) (groups : Groups)
          → (if text_same (fingerprint u digest f) k
                then found k groups ++ f ∷ []
                else found k groups)
              ++ fingerprinted k fs
            ≡ found k groups ++ fingerprinted k (f ∷ fs)
      move k f fs groups = elim (Bool-cases (text_same (fingerprint u digest f) k)) [
        | inl same ↦ rw same (append_assoc (found k groups) (f ∷ []) (fingerprinted k fs))
        | inr other ↦ rw other refl
      ]

  Distinct-group_all :
      (fs : List Correlated) (groups : Groups)
      → Distinct groups
      → Distinct (group_all u digest fs groups)
  unfolding group_all
  Distinct-group_all [] groups h = h
  Distinct-group_all (f ∷ fs) groups h =
      Distinct-group_all fs (add_to_group (fingerprint u digest f) f groups)
        (Distinct-add_to_group (fingerprint u digest f) f groups h)

  -- The dict of the groups has the findings of each fingerprint.
  classes :
      (fs : List Correlated) → All (λ e. e.1 ≡ fingerprinted e.0 fs) (group_all u digest fs [])
  classes fs =
      weaken-All (group_all u digest fs []) (λ e h. sym h ∙ found-group_all e.0 fs [])
        (Distinct-found (group_all u digest fs []) (Distinct-group_all fs [] tt))

-- What is reported of a class: its findings, and one of the worst of them.
pub record Reports (members : List Correlated) (d : DuplicateGroup) : Type 0 where
  pub two : 2 ≤ length members
  pub ids : d.finding_ids ≡ map (λ f. f.id) members
  pub representative : Correlated
  pub member : Memᴰ representative members
  pub named : d.representative_id ≡ representative.id
  pub highest : All (λ f. rank_or_zero f.severity ≤ rank_or_zero representative.severity) members

-- A member that is no less severe than any.
abbrev Top : Correlated → List Correlated → Type 0
Top w fs = Memᴰ w fs × All (λ f. rank_or_zero f.severity ≤ rank_or_zero w.severity) fs

skip : {x best f : Correlated} {fs : List Correlated} → Memᴰ x (best ∷ fs) → Memᴰ x (best ∷ f ∷ fs)
skip (Memᴰ.head e) = Memᴰ.head e
skip (Memᴰ.tail m) = Memᴰ.tail (Memᴰ.tail m)

worst-Top : (best : Correlated) (fs : List Correlated) → Top (worst best fs) (best ∷ fs)
unfolding worst
worst-Top best [] = (Memᴰ.head refl, (omega arith, tt))
worst-Top best (f ∷ fs) =
    elim (Bool-cases (ltb (rank_or_zero best.severity) (rank_or_zero f.severity))) [
      | inl below ↦
          let (member, (top, rest)) = worst-Top f fs in
          let up : rank_or_zero best.severity ≤ rank_or_zero f.severity = ground (arith, below) in
          let same : worst best (f ∷ fs) ≡ worst f fs = rw (below, worst) refl in
          subst (λ w. Top w (best ∷ f ∷ fs)) (sym same)
            (Memᴰ.tail member, (omega (arith, up, top), (top, rest)))
      | inr above ↦
          let (member, (top, rest)) = worst-Top best fs in
          let down : rank_or_zero f.severity ≤ rank_or_zero best.severity = ground (arith, above) in
          let same : worst best (f ∷ fs) ≡ worst best fs = rw (above, worst) refl in
          subst (λ w. Top w (best ∷ f ∷ fs)) (sym same)
            (skip member, (top, (omega (arith, down, top), rest)))
    ]

reported-Reports :
    (members : List Correlated) {d : DuplicateGroup} → Memᴰ d (reported members) → Reports members d
unfolding reported
reported-Reports [] m = elim m [ ]
reported-Reports (f ∷ []) m = elim m [ ]
reported-Reports (f ∷ g ∷ fs) (Memᴰ.tail m) = elim m [ ]
reported-Reports (f ∷ g ∷ fs) (Memᴰ.head e) =
    let (member, highest) = worst-Top f (g ∷ fs) in
    record {
      two = omega arith;
      ids = ap (λ d. d.finding_ids) e;
      representative = worst f (g ∷ fs);
      member = member;
      named = ap (λ d. d.representative_id) e;
      highest = highest;
    }

-- Two members or more are reported.
reported_two :
    (members : List Correlated)
    → 2 ≤ length members
    → (d : DuplicateGroup) × Memᴰ d (reported members)
unfolding reported
reported_two [] h = ground (arith, h)
reported_two (f ∷ []) h = ground (arith, h)
reported_two (f ∷ g ∷ fs) h = (_, Memᴰ.head refl)

Mem-append :
    {d : DuplicateGroup} (xs ys : List DuplicateGroup) → Memᴰ d (xs ++ ys) → Memᴰ d xs ⊎ Memᴰ d ys
Mem-append [] ys m = inr m
Mem-append (x ∷ xs) ys (Memᴰ.head e) = inl (Memᴰ.head e)
Mem-append (x ∷ xs) ys (Memᴰ.tail m) = elim (Mem-append xs ys m) [
  | inl first ↦ inl (Memᴰ.tail first)
  | inr second ↦ inr second
]

Mem-left : {d : DuplicateGroup} (xs ys : List DuplicateGroup) → Memᴰ d xs → Memᴰ d (xs ++ ys)
Mem-left [] ys m = elim m [ ]
Mem-left (x ∷ xs) ys (Memᴰ.head e) = Memᴰ.head e
Mem-left (x ∷ xs) ys (Memᴰ.tail m) = Memᴰ.tail (Mem-left xs ys m)

Mem-right : {d : DuplicateGroup} (xs ys : List DuplicateGroup) → Memᴰ d ys → Memᴰ d (xs ++ ys)
Mem-right [] ys m = m
Mem-right (x ∷ xs) ys m = Memᴰ.tail (Mem-right xs ys m)

-- What is reported comes from an entry.
reported_from :
    (P : Text × List Correlated → Type 0) (groups : Groups) {d : DuplicateGroup}
    → All P groups
    → Memᴰ d (reported_all groups)
    → (e : Text × List Correlated) × P e × Memᴰ d (reported e.1)
unfolding reported_all
reported_from P [] h m = elim m [ ]
reported_from P ((k, group) ∷ groups) (here, h) m =
    elim (Mem-append (reported group) (reported_all groups) m) [
      | inl first ↦ ((k, group), here, first)
      | inr second ↦ reported_from P groups h second
    ]

-- What a look-up finds is reported.
found_reported :
    (k : Text) (groups : Groups) {d : DuplicateGroup}
    → Memᴰ d (reported (found k groups))
    → Memᴰ d (reported_all groups)
unfolding reported_all reported
found_reported k [] m = elim m [ ]
found_reported k ((j, group) ∷ groups) {d} m = elim (Bool-cases (text_same j k)) [
  | inl same ↦
      let here : found k ((j, group) ∷ groups) ≡ group = rw same refl in
      Mem-left (reported group) (reported_all groups) (subst (λ g. Memᴰ d (reported g)) here m)
  | inr other ↦
      let there : found k ((j, group) ∷ groups) ≡ found k groups = rw other refl in
      Mem-right (reported group) (reported_all groups)
        (found_reported k groups (subst (λ g. Memᴰ d (reported g)) there m))
]

module _ (u : Uuid) (digest : Text → Text) (fs : List Correlated) where
  -- Each group that is reported has all findings with one fingerprint, two or more, in their order, and
  -- names one of them that is no less severe than any.
  pub deterministic_duplicates-Reports :
      (d : DuplicateGroup)
      → Memᴰ d (deterministic_duplicates u digest fs)
      → (k : Text) × Reports (fingerprinted u digest k fs) d
  unfolding deterministic_duplicates
  deterministic_duplicates-Reports d m =
      let (e, same, here) =
        reported_from (λ e. e.1 ≡ fingerprinted u digest e.0 fs) (group_all u digest fs [])
          (classes u digest fs) m in
      (e.0, subst (λ members. Reports members d) same (reported-Reports e.1 here))

  -- Each fingerprint that two findings share has a group that is reported.
  pub fingerprinted-Reports :
      (k : Text)
      → 2 ≤ length (fingerprinted u digest k fs)
      → (d : DuplicateGroup) × Memᴰ d (deterministic_duplicates u digest fs)
        × Reports (fingerprinted u digest k fs) d
  unfolding deterministic_duplicates
  fingerprinted-Reports k two =
      let (d, m) = reported_two (fingerprinted u digest k fs) two in
      let here : found k (group_all u digest fs []) ≡ fingerprinted u digest k fs =
        found-group_all u digest k fs [] in
      (
        d,
        found_reported k (group_all u digest fs [])
            (subst (λ members. Memᴰ d (reported members)) (sym here) m),
        reported-Reports (fingerprinted u digest k fs) m,
      )
