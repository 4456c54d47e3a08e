-- ===== src/Approval/Narrow.antt =====
-- `_narrow_payload`: what an answer grants is part of what was proposed.
use Prim.Native.String.{String}
use cyber.Base.{
  ℕ, ◌≤◌, ◌≡◌, ◌≢◌, ◌⊎◌, inl, inr, refl, sym, ap, ◌∙◌, Bool, true, false, Option, none, some, List,
  [], ◌∷◌, arith, map, contains, keep, take, length, Comparable, nat_eq, Within, contains-keep,
  contains-take, length-take-le,
}
use cyber.Base.Errors.{user_error, Result, ok, ◌>>=◌, ◌>>◌, guard, >>=-ok}
use cyber.Approval.Data.{
  string_eq, ScannerName, scanner_value, Uuid, Payload, Approval, Answer, approved, approved_all,
  customized, rejected, ApproveIn, decision_of, requested_asset_ids, requested_scanners, parse_all,
}

abbrev pub max_assets : ℕ
max_assets = 1000

-- Whether a list is not empty.
abbrev pub any {ℓ} : {A : Type ℓ} → List A → Bool
any [] = false
any (x ∷ xs) = true

-- `not payload.asset_ids`
abbrev pub selects : Option (List ℕ) → Bool
selects none = false
selects (some ids) = any ids

-- The proposal cut down to a selection, or the whole proposal where nothing was selected.
unfoldable pub narrowed {ℓ} : {A : Type ℓ} ⦃e : Comparable A⦄ → List A → Option (List A) → List A
narrowed proposed none = proposed
narrowed proposed (some chosen) = keep (λ x. contains x chosen) proposed

-- The members of a list are among the selected ones, where there is a selection.
abbrev pub WithinSelection : List ℕ → Option (List ℕ) → Type 0
WithinSelection ids none = Unit
WithinSelection ids (some chosen) = Within ids chosen

-- The names of the scanners that were selected.
abbrev pub chosen_scanners : Option (List ScannerName) → Option (List String)
chosen_scanners none = none
chosen_scanners (some names) = some (map scanner_value names)

-- The selection that counts: `approved_all` takes the proposal as it is.
abbrev pub selection : ApproveIn → Option (List ℕ)
selection input = elim input.decision [ approved_all ↦ none | _ ↦ input.asset_ids ]

Answer-cases :
    (d : Answer) → (d ≡ approved_all) ⊎ ((d ≡ approved) ⊎ (d ≡ customized) ⊎ (d ≡ rejected))
Answer-cases approved_all = inl refl
Answer-cases _ = ground arith

any-take : (ids : List ℕ) → any ids ≡ true → take max_assets ids ≢ []
any-take [] h e = cc
any-take (x ∷ xs) h e = cc

module _ (u : Uuid) where
  -- The assets that an answer leaves of the proposal.
  unfoldable pub narrowed_assets : Approval → ApproveIn → Result (List ℕ)
  narrowed_assets a input = elim input.decision [
    | approved_all ↦ ok (requested_asset_ids u a)
    | customized ↦
        guard (selects input.asset_ids) user_error
        >> ok (narrowed (requested_asset_ids u a) input.asset_ids)
    | _ ↦ ok (narrowed (requested_asset_ids u a) input.asset_ids)
  ]

  -- The scanners that an answer leaves of the proposal.
  unfoldable pub narrowed_scanners : Approval → ApproveIn → List String
  narrowed_scanners a input = elim input.decision [
    | approved_all ↦ requested_scanners a
    | _ ↦ narrowed (requested_scanners a) (chosen_scanners input.scanners)
  ]

  unfoldable pub narrow_payload : Approval → ApproveIn → Result Payload
  narrow_payload a input = do
    asset_ids ← narrowed_assets a input
    let scanners = narrowed_scanners a input
    guard (any asset_ids) user_error
    guard (any scanners) user_error
    ok (record {
      asset_ids = map u.text (take max_assets asset_ids);
      scanners = scanners;
      decision = some (decision_of input.decision);
      depth = a.requested_payload.depth;
      rate_limit = a.requested_payload.rate_limit;
    })

  pub parse_all-text : (ns : List ℕ) → parse_all u (map u.text ns) ≡ ns
  unfolding parse_all
  parse_all-text [] = refl
  parse_all-text (n ∷ ns) = rw (u.parse-text n, parse_all-text ns)

  narrowed-Within {ℓ} :
      {A : Type ℓ} ⦃e : Comparable A⦄ (proposed : List A) (chosen : Option (List A))
      → Within (narrowed proposed chosen) proposed
  unfolding narrowed
  narrowed-Within proposed none a m = m
  narrowed-Within proposed (some ids) a m =
      ground (arith, contains-keep (λ x. contains x ids) a proposed)

  narrowed-WithinSelection :
      (proposed : List ℕ) (chosen : Option (List ℕ)) (ids : List ℕ)
      → Within ids (narrowed proposed chosen)
      → WithinSelection ids chosen
  unfolding narrowed
  narrowed-WithinSelection proposed none ids within = tt
  narrowed-WithinSelection proposed (some chosen) ids within =
      λ a m. ground (arith, within a m, contains-keep (λ x. contains x chosen) a proposed)

  narrowed_assets_lem :
      (a : Approval) (input : ApproveIn) {ids : List ℕ}
      → narrowed_assets a input ≡ ok ids
      → ids ≡ narrowed (requested_asset_ids u a) (selection input)
  unfolding narrowed_assets narrowed
  narrowed_assets_lem a input h = ground arith

  narrowed_scanners-Within :
      (a : Approval) (input : ApproveIn) → Within (narrowed_scanners a input) (requested_scanners a)
  unfolding narrowed_scanners
  narrowed_scanners-Within a input = elim (Answer-cases input.decision) [
    | inl all ↦ λ x m. ground (arith, all)
    | inr some_of ↦ λ x m.
        ground (
          arith,
          some_of,
          narrowed-Within (requested_scanners a) (chosen_scanners input.scanners) x,
        )
  ]

  -- What `narrow_payload` grants, in terms of the lists it computes.
  narrow_payload_lem :
      (a : Approval) (input : ApproveIn) {granted : Payload}
      → narrow_payload a input ≡ ok granted
      → (ids : List ℕ) × (narrowed_assets a input ≡ ok ids)
        × (any ids ≡ true)
        × (any (narrowed_scanners a input) ≡ true)
        × (granted.asset_ids ≡ map u.text (take max_assets ids))
        × (granted.scanners ≡ narrowed_scanners a input)
  unfolding narrow_payload
  narrow_payload_lem a input h =
      let (ids, e, rest) = >>=-ok (narrowed_assets a input) _ h in
      (ids, e, ground arith, ground arith, ground arith, ground arith)

  -- What an answer grants is a part of what the agent proposed, whatever the client sends: the
  -- assets are proposed ones, and selected ones where the answer counts a selection; the scanners
  -- are proposed ones; neither is empty, and there are at most 1000 assets.
  pub narrow_payload-Within :
      (a : Approval) (input : ApproveIn) {granted : Payload}
      → narrow_payload a input ≡ ok granted
      → Within (parse_all u granted.asset_ids) (requested_asset_ids u a)
        × WithinSelection (parse_all u granted.asset_ids) (selection input)
        × Within granted.scanners (requested_scanners a)
        × (parse_all u granted.asset_ids ≢ [])
        × (granted.scanners ≢ [])
        × (length (parse_all u granted.asset_ids) ≤ max_assets)
  narrow_payload-Within a input {granted} h =
      let (ids, e, any_id, any_scanner, assets, scanners) = narrow_payload_lem a input h in
      let parsed : parse_all u granted.asset_ids ≡ take max_assets ids =
        ap (parse_all u) assets ∙ parse_all-text (take max_assets ids) in
      let cut = narrowed_assets_lem a input e in
      (
        λ x m.
            let m' = contains-take max_assets x ids (rw parsed at m) in
            narrowed-Within (requested_asset_ids u a) (selection input) x (rw cut at m'),
        narrowed-WithinSelection (requested_asset_ids u a) (selection input)
            (parse_all u granted.asset_ids)
            (λ x m. rw cut at (contains-take max_assets x ids (rw parsed at m))),
        λ x m. narrowed_scanners-Within a input x (rw scanners at m),
        λ none_left. any-take ids any_id (sym parsed ∙ none_left),
        λ none_left. ground (arith, none_left, scanners, any_scanner),
        rw parsed (length-take-le max_assets ids),
      )
