-- ===== src/Agent/Pipeline.antt =====
-- The paths along the edges of the graph of backend/app/agent/graph.py.
use cyber.Base.{
  ℕ, suc, ◌≡◌, ◌≤◌, ◌<◌, ◌↔◌, refl, Bool, true, not, ◌&&◌, Bool-cases, inl, inr, ◌⊎◌, ap, ◌∙◌,
  subst, arith, none, some, List, [], ◌∷◌, if◌then◌else◌, contains, length,
}
use cyber.Targets.Policy.{is_empty}
use cyber.Agent.Graph.{
  Node, understand, plan, recon, discover_assets, request_approval, execute_scanners,
  import_findings, enrich_intelligence, attack_path, analyze_findings, prioritize_findings,
  remediate_findings, create_actions, generate_report, node_eq, place, active_scanners, Channels,
  depth_or_standard, route_after_discovery, edge, is_interrupt,
}

-- Whether there is something to scan.
unfoldable pub has_scope : Channels → Bool
has_scope s =
    not (is_empty (active_scanners (depth_or_standard s.depth)))
    && not (is_empty s.selected_asset_ids)

route_lem :
    (s : Channels)
    → route_after_discovery s ≡ (if has_scope s then request_approval else analyze_findings)
unfolding route_after_discovery has_scope
route_lem s = ground arith

place-route_after_discovery : (s : Channels) → 3 < place (route_after_discovery s)
unfolding route_after_discovery
place-route_after_discovery s = ground arith

further : {k : ℕ} (m next : Node) → some m ≡ some next → k < place m → k < place next
further {k} m next h below = let same : m ≡ next = cc in subst (λ x. k < place x) same below

place-edge : (s : Channels) (n next : Node) → edge s n ≡ some next → place n < place next
unfolding edge
place-edge s discover_assets next h =
    further (route_after_discovery s) next h (place-route_after_discovery s)
place-edge s generate_report next h = cc
place-edge s understand next h = further plan next h (omega arith)
place-edge s plan next h = further recon next h (omega arith)
place-edge s recon next h = further discover_assets next h (omega arith)
place-edge s request_approval next h = further execute_scanners next h (omega arith)
place-edge s execute_scanners next h = further import_findings next h (omega arith)
place-edge s import_findings next h = further enrich_intelligence next h (omega arith)
place-edge s enrich_intelligence next h = further attack_path next h (omega arith)
place-edge s attack_path next h = further analyze_findings next h (omega arith)
place-edge s analyze_findings next h = further prioritize_findings next h (omega arith)
place-edge s prioritize_findings next h = further remediate_findings next h (omega arith)
place-edge s remediate_findings next h = further create_actions next h (omega arith)
place-edge s create_actions next h = further generate_report next h (omega arith)

place_bound : (n : Node) → place n ≤ 13
place_bound understand = omega arith
place_bound _ = omega arith

-- A path from the first node. The channels are those that the nodes have left by then, whatever these are.
pub data PathTo : Node → Type 0 where
  begin : PathTo understand
  follow : {n next : Node} → PathTo n → (s : Channels) → edge s n ≡ some next → PathTo next

-- The nodes of a path, the last one first.
abbrev pub passed : {n : Node} → PathTo n → List Node
passed begin = understand ∷ []
passed (follow {n} {next} path s e) = next ∷ passed path

-- That a path has left the discovery with something to scan.
abbrev pub HasScope : {n : Node} → PathTo n → Type 0
HasScope begin = ⊥
HasScope (follow {n} path s e) = ((n ≡ discover_assets) × (has_scope s ≡ true)) ⊎ HasScope path

scanners_from : (s : Channels) (n : Node) → edge s n ≡ some execute_scanners → n ≡ request_approval
unfolding edge route_after_discovery
scanners_from s discover_assets h = ground (arith, h)
scanners_from s request_approval h = refl
scanners_from s understand h = cc
scanners_from s _ h = cc

route-has_scope :
    (s : Channels) → some (route_after_discovery s) ≡ some request_approval → has_scope s ≡ true
route-has_scope s h = elim (Bool-cases (has_scope s)) [
  | inl scoped ↦ scoped
  | inr idle ↦
      let same : route_after_discovery s ≡ analyze_findings = route_lem s ∙ rw idle refl in
      cc (same, h)
]

approval_from :
    (s : Channels) (n : Node)
    → edge s n ≡ some request_approval
    → (n ≡ discover_assets) × (has_scope s ≡ true)
unfolding edge
approval_from s discover_assets h = (refl, route-has_scope s h)
approval_from s understand h = cc
approval_from s _ h = cc

approval_HasScope : {n : Node} (path : PathTo n) → n ≡ request_approval → HasScope path
approval_HasScope begin e = cc
approval_HasScope (follow {n} {next} path s h) e = inl (approval_from s n (h ∙ ap some e))

first_passed : {n : Node} (path : PathTo n) → contains n (passed path) ≡ true
first_passed begin = refl
first_passed (follow {n} {next} path s h) = ground (arith, (node_eq.equals_iff next next).1 refl)

scanners_approved :
    {n : Node} (path : PathTo n)
    → n ≡ execute_scanners
    → HasScope path × (contains request_approval (passed path) ≡ true)
scanners_approved begin e = cc
scanners_approved (follow {n} {next} path s h) e =
    let before = scanners_from s n (h ∙ ap some e) in
    let there : contains request_approval (passed path) ≡ true =
      subst (λ m. contains m (passed path) ≡ true) before (first_passed path) in
    (inr (approval_HasScope path before), ground (arith, there))

-- The graph leads to the scanners only through the discovery, left with an active scanner for the depth and a
-- selected asset, and the node that asks for the approval, whatever the channels are at each step; and the
-- scanners are marked for the interrupt.
pub PathTo-HasScope :
    (path : PathTo execute_scanners)
    → HasScope path
      × (contains request_approval (passed path) ≡ true)
      × (is_interrupt execute_scanners ≡ true)
unfolding is_interrupt
PathTo-HasScope path = let (scoped, asked) = scanners_approved path refl in (scoped, asked, refl)

length-passed : {n : Node} (path : PathTo n) → length (passed path) ≤ suc (place n)
length-passed begin = omega arith
length-passed (follow {n} {next} path s h) =
    omega (arith, length-passed path, place-edge s n next h)

ends_at : (s : Channels) (n : Node) → (edge s n ≡ none) ↔ (n ≡ generate_report)
unfolding edge
ends_at s generate_report = (λ _. refl, λ _. refl)
ends_at s understand = (λ h. cc, λ h. cc)
ends_at s _ = (λ h. cc, λ h. cc)

-- A path along the edges passes at most the fourteen nodes, whatever the channels are at each step, and the
-- report is the only node from which none leads on.
pub passed_bounded :
    {n : Node} (path : PathTo n) (s : Channels)
    → (length (passed path) ≤ 14) × ((edge s n ≡ none) ↔ (n ≡ generate_report))
passed_bounded {n} path s = (omega (arith, length-passed path, place_bound n), ends_at s n)
