-- ===== src/Ssvc/Tree.antt =====
-- `_decision_tree`.
use cyber.Base.{ℕ, ◌≤◌, ◌≡◌, ◌⊎◌, ◌↔◌, ◌≢◌, Bool, true, false, ◌&&◌, ◌||◌, arith, if◌then◌else◌}

pub data ExploitationStatus : Type 0 where
  none poc active : ExploitationStatus

pub data Automatable : Type 0 where
  yes no : Automatable

pub data TechnicalImpact : Type 0 where
  partial total : TechnicalImpact

pub data MissionPrevalence : Type 0 where
  minimal support critical : MissionPrevalence

pub data SsvcOutcome : Type 0 where
  track track_star attend act : SsvcOutcome

abbrev is_yes : Automatable → Bool
is_yes yes = true
is_yes no = false

abbrev is_total : TechnicalImpact → Bool
is_total total = true
is_total partial = false

abbrev is_critical : MissionPrevalence → Bool
is_critical critical = true
is_critical _ = false

abbrev is_support : MissionPrevalence → Bool
is_support support = true
is_support _ = false

-- `_decision_tree`; a second `return` that stands behind that of its last test is never reached.
unfoldable pub decision_tree :
    ExploitationStatus → Automatable → TechnicalImpact → MissionPrevalence → SsvcOutcome
decision_tree active a t m = if is_total t then act else if is_critical m then act else attend
decision_tree poc a t m =
    if is_yes a && is_total t && (is_critical m || is_support m)
    then attend
    else if is_total t && is_critical m
    then attend
    else track_star
decision_tree none a t m = if is_yes a && is_total t && is_critical m then attend else track

abbrev pub urgency : SsvcOutcome → ℕ
urgency track = 0
urgency track_star = 1
urgency attend = 2
urgency act = 3

abbrev pub exploitation_level : ExploitationStatus → ℕ
exploitation_level none = 0
exploitation_level poc = 1
exploitation_level active = 2

abbrev pub automatable_level : Automatable → ℕ
automatable_level no = 0
automatable_level yes = 1

abbrev pub impact_level : TechnicalImpact → ℕ
impact_level partial = 0
impact_level total = 1

abbrev pub mission_level : MissionPrevalence → ℕ
mission_level minimal = 0
mission_level support = 1
mission_level critical = 2

-- The action never becomes less urgent when any of the four points gets worse.
pub decision_tree_mono :
    (e e' : ExploitationStatus) (a a' : Automatable) (t t' : TechnicalImpact)
    (m m' : MissionPrevalence)
    → exploitation_level e ≤ exploitation_level e'
    → automatable_level a ≤ automatable_level a'
    → impact_level t ≤ impact_level t'
    → mission_level m ≤ mission_level m'
    → urgency (decision_tree e a t m) ≤ urgency (decision_tree e' a' t' m')
unfolding decision_tree
decision_tree_mono e e' a a' t t' m m' he ha ht hm = ground arith

-- `act` is for an exploit in use that is total or hits a critical mission; `track*` is only for a
-- proof of concept; and a finding is at least attended to when it is exploited, at least `track*`
-- when a proof of concept is known.
pub decision_tree_lem :
    (e : ExploitationStatus) (a : Automatable) (t : TechnicalImpact) (m : MissionPrevalence)
    → ((decision_tree e a t m ≡ act) ↔ ((e ≡ active) × ((t ≡ total) ⊎ (m ≡ critical))))
      × ((decision_tree e a t m ≢ track_star) ⊎ (e ≡ poc))
      × (exploitation_level e ≤ urgency (decision_tree e a t m))
unfolding decision_tree
decision_tree_lem e a t m = ground arith
