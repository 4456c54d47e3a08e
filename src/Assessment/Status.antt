-- ===== src/Assessment/Status.antt =====
-- backend/app/db/enums.py: the statuses and stages of an assessment, and the legal transitions.
use Prim.Native.String.{String}
use cyber.Base.{ℕ, ◌≡◌, Bool, List, [], ◌∷◌, contains, Comparable, eq_by, get_elem?, refl, some}

pub data AssessmentStatus : Type 0 where
  created planning discovery waiting_for_approval scanning analyzing remediating completed failed
        cancelling cancelled :
      AssessmentStatus

-- The place of a status in the enumeration.
abbrev pub status_code : AssessmentStatus → ℕ
status_code created = 0
status_code planning = 1
status_code discovery = 2
status_code waiting_for_approval = 3
status_code scanning = 4
status_code analyzing = 5
status_code remediating = 6
status_code completed = 7
status_code failed = 8
status_code cancelling = 9
status_code cancelled = 10

abbrev pub all_statuses : List AssessmentStatus
all_statuses =
    created ∷ planning ∷ discovery ∷ waiting_for_approval ∷ scanning ∷ analyzing ∷ remediating
    ∷ completed ∷ failed ∷ cancelling ∷ cancelled ∷ []

pub get_elem?-status_code : (s : AssessmentStatus) → get_elem? all_statuses (status_code s) ≡ some s
get_elem?-status_code created = refl
get_elem?-status_code _ = refl

instance abbrev pub status_eq : Comparable AssessmentStatus
status_eq = eq_by all_statuses status_code get_elem?-status_code

-- `_TERMINAL_STATUSES`
abbrev pub terminal_statuses : List AssessmentStatus
terminal_statuses = completed ∷ failed ∷ cancelled ∷ []

-- `AssessmentStatus.is_terminal`
unfoldable pub is_terminal : AssessmentStatus → Bool
is_terminal s = contains s terminal_statuses

-- `ALLOWED_TRANSITIONS`
unfoldable pub allowed_transitions : AssessmentStatus → List AssessmentStatus
allowed_transitions created = planning ∷ cancelling ∷ failed ∷ []
allowed_transitions planning = discovery ∷ cancelling ∷ failed ∷ []
allowed_transitions discovery =
    waiting_for_approval ∷ scanning ∷ analyzing ∷ cancelling ∷ failed ∷ []
allowed_transitions waiting_for_approval = scanning ∷ cancelling ∷ cancelled ∷ failed ∷ []
allowed_transitions scanning = analyzing ∷ cancelling ∷ failed ∷ []
allowed_transitions analyzing = remediating ∷ completed ∷ cancelling ∷ failed ∷ []
allowed_transitions remediating = completed ∷ cancelling ∷ failed ∷ []
allowed_transitions cancelling = cancelled ∷ failed ∷ []
allowed_transitions completed = []
allowed_transitions failed = []
allowed_transitions cancelled = []

-- The string that the database stores.
unfoldable pub status_value : AssessmentStatus → String
status_value created = "CREATED"
status_value planning = "PLANNING"
status_value discovery = "DISCOVERY"
status_value waiting_for_approval = "WAITING_FOR_APPROVAL"
status_value scanning = "SCANNING"
status_value analyzing = "ANALYZING"
status_value remediating = "REMEDIATING"
status_value completed = "COMPLETED"
status_value failed = "FAILED"
status_value cancelling = "CANCELLING"
status_value cancelled = "CANCELLED"
