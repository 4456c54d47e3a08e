-- ===== src/Finding/Priority.antt =====
-- `_priority_for`: the band that a finding stands in.
use cyber.Base.{
  Bool, ℕ, ◌≤◌, ◌≡◌, ◌⊎◌, true, false, ◌&&◌, List, [], ◌∷◌, arith, if◌then◌else◌, leb, ltb,
}
use cyber.Finding.Data.{Finding, is_exploited, is_exposed}
use cyber.Finding.Score.{score, is_excluded}

pub data Priority : Type 0 where
  p1 p2 p3 p4 p5 : Priority

-- `Priority.rank`
unfoldable pub priority_rank : Priority → ℕ
priority_rank p1 = 1
priority_rank p2 = 2
priority_rank p3 = 3
priority_rank p4 = 4
priority_rank p5 = 5

-- `_PRIORITY_BANDS`, in hundredths
abbrev pub priority_bands : List (ℕ × Priority)
priority_bands = (7500, p1) ∷ (5500, p2) ∷ (3800, p3) ∷ (1800, p4) ∷ []

-- The loop of `_priority_for` over the bands.
unfoldable pub banded : ℕ → List (ℕ × Priority) → Priority
banded score [] = p5
banded score ((threshold, priority) ∷ bands) =
    let rest = banded score bands in if leb threshold score then priority else rest

-- `_priority_for`
unfoldable pub priority_for : ℕ → Finding → Priority
priority_for score f =
    if is_excluded f
    then p5
    else if is_exploited f && is_exposed f
    then p1
    else let band = banded score priority_bands in
      if is_exploited f && ltb (priority_rank p2) (priority_rank band) then p2 else band

banded_mono :
    (s s' : ℕ)
    → s ≤ s'
    → priority_rank (banded s' priority_bands) ≤ priority_rank (banded s priority_bands)
unfolding banded priority_rank
banded_mono s s' h = ground arith

banded_le : (s : ℕ) → priority_rank (banded s priority_bands) ≤ 5
unfolding priority_rank
banded_le s = ground arith

-- The last band that the three rules allow.
abbrev pub worst_rank : (excluded exploited exposed : Bool) → ℕ
worst_rank true exploited exposed = 5
worst_rank false true true = 1
worst_rank false true false = 2
worst_rank false false exposed = 5

-- A duplicate or a false positive stands in the last band, whatever else is known of it; of the
-- others, one that is known to be exploited stands in the first band when its asset faces the
-- internet and in the second at worst otherwise.
pub priority_for_lem :
    (s : ℕ) (f : Finding)
    → (priority_rank (priority_for s f)
        ≤ worst_rank (is_excluded f) (is_exploited f) (is_exposed f))
      × ((if is_excluded f then 5 else 1) ≤ priority_rank (priority_for s f))
unfolding priority_for priority_rank
priority_for_lem s f = ground (arith, banded_le s)

-- A higher score, a known exploit and an asset that faces the internet never lower the band of a
-- finding that counts.
pub priority_for_mono :
    (s s' : ℕ) (f f' : Finding)
    → s ≤ s'
    → is_excluded f' ≡ false
    → (is_exploited f ≡ false) ⊎ (is_exploited f' ≡ true)
    → (is_exposed f ≡ false) ⊎ (is_exposed f' ≡ true)
    → priority_rank (priority_for s' f') ≤ priority_rank (priority_for s f)
unfolding priority_for priority_rank
priority_for_mono s s' f f' higher counts exploited exposed =
    ground (arith, banded_mono s s' higher)
