-- ===== src/Events/Replay.antt =====
-- A subscriber that connects late sees every event once.
use cyber.Base.{
  ℕ, zero, suc, ◌+◌, ◌≤◌, ◌<◌, ◌≡◌, refl, sym, ap, subst, ◌∙◌, max, Bool-cases, inl, inr, arith,
  List, [], ◌∷◌, ◌++◌, ltb, leb, keep, length, drop, All, weaken-All,
}
use mathlib.Core.List.{append_assoc}
use cyber.Events.Bus.{AgentEvent, highest, live}

-- The numbers of the events grow.
abbrev pub Increasing : List AgentEvent → Type 0
Increasing [] = Unit
Increasing (e ∷ es) = All (λ f. e.seq < f.seq) es × Increasing es

-- The events that are newer than a number.
abbrev pub newer : ℕ → List AgentEvent → List AgentEvent
newer h es = keep (λ e. ltb h e.seq) es

newer_all : (h : ℕ) (es : List AgentEvent) → All (λ f. h < f.seq) es → newer h es ≡ es
newer_all h [] f = refl
newer_all h (e ∷ es) (here, f) = ground (arith, here, newer_all h es f)

live-newer : (h : ℕ) (es : List AgentEvent) → Increasing es → live h es ≡ newer h es
unfolding live
live-newer h [] f = refl
live-newer h (e ∷ es) (above, f) = elim (Bool-cases (leb e.seq h)) [
  | inl old ↦ ground (arith, old, live-newer h es f)
  | inr new ↦
      let up : h < e.seq = ground (arith, new) in
      let rest : newer h es ≡ es =
        newer_all h es (weaken-All es (λ x below. omega (arith, up, below)) above) in
      let rest' : live e.seq es ≡ es = live-newer e.seq es f ∙ newer_all e.seq es above in
      ground (arith, new, rest, rest')
]

-- Among increasing events, leaving out as many as are old does not touch the new ones.
pub newer-drop :
    (h k : ℕ) (es : List AgentEvent)
    → Increasing es
    → k + length (newer h es) ≤ length es
    → newer h (drop k es) ≡ newer h es
newer-drop h zero es f few = refl
newer-drop h (suc k) [] f few = refl
newer-drop h (suc k) (e ∷ es) (above, f) few = elim (Bool-cases (ltb h e.seq)) [
  | inr old ↦ ground (arith, old, few, newer-drop h k es f)
  | inl new ↦
      let up : h < e.seq = ground (arith, new) in
      let rest : newer h es ≡ es =
        newer_all h es (weaken-All es (λ x below. omega (arith, up, below)) above) in
      ground (arith, new, few, rest)
]

highest_le : (h : ℕ) (es : List AgentEvent) → h ≤ highest h es
unfolding highest
highest_le h [] = omega arith
highest_le h (e ∷ es) = ground (arith, highest_le (max h e.seq) es)

-- The highest number of a backlog stays below what all its events are below.
newer-highest :
    (a h bound : ℕ) (es : List AgentEvent)
    → All (λ e. e.seq < bound) es
    → h < bound
    → highest h (newer a es) < bound
unfolding highest
newer-highest a h bound [] f low = low
newer-highest a h bound (e ∷ es) (here, f) low = elim (Bool-cases (ltb a e.seq)) [
  | inl new ↦
      let rest = newer-highest a (max h e.seq) bound es f (omega (arith, here, low)) in
      ground (arith, new, rest)
  | inr old ↦ ground (arith, old, newer-highest a h bound es f low)
]

-- Every event is at most the highest of the backlog, or the start.
covered : (a h : ℕ) (es : List AgentEvent) → a ≤ h → All (λ e. e.seq ≤ highest h (newer a es)) es
unfolding highest
covered a h [] low = tt
covered a h (e ∷ es) low = elim (Bool-cases (ltb a e.seq)) [
  | inl new ↦
      let same : highest h (newer a (e ∷ es)) ≡ highest (max h e.seq) (newer a es) =
        rw (new, highest) refl in
      subst (λ top. All (λ f. f.seq ≤ top) (e ∷ es)) (sym same)
        (
          omega (arith, highest_le (max h e.seq) (newer a es)),
          covered a (max h e.seq) es (omega (arith, low)),
        )
  | inr old ↦
      let under : e.seq ≤ a = ground (arith, old) in
      let same : highest h (newer a (e ∷ es)) ≡ highest h (newer a es) = rw old refl in
      subst (λ top. All (λ f. f.seq ≤ top) (e ∷ es)) (sym same)
        (omega (arith, under, low, highest_le h (newer a es)), covered a h es low)
]

newer_none : (h : ℕ) (es : List AgentEvent) → All (λ e. e.seq ≤ h) es → newer h es ≡ []
newer_none h [] f = refl
newer_none h (e ∷ es) (here, f) = ground (arith, here, newer_none h es f)

pub newer-append : (h : ℕ) (xs ys : List AgentEvent) → newer h (xs ++ ys) ≡ newer h xs ++ newer h ys
newer-append h [] ys = refl
newer-append h (x ∷ xs) ys = ground (arith, newer-append h xs ys)

module _ (P : AgentEvent → Type 0) where
  All-left : (xs ys : List AgentEvent) → All P (xs ++ ys) → All P xs
  All-left [] ys f = tt
  All-left (x ∷ xs) ys (here, f) = (here, All-left xs ys f)

  All-right : (xs ys : List AgentEvent) → All P (xs ++ ys) → All P ys
  All-right [] ys f = f
  All-right (x ∷ xs) ys (here, f) = All-right xs ys f

pub Increasing-left : (xs ys : List AgentEvent) → Increasing (xs ++ ys) → Increasing xs
Increasing-left [] ys f = tt
Increasing-left (x ∷ xs) ys (above, f) =
    (All-left (λ f. x.seq < f.seq) xs ys above, Increasing-left xs ys f)

Increasing-right : (xs ys : List AgentEvent) → Increasing (xs ++ ys) → Increasing ys
Increasing-right [] ys f = f
Increasing-right (x ∷ xs) ys (above, f) = Increasing-right xs ys f

-- What comes later is above all that came before.
abbrev Later : List AgentEvent → AgentEvent → Type 0
Later xs e = All (λ x. x.seq < e.seq) xs

Later-cons :
    (x : AgentEvent) (xs ys : List AgentEvent)
    → All (λ e. x.seq < e.seq) ys
    → All (Later xs) ys
    → All (Later (x ∷ xs)) ys
Later-cons x xs [] f g = tt
Later-cons x xs (e ∷ ys) (here, f) (before, g) = ((here, before), Later-cons x xs ys f g)

Later-nil : (ys : List AgentEvent) → All (Later []) ys
Later-nil [] = tt
Later-nil (e ∷ ys) = (tt, Later-nil ys)

Increasing-Later : (xs ys : List AgentEvent) → Increasing (xs ++ ys) → All (Later xs) ys
Increasing-Later [] ys f = Later-nil ys
Increasing-Later (x ∷ xs) ys (above, f) =
    Later-cons x xs ys (All-right (λ f. x.seq < f.seq) xs ys above) (Increasing-Later xs ys f)

-- After the backlog, the events to come are those newer than the start.
newer-Later :
    (a : ℕ) (xs ys : List AgentEvent)
    → All (Later xs) ys
    → newer (highest a (newer a xs)) ys ≡ newer a ys
newer-Later a xs [] f = refl
newer-Later a xs (e ∷ ys) (here, f) = elim (Bool-cases (ltb a e.seq)) [
  | inl new ↦
      let up : a < e.seq = ground (arith, new) in
      ground (arith, new, newer-highest a a e.seq xs here up, newer-Later a xs ys f)
  | inr old ↦ ground (arith, old, highest_le a (newer a xs), newer-Later a xs ys f)
]

-- What the channel brings after the backlog is what is newer than the start and was not in the backlog.
pub live_rest :
    (a : ℕ) (before during after : List AgentEvent)
    → Increasing ((before ++ during) ++ after)
    → live (highest a (newer a (before ++ during))) (during ++ after) ≡ newer a after
live_rest a before during after f =
    let seen = before ++ during in
    let h = highest a (newer a seen) in
    let old : newer h during ≡ [] =
      newer_none h during
        (All-right (λ e. e.seq ≤ h) before during (covered a a seen (omega arith))) in
    live-newer h (during ++ after) (
      Increasing-right before (during ++ after)
        (subst Increasing (append_assoc before during after) f))
    ∙ newer-append h during after
    ∙ ap (λ es. es ++ newer h after) old
    ∙ newer-Later a seen after (Increasing-Later seen after f)
