-- ===== src/Redis/Limits.antt =====
-- `FixedWindowLimiter` and `TokenBucket`. Times are whole seconds; tokens are counted in a unit in which a
-- second refills a whole number of them.
use cyber.Base.{
  ℕ, suc, ◌+◌, ◌-◌, ◌*◌, ◌/◌, ◌%◌, ◌≤◌, ◌<◌, ◌≡◌, refl, ap, sym, subst, ◌∙◌, min, Bool, true, false,
  Option, none, some, List, [], ◌∷◌, arith, leb, if◌then◌else◌, ◌==◌, All,
}
use cyber.Redis.{Key, read}

-- What `hit` answers.
pub record Hit : Type 0 where
  pub allowed : Bool
  pub remaining : ℕ
  pub reset_after : ℕ

-- `INCR` on a key that may be gone.
unfoldable pub incremented : Option ℕ → ℕ
incremented none = 1
incremented (some n) = suc n

module _ (limit window : ℕ) where
  -- `FixedWindowLimiter.hit`, on the counters of one caller: one for each window of time.
  unfoldable pub hit : (now : ℕ) → (ℕ → Option Key) → Hit × (ℕ → Option Key)
  hit now counters =
      let bucket = now / window in
      let count = incremented (read now (counters bucket)) in
      (
        record {
          allowed = leb count limit;
          remaining = limit - count;
          reset_after = window - now % window;
        },
        λ b.
            if b == bucket
            then some (record { value = count; until = now + (window + 1) })
            else counters b,
      )

  -- How many requests at these times are let through.
  unfoldable pub admitted : List ℕ → (ℕ → Option Key) → ℕ
  admitted [] counters = 0
  admitted (now ∷ times) counters =
      let (answer, next) = hit now counters in
      (if answer.allowed then 1 else 0) + admitted times next

  -- The key of a window after a request in it.
  counters-hit :
      (bucket now : ℕ) (counters : ℕ → Option Key)
      → now / window ≡ bucket
      → (hit now counters).1 bucket
        ≡ some (record {
          value = incremented (read now (counters bucket));
          until = now + (window + 1);
        })
  unfolding hit
  counters-hit bucket now counters here = ground (arith, here)

  allowed-hit :
      (bucket now : ℕ) (counters : ℕ → Option Key)
      → now / window ≡ bucket
      → (hit now counters).0.allowed ≡ leb (incremented (read now (counters bucket))) limit
  unfolding hit
  allowed-hit bucket now counters here = rw here refl

  read_live : (now : ℕ) (k : Key) → now < k.until → incremented (read now (some k)) ≡ suc k.value
  unfolding incremented read
  read_live now k h = ground (arith, h)

  first_count : (now : ℕ) → incremented (read now none) ≡ 1
  unfolding incremented read
  first_count now = refl

  -- Once a window has a counter, it lets through what is left of the limit.
  admitted_left :
      (bucket start : ℕ) (times : List ℕ) (counters : ℕ → Option Key) (k : Key)
      → counters bucket ≡ some k
      → start + window ≤ k.until
      → All (λ t. (t / window ≡ bucket) × (start ≤ t) × (t < start + window)) times
      → admitted times counters ≤ limit - k.value
  unfolding admitted
  admitted_left bucket start [] counters k has live within = omega arith
  admitted_left bucket start (now ∷ times) counters k has live ((here, from, to), within) =
      let count : incremented (read now (counters bucket)) ≡ suc k.value =
        rw has (read_live now k (omega (arith, live, to))) in
      let next : Key = record { value = suc k.value; until = now + (window + 1) } in
      let make : ℕ → Option Key = λ n. some (record { value = n; until = now + (window + 1) }) in
      let rest =
        admitted_left bucket start times (hit now counters).1 next
          (counters-hit bucket now counters here ∙ ap make count) (omega (arith, from)) within in
      let granted : (hit now counters).0.allowed ≡ leb (suc k.value) limit =
        allowed-hit bucket now counters here ∙ ap (λ n. leb n limit) count in
      rw granted (ground (arith, rest))

  -- Of the requests of one window, whenever in it they come, no more than the limit are let through.
  pub admitted_bounded :
      (bucket start : ℕ) (times : List ℕ) (counters : ℕ → Option Key)
      → counters bucket ≡ none
      → All (λ t. (t / window ≡ bucket) × (start ≤ t) × (t < start + window)) times
      → admitted times counters ≤ limit
  unfolding admitted
  admitted_bounded bucket start [] counters fresh within = omega arith
  admitted_bounded bucket start (now ∷ times) counters fresh ((here, from, to), within) =
      let count : incremented (read now (counters bucket)) ≡ 1 = rw fresh (first_count now) in
      let make : ℕ → Option Key = λ n. some (record { value = n; until = now + (window + 1) }) in
      let rest =
        admitted_left bucket start times (hit now counters).1
          (record { value = 1; until = now + (window + 1) })
          (counters-hit bucket now counters here ∙ ap make count) (omega (arith, from)) within in
      let granted : (hit now counters).0.allowed ≡ leb 1 limit =
        allowed-hit bucket now counters here ∙ ap (λ n. leb n limit) count in
      rw granted (ground (arith, rest))

-- The state of a bucket: its tokens, and the time at which they were counted.
pub record Bucket : Type 0 where
  pub tokens : ℕ
  pub ts : ℕ

-- A bucket that has no state yet is full.
unfoldable pub bucket_or_full : (capacity now : ℕ) → Option Bucket → Bucket
bucket_or_full capacity now none = record { tokens = capacity; ts = now }
bucket_or_full capacity now (some b) = b

-- `_TOKEN_BUCKET_LUA`: whether the call is allowed, and the state; how long to wait is not modelled.
unfoldable pub acquire : (capacity refill now cost : ℕ) → Option Bucket → Bool × Bucket
unfolding bucket_or_full
acquire capacity refill now cost state =
    let b = bucket_or_full capacity now state in
    let tokens = min capacity (b.tokens + (now - b.ts) * refill) in
    if leb cost tokens
    then (true, record { tokens = tokens - cost; ts = now })
    else (false, record { tokens = tokens; ts = now })

-- `(b - a) * r + (c - b) * r`, of three times in order
elapsed_adds : (a b c r : ℕ) → a ≤ b → b ≤ c → (b - a) * r + (c - b) * r ≡ (c - a) * r
elapsed_adds a b c r le le' = grind (arith, le, le')

module _ (capacity refill : ℕ) where
  -- What the calls that were allowed cost together; a call is a time and a cost.
  unfoldable pub spent : List (ℕ × ℕ) → Option Bucket → ℕ
  spent [] state = 0
  spent ((now, cost) ∷ calls) state =
      let (allowed, next) = acquire capacity refill now cost state in
      (if allowed then cost else 0) + spent calls (some next)

  -- The calls come in the order of time, none after a last one.
  abbrev pub Ordered : (from last : ℕ) → List (ℕ × ℕ) → Type 0
  Ordered from last [] = from ≤ last
  Ordered from last ((now, cost) ∷ calls) = (from ≤ now) × Ordered now last calls

  first_before_last : (from last : ℕ) (calls : List (ℕ × ℕ)) → Ordered from last calls → from ≤ last
  first_before_last from last [] h = h
  first_before_last from last ((now, cost) ∷ calls) (le, rest) =
      omega (arith, le, first_before_last now last calls rest)

  -- A call takes what it costs from what there was and what has come in since.
  acquire_bound :
      (now cost : ℕ) (b : Bucket)
      → ((if (acquire capacity refill now cost (some b)).0 then cost else 0)
            + (acquire capacity refill now cost (some b)).1.tokens
          ≤ b.tokens + (now - b.ts) * refill)
        × ((acquire capacity refill now cost (some b)).1.ts ≡ now)
  unfolding acquire
  acquire_bound now cost b = ground arith

  spent_from :
      (last : ℕ) (calls : List (ℕ × ℕ)) (b : Bucket)
      → Ordered b.ts last calls
      → spent calls (some b) ≤ b.tokens + (last - b.ts) * refill
  unfolding spent
  spent_from last [] b h = omega arith
  spent_from last ((now, cost) ∷ calls) b (le, rest) =
      let next = (acquire capacity refill now cost (some b)).1 in
      let (taken, at) = acquire_bound now cost b in
      let later : spent calls (some next) ≤ next.tokens + (last - next.ts) * refill =
        spent_from last calls next (subst (λ t. Ordered t last calls) (sym at) rest) in
      let from_now : (last - next.ts) * refill ≡ (last - now) * refill =
        ap (λ t. (last - t) * refill) at in
      omega (
        arith,
        taken,
        later,
        from_now,
        elapsed_adds b.ts now last refill le (first_before_last now last calls rest),
      )

  -- Whatever the calls, as long as time does not go back: what is let through between the first call and a
  -- later time costs no more than a full bucket and what is refilled in between.
  pub spent_bounded :
      (first cost last : ℕ) (calls : List (ℕ × ℕ))
      → Ordered first last calls
      → spent ((first, cost) ∷ calls) none ≤ capacity + (last - first) * refill
  unfolding spent acquire bucket_or_full
  spent_bounded first cost last calls h =
      let full : Bucket = record { tokens = capacity; ts = first } in
      let le : first ≤ first = omega arith in spent_from last ((first, cost) ∷ calls) full (le, h)
