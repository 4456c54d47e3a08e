-- ===== src/Events/Bus.antt =====
-- `EventBus` for one session. Redis is given by what its commands do: the counter and the list of the
-- replay are keys that expire, and a command that cannot reach it changes nothing.
use cyber.Base.{
  ℕ, suc, ◌+◌, ◌-◌, ◌*◌, max, Bool, true, false, Option, none, some, List, [], ◌∷◌, ◌++◌,
  if◌then◌else◌, ltb, leb, keep, length, drop, Text,
}
use cyber.Redis.{Key, read}

-- `REPLAY_LIMIT`
abbrev pub replay_limit : ℕ
replay_limit = 20

-- `REPLAY_TTL_SECONDS` and `SEQ_TTL_SECONDS`, in milliseconds
abbrev pub replay_ttl : ℕ
replay_ttl = 4 * 24 * 3600 * 1000

-- `MAX_EVENT_BYTES`
abbrev pub max_event_bytes : ℕ
max_event_bytes = 64 * 1024

-- An event's payload, or the note that it was left out.
pub data Body : Type 0 where
  payload : Text → Body
  omitted : Body

-- `AgentEvent`; its type and identifiers stand for themselves.
pub record AgentEvent : Type 0 where
  pub type : ℕ
  pub seq : ℕ
  pub body : Body

-- The list of the replay, with the time at which it expires.
pub record Buffer : Type 0 where
  pub items : List Text
  pub until : ℕ

-- The keys of one session.
pub record Bus : Type 0 where
  pub counter : Option Key
  pub buffer : Option Buffer

-- The last entries of a list, as `LTRIM key -n -1` keeps them.
unfoldable pub last_n : ℕ → List Text → List Text
last_n n xs = drop (length xs - n) xs

-- The items of a list that has not expired.
unfoldable pub items_at : (now : ℕ) → Option Buffer → List Text
items_at now none = []
items_at now (some b) = if ltb now b.until then b.items else []

-- `INCR`
unfoldable pub counted_up : Option ℕ → ℕ
counted_up none = 1
counted_up (some n) = suc n

-- `next_seq`
unfoldable pub next_seq : (reached : Bool) (now : ℕ) → Bus → ℕ × Bus
unfolding counted_up read
next_seq false now b = (0, b)
next_seq true now b =
    let seq = counted_up (read now b.counter) in
    (seq, record b { counter = some (record { value = seq; until = now + replay_ttl }) })

-- Pydantic's JSON: `loads` is `model_validate_json` with `none` for its errors, which reads back what
-- `model_dump_json` wrote.
pub record Codec : Type 0 where
  pub dumps : AgentEvent → Text
  pub loads : Text → Option AgentEvent

-- `highest`, after the events of the backlog
unfoldable pub highest : (after_seq : ℕ) → List AgentEvent → ℕ
highest h [] = h
highest h (e ∷ es) = highest (max h e.seq) es

-- The loop of `subscribe` over the live events.
unfoldable pub live : (highest : ℕ) → List AgentEvent → List AgentEvent
live h [] = []
live h (e ∷ es) =
    let later = live e.seq es in let same = live h es in if leb e.seq h then same else e ∷ later

module _ (c : Codec) where
  -- The event that is sent: without its payload, if it is too large.
  unfoldable pub fitted : AgentEvent → AgentEvent
  fitted e = if ltb max_event_bytes (length (c.dumps e)) then record e { body = omitted } else e

  -- The entry that `publish` pushes.
  unfoldable pub pushed : (now : ℕ) → Text → Bus → Bus
  unfolding last_n items_at
  pushed now entry b = record b {
    buffer = some (record {
      items = last_n replay_limit (items_at now b.buffer ++ entry ∷ []);
      until = now + replay_ttl;
    });
  }

  -- `publish`: the bus, and what the subscribers receive
  unfoldable pub publish : (reached : Bool) (now : ℕ) → AgentEvent → Bus → Bus × List Text
  unfolding fitted pushed
  publish false now e b = (b, [])
  publish true now e b = (pushed now (c.dumps (fitted e)) b, c.dumps (fitted e) ∷ [])

  -- `EventEmitter.emit`
  unfoldable pub emit : (counts sends : Bool) (now : ℕ) (type : ℕ) → Body → Bus → Bus × List Text
  unfolding next_seq publish
  emit counts sends now type body b =
      let (seq, counted) = next_seq counts now b in
      publish sends now (record { type = type; seq = seq; body = body }) counted

  -- The entries that `_parse` reads.
  unfoldable pub parsed : List Text → List AgentEvent
  parsed [] = []
  parsed (t ∷ ts) = let rest = parsed ts in elim (c.loads t) [ none ↦ rest | some e ↦ e ∷ rest ]

  -- `replay`
  unfoldable pub replay : (now after_seq : ℕ) → Bus → List AgentEvent
  unfolding parsed items_at
  replay now after_seq b = keep (λ e. ltb after_seq e.seq) (parsed (items_at now b.buffer))

  -- `subscribe`: what it yields, of a bus that it reads after the channel was opened, and of what has
  -- come through the channel since.
  unfoldable pub subscribe : (now after_seq : ℕ) → Bus → (received : List Text) → List AgentEvent
  unfolding replay highest live parsed
  subscribe now after_seq b received =
      let backlog = replay now after_seq b in
      backlog ++ live (highest after_seq backlog) (parsed received)
