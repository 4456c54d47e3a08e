-- ===== src/Tests/Streams.antt =====
-- The events of one session, with a plain encoding.
use cyber.Base.{ℕ, zero, suc, ◌≡◌, refl, true, Option, none, some, [], ◌∷◌, map, arith, Text}
use cyber.Events.Bus.{
  AgentEvent, Body, payload, omitted, Bus, Codec, fitted, publish, items_at, parsed, replay,
  highest, live, subscribe,
}
use cyber.Events.Stream.{Published, opened, sent, subscribe-Published}

abbrev written : Body → Text
written (payload t) = 0 ∷ t
written omitted = 1 ∷ []

abbrev dumps : AgentEvent → Text
dumps e = e.type ∷ e.seq ∷ written e.body

abbrev loads : Text → Option AgentEvent
loads (type ∷ seq ∷ zero ∷ t) = some (record { type = type; seq = seq; body = payload t })
loads (type ∷ seq ∷ suc n ∷ t) = some (record { type = type; seq = seq; body = omitted })
loads _ = none

abbrev plain : Codec
plain = record { dumps = dumps; loads = loads }

body_read :
    (type seq : ℕ) (body : Body)
    → loads (type ∷ seq ∷ written body) ≡ some (record { type = type; seq = seq; body = body })
body_read type seq (payload t) = refl
body_read type seq omitted = refl

loads-dumps : (e : AgentEvent) → loads (dumps e) ≡ some e
loads-dumps e = body_read e.type e.seq e.body

abbrev event : ℕ → AgentEvent
event n = record { type = 2; seq = n; body = payload [] }

abbrev empty : Bus
empty = record { counter = none; buffer = none }

abbrev one : Bus
one = (publish plain true 100 (event 1) empty).0

abbrev two : Bus
two = (publish plain true 200 (event 2) one).0

two-Published : Published plain (event 1 ∷ event 2 ∷ []) 200 two
unfolding fitted
two-Published =
    sent (event 1 ∷ []) 100 one 200 (event 2)
      (sent [] 100 empty 100 (event 1) (opened 100 none) (omega arith)) (omega arith)

-- A client that has seen the first event, and connects while the second is sent.
subscribe-Published_example :
    subscribe plain 300 1 two (map dumps (event 2 ∷ event 3 ∷ [])) ≡ event 2 ∷ event 3 ∷ []
subscribe-Published_example =
    subscribe-Published plain loads-dumps (event 1 ∷ []) (event 2 ∷ []) (event 3 ∷ []) 200 two 300 1
      two-Published (omega arith) ((omega arith, (omega arith, tt)), ((omega arith, tt), (tt, tt)))
      (omega arith)

-- Numbers are given before the events are sent: of two that cross on the way, the first is lost.
crossed : subscribe plain 300 0 empty (map dumps (event 2 ∷ event 1 ∷ [])) ≡ event 2 ∷ []
unfolding subscribe replay parsed items_at highest live
crossed = refl
