-- ===== src/Tests/Queues.antt =====
-- A request that travels to the worker, with a plain encoding of a principal.
use Prim.Native.Char.{Char, code}
use Prim.Native.String.{String}
use cyber.Base.{ℕ, ◌≡◌, refl, ◌∙◌, ◌==◌, if◌then◌else◌, Option, none, some, [], ◌∷◌}
use cyber.Base.Errors.{value_error, ok, err}
use cyber.Identity.State.{PrincipalState, to_dict, from_dict, carried, from_dict-to_dict}
use cyber.Identity.State.{uuid_of}
use cyber.Approval.Data.{Uuid}
use cyber.Tests.Identities.{engineer}
use cyber.Tests.Approvals.{text, parse, parse-text}
use cyber.Queue.Protocol.{
  RunRequest, start, resume, action_named, Decoded, malformed, object, decoded, Json, Fields, field,
  required, or_empty, decode_principal, to_fields, from_fields,
}
use cyber.Queue.Reading.{from_fields-to_fields}

-- A text that may be missing, and what follows it: every character after a mark, and a mark of the end.
abbrev write_text : String → String → String
write_text String.[] rest = String.◌∷◌ "." rest
write_text (String.◌∷◌ c s) rest = String.◌∷◌ "+" (String.◌∷◌ c (write_text s rest))

abbrev write_option : Option String → String → String
write_option none rest = String.◌∷◌ "n" rest
write_option (some s) rest = write_text s rest

abbrev prepend : Char → Option (Option String × String) → Option (Option String × String)
prepend c (some (some s, rest)) = some (some (String.◌∷◌ c s), rest)
prepend c _ = none

abbrev read_option : String → Option (Option String × String)
read_option String.[] = none
read_option (String.◌∷◌ m String.[]) =
    if code m == 110 then some (none, "") else if code m == 46 then some (some "", "") else none
read_option (String.◌∷◌ m (String.◌∷◌ c s)) =
    let rest = read_option s in
    if code m == 110
    then some (none, String.◌∷◌ c s)
    else if code m == 46
    then some (some "", String.◌∷◌ c s)
    else prepend c rest

read-write_text : (s rest : String) → read_option (write_text s rest) ≡ some (some s, rest)
read-write_text String.[] String.[] = refl
read-write_text String.[] (String.◌∷◌ c rest) = refl
read-write_text (String.◌∷◌ c s) rest = rw (read-write_text s rest) refl

read-write_option :
    (o : Option String) (rest : String) → read_option (write_option o rest) ≡ some (o, rest)
read-write_option none String.[] = refl
read-write_option none (String.◌∷◌ c rest) = refl
read-write_option (some s) rest = read-write_text s rest

abbrev read_then : String → (Option String → String → Decoded) → Decoded
read_then s k = elim (read_option s) [ none ↦ malformed | some (o, rest) ↦ k o rest ]

read_then-write_option :
    (o : Option String) (rest : String) (k : Option String → String → Decoded)
    → read_then (write_option o rest) k ≡ k o rest
read_then-write_option o rest k = rw (read-write_option o rest, read_then) refl

pub dumps : PrincipalState → String
dumps d = write_option d.user_id (
    write_option d.organization_id (
      write_option d.role (
        write_option d.email
          (write_option d.actor_type (write_option d.request_id (write_option d.trace_id ""))))))

pub loads : String → Decoded
loads s = read_then s (λ user_id s. read_then s (λ organization_id s. read_then s (λ role s.
    read_then s (λ email s. read_then s (λ actor_type s. read_then s (λ request_id s.
      read_then s (λ trace_id s. object (record {
        user_id = user_id;
        organization_id = organization_id;
        role = role;
        email = email;
        actor_type = actor_type;
        request_id = request_id;
        trace_id = trace_id;
      }))))))))

pub loads-dumps : (d : PrincipalState) → loads (dumps d) ≡ object d
unfolding loads dumps
loads-dumps d =
    read_then-write_option d.user_id _ _
    ∙ read_then-write_option d.organization_id _ _
    ∙ read_then-write_option d.role _ _
    ∙ read_then-write_option d.email _ _
    ∙ read_then-write_option d.actor_type _ _
    ∙ read_then-write_option d.request_id _ _
    ∙ read_then-write_option d.trace_id _ _

pub loads_empty : loads "" ≡ malformed
unfolding loads
loads_empty = refl

abbrev pub plain : Json
plain = record {
  dumps = dumps;
  loads = loads;
  loads-dumps = loads-dumps;
  loads_empty = loads_empty;
}

-- Identifiers in unary, after a mark.
abbrev pub mark : ℕ → String
mark n = String.◌∷◌ "u" (text n)

abbrev pub unmark : String → Option ℕ
unmark String.[] = none
unmark (String.◌∷◌ c s) = if code c == 117 then parse s else none

abbrev pub marked : Uuid
marked = record { parse = unmark; text = mark; parse-text = parse-text }

-- A START for run 3, in the name of an engineer.
abbrev pub by_engineer : RunRequest
by_engineer = record {
  run_id = 3;
  action = start;
  enqueued_at = "2026-01-01T00:00:00+00:00";
  principal = some (to_dict marked engineer);
}

from_fields-to_fields_example :
    from_fields plain marked (to_fields plain marked by_engineer) ≡ ok by_engineer
from_fields-to_fields_example = from_fields-to_fields plain marked by_engineer

from_dict-to_dict_example : from_dict marked (to_dict marked engineer) ≡ ok (carried engineer)
from_dict-to_dict_example = from_dict-to_dict marked refl engineer

-- A message without a principal.
abbrev pub bare : Fields
bare = ("action", "resume") ∷ ("run_id", "uII") ∷ ("principal", "") ∷ []

abbrev pub bare_request : RunRequest
bare_request = record { run_id = 2; action = resume; enqueued_at = ""; principal = none }

bare_read : from_fields plain marked bare ≡ ok bare_request
unfolding from_fields field required action_named decode_principal or_empty uuid_of
bare_read = refl

-- A principal that is no object is refused, and so is an action that nobody knows.
poison :
    (from_fields plain marked (("run_id", "uI") ∷ ("action", "start") ∷ ("principal", "{") ∷ [])
      ≡ err value_error)
    × (from_fields plain marked (("run_id", "uI") ∷ ("action", "stop") ∷ []) ≡ err value_error)
unfolding from_fields field required action_named decode_principal or_empty uuid_of decoded loads
poison = (refl, refl)
