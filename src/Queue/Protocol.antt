-- ===== src/Queue/Protocol.antt =====
-- `RunRequest` and the entry of a stream that carries it.
use Prim.Native.String.{String}
use cyber.Base.{ℕ, ◌≡◌, Option, none, some, List, [], ◌∷◌, ◌++◌, if◌then◌else◌}
use cyber.Base.Errors.{value_error, Result, ok, err, ◌>>=◌}
use cyber.Identity.State.{PrincipalState, uuid_of}
use cyber.Approval.Data.{string_eq, Uuid}

pub data RunAction : Type 0 where
  start resume : RunAction

-- `action.value`
unfoldable pub action_value : RunAction → String
action_value start = "start"
action_value resume = "resume"

-- `RunAction(text)`
unfoldable pub action_named : String → Result RunAction
action_named t =
    if string_eq.equals t "start"
    then ok start
    else if string_eq.equals t "resume"
    then ok resume
    else err value_error

pub record RunRequest : Type 0 where
  pub run_id : ℕ
  pub action : RunAction
  pub enqueued_at : String
  pub principal : Option PrincipalState

-- What a text of JSON says: nothing, an object, or some other value.
pub data Decoded : Type 0 where
  malformed other_value : Decoded
  object : PrincipalState → Decoded

-- Python's `json`: an object is written as a text that reads as this object, and the empty text
-- is no JSON.
pub record Json : Type 0 where
  pub dumps : PrincipalState → String
  pub loads : String → Decoded
  pub loads-dumps : (d : PrincipalState) → loads (dumps d) ≡ object d
  pub loads_empty : loads "" ≡ malformed

-- An entry's field map.
abbrev pub Fields : Type 0
Fields = List (String × String)

-- `fields.get(key)`
unfoldable pub field : String → Fields → Option String
field key [] = none
field key ((k, value) ∷ fields) =
    let rest = field key fields in if string_eq.equals k key then some value else rest

-- `fields[key]`, whose `KeyError` becomes a `ValueError`
unfoldable pub required : String → Fields → Result String
unfolding field
required key fields = elim (field key fields) [ none ↦ err value_error | some value ↦ ok value ]

-- `fields.get("enqueued_at", "")`
unfoldable pub or_empty : Option String → String
or_empty none = ""
or_empty (some t) = t

-- The result of `json.loads`, or the refusal of what is no object.
unfoldable pub decoded : Decoded → Result (Option PrincipalState)
decoded malformed = err value_error
decoded other_value = err value_error
decoded (object d) = ok (some d)

module _ (j : Json) where
  -- `_decode_principal`
  unfoldable pub decode_principal : Option String → Result (Option PrincipalState)
  unfolding decoded
  decode_principal none = ok none
  decode_principal (some raw) = if string_eq.equals raw "" then ok none else decoded (j.loads raw)

  -- The field of the principal, if there is one.
  unfoldable pub principal_field : Option PrincipalState → Fields
  principal_field none = []
  principal_field (some d) = ("principal", j.dumps d) ∷ []

  module _ (u : Uuid) where
    -- `RunRequest.to_fields`
    unfoldable pub to_fields : RunRequest → Fields
    unfolding action_value principal_field
    to_fields r =
        (("run_id", u.text r.run_id)
          ∷ ("action", action_value r.action)
          ∷ ("enqueued_at", r.enqueued_at)
          ∷ [])
        ++ principal_field r.principal

    -- `RunRequest.from_fields`
    unfoldable pub from_fields : Fields → Result RunRequest
    unfolding required action_named field or_empty decode_principal uuid_of
    from_fields fields = do
      raw_id ← required "run_id" fields
      run_id ← uuid_of u raw_id
      raw_action ← required "action" fields
      action ← action_named raw_action
      principal ← decode_principal (field "principal" fields)
      ok (record {
        run_id = run_id;
        action = action;
        enqueued_at = or_empty (field "enqueued_at" fields);
        principal = principal;
      })
