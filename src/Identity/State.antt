-- ===== src/Identity/State.antt =====
-- backend/app/services/context.py: the form in which a principal crosses a process boundary.
use Prim.Native.String.{String}
use cyber.Base.{
  ℕ, ◌≡◌, refl, sym, ap, ◌∙◌, false, Option, none, some, if◌then◌else◌, inl, inr, Bool-cases,
}
use cyber.Base.Errors.{value_error, Result, ok, err, ◌>>=◌}
use cyber.Identity.{
  Role, owner, admin, security_engineer, developer, viewer, ActorType, user, agent, worker, system,
  Principal,
}
use cyber.Approval.Data.{string_eq, Uuid}

-- The keys of the dict that `from_dict` reads; a key that is missing or null is `none`.
pub record PrincipalState : Type 0 where
  pub user_id : Option String
  pub organization_id : Option String
  pub role : Option String
  pub email : Option String
  pub actor_type : Option String
  pub request_id : Option String
  pub trace_id : Option String

-- `role.value`
unfoldable pub role_value : Role → String
role_value owner = "owner"
role_value admin = "admin"
role_value security_engineer = "security_engineer"
role_value developer = "developer"
role_value viewer = "viewer"

-- `Role(text)`
unfoldable pub role_named : String → Result Role
role_named t =
    if string_eq.equals t "owner"
    then ok owner
    else if string_eq.equals t "admin"
    then ok admin
    else if string_eq.equals t "security_engineer"
    then ok security_engineer
    else if string_eq.equals t "developer"
    then ok developer
    else if string_eq.equals t "viewer"
    then ok viewer
    else err value_error

-- `ACTOR_USER` and its likes
unfoldable pub actor_value : ActorType → String
actor_value user = "user"
actor_value agent = "agent"
actor_value worker = "worker"
actor_value system = "system"

-- The check of `__post_init__` on an actor's type.
unfoldable pub actor_named : String → Result ActorType
actor_named t =
    if string_eq.equals t "user"
    then ok user
    else if string_eq.equals t "agent"
    then ok agent
    else if string_eq.equals t "worker"
    then ok worker
    else if string_eq.equals t "system"
    then ok system
    else err value_error

-- `raw["role"]`, which a missing key makes a `KeyError`, and `Role(...)` of it.
unfoldable pub role_of : Option String → Result Role
unfolding role_named
role_of none = err value_error
role_of (some t) = role_named t

-- `str(raw.get("actor_type") or ACTOR_USER)`
unfoldable pub actor_of : Option String → Result ActorType
unfolding actor_named
actor_of none = ok user
actor_of (some t) = if string_eq.equals t "" then ok user else actor_named t

module _ (u : Uuid) where
  -- `uuid.UUID(text)`
  unfoldable pub uuid_of : String → Result ℕ
  uuid_of t = elim (u.parse t) [ none ↦ err value_error | some n ↦ ok n ]

  -- `organization_id`, which must be there
  unfoldable pub organization_of : Option String → Result ℕ
  unfolding uuid_of
  organization_of none = err value_error
  organization_of (some t) = if string_eq.equals t "" then err value_error else uuid_of t

  -- `user_id`, which a principal that is no human lacks
  unfoldable pub user_of : Option String → Result (Option ℕ)
  unfolding uuid_of
  user_of none = ok none
  user_of (some t) = if string_eq.equals t "" then ok none else uuid_of t >>= (λ n. ok (some n))

  -- `Principal.to_dict`
  unfoldable pub to_dict : Principal → PrincipalState
  unfolding role_value actor_value
  to_dict p = record {
    user_id = elim p.user_id [ none ↦ none | some n ↦ some (u.text n) ];
    organization_id = some (u.text p.organization_id);
    role = some (role_value p.role);
    email = p.email;
    actor_type = some (actor_value p.actor_type);
    request_id = p.request_id;
    trace_id = p.trace_id;
  }

  -- `Principal.from_dict`
  unfoldable pub from_dict : PrincipalState → Result Principal
  unfolding organization_of user_of role_of actor_of
  from_dict raw = do
    organization ← organization_of raw.organization_id
    user_id ← user_of raw.user_id
    held ← role_of raw.role
    actor ← actor_of raw.actor_type
    ok (record {
      user_id = user_id;
      organization_id = organization;
      role = held;
      email = raw.email;
      actor_type = actor;
      source_ip = none;
      user_agent = none;
      request_id = raw.request_id;
      trace_id = raw.trace_id;
    })

-- What crosses a boundary: the network provenance stays behind.
abbrev pub carried : Principal → Principal
carried p = record p { source_ip = none; user_agent = none }

role_of_value : (r : Role) → role_of (some (role_value r)) ≡ ok r
unfolding role_of role_value
role_of_value owner = refl
role_of_value _ = refl

actor_of_value : (a : ActorType) → actor_of (some (actor_value a)) ≡ ok a
unfolding actor_of actor_value
actor_of_value user = refl
actor_of_value _ = refl

module _ (u : Uuid) (refused : u.parse "" ≡ none) where
  written : (n : ℕ) → string_eq.equals (u.text n) "" ≡ false
  written n = elim (Bool-cases (string_eq.equals (u.text n) "")) [
    | inl empty ↦
        let e = (string_eq.equals_iff (u.text n) "").0 empty in
        cc (sym (u.parse-text n) ∙ ap u.parse e, refused)
    | inr filled ↦ filled
  ]

  uuid_of-text : (n : ℕ) → uuid_of u (u.text n) ≡ ok n
  unfolding uuid_of
  uuid_of-text n = rw (u.parse-text n, uuid_of) refl

  organization_of-text : (n : ℕ) → organization_of u (some (u.text n)) ≡ ok n
  unfolding organization_of
  organization_of-text n = rw (written n) (uuid_of-text n)

  user_of-text :
      (o : Option ℕ) → user_of u (elim o [ none ↦ none | some n ↦ some (u.text n) ]) ≡ ok o
  unfolding user_of
  user_of-text none = refl
  user_of-text (some n) = rw (written n, uuid_of-text n) refl

  -- A principal that was written as a dict is read back with all that grants authority.
  pub from_dict-to_dict : (p : Principal) → from_dict u (to_dict u p) ≡ ok (carried p)
  unfolding from_dict to_dict
  from_dict-to_dict p =
      rw
        (
          organization_of-text p.organization_id,
          user_of-text p.user_id,
          role_of_value p.role,
          actor_of_value p.actor_type,
        )
        refl
