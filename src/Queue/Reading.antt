-- ===== src/Queue/Reading.antt =====
-- What the worker reads is what the API wrote; everything else is refused.
use Prim.Native.String.{String}
use cyber.Base.{
  ℕ, ◌≡◌, refl, sym, ap, ◌∙◌, true, false, Option, none, some, inl, inr, Bool-cases, arith, ◌⊎◌,
  subst,
}
use cyber.Base.Errors.{ok, ok_inj, >>=-ok}
use cyber.Identity.State.{PrincipalState, uuid_of}
use cyber.Approval.Data.{string_eq, Uuid}
use cyber.Queue.Protocol.{
  RunAction, start, resume, action_value, action_named, RunRequest, Decoded, object, malformed,
  Json, Fields, field, required, or_empty, decode_principal, decoded, other_value, principal_field,
  to_fields, from_fields,
}

action_named-action_value : (a : RunAction) → action_named (action_value a) ≡ ok a
unfolding action_named action_value
action_named-action_value start = refl
action_named-action_value resume = refl

action_named_ok : (t : String) {a : RunAction} → action_named t ≡ ok a → t ≡ action_value a
unfolding action_named action_value
action_named_ok t h =
    ground (arith, h, string_eq.equals_iff t "start", string_eq.equals_iff t "resume")

module _ (j : Json) where
  filled : (d : PrincipalState) → string_eq.equals (j.dumps d) "" ≡ false
  filled d = elim (Bool-cases (string_eq.equals (j.dumps d) "")) [
    | inl empty ↦
        let e = (string_eq.equals_iff (j.dumps d) "").0 empty in
        cc (sym (j.loads-dumps d) ∙ ap j.loads e, j.loads_empty)
    | inr written ↦ written
  ]

  decode-principal_field :
      (o : Option PrincipalState)
      → decode_principal j (field "principal" (principal_field j o)) ≡ ok o
  unfolding decode_principal principal_field field decoded
  decode-principal_field none = refl
  decode-principal_field (some d) = rw (filled d, j.loads-dumps d, decoded) refl

  module _ (u : Uuid) where
    uuid_of-text : (n : ℕ) → uuid_of u (u.text n) ≡ ok n
    unfolding uuid_of
    uuid_of-text n = rw (u.parse-text n, uuid_of) refl

    -- A request that was written to the stream is read back as it was, with the principal
    -- that it carries, if any.
    pub from_fields-to_fields : (r : RunRequest) → from_fields j u (to_fields j u r) ≡ ok r
    unfolding from_fields to_fields required field or_empty
    from_fields-to_fields r =
        rw
          (
            uuid_of-text r.run_id,
            action_named-action_value r.action,
            decode-principal_field r.principal,
          )
          refl

    -- What an entry's principal says, where it was accepted.
    abbrev Says : Option String → Option PrincipalState → Type 0
    Says raw none = (raw ≡ none) ⊎ (raw ≡ some "")
    Says raw (some d) = (text : String) × (raw ≡ some text) × (j.loads text ≡ object d)

    decoded_ok :
        (text : String) (c : Decoded) {o : Option PrincipalState}
        → j.loads text ≡ c
        → decoded c ≡ ok o
        → Says (some text) o
    unfolding decoded
    decoded_ok text malformed e h = cc
    decoded_ok text other_value e h = cc
    decoded_ok text (object d) e h = subst (λ o. Says (some text) o) (ok_inj h) (text, refl, e)

    decode_empty :
        (text : String) → string_eq.equals text "" ≡ true → decode_principal j (some text) ≡ ok none
    unfolding decode_principal
    decode_empty text empty = rw empty refl

    decode_full :
        (text : String)
        → string_eq.equals text "" ≡ false
        → decode_principal j (some text) ≡ decoded (j.loads text)
    unfolding decode_principal
    decode_full text full = rw full refl

    decode_principal_ok :
        (raw : Option String) {o : Option PrincipalState}
        → decode_principal j raw ≡ ok o
        → Says raw o
    unfolding decode_principal
    decode_principal_ok none h = subst (λ o. Says none o) (ok_inj h) (inl refl)
    decode_principal_ok (some text) h = elim (Bool-cases (string_eq.equals text "")) [
      | inl empty ↦
          let none_read = decode_empty text empty in
          subst (λ o. Says (some text) o) (ok_inj (sym none_read ∙ h))
            (inr (ap some ((string_eq.equals_iff text "").0 empty)))
      | inr full ↦ decoded_ok text (j.loads text) refl (sym (decode_full text full) ∙ h)
    ]

    required_ok :
        (key : String) (fields : Fields) {t : String}
        → required key fields ≡ ok t
        → field key fields ≡ some t
    unfolding required
    required_ok key fields h = ground (arith, h)

    uuid_ok : (t : String) {n : ℕ} → uuid_of u t ≡ ok n → u.parse t ≡ some n
    unfolding uuid_of
    uuid_ok t h = ground (arith, h)

    -- An entry that is accepted says what the request has: its run, its action and its principal, which is
    -- none only if the entry has none or an empty one.
    pub from_fields_ok :
        (fields : Fields) {r : RunRequest}
        → from_fields j u fields ≡ ok r
        → ((t : String) × (field "run_id" fields ≡ some t) × (u.parse t ≡ some r.run_id))
          × (field "action" fields ≡ some (action_value r.action))
          × Says (field "principal" fields) r.principal
    unfolding from_fields
    from_fields_ok fields h =
        let (raw_id, e1, h1) = >>=-ok (required "run_id" fields) _ h in
        let (run_id, e2, h2) = >>=-ok (uuid_of u raw_id) _ h1 in
        let (raw_action, e3, h3) = >>=-ok (required "action" fields) _ h2 in
        let (action, e4, h4) = >>=-ok (action_named raw_action) _ h3 in
        let (principal, e5, h5) = >>=-ok (decode_principal j (field "principal" fields)) _ h4 in
        let e = ok_inj h5 in
        subst
          (λ r.
            ((t : String) × (field "run_id" fields ≡ some t) × (u.parse t ≡ some r.run_id))
            × (field "action" fields ≡ some (action_value r.action))
            × Says (field "principal" fields) r.principal)
          e
          (
            (raw_id, required_ok "run_id" fields e1, uuid_ok raw_id e2),
            required_ok "action" fields e3 ∙ ap some (action_named_ok raw_action e4),
            decode_principal_ok (field "principal" fields) e5,
          )
