-- ===== src/Prompt/Kept.antt =====
-- What a prompt that was cut down still says.
use cyber.Base.{
  ℕ, ◌+◌, ◌-◌, All, ◌≤◌, ◌≡◌, refl, sym, ap, subst, ◌∙◌, true, false, not, Bool-cases, leb→le, inl,
  inr, arith, leb, List, [], ◌∷◌, ◌++◌, keep, length, ◌==◌,
}
use cyber.Base.Errors.{ok, refuse-ok, either-ok, ok_inj}
use cyber.Prompt.Budget.{
  LlmMessage, char_count, total_chars, is_system, cut_turn, fit, reversed, dropped_marker,
  mark_dropped, kept_turns, enforce_prompt_budget,
}

-- Some of the turns, in their order.
pub data IsPart : List LlmMessage → List LlmMessage → Type 0 where
  nothing : {ys : List LlmMessage} → IsPart [] ys
  with : {x : LlmMessage} {xs ys : List LlmMessage} → IsPart xs ys → IsPart (x ∷ xs) (x ∷ ys)
  without : {y : LlmMessage} {xs ys : List LlmMessage} → IsPart xs ys → IsPart xs (y ∷ ys)

only_last : (ys : List LlmMessage) (m : LlmMessage) → IsPart (m ∷ []) (ys ++ m ∷ [])
only_last [] m = with nothing
only_last (y ∷ ys) m = without (only_last ys m)

IsPart-last :
    {xs ys : List LlmMessage} (m : LlmMessage) → IsPart xs ys → IsPart (xs ++ m ∷ []) (ys ++ m ∷ [])
IsPart-last {ys = ys} m nothing = only_last ys m
IsPart-last m (with part) = with (IsPart-last m part)
IsPart-last m (without part) = without (IsPart-last m part)

IsPart_before : {xs ys : List LlmMessage} (m : LlmMessage) → IsPart xs ys → IsPart xs (ys ++ m ∷ [])
IsPart_before m nothing = nothing
IsPart_before m (with part) = with (IsPart_before m part)
IsPart_before m (without part) = without (IsPart_before m part)

append_assoc : (xs ys zs : List LlmMessage) → (xs ++ ys) ++ zs ≡ xs ++ (ys ++ zs)
append_assoc [] ys zs = refl
append_assoc (x ∷ xs) ys zs = ap (λ t. x ∷ t) (append_assoc xs ys zs)

reversed_onto : (xs done : List LlmMessage) → reversed xs done ≡ reversed xs [] ++ done
unfolding reversed
reversed_onto [] done = refl
reversed_onto (x ∷ xs) done =
    reversed_onto xs (x ∷ done)
    ∙ sym (append_assoc (reversed xs []) (x ∷ []) done)
    ∙ ap (λ t. t ++ done) (sym (reversed_onto xs (x ∷ [])))

reversed-append :
    (xs : List LlmMessage) (m : LlmMessage) (done : List LlmMessage)
    → reversed (xs ++ m ∷ []) done ≡ m ∷ reversed xs done
unfolding reversed
reversed-append [] m done = refl
reversed-append (x ∷ xs) m done = reversed-append xs m (x ∷ done)

reversed-reversed : (xs : List LlmMessage) → reversed (reversed xs []) [] ≡ xs
unfolding reversed
reversed-reversed [] = refl
reversed-reversed (x ∷ xs) =
    ap (λ t. reversed t []) (reversed_onto xs (x ∷ []))
    ∙ reversed-append (reversed xs []) x []
    ∙ ap (λ t. x ∷ t) (reversed-reversed xs)

total_chars-append :
    (xs : List LlmMessage) (m : LlmMessage)
    → total_chars (xs ++ m ∷ []) ≡ total_chars xs + char_count m
unfolding total_chars
total_chars-append [] m = omega arith
total_chars-append (x ∷ xs) m = omega (arith, total_chars-append xs m)

fit_fits :
    (limit used : ℕ) (kept older : List LlmMessage) (m : LlmMessage)
    → leb (used + char_count m) limit ≡ true
    → fit limit used kept (m ∷ older) ≡ fit limit (used + char_count m) (m ∷ kept) older
unfolding fit
fit_fits limit used kept older m h = rw (h, fit) refl

fit_large :
    (limit used : ℕ) (k : LlmMessage) (rest older : List LlmMessage) (m : LlmMessage)
    → leb (used + char_count m) limit ≡ false
    → fit limit used (k ∷ rest) (m ∷ older) ≡ fit limit used (k ∷ rest) older
unfolding fit
fit_large limit used k rest older m h = rw (h, fit) refl

fit_cut :
    (limit used : ℕ) (older : List LlmMessage) (m : LlmMessage)
    → leb (used + char_count m) limit ≡ false
    → fit limit used [] (m ∷ older) ≡ fit limit limit (cut_turn limit used m ∷ []) older
unfolding fit
fit_cut limit used older m h = rw (h, fit) refl

-- Once a turn is kept, what the loop puts before it fits and is in the order of the conversation.
fit_before :
    (limit used : ℕ) (k : LlmMessage) (rest older : List LlmMessage)
    → used ≤ limit
    → (front : List LlmMessage) × (fit limit used (k ∷ rest) older ≡ front ++ k ∷ rest)
      × IsPart front (reversed older [])
      × (used + total_chars front ≤ limit)
unfolding fit reversed total_chars
fit_before limit used k rest [] le = ([], refl, nothing, omega (arith, le))
fit_before limit used k rest (m ∷ older) le = elim (Bool-cases (leb (used + char_count m) limit)) [
  | inl fits ↦
      let (front, same, part, bound) =
        fit_before limit (used + char_count m) m (k ∷ rest) older (leb→le _ _ fits) in
      (
        front ++ m ∷ [],
        fit_fits limit used (k ∷ rest) older m fits
            ∙ (same ∙ sym (append_assoc front (m ∷ []) (k ∷ rest))),
        subst (IsPart (front ++ m ∷ [])) (sym (reversed_onto older (m ∷ []))) (IsPart-last m part),
        omega (arith, bound, total_chars-append front m),
      )
  | inr large ↦
      let (front, same, part, bound) = fit_before limit used k rest older le in
      (
        front,
        fit_large limit used k rest older m large ∙ same,
        subst (IsPart front) (sym (reversed_onto older (m ∷ []))) (IsPart_before m part),
        bound,
      )
]

-- When the newest turn fits beside what is used, it is kept as it is, after turns of the conversation in
-- their order, and all of it fits.
pub kept_turns_lem :
    (limit used : ℕ) (older : List LlmMessage) (newest : LlmMessage)
    → used + char_count newest ≤ limit
    → (front : List LlmMessage) × (kept_turns limit used (older ++ newest ∷ [])
        ≡ front ++ newest ∷ [])
      × IsPart front older
      × (used + total_chars (front ++ newest ∷ []) ≤ limit)
unfolding kept_turns fit
kept_turns_lem limit used older newest le =
    let fits : leb (used + char_count newest) limit ≡ true = ground (arith, le) in
    let (front, same, part, bound) =
      fit_before limit (used + char_count newest) newest [] (reversed older []) le in
    (
      front,
      rw (reversed-append older newest [])
          (fit_fits limit used [] (reversed older []) newest fits ∙ same),
      subst (IsPart front) (reversed-reversed older) part,
      omega (arith, bound, total_chars-append front newest),
    )

-- Turns that are not the system's.
abbrev AllTurns : List LlmMessage → Type 0
AllTurns messages = All (λ m. is_system m ≡ false) messages

AllTurns-keep : (messages : List LlmMessage) → AllTurns (keep (λ m. not (is_system m)) messages)
AllTurns-keep [] = tt
AllTurns-keep (m ∷ messages) = elim (Bool-cases (is_system m)) [
  | inl system_turn ↦ rw system_turn (AllTurns-keep messages)
  | inr turn ↦ rw turn (turn, AllTurns-keep messages)
]

AllTurns-reversed :
    (xs done : List LlmMessage) → AllTurns xs → AllTurns done → AllTurns (reversed xs done)
unfolding reversed
AllTurns-reversed [] done all turns = turns
AllTurns-reversed (x ∷ xs) done (here, all) turns =
    AllTurns-reversed xs (x ∷ done) all (here, turns)

AllTurns-fit :
    (limit used : ℕ) (kept older : List LlmMessage)
    → AllTurns kept
    → AllTurns older
    → AllTurns (fit limit used kept older)
unfolding fit cut_turn is_system
AllTurns-fit limit used kept [] turns all = turns
AllTurns-fit limit used [] (m ∷ older) turns (here, all) =
    elim (Bool-cases (leb (used + char_count m) limit)) [
      | inl fits ↦
          rw (fit_fits limit used [] older m fits)
            (AllTurns-fit limit (used + char_count m) (m ∷ []) older (here, tt) all)
      | inr large ↦
          rw (fit_cut limit used older m large)
            (AllTurns-fit limit limit (cut_turn limit used m ∷ []) older (here, tt) all)
    ]
AllTurns-fit limit used (k ∷ rest) (m ∷ older) turns (here, all) =
    elim (Bool-cases (leb (used + char_count m) limit)) [
      | inl fits ↦
          rw (fit_fits limit used (k ∷ rest) older m fits)
            (AllTurns-fit limit (used + char_count m) (m ∷ k ∷ rest) older (here, turns) all)
      | inr large ↦
          rw (fit_large limit used k rest older m large)
            (AllTurns-fit limit used (k ∷ rest) older turns all)
    ]

keep-append :
    (xs ys : List LlmMessage) → keep is_system (xs ++ ys) ≡ keep is_system xs ++ keep is_system ys
keep-append [] ys = refl
keep-append (x ∷ xs) ys = ground (arith, keep-append xs ys)

keep-keep : (xs : List LlmMessage) → keep is_system (keep is_system xs) ≡ keep is_system xs
keep-keep [] = refl
keep-keep (x ∷ xs) = ground (arith, keep-keep xs)

keep-AllTurns : (xs : List LlmMessage) → AllTurns xs → keep is_system xs ≡ []
keep-AllTurns [] all = refl
keep-AllTurns (x ∷ xs) (here, all) = rw here (keep-AllTurns xs all)

keep-mark_dropped :
    (dropped : ℕ) (kept : List LlmMessage)
    → AllTurns kept
    → keep is_system (mark_dropped dropped kept) ≡ []
unfolding mark_dropped dropped_marker is_system
keep-mark_dropped dropped kept all = ground (arith, keep-AllTurns kept all)

append_nil : (xs : List LlmMessage) → xs ++ [] ≡ xs
append_nil [] = refl
append_nil (x ∷ xs) = ap (λ t. x ∷ t) (append_nil xs)

-- The instructions of the system are never cut, dropped or put in another order.
pub system_kept :
    (limit : ℕ) (messages answer : List LlmMessage)
    → enforce_prompt_budget limit messages ≡ ok answer
    → keep is_system answer ≡ keep is_system messages
unfolding enforce_prompt_budget kept_turns
system_kept limit messages answer h =
    let (positive, h1) = refuse-ok (limit == 0) _ _ h in
    elim (either-ok (leb (total_chars messages) limit) messages _ h1) [
      | inl same ↦ ap (keep is_system) (sym same)
      | inr built ↦
          let conversation = keep (λ m. not (is_system m)) messages in
          let prompt = keep is_system messages in
          let kept = kept_turns limit (total_chars prompt) conversation in
          let turns : AllTurns kept =
            AllTurns-fit limit (total_chars prompt) [] (reversed conversation []) tt
              (AllTurns-reversed conversation [] (AllTurns-keep messages) tt) in
          ap (keep is_system) (sym (ok_inj built))
          ∙ keep-append prompt (mark_dropped (length conversation - length kept) kept)
          ∙ ap (λ t. keep is_system prompt ++ t)
              (keep-mark_dropped (length conversation - length kept) kept turns)
          ∙ append_nil (keep is_system prompt)
          ∙ keep-keep messages
    ]
