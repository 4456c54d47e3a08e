-- ===== src/Events/Stream.antt =====
-- The buffer that publications leave, and what a late subscriber makes of it.
use mathlib.Core.List.{map-append}
use cyber.Base.{
  ℕ, zero, suc, ◌+◌, ◌-◌, ◌≤◌, ◌<◌, ◌≡◌, refl, sym, ap, ◌∙◌, true, Bool-cases, inl, inr, arith,
  Option, none, some, List, [], ◌∷◌, ◌++◌, map, ltb, leb, length, drop, Text, length-append,
  length-keep-le,
}
use cyber.Redis.{Key}
use cyber.Events.Bus.{
  AgentEvent, Bus, Codec, last_n, items_at, replay_limit, replay_ttl, fitted, pushed, publish,
  parsed, replay, highest, live, subscribe,
}
use cyber.Events.Replay.{Increasing, newer, newer-drop, newer-append, Increasing-left, live_rest}

drop-append : (k : ℕ) (xs ys : List Text) → k ≤ length xs → drop k xs ++ ys ≡ drop k (xs ++ ys)
drop-append zero xs ys h = refl
drop-append (suc k) [] ys h = ground (arith, h)
drop-append (suc k) (x ∷ xs) ys h = drop-append k xs ys (omega (arith, h))

drop-suc : (k : ℕ) (xs : List Text) → drop 1 (drop k xs) ≡ drop (suc k) xs
drop-suc zero xs = refl
drop-suc (suc k) [] = refl
drop-suc (suc k) (x ∷ xs) = drop-suc k xs

length-drop : (k : ℕ) (xs : List Text) → length (drop k xs) ≡ length xs - k
length-drop zero xs = omega arith
length-drop (suc k) [] = omega arith
length-drop (suc k) (x ∷ xs) = omega (arith, length-drop k xs)

-- Trimming before a push and trimming after it keep the same entries.
last_n-last_n :
    (n : ℕ) (xs : List Text) (t : Text)
    → last_n (suc n) (last_n (suc n) xs ++ t ∷ []) ≡ last_n (suc n) (xs ++ t ∷ [])
unfolding last_n
last_n-last_n n xs t = elim (Bool-cases (leb (suc n) (length xs))) [
  | inl long ↦
      let le : suc n ≤ length xs = ground (arith, long) in
      let k = length xs - suc n in
      let cut : length (drop k xs ++ t ∷ []) - suc n ≡ 1 =
        omega (arith, length-append (drop k xs) (t ∷ []), length-drop k xs, le) in
      let whole : length (xs ++ t ∷ []) - suc n ≡ suc k =
        omega (arith, length-append xs (t ∷ []), le) in
      ap (λ m. drop m (drop k xs ++ t ∷ [])) cut
      ∙ ap (drop 1) (drop-append k xs (t ∷ []) (omega arith))
      ∙ drop-suc k (xs ++ t ∷ [])
      ∙ sym (ap (λ m. drop m (xs ++ t ∷ [])) whole)
  | inr short ↦
      let none_cut : length xs - suc n ≡ 0 = ground (arith, short) in
      ap (λ m. drop (length (drop m xs ++ t ∷ []) - suc n) (drop m xs ++ t ∷ [])) none_cut
]

module _ (c : Codec) where
  -- How a bus comes about: the events that were sent, as they were sent, and when the last was.
  pub data Published : List AgentEvent → ℕ → Bus → Type 0 where
    opened :
        (now : ℕ) (counter : Option Key)
        → Published [] now (record { counter = counter; buffer = none })
    numbered :
        (es : List AgentEvent) (t : ℕ) (b : Bus) (counter : Option Key)
        → Published es t b
        → Published es t (record b { counter = counter })
    sent :
        (es : List AgentEvent) (t : ℕ) (b : Bus) (now : ℕ) (e : AgentEvent)
        → Published es t b
        → now < t + replay_ttl
        → Published (es ++ fitted c e ∷ []) now (publish c true now e b).0

  items_at-pushed :
      (now later : ℕ) (t : Text) (b : Bus)
      → later < now + replay_ttl
      → items_at later (pushed c now t b).buffer
        ≡ last_n replay_limit (items_at now b.buffer ++ t ∷ [])
  unfolding pushed items_at
  items_at-pushed now later t b h = ground (arith, h)

  -- While it lasts, the buffer has the last twenty entries.
  items_at-Published :
      (es : List AgentEvent) (t : ℕ) (b : Bus) (now : ℕ)
      → Published es t b
      → now < t + replay_ttl
      → items_at now b.buffer ≡ last_n replay_limit (map c.dumps es)
  unfolding publish items_at
  items_at-Published es t b now (opened start counter) h = refl
  items_at-Published es t b now (numbered same last b' counter p) h =
      items_at-Published same last b' now p h
  items_at-Published es t b now (sent es' last b' time e p soon) h =
      items_at-pushed time now (c.dumps (fitted c e)) b' h
      ∙ ap (λ xs. last_n replay_limit (xs ++ c.dumps (fitted c e) ∷ []))
          (items_at-Published es' last b' time p soon)
      ∙ last_n-last_n 19 (map c.dumps es') (c.dumps (fitted c e))
      ∙ ap (last_n replay_limit) (sym (map-append c.dumps es' (fitted c e ∷ [])))

  parsed-map :
      ((e : AgentEvent) → c.loads (c.dumps e) ≡ some e)
      → (es : List AgentEvent) → parsed c (map c.dumps es) ≡ es
  unfolding parsed
  parsed-map reads [] = refl
  parsed-map reads (e ∷ es) = rw (reads e, parsed) (ap (λ xs. e ∷ xs) (parsed-map reads es))

  last_n-map :
      (n : ℕ) (es : List AgentEvent)
      → last_n n (map c.dumps es) ≡ map c.dumps (drop (length es - n) es)
  unfolding last_n
  last_n-map n es =
      ap (λ m. drop (m - n) (map c.dumps es)) (length-map es) ∙ drop-map (length es - n) es
    where
      length-map : (xs : List AgentEvent) → length (map c.dumps xs) ≡ length xs
      length-map [] = refl
      length-map (x ∷ xs) = ap suc (length-map xs)

      drop-map : (k : ℕ) (xs : List AgentEvent) → drop k (map c.dumps xs) ≡ map c.dumps (drop k xs)
      drop-map zero xs = refl
      drop-map (suc k) [] = refl
      drop-map (suc k) (x ∷ xs) = drop-map k xs

  length-newer : (h : ℕ) (es : List AgentEvent) → length (newer h es) ≤ length es
  length-newer h es = length-keep-le (λ e. ltb h e.seq) es

  -- A subscriber is given each event once, in order, that is newer than the last one it has seen: what
  -- was sent before it subscribed, while it read the backlog, and after. The numbers of the events
  -- grow, no more than twenty of them were missed, and the buffer has not expired.
  pub subscribe-Published :
      ((e : AgentEvent) → c.loads (c.dumps e) ≡ some e)
      → (before during after : List AgentEvent) (t : ℕ) (b : Bus) (now after_seq : ℕ)
      → Published (before ++ during) t b
      → now < t + replay_ttl
      → Increasing ((before ++ during) ++ after)
      → length (newer after_seq (before ++ during)) ≤ replay_limit
      → subscribe c now after_seq b (map c.dumps (during ++ after))
        ≡ newer after_seq ((before ++ during) ++ after)
  unfolding subscribe replay
  subscribe-Published reads before during after t b now a p soon grows few =
      let seen = before ++ during in
      let sent_before = Increasing-left seen after grows in
      let backlog : replay c now a b ≡ newer a seen =
        ap (λ xs. newer a (parsed c xs))
          (items_at-Published seen t b now p soon ∙ last_n-map replay_limit seen)
        ∙ ap (newer a) (parsed-map reads (drop (length seen - replay_limit) seen))
        ∙ newer-drop a (length seen - replay_limit) seen sent_before
            (omega (arith, few, length-newer a seen)) in
      ap (λ xs. xs ++ live (highest a xs) (parsed c (map c.dumps (during ++ after)))) backlog
      ∙ ap (λ xs. newer a seen ++ live (highest a (newer a seen)) xs)
          (parsed-map reads (during ++ after))
      ∙ ap (λ xs. newer a seen ++ xs) (live_rest a before during after grows)
      ∙ sym (newer-append a seen after)
