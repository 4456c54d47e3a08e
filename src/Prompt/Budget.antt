-- ===== src/Prompt/Budget.antt =====
-- `truncate_tool_output`, `enforce_prompt_budget`, `summarize_for_prompt`, and the estimates of tokens.
use cyber.Base.{
  ℕ, suc, ◌+◌, ◌-◌, ◌*◌, ◌/◌, max, Bool, true, false, not, ◌==◌, ltb, leb, if◌then◌else◌, List, [],
  ◌∷◌, ◌++◌, keep, length, take, drop, Text, codes, decimal,
}
use cyber.Base.Errors.{value_error, Result, ok, err}

-- `MessageRole`
pub data MessageRole : Type 0 where
  system user assistant : MessageRole

-- `LLMMessage`
pub record LlmMessage : Type 0 where
  pub role : MessageRole
  pub content : Text

-- `LLMMessage.char_count`
unfoldable pub char_count : LlmMessage → ℕ
char_count m = length m.content

-- `estimate_tokens`: the ceiling of a length over 3.6.
unfoldable pub estimate_tokens : Text → ℕ
estimate_tokens [] = 0
estimate_tokens (c ∷ text) = max 1 ((length (c ∷ text) * 10 + 35) / 36)

-- `estimate_messages_tokens`
unfoldable pub estimate_messages_tokens : List LlmMessage → ℕ
estimate_messages_tokens [] = 0
estimate_messages_tokens (m ∷ messages) =
    estimate_tokens m.content + 4 + estimate_messages_tokens messages

-- `TRUNCATION_NOTICE.format(...)`
unfoldable pub truncation_notice : (dropped : ℕ) → (label : Text) → (kept total : ℕ) → Text
truncation_notice dropped label kept total =
    10 ∷ 10 ∷ codes "[... "
    ++ decimal dropped
    ++ codes " characters of "
    ++ label
    ++ codes " output omitted. This is a TRUNCATED fragment: "
    ++ decimal kept
    ++ codes " of "
    ++ decimal total
    ++ codes
        " characters are shown. Do not draw conclusions about the omitted portion, and say so if the answer depends on it. ...]"

-- `usable`, of a limit and the length of the notice.
unfoldable pub usable_chars : (limit notice_budget : ℕ) → ℕ
usable_chars limit notice_budget = max (limit - notice_budget) (limit / 2)

-- `truncate_tool_output`, for a limit that is positive.
unfoldable pub clamp : (limit : ℕ) → (label text : Text) → Text × Bool
clamp limit label text =
    if leb (length text) limit
    then (text, false)
    else (let total = length text in
        let usable = usable_chars limit (length (truncation_notice total label limit total)) in
        let head_len = usable * 2 / 3 in
        let tail_len = usable - head_len in
        let head = take head_len text in
        let tail = drop (total - tail_len) text in
        let kept = length head + length tail in
        (head ++ truncation_notice (total - kept) label kept total ++ 10 ∷ tail, true))

-- `truncate_tool_output`
unfoldable pub truncate_tool_output : (limit : ℕ) → (label text : Text) → Result (Text × Bool)
truncate_tool_output limit label text =
    if limit == 0 then err value_error else ok (clamp limit label text)

-- `sum(m.char_count for m in messages)`
unfoldable pub total_chars : List LlmMessage → ℕ
unfolding char_count
total_chars [] = 0
total_chars (m ∷ messages) = char_count m + total_chars messages

-- `m.role == "system"`
unfoldable pub is_system : LlmMessage → Bool
is_system m = elim m.role [ MessageRole.system ↦ true | _ ↦ false ]

-- The newest turn, cut to what is left.
unfoldable pub cut_turn : (limit used : ℕ) → LlmMessage → LlmMessage
cut_turn limit used m = record m {
  content = (clamp (max (limit - used) 2000) (codes "conversation") m.content).0;
}

-- The loop of `enforce_prompt_budget`, newest first; what is left of the limit, which may be less than
-- nothing, is the limit less what is used. `kept` is in the order of the conversation.
unfoldable pub fit : (limit used : ℕ) → (kept older : List LlmMessage) → List LlmMessage
unfolding char_count
fit limit used kept [] = kept
fit limit used kept (m ∷ older) = elim (leb (used + char_count m) limit) [
  | true ↦ fit limit (used + char_count m) (m ∷ kept) older
  | false ↦ elim kept [
    | [] ↦ fit limit limit (cut_turn limit used m ∷ []) older
    | k ∷ rest ↦ fit limit used (k ∷ rest) older
  ]
]

unfoldable pub reversed : List LlmMessage → List LlmMessage → List LlmMessage
reversed [] done = done
reversed (m ∷ messages) done = reversed messages (m ∷ done)

-- The marker of the turns that were dropped.
unfoldable pub dropped_marker : ℕ → LlmMessage
dropped_marker dropped = record {
  role = MessageRole.user;
  content =
      codes "["
      ++ decimal dropped
      ++ codes
          " earlier turn(s) omitted to fit the context budget. Refer to the conversation summary above for their content.]";
}

-- `kept.insert(0, marker)`, when a turn was dropped.
unfoldable pub mark_dropped : ℕ → List LlmMessage → List LlmMessage
mark_dropped dropped kept = if dropped == 0 then kept else dropped_marker dropped ∷ kept

-- The turns that are kept of a conversation.
unfoldable pub kept_turns : (limit used : ℕ) → List LlmMessage → List LlmMessage
kept_turns limit used conversation = fit limit used [] (reversed conversation [])

-- `enforce_prompt_budget`
unfoldable pub enforce_prompt_budget : (limit : ℕ) → List LlmMessage → Result (List LlmMessage)
enforce_prompt_budget limit messages =
    if limit == 0
    then err value_error
    else if leb (total_chars messages) limit
    then ok messages
    else (let prompt = keep is_system messages in
        let conversation = keep (λ m. not (is_system m)) messages in
        let kept = kept_turns limit (total_chars prompt) conversation in
        ok (prompt ++ mark_dropped (length conversation - length kept) kept))

-- The line of a record.
unfoldable pub item_line : ℕ → Text → Text
item_line index item = decimal (suc index) ++ codes ". " ++ item

-- The loop of `summarize_for_prompt`: the lines.
unfoldable pub summary_lines :
    (limit : ℕ) → (label : Text) → (used index : ℕ) → List Text → List Text
summary_lines limit label used index [] = []
summary_lines limit label used index (item ∷ items) =
    let line = item_line index item in
    let rest = summary_lines limit label (used + length line + 1) (suc index) items in
    if ltb limit (used + length line + 1)
    then (codes "["
        ++ decimal (length (item ∷ items))
        ++ codes " further "
        ++ label
        ++ codes " omitted for length.]")
      ∷ []
    else line ∷ rest

-- `"\n".join(lines)`
unfoldable pub join_lines : List Text → Text
join_lines [] = []
join_lines (line ∷ []) = line
join_lines (line ∷ next ∷ lines) = line ++ 10 ∷ join_lines (next ∷ lines)

-- `summarize_for_prompt`
unfoldable pub summarize_for_prompt : (limit : ℕ) → (label : Text) → List Text → Text
summarize_for_prompt limit label items = join_lines (summary_lines limit label 0 0 items)
