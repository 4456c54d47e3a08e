-- ===== src/Tests/Prompts.antt =====
-- backend/app/llm/budget.py on a short conversation.
use cyber.Base.{◌+◌, ◌≤◌, ◌≡◌, refl, [], ◌∷◌, arith, codes, keep}
use cyber.Base.Errors.{ok}
use cyber.Prompt.Budget.{
  MessageRole, LlmMessage, char_count, total_chars, is_system, fit, reversed, mark_dropped,
  dropped_marker, kept_turns, enforce_prompt_budget,
}
use cyber.Prompt.Kept.{system_kept}

abbrev rules : LlmMessage
rules = record { role = MessageRole.system; content = codes "be safe" }

abbrev greeting : LlmMessage
greeting = record { role = MessageRole.user; content = codes "hi" }

abbrev long_answer : LlmMessage
long_answer = record { role = MessageRole.assistant; content = codes "a long answer.." }

abbrev question : LlmMessage
question = record { role = MessageRole.user; content = codes "why" }

-- The greeting, which is older, is kept, and the answer after it is dropped.
cuts :
    enforce_prompt_budget 20 (rules ∷ greeting ∷ long_answer ∷ question ∷ [])
    ≡ ok (rules ∷ dropped_marker 1 ∷ greeting ∷ question ∷ [])
unfolding enforce_prompt_budget total_chars char_count is_system kept_turns fit reversed
    mark_dropped
cuts = refl

system_kept_example :
    keep is_system (rules ∷ dropped_marker 1 ∷ greeting ∷ question ∷ [])
    ≡ keep is_system (rules ∷ greeting ∷ long_answer ∷ question ∷ [])
system_kept_example =
    system_kept 20 (rules ∷ greeting ∷ long_answer ∷ question ∷ [])
      (rules ∷ dropped_marker 1 ∷ greeting ∷ question ∷ []) cuts

fits : 7 + char_count question ≤ 20
unfolding char_count
fits = omega arith
