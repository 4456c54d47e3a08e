-- ===== src/Prompt.antt =====
-- backend/app/llm/budget.py: prompts within a number of characters.
pub mod Budget
pub mod Kept
