-- ===== src/Window/Summary.antt =====
-- The length of the bridge summary (`_build_rounds_summary` of backend/ai/core/live_window_builder.py).
use dewflow.Base.{
  ℕ, ◌≤◌, List, [], ◌∷◌, Bool-cases, inl, inr, ltb, length, arith, Chars, join, ◌||◌,
}
use dewflow.Window.Tokens.{Message}
use dewflow.Window.Builder.{
  LiveWindowBuilder, drop_oldest, summary_lines, build_rounds_summary, build, older, is_nil,
  newline, exclude_latest_query, group_history_rounds,
}

drop_oldest-length :
    (max_chars : ℕ) (lines : List Chars)
    → length (join newline (drop_oldest max_chars lines)) ≤ max_chars
unfolding drop_oldest join
drop_oldest-length max_chars [] = omega arith
drop_oldest-length max_chars (l ∷ lines) =
    elim (Bool-cases (ltb max_chars (length (join newline (l ∷ lines))))) [
      | inl long ↦ rw long (drop_oldest-length max_chars lines)
      | inr short ↦ rw short (ground arith)
    ]

summary-length :
    (self : LiveWindowBuilder) (rounds : List (List Message))
    → length (build_rounds_summary self rounds) ≤ self.summary_max_chars
unfolding build_rounds_summary
summary-length self rounds =
    drop_oldest-length self.summary_max_chars (summary_lines self.snippet_chars rounds)

-- The bridge summary is never longer than its limit, whatever the history and the budget.
pub build-summary-length :
    (self : LiveWindowBuilder) (history : List Message) (current_query : Chars) (budget : ℕ)
    → length (build self history current_query budget).bridge_summary ≤ self.summary_max_chars
unfolding build
build-summary-length self history current_query budget =
    elim (Bool-cases (is_nil history || is_nil (exclude_latest_query history current_query))) [
      | inl empty ↦ rw empty (omega arith)
      | inr some_left ↦ rw some_left (
          summary-length self (
            older self.recent_rounds
              (group_history_rounds (exclude_latest_query history current_query))))
    ]
