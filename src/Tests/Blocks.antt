-- ===== src/Tests/Blocks.antt =====
-- Runs of the shell analysis of src/body.rs on the tokens of small bodies.
use bbtidy.Base.{String, ℕ, ◌+◌, ◌≡◌, ◌↔◌, refl, Bool, true, false, List, [], ◌∷◌}
use bbtidy.Base.Sorting.{insert_sorted, sort_by}
use bbtidy.Text.{text, text_eq}
use bbtidy.Text.Maps.{lex_lt}
use bbtidy.Syntax.Tree.{range}
use bbtidy.Body.Diagnostics.{shell_syntax, dedup, dedup_behind, sort_body_diagnostics}
use bbtidy.Body.Shell.{
  ShellToken, ShellBoundary, no_boundary, case_pattern_end, case_arm_end, case_reaction,
  command_reaction, reaction, missing_closings, read_tokens, analyze_shell_tokens,
}
use bbtidy.Body.Nesting.{WellNested, analyze_shell_tokens-WellNested}

abbrev token : String → ℕ → Bool → ShellBoundary → ShellToken
token word start command_position boundary = record {
  word = text word;
  range = range start (start + 1);
  command_position = command_position;
  boundary = boundary;
}

-- `if a; then case b in x) fi ;; esac; fi`
abbrev nested_blocks : List ShellToken
nested_blocks =
    token "if" 0 true no_boundary
    ∷ token "a" 3 true no_boundary
    ∷ token "then" 6 true no_boundary
    ∷ token "case" 11 true no_boundary
    ∷ token "b" 16 false no_boundary
    ∷ token "in" 18 false no_boundary
    ∷ token "x" 21 true no_boundary
    ∷ token ")" 22 true case_pattern_end
    ∷ token "y" 24 true no_boundary
    ∷ token ";;" 27 true case_arm_end
    ∷ token "esac" 30 true no_boundary
    ∷ token "fi" 36 true no_boundary
    ∷ []

accepted : analyze_shell_tokens nested_blocks ≡ []
unfolding analyze_shell_tokens read_tokens reaction case_reaction command_reaction missing_closings
    sort_body_diagnostics dedup dedup_behind sort_by insert_sorted text_eq lex_lt
accepted = refl

left_open :
    analyze_shell_tokens (token "if" 0 true no_boundary ∷ token "while" 3 true no_boundary ∷ [])
    ≡ record {
      kind = shell_syntax;
      range = range 0 1;
      message = text "shell block is missing closing 'fi'";
    }
      ∷ record {
        kind = shell_syntax;
        range = range 3 4;
        message = text "shell block is missing closing 'done'";
      }
      ∷ []
unfolding analyze_shell_tokens read_tokens reaction case_reaction command_reaction missing_closings
    sort_body_diagnostics dedup dedup_behind sort_by insert_sorted text_eq lex_lt
left_open = refl

-- A closing word of another block: `if a; then done` and `for a; do fi`.
not_closed :
    analyze_shell_tokens (
      token "if" 0 true no_boundary
      ∷ token "then" 6 true no_boundary
      ∷ token "done" 11 true no_boundary
      ∷ [])
    ≡ record {
      kind = shell_syntax;
      range = range 11 12;
      message = text "shell 'done' does not match the open loop block";
    }
      ∷ []
unfolding analyze_shell_tokens read_tokens reaction case_reaction command_reaction missing_closings
    sort_body_diagnostics dedup dedup_behind sort_by insert_sorted text_eq lex_lt
not_closed = refl

not_ended :
    analyze_shell_tokens (
      token "for" 0 true no_boundary
      ∷ token "do" 7 true no_boundary
      ∷ token "fi" 10 true no_boundary
      ∷ [])
    ≡ record {
      kind = shell_syntax;
      range = range 10 11;
      message = text "shell 'fi' does not match the open if block";
    }
      ∷ []
unfolding analyze_shell_tokens read_tokens reaction case_reaction command_reaction missing_closings
    sort_body_diagnostics dedup dedup_behind sort_by insert_sorted text_eq lex_lt
not_ended = refl

analyze_shell_tokens-WellNested_example :
    (analyze_shell_tokens nested_blocks ≡ []) ↔ WellNested nested_blocks
analyze_shell_tokens-WellNested_example = analyze_shell_tokens-WellNested nested_blocks
