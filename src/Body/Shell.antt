-- ===== src/Body/Shell.antt =====
-- src/body.rs: the blocks of `analyze_shell_body`, over the tokens of a body.
use bbtidy.Base.{
  ℕ, ◌+◌, Option, none, some, Bool, true, false, not, ◌&&◌, ◌||◌, List, [], ◌∷◌, ◌++◌,
  if◌then◌else◌,
}
use bbtidy.Text.{Text, text, text_eq}
use bbtidy.Syntax.Tree.{TextRange, range}
use bbtidy.Body.Diagnostics.{shell_syntax, BodyDiagnostic, sort_body_diagnostics}

pub data ShellBlockKind : Type 0 where
  if_block loop_block case_block : ShellBlockKind

pub data ShellBlockPhase : Type 0 where
  if_condition if_body if_else loop_header loop_body case_header case_patterns case_commands :
      ShellBlockPhase

pub record ShellBlock : Type 0 where
  pub kind : ShellBlockKind
  pub offset : ℕ
  pub phase : ShellBlockPhase

-- The variants `None`, `CasePatternEnd` and `CaseArmEnd`.
pub data ShellBoundary : Type 0 where
  no_boundary case_pattern_end case_arm_end : ShellBoundary

pub record ShellToken : Type 0 where
  pub word : Text
  pub range : TextRange
  pub command_position : Bool
  pub boundary : ShellBoundary

-- What a token does: it leaves the innermost block as it is, changes its phase, closes it, opens a
-- block inside it, or is wrong there.
pub data Reaction : Type 0 where
  keeps : Reaction
  changes : ShellBlockPhase → Reaction
  closes : Reaction
  opens : ShellBlockKind → ShellBlockPhase → Reaction
  wrong : Text → Reaction

abbrev pub at_phase : ShellBlockKind → ShellBlockPhase → ShellBlockKind → ShellBlockPhase → Bool
at_phase if_block if_condition if_block if_condition = true
at_phase if_block if_body if_block if_body = true
at_phase if_block if_else if_block if_else = true
at_phase loop_block loop_header loop_block loop_header = true
at_phase loop_block loop_body loop_block loop_body = true
at_phase case_block case_header case_block case_header = true
at_phase case_block case_patterns case_block case_patterns = true
at_phase case_block case_commands case_block case_commands = true
at_phase _ _ _ _ = false

-- Whether the innermost block, if there is one, has a kind and a phase.
abbrev pub is_in : ShellBlockKind → ShellBlockPhase → Option ShellBlock → Bool
is_in kind phase none = false
is_in kind phase (some block) = at_phase kind phase block.kind block.phase

abbrev pub is_pattern_end : ShellBoundary → Bool
is_pattern_end case_pattern_end = true
is_pattern_end _ = false

abbrev pub is_arm_end : ShellBoundary → Bool
is_arm_end case_arm_end = true
is_arm_end _ = false

-- The tokens of a case block that are settled before its words are looked at.
unfoldable pub case_reaction : ShellToken → Option ShellBlock → Option Reaction
case_reaction token innermost =
    if is_pattern_end token.boundary && is_in case_block case_patterns innermost
    then some (changes case_commands)
    else if is_arm_end token.boundary && is_in case_block case_commands innermost
    then some (changes case_patterns)
    else if is_in case_block case_patterns innermost
    then if text_eq token.word (text "in") && not token.command_position
      then some keeps
      else if not (text_eq token.word (text "esac"))
      then some keeps
      else none
    else none

-- What a reserved word needs of the innermost block, and what it does there.
abbrev change : Bool → Reaction → Text → Reaction
change valid reaction message = if valid then reaction else wrong message

-- The reaction of a word at the start of a command to the innermost block.
unfoldable pub command_reaction : Text → Option ShellBlock → Reaction
command_reaction word innermost =
    if text_eq word (text "if")
    then opens if_block if_condition
    else if text_eq word (text "for")
        || text_eq word (text "while")
        || text_eq word (text "until")
        || text_eq word (text "select")
    then opens loop_block loop_header
    else if text_eq word (text "case")
    then opens case_block case_header
    else if text_eq word (text "then")
    then change (is_in if_block if_condition innermost) (changes if_body)
        (text "shell 'then' is not valid in the current if phase")
    else if text_eq word (text "elif")
    then change (is_in if_block if_body innermost) (changes if_condition)
        (text "shell 'elif' is not valid in the current if phase")
    else if text_eq word (text "else")
    then change (is_in if_block if_body innermost) (changes if_else)
        (text "shell 'else' is not valid in the current if phase")
    else if text_eq word (text "fi")
    then change (is_in if_block if_body innermost || is_in if_block if_else innermost) closes
        (text "shell 'fi' does not match the open if block")
    else if text_eq word (text "do")
    then change (is_in loop_block loop_header innermost) (changes loop_body)
        (text "shell 'do' is not valid in the current loop phase")
    else if text_eq word (text "done")
    then change (is_in loop_block loop_body innermost) closes
        (text "shell 'done' does not match the open loop block")
    else if text_eq word (text "esac")
    then change
        (is_in case_block case_patterns innermost || is_in case_block case_commands innermost)
        closes (text "shell 'esac' does not match the open case block")
    else keeps

-- The reaction to any token; `in` behind the word of a `case` begins its patterns.
unfoldable pub reaction : ShellToken → Option ShellBlock → Reaction
unfolding case_reaction command_reaction
reaction token innermost = elim (case_reaction token innermost) [
  | some settled ↦ settled
  | none ↦
      if not token.command_position
      then if text_eq token.word (text "in") && is_in case_block case_header innermost
        then changes case_patterns
        else keeps
      else command_reaction token.word innermost
]

abbrev pub innermost_of : List ShellBlock → Option ShellBlock
innermost_of [] = none
innermost_of (block ∷ blocks) = some block

-- `block.phase = phase` and `blocks.pop()`
abbrev pub with_phase : ShellBlockPhase → List ShellBlock → List ShellBlock
with_phase phase [] = []
with_phase phase (block ∷ blocks) = record block { phase = phase } ∷ blocks

abbrev pub popped : List ShellBlock → List ShellBlock
popped [] = []
popped (block ∷ blocks) = blocks

abbrev closing_word : ShellBlockKind → Text
closing_word if_block = text "fi"
closing_word loop_block = text "done"
closing_word case_block = text "esac"

abbrev pub missing_closing : ShellBlock → BodyDiagnostic
missing_closing block = record {
  kind = shell_syntax;
  range = range block.offset (block.offset + 1);
  message = text "shell block is missing closing '" ++ closing_word block.kind ++ text "'";
}

unfoldable pub missing_closings : List ShellBlock → List BodyDiagnostic
missing_closings [] = []
missing_closings (block ∷ blocks) = missing_closing block ∷ missing_closings blocks

-- `push_shell_error`
abbrev pub shell_error : ShellToken → Text → BodyDiagnostic
shell_error token message = record { kind = shell_syntax; range = token.range; message = message }

abbrev pub new_block : ShellToken → ShellBlockKind → ShellBlockPhase → ShellBlock
new_block token kind phase = record { kind = kind; offset = token.range.start; phase = phase }

-- The loop over the tokens, the innermost block first. Behind the first error no token is looked
-- at and no block is reported.
unfoldable pub read_tokens : List ShellToken → List ShellBlock → List BodyDiagnostic
unfolding reaction missing_closings
read_tokens [] blocks = missing_closings blocks
read_tokens (token ∷ tokens) blocks = elim (reaction token (innermost_of blocks)) [
  | keeps ↦ read_tokens tokens blocks
  | changes phase ↦ read_tokens tokens (with_phase phase blocks)
  | closes ↦ read_tokens tokens (popped blocks)
  | opens kind phase ↦ read_tokens tokens (new_block token kind phase ∷ blocks)
  | wrong message ↦ shell_error token message ∷ []
]

unfoldable pub analyze_shell_tokens : List ShellToken → List BodyDiagnostic
unfolding read_tokens sort_body_diagnostics
analyze_shell_tokens tokens = sort_body_diagnostics (read_tokens tokens [])
