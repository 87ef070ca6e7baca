-- ===== src/Body/Words.antt =====
-- The reserved words of `analyze_shell_body` of src/body.rs: where a token may stand, and what it
-- means there.
use bbtidy.Base.{
  ◌≡◌, ◌⊎◌, refl, ap, Option, Bool, true, false, not, ◌&&◌, ◌||◌, List, [], ◌∷◌, All, Bool-cases,
  inl, inr, if◌then◌else◌, arith,
}
use bbtidy.Text.{Text, text, text_eq, text_eq-true}
use bbtidy.Body.Phases.{Stands, is_in-Stands, is_in-either}
use bbtidy.Body.Shell.{
  ShellBlockKind, if_block, loop_block, case_block, ShellBlockPhase, if_condition, if_body, if_else,
  loop_header, loop_body, case_header, case_patterns, case_commands, ShellBlock, ShellToken,
  Reaction, keeps, changes, closes, opens, wrong, is_in, command_reaction, ShellBoundary,
  no_boundary, case_pattern_end, case_arm_end, is_pattern_end, is_arm_end,
}

abbrev pub reserved : List Text
reserved =
    text "if"
    ∷ text "for"
    ∷ text "while"
    ∷ text "until"
    ∷ text "select"
    ∷ text "case"
    ∷ text "then"
    ∷ text "elif"
    ∷ text "else"
    ∷ text "fi"
    ∷ text "do"
    ∷ text "done"
    ∷ text "esac"
    ∷ []

-- What a word at the start of a command does to the innermost block.
pub data Command (word : Text) (o : Option ShellBlock) : Reaction → Type 0 where
  if_opens : word ≡ text "if" → Command word o (opens if_block if_condition)
  for_opens : word ≡ text "for" → Command word o (opens loop_block loop_header)
  while_opens : word ≡ text "while" → Command word o (opens loop_block loop_header)
  until_opens : word ≡ text "until" → Command word o (opens loop_block loop_header)
  select_opens : word ≡ text "select" → Command word o (opens loop_block loop_header)
  case_opens : word ≡ text "case" → Command word o (opens case_block case_header)
  then_changes :
      word ≡ text "then" → Stands if_block if_condition o → Command word o (changes if_body)
  elif_changes :
      word ≡ text "elif" → Stands if_block if_body o → Command word o (changes if_condition)
  else_changes : word ≡ text "else" → Stands if_block if_body o → Command word o (changes if_else)
  do_changes :
      word ≡ text "do" → Stands loop_block loop_header o → Command word o (changes loop_body)
  fi_closes :
      word ≡ text "fi"
      → (Stands if_block if_body o ⊎ Stands if_block if_else o)
      → Command word o closes
  done_closes : word ≡ text "done" → Stands loop_block loop_body o → Command word o closes
  esac_closes :
      word ≡ text "esac"
      → (Stands case_block case_patterns o ⊎ Stands case_block case_commands o)
      → Command word o closes
  other_keeps : All (λ w. text_eq word w ≡ false) reserved → Command word o keeps

abbrev pub is_at_pattern_end : ShellToken → Option ShellBlock → Bool
is_at_pattern_end token o = is_pattern_end token.boundary && is_in case_block case_patterns o

abbrev pub is_at_arm_end : ShellToken → Option ShellBlock → Bool
is_at_arm_end token o = is_arm_end token.boundary && is_in case_block case_commands o

-- No boundary of a case block stands here, and no word of a pattern.
abbrev pub IsFree : ShellToken → Option ShellBlock → Type 0
IsFree token o =
    (is_at_pattern_end token o ≡ false)
    × (is_at_arm_end token o ≡ false)
    × ((is_in case_block case_patterns o && not (text_eq token.word (text "esac"))) ≡ false)

-- What a token means for the innermost block. A token that has no meaning there is an error.
pub data Meaning (token : ShellToken) (o : Option ShellBlock) : Reaction → Type 0 where
  pattern_ends :
      token.boundary ≡ case_pattern_end
      → Stands case_block case_patterns o
      → Meaning token o (changes case_commands)
  arm_ends :
      token.boundary ≡ case_arm_end
      → Stands case_block case_commands o
      → Meaning token o (changes case_patterns)
  in_pattern :
      is_at_pattern_end token o ≡ false
      → is_at_arm_end token o ≡ false
      → Stands case_block case_patterns o
      → text_eq token.word (text "esac") ≡ false
      → Meaning token o keeps
  subject_ends :
      IsFree token o
      → token.command_position ≡ false
      → token.word ≡ text "in"
      → Stands case_block case_header o
      → Meaning token o (changes case_patterns)
  argument :
      IsFree token o
      → token.command_position ≡ false
      → (text_eq token.word (text "in") && is_in case_block case_header o) ≡ false
      → Meaning token o keeps
  command :
      {r : Reaction}
      → IsFree token o
      → token.command_position ≡ true
      → Command token.word o r
      → Meaning token o r

-- A reaction that is meant, or an error.
pub data Sound (P : Reaction → Type 0) : Reaction → Type 0 where
  sound : {r : Reaction} → P r → Sound P r
  error : (message : Text) → Sound P (wrong message)

pub if-Sound :
    (P : Reaction → Type 0) (b : Bool) (r s : Reaction)
    → (b ≡ true → Sound P r)
    → (b ≡ false → Sound P s)
    → Sound P (if b then r else s)
if-Sound P true r s f g = f refl
if-Sound P false r s f g = g refl

pub is_pattern_end-true : (b : ShellBoundary) → is_pattern_end b ≡ true → b ≡ case_pattern_end
is_pattern_end-true case_pattern_end e = refl
is_pattern_end-true no_boundary e = cc
is_pattern_end-true case_arm_end e = cc

pub is_arm_end-true : (b : ShellBoundary) → is_arm_end b ≡ true → b ≡ case_arm_end
is_arm_end-true case_arm_end e = refl
is_arm_end-true no_boundary e = cc
is_arm_end-true case_pattern_end e = cc

pub in_not_esac :
    (word : Text) → text_eq word (text "in") ≡ true → text_eq word (text "esac") ≡ false
unfolding text_eq
in_not_esac word e = ap (λ (w : Text). text_eq w (text "esac")) (text_eq-true word (text "in") e)

loops_open :
    (word : Text) (o : Option ShellBlock)
    → (text_eq word (text "for")
        || text_eq word (text "while")
        || text_eq word (text "until")
        || text_eq word (text "select"))
      ≡ true
    → Command word o (opens loop_block loop_header)
loops_open word o e = elim (Bool-cases (text_eq word (text "for"))) [
  | inl f ↦ for_opens (text_eq-true word _ f)
  | inr f ↦ elim (Bool-cases (text_eq word (text "while"))) [
    | inl g ↦ while_opens (text_eq-true word _ g)
    | inr g ↦ elim (Bool-cases (text_eq word (text "until"))) [
      | inl h ↦ until_opens (text_eq-true word _ h)
      | inr h ↦ select_opens (text_eq-true word (text "select") (ground (arith, e, f, g, h)))
    ]
  ]
]

pub command_reaction-Sound :
    (word : Text) (o : Option ShellBlock) → Sound (Command word o) (command_reaction word o)
unfolding command_reaction
command_reaction-Sound word o =
    if-Sound _ _ _ _ (λ e. sound (if_opens (text_eq-true word _ e)))
      (λ e0.
        if-Sound _ _ _ _ (λ e. sound (loops_open word o e))
          (λ e1.
            if-Sound _ _ _ _ (λ e. sound (case_opens (text_eq-true word _ e)))
              (λ e2.
                if-Sound _ _ _ _
                  (λ e.
                    if-Sound _ _ _ _
                      (λ v. sound (
                        then_changes (text_eq-true word _ e)
                          (is_in-Stands if_block if_condition o v)))
                      (λ v. error _))
                  (λ e3.
                    if-Sound _ _ _ _
                      (λ e.
                        if-Sound _ _ _ _
                          (λ v. sound (
                            elif_changes (text_eq-true word _ e)
                              (is_in-Stands if_block if_body o v)))
                          (λ v. error _))
                      (λ e4.
                        if-Sound _ _ _ _
                          (λ e.
                            if-Sound _ _ _ _
                              (λ v. sound (
                                else_changes (text_eq-true word _ e)
                                  (is_in-Stands if_block if_body o v)))
                              (λ v. error _))
                          (λ e5.
                            if-Sound _ _ _ _
                              (λ e.
                                if-Sound _ _ _ _
                                  (λ v. sound (
                                    fi_closes (text_eq-true word _ e)
                                      (is_in-either if_block if_body if_else o v)))
                                  (λ v. error _))
                              (λ e6.
                                if-Sound _ _ _ _
                                  (λ e.
                                    if-Sound _ _ _ _
                                      (λ v. sound (
                                        do_changes (text_eq-true word _ e)
                                          (is_in-Stands loop_block loop_header o v)))
                                      (λ v. error _))
                                  (λ e7.
                                    if-Sound _ _ _ _
                                      (λ e.
                                        if-Sound _ _ _ _
                                          (λ v. sound (
                                            done_closes (text_eq-true word _ e)
                                              (is_in-Stands loop_block loop_body o v)))
                                          (λ v. error _))
                                      (λ e8.
                                        if-Sound _ _ _ _
                                          (λ e.
                                            if-Sound _ _ _ _
                                              (λ v. sound (
                                                esac_closes (text_eq-true word _ e) (
                                                  is_in-either case_block case_patterns
                                                    case_commands o v)))
                                              (λ v. error _))
                                          (λ e9. sound (
                                            other_keeps (
                                              ground (
                                                arith, e0, e1, e2, e3, e4, e5, e6, e7, e8, e9,
                                              )))))))))))))

-- What is meant by a reaction that is no error.
module _ (P : Reaction → Type 0) where
  pub Sound-keeps : Sound P keeps → P keeps
  Sound-keeps (sound p) = p

  pub Sound-changes : (phase : ShellBlockPhase) → Sound P (changes phase) → P (changes phase)
  Sound-changes phase (sound p) = p

  pub Sound-closes : Sound P closes → P closes
  Sound-closes (sound p) = p

  pub Sound-opens :
      (kind : ShellBlockKind) (phase : ShellBlockPhase)
      → Sound P (opens kind phase)
      → P (opens kind phase)
  Sound-opens kind phase (sound p) = p
