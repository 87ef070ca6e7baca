-- ===== src/Body/Meanings.antt =====
-- The reactions of `analyze_shell_body` of src/body.rs are the meanings of its words.
use bbtidy.Base.{
  ◌≡◌, refl, ap, ◌∙◌, Option, none, true, false, not, ◌&&◌, Bool-cases, inl, inr, if◌then◌else◌,
  arith,
}
use bbtidy.Text.{Text, text, text_eq, text_eq-true, text_eq_refl}
use bbtidy.Body.Shell.{
  ShellBlock, ShellToken, if_block, loop_block, case_block, if_condition, if_body, if_else,
  loop_header, loop_body, case_header, case_patterns, case_commands, Reaction, keeps, changes,
  is_in, case_reaction, command_reaction, reaction,
}
use bbtidy.Body.Phases.{is_in-Stands, Stands-is_in, either-is_in}
use bbtidy.Body.Words.{
  Command, if_opens, for_opens, while_opens, until_opens, select_opens, case_opens, then_changes,
  elif_changes, else_changes, do_changes, fi_closes, done_closes, esac_closes, other_keeps,
  is_at_pattern_end, is_at_arm_end, IsFree, Meaning, pattern_ends, arm_ends, in_pattern,
  subject_ends, argument, command, Sound, sound, error, if-Sound, is_pattern_end-true,
  is_arm_end-true, in_not_esac, command_reaction-Sound,
}

free-Sound :
    (token : ShellToken) (o : Option ShellBlock) {r : Reaction}
    → IsFree token o
    → token.command_position ≡ true
    → Sound (Command token.word o) r
    → Sound (Meaning token o) r
free-Sound token o free at (sound c) = sound (command free at c)
free-Sound token o free at (error message) = error message

-- The reaction of a token that stands at no boundary and in no pattern.
free_reaction : ShellToken → Option ShellBlock → Reaction
free_reaction token o =
    if not token.command_position
    then if text_eq token.word (text "in") && is_in case_block case_header o
      then changes case_patterns
      else keeps
    else command_reaction token.word o

free_reaction-Sound :
    (token : ShellToken) (o : Option ShellBlock)
    → IsFree token o
    → Sound (Meaning token o) (free_reaction token o)
unfolding free_reaction
free_reaction-Sound token o free =
    if-Sound _ _ _ _
      (λ e.
        if-Sound _ _ _ _
          (λ f. sound (
            subject_ends free (ground (arith, e))
              (text_eq-true token.word (text "in") (ground (arith, f)))
              (is_in-Stands case_block case_header o (ground (arith, f)))))
          (λ f. sound (argument free (ground (arith, e)) f)))
      (λ e. free-Sound token o free (ground (arith, e)) (command_reaction-Sound token.word o))

-- What a token does is what it means, or it is an error.
pub reaction-Sound :
    (token : ShellToken) (o : Option ShellBlock) → Sound (Meaning token o) (reaction token o)
unfolding reaction case_reaction free_reaction
reaction-Sound token o = elim (Bool-cases (is_at_pattern_end token o)) [
  | inl e ↦
      rw (e, reaction, case_reaction)
        (sound (
          pattern_ends (is_pattern_end-true token.boundary (ground (arith, e)))
            (is_in-Stands case_block case_patterns o (ground (arith, e)))))
  | inr e ↦ elim (Bool-cases (is_at_arm_end token o)) [
    | inl f ↦
        rw (e, reaction, case_reaction)
          (rw f (
            sound (
              arm_ends (is_arm_end-true token.boundary (ground (arith, f)))
                (is_in-Stands case_block case_commands o (ground (arith, f))))))
    | inr f ↦ elim (Bool-cases (is_in case_block case_patterns o)) [
      | inr q ↦
          rw (e, reaction, case_reaction)
            (rw f (rw q (free_reaction-Sound token o (e, f, rw q refl))))
      | inl q ↦ elim (Bool-cases (text_eq token.word (text "esac"))) [
        | inr s ↦
            rw (e, reaction, case_reaction)
              (rw f (
                rw q (
                  rw s
                    (elim (Bool-cases
                      (text_eq token.word (text "in") && not token.command_position)) [
                        | inl i ↦
                            rw i
                              (sound (in_pattern e f (is_in-Stands case_block case_patterns o q) s))
                        | inr i ↦
                            rw i
                              (sound (in_pattern e f (is_in-Stands case_block case_patterns o q) s))
                      ]))))
        | inl s ↦
            let i : (text_eq token.word (text "in") && not token.command_position) ≡ false =
              ground (arith, s, in_not_esac token.word) in
            rw (e, reaction, case_reaction)
              (rw f (rw q (rw i (rw s (free_reaction-Sound token o (e, f, rw q (rw s refl)))))))
      ]
    ]
  ]
]

command_reaction-Command :
    (word : Text) (o : Option ShellBlock) (r : Reaction)
    → Command word o r
    → command_reaction word o ≡ r
unfolding command_reaction text_eq
command_reaction-Command word o r (if_opens e) = ap (λ w. command_reaction w o) e
command_reaction-Command word o r (for_opens e) = ap (λ w. command_reaction w o) e
command_reaction-Command word o r (while_opens e) = ap (λ w. command_reaction w o) e
command_reaction-Command word o r (until_opens e) = ap (λ w. command_reaction w o) e
command_reaction-Command word o r (select_opens e) = ap (λ w. command_reaction w o) e
command_reaction-Command word o r (case_opens e) = ap (λ w. command_reaction w o) e
command_reaction-Command word o r (then_changes e v) =
    ap (λ w. command_reaction w o) e
    ∙ (let i = Stands-is_in if_block if_condition o refl v in rw (i, command_reaction) refl)
command_reaction-Command word o r (elif_changes e v) =
    ap (λ w. command_reaction w o) e
    ∙ (let i = Stands-is_in if_block if_body o refl v in rw (i, command_reaction) refl)
command_reaction-Command word o r (else_changes e v) =
    ap (λ w. command_reaction w o) e
    ∙ (let i = Stands-is_in if_block if_body o refl v in rw (i, command_reaction) refl)
command_reaction-Command word o r (do_changes e v) =
    ap (λ w. command_reaction w o) e
    ∙ (let i = Stands-is_in loop_block loop_header o refl v in rw (i, command_reaction) refl)
command_reaction-Command word o r (fi_closes e v) =
    ap (λ w. command_reaction w o) e
    ∙ (let i = either-is_in if_block if_body if_else o refl refl v in rw (i, command_reaction) refl)
command_reaction-Command word o r (done_closes e v) =
    ap (λ w. command_reaction w o) e
    ∙ (let i = Stands-is_in loop_block loop_body o refl v in rw (i, command_reaction) refl)
command_reaction-Command word o r (esac_closes e v) =
    ap (λ w. command_reaction w o) e
    ∙ (let i = either-is_in case_block case_patterns case_commands o refl refl v in
        rw (i, command_reaction) refl)
command_reaction-Command word o r (other_keeps a) = ground (arith, a)

case_reaction-free :
    (token : ShellToken) (o : Option ShellBlock) → IsFree token o → case_reaction token o ≡ none
unfolding case_reaction
case_reaction-free token o (e, f, g) = elim (Bool-cases (is_in case_block case_patterns o)) [
  | inr q ↦ rw (e, case_reaction) (rw f (rw q refl))
  | inl q ↦
      let s : text_eq token.word (text "esac") ≡ true = ground (arith, q, g) in
      let i : (text_eq token.word (text "in") && not token.command_position) ≡ false =
        ground (arith, s, in_not_esac token.word) in
      rw (e, case_reaction) (rw f (rw q (rw i (rw s refl))))
]

reaction-free :
    (token : ShellToken) (o : Option ShellBlock)
    → IsFree token o
    → reaction token o ≡ free_reaction token o
unfolding reaction free_reaction
reaction-free token o free =
    let settled = case_reaction-free token o free in rw (settled, reaction) refl

-- What a token means is what it does.
pub reaction-Meaning :
    (token : ShellToken) (o : Option ShellBlock) (r : Reaction)
    → Meaning token o r
    → reaction token o ≡ r
unfolding reaction case_reaction free_reaction
reaction-Meaning token o r (pattern_ends e s) =
    let q = Stands-is_in case_block case_patterns o refl s in
    let p : is_at_pattern_end token o ≡ true = rw e q in rw (p, reaction, case_reaction) refl
reaction-Meaning token o r (arm_ends e s) =
    let q = Stands-is_in case_block case_commands o refl s in
    let p : is_at_pattern_end token o ≡ false = rw e refl in
    let f : is_at_arm_end token o ≡ true = rw e q in rw (p, reaction, case_reaction) (rw f refl)
reaction-Meaning token o r (in_pattern e f at s) =
    let q = Stands-is_in case_block case_patterns o refl at in
    elim (Bool-cases (text_eq token.word (text "in") && not token.command_position)) [
      | inl i ↦ rw (e, reaction, case_reaction) (rw f (rw q (rw i refl)))
      | inr i ↦ rw (e, reaction, case_reaction) (rw f (rw q (rw i (rw s refl))))
    ]
reaction-Meaning token o r (subject_ends free at e stands) =
    let q = Stands-is_in case_block case_header o refl stands in
    reaction-free token o free
    ∙ (let i : text_eq token.word (text "in") ≡ true =
          ap (λ (w : Text). text_eq w (text "in")) e ∙ text_eq_refl (text "in") in
        rw at (rw i (rw q refl)))
reaction-Meaning token o r (argument free at e) = reaction-free token o free ∙ (rw at (rw e refl))
reaction-Meaning token o r (command free at c) =
    reaction-free token o free ∙ (rw at (command_reaction-Command token.word o r c))
