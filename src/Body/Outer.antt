-- ===== src/Body/Outer.antt =====
-- What a token does outside of all blocks, in `analyze_shell_body` of src/body.rs.
use bbtidy.Base.{
  ◌≡◌, refl, none, Bool, true, false, not, ◌&&◌, ◌||◌, Bool-cases, inl, inr, if◌then◌else◌,
}
use bbtidy.Text.{Text, text, text_eq}
use bbtidy.Body.Shell.{
  ShellBlockKind, ShellBlockPhase, ShellToken, Reaction, is_pattern_end, is_arm_end, case_reaction,
  command_reaction, keeps, opens, wrong, reaction,
}

-- Outside of all blocks a token changes and closes nothing.
pub data Outer : Reaction → Type 0 where
  outer_keeps : Outer keeps
  outer_opens : (kind : ShellBlockKind) (phase : ShellBlockPhase) → Outer (opens kind phase)
  outer_wrong : (message : Text) → Outer (wrong message)

Outer-if : (b : Bool) (r s : Reaction) → Outer r → Outer s → Outer (if b then r else s)
Outer-if true r s p q = p
Outer-if false r s p q = q

command_reaction-Outer : (word : Text) → Outer (command_reaction word none)
unfolding command_reaction
command_reaction-Outer word = elim (Bool-cases (text_eq word (text "if"))) [
  | inl e0 ↦ rw (e0, command_reaction) (outer_opens _ _)
  | inr e0 ↦
      elim (Bool-cases (
        text_eq word (text "for")
        || text_eq word (text "while")
        || text_eq word (text "until")
        || text_eq word (text "select"))) [
          | inl e1 ↦ rw (e0, command_reaction) (rw e1 (outer_opens _ _))
          | inr e1 ↦ elim (Bool-cases (text_eq word (text "case"))) [
            | inl e2 ↦ rw (e0, command_reaction) (rw e1 (rw e2 (outer_opens _ _)))
            | inr e2 ↦ elim (Bool-cases (text_eq word (text "then"))) [
              | inl e3 ↦ rw (e0, command_reaction) (rw e1 (rw e2 (rw e3 (outer_wrong _))))
              | inr e3 ↦ elim (Bool-cases (text_eq word (text "elif"))) [
                | inl e4 ↦ rw (e0, command_reaction) (rw e1 (rw e2 (rw e3 (rw e4 (outer_wrong _)))))
                | inr e4 ↦ elim (Bool-cases (text_eq word (text "else"))) [
                  | inl e5 ↦
                      rw (e0, command_reaction)
                        (rw e1 (rw e2 (rw e3 (rw e4 (rw e5 (outer_wrong _))))))
                  | inr e5 ↦ elim (Bool-cases (text_eq word (text "fi"))) [
                    | inl e6 ↦
                        rw (e0, command_reaction)
                          (rw e1 (rw e2 (rw e3 (rw e4 (rw e5 (rw e6 (outer_wrong _)))))))
                    | inr e6 ↦ elim (Bool-cases (text_eq word (text "do"))) [
                      | inl e7 ↦
                          rw (e0, command_reaction)
                            (rw e1 (rw e2 (rw e3 (rw e4 (rw e5 (rw e6 (rw e7 (outer_wrong _))))))))
                      | inr e7 ↦ elim (Bool-cases (text_eq word (text "done"))) [
                        | inl e8 ↦
                            rw (e0, command_reaction)
                              (rw e1 (
                                rw e2
                                  (rw e3 (rw e4 (rw e5 (rw e6 (rw e7 (rw e8 (outer_wrong _)))))))))
                        | inr e8 ↦ elim (Bool-cases (text_eq word (text "esac"))) [
                          | inl e9 ↦
                              rw (e0, command_reaction)
                                (rw e1 (
                                  rw e2 (
                                    rw e3 (
                                      rw e4
                                        (rw e5 (rw e6 (rw e7 (rw e8 (rw e9 (outer_wrong _))))))))))
                          | inr e9 ↦
                              rw (e0, command_reaction)
                                (rw e1 (
                                  rw e2 (
                                    rw e3
                                      (rw e4 (rw e5 (rw e6 (rw e7 (rw e8 (rw e9 outer_keeps)))))))))
                        ]
                      ]
                    ]
                  ]
                ]
              ]
            ]
          ]
        ]
]

and-false : (b : Bool) → (b && false) ≡ false
and-false true = refl
and-false false = refl

case_reaction-none : (token : ShellToken) → case_reaction token none ≡ none
unfolding case_reaction
case_reaction-none token =
    rw (and-false (is_pattern_end token.boundary)) (rw (and-false (is_arm_end token.boundary)) refl)

pub reaction-Outer : (token : ShellToken) → Outer (reaction token none)
unfolding reaction
reaction-Outer token =
    rw (case_reaction-none token, reaction)
      (Outer-if (not token.command_position) _ (command_reaction token.word none)
        (rw (and-false (text_eq token.word (text "in"))) outer_keeps)
        (command_reaction-Outer token.word))
