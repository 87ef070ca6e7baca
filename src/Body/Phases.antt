-- ===== src/Body/Phases.antt =====
-- The innermost block of `analyze_shell_body` of src/body.rs: its kind and its phase.
use bbtidy.Base.{
  ◌≡◌, ◌⊎◌, refl, ap, ◌∙◌, Option, none, some, true, ◌||◌, Bool-cases, inl, inr, arith,
}
use bbtidy.Body.Shell.{
  ShellBlockKind, if_block, loop_block, case_block, ShellBlockPhase, if_condition, if_body, if_else,
  loop_header, loop_body, case_header, case_patterns, case_commands, ShellBlock, at_phase, is_in,
}

at_phase-true :
    (k : ShellBlockKind) (p : ShellBlockPhase) (l : ShellBlockKind) (q : ShellBlockPhase)
    → at_phase k p l q ≡ true
    → (l ≡ k) × (q ≡ p)
at_phase-true if_block if_condition if_block if_condition e = (refl, refl)
at_phase-true if_block if_body if_block if_body e = (refl, refl)
at_phase-true if_block if_else if_block if_else e = (refl, refl)
at_phase-true loop_block loop_header loop_block loop_header e = (refl, refl)
at_phase-true loop_block loop_body loop_block loop_body e = (refl, refl)
at_phase-true case_block case_header case_block case_header e = (refl, refl)
at_phase-true case_block case_patterns case_block case_patterns e = (refl, refl)
at_phase-true case_block case_commands case_block case_commands e = (refl, refl)
at_phase-true _ _ _ _ e = absurd cc

-- There is an innermost block, of this kind and in this phase.
abbrev pub Stands : ShellBlockKind → ShellBlockPhase → Option ShellBlock → Type 0
Stands kind phase none = ⊥
Stands kind phase (some b) = (b.kind ≡ kind) × (b.phase ≡ phase)

pub is_in-Stands :
    (kind : ShellBlockKind) (phase : ShellBlockPhase) (o : Option ShellBlock)
    → is_in kind phase o ≡ true
    → Stands kind phase o
is_in-Stands kind phase none e = absurd cc
is_in-Stands kind phase (some b) e = at_phase-true kind phase b.kind b.phase e

pub is_in-either :
    (k : ShellBlockKind) (p q : ShellBlockPhase) (o : Option ShellBlock)
    → (is_in k p o || is_in k q o) ≡ true
    → Stands k p o ⊎ Stands k q o
is_in-either k p q o e = elim (Bool-cases (is_in k p o)) [
  | inl f ↦ inl (is_in-Stands k p o f)
  | inr f ↦ inr (is_in-Stands k q o (ground (arith, e, f)))
]

-- The phase is one of the kind.
pub Stands-is_in :
    (kind : ShellBlockKind) (phase : ShellBlockPhase) (o : Option ShellBlock)
    → at_phase kind phase kind phase ≡ true
    → Stands kind phase o
    → is_in kind phase o ≡ true
Stands-is_in kind phase none h s = elim s [ ]
Stands-is_in kind phase (some b) h (e, f) =
    ap (λ (k : ShellBlockKind). at_phase kind phase k b.phase) e
    ∙ ap (λ (p : ShellBlockPhase). at_phase kind phase kind p) f
    ∙ h

pub either-is_in :
    (k : ShellBlockKind) (p q : ShellBlockPhase) (o : Option ShellBlock)
    → at_phase k p k p ≡ true
    → at_phase k q k q ≡ true
    → Stands k p o ⊎ Stands k q o
    → (is_in k p o || is_in k q o) ≡ true
either-is_in k p q o h i (inl s) = ground (arith, Stands-is_in k p o h s)
either-is_in k p q o h i (inr s) = ground (arith, Stands-is_in k q o i s)
