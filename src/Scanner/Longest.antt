-- ===== src/Scanner/Longest.antt =====
-- Which operator `find_assignment_operator` of src/lib.rs finds.
use bbtidy.Base.{
  ℕ, ◌≤◌, ◌<◌, ◌⊎◌, drop-cons_lt, ◌≡◌, refl, sym, subst, Option, none, some, true, false, List, [],
  ◌∷◌, length, drop, All, All-map, Bool-cases, Option-cases, inl, inr, arith,
}
use bbtidy.Text.{Text, starts_with}
use bbtidy.Text.Scan.{Kept, scan_inv}
use bbtidy.Scanner.Quotes.{Quoting, unquoted, quote_step}
use bbtidy.Scanner.Operators.{
  AssignmentOperator, operator_lexeme, all_by_length, operator_at, operator_step,
  find_assignment_operator,
}

-- No operator of the list that stands at the front of `rest` is longer than `o`.
abbrev pub Longest : List AssignmentOperator → Text → AssignmentOperator → Type 0
Longest operators rest o =
    All
      (λ other.
        (starts_with rest (operator_lexeme other) ≡ false)
        ⊎ (length (operator_lexeme other) ≤ length (operator_lexeme o)))
      operators

abbrev ByLength : List AssignmentOperator → Type 0
ByLength [] = Unit
ByLength (o ∷ os) =
    All (λ other. length (operator_lexeme other) ≤ length (operator_lexeme o)) os × ByLength os

-- `o` stands at the front of `rest`, and no longer operator does.
abbrev pub StandsAt : Text → AssignmentOperator → Type 0
StandsAt rest o = (starts_with rest (operator_lexeme o) ≡ true) × Longest all_by_length rest o

operator_at-Longest :
    (os : List AssignmentOperator) (rest : Text) (o : AssignmentOperator)
    → ByLength os
    → operator_at os rest ≡ some o
    → (starts_with rest (operator_lexeme o) ≡ true) × Longest os rest o
unfolding operator_at
operator_at-Longest [] rest o s e = cc
operator_at-Longest (p ∷ os) rest o s e = elim (Bool-cases (starts_with rest (operator_lexeme p))) [
  | inl here ↦
      let q : ◌≡◌ {A = Option AssignmentOperator} (some p) (some o) = rw here at e in
      let same : p ≡ o = cc in
      subst
        (λ (k : AssignmentOperator).
          (starts_with rest (operator_lexeme k) ≡ true) × Longest (p ∷ os) rest k)
        same (here, (inr (omega arith), All-map os (λ other l. inr l) s.0))
  | inr other ↦
      let (a, b) = operator_at-Longest os rest o s.1 (rw other at e) in (a, (inl other, b))
]

-- What is true of a result of `find_assignment_operator`.
abbrev pub Found : Text → Option (ℕ × AssignmentOperator) → Type 0
Found content none = Unit
Found content (some (index, o)) = (index < length content) × StandsAt (drop index content) o

all_by_length-ByLength : ByLength all_by_length
all_by_length-ByLength = ground arith

operator_step-Kept :
    (content : Text) (i c : ℕ) (cs : Text) (q : Quoting)
    → drop i content ≡ c ∷ cs
    → Kept (λ _ (_ : Quoting). Unit) (Found content) i (operator_step i (c ∷ cs) q)
unfolding operator_step
operator_step-Kept content i c cs q e = elim (Option-cases (quote_step q c)) [
  | inr (q', f) ↦ ground (arith, f)
  | inl f ↦ elim (Option-cases (operator_at all_by_length (c ∷ cs))) [
    | inl g ↦ ground (arith, f, g)
    | inr (o, g) ↦
        let found : Found content (some (i, o)) = (
          (drop-cons_lt i content e).0,
          subst (λ (t : Text). StandsAt t o) (sym e)
              (operator_at-Longest all_by_length (c ∷ cs) o all_by_length-ByLength g),
        ) in
        ground (arith, f, g, found)
  ]
]

pub find_assignment_operator-Found :
    (content : Text) → Found content (find_assignment_operator content)
unfolding find_assignment_operator
find_assignment_operator-Found content =
    scan_inv (λ _ (_ : Quoting). Unit) (Found content) operator_step (λ _. none) content
      (λ i c cs q e _. operator_step-Kept content i c cs q e) (λ j _ l p. tt) 0 0 unquoted content
      refl tt

-- An operator that is found stands on the line at the index, and no longer operator stands there.
pub find_assignment_operator-StandsAt :
    (content : Text) (index : ℕ) (o : AssignmentOperator)
    → find_assignment_operator content ≡ some (index, o)
    → (index < length content) × StandsAt (drop index content) o
find_assignment_operator-StandsAt content index o e =
    subst (Found content) e (find_assignment_operator-Found content)
