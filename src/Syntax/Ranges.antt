-- ===== src/Syntax/Ranges.antt =====
-- The ranges of the assignments that src/syntax.rs parses.
use bbtidy.Base.{
  ℕ, ◌+◌, ◌-◌, ◌≤◌, ◌<◌, ◌≡◌, refl, sym, ap, ◌∙◌, Bool, true, false, [], ◌∷◌, ◌++◌, length, take,
  drop, length-append, length-take, length-drop, drop-drop, take-append, drop-append_le,
  take-append-drop, append_assoc, append-nil, is_some, Option-cases, inl, inr, arith,
}
use bbtidy.Text.{
  Text, slice, starts_with, strip_prefix, strip_prefix-some, strip_suffix, strip_suffix-some,
  trim_start-le,
}
use bbtidy.Scanner.Lines.{next_line_end, split_line_ending, crlf, newline}
use bbtidy.Scanner.Names.{split_export}
use bbtidy.Scanner.Operators.{AssignmentOperator, operator_lexeme}
use bbtidy.Syntax.Tree.{TextRange, range, AssignmentSyntax}
use bbtidy.Syntax.Statement.{text_without_final_line_ending, first_content, assignment_node}

pub split_line_ending_lem :
    (line : Text) → (split_line_ending line).0 ++ (split_line_ending line).1 ≡ line
unfolding split_line_ending
split_line_ending_lem line = elim (Option-cases (strip_suffix line crlf)) [
  | inr (c, e) ↦ rw (e, split_line_ending) (sym (strip_suffix-some line crlf c e))
  | inl e ↦ elim (Option-cases (strip_suffix line newline)) [
    | inr (c, f) ↦ rw (e, f, split_line_ending) (sym (strip_suffix-some line newline c f))
    | inl f ↦ rw (e, f, split_line_ending) (append-nil line)
  ]
]

-- The first line's content begins the statement.
first_content-append : (s : Text) → (rest : Text) × (first_content s ++ rest ≡ s)
first_content-append s =
    let n = next_line_end s 0 in
    (
      (split_line_ending (take n s)).1 ++ drop n s,
      sym (append_assoc (first_content s) (split_line_ending (take n s)).1 (drop n s))
          ∙ ap (λ (t : Text). t ++ drop n s) (split_line_ending_lem (take n s))
          ∙ take-append-drop n s,
    )

text_without_final_line_ending-le :
    (s : Text) → length (text_without_final_line_ending s) ≤ length s
unfolding text_without_final_line_ending
text_without_final_line_ending-le s = elim (Option-cases (strip_suffix s crlf)) [
  | inr (c, e) ↦
      let whole = ap length (strip_suffix-some s crlf c e) in
      ground (arith, e, whole, length-append c crlf)
  | inl e ↦ elim (Option-cases (strip_suffix s newline)) [
    | inr (c, f) ↦
        let whole = ap length (strip_suffix-some s newline c f) in
        ground (arith, e, f, whole, length-append c newline)
    | inl f ↦ ground (arith, e, f)
  ]
]

pub split_export_le :
    (left : Text) → (split_export left).1 + length (split_export left).0 ≤ length left
unfolding split_export
split_export_le left =
    elim (Option-cases (strip_prefix left (b'e' ∷ b'x' ∷ b'p' ∷ b'o' ∷ b'r' ∷ b't' ∷ []))) [
      | inl e ↦ ground (arith, e)
      | inr (rest, e) ↦
          let whole =
            ap length
              (strip_prefix-some left (b'e' ∷ b'x' ∷ b'p' ∷ b'o' ∷ b'r' ∷ b't' ∷ []) rest e) in
          ground (arith, e, whole, trim_start-le rest)
    ]

-- The ranges of an assignment within its node, and what stands there.
pub record AssignmentAt (source : Text) (span : TextRange) (a : AssignmentSyntax) : Type 0 where
  pub name_inside : span.start ≤ a.name_range.start
  pub name_text : a.name ≡ slice a.name_range.start a.name_range.end source
  pub operator_behind_name : a.name_range.end ≤ a.operator_range.start
  pub operator_text :
      slice a.operator_range.start a.operator_range.end source ≡ operator_lexeme a.operator
  pub value_behind_operator : a.value_range.start ≡ a.operator_range.end
  pub value_text : a.value ≡ slice a.value_range.start a.value_range.end source
  pub operator_inside : a.operator_range.end ≤ span.end
  pub value_inside : a.value_range.end ≤ span.end

module _ (source : Text) (start end : ℕ) (ordered : start ≤ end)
    (within : end ≤ length source) where
  abbrev statement : Text
  statement = slice start end source

  length-statement : length statement ≡ end - start
  length-statement =
      omega (arith, length-take (end - start) (drop start source), length-drop start source)

  -- An operator on the first line stands in the source at the line's start and its index.
  operator_in_source :
      (i : ℕ) (o : AssignmentOperator)
      → i < length (first_content statement)
      → starts_with (drop i (first_content statement)) (operator_lexeme o) ≡ true
      → (slice (start + i) (start + (i + length (operator_lexeme o))) source ≡ operator_lexeme o)
        × (i + length (operator_lexeme o) ≤ end - start)
  operator_in_source i o inside e =
      elim (Option-cases (strip_prefix (drop i (first_content statement)) (operator_lexeme o))) [
        | inl f ↦ let impossible : ◌≡◌ {A = Bool} false true = sym (ap is_some f) ∙ e in cc
        | inr (r, f) ↦
            let content : Text = first_content statement in
            let stands = strip_prefix-some (drop i content) (operator_lexeme o) r f in
            let (rest, whole) = first_content-append statement in
            let tail : Text = rest ++ drop (end - start) (drop start source) in
            let from_start : drop start source ≡ content ++ tail =
              sym (take-append-drop (end - start) (drop start source))
              ∙ ap (λ (t : Text). t ++ drop (end - start) (drop start source)) (sym whole)
              ∙ append_assoc content rest (drop (end - start) (drop start source)) in
            let from_operator : drop (start + i) source ≡ operator_lexeme o ++ (r ++ tail) =
              sym (drop-drop i start source)
              ∙ ap (drop i) from_start
              ∙ drop-append_le i content tail (omega arith)
              ∙ ap (λ (t : Text). t ++ tail) stands
              ∙ append_assoc (operator_lexeme o) r tail in
            (
              ap (take (start + (i + length (operator_lexeme o)) - (start + i))) from_operator
                  ∙ ap (λ (n : ℕ). take n (operator_lexeme o ++ (r ++ tail)))
                      {y = length (operator_lexeme o)} (omega arith)
                  ∙ take-append (operator_lexeme o) (r ++ tail),
              omega (
                arith,
                ap length stands,
                length-append (operator_lexeme o) r,
                length-drop i content,
                ap length whole,
                length-append content rest,
                length-statement,
              ),
            )
      ]

  pub assignment_node-AssignmentAt :
      (i : ℕ) (o : AssignmentOperator) (continued : Bool) (left : Text × ℕ × Bool)
      → left.1 + length left.0 ≤ i
      → i < length (first_content statement)
      → starts_with (drop i (first_content statement)) (operator_lexeme o) ≡ true
      → AssignmentAt source
          (range start end)
          (assignment_node source start statement continued i o left)
  unfolding assignment_node
  assignment_node-AssignmentAt i o continued (name, name_offset, exported) l inside e =
      let (at, ends) = operator_in_source i o inside e in
      let shorter = text_without_final_line_ending-le statement in
      let n : length statement ≡ end - start = length-statement in
      record {
        name_inside = omega arith;
        name_text = refl;
        operator_behind_name = omega (arith, l);
        operator_text = at;
        value_behind_operator = refl;
        value_text = refl;
        operator_inside = omega (arith, ends, ordered);
        value_inside = omega (arith, shorter, n, ordered);
      }
