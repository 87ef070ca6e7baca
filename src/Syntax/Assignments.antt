-- ===== src/Syntax/Assignments.antt =====
-- Every assignment of a tree that `parse` of src/syntax.rs returns.
use bbtidy.Base.{
  ℕ, ◌+◌, ◌≤◌, ◌<◌, ◌≡◌, refl, sym, subst, Option, none, some, Bool, List, [], ◌∷◌, length,
  length-take, take, All, Option-cases, inl, inr, arith,
}
use bbtidy.Text.{Text, slice, trim_end, trim_end-le}
use bbtidy.Scanner.Lines.{next_line_end, has_line_continuation}
use bbtidy.Scanner.Shell.{ScannerFunctionKind}
use bbtidy.Scanner.Names.{split_export}
use bbtidy.Scanner.Operators.{find_assignment_operator}
use bbtidy.Scanner.Longest.{find_assignment_operator-StandsAt}
use bbtidy.Scanner.Python.{PythonDefHeader, python_def_header}
use bbtidy.Scanner.Functions.{function_opening_brace}
use bbtidy.Syntax.Tree.{
  TextRange, range, AssignmentSyntax, DirectiveSyntax, SyntaxKind, assignment, SyntaxNode,
  SyntaxTree,
}
use bbtidy.Syntax.Result.{Result, ok, err, ◌>>=◌}
use bbtidy.Syntax.Statement.{
  first_content, parse_assignment, parse_directive, classify_statement, statement_kind,
  directive_kind,
}
use bbtidy.Syntax.Parse.{function_node, python_node, statement_end, statement_node, node_at, parse}
use bbtidy.Syntax.Advance.{statement_end_bounds}
use bbtidy.Syntax.Lossless.{line_at, Covers, parse_lossless}
use bbtidy.Syntax.Ranges.{AssignmentAt, split_export_le, assignment_node-AssignmentAt}

-- A kind that, if it is an assignment, has its ranges within the node.
abbrev pub KindAt : Text → TextRange → SyntaxKind → Type 0
KindAt source span (assignment a) = AssignmentAt source span a
KindAt source span kind = Unit

abbrev FoundAt : Text → TextRange → Result (Option AssignmentSyntax) → Type 0
FoundAt source span (ok (some a)) = AssignmentAt source span a
FoundAt source span (ok none) = Unit
FoundAt source span (err e) = Unit

abbrev ClassAt : Text → TextRange → Result SyntaxKind → Type 0
ClassAt source span (ok kind) = KindAt source span kind
ClassAt source span (err e) = Unit

abbrev EndAt : Text → ℕ → Result (ℕ × SyntaxKind) → Type 0
EndAt source start (ok (end, kind)) = KindAt source (range start end) kind
EndAt source start (err e) = Unit

directive_kind-KindAt :
    (source : Text) (span : TextRange) (d : Option DirectiveSyntax)
    → KindAt source span (directive_kind d)
unfolding directive_kind
directive_kind-KindAt source span none = tt
directive_kind-KindAt source span (some d) = tt

module _ (source : Text) (start : ℕ) where
  kind_found :
      (span : TextRange) (r : Result (Option AssignmentSyntax)) (d : Option DirectiveSyntax)
      → FoundAt source span r
      → ClassAt source span (r >>= λ found. ok (statement_kind found (directive_kind d)))
  unfolding statement_kind
  kind_found span (err e) d f = tt
  kind_found span (ok none) d f = directive_kind-KindAt source span d
  kind_found span (ok (some a)) d f = f

  module _ (end : ℕ) (ordered : start ≤ end) (within : end ≤ length source) where
    parse_assignment-FoundAt :
        (continued : Bool) (line_number : ℕ)
        → FoundAt source
            (range start end)
            (parse_assignment source start (slice start end source) continued line_number)
    unfolding parse_assignment
    parse_assignment-FoundAt continued line_number =
        elim (Option-cases (find_assignment_operator (first_content (slice start end source)))) [
          | inl e ↦ ground (arith, e)
          | inr ((i, o), e) ↦
              let left = trim_end (take i (first_content (slice start end source))) in
              let (inside, stands) =
                find_assignment_operator-StandsAt (first_content (slice start end source)) i o e in
              let fits : (split_export left).1 + length (split_export left).0 ≤ i = omega (
                arith,
                split_export_le left,
                trim_end-le (take i (first_content (slice start end source))),
                length-take i (first_content (slice start end source)),
              ) in
              let at =
                assignment_node-AssignmentAt source start end ordered within i o continued
                  (split_export left) fits inside stands.0 in
              ground (arith, e, at)
        ]

    classify_statement-ClassAt :
        (continued : Bool) (line_number : ℕ)
        → ClassAt source
            (range start end)
            (classify_statement source start (slice start end source) continued line_number)
    unfolding classify_statement
    classify_statement-ClassAt continued line_number =
        let found =
          kind_found (range start end) _
            (parse_directive source start (slice start end source) continued)
            (parse_assignment-FoundAt continued line_number) in
        ground (arith, found)

  statement_node-EndAt :
      (line_number : ℕ)
      → start < length source
      → EndAt source start (
          statement_node source start
            (slice start (next_line_end source start) source)
            (next_line_end source start)
            line_number)
  unfolding statement_node
  statement_node-EndAt line_number inside =
      ends (statement_end source start _ _ line_number)
        (λ end e. statement_end_bounds source start line_number end inside e)
    where
      classified :
          (end : ℕ) (k : Result SyntaxKind)
          → ClassAt source (range start end) k
          → EndAt source start (k >>= λ kind. ok (end, kind))
      classified end (err e) c = tt
      classified end (ok kind) c = c

      ends :
          (m : Result ℕ)
          → ((end : ℕ) → m ≡ ok end → (start < end) × (end ≤ length source))
          → EndAt source start (
              m >>= λ end.
              classify_statement source start
                (slice start end source)
                (has_line_continuation (slice start (next_line_end source start) source))
                line_number
              >>= λ kind. ok (end, kind))
      ends (err e) bounds = tt
      ends (ok end) bounds =
          let b = bounds end refl in
          classified end _ (classify_statement-ClassAt end (omega arith) b.1 _ line_number)

  function_node-EndAt :
      (line : Text) (line_number : ℕ) (opening : ℕ × ScannerFunctionKind)
      → EndAt source start (function_node source start line line_number opening)
  unfolding function_node
  function_node-EndAt line line_number (brace, kind) = ground arith

  python_node-EndAt : (h : PythonDefHeader) → EndAt source start (python_node source h)
  unfolding python_node
  python_node-EndAt h = ground arith

  node_at-EndAt :
      (line_number : ℕ)
      → start < length source
      → EndAt source start (node_at source start line_number)
  unfolding node_at
  node_at-EndAt line_number inside =
      elim (Option-cases
        (function_opening_brace (slice start (next_line_end source start) source))) [
          | inr (opening, e) ↦ ground (
            arith,
            e,
            function_node-EndAt (slice start (next_line_end source start) source) line_number
                opening,
          )
          | inl e ↦ elim (Option-cases (python_def_header source start)) [
            | inr (h, f) ↦ ground (arith, e, f, python_node-EndAt h)
            | inl f ↦ ground (arith, e, f, statement_node-EndAt line_number inside)
          ]
        ]

-- The range of a node, and what its kind says of it.
abbrev pub NodeAt : Text → SyntaxNode → Type 0
NodeAt source n = KindAt source (range n.range.start n.range.end) n.kind

Covers-NodeAt :
    (source : Text) (a b : ℕ) (ns : List SyntaxNode) → Covers source a b ns → All (NodeAt source) ns
Covers-NodeAt source a b [] c = tt
Covers-NodeAt source a b (n ∷ ns) (at_start, after, within, holds, found, later) = (
  subst (λ (k : ℕ). KindAt source (range k n.range.end) n.kind) (sym at_start)
      (subst (EndAt source a) found (node_at-EndAt source a (line_at source a) (omega arith))),
  Covers-NodeAt source n.range.end b ns later,
)

-- In a parsed source, the name, the operator and the value of each assignment stand in this order
-- within its node, name and value are the bytes of their ranges, and the bytes of the operator's
-- range are the operator's spelling.
pub parse-NodeAt :
    (source : Text) (t : SyntaxTree) → parse source ≡ ok t → All (NodeAt source) t.nodes
parse-NodeAt source t e =
    Covers-NodeAt source 0 (length source) t.nodes (parse_lossless source t e).2
