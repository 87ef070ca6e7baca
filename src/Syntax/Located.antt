-- ===== src/Syntax/Located.antt =====
-- The lines of the errors of `parse` in src/syntax.rs.
use bbtidy.Base.{ℕ, ◌≡◌, subst, arith, Bool, Option-cases, inl, inr}
use bbtidy.Text.{Text, slice, text}
use bbtidy.Scanner.Lines.{next_line_end}
use bbtidy.Scanner.Shell.{ScannerFunctionKind}
use bbtidy.Scanner.Python.{PythonDefHeader, python_def_header}
use bbtidy.Scanner.Functions.{function_opening_brace}
use bbtidy.Syntax.Result.{Failure, format_error, panic, Result, ok, err, ◌>>=◌}
use bbtidy.Syntax.Statement.{parse_assignment, classify_statement}
use bbtidy.Syntax.Parse.{function_node, python_node, statement_end, statement_node, node_at}

-- A format error gives the line; a panic has none.
abbrev pub Located : ℕ → Failure → Type 0
Located line (format_error n message) = n ≡ line
Located line panic = Unit

module _ (line : ℕ) where
  abbrev Outcome {ℓ} : {A : Type ℓ} → Result A → Type 0
  Outcome (err e) = Located line e
  Outcome (ok value) = Unit

  Outcome-bind :
      {A B : Type 0} (r : Result A) (rest : A → Result B)
      → Outcome r
      → ((value : A) → Outcome (rest value))
      → Outcome (r >>= rest)
  Outcome-bind (err e) rest h later = h
  Outcome-bind (ok value) rest h later = later value

  parse_assignment-Located :
      (source : Text) (start : ℕ) (s : Text) (continued : Bool)
      → Outcome (parse_assignment source start s continued line)
  unfolding parse_assignment
  parse_assignment-Located source start s continued = ground arith

  classify_statement-Located :
      (source : Text) (start : ℕ) (s : Text) (continued : Bool)
      → Outcome (classify_statement source start s continued line)
  unfolding classify_statement
  classify_statement-Located source start s continued =
      ground (arith, parse_assignment-Located source start s continued)

  statement_end-Located :
      (source : Text) (offset : ℕ) (text : Text) (line_end : ℕ)
      → Outcome (statement_end source offset text line_end line)
  unfolding statement_end
  statement_end-Located source offset text line_end = ground arith

  statement_node-Located :
      (source : Text) (offset : ℕ) (text : Text) (line_end : ℕ)
      → Outcome (statement_node source offset text line_end line)
  unfolding statement_node
  statement_node-Located source offset text line_end =
      Outcome-bind (statement_end source offset text line_end line) _
        (statement_end-Located source offset text line_end)
        (λ end.
          Outcome-bind (classify_statement source offset (slice offset end source) _ line) _
            (classify_statement-Located source offset (slice offset end source) _) (λ kind. tt))

  function_node-Located :
      (source : Text) (offset : ℕ) (text : Text) (opening : ℕ × ScannerFunctionKind)
      → Outcome (function_node source offset text line opening)
  unfolding function_node
  function_node-Located source offset text (brace, kind) = ground arith

  python_node-Located :
      (source : Text) (header : PythonDefHeader) → Outcome (python_node source header)
  unfolding python_node
  python_node-Located source header = ground arith

  -- The error of a node gives the line that the node is read at.
  node_at-Outcome : (source : Text) (offset : ℕ) → Outcome (node_at source offset line)
  unfolding node_at
  node_at-Outcome source offset =
      elim (Option-cases
        (function_opening_brace (slice offset (next_line_end source offset) source))) [
          | inr (opening, e) ↦ rw (e, node_at) (function_node-Located source offset _ opening)
          | inl e ↦ elim (Option-cases (python_def_header source offset)) [
            | inr (header, f) ↦ rw (e, node_at) (rw f (python_node-Located source header))
            | inl f ↦ rw (e, node_at) (rw f (statement_node-Located source offset _ _))
          ]
        ]

  pub node_at-Located :
      (source : Text) (offset : ℕ) (e : Failure)
      → node_at source offset line ≡ err e
      → Located line e
  node_at-Located source offset e same = subst Outcome same (node_at-Outcome source offset)
