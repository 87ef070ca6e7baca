-- ===== src/Syntax/Advance.antt =====
-- Every node of src/syntax.rs ends behind its start and within the source.
use bbtidy.Base.{ℕ, ◌+◌, ◌≤◌, ◌<◌, ◌≡◌, refl, Option-cases, inl, inr, length, arith}
use bbtidy.Text.{Text, slice}
use bbtidy.Scanner.Lines.{next_line_end}
use bbtidy.Scanner.Shell.{ScannerFunctionKind}
use bbtidy.Scanner.Python.{PythonDefHeader, python_def_header}
use bbtidy.Scanner.Functions.{function_opening_brace}
use bbtidy.Scanner.Bounds.{
  next_line_end_bounds, next_line_end_after, find_continuation_end-Within,
  find_brace_block_end-Within, python_def_header-Within, find_python_def_end_bounds,
}
use bbtidy.Syntax.Tree.{SyntaxKind}
use bbtidy.Syntax.Result.{Result, ok, err, ◌>>=◌}
use bbtidy.Syntax.Parse.{function_node, python_node, statement_end, statement_node, node_at}

module _ (source : Text) (offset : ℕ) where
  -- The end of a node, if there is one.
  abbrev pub Ends : Result (ℕ × SyntaxKind) → Type 0
  Ends (err e) = Unit
  Ends (ok (end, kind)) = (offset < end) × (end ≤ length source)

  function_node-Ends :
      (line : Text) (line_number : ℕ) (opening : ℕ × ScannerFunctionKind)
      → Ends (function_node source offset line line_number opening)
  unfolding function_node
  function_node-Ends line line_number (brace, kind) =
      ground (arith, find_brace_block_end-Within source (offset + brace) kind)

  python_node-Ends :
      (h : PythonDefHeader)
      → (offset ≤ h.def_start) × (h.def_start < h.header_end) × (h.header_end ≤ length source)
      → Ends (python_node source h)
  unfolding python_node
  python_node-Ends h w = ground (arith, find_python_def_end_bounds source h.header_end)

  pub statement_end_bounds :
      (line_number end : ℕ)
      → offset < length source
      → statement_end source offset
          (slice offset (next_line_end source offset) source)
          (next_line_end source offset)
          line_number
        ≡ ok end
      → (offset < end) × (end ≤ length source)
  unfolding statement_end
  statement_end_bounds line_number end h e = ground (
    arith,
    find_continuation_end-Within source offset h,
    next_line_end_bounds source offset,
    next_line_end_after source offset,
  )

  statement_node-Ends :
      (line_number : ℕ)
      → offset < length source
      → Ends (
          statement_node source offset
            (slice offset (next_line_end source offset) source)
            (next_line_end source offset)
            line_number)
  unfolding statement_node
  statement_node-Ends line_number h =
      chain (statement_end source offset _ _ line_number) _
        (λ end e. statement_end_bounds line_number end h e)
    where
      chain :
          (m : Result ℕ) (classify : ℕ → Result SyntaxKind)
          → ((end : ℕ) → m ≡ ok end → (offset < end) × (end ≤ length source))
          → Ends (m >>= λ end. classify end >>= λ kind. ok (end, kind))
      chain (err e) classify f = tt
      chain (ok end) classify f = classified (classify end) (f end refl)
        where
          classified :
              (k : Result SyntaxKind)
              → (offset < end) × (end ≤ length source)
              → Ends (k >>= λ kind. ok (end, kind))
          classified (err e) b = tt
          classified (ok kind) b = b

  pub node_at-Ends :
      (line_number : ℕ) → offset < length source → Ends (node_at source offset line_number)
  unfolding node_at
  node_at-Ends line_number h =
      let header = python_def_header-Within source offset (omega arith) in
      elim (Option-cases
        (function_opening_brace (slice offset (next_line_end source offset) source))) [
          | inr (opening, e) ↦ ground (
            arith,
            e,
            function_node-Ends (slice offset (next_line_end source offset) source) line_number
                opening,
          )
          | inl e ↦ elim (Option-cases (python_def_header source offset)) [
            | inr (d, e') ↦ ground (arith, e, e', header, python_node-Ends d)
            | inl e' ↦ ground (arith, e, e', statement_node-Ends line_number h)
          ]
        ]
