-- ===== src/Formatter/Verbatim.antt =====
-- What src/formatter.rs writes for the nodes of a source.
use bbtidy.Base.{
  ◌≡◌, refl, sym, subst, ap, ◌∙◌, true, false, ◌||◌, List, [], ◌∷◌, ◌++◌, append-nil, append_assoc,
  is_empty, leb, Bool-cases, inl, inr,
}
use bbtidy.Text.{Text}
use bbtidy.Scanner.Lines.{split_line_ending}
use bbtidy.Syntax.Tree.{
  SyntaxKind, blank, comment, unknown, assignment, directive, function, python_definition,
  AssignmentSyntax, DirectiveSyntax, FunctionSyntax, PythonDefinitionSyntax, SyntaxNode, SyntaxTree,
}
use bbtidy.Syntax.Result.{ok}
use bbtidy.Syntax.Parse.{parse}
use bbtidy.Syntax.Lossless.{texts, parse_lossless}
use bbtidy.Formatter.Options.{FormatOptions}
use bbtidy.Formatter.Output.{
  is_format_safe_assignment, format_assignment, format_directive, append_normalized_blank_line,
  trailing_blank_lines, node_text, format_node, format_nodes, format_syntax_with_options,
  format_with_options,
}

-- Nodes that the formatter does not touch.
pub data IsUntouched : SyntaxKind → Type 0 where
  a_comment : IsUntouched comment
  an_unknown : IsUntouched unknown
  a_function : (f : FunctionSyntax) → IsUntouched (function f)
  a_python_definition : (d : PythonDefinitionSyntax) → IsUntouched (python_definition d)
  an_unsafe_assignment :
      (a : AssignmentSyntax) → is_format_safe_assignment a ≡ false → IsUntouched (assignment a)

-- The text is what is written for the nodes, one behind the other: an untouched node as it stands,
-- a blank line as its ending or not at all, a safe assignment and a directive in their layout.
pub data Written (options : FormatOptions) : List SyntaxNode → Text → Type 0 where
  nothing : Written options [] []
  untouched :
      {ns : List SyntaxNode} {out : Text} (n : SyntaxNode)
      → IsUntouched n.kind
      → Written options ns out
      → Written options (n ∷ ns) (n.contents ++ out)
  blank_dropped :
      {ns : List SyntaxNode} {out : Text} (n : SyntaxNode)
      → n.kind ≡ blank
      → Written options ns out
      → Written options (n ∷ ns) out
  blank_kept :
      {ns : List SyntaxNode} {out : Text} (n : SyntaxNode)
      → n.kind ≡ blank
      → Written options ns out
      → Written options (n ∷ ns) ((split_line_ending n.contents).1 ++ out)
  assigned :
      {ns : List SyntaxNode} {out : Text} (n : SyntaxNode) (a : AssignmentSyntax)
      → n.kind ≡ assignment a
      → is_format_safe_assignment a ≡ true
      → Written options ns out
      → Written options (n ∷ ns) (format_assignment n a options ++ out)
  directed :
      {ns : List SyntaxNode} {out : Text} (n : SyntaxNode) (d : DirectiveSyntax)
      → n.kind ≡ directive d
      → Written options ns out
      → Written options (n ∷ ns) (format_directive n d options ++ out)

module _ (options : FormatOptions) where
  -- A piece that is written for the node `n` behind `output`.
  record Piece (output : Text) (n : SyntaxNode) (kind : SyntaxKind) : Type 0 where
    piece : Text
    appended : format_node options output n kind ≡ output ++ piece
    fits :
        {ns : List SyntaxNode} {out : Text}
        → Written options ns out
        → Written options (n ∷ ns) (piece ++ out)

  blank-Piece : (output : Text) (n : SyntaxNode) → n.kind ≡ blank → Piece output n blank
  unfolding format_node append_normalized_blank_line
  blank-Piece output n e =
      elim (Bool-cases (
        is_empty (split_line_ending n.contents).1
        || leb options.max_top_level_blank_lines (trailing_blank_lines output))) [
          | inl f ↦ record {
            piece = [];
            appended = rw f (sym (append-nil output));
            fits = λ w. blank_dropped n e w;
          }
          | inr f ↦ record {
            piece = (split_line_ending n.contents).1;
            appended = rw f refl;
            fits = λ w. blank_kept n e w;
          }
        ]

  untouched-Piece :
      (output : Text) (n : SyntaxNode) (kind : SyntaxKind)
      → format_node options output n kind ≡ output ++ n.contents
      → n.kind ≡ kind
      → IsUntouched kind
      → Piece output n kind
  untouched-Piece output n kind same e u = record {
    piece = n.contents;
    appended = same;
    fits = λ w. untouched n (subst IsUntouched (sym e) u) w;
  }

  assignment-Piece :
      (output : Text) (n : SyntaxNode) (a : AssignmentSyntax)
      → n.kind ≡ assignment a
      → Piece output n (assignment a)
  unfolding format_node node_text
  assignment-Piece output n a e = elim (Bool-cases (is_format_safe_assignment a)) [
    | inl safe ↦ record {
      piece = format_assignment n a options;
      appended = rw safe refl;
      fits = λ w. assigned n a e safe w;
    }
    | inr unsafe ↦
        untouched-Piece output n (assignment a) (rw unsafe refl) e (an_unsafe_assignment a unsafe)
  ]

  format_node-Piece :
      (output : Text) (n : SyntaxNode) (kind : SyntaxKind) → n.kind ≡ kind → Piece output n kind
  unfolding format_node node_text
  format_node-Piece output n blank e = blank-Piece output n e
  format_node-Piece output n comment e = untouched-Piece output n comment refl e a_comment
  format_node-Piece output n unknown e = untouched-Piece output n unknown refl e an_unknown
  format_node-Piece output n (assignment a) e = assignment-Piece output n a e
  format_node-Piece output n (directive d) e = record {
    piece = format_directive n d options;
    appended = refl;
    fits = λ w. directed n d e w;
  }
  format_node-Piece output n (function f) e =
      untouched-Piece output n (function f) refl e (a_function f)
  format_node-Piece output n (python_definition d) e =
      untouched-Piece output n (python_definition d) refl e (a_python_definition d)

  format_nodes-Written :
      (output : Text) (ns : List SyntaxNode)
      → (out : Text) × (format_nodes options output ns ≡ output ++ out) × Written options ns out
  unfolding format_nodes
  format_nodes-Written output [] = ([], sym (append-nil output), nothing)
  format_nodes-Written output (n ∷ ns) =
      let p = format_node-Piece output n n.kind refl in
      let (out, e, w) = format_nodes-Written (format_node options output n n.kind) ns in
      (
        p.piece ++ out,
        e ∙ ap (λ (t : Text). t ++ out) p.appended ∙ append_assoc output p.piece out,
        p.fits w,
      )

-- The output of the formatter is written for the nodes of the source in their order, and these put
-- together are the source; comments, unknown lines, functions, Python definitions and assignments
-- that are not safe to format stand in the output byte for byte.
pub format_with_options-Written :
    (source : Text) (options : FormatOptions) (t : SyntaxTree)
    → parse source ≡ ok t
    → (out : Text) × (format_with_options source options ≡ ok out)
      × Written options t.nodes out
      × (texts t.nodes ≡ source)
unfolding format_with_options format_syntax_with_options
format_with_options-Written source options t e =
    let (out, same, w) = format_nodes-Written options [] t.nodes in
    (out, rw e (ap ok same), w, (parse_lossless source t e).1)
