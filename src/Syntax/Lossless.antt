-- ===== src/Syntax/Lossless.antt =====
-- `parse` of src/syntax.rs loses no byte: the nodes cover the source.
use bbtidy.Base.{
  ℕ, ◌+◌, ◌≤◌, ◌<◌, ◌≡◌, refl, sym, ap, ◌∙◌, subst, List, [], ◌∷◌, ◌++◌, map, length, take, concat,
  append_assoc, append-nil, drop-cons_lt, take-append-slice, take-all, arith,
}
use bbtidy.Text.{Text, slice, count_byte, count_byte-append}
use bbtidy.Text.Scan.{scan, Kept, scan_inv}
use bbtidy.Syntax.Tree.{SyntaxKind, SyntaxNode, SyntaxTree}
use bbtidy.Syntax.Result.{Failure, Result, ok, err, ◌>>=◌}
use bbtidy.Syntax.Parse.{node_at, Parsing, node_of, after_node, parse_step, parse}
use bbtidy.Syntax.Located.{Located, node_at-Located}
use bbtidy.Syntax.Advance.{Ends, node_at-Ends}

-- The line of the byte at `offset`, from 1.
abbrev pub line_at : Text → ℕ → ℕ
line_at source offset = 1 + count_byte b'\n' (take offset source)

-- The nodes cover the bytes from `a` to `b` one behind the other, none is empty, and each holds
-- the text of its range and has the end and the kind that `node_at` gives at its offset and line.
abbrev pub Covers : Text → ℕ → ℕ → List SyntaxNode → Type 0
Covers source a b [] = a ≡ b
Covers source a b (n ∷ ns) =
    (n.range.start ≡ a)
    × (a < n.range.end)
    × (n.range.end ≤ length source)
    × (n.contents ≡ slice a n.range.end source)
    × (node_at source a (line_at source a) ≡ ok (n.range.end, n.kind))
    × Covers source n.range.end b ns

Covers-append :
    (source : Text) (a b c : ℕ) (kind : SyntaxKind) (ns : List SyntaxNode)
    → Covers source a b ns
    → b < c
    → c ≤ length source
    → node_at source b (line_at source b) ≡ ok (c, kind)
    → Covers source a c (ns ++ node_of source b c kind ∷ [])
Covers-append source a b c kind [] e h l at = (
  sym e,
  omega arith,
  l,
  ap (λ (k : ℕ). slice k c source) (sym e),
  subst (λ (k : ℕ). node_at source k (line_at source k) ≡ ok (c, kind)) (sym e) at,
  refl,
)
Covers-append source a b c kind (n ∷ ns) (e, p, q, t, k, later) h l at =
    (e, p, q, t, k, Covers-append source n.range.end b c kind ns later h l at)

pub texts : List SyntaxNode → Text
texts ns = concat (map (λ (n : SyntaxNode). n.contents) ns)

pub texts-Covers :
    (source : Text) (a b : ℕ) (ns : List SyntaxNode)
    → Covers source a b ns
    → take a source ++ texts ns ≡ take b source
unfolding texts
texts-Covers source a b [] e = append-nil (take a source) ∙ ap (λ (k : ℕ). take k source) e
texts-Covers source a b (n ∷ ns) (e, p, q, t, k, later) =
    ap (λ (s : Text). take a source ++ (s ++ texts ns)) t
    ∙ sym (append_assoc (take a source) (slice a n.range.end source) (texts ns))
    ∙ ap (λ (s : Text). s ++ texts ns) (take-append-slice a n.range.end source (omega arith))
    ∙ texts-Covers source n.range.end b ns later

module _ (source : Text) where
  abbrev Inv : ℕ → Parsing → Type 0
  Inv j p = (j ≤ length source) × Covers source 0 j p.nodes × (p.line_number ≡ line_at source j)

  -- The failure is that of the node at `offset`, and a format error gives the line of that node.
  pub record FailsAt (e : Failure) (offset : ℕ) : Type 0 where
    pub inside : offset < length source
    pub fails : node_at source offset (line_at source offset) ≡ err e
    pub located : Located (line_at source offset) e

  abbrev pub Outcome : Result (List SyntaxNode) → Type 0
  Outcome (ok nodes) = Covers source 0 (length source) nodes
  Outcome (err e) = (offset : ℕ) × FailsAt e offset

  after_node-Kept :
      (i : ℕ) (p : Parsing) (r : Result (ℕ × SyntaxKind))
      → i < length source
      → Inv i p
      → node_at source i p.line_number ≡ r
      → Ends source i r
      → Kept Inv Outcome i (after_node source i p r)
  unfolding after_node
  after_node-Kept i p (err e) h (l, c, n) eq w =
      let at = subst (λ (k : ℕ). node_at source i k ≡ err e) n eq in
      (
        i,
        record {
          inside = h;
          fails = at;
          located = node_at-Located (line_at source i) source i e at;
        },
      )
  after_node-Kept i p (ok (end, kind)) h (l, c, n) eq (after, within) =
      subst
        (λ (k : ℕ). Inv k (record {
          nodes = p.nodes ++ node_of source i end kind ∷ [];
          line_number = p.line_number + count_byte b'\n' (slice i end source);
        }))
        {x = end} (omega arith)
        (
          within,
          Covers-append source 0 i end kind p.nodes c after within
              (subst (λ (k : ℕ). node_at source i k ≡ ok (end, kind)) n eq),
          omega (
            arith,
            n,
            count_byte-append b'\n' (take i source) (slice i end source),
            ap (count_byte b'\n') (take-append-slice i end source (omega arith)),
          ),
        )

  nodes_of : Result (List SyntaxNode)
  unfolding parse_step
  nodes_of =
      scan (parse_step source) (λ p. ok p.nodes) 0 0 (record { nodes = []; line_number = 1 }) source

  nodes_of-Outcome : Outcome nodes_of
  unfolding nodes_of
  nodes_of-Outcome =
      scan_inv Inv Outcome (parse_step source) (λ p. ok p.nodes) source
        (λ i c cs p e inv.
          let h = (drop-cons_lt i source e).0 in
          after_node-Kept i p _ h inv refl (node_at-Ends source i p.line_number h))
        (λ j p l inv. subst (λ (k : ℕ). Covers source 0 k p.nodes) (omega arith) inv.1) 0 0 _ source
        refl (omega arith, refl, (unfold count_byte in omega arith))

  -- What is true of a result of `parse`.
  abbrev TreeOutcome : Result SyntaxTree → Type 0
  TreeOutcome (ok t) =
      (t.source ≡ source) × (texts t.nodes ≡ source) × Covers source 0 (length source) t.nodes
  TreeOutcome (err e) = (offset : ℕ) × FailsAt e offset

  tree-TreeOutcome :
      (r : Result (List SyntaxNode))
      → Outcome r
      → TreeOutcome (r >>= λ nodes. ok (record { source = source; nodes = nodes }))
  tree-TreeOutcome (ok nodes) c = (
    refl,
    texts-Covers source 0 (length source) nodes c ∙ take-all (length source) source (omega arith),
    c,
  )
  tree-TreeOutcome (err e) f = f

  parse-TreeOutcome : TreeOutcome (parse source)
  unfolding parse nodes_of
  parse-TreeOutcome = tree-TreeOutcome nodes_of nodes_of-Outcome

-- The texts of the nodes of a parsed source, put one behind the other, are the source; the nodes
-- cover it in order, with no gap and no overlap, none is empty, each holds the bytes of its
-- range, and has the end and the kind that `node_at` gives at its offset and line.
pub parse_lossless :
    (source : Text) (t : SyntaxTree)
    → parse source ≡ ok t
    → (t.source ≡ source) × (texts t.nodes ≡ source) × Covers source 0 (length source) t.nodes
parse_lossless source t e = subst (TreeOutcome source) e (parse-TreeOutcome source)

-- A failure of the parser is that of the node at some offset within the source, read at its line,
-- and a format error gives that line: one more than the line feeds before the offset. A panic gives
-- no line.
pub parse-FailsAt :
    (source : Text) (e : Failure) → parse source ≡ err e → (offset : ℕ) × FailsAt source e offset
parse-FailsAt source e h = subst (TreeOutcome source) h (parse-TreeOutcome source)
