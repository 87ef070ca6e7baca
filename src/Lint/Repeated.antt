-- ===== src/Lint/Repeated.antt =====
-- Which functions `check_duplicate_functions` of src/lint.rs reports.
use bbtidy.Base.{
  ◌≡◌, refl, sym, ap, ◌∙◌, Option, none, some, Bool, true, ◌||◌, List, [], ◌∷◌, ◌++◌, append_assoc,
  append-nil, any, Bool-cases, Option-cases, inl, inr, if◌then◌else◌, arith,
}
use bbtidy.Text.{Text, text_eq, text_eq-true}
use bbtidy.Syntax.Tree.{TextRange, SyntaxNode}
use bbtidy.Lint.Options.{LintDiagnostic}
use bbtidy.Lint.Nodes.{repeated_report, declared_name, functions_from, check_duplicate_functions}

-- The names of the functions that the nodes declare.
unfoldable pub declared : List SyntaxNode → List Text
declared [] = []
declared (node ∷ nodes) = elim (declared_name node.kind) [
  | none ↦ declared nodes
  | some found ↦ found.0 ∷ declared nodes
]

-- The report on a node behind others, if it declares a function of a name in a list.
abbrev pub report_of : Text → List Text → Option (Text × Option TextRange) → List LintDiagnostic
report_of source names none = []
report_of source names (some (name, place)) =
    if any (text_eq name) names then repeated_report source name place else []

abbrev Known : List Text → List Text → Type 0
Known names names' = (name : Text) → any (text_eq name) names ≡ any (text_eq name) names'

report_of-Known :
    (source : Text) (names names' : List Text) (found : Option (Text × Option TextRange))
    → Known names names'
    → report_of source names found ≡ report_of source names' found
report_of-Known source names names' none k = refl
report_of-Known source names names' (some (name, place)) k =
    ap (λ (b : Bool). if b then repeated_report source name place else []) (k name)

any-append :
    (name : Text) (xs ys : List Text)
    → any (text_eq name) (xs ++ ys) ≡ (any (text_eq name) xs || any (text_eq name) ys)
any-append name [] ys = refl
any-append name (x ∷ xs) ys = ground (arith, any-append name xs ys)

-- A name that is in the list already, and a name that moves to the front.
Known-repeated :
    (name : Text) (seen later : List Text)
    → any (text_eq name) seen ≡ true
    → Known (seen ++ later) (seen ++ name ∷ later)
Known-repeated name seen later e other = elim (Bool-cases (text_eq other name)) [
  | inl same ↦
      let same_name = text_eq-true other name same in
      let found : any (text_eq other) seen ≡ true =
        ap (λ (n : Text). any (text_eq n) seen) same_name ∙ e in
      ground (arith, any-append other seen later, any-append other seen (name ∷ later), found)
  | inr different ↦
      ground (arith, any-append other seen later, any-append other seen (name ∷ later), different)
]

Known-moved :
    (name : Text) (seen later : List Text) → Known (name ∷ seen ++ later) (seen ++ name ∷ later)
Known-moved name seen later other =
    ground (arith, any-append other seen later, any-append other seen (name ∷ later))

functions_from-snoc :
    (source : Text) (seen : List Text) (nodes : List SyntaxNode) (node : SyntaxNode)
    → functions_from source seen (nodes ++ node ∷ [])
      ≡ functions_from source seen nodes
        ++ report_of source (seen ++ declared nodes) (declared_name node.kind)
unfolding functions_from declared
functions_from-snoc source seen [] node = elim (Option-cases (declared_name node.kind)) [
  | inl e ↦ rw (e, functions_from) refl
  | inr (found, e) ↦
      rw (e, functions_from)
        (rw (append-nil seen) (rw (append-nil (repeated_report source found.0 found.1)) refl))
]
functions_from-snoc source seen (n ∷ nodes) node = elim (Option-cases (declared_name n.kind)) [
  | inl e ↦ rw (e, functions_from, declared) (functions_from-snoc source seen nodes node)
  | inr (found, e) ↦ elim (Bool-cases (any (text_eq found.0) seen)) [
    | inl f ↦
        rw (e, functions_from, declared)
          (rw f (
            ap (λ (t : List LintDiagnostic). repeated_report source found.0 found.1 ++ t)
              (functions_from-snoc source seen nodes node
                ∙ ap (λ (t : List LintDiagnostic). functions_from source seen nodes ++ t)
                    (report_of-Known source (seen ++ declared nodes)
                      (seen ++ found.0 ∷ declared nodes) (declared_name node.kind)
                      (Known-repeated found.0 seen (declared nodes) f)))
            ∙ sym (
                append_assoc (repeated_report source found.0 found.1)
                  (functions_from source seen nodes)
                  (report_of source (seen ++ found.0 ∷ declared nodes) (declared_name node.kind)))))
    | inr f ↦
        rw (e, functions_from, declared)
          (rw f (
            functions_from-snoc source (found.0 ∷ seen) nodes node
            ∙ ap (λ (t : List LintDiagnostic). functions_from source (found.0 ∷ seen) nodes ++ t)
                (report_of-Known source (found.0 ∷ seen ++ declared nodes)
                  (seen ++ found.0 ∷ declared nodes) (declared_name node.kind)
                  (Known-moved found.0 seen (declared nodes)))))
  ]
]

-- A node behind others adds a report exactly if it declares a function, at a known place, whose name
-- one of them has declared; and nothing is reported of no nodes.
pub check_duplicate_functions-snoc :
    (source : Text) (nodes : List SyntaxNode) (node : SyntaxNode)
    → (check_duplicate_functions (record { source = source; nodes = [] }) ≡ [])
      × (check_duplicate_functions (record { source = source; nodes = nodes ++ node ∷ [] })
          ≡ check_duplicate_functions (record { source = source; nodes = nodes })
            ++ report_of source (declared nodes) (declared_name node.kind))
unfolding check_duplicate_functions functions_from
check_duplicate_functions-snoc source nodes node = (refl, functions_from-snoc source [] nodes node)
