-- ===== src/Body/Diagnostics.antt =====
-- src/body.rs: `BodyDiagnostic` and `sort_body_diagnostics`.
use bbtidy.Base.{ℕ, Bool, not, ◌&&◌, ◌||◌, List, [], ◌∷◌, ltb, ◌==◌, if◌then◌else◌}
use bbtidy.Base.Sorting.{sort_by}
use bbtidy.Text.{Text, text_eq}
use bbtidy.Text.Maps.{text_lt}
use bbtidy.Syntax.Tree.{TextRange}

pub data BodyDiagnosticKind : Type 0 where
  shell_syntax python_syntax python_indentation : BodyDiagnosticKind

pub record BodyDiagnostic : Type 0 where
  pub kind : BodyDiagnosticKind
  pub range : TextRange
  pub message : Text

abbrev pub body_diagnostic_kind_order : BodyDiagnosticKind → ℕ
body_diagnostic_kind_order shell_syntax = 0
body_diagnostic_kind_order python_syntax = 1
body_diagnostic_kind_order python_indentation = 2

-- The order of start, end, kind and message.
abbrev pub diagnostic_before : BodyDiagnostic → BodyDiagnostic → Bool
diagnostic_before a b =
    let m = body_diagnostic_kind_order a.kind in
    let n = body_diagnostic_kind_order b.kind in
    ltb a.range.start b.range.start
    || ((a.range.start == b.range.start)
        && (ltb a.range.end b.range.end
            || ((a.range.end == b.range.end)
                && (ltb m n || ((m == n) && not (text_lt b.message a.message))))))

abbrev pub same_diagnostic : BodyDiagnostic → BodyDiagnostic → Bool
same_diagnostic a b =
    (body_diagnostic_kind_order a.kind == body_diagnostic_kind_order b.kind)
    && (a.range.start == b.range.start)
    && (a.range.end == b.range.end)
    && text_eq a.message b.message

-- `dedup_by`, behind an element that is kept
unfoldable pub dedup_behind : BodyDiagnostic → List BodyDiagnostic → List BodyDiagnostic
dedup_behind kept [] = []
dedup_behind kept (d ∷ ds) =
    let dropped = dedup_behind kept ds in
    let later = dedup_behind d ds in if same_diagnostic d kept then dropped else d ∷ later

unfoldable pub dedup : List BodyDiagnostic → List BodyDiagnostic
unfolding dedup_behind
dedup [] = []
dedup (d ∷ ds) = d ∷ dedup_behind d ds

unfoldable pub sort_body_diagnostics : List BodyDiagnostic → List BodyDiagnostic
unfolding dedup
sort_body_diagnostics diagnostics = dedup (sort_by diagnostic_before diagnostics)
