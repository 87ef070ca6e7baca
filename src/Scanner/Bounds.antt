-- ===== src/Scanner/Bounds.antt =====
-- Where the scanners of src/lib.rs stop: behind the place where they start and within the text.
use bbtidy.Base.{
  ℕ, ◌≤◌, ◌<◌, ◌≡◌, refl, Option, none, some, false, [], ◌∷◌, length, drop, Option-cases, inl, inr,
  arith, length-drop, drop-cons_lt,
}
use bbtidy.Text.{Text, find_byte, find_byte-lt}
use bbtidy.Text.Scan.{Move, scan, Kept, scan_inv}
use bbtidy.Scanner.Lines.{next_line_end, continuation_step, find_continuation_end}
use bbtidy.Scanner.Shell.{ScannerFunctionKind, shell, python}
use bbtidy.Scanner.Braces.{
  FunctionQuote, single, triple, Block, BlockEnd, quoted_move, plain_move, shell_move,
  unquoted_move, block_step, outside, find_brace_block_end,
}
use bbtidy.Scanner.Python.{
  fresh, PythonDefHeader, Header, header_round, def_line_start, python_def_header, PythonBody,
  body_round, find_python_def_end,
}

pub next_line_end_bounds :
    (s : Text) (start : ℕ)
    → start ≤ length s
    → (start ≤ next_line_end s start) × (next_line_end s start ≤ length s)
unfolding next_line_end
next_line_end_bounds s start h = elim (Option-cases (find_byte (drop start s) b'\n')) [
  | inl e ↦ ground (arith, e)
  | inr (k, e) ↦ ground (arith, e, find_byte-lt (drop start s) b'\n' k e, length-drop start s)
]

pub next_line_end_after : (s : Text) (start : ℕ) → start < length s → start < next_line_end s start
unfolding next_line_end
next_line_end_after s start h = ground arith

-- A position behind `start` and within the text, if there is one.
abbrev pub Within : Text → ℕ → Option ℕ → Type 0
Within s start none = Unit
Within s start (some e) = (start < e) × (e ≤ length s)

continuation_step-Kept :
    (s : Text) (start i c : ℕ) (cs : Text)
    → drop i s ≡ c ∷ cs
    → start ≤ i
    → Kept (λ j (_ : Unit {0}). start ≤ j) (Within s start) i (continuation_step s i (c ∷ cs) tt)
unfolding continuation_step
continuation_step-Kept s start i c cs e h =
    ground (arith, drop-cons_lt i s e, next_line_end_bounds s i, next_line_end_after s i)

pub find_continuation_end-Within :
    (s : Text) (start : ℕ) → start < length s → Within s start (find_continuation_end s start)
unfolding find_continuation_end
find_continuation_end-Within s start h =
    scan_inv (λ j (_ : Unit {0}). start ≤ j) (Within s start) (continuation_step s)
      (λ _. some (length s)) s (λ i c cs _ e p. continuation_step-Kept s start i c cs e p)
      (λ j _ l p. omega arith) start 0 tt (drop start s) refl (omega arith)

-- The closing brace lies behind the opening one, and the block ends behind it.
abbrev pub BlockWithin : Text → ℕ → BlockEnd → Type 0
BlockWithin s start none = Unit
BlockWithin s start (some (e, closing)) = (start ≤ closing) × (closing < e) × (e ≤ length s)

module _ (s : Text) (start i : ℕ) (inside : i < length s) (behind : start ≤ i) where
  abbrev Keeps : Move Block BlockEnd → Type 0
  Keeps m = Kept (λ j (_ : Block). start ≤ j) (BlockWithin s start) i m

  plain_move-Keeps :
      (kind : ScannerFunctionKind) (byte : ℕ) (b : Block) → Keeps (plain_move s kind i byte b)
  unfolding plain_move
  plain_move-Keeps kind byte b = ground (arith, next_line_end_bounds s i, next_line_end_after s i)

  quoted_move-Keeps :
      (kind : ScannerFunctionKind) (rest : Text) (q : FunctionQuote) (b : Block)
      → Keeps (quoted_move s kind i rest q b)
  unfolding quoted_move
  quoted_move-Keeps kind [] q b = omega arith
  quoted_move-Keeps kind (c ∷ cs) (single d) b = ground arith
  quoted_move-Keeps kind (c ∷ cs) (triple d) b = ground arith

  shell_move-Keeps : (byte : ℕ) (rest : Text) (b : Block) → Keeps (shell_move s i byte rest b)
  unfolding shell_move
  shell_move-Keeps byte rest b = ground (arith, plain_move-Keeps shell byte b)

  unquoted_move-Keeps :
      (kind : ScannerFunctionKind) (rest : Text) (b : Block) → Keeps (unquoted_move s kind i rest b)
  unfolding unquoted_move
  unquoted_move-Keeps kind [] b = omega arith
  unquoted_move-Keeps python (c ∷ cs) b = ground (arith, plain_move-Keeps python c b)
  unquoted_move-Keeps shell (c ∷ cs) b = ground (arith, shell_move-Keeps c (c ∷ cs) b)

  block_step-Keeps :
      (kind : ScannerFunctionKind) (rest : Text) (b : Block) → Keeps (block_step s kind i rest b)
  unfolding block_step
  block_step-Keeps kind [] b = omega arith
  block_step-Keeps kind (c ∷ cs) b = elim (Option-cases b.quote) [
    | inl e ↦ ground (arith, e, unquoted_move-Keeps kind (c ∷ cs) b)
    | inr (q, e) ↦ ground (arith, e, quoted_move-Keeps kind (c ∷ cs) q b)
  ]

-- A function body that is found ends within the source, and its closing brace lies between the
-- place where the scan starts and the end of the body.
pub find_brace_block_end-Within :
    (s : Text) (start : ℕ) (kind : ScannerFunctionKind)
    → BlockWithin s start (find_brace_block_end s start kind)
unfolding find_brace_block_end
find_brace_block_end-Within s start kind =
    scan_inv (λ j (_ : Block). start ≤ j) (BlockWithin s start) (block_step s kind) (λ _. none) s
      (λ i c cs b e p. block_step-Keeps s start i (drop-cons_lt i s e).0 p kind (c ∷ cs) b)
      (λ j _ l p. tt) start 0 outside (drop start s) refl (omega arith)

abbrev pub HeaderWithin : Text → ℕ → Option PythonDefHeader → Type 0
HeaderWithin s start none = Unit
HeaderWithin s start (some h) =
    (start ≤ h.def_start) × (h.def_start < h.header_end) × (h.header_end ≤ length s)

header_round-Kept :
    (s : Text) (d i c : ℕ) (cs : Text) (h : Header)
    → drop i s ≡ c ∷ cs
    → d ≤ i
    → Kept (λ j (_ : Header). d ≤ j) (HeaderWithin s d) i (header_round s d i (c ∷ cs) h)
unfolding header_round
header_round-Kept s d i c cs h e p =
    ground (arith, drop-cons_lt i s e, next_line_end_bounds s i, next_line_end_after s i)

def_line_start_bounds :
    (s : Text) (start : ℕ)
    → start ≤ length s
    → (d : ℕ) → def_line_start s start ≡ some d
    → start ≤ d
unfolding def_line_start
def_line_start_bounds s start h d e = ground (arith, next_line_end_bounds s start)

-- A Python header that is found begins at or behind the start, is not empty, and ends within the
-- source.
pub python_def_header-Within :
    (s : Text) (start : ℕ) → start ≤ length s → HeaderWithin s start (python_def_header s start)
unfolding python_def_header
python_def_header-Within s start h =
    go_on (def_line_start s start) (def_line_start_bounds s start h)
  where
    loosen :
        (d : ℕ) (r : Option PythonDefHeader)
        → start ≤ d
        → HeaderWithin s d r
        → HeaderWithin s start r
    loosen d none l w = tt
    loosen d (some r) l w = omega arith

    go_on :
        (found : Option ℕ)
        → ((d : ℕ) → found ≡ some d → start ≤ d)
        → HeaderWithin s start (elim found as (λ _. Option PythonDefHeader) [
          | none ↦ none
          | some d ↦
              scan
                (header_round s d)
                (λ _. none)
                d
                0
                (record { state = fresh; saw_header_token = false })
                (drop d s)
        ])
    go_on none f = tt
    go_on (some d) f = loosen d _ (f d refl) (
        scan_inv (λ j (_ : Header). d ≤ j) (HeaderWithin s d) (header_round s d) (λ _. none) s
          (λ i c cs k e p. header_round-Kept s d i c cs k e p) (λ j _ l p. tt) d 0 _ (drop d s) refl
          (omega arith))

body_round-Kept :
    (s : Text) (start i c : ℕ) (cs : Text) (b : PythonBody)
    → drop i s ≡ c ∷ cs
    → start ≤ i
    → Kept
        (λ j (_ : PythonBody). start ≤ j)
        (λ e. (start ≤ e) × (e ≤ length s))
        i
        (body_round s i (c ∷ cs) b)
unfolding body_round
body_round-Kept s start i c cs b e p = ground (arith, drop-cons_lt i s e)

pub find_python_def_end_bounds :
    (s : Text) (start : ℕ)
    → start ≤ length s
    → (start ≤ find_python_def_end s start) × (find_python_def_end s start ≤ length s)
unfolding find_python_def_end
find_python_def_end_bounds s start h =
    scan_inv (λ j (_ : PythonBody). start ≤ j) (λ e. (start ≤ e) × (e ≤ length s)) (body_round s)
      (λ _. length s) s (λ i c cs b e p. body_round-Kept s start i c cs b e p)
      (λ j _ l p. (h, omega arith)) start 0 _ (drop start s) refl (omega arith)
