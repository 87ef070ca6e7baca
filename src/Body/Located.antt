-- ===== src/Body/Located.antt =====
-- Where `analyze_python_tokens` of src/body.rs reports an error.
use bbtidy.Base.{
  ℕ, ◌+◌, ◌-◌, ◌≤◌, ◌<◌, ◌≡◌, refl, Option, none, some, ◌==◌, Bool, true, false, ◌||◌, List, [],
  ◌∷◌, length, drop, drop-cons_lt, All, All-append, Option-cases, Bool-cases, inl, inr,
  if◌then◌else◌, arith,
}
use bbtidy.Text.{Text, starts_with}
use bbtidy.Scanner.Python.{next_char_boundary}
use bbtidy.Text.Scan.{Move, go, stop, Kept, scan_inv}
use bbtidy.Body.Diagnostics.{python_syntax, BodyDiagnostic}
use bbtidy.Body.Python.{
  PythonQuote, PythonDelimiter, PythonScan, single_quote, double_quote, triple_single,
  triple_double, quote_text, opening_of, opens_with, without_last, close_delimiter, bracket_step,
  string_move, code_move, python_step, open_string, open_delimiters, python_finish,
  first_python_scan, analyze_python_tokens,
}

-- A syntax error of a range that is not empty and within a text of `n` bytes.
abbrev pub IsLocated : ℕ → BodyDiagnostic → Type 0
IsLocated n d = (d.kind ≡ python_syntax) × (d.range.start < d.range.end) × (d.range.end ≤ n)

abbrev StartLocated : ℕ → Option PythonQuote → ℕ → Type 0
StartLocated n none start = Unit
StartLocated n (some q) start = start < n

-- The loop variables point into the text.
abbrev AllLocated : ℕ → PythonScan → Type 0
AllLocated n s =
    All (IsLocated n) s.diagnostics
    × All (λ (d : PythonDelimiter). d.offset < n) s.delimiters
    × StartLocated n s.quote s.quote_start

abbrev MoveLocated : ℕ → Move PythonScan (List BodyDiagnostic) → Type 0
MoveLocated n (go s skip) = AllLocated n s
MoveLocated n (stop r) = All (IsLocated n) r

MoveLocated-if :
    (n : ℕ) (b : Bool) (m k : Move PythonScan (List BodyDiagnostic))
    → MoveLocated n m
    → MoveLocated n k
    → MoveLocated n (if b then m else k)
MoveLocated-if n true m k p q = p
MoveLocated-if n false m k p q = q

AllLocated-if :
    (n : ℕ) (b : Bool) (s t : PythonScan)
    → AllLocated n s
    → AllLocated n t
    → AllLocated n (if b then s else t)
AllLocated-if n true s t p q = p
AllLocated-if n false s t p q = q

All-without_last :
    (n : ℕ) (ds : List PythonDelimiter)
    → All (λ (d : PythonDelimiter). d.offset < n) ds
    → All (λ (d : PythonDelimiter). d.offset < n) (without_last ds)
All-without_last n [] a = tt
All-without_last n (d ∷ ds) a = a.1

module _ (n index : ℕ) (inside : index < n) (s : PythonScan) (a : AllLocated n s) where
  close_delimiter-AllLocated : (c : ℕ) → AllLocated n (close_delimiter index c s)
  unfolding close_delimiter
  close_delimiter-AllLocated c = AllLocated-if n s.delimiter_uncertain _ _ a (
      AllLocated-if n (opens_with (opening_of c) s.delimiters) _ _
        (a.0, All-without_last n s.delimiters a.1, a.2)
        (
          All-append (IsLocated n) s.diagnostics _ a.0 ((refl, omega arith, omega arith), tt),
          a.1,
          a.2,
        ))

  bracket_step-AllLocated : (c : ℕ) → AllLocated n (bracket_step index c s)
  unfolding bracket_step
  bracket_step-AllLocated c =
      AllLocated-if n ((c == b'(') || (c == b'[') || (c == b'{')) _ _
        (AllLocated-if n s.delimiter_uncertain _ _ a (a.0, (inside, a.1), a.2))
        (AllLocated-if n ((c == b')') || (c == b']') || (c == b'}')) _ _
          (close_delimiter-AllLocated c) a)

  string_move-MoveLocated :
      (char_skip : ℕ) (active : PythonQuote) (bytes : Text) (c : ℕ)
      → MoveLocated n (string_move char_skip active bytes c s)
  unfolding string_move
  string_move-MoveLocated char_skip active bytes c = MoveLocated-if n s.escaped _ _ a (
      MoveLocated-if n (c == b'\\') _ _ a
        (MoveLocated-if n (starts_with bytes (quote_text active)) _ _ (a.0, a.1, tt) a))

  code_move-MoveLocated :
      (char_skip : ℕ) (bytes : Text) (c : ℕ) → MoveLocated n (code_move index char_skip bytes c s)
  unfolding code_move
  code_move-MoveLocated char_skip bytes c = MoveLocated-if n (c == b'#') _ _ a (
      MoveLocated-if n ((c == b'\'') || (c == b'"')) _ _ (a.0, a.1, inside)
        (bracket_step-AllLocated c))

python_step-MoveLocated :
    (source : Text) (index c : ℕ) (cs : Text) (s : PythonScan)
    → drop index source ≡ c ∷ cs
    → AllLocated (length source) s
    → MoveLocated (length source) (python_step source index (c ∷ cs) s)
unfolding python_step
python_step-MoveLocated source index c cs s e a =
    let n = length source in
    let inside = (drop-cons_lt index source e).0 in
    let char_skip = next_char_boundary source index - (index + 1) in
    MoveLocated-if n s.comment _ _
      (MoveLocated-if n (c == b'\n') (go (record s { comment = false }) 0) (go s char_skip) a a)
      (elim (Option-cases s.quote) [
        | inl f ↦ rw f (code_move-MoveLocated n index inside s a char_skip (c ∷ cs) c)
        | inr (active, f) ↦
            rw f (string_move-MoveLocated n index inside s a char_skip active (c ∷ cs) c)
      ])

open_delimiters-All :
    (n : ℕ) (ds : List PythonDelimiter)
    → All (λ (d : PythonDelimiter). d.offset < n) ds
    → All (IsLocated n) (open_delimiters ds)
unfolding open_delimiters
open_delimiters-All n [] a = tt
open_delimiters-All n (d ∷ ds) a = ((refl, omega arith, omega arith), open_delimiters-All n ds a.1)

quote_text-length : (q : PythonQuote) → 0 < length (quote_text q)
quote_text-length single_quote = omega arith
quote_text-length double_quote = omega arith
quote_text-length triple_single = omega arith
quote_text-length triple_double = omega arith

open_string-All :
    (source : Text) (s : PythonScan)
    → StartLocated (length source) s.quote s.quote_start
    → All (IsLocated (length source)) (open_string source s)
open_string-All source s a = elim (Option-cases s.quote) [
  | inl e ↦ rw e tt
  | inr (active, e) ↦
      let starts : s.quote_start < length source = rw e at a in
      rw e ((refl, omega (arith, quote_text-length active), omega arith), tt)
]

python_finish-All :
    (source : Text) (s : PythonScan)
    → AllLocated (length source) s
    → All (IsLocated (length source)) (python_finish source s)
unfolding python_finish
python_finish-All source s (d, o, q) = elim (Bool-cases s.delimiter_uncertain) [
  | inl e ↦
      rw (e, python_finish)
        (All-append (IsLocated (length source)) s.diagnostics (open_string source s) d
          (open_string-All source s q))
  | inr e ↦
      rw (e, python_finish)
        (All-append (IsLocated (length source)) s.diagnostics _ d (
          All-append (IsLocated (length source)) (open_string source s) _
            (open_string-All source s q) (open_delimiters-All (length source) s.delimiters o)))
]

Kept-IsLocated :
    (n i : ℕ) (m : Move PythonScan (List BodyDiagnostic))
    → MoveLocated n m
    → Kept (λ j s. AllLocated n s) (All (IsLocated n)) i m
Kept-IsLocated n i (go s skip) a = a
Kept-IsLocated n i (stop r) a = a

-- Every error in the tokens of a Python body is reported at a range that is not empty and lies
-- within the body.
pub analyze_python_tokens-IsLocated :
    (source : Text) → All (IsLocated (length source)) (analyze_python_tokens source)
unfolding analyze_python_tokens
analyze_python_tokens-IsLocated source =
    let n = length source in
    scan_inv (λ j s. AllLocated n s) (All (IsLocated n)) (python_step source) (python_finish source)
      source
      (λ i c cs s e a.
        Kept-IsLocated n i (python_step source i (c ∷ cs) s)
          (python_step-MoveLocated source i c cs s e a))
      (λ j s l a. python_finish-All source s a) 0 0 first_python_scan source refl (tt, tt, tt)
