-- ===== src/Body/Nesting.antt =====
-- The blocks that `analyze_shell_body` of src/body.rs accepts, as nested text.
use bbtidy.Base.{
  ℕ, zero, suc, ◌≤◌, ◌<◌, ◌≡◌, ◌↔◌, refl, subst, Option, ◌∙◌, none, some, List, [], ◌∷◌, length,
  Bool-cases, inl, inr, arith,
}
use bbtidy.Base.Sorting.{insert_sorted, sort_by}
use bbtidy.Body.Diagnostics.{BodyDiagnostic, diagnostic_before, dedup, sort_body_diagnostics}
use bbtidy.Body.Outer.{Outer, reaction-Outer}
use bbtidy.Body.Words.{Meaning, Sound, Sound-keeps, Sound-changes, Sound-closes, Sound-opens}
use bbtidy.Body.Meanings.{reaction-Sound, reaction-Meaning}
use bbtidy.Body.Shell.{
  ShellBlockKind, ShellBlockPhase, ShellBlock, ShellToken, Reaction, shell_error, keeps, changes,
  closes, opens, wrong, reaction, new_block, missing_closings, read_tokens, analyze_shell_tokens,
}

-- The tokens from inside a block to behind the word that closes it, and the tokens that follow. A
-- block inside is read as a whole.
pub data Inside : ShellBlock → List ShellToken → List ShellToken → Type 0 where
  closed :
      {block : ShellBlock} {token : ShellToken} {rest : List ShellToken}
      → Meaning token (some block) closes
      → Inside block (token ∷ rest) rest
  kept :
      {block : ShellBlock} {token : ShellToken} {tokens rest : List ShellToken}
      → Meaning token (some block) keeps
      → Inside block tokens rest
      → Inside block (token ∷ tokens) rest
  changed :
      {block : ShellBlock} {token : ShellToken} {tokens rest : List ShellToken}
      (phase : ShellBlockPhase)
      → Meaning token (some block) (changes phase)
      → Inside (record block { phase = phase }) tokens rest
      → Inside block (token ∷ tokens) rest
  nested :
      {block : ShellBlock} {token : ShellToken} {tokens between rest : List ShellToken}
      (kind : ShellBlockKind) (phase : ShellBlockPhase)
      → Meaning token (some block) (opens kind phase)
      → Inside (new_block token kind phase) tokens between
      → Inside block between rest
      → Inside block (token ∷ tokens) rest

-- A body: words that are in no block, and whole blocks. Each token has a meaning where it stands.
pub data WellNested : List ShellToken → Type 0 where
  ended : WellNested []
  plain :
      {token : ShellToken} {tokens : List ShellToken}
      → Meaning token none keeps
      → WellNested tokens
      → WellNested (token ∷ tokens)
  block :
      {token : ShellToken} {tokens rest : List ShellToken} (kind : ShellBlockKind)
      (phase : ShellBlockPhase)
      → Meaning token none (opens kind phase)
      → Inside (new_block token kind phase) tokens rest
      → WellNested rest
      → WellNested (token ∷ tokens)

means :
    (token : ShellToken) (o : Option ShellBlock) (r : Reaction)
    → reaction token o ≡ r
    → Sound (Meaning token o) r
means token o r e = subst (Sound (Meaning token o)) e (reaction-Sound token o)

-- A block that is read as a whole leaves the blocks around it as they are.
read_tokens-Inside :
    {b : ShellBlock} {tokens rest : List ShellToken} (blocks : List ShellBlock)
    → Inside b tokens rest
    → read_tokens tokens (b ∷ blocks) ≡ read_tokens rest blocks
unfolding read_tokens
read_tokens-Inside blocks (closed e) =
    let same = reaction-Meaning _ _ _ e in rw (same, read_tokens) refl
read_tokens-Inside blocks (kept e i) =
    let same = reaction-Meaning _ _ _ e in rw (same, read_tokens) (read_tokens-Inside blocks i)
read_tokens-Inside blocks (changed phase e i) =
    let same = reaction-Meaning _ _ _ e in rw (same, read_tokens) (read_tokens-Inside blocks i)
read_tokens-Inside {b} blocks (nested kind phase e i j) =
    let same = reaction-Meaning _ _ _ e in
    rw (same, read_tokens) (read_tokens-Inside (b ∷ blocks) i ∙ read_tokens-Inside blocks j)

read_tokens-WellNested : {tokens : List ShellToken} → WellNested tokens → read_tokens tokens [] ≡ []
unfolding read_tokens missing_closings
read_tokens-WellNested ended = refl
read_tokens-WellNested (plain e w) =
    let same = reaction-Meaning _ _ _ e in rw (same, read_tokens) (read_tokens-WellNested w)
read_tokens-WellNested (block kind phase e i w) =
    let same = reaction-Meaning _ _ _ e in
    rw (same, read_tokens) (read_tokens-Inside [] i ∙ read_tokens-WellNested w)

-- A block that ends among the tokens, and the tokens behind it, which need no more closing words.
Ends : ShellBlock → List ShellBlock → List ShellToken → Type 0
Ends b blocks tokens =
    (rest : List ShellToken) × Inside b tokens rest
    × (length rest < length tokens)
    × (read_tokens rest blocks ≡ [])

EndsWithin : ℕ → Type 0
EndsWithin n =
    (b : ShellBlock) (blocks : List ShellBlock) (tokens : List ShellToken)
    → length tokens ≤ n
    → read_tokens tokens (b ∷ blocks) ≡ []
    → Ends b blocks tokens

react :
    (n : ℕ) (b : ShellBlock) (blocks : List ShellBlock) (token : ShellToken)
    (tokens : List ShellToken)
    → EndsWithin n
    → length tokens ≤ n
    → (r : Reaction) → reaction token (some b) ≡ r
    → read_tokens (token ∷ tokens) (b ∷ blocks) ≡ []
    → Ends b blocks (token ∷ tokens)
unfolding read_tokens Ends EndsWithin
react n b blocks token tokens ends l keeps e h =
    let (rest, i, shorter, done) = ends b blocks tokens l (rw (e, read_tokens) at h) in
    (rest, kept (Sound-keeps _ (means token _ _ e)) i, omega arith, done)
react n b blocks token tokens ends l (changes phase) e h =
    let (rest, i, shorter, done) =
      ends (record b { phase = phase }) blocks tokens l (rw (e, read_tokens) at h) in
    (rest, changed phase (Sound-changes _ phase (means token _ _ e)) i, omega arith, done)
react n b blocks token tokens ends l closes e h =
    (tokens, closed (Sound-closes _ (means token _ _ e)), omega arith, rw (e, read_tokens) at h)
react n b blocks token tokens ends l (opens kind phase) e h =
    let (between, i, shorter, later) =
      ends (new_block token kind phase) (b ∷ blocks) tokens l (rw (e, read_tokens) at h) in
    let (rest, j, shortest, done) = ends b blocks between (omega arith) later in
    (rest, nested kind phase (Sound-opens _ kind phase (means token _ _ e)) i j, omega arith, done)
react n b blocks token tokens ends l (wrong message) e h =
    let q : ◌≡◌ {A = List BodyDiagnostic} (shell_error token message ∷ []) [] =
      rw (e, read_tokens) at h in
    cc

block-Ends : (n : ℕ) → EndsWithin n
unfolding read_tokens missing_closings EndsWithin
block-Ends n b blocks [] l h = cc
block-Ends zero b blocks (token ∷ tokens) l h = absurd (omega arith)
block-Ends (suc n) b blocks (token ∷ tokens) l h =
    react n b blocks token tokens (block-Ends n) (omega arith) (reaction token (some b)) refl h

NestedWithin : ℕ → Type 0
NestedWithin n =
    (tokens : List ShellToken) → length tokens ≤ n → read_tokens tokens [] ≡ [] → WellNested tokens

react-Outer :
    (n : ℕ) (token : ShellToken) (tokens : List ShellToken)
    → NestedWithin n
    → length tokens ≤ n
    → (r : Reaction) → Outer r
    → reaction token none ≡ r
    → read_tokens (token ∷ tokens) [] ≡ []
    → WellNested (token ∷ tokens)
unfolding read_tokens NestedWithin Ends EndsWithin
react-Outer n token tokens nested_within l keeps o e h =
    plain (Sound-keeps _ (means token _ _ e)) (nested_within tokens l (rw (e, read_tokens) at h))
react-Outer n token tokens nested_within l (changes phase) o e h = elim o [ ]
react-Outer n token tokens nested_within l closes o e h = elim o [ ]
react-Outer n token tokens nested_within l (opens kind phase) o e h =
    let (rest, i, shorter, later) =
      block-Ends n (new_block token kind phase) [] tokens l (rw (e, read_tokens) at h) in
    block kind phase (Sound-opens _ kind phase (means token _ _ e)) i
      (nested_within rest (omega arith) later)
react-Outer n token tokens nested_within l (wrong message) o e h =
    let q : ◌≡◌ {A = List BodyDiagnostic} (shell_error token message ∷ []) [] =
      rw (e, read_tokens) at h in
    cc

read_tokens-NestedWithin : (n : ℕ) → NestedWithin n
unfolding NestedWithin
read_tokens-NestedWithin n [] l h = ended
read_tokens-NestedWithin zero (token ∷ tokens) l h = absurd (omega arith)
read_tokens-NestedWithin (suc n) (token ∷ tokens) l h =
    react-Outer n token tokens (read_tokens-NestedWithin n) (omega arith) (reaction token none)
      (reaction-Outer token) refl h

-- Sorting and removing duplicates leaves a report where there is one.
insert_sorted-nonempty :
    (d : BodyDiagnostic) (ds : List BodyDiagnostic) → insert_sorted diagnostic_before d ds ≡ [] → ⊥
unfolding insert_sorted
insert_sorted-nonempty d [] e = cc
insert_sorted-nonempty d (x ∷ ds) e = elim (Bool-cases (diagnostic_before d x)) [
  | inl f ↦ let q : d ∷ x ∷ ds ≡ [] = rw (f, insert_sorted) at e in cc
  | inr f ↦ let q : x ∷ insert_sorted diagnostic_before d ds ≡ [] = rw (f, insert_sorted) at e in cc
]

dedup-nil : (ds : List BodyDiagnostic) → dedup ds ≡ [] → ds ≡ []
unfolding dedup
dedup-nil [] e = refl
dedup-nil (d ∷ ds) e = cc

sort_body_diagnostics-nil : (ds : List BodyDiagnostic) → sort_body_diagnostics ds ≡ [] → ds ≡ []
unfolding sort_body_diagnostics sort_by dedup
sort_body_diagnostics-nil [] e = refl
sort_body_diagnostics-nil (d ∷ ds) e = absurd (
    insert_sorted-nonempty d (sort_by diagnostic_before ds)
      (dedup-nil (insert_sorted diagnostic_before d (sort_by diagnostic_before ds)) e))

-- Nothing is reported of the blocks of a body exactly if its tokens are well nested: words that are
-- in no block, and whole blocks, in each of which the words stand in their phases, and which end
-- with their closing word: "fi" in an if block behind "then" or "else", "done" in a loop block
-- behind "do", and "esac" in a case block behind "in".
pub analyze_shell_tokens-WellNested :
    (tokens : List ShellToken) → (analyze_shell_tokens tokens ≡ []) ↔ WellNested tokens
unfolding analyze_shell_tokens sort_body_diagnostics sort_by dedup NestedWithin
analyze_shell_tokens-WellNested tokens = (
  λ e.
      read_tokens-NestedWithin (length tokens) tokens (omega arith)
        (sort_body_diagnostics-nil (read_tokens tokens []) e),
  λ w. rw (read_tokens-WellNested w) refl,
)
