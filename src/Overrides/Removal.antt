-- ===== src/Overrides/Removal.antt =====
-- What `remove_override_tokens` of src/overrides.rs leaves of a value.
use bbtidy.Base.{
  ℕ, zero, suc, ◌+◌, ◌-◌, ◌≤◌, ◌≡◌, refl, sym, subst, ap, ◌∙◌, Option, none, some, List, [], ◌∷◌,
  ◌++◌, length, length-drop, drop-drop, take, drop, All, All-append, append_assoc, append-nil,
  take-append-slice, take-all, drop-cons_lt, arith, Option-cases, inl, inr,
}
use bbtidy.Text.{Text, slice, white_len}
use bbtidy.Text.Scan.{Move, go, Kept, scan_inv}
use bbtidy.Text.Spacing.{IsWhite, IsWhite-white_len}
use bbtidy.Syntax.Definitions.{split_ascii_whitespace}
use bbtidy.Overrides.Segments.{
  Segments, segments_text, segments_kept, IsToken, IsSegment, Removed, segments_text-append,
  segments_kept-append, NoWhite, NoWhite-snoc, NoWhite-IsToken, segments_kept-Written,
  kept_token-Leaves,
}
use bbtidy.Overrides.Values.{kept_token, Removing, flush, token_step, remove_override_tokens}

-- Where the token that is being read begins.
abbrev begin : Option ℕ → ℕ → ℕ
begin (some start) j = start
begin none j = j

begin_end : (o : Option ℕ) (j end : ℕ) → end ≤ j → begin o j ≤ end → begin o j ≡ begin o end
begin_end (some start) j end l h = refl
begin_end none j end l h = omega arith

module _ (removals : List Text) (value : Text) where
  -- The loop has read the bytes before `j` and written all but the current token.
  record Reads (j : ℕ) (st : Removing) : Type 0 where
    segments : Segments
    each : All IsSegment segments
    begun : begin st.token_start j ≤ j
    inside : begin st.token_start j ≤ length value
    read : segments_text segments ≡ take (begin st.token_start j) value
    written : segments_kept removals segments ≡ st.output
    token : NoWhite (j - begin st.token_start j) (drop (begin st.token_start j) value)

  kept_token-nil : kept_token removals [] ≡ []
  unfolding kept_token
  kept_token-nil = ground arith

  slice_nil : (j : ℕ) → slice j j value ≡ []
  slice_nil j = ap (λ (k : ℕ). take k (drop j value)) {y = 0} (omega arith)

  NoWhite-nil : (j : ℕ) → NoWhite (j - j) (drop j value)
  NoWhite-nil j = subst (λ (k : ℕ). NoWhite k (drop j value)) {x = 0} (omega arith) tt

  flush_lem :
      (i : ℕ) (st : Removing)
      → flush removals value i st
        ≡ st.output ++ kept_token removals (slice (begin st.token_start i) i value)
  unfolding flush
  flush_lem i st = elim (Option-cases st.token_start) [
    | inl e ↦ rw e (
        sym (
          ap (λ (t : Text). st.output ++ kept_token removals t) (slice_nil i)
          ∙ ap (◌++◌ st.output) kept_token-nil
          ∙ append-nil st.output))
    | inr (start, e) ↦ rw e refl
  ]

  -- Behind a white-space character the token before it is written, or left out.
  Reads-white :
      (i n : ℕ) (st : Removing)
      → Reads i st
      → i + n ≤ length value
      → IsWhite (take n (drop i value))
      → Reads (i + n) (record {
        output = flush removals value i st ++ take n (drop i value);
        token_start = none;
      })
  Reads-white i n st r l w =
      let token : Text = slice (begin st.token_start i) i value in
      let white : Text = take n (drop i value) in
      record {
        segments = r.segments ++ (token, white) ∷ [];
        each =
            All-append IsSegment r.segments ((token, white) ∷ []) r.each
              ((NoWhite-IsToken _ _ r.token, w), tt);
        begun = omega arith;
        inside = l;
        read =
            segments_text-append r.segments token white
            ∙ sym (append_assoc (segments_text r.segments) token white)
            ∙ ap (λ (t : Text). (t ++ token) ++ white) r.read
            ∙ ap (λ (t : Text). t ++ white)
                (take-append-slice (begin st.token_start i) i value r.begun)
            ∙ ap (λ (k : ℕ). take i value ++ take k (drop i value)) {y = (i + n) - i} (omega arith)
            ∙ take-append-slice i (i + n) value (omega arith);
        written =
            segments_kept-append removals r.segments token white
            ∙ sym
                (append_assoc (segments_kept removals r.segments) (kept_token removals token) white)
            ∙ ap (λ (t : Text). (t ++ kept_token removals token) ++ white) r.written
            ∙ ap (λ (t : Text). t ++ white) (sym (flush_lem i st));
        token = NoWhite-nil (i + n);
      }

  NoWhite-longer :
      (start i c : ℕ) (cs : Text)
      → start ≤ i
      → drop i value ≡ c ∷ cs
      → white_len (c ∷ cs) ≡ 0
      → NoWhite (i - start) (drop start value)
      → NoWhite ((i + 1) - start) (drop start value)
  NoWhite-longer start i c cs l e h w =
      subst (λ (k : ℕ). NoWhite k (drop start value)) {x = suc (i - start)} (omega arith)
        (NoWhite-snoc (i - start) c cs (drop start value)
          (drop-drop (i - start) start value
            ∙ ap (λ (k : ℕ). drop k value) {x = start + (i - start)} (omega arith)
            ∙ e)
          h w)

  -- The first byte of a token.
  Reads-first :
      (i c : ℕ) (cs : Text) (st : Removing)
      → drop i value ≡ c ∷ cs
      → white_len (c ∷ cs) ≡ 0
      → st.token_start ≡ none
      → Reads i st
      → Reads (i + 1) (record { output = st.output; token_start = some i })
  Reads-first i c cs st e h none_yet r = record {
    segments = r.segments;
    each = r.each;
    begun = omega arith;
    inside = let l = (drop-cons_lt i value e).0 in omega arith;
    read = r.read ∙ ap (λ (o : Option ℕ). take (begin o i) value) none_yet;
    written = r.written;
    token = NoWhite-longer i i c cs (omega arith) e h (NoWhite-nil i);
  }

  -- A later byte of a token.
  Reads-later :
      (i c start : ℕ) (cs : Text) (st : Removing)
      → drop i value ≡ c ∷ cs
      → white_len (c ∷ cs) ≡ 0
      → st.token_start ≡ some start
      → Reads i st
      → Reads (i + 1) st
  Reads-later i c start cs st e h already r =
      let at_start = ap (λ (o : Option ℕ). begin o i) already in
      let same = ap (λ (o : Option ℕ). begin o (i + 1)) already ∙ sym at_start in
      let l = (drop-cons_lt i value e).0 in
      let n : begin st.token_start i ≤ i = r.begun in
      let m : begin st.token_start i ≤ length value = r.inside in
      record {
        segments = r.segments;
        each = r.each;
        begun = omega (arith, same, n);
        inside = omega (arith, same, m);
        read = r.read ∙ ap (λ (k : ℕ). take k value) (sym same);
        written = r.written;
        token =
            subst (λ (k : ℕ). NoWhite ((i + 1) - k) (drop k value)) (sym same)
              (NoWhite-longer (begin st.token_start i) i c cs r.begun e h r.token);
      }

  token_step-Kept :
      (i c : ℕ) (cs : Text) (st : Removing)
      → drop i value ≡ c ∷ cs
      → Reads i st
      → Kept Reads (Removed removals value) i (token_step removals value i (c ∷ cs) st)
  unfolding token_step
  token_step-Kept i c cs st e r = front (white_len (c ∷ cs)) refl
    where
      front :
          (n : ℕ)
          → white_len (c ∷ cs) ≡ n
          → Kept Reads (Removed removals value) i (elim n as (λ _. Move Removing Text) [
            | suc n ↦
                go
                  (record {
                    output = flush removals value i st ++ take (suc n) (c ∷ cs);
                    token_start = none;
                  })
                  n
            | zero ↦ elim st.token_start [
              | none ↦ go (record { output = st.output; token_start = some i }) 0
              | some start ↦ go st 0
            ]
          ])
      front (suc n) w =
          let width = IsWhite-white_len (c ∷ cs) (omega (arith, w)) in
          let white : IsWhite (take (suc n) (drop i value)) =
            subst (λ (t : Text). IsWhite (take (suc n) t)) (sym e)
              (subst (λ (k : ℕ). IsWhite (take k (c ∷ cs))) w width.1) in
          let inside = drop-cons_lt i value e in
          subst
            (λ (t : Text).
              Reads (i + 1 + n) (record {
                output = flush removals value i st ++ take (suc n) t;
                token_start = none;
              }))
            e
            (subst
              (λ (k : ℕ). Reads k (record {
                output = flush removals value i st ++ take (suc n) (drop i value);
                token_start = none;
              }))
              {x = i + suc n} (omega arith)
              (Reads-white i (suc n) st r (omega (arith, width.0, inside.1)) white))
      front zero w = elim (Option-cases st.token_start) [
        | inl o ↦ rw o (
            subst (λ (k : ℕ). Reads k (record { output = st.output; token_start = some i }))
              {x = i + 1} (omega arith) (Reads-first i c cs st e w o r))
        | inr (start, o) ↦ rw o (
            subst (λ (k : ℕ). Reads k st) {x = i + 1} (omega arith)
              (Reads-later i c start cs st e w o r))
      ]

  flush-Removed :
      (j : ℕ) (st : Removing)
      → length value ≤ j
      → Reads j st
      → Removed removals value (flush removals value (length value) st)
  flush-Removed j st l r =
      let a = begin st.token_start j in
      let n : length (drop a value) ≡ length value - a = length-drop a value in
      record {
        segments = r.segments;
        last = slice a (length value) value;
        each = r.each;
        last_token =
            subst IsToken
              (take-all (j - a) (drop a value) (omega (arith, n))
                ∙ sym (take-all (length value - a) (drop a value) (omega (arith, n))))
              (NoWhite-IsToken _ _ r.token);
        read =
            ap (λ (t : Text). t ++ slice a (length value) value) r.read
            ∙ take-append-slice a (length value) value r.inside
            ∙ take-all (length value) value (omega arith);
        front = segments_kept removals r.segments;
        left = kept_token removals (slice a (length value) value);
        written = segments_kept-Written removals r.segments;
        last_left = kept_token-Leaves removals (slice a (length value) value);
        output_read = sym (
            ap (λ (t : Text). t ++ kept_token removals (slice a (length value) value)) r.written
            ∙ ap (λ (k : ℕ). st.output ++ kept_token removals (slice k (length value) value))
                (begin_end st.token_start j (length value) l r.inside)
            ∙ sym (flush_lem (length value) st));
      }

-- A value is tokens, in which no white-space character begins, and single white-space characters
-- between them. Removing override tokens leaves out each token that is a word of the removal, and
-- writes every other token and all white space as they are.
pub remove_override_tokens-Removed :
    (value removal : Text)
    → Removed (split_ascii_whitespace removal) value (remove_override_tokens value removal)
unfolding remove_override_tokens
remove_override_tokens-Removed value removal =
    let removals = split_ascii_whitespace removal in
    scan_inv (Reads removals value) (Removed removals value) (token_step removals value)
      (flush removals value (length value)) value
      (λ i c cs st e r. token_step-Kept removals value i c cs st e r)
      (λ j st l r. flush-Removed removals value j st l r) 0 0 _ value refl
      (record {
        segments = [];
        each = tt;
        begun = omega arith;
        inside = omega arith;
        read = refl;
        written = refl;
        token = tt;
      })
