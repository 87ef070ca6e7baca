-- ===== src/Overrides/Loop.antt =====
-- The loop of `expand_references` of src/overrides.rs.
use bbtidy.Base.{
  ℕ, ◌+◌, ◌-◌, ◌≤◌, ◌≡◌, refl, sym, subst, ap, ◌∙◌, Option, none, some, Bool, true, not, ◌||◌, ◌⊎◌,
  [], ◌∷◌, ◌++◌, length, length-drop, take, drop, is_some, All, All-append, append_assoc,
  append-nil, take-append-slice, drop-all, take-append-drop, drop-drop, arith, inl, inr,
}
use bbtidy.Text.{Text, text, slice, find, find_byte, find_byte-lt}
use bbtidy.Text.Search.{find-drop, find-take, find_byte-take}
use bbtidy.Text.Scan.{Move, go, stop, Kept, scan_inv}
use bbtidy.Overrides.References.{Expanding, expand_name, reference_step, expand_references}
use bbtidy.Overrides.Expansion.{
  Segments, reference, references_text, known, written_as, references_expanded, some_unknown,
  IsReference, Unclosed, Expanded, references_text-append, references_expanded-append,
  some_unknown-append, expand_name_lem, reference_at,
}

module _ (values : Text → Option Text) (value : Text) where
  -- The loop has read the bytes before `j`.
  record Reads (j : ℕ) (st : Expanding) : Type 0 where
    segments : Segments
    each : All IsReference segments
    inside : j ≤ length value
    read : references_text segments ≡ take j value
    written : references_expanded values segments ≡ st.output
    unknown : some_unknown values segments ≡ st.dynamic

  opening_at :
      (i relative : ℕ)
      → find (drop i value) (text "${") ≡ some relative
      → drop (i + relative) value ≡ text "${" ++ drop (i + relative + 2) value
  opening_at i relative f =
      sym (drop-drop relative i value)
      ∙ find-drop b'$' (b'{' ∷ []) (drop i value) relative f
      ∙ ap (λ (t : Text). text "${" ++ t)
          (drop-drop (relative + 2) i value
            ∙ ap (λ (k : ℕ). drop k value) {x = i + (relative + 2)} (omega arith))

  Reads-expand_name :
      (i relative k : ℕ) (st : Expanding)
      → Reads i st
      → find (drop i value) (text "${") ≡ some relative
      → find_byte (drop (i + relative + 2) value) b'}' ≡ some k
      → Reads (i + relative + 2 + k + 1) (
          expand_name
            (slice (i + relative + 2) (i + relative + 2 + k) value)
            (slice (i + relative) (i + relative + 2 + k + 1) value)
            (values (slice (i + relative + 2) (i + relative + 2 + k) value))
            (record { output = st.output ++ take relative (drop i value); dynamic = st.dynamic }))
  Reads-expand_name i relative k st r f g =
      let start : ℕ = i + relative in
      let end : ℕ = start + 2 + k in
      let plain : Text = take relative (drop i value) in
      let name : Text = slice (start + 2) end value in
      let whole = reference_at value start k (opening_at i relative f) g in
      subst (Reads (end + 1))
        (sym (
          ap
            (λ (w : Text).
              expand_name name w (values name)
                (record { output = st.output ++ plain; dynamic = st.dynamic }))
            whole
          ∙ expand_name_lem values name (st.output ++ plain) st.dynamic))
        (record {
          segments = r.segments ++ (plain, name) ∷ [];
          each = All-append IsReference r.segments ((plain, name) ∷ []) r.each (
            (
              find-take b'$' (b'{' ∷ []) (drop i value) relative f,
              subst (λ (n : ℕ). find_byte (take n (drop (start + 2) value)) b'}' ≡ none) {x = k}
                  (omega arith) (find_byte-take (drop (start + 2) value) b'}' k g),
            ),
            tt,
          );
          inside = omega (
            arith,
            find_byte-lt (drop (start + 2) value) b'}' k g,
            length-drop (start + 2) value,
          );
          read =
              references_text-append r.segments plain name
              ∙ ap (λ (t : Text). t ++ (plain ++ reference name)) r.read
              ∙ sym (append_assoc (take i value) plain (reference name))
              ∙ ap (λ (n : ℕ). (take i value ++ take n (drop i value)) ++ reference name)
                  {y = start - i} (omega arith)
              ∙ ap (λ (t : Text). t ++ reference name)
                  (take-append-slice i start value (omega arith))
              ∙ ap (◌++◌ (take start value)) (sym whole)
              ∙ take-append-slice start (end + 1) value (omega arith);
          written =
              references_expanded-append values r.segments plain name
              ∙ sym (
                  append_assoc (references_expanded values r.segments) plain
                    (written_as values name))
              ∙ ap (λ (t : Text). (t ++ plain) ++ written_as values name) r.written;
          unknown =
              some_unknown-append values r.segments plain name
              ∙ ap (λ (b : Bool). b || not (is_some (known values name))) r.unknown;
        })

  -- The text behind the last reference that is closed.
  Reads-last :
      (i : ℕ) (st result : Expanding)
      → Reads i st
      → result.output ≡ st.output ++ drop i value
      → ((find (drop i value) (text "${") ≡ none) × (st.dynamic ≡ result.dynamic))
        ⊎ (Unclosed (drop i value) × (result.dynamic ≡ true))
      → Expanded values value result
  Reads-last i st result r o d = record {
    segments = r.segments;
    last = drop i value;
    each = r.each;
    read = ap (λ (t : Text). t ++ drop i value) r.read ∙ take-append-drop i value;
    written = ap (λ (t : Text). t ++ drop i value) r.written ∙ sym o;
    ending = elim d [ inl (e, f) ↦ inl (e, r.unknown ∙ f) | inr u ↦ inr u ];
  }

  abbrev after_name : ℕ → Expanding → ℕ → ℕ → Expanding
  after_name i st relative k =
      expand_name (slice (i + relative + 2) (i + relative + 2 + k) value)
        (slice (i + relative) (i + relative + 2 + k + 1) value)
        (values (slice (i + relative + 2) (i + relative + 2 + k) value))
        (record { output = st.output ++ take relative (drop i value); dynamic = st.dynamic })

  -- What a round does behind an opening at `relative`.
  abbrev at_closing : ℕ → Expanding → ℕ → Option ℕ → Move Expanding Expanding
  at_closing i st relative closing = elim closing [
    | none ↦ stop (record {
      output = (st.output ++ take relative (drop i value)) ++ drop (i + relative) value;
      dynamic = true;
    })
    | some k ↦ go (after_name i st relative k) (i + relative + 2 + k - i)
  ]

  reference_step-Kept :
      (i : ℕ) (st : Expanding)
      → Reads i st
      → Kept Reads (Expanded values value) i (reference_step values value i (drop i value) st)
  unfolding reference_step
  reference_step-Kept i st r = opens (find (drop i value) (text "${")) refl
    where
      closes :
          (relative : ℕ) (closing : Option ℕ)
          → find (drop i value) (text "${") ≡ some relative
          → find_byte (drop (i + relative + 2) value) b'}' ≡ closing
          → Kept Reads (Expanded values value) i (at_closing i st relative closing)
      closes relative none f g =
          Reads-last i st _ r
            (append_assoc st.output (take relative (drop i value)) (drop (i + relative) value)
              ∙ ap (λ (t : Text). st.output ++ (take relative (drop i value) ++ t))
                  (sym (drop-drop relative i value))
              ∙ ap (◌++◌ st.output) (take-append-drop relative (drop i value)))
            (inr (
              record {
                opening = relative;
                opened = f;
                open_to_the_end =
                    ap (λ (t : Text). find_byte t b'}')
                      (drop-drop (relative + 2) i value
                        ∙ ap (λ (k : ℕ). drop k value) {x = i + (relative + 2)} (omega arith))
                    ∙ g;
              },
              refl,
            ))
      closes relative (some k) f g =
          subst (λ (j : ℕ). Reads j (after_name i st relative k)) {x = i + relative + 2 + k + 1}
            (omega arith) (Reads-expand_name i relative k st r f g)

      opens :
          (opening : Option ℕ)
          → find (drop i value) (text "${") ≡ opening
          → Kept Reads (Expanded values value) i (elim opening as (λ _. Move Expanding Expanding) [
            | none ↦ stop (record { output = st.output ++ drop i value; dynamic = st.dynamic })
            | some relative ↦
                at_closing i st relative (find_byte (drop (i + relative + 2) value) b'}')
          ])
      opens none f = Reads-last i st _ r refl (inl (f, refl))
      opens (some relative) f =
          closes relative (find_byte (drop (i + relative + 2) value) b'}') f refl

  finish-Expanded :
      (j : ℕ) (st : Expanding) → length value ≤ j → Reads j st → Expanded values value st
  unfolding find
  finish-Expanded j st l r =
      let nothing : drop j value ≡ [] = drop-all j value l in
      Reads-last j st st r (sym (ap (◌++◌ st.output) nothing ∙ append-nil st.output))
        (inl (rw nothing refl, refl))

-- Every reference to a known variable is replaced by its value, and everything else is kept as it
-- stands; the result is dynamic exactly if a reference is not known or is not closed.
pub expand_references-Expanded :
    (values : Text → Option Text) (value : Text)
    → Expanded values value (expand_references values value)
unfolding expand_references
expand_references-Expanded values value =
    scan_inv (Reads values value) (Expanded values value) (reference_step values value) (λ st. st)
      value
      (λ i c cs st e r.
        subst
          (λ (t : Text).
            Kept (Reads values value) (Expanded values value) i
              (reference_step values value i t st))
          e (reference_step-Kept values value i st r))
      (λ j st l r. finish-Expanded values value j st l r) 0 0 _ value refl
      (record {
        segments = [];
        each = tt;
        inside = omega arith;
        read = refl;
        written = refl;
        unknown = refl;
      })
