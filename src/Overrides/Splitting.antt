-- ===== src/Overrides/Splitting.antt =====
-- The components that `split_components` of src/overrides.rs cuts a key into.
use bbtidy.Base.{
  ℕ, ◌+◌, ◌≤◌, ◌≡◌, refl, sym, ap, ◌∙◌, subst, false, List, [], ◌∷◌, ◌++◌, length, take, drop, any,
  is_empty, All, Bool-cases, inl, inr, append_assoc, take_step, take-append-slice, take-all,
  drop-cons_lt, arith,
}
use bbtidy.Text.{Text, slice}
use bbtidy.Text.Scan.{Kept, scan_inv}
use bbtidy.Overrides.Keys.{KeyResult, refused, accepted}
use bbtidy.Overrides.Components.{Splitting, component_step, components_end, split_components}

-- The texts with a colon behind each, and with a colon between each two.
abbrev closed : List Text → Text
closed [] = []
closed (c ∷ cs) = c ++ b':' ∷ closed cs

abbrev pub joined : List Text → Text
joined [] = []
joined (c ∷ []) = c
joined (c ∷ d ∷ ds) = c ++ b':' ∷ joined (d ∷ ds)

closed-append : (cs : List Text) (c : Text) → closed (cs ++ c ∷ []) ≡ closed cs ++ (c ++ b':' ∷ [])
closed-append [] c = refl
closed-append (b ∷ cs) c =
    ap (λ (t : Text). b ++ b':' ∷ t) (closed-append cs c)
    ∙ sym (append_assoc b (b':' ∷ closed cs) (c ++ b':' ∷ []))

joined-append : (cs : List Text) (c : Text) → joined (cs ++ c ∷ []) ≡ closed cs ++ c
joined-append [] c = refl
joined-append (b ∷ []) c = sym (append_assoc b (b':' ∷ []) c)
joined-append (b ∷ d ∷ cs) c =
    ap (λ (t : Text). b ++ b':' ∷ t) (joined-append (d ∷ cs) c)
    ∙ sym (append_assoc b (b':' ∷ closed (d ∷ cs)) c)

-- The text is not empty.
abbrev pub Filled : Text → Type 0
Filled t = is_empty t ≡ false

any-All : (cs : List Text) → any is_empty cs ≡ false → All Filled cs
any-All [] h = tt
any-All (c ∷ cs) h = elim (Bool-cases (is_empty c)) [
  | inl e ↦ ground (arith, e)
  | inr e ↦ (e, any-All cs (rw e at h))
]

module _ (name : Text) where
  abbrev Cut : ℕ → Splitting → Type 0
  Cut j st = (st.start ≤ j) × (st.start ≤ length name) × (closed st.components ≡ take st.start name)

  abbrev pub Splits : KeyResult (List Text) → Type 0
  Splits (refused e) = Unit
  Splits (accepted parts) = (joined parts ≡ name) × All Filled parts

  -- The component that ends at `i`, behind those before it.
  Cut-take :
      (i : ℕ) (st : Splitting)
      → Cut i st
      → closed st.components ++ slice st.start i name ≡ take i name
  Cut-take i st (l, _, e) =
      ap (λ (t : Text). t ++ slice st.start i name) e ∙ take-append-slice st.start i name l

  colon-Cut :
      (i : ℕ) (rest : Text) (st : Splitting)
      → drop i name ≡ b':' ∷ rest
      → Cut i st
      → closed (st.components ++ slice st.start i name ∷ []) ≡ take (i + 1) name
  colon-Cut i rest st e c =
      closed-append st.components (slice st.start i name)
      ∙ sym (append_assoc (closed st.components) (slice st.start i name) (b':' ∷ []))
      ∙ ap (λ (t : Text). t ++ b':' ∷ []) (Cut-take i st c)
      ∙ take_step i name e

  component_step-Kept :
      (i c : ℕ) (cs : Text) (st : Splitting)
      → drop i name ≡ c ∷ cs
      → Cut i st
      → Kept Cut Splits i (component_step name i (c ∷ cs) st)
  unfolding component_step
  component_step-Kept i c cs st e p =
      let inside = drop-cons_lt i name e in ground (arith, inside, colon-Cut i cs st)

  components_end-Splits :
      (j : ℕ) (st : Splitting) → length name ≤ j → Cut j st → Splits (components_end name st)
  unfolding components_end
  components_end-Splits j st l p =
      let parts = st.components ++ slice st.start (length name) name ∷ [] in
      let whole =
        joined-append st.components (slice st.start (length name) name)
        ∙ Cut-take (length name) st (p.1, p.1, p.2)
        ∙ take-all (length name) name (omega arith) in
      ground (arith, whole, any-All parts)

  split_components-Splits : Splits (split_components name)
  unfolding split_components
  split_components-Splits =
      scan_inv Cut Splits (component_step name) (components_end name) name
        (λ i c cs st e p. component_step-Kept i c cs st e p)
        (λ j st l p. components_end-Splits j st l p) 0 0 _ name refl
        (omega arith, omega arith, refl)

-- The components that a key is split into are not empty, and put together with a colon between
-- each two they are the key.
pub split_components-joined :
    (name : Text) (parts : List Text)
    → split_components name ≡ accepted parts
    → (joined parts ≡ name) × All Filled parts
split_components-joined name parts e = subst (Splits name) e (split_components-Splits name)
