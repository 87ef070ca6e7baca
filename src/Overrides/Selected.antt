-- ===== src/Overrides/Selected.antt =====
-- Which variant `resolve_direct_entries` of src/overrides.rs selects, and how operations are applied.
use bbtidy.Base.{
  ℕ, ◌≡◌, ◌⊎◌, refl, sym, ap, ◌∙◌, some, Bool, true, false, ◌||◌, List, [], ◌∷◌, ◌++◌, reverse,
  concat, concat-concat, ltb, ◌==◌, All, All-map, append_assoc, append-nil, Bool-cases, inl, inr,
  if◌then◌else◌, arith,
}
use mathlib.Core.List.{reverse-append}
use mathlib.Core.List.{Memᴰ}
use mathlib.Core.List.Memᴰ.{head, tail}
use bbtidy.Text.{Text}
use bbtidy.Text.Maps.{lex_lt}
use bbtidy.Overrides.Keys.{OverrideOperation, unchanged, append, prepend, remove}
use bbtidy.Overrides.Values.{remove_override_tokens}
use bbtidy.Overrides.Rank.{override_rank, Candidate, rank_lt, not_above, max_from, max_by}
use bbtidy.Overrides.Precedence.{Yields, not_above-Yields}
use bbtidy.Overrides.Resolve.{
  ResolvedAssignment, same_operation, apply_operation, apply_entries, apply_operations, base_value,
  variant_candidates, resolve_direct_entries,
}

-- The values of the entries of one operation, in their order.
abbrev pub values_of : OverrideOperation → List (OverrideOperation × Text) → List Text
values_of operation [] = []
values_of operation ((o, entry) ∷ entries) =
    if same_operation o operation
    then entry ∷ values_of operation entries
    else values_of operation entries

abbrev pub remove_each : List Text → Text → Text
remove_each [] value = value
remove_each (r ∷ removals) value = remove_each removals (remove_override_tokens value r)

apply_entries-append :
    (entries : List (OverrideOperation × Text)) (value : Text)
    → apply_entries append entries value ≡ value ++ concat (values_of append entries)
unfolding apply_entries apply_operation
apply_entries-append [] value = sym (append-nil value)
apply_entries-append ((append, entry) ∷ entries) value =
    apply_entries-append entries (value ++ entry)
    ∙ append_assoc value entry (concat (values_of append entries))
apply_entries-append ((unchanged, entry) ∷ entries) value = apply_entries-append entries value
apply_entries-append ((prepend, entry) ∷ entries) value = apply_entries-append entries value
apply_entries-append ((remove, entry) ∷ entries) value = apply_entries-append entries value

concat-reverse :
    (entry : Text) (entries : List Text)
    → concat (reverse (entry ∷ entries)) ≡ concat (reverse entries) ++ entry
concat-reverse entry entries =
    ap concat (reverse-append (entry ∷ []) entries) ∙ concat-concat (reverse entries) entry

apply_entries-prepend :
    (entries : List (OverrideOperation × Text)) (value : Text)
    → apply_entries prepend entries value ≡ concat (reverse (values_of prepend entries)) ++ value
unfolding apply_entries apply_operation
apply_entries-prepend [] value = refl
apply_entries-prepend ((prepend, entry) ∷ entries) value =
    apply_entries-prepend entries (entry ++ value)
    ∙ sym (append_assoc (concat (reverse (values_of prepend entries))) entry value)
    ∙ ap (λ (t : Text). t ++ value) (sym (concat-reverse entry (values_of prepend entries)))
apply_entries-prepend ((unchanged, entry) ∷ entries) value = apply_entries-prepend entries value
apply_entries-prepend ((append, entry) ∷ entries) value = apply_entries-prepend entries value
apply_entries-prepend ((remove, entry) ∷ entries) value = apply_entries-prepend entries value

apply_entries-remove :
    (entries : List (OverrideOperation × Text)) (value : Text)
    → apply_entries remove entries value ≡ remove_each (values_of remove entries) value
unfolding apply_entries apply_operation
apply_entries-remove [] value = refl
apply_entries-remove ((remove, entry) ∷ entries) value =
    apply_entries-remove entries (remove_override_tokens value entry)
apply_entries-remove ((unchanged, entry) ∷ entries) value = apply_entries-remove entries value
apply_entries-remove ((append, entry) ∷ entries) value = apply_entries-remove entries value
apply_entries-remove ((prepend, entry) ∷ entries) value = apply_entries-remove entries value

-- The prepended texts, the last one first, the value and the appended texts in order, without the
-- tokens that are removed, wherever the operations stand among one another.
pub apply_operations_lem :
    (entries : List (OverrideOperation × Text)) (value : Text)
    → apply_operations entries value
      ≡ remove_each (values_of remove entries) (
          concat (reverse (values_of prepend entries))
          ++ (value ++ concat (values_of append entries)))
unfolding apply_operations
apply_operations_lem entries value =
    apply_entries-remove entries
      (apply_entries prepend entries (apply_entries append entries value))
    ∙ ap (remove_each (values_of remove entries)) (
        apply_entries-prepend entries (apply_entries append entries value)
        ∙ ap (λ (t : Text). concat (reverse (values_of prepend entries)) ++ t)
            (apply_entries-append entries value))

-- The lexicographic order of positions, and the order of ranks.
lex_lt_asym : (xs ys : List ℕ) → lex_lt ltb ◌==◌ xs ys ≡ true → lex_lt ltb ◌==◌ ys xs ≡ false
unfolding lex_lt
lex_lt_asym [] [] e = refl
lex_lt_asym [] (y ∷ ys) e = refl
lex_lt_asym (x ∷ xs) [] e = ground arith
lex_lt_asym (x ∷ xs) (y ∷ ys) e = ground (arith, lex_lt_asym xs ys)

lex_lt_cotrans :
    (xs ys zs : List ℕ)
    → lex_lt ltb ◌==◌ xs zs ≡ true
    → (lex_lt ltb ◌==◌ xs ys || lex_lt ltb ◌==◌ ys zs) ≡ true
unfolding lex_lt
lex_lt_cotrans [] [] zs e = e
lex_lt_cotrans [] (y ∷ ys) zs e = refl
lex_lt_cotrans (x ∷ xs) ys [] e = ground arith
lex_lt_cotrans (x ∷ xs) [] (z ∷ zs) e = refl
lex_lt_cotrans (x ∷ xs) (y ∷ ys) (z ∷ zs) e = ground (arith, lex_lt_cotrans xs ys zs)

rank_lt_asym : (a b : ℕ × List ℕ) → rank_lt a b ≡ true → rank_lt b a ≡ false
rank_lt_asym (m, xs) (n, ys) e = ground (arith, lex_lt_asym xs ys)

rank_lt_cotrans : (a b c : ℕ × List ℕ) → rank_lt a c ≡ true → (rank_lt a b || rank_lt b c) ≡ true
rank_lt_cotrans (m, xs) (n, ys) (o, zs) e = ground (arith, lex_lt_cotrans xs ys zs)

module _ (active : List Text) where
  rank : Candidate → ℕ × List ℕ
  rank c = override_rank c.overrides active

  not_above_total : (a b : Candidate) → not_above active a b ≡ false → not_above active b a ≡ true
  not_above_total a b e = ground arith

  not_above_refl : (a : Candidate) → not_above active a a ≡ true
  not_above_refl a = ground arith

  not_above_trans :
      (a b c : Candidate)
      → not_above active a b ≡ true
      → not_above active b c ≡ true
      → not_above active a c ≡ true
  unfolding rank
  not_above_trans a b c p q = ground (
    arith,
    rank_lt_cotrans (rank a) (rank b) (rank c),
    rank_lt_cotrans (rank a) (rank c) (rank b),
    rank_lt_cotrans (rank b) (rank a) (rank c),
    rank_lt_cotrans (rank b) (rank c) (rank a),
    rank_lt_cotrans (rank c) (rank a) (rank b),
    rank_lt_cotrans (rank c) (rank b) (rank a),
    rank_lt_asym (rank b) (rank c),
    rank_lt_asym (rank a) (rank b),
  )

module _ {A : Type 0} (le : A → A → Bool) (total : (a b : A) → le a b ≡ false → le b a ≡ true)
    (transitive : (a b c : A) → le a b ≡ true → le b c ≡ true → le a c ≡ true)
    (reflexive : (a : A) → le a a ≡ true) where
  max_from_step :
      (best x : A) (xs : List A) (b : Bool)
      → le best x ≡ b
      → max_from le best (x ∷ xs) ≡ max_from le (if b then x else best) xs
  unfolding max_from
  max_from_step best x xs b e = rw (e) refl

  max_from-All :
      (best : A) (xs : List A) (m : A)
      → max_from le best xs ≡ m
      → (le best m ≡ true) × All (λ x. le x m ≡ true) xs
  unfolding max_from
  max_from-All best [] m r = rw (sym r) (reflexive best, tt)
  max_from-All best (x ∷ xs) m r = elim (Bool-cases (le best x)) [
    | inl e ↦
        let (p, q) = max_from-All x xs m (sym (max_from_step best x xs true e) ∙ r) in
        (transitive best x m e p, (p, q))
    | inr e ↦
        let (p, q) = max_from-All best xs m (sym (max_from_step best x xs false e) ∙ r) in
        (p, (transitive x best m (total best x e) p, q))
  ]

chosen-Mem :
    {A : Type 0} (b : Bool) (best x m : A) (xs : List A)
    → Memᴰ m ((if b then x else best) ∷ xs)
    → Memᴰ m (best ∷ x ∷ xs)
chosen-Mem true best x m xs h = tail h
chosen-Mem false best x m xs (head e) = head e
chosen-Mem false best x m xs (tail h) = tail (tail h)

max_from-Mem :
    {A : Type 0} (le : A → A → Bool) (best : A) (xs : List A)
    → Memᴰ (max_from le best xs) (best ∷ xs)
unfolding max_from
max_from-Mem le best [] = head refl
max_from-Mem le best (x ∷ xs) =
    chosen-Mem (le best x) best x (max_from le best (x ∷ xs)) xs
      (max_from-Mem le (if le best x then x else best) xs)

-- A candidate that all of them yield to.
abbrev pub IsSelected : List Text → List Candidate → Candidate → Type 0
IsSelected active candidates c = Memᴰ c candidates × All (λ d. Yields active d c) candidates

max_by-IsSelected :
    (active : List Text) (candidates : List Candidate)
    → (candidates ≡ [])
      ⊎ ((c : Candidate) × (max_by (not_above active) candidates ≡ some c)
          × IsSelected active candidates c)
unfolding max_by
max_by-IsSelected active [] = inl refl
max_by-IsSelected active (x ∷ xs) = inr (
  max_from (not_above active) x xs,
  refl,
  (
    max_from-Mem (not_above active) x xs,
    All-map (x ∷ xs) (λ d h. not_above-Yields active d (max_from (not_above active) x xs) h)
        (max_from-All (not_above active) (not_above_total active) (not_above_trans active)
          (not_above_refl active) x xs (max_from (not_above active) x xs) refl),
  ),
)

-- The value is the base's where no variant applies, and that of a variant that all yield to
-- otherwise: the others have fewer overrides; or as many, whose places among the active ones, in
-- rising order, are lower at the first difference or fewer; or as many at the same places, and
-- their last place in the source is not behind.
pub resolve_direct_entries-IsSelected :
    (entries : List ResolvedAssignment) (active : List Text)
    → ((variant_candidates entries ≡ [])
        × (resolve_direct_entries entries active ≡ base_value entries))
      ⊎ ((c : Candidate) × (resolve_direct_entries entries active ≡ c.value)
          × IsSelected active (variant_candidates entries) c)
unfolding resolve_direct_entries max_by
resolve_direct_entries-IsSelected entries active =
    elim (max_by-IsSelected active (variant_candidates entries)) [
      | inl e ↦ inl (e, rw (e, resolve_direct_entries) refl)
      | inr (c, e, h) ↦ inr (c, rw (e, resolve_direct_entries) refl, h)
    ]
