-- ===== src/Text/MapLaws.antt =====
-- `get` after `update` in an ordered map of texts.
use bbtidy.Base.{
  ◌≡◌, refl, sym, ap, ◌∙◌, Option, none, some, true, false, List, [], ◌∷◌, map, All, All-map,
  Bool-cases, inl, inr, if◌then◌else◌, arith,
}
use mathlib.Core.Option
use mathlib.Core.Bool.{true≢false}
use bbtidy.Text.Defs.{Text, text_eq}
use bbtidy.Text.Laws.{text_eq-true, text_eq_refl}
use bbtidy.Text.Maps.{get, update, lex_lt, text_lt}

text_lt_irrefl : (a : Text) → text_lt a a ≡ false
unfolding lex_lt
text_lt_irrefl [] = refl
text_lt_irrefl (x ∷ a) = ground (arith, text_lt_irrefl a)

text_lt_trans : (a b c : Text) → text_lt a b ≡ true → text_lt b c ≡ true → text_lt a c ≡ true
unfolding lex_lt
text_lt_trans [] [] c p q = q
text_lt_trans [] (y ∷ b) [] p q = cc
text_lt_trans [] (y ∷ b) (z ∷ c) p q = refl
text_lt_trans (x ∷ a) [] c p q = cc
text_lt_trans (x ∷ a) (y ∷ b) [] p q = cc
text_lt_trans (x ∷ a) (y ∷ b) (z ∷ c) p q = ground (arith, text_lt_trans a b c)

text_lt_total : (a b : Text) → text_eq a b ≡ false → text_lt a b ≡ false → text_lt b a ≡ true
unfolding lex_lt text_eq
text_lt_total [] [] p q = cc
text_lt_total [] (y ∷ b) p q = cc
text_lt_total (x ∷ a) [] p q = refl
text_lt_total (x ∷ a) (y ∷ b) p q = ground (arith, text_lt_total a b)

text_lt_distinct : (a b : Text) → text_lt a b ≡ true → text_eq a b ≡ false
text_lt_distinct a b p = elim (Bool-cases (text_eq a b)) [
  | inl e ↦
      let q : text_lt a a ≡ true = ap (text_lt a) (text_eq-true a b e) ∙ p in
      absurd (true≢false (sym q ∙ text_lt_irrefl a))
  | inr e ↦ e
]

module _ {A : Type 0} where
  -- The keys ascend.
  abbrev pub Ordered : List (Text × A) → Type 0
  Ordered [] = Unit
  Ordered ((k, value) ∷ m) = All (λ (e : Text × A). text_lt k e.0 ≡ true) m × Ordered m

  above :
      (k l : Text) (m : List (Text × A))
      → text_lt k l ≡ true
      → All (λ (e : Text × A). text_lt l e.0 ≡ true) m
      → All (λ (e : Text × A). text_lt k e.0 ≡ true) m
  above k l m p a = All-map m (λ e q. text_lt_trans k l e.0 p q) a

  get-above :
      (k : Text) (m : List (Text × A))
      → All (λ (e : Text × A). text_lt k e.0 ≡ true) m
      → get text_lt text_eq k m ≡ none
  unfolding get
  get-above k [] a = refl
  get-above k ((l, value) ∷ m) a = rw (text_lt_distinct k l a.0) (get-above k m a.1)

  module _ (f : Option A → A) where
    All-update :
        (P : Text → Type 0) (key : Text) (m : List (Text × A))
        → P key
        → All (λ (e : Text × A). P e.0) m
        → All (λ (e : Text × A). P e.0) (update text_lt text_eq key f m)
    unfolding update
    All-update P key [] p a = (p, tt)
    All-update P key ((l, value) ∷ m) p a = elim (Bool-cases (text_eq key l)) [
      | inl e ↦ rw (e, update) a
      | inr e ↦ elim (Bool-cases (text_lt key l)) [
        | inl g ↦ rw (e, update) (rw g (p, a))
        | inr g ↦ rw (e, update) (rw g (a.0, All-update P key m p a.1))
      ]
    ]

    pub update-Ordered :
        (key : Text) (m : List (Text × A)) → Ordered m → Ordered (update text_lt text_eq key f m)
    unfolding update
    update-Ordered key [] o = (tt, tt)
    update-Ordered key ((l, value) ∷ m) o = elim (Bool-cases (text_eq key l)) [
      | inl e ↦ rw (e, update) o
      | inr e ↦ elim (Bool-cases (text_lt key l)) [
        | inl g ↦ rw (e, update) (rw g ((g, above key l m g o.0), o))
        | inr g ↦
            rw (e, update)
              (rw g (
                All-update (λ k. text_lt l k ≡ true) key m (text_lt_total key l e g) o.0,
                update-Ordered key m o.1,
              ))
      ]
    ]

    -- What is at the key that was updated.
    pub get-update-same :
        (key : Text) (m : List (Text × A))
        → Ordered m
        → get text_lt text_eq key (update text_lt text_eq key f m)
          ≡ some (f (get text_lt text_eq key m))
    unfolding update get
    get-update-same key [] o = rw (text_eq_refl key) refl
    get-update-same key ((l, value) ∷ m) o = elim (Bool-cases (text_eq key l)) [
      | inl e ↦ rw (e, update, get) (rw e refl)
      | inr e ↦ elim (Bool-cases (text_lt key l)) [
        | inl g ↦
            rw (e, update, get)
              (rw g (rw (text_eq_refl key) (rw (get-above key m (above key l m g o.0)) refl)))
        | inr g ↦ rw (e, update, get) (rw g (rw e (get-update-same key m o.1)))
      ]
    ]

    -- What is at another key.
    pub get-update-other :
        (key other : Text) (m : List (Text × A))
        → text_eq other key ≡ false
        → get text_lt text_eq other (update text_lt text_eq key f m) ≡ get text_lt text_eq other m
    unfolding update get
    get-update-other key other [] n = rw n refl
    get-update-other key other ((l, value) ∷ m) n = elim (Bool-cases (text_eq key l)) [
      | inl e ↦
          let different : text_eq other l ≡ false =
            ap (text_eq other) (sym (text_eq-true key l e)) ∙ n in
          rw (e, update) (rw different refl)
      | inr e ↦ elim (Bool-cases (text_lt key l)) [
        | inl g ↦ rw (e, update) (rw g (rw n refl))
        | inr g ↦
            rw (e, update)
              (rw g (
                ap (λ (r : Option A). if text_eq other l then some value else r)
                  (get-update-other key other m n)))
      ]
    ]

-- Values that are computed from what is in the map.
pub get-map :
    {A B : Type 0} (f : A → B) (key : Text) (m : List (Text × A))
    → get text_lt text_eq key (map (λ (e : Text × A). (e.0, f e.1)) m)
      ≡ Option.map f (get text_lt text_eq key m)
unfolding get
get-map f key [] = refl
get-map f key ((l, value) ∷ m) = elim (Bool-cases (text_eq key l)) [
  | inl e ↦ rw (e, get) refl
  | inr e ↦ rw (e, get) (get-map f key m)
]

module _ {A B : Type 0} (f : A → B) where
  above-map :
      (k : Text) (m : List (Text × A))
      → All (λ (e : Text × A). text_lt k e.0 ≡ true) m
      → All (λ (e : Text × B). text_lt k e.0 ≡ true) (map (λ (e : Text × A). (e.0, f e.1)) m)
  above-map k [] a = tt
  above-map k (e ∷ m) a = (a.0, above-map k m a.1)

  pub map-Ordered :
      (m : List (Text × A)) → Ordered m → Ordered (map (λ (e : Text × A). (e.0, f e.1)) m)
  map-Ordered [] o = tt
  map-Ordered ((l, value) ∷ m) o = (above-map l m o.0, map-Ordered m o.1)

pub text_lt_asym : (a b : Text) → text_lt a b ≡ true → text_lt b a ≡ false
text_lt_asym a b p = elim (Bool-cases (text_lt b a)) [
  | inl e ↦ absurd (true≢false (sym (text_lt_trans a b a p e) ∙ text_lt_irrefl a))
  | inr e ↦ e
]
