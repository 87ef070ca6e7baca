-- ===== src/Overrides/Precedence.antt =====
-- Which variant comes before which, for `resolve_direct_entries` of src/overrides.rs.
use bbtidy.Base.{
  ℕ, zero, suc, ◌≤◌, ◌<◌, ◌≡◌, ◌⊎◌, refl, sym, ap, ◌∙◌, Option, none, some, true, false, List, [],
  ◌∷◌, length, ltb, leb, ◌==◌, Bool-cases, inl, inr, arith,
}
use mathlib.Core.Bool.{true≢false}
use mathlib.Core.Option
use mathlib.Core.List.{Memᴰ, Permᴰ}
use mathlib.Core.List.Permᴰ
use mathlib.Core.List.Memᴰ
use mathlib.Core.List.Memᴰ.{head, tail}
use bbtidy.Base.Sorting.{insert_sorted, sort_by, sort_by-Ascending, Ascending}
use bbtidy.Text.{Text, text_eq, text_eq-true, text_eq_refl}
use bbtidy.Text.Maps.{lex_lt}
use bbtidy.Overrides.Rank.{position, positions, override_rank, Candidate, not_above}

-- The first item that is the wanted one stands at the place.
abbrev pub FirstAt : Text → List Text → ℕ → Type 0
FirstAt wanted [] p = ⊥
FirstAt wanted (item ∷ items) zero = item ≡ wanted
FirstAt wanted (item ∷ items) (suc p) = (¬ (item ≡ wanted)) × FirstAt wanted items p

-- The places of the overrides among the active ones; one that is not active has none.
abbrev pub Placed : List Text → List Text → List ℕ → Type 0
Placed active [] ps = ps ≡ []
Placed active (o ∷ os) ps =
    ((p : ℕ) × (rest : List ℕ) × FirstAt o active p × Placed active os rest × (ps ≡ p ∷ rest))
    ⊎ ((¬ Memᴰ o active) × Placed active os ps)

abbrev pub Rising : List ℕ → Type 0
Rising [] = Unit
Rising (x ∷ []) = Unit
Rising (x ∷ y ∷ ys) = (x ≤ y) × Rising (y ∷ ys)

-- The places in rising order.
abbrev pub Ranked : List Text → List Text → List ℕ → Type 0
Ranked active overrides ps =
    Rising ps × ((found : List ℕ) × Placed active overrides found × Permᴰ ps found)

-- At the first place where they differ the first list is lower, or it ends there.
abbrev pub Lower : List ℕ → List ℕ → Type 0
Lower [] [] = ⊥
Lower [] (y ∷ ys) = Unit
Lower (x ∷ xs) [] = ⊥
Lower (x ∷ xs) (y ∷ ys) = (x < y) ⊎ ((x ≡ y) × Lower xs ys)

-- `d` has fewer overrides than `c`; or as many, and lower places; or as many and the same places,
-- and its last place in the source is not behind.
abbrev pub Yields : List Text → Candidate → Candidate → Type 0
Yields active d c =
    (length d.overrides < length c.overrides)
    ⊎ ((length d.overrides ≡ length c.overrides)
        × ((ps : List ℕ) × (qs : List ℕ) × Ranked active d.overrides ps
            × Ranked active c.overrides qs
            × (Lower ps qs ⊎ ((ps ≡ qs) × (d.sequence ≤ c.sequence)))))

text_eq-distinct : (a b : Text) → text_eq a b ≡ false → ¬ (a ≡ b)
text_eq-distinct a b e same = true≢false (sym (ap (text_eq a) (sym same) ∙ text_eq_refl a) ∙ e)

-- What `position` finds.
Position : Text → List Text → Option ℕ → Type 0
Position wanted active none = ¬ Memᴰ wanted active
Position wanted active (some p) = FirstAt wanted active p

Position-behind :
    (wanted item : Text) (items : List Text) (o : Option ℕ)
    → text_eq item wanted ≡ false
    → Position wanted items o
    → Position wanted (item ∷ items) (Option.map suc o)
unfolding Position
Position-behind wanted item items (some p) e h = (text_eq-distinct item wanted e, h)
Position-behind wanted item items none e h = λ m. absent m
  where
    absent : Memᴰ wanted (item ∷ items) → ⊥
    absent (head same) = text_eq-distinct item wanted e (sym same)
    absent (tail m) = h m

position-Position :
    (wanted : Text) (active : List Text) → Position wanted active (position wanted active)
unfolding position Position
position-Position wanted [] = λ m. Memᴰ.not-nil m
position-Position wanted (item ∷ items) = elim (Bool-cases (text_eq item wanted)) [
  | inl e ↦ rw (e, position) (text_eq-true item wanted e)
  | inr e ↦
      rw (e, position)
        (Position-behind wanted item items (position wanted items) e
          (position-Position wanted items))
]

positions-Placed :
    (active overrides : List Text) → Placed active overrides (positions active overrides)
unfolding positions Position
positions-Placed active [] = refl
positions-Placed active (o ∷ os) =
    place (position o active) refl (position-Position o active) (positions-Placed active os)
  where
    place :
        (found : Option ℕ)
        → position o active ≡ found
        → Position o active found
        → Placed active os (positions active os)
        → Placed active (o ∷ os) (positions active (o ∷ os))
    place none e h later = rw (e, positions) (inr (h, later))
    place (some p) e h later = rw (e, positions) (inl (p, positions active os, h, later, refl))

insert_sorted-Perm : (x : ℕ) (ys : List ℕ) → Permᴰ (insert_sorted leb x ys) (x ∷ ys)
unfolding insert_sorted
insert_sorted-Perm x [] = Permᴰ.refl _
insert_sorted-Perm x (y ∷ ys) = elim (Bool-cases (leb x y)) [
  | inl e ↦ rw (e, insert_sorted) (Permᴰ.refl _)
  | inr e ↦
      rw (e, insert_sorted)
        (Permᴰ.trans (Permᴰ.cons refl (insert_sorted-Perm x ys)) (Permᴰ.swap refl refl))
]

sort_by-Perm : (xs : List ℕ) → Permᴰ (sort_by leb xs) xs
unfolding sort_by
sort_by-Perm [] = Permᴰ.refl _
sort_by-Perm (x ∷ xs) =
    Permᴰ.trans (insert_sorted-Perm x (sort_by leb xs)) (Permᴰ.cons refl (sort_by-Perm xs))

Ascending-Rising : (xs : List ℕ) → Ascending leb xs → Rising xs
Ascending-Rising [] a = tt
Ascending-Rising (x ∷ []) a = tt
Ascending-Rising (x ∷ y ∷ ys) (e, a) = (ground (arith, e), Ascending-Rising (y ∷ ys) a)

override_rank-Ranked :
    (active overrides : List Text) → Ranked active overrides (override_rank overrides active).1
unfolding override_rank
override_rank-Ranked active overrides = (
  Ascending-Rising (sort_by leb (positions active overrides))
      (sort_by-Ascending leb (λ a b e. ground (arith, e)) (positions active overrides)),
  (
    positions active overrides,
    positions-Placed active overrides,
    sort_by-Perm (positions active overrides),
  ),
)

lex_lt-Lower : (xs ys : List ℕ) → lex_lt ltb ◌==◌ xs ys ≡ true → Lower xs ys
unfolding lex_lt
lex_lt-Lower [] [] e = absurd cc
lex_lt-Lower [] (y ∷ ys) e = tt
lex_lt-Lower (x ∷ xs) [] e = absurd cc
lex_lt-Lower (x ∷ xs) (y ∷ ys) e = elim (Bool-cases (ltb x y)) [
  | inl f ↦ inl (ground (arith, f))
  | inr f ↦ inr (ground (arith, e, f), lex_lt-Lower xs ys (ground (arith, e, f)))
]

lex_lt-same :
    (xs ys : List ℕ) → lex_lt ltb ◌==◌ xs ys ≡ false → lex_lt ltb ◌==◌ ys xs ≡ false → xs ≡ ys
unfolding lex_lt
lex_lt-same [] [] e f = refl
lex_lt-same [] (y ∷ ys) e f = absurd cc
lex_lt-same (x ∷ xs) [] e f = absurd cc
lex_lt-same (x ∷ xs) (y ∷ ys) e f =
    let same : x ≡ y = ground (arith, e, f) in
    let later = lex_lt-same xs ys (ground (arith, e, f, same)) (ground (arith, e, f, same)) in
    ap (λ (k : ℕ). k ∷ xs) same ∙ ap (λ (l : List ℕ). y ∷ l) later

-- The comparison of `max_by` is the order of the variants.
pub not_above-Yields :
    (active : List Text) (d c : Candidate) → not_above active d c ≡ true → Yields active d c
unfolding override_rank
not_above-Yields active d c e = elim (Bool-cases (ltb (length d.overrides) (length c.overrides))) [
  | inl f ↦ inl (ground (arith, f))
  | inr f ↦
      let ps = sort_by leb (positions active d.overrides) in
      let qs = sort_by leb (positions active c.overrides) in
      let as_many : length d.overrides ≡ length c.overrides = ground (arith, e, f) in
      inr (
        as_many,
        (
          ps,
          qs,
          override_rank-Ranked active d.overrides,
          override_rank-Ranked active c.overrides,
          elim (Bool-cases (lex_lt ltb ◌==◌ ps qs)) [
            | inl g ↦ inl (lex_lt-Lower ps qs g)
            | inr g ↦ inr (
              lex_lt-same ps qs g (ground (arith, e, f, g, as_many)),
              ground (arith, e, f, g, as_many),
            )
          ],
        ),
      )
]
