-- ===== src/Text/Laws.antt =====
-- What the operations on texts return.
use mathlib.Core.Option
use mathlib.Core.List.{reverse_aux, reverse-reverse, reverse-append}
use bbtidy.Base.{
  ℕ, zero, suc, ◌+◌, ◌-◌, ◌≤◌, ◌<◌, ◌≡◌, refl, sym, ap, ◌∙◌, Option, none, some, Bool, true, List,
  [], ◌∷◌, ◌++◌, reverse, length, drop, ◌==◌, Bool-cases, inl, inr, arith,
}
use bbtidy.Text.Defs.{
  Text, text_eq, strip_prefix, strip_suffix, find_byte, rfind_byte, trim_start_matches, trim_by,
  white_len, white_len_back, trim_start, trim_end, count_byte,
}

pub Option-map-some {ℓ κ} :
    {A : Type ℓ} {B : Type κ} (f : A → B) (o : Option A) {b : B}
    → Option.map f o ≡ some b
    → (a : A) × (o ≡ some a) × (f a ≡ b)
Option-map-some f none e = cc
Option-map-some f (some a) e = (a, refl, cc)

-- Equality of texts is decided by comparing bytes.
pub text_eq-true : (a b : Text) → text_eq a b ≡ true → a ≡ b
unfolding text_eq
text_eq-true [] [] h = refl
text_eq-true [] (y ∷ b) h = cc
text_eq-true (x ∷ a) [] h = cc
text_eq-true (x ∷ a) (y ∷ b) h = ground (arith, text_eq-true a b)

pub text_eq_refl : (a : Text) → text_eq a a ≡ true
unfolding text_eq
text_eq_refl [] = refl
text_eq_refl (x ∷ a) = ground (arith, text_eq_refl a)

pub strip_prefix-some : (s p r : Text) → strip_prefix s p ≡ some r → s ≡ p ++ r
unfolding strip_prefix
strip_prefix-some s [] r h = cc
strip_prefix-some [] (y ∷ p) r h = cc
strip_prefix-some (x ∷ s) (y ∷ p) r h = ground (arith, strip_prefix-some s p r)

pub strip_prefix-append : (p r : Text) → strip_prefix (p ++ r) p ≡ some r
unfolding strip_prefix
strip_prefix-append [] [] = refl
strip_prefix-append [] (x ∷ r) = refl
strip_prefix-append (y ∷ p) r = ground (arith, strip_prefix-append p r)

pub strip_suffix-some : (s p r : Text) → strip_suffix s p ≡ some r → s ≡ r ++ p
unfolding strip_suffix
strip_suffix-some s p r h =
    let (t, e, f) = Option-map-some reverse (strip_prefix (reverse s) (reverse p)) h in
    sym (reverse-reverse s)
    ∙ ap reverse (strip_prefix-some (reverse s) (reverse p) t e)
    ∙ reverse-append (reverse p) t
    ∙ ap (◌++◌ (reverse t)) (reverse-reverse p)
    ∙ ap (λ (q : Text). q ++ p) f

pub strip_suffix-append : (r p : Text) → strip_suffix (r ++ p) p ≡ some r
unfolding strip_suffix
strip_suffix-append r p =
    ap (Option.map reverse) (
      ap (λ (q : Text). strip_prefix q (reverse p)) (reverse-append r p)
      ∙ strip_prefix-append (reverse p) (reverse r))
    ∙ ap some (reverse-reverse r)

pub find_byte-lt : (s : Text) (b k : ℕ) → find_byte s b ≡ some k → k < length s
unfolding find_byte
find_byte-lt [] b k h = cc
find_byte-lt (x ∷ s) b k h = elim (Bool-cases (x == b)) [
  | inl same ↦ ground arith
  | inr other ↦
      let (j, e, f) = Option-map-some suc (find_byte s b) (rw other at h) in
      omega (arith, f, find_byte-lt s b j e)
]

pub length-reverse_aux {ℓ} :
    {A : Type ℓ} (xs ys : List A) → length (reverse_aux xs ys) ≡ length xs + length ys
length-reverse_aux [] ys = omega arith
length-reverse_aux (x ∷ xs) ys = omega (arith, length-reverse_aux xs (x ∷ ys))

pub length-reverse {ℓ} : {A : Type ℓ} (xs : List A) → length (reverse xs) ≡ length xs
length-reverse xs = omega (arith, length-reverse_aux xs [])

pub rfind_byte-lt : (s : Text) (b k : ℕ) → rfind_byte s b ≡ some k → k < length s
unfolding rfind_byte
rfind_byte-lt s b k h =
    let (j, e, f) = Option-map-some (λ i. length s - (i + 1)) (find_byte (reverse s) b) h in
    omega (arith, f, find_byte-lt (reverse s) b j e, length-reverse s)

pub trim_start_matches-le : (p : ℕ → Bool) (s : Text) → length (trim_start_matches p s) ≤ length s
unfolding trim_start_matches
trim_start_matches-le p [] = omega arith
trim_start_matches-le p (x ∷ s) = ground (arith, trim_start_matches-le p s)

-- Trimming drops a prefix.
pub trim_start_matches-drop :
    (p : ℕ → Bool) (s : Text)
    → drop (length s - length (trim_start_matches p s)) s ≡ trim_start_matches p s
unfolding trim_start_matches
trim_start_matches-drop p [] = refl
trim_start_matches-drop p (x ∷ s) = elim (Bool-cases (p x)) [
  | inl out ↦ rw out (
      let shorter = trim_start_matches-le p s in
      ap (λ (k : ℕ). drop k (x ∷ s)) {y = suc (length s - length (trim_start_matches p s))}
        (omega arith)
      ∙ trim_start_matches-drop p s)
  | inr kept ↦ rw kept (ap (λ (k : ℕ). drop k (x ∷ s)) {y = 0} (omega arith))
]

pub trim_by-le : (len : Text → ℕ) (skip : ℕ) (s : Text) → length (trim_by len skip s) ≤ length s
unfolding trim_by
trim_by-le len skip [] = omega arith
trim_by-le len (suc skip) (x ∷ s) = omega (arith, trim_by-le len skip s)
trim_by-le len zero (x ∷ s) = go (len (x ∷ s)) (λ n. trim_by-le len n s)
  where
    go :
        (k : ℕ)
        → ((n : ℕ) → length (trim_by len n s) ≤ length s)
        → length (elim k as (λ _. Text) [ zero ↦ x ∷ s | suc n ↦ trim_by len n s ]) ≤ suc (length s)
    go zero ih = omega arith
    go (suc n) ih = omega (arith, ih n)

pub trim_start-le : (s : Text) → length (trim_start s) ≤ length s
unfolding trim_start
trim_start-le s = trim_by-le white_len 0 s

pub trim_end-le : (s : Text) → length (trim_end s) ≤ length s
unfolding trim_end
trim_end-le s = omega (
  arith,
  length-reverse (trim_by white_len_back 0 (reverse s)),
  trim_by-le white_len_back 0 (reverse s),
  length-reverse s,
)

pub count_byte-append :
    (b : ℕ) (s t : Text) → count_byte b (s ++ t) ≡ count_byte b s + count_byte b t
unfolding count_byte
count_byte-append b [] t = omega arith
count_byte-append b (x ∷ s) t = omega (arith, count_byte-append b s t)
