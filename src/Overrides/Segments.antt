-- ===== src/Overrides/Segments.antt =====
-- Values of src/overrides.rs as tokens and white space, for `remove_override_tokens`.
use bbtidy.Base.{
  ℕ, zero, suc, take, drop, ◌≡◌, ◌⊎◌, refl, true, any, Bool-cases, inl, inr, arith, sym, ap, ◌∙◌,
  List, [], ◌∷◌, ◌++◌, All, append_assoc, append-nil,
}
use bbtidy.Base.Membership.{Mem-any}
use mathlib.Core.Bool.{true≢false}
use mathlib.Core.List.{Memᴰ}
use mathlib.Core.List.Memᴰ.{head, tail}
use bbtidy.Text.{Text, white_len, text_eq, text_eq-true, text_eq_refl}
use bbtidy.Text.Spacing.{IsWhite}
use bbtidy.Overrides.Values.{kept_token}

-- A value as tokens, which may be empty, each with the white-space character behind it.
abbrev pub Segments : Type 0
Segments = List (Text × Text)

abbrev pub segments_text : Segments → Text
segments_text [] = []
segments_text ((token, white) ∷ rest) = token ++ (white ++ segments_text rest)

abbrev pub segments_kept : List Text → Segments → Text
segments_kept removals [] = []
segments_kept removals ((token, white) ∷ rest) =
    kept_token removals token ++ (white ++ segments_kept removals rest)

-- No white-space character begins at any byte of the token.
abbrev pub IsToken : Text → Type 0
IsToken [] = Unit
IsToken (c ∷ cs) = (white_len (c ∷ cs) ≡ 0) × IsToken cs

white_len-take : (n : ℕ) (t : Text) → white_len t ≡ 0 → white_len (take n t) ≡ 0
unfolding white_len
white_len-take zero t h = refl
white_len-take (suc n) [] h = refl
white_len-take (suc zero) (a ∷ []) h = h
white_len-take (suc (suc n)) (a ∷ []) h = h
white_len-take (suc zero) (a ∷ b ∷ []) h = ground (arith, h)
white_len-take (suc (suc zero)) (a ∷ b ∷ []) h = h
white_len-take (suc (suc (suc n))) (a ∷ b ∷ []) h = h
white_len-take (suc zero) (a ∷ b ∷ c ∷ t) h = ground (arith, h)
white_len-take (suc (suc zero)) (a ∷ b ∷ c ∷ t) h = ground (arith, h)
white_len-take (suc (suc (suc n))) (a ∷ b ∷ c ∷ t) h = h

-- No white-space character begins at the first `n` bytes.
abbrev pub NoWhite : ℕ → Text → Type 0
NoWhite zero t = Unit
NoWhite (suc n) [] = Unit
NoWhite (suc n) (c ∷ cs) = (white_len (c ∷ cs) ≡ 0) × NoWhite n cs

pub NoWhite-snoc :
    (n c : ℕ) (cs t : Text)
    → drop n t ≡ c ∷ cs
    → white_len (c ∷ cs) ≡ 0
    → NoWhite n t
    → NoWhite (suc n) t
NoWhite-snoc zero c cs [] e h w = tt
NoWhite-snoc zero c cs (x ∷ t) e h w = (ap white_len e ∙ h, tt)
NoWhite-snoc (suc n) c cs [] e h w = tt
NoWhite-snoc (suc n) c cs (x ∷ t) e h w = (w.0, NoWhite-snoc n c cs t e h w.1)

pub NoWhite-IsToken : (n : ℕ) (t : Text) → NoWhite n t → IsToken (take n t)
NoWhite-IsToken zero t w = tt
NoWhite-IsToken (suc n) [] w = tt
NoWhite-IsToken (suc n) (c ∷ cs) w = (white_len-take (suc n) (c ∷ cs) w.0, NoWhite-IsToken n cs w.1)

abbrev pub IsSegment : Text × Text → Type 0
IsSegment (token, white) = IsToken token × IsWhite white

-- A token is left out if it is one of the removals, and otherwise written as it is.
abbrev pub Leaves : List Text → Text → Text → Type 0
Leaves removals token written =
    (Memᴰ token removals × (written ≡ [])) ⊎ ((¬ Memᴰ token removals) × (written ≡ token))

-- What is written of the segments: what is left of each token, and all white space.
abbrev pub Written : List Text → Segments → Text → Type 0
Written removals [] output = output ≡ []
Written removals ((token, white) ∷ rest) output =
    (left : Text) × (later : Text) × Leaves removals token left
    × Written removals rest later
    × (output ≡ left ++ (white ++ later))

-- `output` is `value` without the tokens that are among `removals`.
pub record Removed (removals : List Text) (value output : Text) : Type 0 where
  pub segments : Segments
  pub last : Text
  pub each : All IsSegment segments
  pub last_token : IsToken last
  pub read : segments_text segments ++ last ≡ value
  pub front : Text
  pub left : Text
  pub written : Written removals segments front
  pub last_left : Leaves removals last left
  pub output_read : output ≡ front ++ left

removal-Mem :
    (token : Text) (removals : List Text)
    → any (text_eq token) removals ≡ true
    → Memᴰ token removals
removal-Mem token [] e = absurd cc
removal-Mem token (r ∷ removals) e = elim (Bool-cases (text_eq token r)) [
  | inl f ↦ head (text_eq-true token r f)
  | inr f ↦ tail (removal-Mem token removals (ground (arith, e, f)))
]

Mem-removal :
    (token : Text) (removals : List Text)
    → Memᴰ token removals
    → any (text_eq token) removals ≡ true
Mem-removal token removals m = Mem-any (text_eq token) removals m (text_eq_refl token)

pub kept_token-Leaves :
    (removals : List Text) (token : Text) → Leaves removals token (kept_token removals token)
unfolding kept_token
kept_token-Leaves removals token = elim (Bool-cases (any (text_eq token) removals)) [
  | inl e ↦ inl (removal-Mem token removals e, rw (e, kept_token) refl)
  | inr e ↦
      inr (
        λ m. let f = Mem-removal token removals m in true≢false (sym f ∙ e),
        rw (e, kept_token) refl,
      )
]

pub segments_kept-Written :
    (removals : List Text) (segments : Segments)
    → Written removals segments (segments_kept removals segments)
segments_kept-Written removals [] = refl
segments_kept-Written removals ((token, white) ∷ rest) = (
  kept_token removals token,
  segments_kept removals rest,
  kept_token-Leaves removals token,
  segments_kept-Written removals rest,
  refl,
)

regroup : (a b c d : Text) → a ++ (b ++ (c ++ d)) ≡ (a ++ (b ++ c)) ++ d
regroup a b c d = ap (◌++◌ a) (sym (append_assoc b c d)) ∙ sym (append_assoc a (b ++ c) d)

pub segments_text-append :
    (segments : Segments) (token white : Text)
    → segments_text (segments ++ (token, white) ∷ []) ≡ segments_text segments ++ (token ++ white)
segments_text-append [] token white = ap (◌++◌ token) (append-nil white)
segments_text-append ((t, w) ∷ rest) token white =
    ap (λ (s : Text). t ++ (w ++ s)) (segments_text-append rest token white)
    ∙ regroup t w (segments_text rest) (token ++ white)

pub segments_kept-append :
    (removals : List Text) (segments : Segments) (token white : Text)
    → segments_kept removals (segments ++ (token, white) ∷ [])
      ≡ segments_kept removals segments ++ (kept_token removals token ++ white)
segments_kept-append removals [] token white =
    ap (◌++◌ (kept_token removals token)) (append-nil white)
segments_kept-append removals ((t, w) ∷ rest) token white =
    ap (λ (s : Text). kept_token removals t ++ (w ++ s))
      (segments_kept-append removals rest token white)
    ∙ regroup (kept_token removals t) w (segments_kept removals rest)
        (kept_token removals token ++ white)
