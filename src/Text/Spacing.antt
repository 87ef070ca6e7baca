-- ===== src/Text/Spacing.antt =====
-- White-space characters as they stand in a text.
use bbtidy.Base.{
  ℕ, ◌≤◌, ◌<◌, ◌≡◌, refl, Bool, true, false, ◌||◌, [], ◌∷◌, length, take, ◌&&◌, ◌⊎◌, Bool-cases,
  inl, inr, ◌==◌, leb, if◌then◌else◌, arith,
}
use bbtidy.Text.Defs.{Text, is_white_byte, white_len}

-- One white-space character.
pub record IsWhite (w : Text) : Type 0 where
  pub whole : white_len w ≡ length w
  pub some_byte : 0 < length w

IsWhite-byte : (c : ℕ) → is_white_byte c ≡ true → IsWhite (c ∷ [])
unfolding white_len
IsWhite-byte c h = record { whole = ground arith; some_byte = omega arith }

abbrev three : Bool → Bool → Bool → ℕ
three a b c = if a then 3 else if b then 3 else if c then 3 else 0

three_or_none : (a b c : Bool) → (three a b c ≡ 3) ⊎ (three a b c ≡ 0)
three_or_none true b c = inl refl
three_or_none false true c = inl refl
three_or_none false false true = inl refl
three_or_none false false false = inr refl

-- What `white_len` finds at the front is a white-space character.
pub IsWhite-white_len :
    (s : Text) → 0 < white_len s → (white_len s ≤ length s) × IsWhite (take (white_len s) s)
unfolding white_len
IsWhite-white_len [] h = omega arith
IsWhite-white_len (x ∷ []) h = ground arith
IsWhite-white_len (x ∷ y ∷ []) h = ground arith
IsWhite-white_len (x ∷ y ∷ z ∷ s) h = elim (Bool-cases (is_white_byte x)) [
  | inl e ↦ rw e (omega arith, IsWhite-byte x e)
  | inr e ↦ elim (Bool-cases ((x == 0xC2) && ((y == 0x85) || (y == 0xA0)))) [
    | inl f ↦
        rw e (rw f (omega arith, record { whole = rw e (rw f refl); some_byte = omega arith }))
    | inr f ↦ elim (Bool-cases ((x == 0xE1) && (y == 0x9A) && (z == 0x80))) [
      | inl g ↦ rw e (
          rw f (
            rw g
              (omega arith, record { whole = rw e (rw f (rw g refl)); some_byte = omega arith })))
      | inr g ↦
          elim (three_or_none
            ((x == 0xE2)
              && (y == 0x80)
              && ((leb 0x80 z && leb z 0x8A) || (z == 0xA8) || (z == 0xA9) || (z == 0xAF)))
            ((x == 0xE2) && (y == 0x81) && (z == 0x9F))
            ((x == 0xE3) && (y == 0x80) && (z == 0x80))) [
              | inl k ↦ rw e (
                  rw f (
                    rw g (
                      rw k (
                        omega arith,
                        record { whole = rw e (rw f (rw g k)); some_byte = omega arith },
                      ))))
              | inr k ↦
                  let n : white_len (x ∷ y ∷ z ∷ s) ≡ 0 = rw e (rw f (rw g k)) in omega (arith, n)
            ]
    ]
  ]
]

-- No white-space byte stands where `white_len` finds nothing.
pub white_len-zero : (c : ℕ) (s : Text) → white_len (c ∷ s) ≡ 0 → is_white_byte c ≡ false
unfolding white_len
white_len-zero c s h = elim (Bool-cases (is_white_byte c)) [ inr e ↦ e | inl e ↦ white_at s h ]
  where
    white_at : (s : Text) → white_len (c ∷ s) ≡ 0 → is_white_byte c ≡ false
    white_at [] h = ground arith
    white_at (x ∷ []) h = ground arith
    white_at (x ∷ y ∷ s) h = ground arith
