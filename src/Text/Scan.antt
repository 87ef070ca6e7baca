-- ===== src/Text/Scan.antt =====
-- The loop shape of the scanners: `while index < bytes.len() { ... }` with an index that only
-- grows. A round reads the bytes from the index on and the byte it, and either stops or
-- goes on with a new state after `skip` more bytes; the recursion is on the bytes that are left.
use bbtidy.Base.{
  ℕ, zero, suc, ◌+◌, ◌≤◌, ◌≡◌, List, [], ◌∷◌, length, drop, drop-nil_short, drop_step, arith, subst,
}

pub data Move {ℓ κ} (S : Type ℓ) (R : Type κ) : Type (ℓ ⊔ κ) where
  go : S → ℕ → Move S R
  stop : R → Move S R

module _ {ℓ κ} {S : Type ℓ} {R : Type κ} where
  abbrev resume : (S → ℕ → R) → Move S R → R
  resume k (go s skip) = k s skip
  resume k (stop r) = r

  unfoldable pub scan : (ℕ → List ℕ → S → Move S R) → (S → R) → ℕ → ℕ → S → List ℕ → R
  scan step finish index skip s [] = finish s
  scan step finish index (suc skip) s (c ∷ cs) = scan step finish (index + 1) skip s cs
  scan step finish index zero s (c ∷ cs) =
      resume (λ s' skip. scan step finish (index + 1) skip s' cs) (step index (c ∷ cs) s)

  -- What one round at `index` keeps: `P` where the next round starts, `Q` of a result.
  abbrev pub Kept {μ} : (ℕ → S → Type μ) → (R → Type μ) → ℕ → Move S R → Type μ
  Kept P Q index (go s skip) = P (index + 1 + skip) s
  Kept P Q index (stop r) = Q r

module _ {ℓ κ μ} {S : Type ℓ} {R : Type κ} (P : ℕ → S → Type μ) (Q : R → Type μ) where
  resume_inv :
      (index : ℕ) (k : S → ℕ → R) (m : Move S R)
      → ((s : S) (skip : ℕ) → P (index + 1 + skip) s → Q (k s skip))
      → Kept P Q index m
      → Q (resume k m)
  resume_inv index k (go s skip) next p = next s skip p
  resume_inv index k (stop r) next q = q

  module _ (step : ℕ → List ℕ → S → Move S R) (finish : S → R) (whole : List ℕ)
      (keeps : (i : ℕ) (c : ℕ) (cs : List ℕ) (s : S)
        → drop i whole ≡ c ∷ cs
        → P i s
        → Kept P Q i (step i (c ∷ cs) s))
      (ends : (j : ℕ) (s : S) → length whole ≤ j → P j s → Q (finish s)) where
    -- The invariant rule for a scan of the bytes of `whole` from `index` on: what every round
    -- keeps holds of the result.
    pub scan_inv :
        (index skip : ℕ) (s : S) (xs : List ℕ)
        → drop index whole ≡ xs
        → P (index + skip) s
        → Q (scan step finish index skip s xs)
    unfolding scan
    scan_inv index skip s [] e p =
        let short = drop-nil_short index whole e in ends (index + skip) s (omega arith) p
    scan_inv index (suc skip) s (c ∷ cs) e p =
        scan_inv (index + 1) skip s cs (drop_step index whole e)
          (subst (λ (k : ℕ). P k s) (omega arith) p)
    scan_inv index zero s (c ∷ cs) e p =
        resume_inv index _ (step index (c ∷ cs) s)
          (λ s' skip q. scan_inv (index + 1) skip s' cs (drop_step index whole e) q)
          (keeps index c cs s e (subst (λ (k : ℕ). P k s) (omega arith) p))
