-- ===== src/Text/Trimming.antt =====
-- What `trim` and its kin leave as it is.
use cupidmq.Common.{
  if◌then◌else◌, Bool-cases, length, length-append, ℕ, suc, ◌≤◌, ◌≡◌, refl, sym, ap, ◌∙◌, inl, inr,
  Bool, true, false, [], ◌∷◌, ◌++◌, arith,
}
use cupidmq.Text.{Text, keep_before, trim_start_matches, trim_end_matches, trim_matches}

-- Nothing at either end of `s` is trimmed.
pub record IsTrimmed (p : ℕ → Bool) (s : Text) : Type 0 where
  pub front : trim_start_matches p s ≡ s
  pub back : trim_end_matches p s ≡ s

module _ (p : ℕ → Bool) where
  pub trim_matches-IsTrimmed : (s : Text) → IsTrimmed p s → trim_matches p s ≡ s
  unfolding trim_matches
  trim_matches-IsTrimmed s h = rw (h.front, h.back) refl

  length-trim_start : (s : Text) → length (trim_start_matches p s) ≤ length s
  unfolding trim_start_matches
  length-trim_start [] = omega arith
  length-trim_start (c ∷ s) = ground (arith, length-trim_start s)

  first_stays : (c : ℕ) (s : Text) → trim_start_matches p (c ∷ s) ≡ c ∷ s → p c ≡ false
  unfolding trim_start_matches
  first_stays c s h = elim (Bool-cases (p c)) [
    | inl goes ↦ absurd (
        omega (
          arith,
          length-trim_start s,
          ap length (ap (λ b. if b then trim_start_matches p s else c ∷ s) (sym goes) ∙ h),
        ))
    | inr stays ↦ stays
  ]

  pub trim_start-append :
      (s t : Text)
      → 1 ≤ length s
      → trim_start_matches p s ≡ s
      → trim_start_matches p (s ++ t) ≡ s ++ t
  unfolding trim_start_matches
  trim_start-append [] t h k = absurd (omega arith)
  trim_start-append (c ∷ s) t h k = rw (first_stays c s k) refl

  pub trim_end-append :
      (s t : Text) → 1 ≤ length t → trim_end_matches p t ≡ t → trim_end_matches p (s ++ t) ≡ s ++ t
  unfolding trim_end_matches
  trim_end-append [] t h k = k
  trim_end-append (c ∷ s) [] h k = absurd (omega arith)
  trim_end-append (c ∷ []) (d ∷ t) h k = ap (keep_before p c) k
  trim_end-append (c ∷ e ∷ s) (d ∷ t) h k =
      ap (keep_before p c) (trim_end-append (e ∷ s) (d ∷ t) h k)

  length-keep_before : (c : ℕ) (s : Text) → length (keep_before p c s) ≤ suc (length s)
  length-keep_before c [] = ground arith
  length-keep_before c (d ∷ s) = omega arith

  length-trim_end : (s : Text) → length (trim_end_matches p s) ≤ length s
  unfolding trim_end_matches
  length-trim_end [] = omega arith
  length-trim_end (c ∷ s) =
      omega (arith, length-keep_before c (trim_end_matches p s), length-trim_end s)

  trim_end_one :
      (s : Text) (c : ℕ) → p c ≡ true → trim_end_matches p (s ++ (c ∷ [])) ≡ trim_end_matches p s
  unfolding trim_end_matches
  trim_end_one [] c h = rw h refl
  trim_end_one (d ∷ s) c h = ap (keep_before p d) (trim_end_one s c h)

  -- What `trim_end_matches` leaves as it is ends with no character that it takes.
  pub ends_otherwise :
      (s : Text) (c : ℕ) → p c ≡ true → ¬ (trim_end_matches p (s ++ (c ∷ [])) ≡ s ++ (c ∷ []))
  ends_otherwise s c h k =
      omega (
        arith,
        length-trim_end s,
        length-append s (c ∷ []),
        ap length (sym (trim_end_one s c h) ∙ k),
      )

  pub append-IsTrimmed :
      (s m t : Text)
      → 1 ≤ length s
      → 1 ≤ length t
      → IsTrimmed p s
      → IsTrimmed p t
      → IsTrimmed p (s ++ (m ++ t))
  append-IsTrimmed s m t h k hs ht = record {
    front = trim_start-append s (m ++ t) h hs.front;
    back =
        trim_end-append s (m ++ t) (omega (arith, length-append m t))
          (trim_end-append m t k ht.back);
  }
