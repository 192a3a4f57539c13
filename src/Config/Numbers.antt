-- ===== src/Config/Numbers.antt =====
-- The sizes of a configuration: `parse_size` on a decimal number, alone or with a suffix.
use cupidmq.Common.{
  length, u64_mod, ℕ, ◌*◌, ◌^◌, ◌≤◌, ◌<◌, ◌≡◌, refl, sym, ap, ◌∙◌, false, none, some, [], ◌∷◌, ◌++◌,
  append-nil, arith,
}
use cupidmq.Text.{
  Text, codes, is_empty, is_whitespace, trim, to_ascii_lowercase, without_char, strip_suffix,
  is_digit, parse_uint, decimal,
}
use cupidmq.Text.Trimming.{trim_matches-IsTrimmed}
use cupidmq.Text.Cutting.{strip_suffix-append}
use cupidmq.Text.Numbers.{
  Digits, decimal-Digits, decimal-some, parse_uint-decimal, Digits-IsTrimmed, lower-Digits,
  without-Digits, strip_suffix-Digits,
}
use cupidmq.Config.Spelling.{Spells, Blank, normalized-Spells}
use cupidmq.Config.{Sizes, suffixes, normalized, or_scaled, parse_suffixes, parse_size}

trim-Digits : (s : Text) → Digits s → trim s ≡ s
unfolding trim
trim-Digits s h =
    trim_matches-IsTrimmed is_whitespace s
      (Digits-IsTrimmed is_whitespace s (λ c d. ground arith) h)

normalized-Digits : (s : Text) → Digits s → normalized s ≡ s
unfolding to_ascii_lowercase without_char
normalized-Digits s h =
    ap (λ t. without_char b'_' (to_ascii_lowercase t)) (trim-Digits s h)
    ∙ ap (λ t. without_char b'_' (to_ascii_lowercase t)) (sym (append-nil s))
    ∙ ap (without_char b'_') (lower-Digits s [] h)
    ∙ without-Digits s [] h
    ∙ append-nil s

-- What a suffix stands for, and how it is written.
pub data UnitOf : Text → ℕ → Type 0 where
  gigabytes : UnitOf (codes "gb") (1024 * 1024 * 1024)
  giga : UnitOf (codes "g") (1024 * 1024 * 1024)
  megabytes : UnitOf (codes "mb") (1024 * 1024)
  mega : UnitOf (codes "m") (1024 * 1024)
  kilobytes : UnitOf (codes "kb") (1024)
  kilo : UnitOf (codes "k") (1024)

not_empty : (s t : Text) → 1 ≤ length s → is_empty (s ++ t) ≡ false
not_empty [] t h = absurd (omega arith)
not_empty (c ∷ s) t h = refl

module _ {F : Type 0} (sizes : Sizes F) where
  abbrev miss :
      (x : ℕ) (t u s : Text)
      → is_digit x ≡ false
      → strip_suffix (x ∷ t) u ≡ none
      → Digits s
      → strip_suffix (x ∷ t) (s ++ u) ≡ none
  miss x t u s e k h = strip_suffix-Digits x t u s e h k

  parse_suffixes-suffix :
      (u : Text) (mul : ℕ) (s : Text)
      → UnitOf u mul
      → Digits s
      → parse_suffixes sizes suffixes (s ++ u) ≡ or_scaled sizes mul (some s) none
  unfolding parse_suffixes strip_suffix
  parse_suffixes-suffix u mul s gigabytes h = rw (strip_suffix-append (codes "gb") s) refl
  parse_suffixes-suffix u mul s giga h =
      rw (miss b'g' (codes "b") (codes "g") s refl refl h, strip_suffix-append (codes "g") s) refl
  parse_suffixes-suffix u mul s megabytes h =
      rw
        (
          miss b'g' (codes "b") (codes "mb") s refl refl h,
          miss b'g' [] (codes "mb") s refl refl h,
          strip_suffix-append (codes "mb") s,
        )
        refl
  parse_suffixes-suffix u mul s mega h =
      rw
        (
          miss b'g' (codes "b") (codes "m") s refl refl h,
          miss b'g' [] (codes "m") s refl refl h,
          miss b'm' (codes "b") (codes "m") s refl refl h,
          strip_suffix-append (codes "m") s,
        )
        refl
  parse_suffixes-suffix u mul s kilobytes h =
      rw
        (
          miss b'g' (codes "b") (codes "kb") s refl refl h,
          miss b'g' [] (codes "kb") s refl refl h,
          miss b'm' (codes "b") (codes "kb") s refl refl h,
          miss b'm' [] (codes "kb") s refl refl h,
          strip_suffix-append (codes "kb") s,
        )
        refl
  parse_suffixes-suffix u mul s kilo h =
      rw
        (
          miss b'g' (codes "b") (codes "k") s refl refl h,
          miss b'g' [] (codes "k") s refl refl h,
          miss b'm' (codes "b") (codes "k") s refl refl h,
          miss b'm' [] (codes "k") s refl refl h,
          miss b'k' (codes "b") (codes "k") s refl refl h,
          strip_suffix-append (codes "k") s,
        )
        refl

  parse_suffixes-Digits :
      (s : Text) → Digits s → parse_suffixes sizes suffixes (s ++ []) ≡ parse_uint u64_mod (s ++ [])
  unfolding parse_suffixes strip_suffix
  parse_suffixes-Digits s h =
      rw
        (
          miss b'g' (codes "b") [] s refl refl h,
          miss b'g' [] [] s refl refl h,
          miss b'm' (codes "b") [] s refl refl h,
          miss b'm' [] [] s refl refl h,
          miss b'k' (codes "b") [] s refl refl h,
          miss b'k' [] [] s refl refl h,
        )
        refl

  -- A plain number of at most 64 bits needs no floating-point number.
  pub parse_size-decimal : (n : ℕ) → n < u64_mod → parse_size sizes (decimal n) ≡ some n
  unfolding parse_size
  parse_size-decimal n h =
      let some_digits : is_empty (decimal n ++ []) ≡ false =
        not_empty (decimal n) [] (decimal-some n) in
      rw
        (
          normalized-Digits (decimal n) (decimal-Digits n),
          sym (append-nil (decimal n)),
          some_digits,
          parse_suffixes-Digits (decimal n) (decimal-Digits n),
          append-nil (decimal n),
        )
        (parse_uint-decimal u64_mod n h (omega arith))

  -- Whole numbers below 2^53 are read, multiplied and cut exactly.
  pub record IsExact : Type 0 where
    pub reads : (n : ℕ) → n < 2 ^ 53 → sizes.parse_f64 (decimal n) ≡ some (sizes.as_f64 n)
    pub multiplies :
        (a b : ℕ)
        → a * b < 2 ^ 53
        → sizes.as_u64 (sizes.times (sizes.as_f64 a) (sizes.as_f64 b)) ≡ a * b

  -- A whole number with a suffix, spelled with small letters and capitals, with underscores anywhere
  -- between them and white space around it, stands for the number times the unit of the suffix: 1024 for `k` and `kb`, its
  -- square for `m` and `mb`, its cube for `g` and `gb`, if the product and the number are below 2^53,
  -- where floating-point numbers are exact.
  pub parse_size-suffix :
      (front s back u : Text) (mul n : ℕ)
      → IsExact
      → UnitOf u mul
      → n < 2 ^ 53
      → n * mul < 2 ^ 53
      → Blank front
      → Spells s (decimal n ++ u)
      → Blank back
      → parse_size sizes (front ++ (s ++ back)) ≡ some (n * mul)
  unfolding parse_size
  parse_size-suffix front s back u mul n exact unit h k before spelled behind =
      let some_digits : is_empty (decimal n ++ u) ≡ false =
        not_empty (decimal n) u (decimal-some n) in
      rw
        (
          normalized-Spells front s back (decimal n ++ u) before spelled behind,
          some_digits,
          parse_suffixes-suffix u mul (decimal n) unit (decimal-Digits n),
          trim-Digits (decimal n) (decimal-Digits n),
          exact.reads n h,
          exact.multiplies n mul k,
        )
        refl
