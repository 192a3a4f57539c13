-- ===== src/Text/Numbers.antt =====
-- A number that is written in decimal is read back.
use cupidmq.Common.{
  ltb, leb, ◌==◌, if◌then◌else◌, Bool-cases, length, All, length-append, All-append, u64_mod, ℕ,
  zero, suc, ◌+◌, ◌-◌, ◌*◌, ◌/◌, ◌%◌, ◌≤◌, ◌<◌, ◌≡◌, refl, sym, ap, ◌∙◌, inl, inr, Bool, true,
  false, ◌&&◌, Option, none, some, [], ◌∷◌, ◌++◌, arith,
}
use cupidmq.Text.{
  Text, keep_before, trim_start_matches, trim_end_matches, to_ascii_lowercase, contains,
  strip_suffix, without_char, is_digit, parse_digits, parse_uint, digit, digits_of, tens, decimal,
}
use cupidmq.Text.Trimming.{IsTrimmed}

abbrev pub Digits : Text → Type 0
Digits s = All (λ c. is_digit c ≡ true) s

abbrev digits_after : ℕ → Text → Option ℕ → Option ℕ
digits_after m t none = none
digits_after m t (some n) = parse_digits m n t

parse_digits-append :
    (m n : ℕ) (s t : Text) → parse_digits m n (s ++ t) ≡ digits_after m t (parse_digits m n s)
unfolding parse_digits
parse_digits-append m n [] t = refl
parse_digits-append m n (c ∷ s) t = elim (Bool-cases (is_digit c && ltb (n * 10 + (c - b'0')) m)) [
  | inl goes_on ↦ rw (goes_on, parse_digits-append m (n * 10 + (c - b'0')) s t) refl
  | inr stops ↦ rw stops refl
]

parse_last :
    (m n : ℕ) (s : Text)
    → n < m
    → parse_digits m 0 s ≡ some (n / 10)
    → parse_digits m 0 (s ++ (digit (n % 10) ∷ [])) ≡ some n
unfolding parse_digits
parse_last m n s h k =
    let reads : (is_digit (digit (n % 10)) && ltb (n / 10 * 10 + (digit (n % 10) - b'0')) m)
        ≡ true =
      ground arith in
    let all : n / 10 * 10 + (digit (n % 10) - b'0') ≡ n = omega arith in
    parse_digits-append m 0 s (digit (n % 10) ∷ []) ∙ (rw (k, reads, all) refl)

pub parse_digits-digits_of :
    (fuel m n : ℕ) → n < tens fuel → n < m → parse_digits m 0 (digits_of fuel n) ≡ some n
unfolding digits_of parse_digits
parse_digits-digits_of zero m n h k = let e : 0 ≡ n = omega arith in rw e refl
parse_digits-digits_of (suc fuel) m n h k = elim (Bool-cases (ltb n 10)) [
  | inl one ↦
      let reads : (is_digit (digit n) && ltb (0 * 10 + (digit n - b'0')) m) ≡ true = ground arith in
      let all : 0 * 10 + (digit n - b'0') ≡ n = omega arith in rw (one, reads, all) refl
  | inr more ↦ rw more (
      parse_last m n (digits_of fuel (n / 10)) k
        (parse_digits-digits_of fuel m (n / 10) (omega arith) (omega arith)))
]

pub digits_of-Digits : (fuel n : ℕ) → Digits (digits_of fuel n)
unfolding digits_of
digits_of-Digits zero n = tt
digits_of-Digits (suc fuel) n = elim (Bool-cases (ltb n 10)) [
  | inl one ↦ rw one ((ground arith), tt)
  | inr more ↦ rw more (
      All-append (λ c. is_digit c ≡ true) (digits_of fuel (n / 10)) (digit (n % 10) ∷ [])
        (digits_of-Digits fuel (n / 10)) ((ground arith), tt))
]

-- Digits are read without a sign.
parse_uint-Digits :
    (m : ℕ) (s : Text) → Digits s → 1 ≤ length s → parse_uint m s ≡ parse_digits m 0 s
unfolding parse_uint
parse_uint-Digits m [] h k = absurd (omega arith)
parse_uint-Digits m (c ∷ []) h k = refl
parse_uint-Digits m (c ∷ d ∷ s) (hc, h) k =
    let unsigned : (c == b'+') ≡ false = ground arith in rw unsigned refl

digits_of-some : (fuel n : ℕ) → 1 ≤ length (digits_of (suc fuel) n)
unfolding digits_of
digits_of-some fuel n = elim (Bool-cases (ltb n 10)) [
  | inl one ↦ rw one (omega arith)
  | inr more ↦
      rw more (omega (arith, length-append (digits_of fuel (n / 10)) (digit (n % 10) ∷ [])))
]

pub decimal-Digits : (n : ℕ) → Digits (decimal n)
unfolding decimal
decimal-Digits n = digits_of-Digits 20 n

pub decimal-some : (n : ℕ) → 1 ≤ length (decimal n)
unfolding decimal
decimal-some n = digits_of-some 19 n

parse_digits-decimal : (m n : ℕ) → n < m → m ≤ u64_mod → parse_digits m 0 (decimal n) ≡ some n
unfolding decimal
parse_digits-decimal m n h k = parse_digits-digits_of 20 m n (omega arith) h

-- An unsigned integer of at most 64 bits is read back.
pub parse_uint-decimal : (m n : ℕ) → n < m → m ≤ u64_mod → parse_uint m (decimal n) ≡ some n
parse_uint-decimal m n h k =
    parse_uint-Digits m (decimal n) (decimal-Digits n) (decimal-some n)
    ∙ parse_digits-decimal m n h k

when_true :
    (b : Bool) (rest : Option ℕ) (v : ℕ)
    → (if b then rest else none) ≡ some v
    → (b ≡ true) × (rest ≡ some v)
when_true true rest v h = (refl, h)
when_true false rest v h = absurd cc

parse_digits_bound : (m n : ℕ) (s : Text) (v : ℕ) → n < m → parse_digits m n s ≡ some v → v < m
unfolding parse_digits
parse_digits_bound m n [] v h k = let e : n ≡ v = ground arith in omega (arith, e)
parse_digits_bound m n (c ∷ s) v h k =
    let (goes_on, rest) = when_true (is_digit c && ltb (n * 10 + (c - b'0')) m) _ v k in
    parse_digits_bound m (n * 10 + (c - b'0')) s v (ground arith) rest

-- A number that is read is one of the type.
pub parse_uint_bound : (m : ℕ) (s : Text) (v : ℕ) → 1 ≤ m → parse_uint m s ≡ some v → v < m
unfolding parse_uint
parse_uint_bound m [] v h k = absurd cc
parse_uint_bound m (c ∷ []) v h k = parse_digits_bound m 0 (c ∷ []) v (omega arith) k
parse_uint_bound m (c ∷ d ∷ s) v h k = elim (Bool-cases (c == b'+')) [
  | inl signed ↦ parse_digits_bound m 0 (d ∷ s) v (omega arith) (
      ap (λ b. if b then parse_digits m 0 (d ∷ s) else parse_digits m 0 (c ∷ d ∷ s)) (sym signed)
      ∙ k)
  | inr unsigned ↦ parse_digits_bound m 0 (c ∷ d ∷ s) v (omega arith) (
      ap (λ b. if b then parse_digits m 0 (d ∷ s) else parse_digits m 0 (c ∷ d ∷ s)) (sym unsigned)
      ∙ k)
]

-- No digit is among the characters of `p`.
abbrev pub Apart : (ℕ → Bool) → Type 0
Apart p = (c : ℕ) → is_digit c ≡ true → p c ≡ false

trim_start-Digits : (p : ℕ → Bool) (s : Text) → Apart p → Digits s → trim_start_matches p s ≡ s
unfolding trim_start_matches
trim_start-Digits p [] apart h = refl
trim_start-Digits p (c ∷ s) apart (hc, h) = rw (apart c hc) refl

keep-Digits : (p : ℕ → Bool) (c : ℕ) (s : Text) → p c ≡ false → keep_before p c s ≡ c ∷ s
keep-Digits p c [] h = rw h refl
keep-Digits p c (d ∷ s) h = refl

trim_end-Digits : (p : ℕ → Bool) (s : Text) → Apart p → Digits s → trim_end_matches p s ≡ s
unfolding trim_end_matches
trim_end-Digits p [] apart h = refl
trim_end-Digits p (c ∷ s) apart (hc, h) =
    ap (keep_before p c) (trim_end-Digits p s apart h) ∙ keep-Digits p c s (apart c hc)

pub Digits-IsTrimmed : (p : ℕ → Bool) (s : Text) → Apart p → Digits s → IsTrimmed p s
Digits-IsTrimmed p s apart h = record {
  front = trim_start-Digits p s apart h;
  back = trim_end-Digits p s apart h;
}

pub contains-Digits : (c : ℕ) (s : Text) → is_digit c ≡ false → Digits s → contains c s ≡ false
unfolding contains
contains-Digits c [] other h = refl
contains-Digits c (d ∷ s) other (hd, h) =
    let apart : (d == c) ≡ false = ground arith in rw (apart, contains-Digits c s other h) refl

pub lower-Digits : (s t : Text) → Digits s → to_ascii_lowercase (s ++ t) ≡ s ++ to_ascii_lowercase t
unfolding to_ascii_lowercase
lower-Digits [] t h = refl
lower-Digits (c ∷ s) t (hc, h) =
    let same : (leb 65 c && leb c 90) ≡ false = ground arith in rw (same, lower-Digits s t h) refl

pub without-Digits : (s t : Text) → Digits s → without_char b'_' (s ++ t) ≡ s ++ without_char b'_' t
unfolding without_char
without-Digits [] t h = refl
without-Digits (c ∷ s) t (hc, h) =
    let other : (c == b'_') ≡ false = ground arith in rw (other, without-Digits s t h) refl

-- A suffix that begins with no digit is not found in the digits.
pub strip_suffix-Digits :
    (x : ℕ) (t u s : Text)
    → is_digit x ≡ false
    → Digits s
    → strip_suffix (x ∷ t) u ≡ none
    → strip_suffix (x ∷ t) (s ++ u) ≡ none
unfolding strip_suffix
strip_suffix-Digits x t u [] other h k = k
strip_suffix-Digits x t u (c ∷ s) other (hc, h) k =
    let differs : (c == x) ≡ false = ground arith in
    rw (differs, strip_suffix-Digits x t u s other h k) refl
