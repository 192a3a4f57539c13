-- ===== src/Text.antt =====
-- The operations of Rust's `str` and of its integers that the configuration is read and written with.
-- A text is the list of its characters, each by its code point.
pub mod Trimming
pub mod Cutting
pub mod Numbers
use cupidmq.Common.{
  ltb, leb, ◌==◌, if◌then◌else◌, ltb→lt, ltb→le, lt→ltb, le→ltb, le→leb, lt→leb, ==_iff, Bool-cases,
  Option-cases, length, take, drop, get_elem?, All, length-append, take-append-drop, length-take,
  length-drop, take_all, take-append_length, drop-append_length, length-reverse, length-map,
  All-append, All-map, take-min-length, drop-min-length, take-append_le, take-take,
  drop-take-append, take-map, drop-map, u16_mod, u32_mod, u64_mod, usize_max, saturating_add,
  as_u16, as_u32, add_u32, add_u64, sub_u64, Bytes, ℕ, zero, suc, ◌+◌, ◌-◌, ◌*◌, ◌/◌, ◌%◌, ◌^◌, ◌≤◌,
  ◌<◌, min, max, ◌≡◌, refl, sym, ap, ap₂, subst, ◌∙◌, ◌≢◌, ◌↔◌, ◌⊎◌, inl, inr, Bool, true, false,
  not, ◌&&◌, ◌||◌, Option, none, some, List, [], ◌∷◌, ◌++◌, map, reverse, flatten, append-nil,
  append_assoc, map-append, reverse-append, reverse-reverse, reverse-cons, arith,
}
use Prim.Native.Char.{code}
use Prim.Native.String.{String}

abbrev pub Text : Type 0
Text = List ℕ

-- A literal.
abbrev pub codes : String → Text
codes String.[] = []
codes (String.◌∷◌ c s) = code c ∷ codes s

-- Equality of texts.
abbrev pub same : Text → Text → Bool
same [] [] = true
same [] (y ∷ ys) = false
same (x ∷ xs) [] = false
same (x ∷ xs) (y ∷ ys) = x == y && same xs ys

abbrev pub is_empty : Text → Bool
is_empty [] = true
is_empty (c ∷ s) = false

-- `char::is_whitespace`: the property White_Space of Unicode.
abbrev pub is_whitespace : ℕ → Bool
is_whitespace c =
    (leb 9 c && leb c 13)
    || c == 32
    || c == 133
    || c == 160
    || c == 5760
    || (leb 8192 c && leb c 8202)
    || c == 8232
    || c == 8233
    || c == 8239
    || c == 8287
    || c == 12288

unfoldable pub trim_start_matches : (ℕ → Bool) → Text → Text
trim_start_matches p [] = []
trim_start_matches p (c ∷ s) = if p c then trim_start_matches p s else c ∷ s

abbrev pub keep_before : (ℕ → Bool) → ℕ → Text → Text
keep_before p c [] = if p c then [] else c ∷ []
keep_before p c (d ∷ s) = c ∷ d ∷ s

unfoldable pub trim_end_matches : (ℕ → Bool) → Text → Text
trim_end_matches p [] = []
trim_end_matches p (c ∷ s) = keep_before p c (trim_end_matches p s)

unfoldable pub trim_matches : (ℕ → Bool) → Text → Text
trim_matches p s = trim_end_matches p (trim_start_matches p s)

unfoldable pub trim : Text → Text
trim s = trim_matches is_whitespace s

unfoldable pub to_ascii_lowercase : Text → Text
to_ascii_lowercase [] = []
to_ascii_lowercase (c ∷ s) = (if leb 65 c && leb c 90 then c + 32 else c) ∷ to_ascii_lowercase s

unfoldable pub contains : ℕ → Text → Bool
contains c [] = false
contains c (d ∷ s) = d == c || contains c s

unfoldable pub starts_with : ℕ → Text → Bool
starts_with c [] = false
starts_with c (d ∷ s) = d == c

-- `split(c).next()`: what stands before the first `c`, or all.
unfoldable pub before : ℕ → Text → Text
before c [] = []
before c (d ∷ s) = if d == c then [] else d ∷ before c s

abbrev pub behind : ℕ → Option (Text × Text) → Option (Text × Text)
behind d none = none
behind d (some (a, b)) = some (d ∷ a, b)

unfoldable pub split_once : ℕ → Text → Option (Text × Text)
split_once c [] = none
split_once c (d ∷ s) = if d == c then some ([], s) else behind d (split_once c s)

abbrev pub or_here : ℕ → ℕ → Text → Option (Text × Text) → Option (Text × Text)
or_here c d s none = if d == c then some ([], s) else none
or_here c d s (some (a, b)) = some (d ∷ a, b)

unfoldable pub rsplit_once : ℕ → Text → Option (Text × Text)
rsplit_once c [] = none
rsplit_once c (d ∷ s) = or_here c d s (rsplit_once c s)

abbrev pub with_front : ℕ → Option Text → Option Text
with_front c none = none
with_front c (some s) = some (c ∷ s)

unfoldable pub strip_suffix : Text → Text → Option Text
strip_suffix t [] = if same [] t then some [] else none
strip_suffix t (c ∷ s) = if same (c ∷ s) t then some [] else with_front c (strip_suffix t s)

-- `replace(c, "")`
unfoldable pub without_char : ℕ → Text → Text
without_char c [] = []
without_char c (d ∷ s) = let rest = without_char c s in if d == c then rest else d ∷ rest

abbrev pub on_first : ℕ → List Text → List Text
on_first c [] = (c ∷ []) ∷ []
on_first c (line ∷ lines) = (c ∷ line) ∷ lines

-- `split_inclusive('\n')`
unfoldable pub pieces : Text → List Text
pieces [] = []
pieces (c ∷ s) = let rest = pieces s in if c == b'\n' then (c ∷ []) ∷ rest else on_first c rest

abbrev pub or_all : Text → Option Text → Text
or_all s none = s
or_all s (some t) = t

abbrev pub without_return : Text → Option Text → Text
without_return s none = s
without_return s (some t) = or_all t (strip_suffix (b'\r' ∷ []) t)

-- `lines()`: without the `\n` or `\r\n` that ends a line.
unfoldable pub lines : Text → List Text
lines s = map (λ line. without_return line (strip_suffix (b'\n' ∷ []) line)) (pieces s)

abbrev pub is_digit : ℕ → Bool
is_digit c = leb b'0' c && leb c b'9'

-- The digits of an unsigned integer below `m`, after the number `n`.
unfoldable pub parse_digits : ℕ → ℕ → Text → Option ℕ
parse_digits m n [] = some n
parse_digits m n (c ∷ s) =
    let n' = n * 10 + (c - b'0') in
    let rest = parse_digits m n' s in if is_digit c && ltb n' m then rest else none

-- `str::parse` for an unsigned integer type with `m` values: one `+` may stand before the digits.
unfoldable pub parse_uint : ℕ → Text → Option ℕ
parse_uint m [] = none
parse_uint m (c ∷ []) = parse_digits m 0 (c ∷ [])
parse_uint m (c ∷ d ∷ s) =
    if c == b'+' then parse_digits m 0 (d ∷ s) else parse_digits m 0 (c ∷ d ∷ s)

abbrev pub digit : ℕ → ℕ
digit n = b'0' + n

-- `format!("{n}")` of a number of at most `fuel` digits.
unfoldable pub digits_of : ℕ → ℕ → Text
digits_of zero n = []
digits_of (suc fuel) n =
    let rest = digits_of fuel (n / 10) in
    if ltb n 10 then digit n ∷ [] else rest ++ (digit (n % 10) ∷ [])

-- `10 ^ k`
abbrev pub tens : ℕ → ℕ
tens zero = 1
tens (suc k) = 10 * tens k

-- A `u64` has at most 20 digits.
unfoldable pub decimal : ℕ → Text
decimal n = digits_of 20 n
