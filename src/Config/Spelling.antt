-- ===== src/Config/Spelling.antt =====
-- master/src/config.rs: how a size may be spelled in a configuration, and what `parse_size` makes of
-- the spelling before it reads a number.
use cupidmq.Common.{
  leb, ◌==◌, All, ℕ, ◌+◌, ◌≡◌, refl, ap, ◌∙◌, true, false, ◌&&◌, ◌||◌, [], ◌∷◌, ◌++◌, arith,
}
use cupidmq.Text.{
  Text, is_whitespace, keep_before, trim_start_matches, trim_end_matches, trim_matches, trim,
  to_ascii_lowercase, without_char,
}
use cupidmq.Config.{normalized}

-- A text of digits and small letters, and a spelling of it: some letters may be capitals, and there may
-- be underscores anywhere.
pub data Spells : Text → Text → Type 0 where
  over : Spells [] []
  as_is :
      {s t : Text}
      → (c : ℕ) → ((leb 48 c && leb c 57) || (leb 97 c && leb c 122)) ≡ true
      → Spells s t
      → Spells (c ∷ s) (c ∷ t)
  capital :
      {s t : Text}
      → (c : ℕ) → (leb 65 c && leb c 90) ≡ true
      → Spells s t
      → Spells (c ∷ s) ((c + 32) ∷ t)
  underscore : {s t : Text} → Spells s t → Spells (b'_' ∷ s) t

abbrev pub Blank : Text → Type 0
Blank s = All (λ c. is_whitespace c ≡ true) s

abbrev Inked : Text → Type 0
Inked s = All (λ c. is_whitespace c ≡ false) s

Spells-Inked : (s t : Text) → Spells s t → Inked s
Spells-Inked _ _ over = tt
Spells-Inked _ _ (as_is {s} {t} c plain rest) = (ground arith, Spells-Inked s t rest)
Spells-Inked _ _ (capital {s} {t} c large rest) = (ground arith, Spells-Inked s t rest)
Spells-Inked _ _ (underscore {s} {t} rest) = (refl, Spells-Inked s t rest)

Spells-lower : (s t : Text) → Spells s t → without_char b'_' (to_ascii_lowercase s) ≡ t
unfolding to_ascii_lowercase without_char
Spells-lower _ _ over = refl
Spells-lower _ _ (as_is {s} {t} c plain rest) =
    let small : (leb 65 c && leb c 90) ≡ false = ground arith in
    let kept : (c == b'_') ≡ false = ground arith in rw (small, kept, Spells-lower s t rest) refl
Spells-lower _ _ (capital {s} {t} c large rest) =
    let kept : (c + 32 == b'_') ≡ false = ground arith in
    rw (large, kept, Spells-lower s t rest) refl
Spells-lower _ _ (underscore {s} {t} rest) = Spells-lower s t rest

trim_start-Blank :
    (s t : Text)
    → Blank s
    → trim_start_matches is_whitespace (s ++ t) ≡ trim_start_matches is_whitespace t
unfolding trim_start_matches
trim_start-Blank [] t h = refl
trim_start-Blank (c ∷ s) t (first, h) = rw first (trim_start-Blank s t h)

trim_end-Blank : (s : Text) → Blank s → trim_end_matches is_whitespace s ≡ []
unfolding trim_end_matches
trim_end-Blank [] h = refl
trim_end-Blank (c ∷ s) (first, h) = rw (trim_end-Blank s h, first) refl

keep_inked : (c : ℕ) (s : Text) → is_whitespace c ≡ false → keep_before is_whitespace c s ≡ c ∷ s
keep_inked c [] h = rw h refl
keep_inked c (d ∷ s) h = refl

trim_end-Inked : (s t : Text) → Inked s → Blank t → trim_end_matches is_whitespace (s ++ t) ≡ s
unfolding trim_end_matches
trim_end-Inked [] t h blank = trim_end-Blank t blank
trim_end-Inked (c ∷ s) t (first, h) blank =
    ap (keep_before is_whitespace c) (trim_end-Inked s t h blank) ∙ keep_inked c s first

trim-Inked :
    (front s back : Text) → Blank front → Inked s → Blank back → trim (front ++ (s ++ back)) ≡ s
unfolding trim trim_matches trim_start_matches
trim-Inked front [] back before h behind =
    ap (trim_end_matches is_whitespace) (trim_start-Blank front back before ∙ bare back behind)
    ∙ trim_end-Blank [] tt
  where
    bare : (s : Text) → Blank s → trim_start_matches is_whitespace s ≡ []
    bare [] k = refl
    bare (c ∷ s) (first, k) = rw first (bare s k)
trim-Inked front (c ∷ s) back before (first, h) behind =
    ap (trim_end_matches is_whitespace)
      (trim_start-Blank front (c ∷ (s ++ back)) before ∙ (rw first refl))
    ∙ trim_end-Inked (c ∷ s) back (first, h) behind

-- White space around a spelling, capitals and underscores do not count.
pub normalized-Spells :
    (front s back t : Text)
    → Blank front
    → Spells s t
    → Blank back
    → normalized (front ++ (s ++ back)) ≡ t
normalized-Spells front s back t before spelled behind =
    ap (λ body. without_char b'_' (to_ascii_lowercase body))
      (trim-Inked front s back before (Spells-Inked s t spelled) behind)
    ∙ Spells-lower s t spelled
