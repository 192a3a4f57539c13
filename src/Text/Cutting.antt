-- ===== src/Text/Cutting.antt =====
-- A text that was put together from parts is cut at the same places.
use cupidmq.Common.{
  ◌==◌, if◌then◌else◌, Bool-cases, length, length-append, ℕ, ◌≡◌, refl, sym, ap, ap₂, ◌∙◌, ◌⊎◌, inl,
  inr, Bool, true, false, ◌&&◌, ◌||◌, Option, none, some, [], ◌∷◌, ◌++◌, arith,
}
use cupidmq.Text.{
  Text, same, contains, before, split_once, rsplit_once, with_front, strip_suffix, pieces,
}

pub same_refl : (s : Text) → same s s ≡ true
same_refl [] = refl
same_refl (c ∷ s) = let e : (c == c) ≡ true = ground arith in rw (e, same_refl s) refl

pub same_eq : (s t : Text) → same s t ≡ true → s ≡ t
same_eq [] [] h = refl
same_eq [] (d ∷ t) h = absurd cc
same_eq (c ∷ s) [] h = absurd cc
same_eq (c ∷ s) (d ∷ t) h =
    let (first, rest) = both (c == d) (same s t) h in
    let one : c ≡ d = ground arith in ap₂ (λ x xs. x ∷ xs) one (same_eq s t rest)
  where
    both : (a b : Bool) → (a && b) ≡ true → (a ≡ true) × (b ≡ true)
    both true true k = (refl, refl)
    both true false k = absurd cc
    both false b k = absurd cc

pub other_length : (s t : Text) → ¬ (length s ≡ length t) → same s t ≡ false
other_length s t h = elim (Bool-cases (same s t)) [
  | inl e ↦ absurd (h (ap length (same_eq s t e)))
  | inr e ↦ e
]

strip_suffix-nil : (t : Text) → strip_suffix t t ≡ some []
unfolding strip_suffix
strip_suffix-nil [] = refl
strip_suffix-nil (c ∷ s) = rw (same_refl (c ∷ s)) refl

pub strip_suffix-append : (t s : Text) → strip_suffix t (s ++ t) ≡ some s
unfolding strip_suffix
strip_suffix-append t [] = strip_suffix-nil t
strip_suffix-append t (c ∷ s) =
    let longer : same (c ∷ (s ++ t)) t ≡ false =
      other_length (c ∷ (s ++ t)) t (λ e. omega (arith, length-append s t, e)) in
    rw (longer, strip_suffix-append t s) refl

ends_here :
    (t s rest : Text) (b : Bool) (more : Option Text)
    → same s t ≡ b
    → (more ≡ none) ⊎ ((r : Text) × (more ≡ some r) × (s ≡ r ++ t))
    → (if b then some [] else more) ≡ some rest
    → s ≡ rest ++ t
ends_here t s rest true more e h k = same_eq s t e ∙ ap (λ r. r ++ t) (some_eq k)
  where
    some_eq : some [] ≡ some rest → [] ≡ rest
    some_eq w = cc
ends_here t s rest false more e (inl h) k = absurd cc
ends_here t s rest false more e (inr (r, h, all)) k = all ∙ ap (λ r. r ++ t) (some_eq (sym h ∙ k))
  where
    some_eq : some r ≡ some rest → r ≡ rest
    some_eq w = cc

fronted :
    (t : Text) (c : ℕ) (s : Text) (o : Option Text)
    → ((rest : Text) → o ≡ some rest → s ≡ rest ++ t)
    → (with_front c o ≡ none) ⊎ ((r : Text) × (with_front c o ≡ some r) × (c ∷ s ≡ r ++ t))
fronted t c s none k = inl refl
fronted t c s (some r) k = inr (c ∷ r, refl, ap (λ xs. c ∷ xs) (k r refl))

-- What remains, and the suffix, are the text.
pub strip_suffix_some : (t s rest : Text) → strip_suffix t s ≡ some rest → s ≡ rest ++ t
unfolding strip_suffix
strip_suffix_some t [] rest h = ends_here t [] rest (same [] t) none refl (inl refl) h
strip_suffix_some t (c ∷ s) rest h =
    ends_here t (c ∷ s) rest (same (c ∷ s) t) (with_front c (strip_suffix t s)) refl
      (fronted t c s (strip_suffix t s) (strip_suffix_some t s)) h

both_not : (a b : Bool) → (a || b) ≡ false → (a ≡ false) × (b ≡ false)
both_not true b h = absurd cc
both_not false b h = (refl, h)

pub before-none : (c : ℕ) (s : Text) → contains c s ≡ false → before c s ≡ s
unfolding before contains
before-none c [] h = refl
before-none c (d ∷ s) h =
    let (other, rest) = both_not (d == c) (contains c s) h in rw (other, before-none c s rest) refl

pub split_once-append :
    (c : ℕ) (s t : Text) → contains c s ≡ false → split_once c (s ++ (c ∷ t)) ≡ some (s, t)
unfolding split_once contains
split_once-append c [] t h = let e : (c == c) ≡ true = ground arith in rw e refl
split_once-append c (d ∷ s) t h =
    let (other, rest) = both_not (d == c) (contains c s) h in
    rw (other, split_once-append c s t rest) refl

rsplit_once-none : (c : ℕ) (s : Text) → contains c s ≡ false → rsplit_once c s ≡ none
unfolding rsplit_once contains
rsplit_once-none c [] h = refl
rsplit_once-none c (d ∷ s) h =
    let (other, rest) = both_not (d == c) (contains c s) h in
    rw (rsplit_once-none c s rest, other) refl

pub rsplit_once-append :
    (c : ℕ) (s t : Text) → contains c t ≡ false → rsplit_once c (s ++ (c ∷ t)) ≡ some (s, t)
unfolding rsplit_once
rsplit_once-append c [] t h =
    let e : (c == c) ≡ true = ground arith in rw (rsplit_once-none c t h, e) refl
rsplit_once-append c (d ∷ s) t h = rw (rsplit_once-append c s t h) refl

pub contains-append :
    (c : ℕ) (s t : Text) → contains c s ≡ false → contains c t ≡ false → contains c (s ++ t) ≡ false
unfolding contains
contains-append c [] t h k = k
contains-append c (d ∷ s) t h k =
    let (other, rest) = both_not (d == c) (contains c s) h in
    rw (other, contains-append c s t rest k) refl

-- A line feed ends the first piece.
pub pieces-line :
    (s t : Text)
    → contains b'\n' s ≡ false
    → pieces (s ++ (b'\n' ∷ t)) ≡ (s ++ (b'\n' ∷ [])) ∷ pieces t
unfolding pieces contains
pieces-line [] t h = refl
pieces-line (c ∷ s) t h =
    let (other, rest) = both_not (c == b'\n') (contains b'\n' s) h in
    rw (other, pieces-line s t rest) refl
