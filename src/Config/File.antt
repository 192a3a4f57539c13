-- ===== src/Config/File.antt =====
-- A configuration file that is written one entry a line is read back.
use cupidmq.Common.{
  ◌==◌, Option-cases, length, All, length-append, ℕ, ◌≤◌, ◌≡◌, refl, ap, subst, ◌∙◌, inl, inr,
  false, List, [], ◌∷◌, ◌++◌, arith,
}
use cupidmq.Text.{
  Text, is_empty, is_whitespace, trim_end_matches, trim_matches, trim, to_ascii_lowercase, contains,
  strip_suffix, without_return, pieces, lines,
}
use cupidmq.Text.Trimming.{IsTrimmed, trim_matches-IsTrimmed, append-IsTrimmed, ends_otherwise}
use cupidmq.Text.Cutting.{
  strip_suffix-append, strip_suffix_some, before-none, split_once-append, contains-append,
  pieces-line,
}
use cupidmq.Config.{
  Values, insert, strip_comment, strip_quotes, parse_line, parse_lines, parse_conf_text,
}

-- A key that the file can hold: lower case, with nothing to trim, and none of the characters that end
-- a key or a line.
pub record IsKey (k : Text) : Type 0 where
  pub some : 1 ≤ length k
  pub trimmed : IsTrimmed is_whitespace k
  pub lower : to_ascii_lowercase k ≡ k
  pub one_line : contains b'\n' k ≡ false
  pub no_comment : contains b'#' k ≡ false
  pub no_equals : contains b'=' k ≡ false

-- And a value, which may have a `=`.
pub record IsValue (v : Text) : Type 0 where
  pub some : 1 ≤ length v
  pub trimmed : IsTrimmed is_whitespace v
  pub double_quotes : IsTrimmed (λ c. c == b'"') v
  pub single_quotes : IsTrimmed (λ c. c == b'\'') v
  pub one_line : contains b'\n' v ≡ false
  pub no_comment : contains b'#' v ≡ false

pub record IsEntry (e : Text × Text) : Type 0 where
  pub key : IsKey e.0
  pub value : IsValue e.1

-- `key=value`, one a line.
unfoldable pub conf_text : List (Text × Text) → Text
conf_text [] = []
conf_text ((k, v) ∷ entries) = (k ++ (b'=' ∷ v)) ++ (b'\n' ∷ conf_text entries)

-- The later entry of a key counts.
unfoldable pub insert_all : List (Text × Text) → Values → Values
insert_all [] out = out
insert_all ((k, v) ∷ entries) out = insert_all entries (insert k v out)

not_empty : (s : Text) → 1 ≤ length s → is_empty s ≡ false
not_empty [] h = absurd (omega arith)
not_empty (c ∷ s) h = refl

line-IsTrimmed : (k v : Text) → IsKey k → IsValue v → IsTrimmed is_whitespace (k ++ (b'=' ∷ v))
line-IsTrimmed k v hk hv =
    append-IsTrimmed is_whitespace k (b'=' ∷ []) v hk.some hv.some hk.trimmed hv.trimmed

entry_without :
    (c : ℕ) (k v : Text)
    → (b'=' == c) ≡ false
    → contains c k ≡ false
    → contains c v ≡ false
    → contains c (k ++ (b'=' ∷ v)) ≡ false
unfolding contains
entry_without c k v other h e = contains-append c k (b'=' ∷ v) h (rw (other, e) refl)

strip_comment-entry :
    (k v : Text) → IsKey k → IsValue v → strip_comment (k ++ (b'=' ∷ v)) ≡ k ++ (b'=' ∷ v)
unfolding trim
strip_comment-entry k v hk hv =
    ap trim (before-none b'#' _ (entry_without b'#' k v refl hk.no_comment hv.no_comment))
    ∙ trim_matches-IsTrimmed is_whitespace (k ++ (b'=' ∷ v)) (line-IsTrimmed k v hk hv)

strip_quotes-value : (v : Text) → IsValue v → strip_quotes v ≡ v
unfolding trim
strip_quotes-value v h =
    ap (λ s. trim_matches (λ c. c == b'\'') (trim_matches (λ c. c == b'"') s))
      (trim_matches-IsTrimmed is_whitespace v h.trimmed)
    ∙ ap (trim_matches (λ c. c == b'\''))
        (trim_matches-IsTrimmed (λ c. c == b'"') v h.double_quotes)
    ∙ trim_matches-IsTrimmed (λ c. c == b'\'') v h.single_quotes

lower-key : (k : Text) → IsKey k → to_ascii_lowercase (trim k) ≡ k
unfolding trim
lower-key k h = ap to_ascii_lowercase (trim_matches-IsTrimmed is_whitespace k h.trimmed) ∙ h.lower

parse_line-entry :
    (k v : Text) (out : Values)
    → IsKey k
    → IsValue v
    → parse_line (k ++ (b'=' ∷ v)) out ≡ insert k v out
unfolding parse_line
parse_line-entry k v out hk hv =
    rw
      (
        strip_comment-entry k v hk hv,
        filled,
        split_once-append b'=' k v hk.no_equals,
        lower-key k hk,
        strip_quotes-value v hv,
        not_empty k hk.some,
        not_empty v hv.some,
      )
      refl
  where
    filled : is_empty (k ++ (b'=' ∷ v)) ≡ false
    filled = not_empty (k ++ (b'=' ∷ v)) (omega (arith, length-append k (b'=' ∷ v), hk.some))

-- A line that has nothing to trim has no `\r` at its end.
strip_line :
    (s : Text)
    → IsTrimmed is_whitespace s
    → without_return (s ++ (b'\n' ∷ [])) (strip_suffix (b'\n' ∷ []) (s ++ (b'\n' ∷ []))) ≡ s
strip_line s h =
    rw (strip_suffix-append (b'\n' ∷ []) s) (elim (Option-cases (strip_suffix (b'\r' ∷ []) s)) [
      | inl bare ↦ rw bare refl
      | inr (rest, found) ↦ absurd (
          ends_otherwise is_whitespace rest b'\r' refl (
            subst (λ t. trim_end_matches is_whitespace t ≡ t)
              (strip_suffix_some (b'\r' ∷ []) s rest found) h.back))
    ])

lines-entry :
    (k v : Text) (rest : Text)
    → IsKey k
    → IsValue v
    → lines ((k ++ (b'=' ∷ v)) ++ (b'\n' ∷ rest)) ≡ (k ++ (b'=' ∷ v)) ∷ lines rest
unfolding lines
lines-entry k v rest hk hv =
    let one : contains b'\n' (k ++ (b'=' ∷ v)) ≡ false =
      entry_without b'\n' k v refl hk.one_line hv.one_line in
    rw
      (
        pieces-line (k ++ (b'=' ∷ v)) rest one,
        strip_line (k ++ (b'=' ∷ v)) (line-IsTrimmed k v hk hv),
      )
      refl

lines-nil : lines [] ≡ []
unfolding lines pieces
lines-nil = refl

parse_lines-conf_text :
    (entries : List (Text × Text)) (out : Values)
    → All IsEntry entries
    → parse_lines (lines (conf_text entries)) out ≡ insert_all entries out
unfolding conf_text insert_all parse_lines
parse_lines-conf_text [] out h = ap (λ ls. parse_lines ls out) lines-nil
parse_lines-conf_text ((k, v) ∷ entries) out (e, h) =
    ap (λ ls. parse_lines ls out) (lines-entry k v (conf_text entries) e.key e.value)
    ∙ ap (parse_lines (lines (conf_text entries))) (parse_line-entry k v out e.key e.value)
    ∙ parse_lines-conf_text entries (insert k v out) h

-- A configuration file with one `key=value` a line, of which every key is in lower case and has no
-- `=`, and neither part is empty, has a `#` or a line feed, or begins or ends with white space, the
-- value not with a quote either, is read as exactly its entries, the later one of a key in place of
-- the earlier.
pub parse_conf_text-conf_text :
    (entries : List (Text × Text))
    → All IsEntry entries
    → parse_conf_text (conf_text entries) ≡ insert_all entries []
unfolding parse_conf_text
parse_conf_text-conf_text entries h = parse_lines-conf_text entries [] h
