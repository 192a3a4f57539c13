-- ===== src/Protocol/Wire.antt =====
-- master/src/protocol.rs: what every frame is made of: little-endian integers, the reads that a
-- connection answers, and the errors of `bail!`.
use cupidmq.Common.{
  ltb, ◌==◌, if◌then◌else◌, lt→ltb, le→ltb, length, take, drop, length-append, take-append_length,
  drop-append_length, u16_mod, u32_mod, u64_mod, Bytes, ℕ, zero, suc, ◌+◌, ◌*◌, ◌/◌, ◌%◌, ◌<◌, ◌≡◌,
  refl, ap, Bool, true, false, ◌&&◌, [], ◌∷◌, ◌++◌, arith,
}

-- `x.to_le_bytes()` at a width in bytes.
abbrev pub to_le_bytes : ℕ → ℕ → Bytes
to_le_bytes zero x = []
to_le_bytes (suc w) x = (x % 256) ∷ to_le_bytes w (x / 256)

abbrev pub from_le_bytes : Bytes → ℕ
from_le_bytes [] = 0
from_le_bytes (b ∷ bs) = b + 256 * from_le_bytes bs

-- `bytes[from..from + n]`
abbrev pub slice : ℕ → ℕ → Bytes → Bytes
slice from n bytes = take n (drop from bytes)

abbrev pub bytes_eq : Bytes → Bytes → Bool
bytes_eq [] [] = true
bytes_eq [] (b ∷ bs) = false
bytes_eq (a ∷ xs) [] = false
bytes_eq (a ∷ xs) (b ∷ bs) = (a == b) && bytes_eq xs bs

-- One constructor for each `bail!` and for the end of a connection.
pub data Error : Type 0 where
  end_of_stream write_failed unexpected_magic unknown_ingress_magic : Error
  header_too_short frame_too_short field_too_long tag_too_long : Error
  payload_too_large payload_too_short invalid_payload_len : Error
  truncated_item_len truncated_item_body invalid_item_len : Error
  count_mismatch not_single_item no_items too_many_items : Error
  invalid_data_addr_len invalid_assign_field_len empty_data_addr : Error

pub data Result {ℓ} (A : Type ℓ) : Type ℓ where
  ok : A → Result A
  err : Error → Result A

-- The bytes that a connection still holds are the state of a read; a failed read drops it.
abbrev pub Reader {ℓ} : Type ℓ → Type ℓ
Reader A = Bytes → Result (A × Bytes)

infixl 5 ◌>>=◌ ◌>>◌
abbrev pub ◌>>=◌ {ℓ κ} : {A : Type ℓ} {B : Type κ} → Reader A → (A → Reader B) → Reader B
◌>>=◌ m f s = elim (m s) [ ok (a, s') ↦ f a s' | err e ↦ err e ]

abbrev pub ◌>>◌ {ℓ} : {B : Type ℓ} → Reader (Unit {0}) → Reader B → Reader B
m >> k = m >>= λ _. k

abbrev pub return {ℓ} : {A : Type ℓ} → A → Reader A
return a s = ok (a, s)

abbrev pub fail {ℓ} : {A : Type ℓ} → Error → Reader A
fail e s = err e

abbrev pub ensure : Bool → Error → Reader (Unit {0})
ensure true e s = ok (tt, s)
ensure false e s = err e

abbrev pub lift {ℓ} : {A : Type ℓ} → Result A → Reader A
lift (ok a) s = ok (a, s)
lift (err e) s = err e

unfoldable pub read_exact_async : ℕ → Reader Bytes
read_exact_async n s = if ltb (length s) n then err end_of_stream else ok (take n s, drop n s)

-- A read answers the first bytes and leaves the rest.
pub read_exact_lem :
    (n : ℕ) (xs ys : Bytes) → n ≡ length xs → read_exact_async n (xs ++ ys) ≡ ok (xs, ys)
unfolding read_exact_async
read_exact_lem n xs ys h = rw (
  le→ltb (length (xs ++ ys)) n (omega (arith, length-append xs ys)),
  take-append_length n xs ys h,
  drop-append_length n xs ys h,
)

pub read_exact_short : (n : ℕ) (s : Bytes) → length s < n → read_exact_async n s ≡ err end_of_stream
unfolding read_exact_async
read_exact_short n s h = rw (lt→ltb (length s) n h)

pub u16_round : (x : ℕ) → x < u16_mod → from_le_bytes (to_le_bytes 2 x) ≡ x
u16_round x h = omega arith

pub u32_round : (x : ℕ) → x < u32_mod → from_le_bytes (to_le_bytes 4 x) ≡ x
u32_round x h = omega arith

pub u64_round : (x : ℕ) → x < u64_mod → from_le_bytes (to_le_bytes 8 x) ≡ x
u64_round x h = omega arith

pub length-to_le_bytes : (w x : ℕ) → length (to_le_bytes w x) ≡ w
length-to_le_bytes zero x = refl
length-to_le_bytes (suc w) x = ap suc (length-to_le_bytes w (x / 256))

pub slice_middle :
    (from n : ℕ) (pre mid post : Bytes)
    → from ≡ length pre
    → n ≡ length mid
    → slice from n (pre ++ (mid ++ post)) ≡ mid
slice_middle from n pre mid post h k =
    rw (drop-append_length from pre (mid ++ post) h) (take-append_length n mid post k)

-- To follow a read whose first step is known.
module _ {ℓ} {B : Type ℓ} where
  pub follow {κ} :
      {A : Type κ} (m : Reader A) (f : A → Reader B) (s : Bytes) {a : A} {s' : Bytes}
      {r : Result (B × Bytes)}
      → m s ≡ ok (a, s')
      → f a s' ≡ r
      → (m >>= f) s ≡ r
  follow m f s e k = rw (e, ◌>>=◌) k

  pub passes :
      (b : Bool) (e : Error) (k : Reader B) (s : Bytes) {r : Result (B × Bytes)}
      → b ≡ true
      → k s ≡ r
      → (ensure b e >> k) s ≡ r
  passes b e k s h t = rw h t

  pub stops {κ} :
      {A : Type κ} (m : Reader A) (f : A → Reader B) (s : Bytes) {e : Error}
      → m s ≡ err e
      → (m >>= f) s ≡ err e
  stops m f s h = rw (h, ◌>>=◌)

  pub refuses :
      (b : Bool) (e : Error) (k : Reader B) (s : Bytes) → b ≡ false → (ensure b e >> k) s ≡ err e
  refuses b e k s h = rw h
