-- ===== src/Consumer/Serving.antt =====
-- master/src/consumer/client.rs: `serve_data_connection`. The BATC frames of a connection are served in
-- their order. What the other tasks do before each read is `others`, what they do during the read is
-- `meanwhile`, and `idle` says which reads run into the time limit.
use cupidmq.Common.{
  if◌then◌else◌, length, All, length-append, u16_mod, Bytes, ℕ, zero, suc, ◌≤◌, ◌<◌, ◌≡◌, refl,
  Bool, List, [], ◌∷◌, ◌++◌, arith,
}
use cupidmq.Protocol.Wire.{Result, Error, ok, err}
use cupidmq.Protocol.Batch.{
  encode_batch, encode_framed_batch, read_batch_frame, parse_batch_payload_items,
}
use cupidmq.Protocol.Batch.RoundTrip.{IsItem, FitsFrame, parse-encode, read_batch_frame-encode}
use cupidmq.Consumer.{Consumer, serve_batch}

pub record Around : Type 0 where
  pub others : ℕ → Consumer → Consumer
  pub meanwhile : ℕ → Consumer → Consumer
  pub idle : ℕ → Bool

abbrev pub with_items : (Consumer → Consumer) → Result (List Bytes) → Consumer → Consumer
with_items rest (err e) c = c
with_items rest (ok items) c = rest (serve_batch items c)

abbrev pub with_payload :
    (Bytes → Consumer → Consumer) → Result (Bytes × Bytes) → Consumer → Consumer
with_payload rest (err e) c = c
with_payload rest (ok (payload, bytes)) c =
    with_items (rest bytes) (parse_batch_payload_items payload) c

-- A read that begins when the consumer is not closed, and what follows it, if it does not run into its
-- time limit.
abbrev pub reading : Around → ℕ → (Consumer → Consumer) → Consumer → Consumer
reading a n served c =
    if (a.others n c).stop
    then a.others n c
    else (let after = a.meanwhile n (a.others n c) in if a.idle n then after else served after)

unfoldable pub serve_data_connection : ℕ → Around → ℕ → Bytes → Consumer → Consumer
serve_data_connection zero a n bytes c = c
serve_data_connection (suc fuel) a n bytes c =
    let rest = serve_data_connection fuel a (suc n) in
    reading a n (with_payload rest (read_batch_frame bytes)) c

-- Each frame that is read takes at least one byte.
unfoldable pub serve_connection : Around → Bytes → Consumer → Consumer
serve_connection a bytes c = serve_data_connection (suc (length bytes)) a 0 bytes c

-- The batches served in their order, up to the first read that does not go on.
pub serve_all : Around → ℕ → List (List Bytes) → Consumer → Consumer
serve_all a n [] c = reading a n (λ after. after) c
serve_all a n (batch ∷ batches) c =
    reading a n (λ after. serve_all a (suc n) batches (serve_batch batch after)) c

pub batch_stream : List (List Bytes) → Bytes → Bytes
batch_stream [] tail = tail
batch_stream (batch ∷ batches) tail = encode_batch batch ++ batch_stream batches tail

-- A batch that fits a frame, of items that the parser takes.
pub record IsBatch (batch : List Bytes) : Type 0 where
  pub few : length batch < u16_mod
  pub items : All IsItem batch
  pub fits : FitsFrame batch

-- One more read than the batches is enough fuel.
serve_data_connection-batch_stream :
    (fuel : ℕ) (a : Around) (n : ℕ) (batches : List (List Bytes)) (tail : Bytes) (e : Error)
    (c : Consumer)
    → All IsBatch batches
    → read_batch_frame tail ≡ err e
    → length batches < fuel
    → serve_data_connection fuel a n (batch_stream batches tail) c ≡ serve_all a n batches c
unfolding serve_data_connection serve_all batch_stream
serve_data_connection-batch_stream zero a n batches tail e c all ends h = absurd (omega arith)
serve_data_connection-batch_stream (suc fuel) a n [] tail e c all ends h = rw ends refl
serve_data_connection-batch_stream (suc fuel) a n (batch ∷ batches) tail e c (v, all) ends h =
    rw
      (
        read_batch_frame-encode batch (batch_stream batches tail) v.fits,
        parse-encode batch v.few v.items,
        serve_data_connection-batch_stream fuel a (suc n) batches tail e
            (serve_batch batch (a.meanwhile n (a.others n c))) all ends (omega (arith, h)),
      )
      refl

length-batch_stream :
    (batches : List (List Bytes)) (tail : Bytes)
    → length batches ≤ length (batch_stream batches tail)
unfolding batch_stream encode_batch encode_framed_batch
length-batch_stream [] tail = omega arith
length-batch_stream (batch ∷ batches) tail = omega (
  arith,
  length-append (encode_batch batch) (batch_stream batches tail),
  length-batch_stream batches tail,
)

-- A connection that writes with `encode_batch` batches of fewer than 65536 items, each of 1 byte to
-- 32 MiB, that fit a frame of 64 MiB, and then bytes that are no frame: the consumer serves all of them
-- in their order, whatever the other tasks do before and during each read, until it is closed before a
-- read or a read runs into its time limit.
pub serve_connection-batch_stream :
    (a : Around) (batches : List (List Bytes)) (tail : Bytes) (e : Error) (c : Consumer)
    → All IsBatch batches
    → read_batch_frame tail ≡ err e
    → serve_connection a (batch_stream batches tail) c ≡ serve_all a 0 batches c
unfolding serve_connection
serve_connection-batch_stream a batches tail e c all ends =
    serve_data_connection-batch_stream (suc (length (batch_stream batches tail))) a 0 batches tail e
      c all ends (omega (arith, length-batch_stream batches tail))

-- A single batch is served, if its read begins and ends in time.
pub serve_connection_one :
    (a : Around) (batch : List Bytes) (tail : Bytes) (e : Error) (c : Consumer)
    → IsBatch batch
    → read_batch_frame tail ≡ err e
    → serve_connection a (encode_batch batch ++ tail) c
      ≡ reading a 0 (λ after. reading a 1 (λ last. last) (serve_batch batch after)) c
unfolding batch_stream serve_all
serve_connection_one a batch tail e c fits ends =
    serve_connection-batch_stream a (batch ∷ []) tail e c (fits, tt) ends

-- A frame that is refused ends the connection with nothing served.
pub serve_connection_none :
    (a : Around) (bytes : Bytes) (e : Error) (c : Consumer)
    → read_batch_frame bytes ≡ err e
    → serve_connection a bytes c ≡ reading a 0 (λ after. after) c
unfolding serve_connection serve_data_connection
serve_connection_none a bytes e c refused = rw refused refl
