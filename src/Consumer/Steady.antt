-- ===== src/Consumer/Steady.antt =====
-- What every move of the consumer keeps: a batch is accepted only while one is asked for, and the right
-- to ask is neither lost nor doubled.
use cupidmq.Common.{
  if◌then◌else◌, length, length-append, Bytes, ℕ, ◌+◌, ◌≤◌, ◌≡◌, refl, sym, ap, ◌∙◌, Bool, true,
  false, not, ◌||◌, none, List, [], ◌∷◌, ◌++◌, arith,
}
use cupidmq.Protocol.Wire.{Result, ok, err}
use cupidmq.Protocol.Control.{encode_consumer_ready, encode_register}
use cupidmq.Consumer.{
  ConsumerConfig, Control, connecting, idle, waiting, leaving, sending, Consumer, store_batch,
  serve_batch, drop_one, fail_session, finish, connect_failed, with_register, register,
  reconnect_one, with_ready, request, wait_empty, items_of, hand_over, take_batch, send, pulled,
  pull_batch,
}
use cupidmq.Consumer.Moves.{is_waiting, asking, at_rest, bit}

-- The batches that are asked for, under way to the handler, or with it.
abbrev pub tokens : Consumer → ℕ
tokens c = bit c.prefetch + (asking c.control + (length c.out + bit c.handling))

pub record IsConsumer (n m : ℕ) (c : Consumer) : Type 0 where
  pub accepts : c.accept_batch ≡ is_waiting c.control
  pub asks : m ≡ 0 → at_rest c.control ≡ true → c.out ≡ [] → c.handling ≡ false → c.prefetch ≡ true
  pub few : tokens c ≤ 1 + n

module _ (cfg : ConsumerConfig) (n m : ℕ) where
  pub either_way :
      (b : Bool) (c d : Consumer)
      → IsConsumer n m c
      → IsConsumer n m d
      → IsConsumer n m (if b then c else d)
  either_way true c d v w = v
  either_way false c d v w = w

  pub serve-IsConsumer :
      (items : List Bytes) (c : Consumer) → IsConsumer n m c → IsConsumer n m (serve_batch items c)
  unfolding serve_batch store_batch
  serve-IsConsumer items c v =
      either_way (not c.accept_batch) _ _
        (record { accepts = v.accepts; asks = v.asks; few = v.few })
        (record { accepts = v.accepts; asks = v.asks; few = v.few })

  -- A task of the control plane that stops asking, and does not accept any more.
  pub settled_down :
      (c d : Consumer)
      → d.accept_batch ≡ false
      → is_waiting d.control ≡ false
      → at_rest d.control ≡ false
      → asking d.control ≡ 0
      → bit d.prefetch ≤ bit c.prefetch
      → d.out ≡ c.out
      → d.handling ≡ c.handling
      → IsConsumer n m c
      → IsConsumer n m d
  settled_down c d shut not_waiting busy silent kept same same' v = record {
    accepts = shut ∙ sym not_waiting;
    asks = λ none_failed rest out free. absurd (clash rest busy);
    few = omega (arith, silent, kept, ap length same, ap bit same', v.few);
  }
    where
      clash : {b : Bool} → b ≡ true → ¬ (b ≡ false)
      clash h k = cc

  -- A task of the control plane that may ask again, with `prefetch` raised, or as before.
  pub at_rest_again :
      (c d : Consumer)
      → d.accept_batch ≡ false
      → is_waiting d.control ≡ false
      → asking d.control ≡ 0
      → (d.prefetch ≡ true) × (1 ≤ bit c.prefetch + asking c.control)
      → d.out ≡ c.out
      → d.handling ≡ c.handling
      → IsConsumer n m c
      → IsConsumer n m d
  at_rest_again c d shut not_waiting silent (raised, token) same same' v = record {
    accepts = shut ∙ sym not_waiting;
    asks = λ none_failed rest out free. raised;
    few = omega (arith, silent, token, ap bit raised, ap length same, ap bit same', v.few);
  }

  pub still_connecting :
      (c d : Consumer)
      → c.control ≡ connecting
      → at_rest d.control ≡ true
      → is_waiting d.control ≡ false
      → asking d.control ≡ 0
      → d.accept_batch ≡ c.accept_batch
      → d.prefetch ≡ c.prefetch
      → d.out ≡ c.out
      → d.handling ≡ c.handling
      → IsConsumer n m c
      → IsConsumer n m d
  still_connecting c d h rest not_waiting silent accept kept same same' v = record {
    accepts = accept ∙ v.accepts ∙ ap is_waiting h ∙ sym not_waiting;
    asks = λ none_failed k out free.
        kept ∙ v.asks none_failed (ap at_rest h) (sym same ∙ out) (sym same' ∙ free);
    few = omega (arith, silent, ap asking h, ap bit kept, ap length same, ap bit same', v.few);
  }

  pub shut_in :
      (c : Consumer) (k : Control)
      → c.control ≡ k
      → is_waiting k ≡ false
      → IsConsumer n m c
      → c.accept_batch ≡ false
  shut_in c k h not_waiting v = v.accepts ∙ ap is_waiting h ∙ not_waiting

  pub connect_failed-IsConsumer :
      (c : Consumer)
      → c.control ≡ connecting
      → IsConsumer n m c
      → IsConsumer n m (connect_failed cfg c)
  unfolding connect_failed
  connect_failed-IsConsumer c h v =
      either_way (not cfg.reconnect || c.stop) _ _
        (settled_down c (finish (drop_one c)) (shut_in c connecting h refl v) refl refl refl
          (omega arith) refl refl v)
        (still_connecting c (drop_one c) h (ap at_rest h) (ap is_waiting h) (ap asking h) refl refl
          refl refl v)

  pub register-IsConsumer :
      (written : Bool) (c : Consumer)
      → c.control ≡ connecting
      → IsConsumer n m c
      → IsConsumer n m (register cfg written c)
  unfolding register connect_failed
  register-IsConsumer written c h v = go written (encode_register cfg.data_addr)
    where
      go : (b : Bool) (r : Result Bytes) → IsConsumer n m (with_register cfg b r c)
      go b (err e) = connect_failed-IsConsumer c h v
      go true (ok frame) =
          still_connecting c (record c { control = idle }) h refl refl refl refl refl refl refl v
      go false (ok frame) =
          either_way (not cfg.reconnect || c.stop) _ _
            (settled_down c (finish (drop_one c)) (shut_in c connecting h refl v) refl refl refl
              (omega arith) refl refl v)
            (still_connecting c (reconnect_one (drop_one c)) h (ap at_rest h) (ap is_waiting h)
              (ap asking h) refl refl refl refl v)

  pub request-IsConsumer :
      (written : Bool) (c : Consumer)
      → c.control ≡ idle
      → c.prefetch ≡ true
      → IsConsumer n m c
      → IsConsumer n m (request cfg written c)
  unfolding request
  request-IsConsumer written c h raised v =
      either_way (c.stop) _ _
        (settled_down c (record c { prefetch = false; control = leaving }) (shut_in c idle h refl v)
          refl refl refl (omega arith) refl refl v)
        (go written (encode_consumer_ready cfg.max_batch_size_count cfg.consumer_tag))
    where
      cleared : Consumer
      cleared = record c { prefetch = false; batch_ready = false; pending = none }

      go : (b : Bool) (r : Result Bytes) → IsConsumer n m (with_ready b r cleared)
      go b (err e) =
          settled_down c (fail_session cleared) (shut_in c idle h refl v) refl refl refl
            (omega arith) refl refl v
      go false (ok frame) =
          settled_down c (fail_session cleared) (shut_in c idle h refl v) refl refl refl
            (omega arith) refl refl v
      go true (ok frame) = record {
        accepts = refl;
        asks = λ none_failed k out free. absurd (cc);
        few = omega (arith, ap bit raised, ap asking h, v.few);
      }

  pub take_batch-IsConsumer :
      (c : Consumer) → c.control ≡ waiting → IsConsumer n m c → IsConsumer n m (take_batch c)
  unfolding take_batch
  take_batch-IsConsumer c h v = go (items_of c.pending)
    where
      emptied : Consumer
      emptied = record c {
        accept_batch = false;
        stats = record c.stats { stale_batches = c.stale_batches };
        pending = none;
      }

      go : (items : List Bytes) → IsConsumer n m (hand_over items emptied)
      go [] =
          at_rest_again c (wait_empty emptied) refl refl refl (refl, omega (arith, ap asking h))
            refl refl v
      go (item ∷ items) = record {
        accepts = refl;
        asks = λ none_failed k out free. absurd (cc);
        few = omega (arith, ap asking h, v.few);
      }

  pub send-IsConsumer :
      (batch : List Bytes) (c : Consumer)
      → c.control ≡ sending batch
      → IsConsumer n m c
      → IsConsumer n m (send batch c)
  unfolding send
  send-IsConsumer batch c h v = record {
    accepts = shut_in c (sending batch) h refl v;
    asks = λ none_failed k out free. absurd (not_empty c.out out);
    few = omega (arith, length-append c.out (batch ∷ []), ap asking h, v.few);
  }
    where
      not_empty : (out : List (List Bytes)) → ¬ (out ++ (batch ∷ []) ≡ [])
      not_empty [] k = cc
      not_empty (b ∷ out) k = cc

  pub pull-IsConsumer :
      (c : Consumer) → c.handling ≡ false → IsConsumer n m c → IsConsumer n m (pull_batch c).1
  unfolding pull_batch
  pull-IsConsumer c free v = go c.out refl
    where
      go : (out : List (List Bytes)) → c.out ≡ out → IsConsumer n m (pulled out c).1
      go [] e = v
      go (batch ∷ rest) e = record {
        accepts = v.accepts;
        asks = λ none_failed k out busy. absurd (cc);
        few = omega (arith, ap length e, ap bit free, v.few);
      }
