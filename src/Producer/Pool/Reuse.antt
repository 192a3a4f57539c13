-- ===== src/Producer/Pool/Reuse.antt =====
-- What the pool gives back.
use cupidmq.Common.{
  ltb, leb, if◌then◌else◌, ==_iff, Bool-cases, Bytes, ℕ, zero, suc, ◌-◌, ◌≤◌, ◌≡◌, refl, ap, ◌∙◌,
  ◌⊎◌, inl, inr, Bool, true, false, Option, none, some, List, [], ◌∷◌, arith,
}
use cupidmq.Protocol.Wire.{bytes_eq}
use cupidmq.Producer.Pool.{
  PooledConn, DeliveryPool, fresh, retain_fresh, find, without_addr, evict_stale, if_fresh,
  take_conn, put, get_or_connect, invalidate, Network, written, deliver_attempts, tcp_deliver_batch,
}

bytes_eq-same : (bs : Bytes) → bytes_eq bs bs ≡ true
bytes_eq-same [] = refl
bytes_eq-same (b ∷ bs) = rw ((==_iff b b).1 refl) (bytes_eq-same bs)

module _ {S : Type 0} where
  find-without_addr :
      (addr : Bytes) (now timeout : ℕ) (conns : List (Bytes × PooledConn S))
      → find addr (retain_fresh now timeout (without_addr addr conns)) ≡ none
  unfolding find retain_fresh without_addr
  find-without_addr addr now timeout [] = refl
  find-without_addr addr now timeout ((k, c) ∷ conns) = elim (Bool-cases (bytes_eq addr k)) [
    | inl same ↦ rw same (find-without_addr addr now timeout conns)
    | inr other ↦ rw other (elim (Bool-cases (fresh now timeout c)) [
      | inl young ↦ rw (young, other) (find-without_addr addr now timeout conns)
      | inr old ↦ rw old (find-without_addr addr now timeout conns)
    ])
  ]

  -- After a removal the pool has no connection to the address, at any time.
  take_conn-without_addr :
      (addr : Bytes) (now : ℕ) (p : DeliveryPool S)
      → (take_conn addr now (record p { conns = without_addr addr p.conns })).0 ≡ none
  unfolding take_conn evict_stale
  take_conn-without_addr addr now p =
      ap (if_fresh now p.idle_timeout) (find-without_addr addr now p.idle_timeout p.conns)

  -- A connection that is put back is given out while it is idle for less than the limit.
  take_conn-put :
      (addr : Bytes) (stream : S) (since now : ℕ) (p : DeliveryPool S)
      → (take_conn addr now (put addr stream since p)).0
        ≡ (if ltb (now - since) p.idle_timeout then some stream else none)
  unfolding take_conn put evict_stale retain_fresh find
  take_conn-put addr stream since now p = elim (Bool-cases (ltb (now - since) p.idle_timeout)) [
    | inl young ↦
        let not_old : leb p.idle_timeout (now - since) ≡ false = ground arith in
        rw (young, bytes_eq-same addr, not_old) refl
    | inr old ↦ rw old (
        ap (if_fresh now p.idle_timeout)
          (find-without_addr addr now p.idle_timeout (retain_fresh since p.idle_timeout p.conns)))
  ]

  module _ (w : Network S) (addr : Bytes) (timeout : ℕ) where
    -- The pool after a delivery: the connection that the batch was written to, or none.
    abbrev pub Left : Bool × DeliveryPool S → Type 0
    Left (true, p) =
        (attempt : ℕ) × (s : S) × (w.wrote attempt s ≡ true)
        × ((now : ℕ)
            → (take_conn addr now p).0
              ≡ (if ltb (now - w.clock_after attempt) timeout then some s else none))
    Left (false, p) = (now : ℕ) → (take_conn addr now p).0 ≡ none

    written-Left :
        (attempt : ℕ) (rest : DeliveryPool S → Bool × DeliveryPool S)
        (out : Option S × DeliveryPool S)
        → out.1.idle_timeout ≡ timeout
        → ((now : ℕ) → out.0 ≡ none → (take_conn addr now out.1).0 ≡ none)
        → ((p : DeliveryPool S)
            → p.idle_timeout ≡ timeout
            → ((now : ℕ) → (take_conn addr now p).0 ≡ none)
            → Left (rest p))
        → Left (written w addr attempt rest out)
    written-Left attempt rest (none, p) limit nothing next = λ now. nothing now refl
    written-Left attempt rest (some s, p) limit nothing next =
        elim (Bool-cases (w.wrote attempt s)) [
          | inl fine ↦ rw fine (
            attempt,
            s,
            fine,
            λ now.
                take_conn-put addr s (w.clock_after attempt) now p
                ∙ ap (λ limit. if ltb (now - w.clock_after attempt) limit then some s else none)
                    limit,
          )
          | inr broken ↦ rw broken (
              next (invalidate addr p) (unfold invalidate in limit)
                (λ now. unfold invalidate in take_conn-without_addr addr now p))
        ]

    taken_out :
        (at now : ℕ) (p : DeliveryPool S) → (take_conn addr now (take_conn addr at p).1).0 ≡ none
    unfolding take_conn
    taken_out at now p = take_conn-without_addr addr now (evict_stale at p)

    deliver_attempts-Left :
        (left attempt : ℕ) (p : DeliveryPool S)
        → p.idle_timeout ≡ timeout
        → ((now : ℕ) → (take_conn addr now p).0 ≡ none) ⊎ (1 ≤ left)
        → Left (deliver_attempts w addr left attempt p)
    unfolding deliver_attempts get_or_connect
    deliver_attempts-Left zero attempt p limit (inl bare) = bare
    deliver_attempts-Left zero attempt p limit (inr some_left) = absurd (omega arith)
    deliver_attempts-Left (suc left) attempt p limit start =
        written-Left attempt (deliver_attempts w addr left (suc attempt))
          (get_or_connect (w.dial attempt) addr (w.clock attempt) p)
          (unfold take_conn evict_stale in limit) (λ now gone. taken_out (w.clock attempt) now p)
          (λ q limit' bare. deliver_attempts-Left left (suc attempt) q limit' (inl bare))

  -- A delivery that succeeds leaves in the pool exactly the connection on which its batch was written,
  -- for as long as it is idle for less than the limit; one that fails leaves no connection to the
  -- address. So a connection on which a write failed is not used again.
  pub tcp_deliver_batch_lem :
      (w : Network S) (addr : Bytes) (p : DeliveryPool S)
      → Left w addr p.idle_timeout (tcp_deliver_batch w addr p)
  unfolding tcp_deliver_batch
  tcp_deliver_batch_lem w addr p =
      deliver_attempts-Left w addr p.idle_timeout 2 0 p refl (inr (omega arith))
