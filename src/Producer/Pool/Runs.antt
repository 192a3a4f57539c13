-- ===== src/Producer/Pool/Runs.antt =====
-- Concrete runs of the pool of connections. Numbers stand for the connections.
use cupidmq.Common.{◌==◌, if◌then◌else◌, Bytes, ℕ, ◌+◌, ◌≡◌, refl, true, some, [], ◌∷◌}
use cupidmq.Producer.Pool.{
  DeliveryPool, connected, refused, take_conn, put, connect_fresh, Network, tcp_deliver_batch,
  evict_stale, retain_fresh, find, without_addr, invalidate, get_or_connect, deliver_attempts,
  attempts,
}
use cupidmq.Producer.Pool.Reuse.{Left, tcp_deliver_batch_lem}

abbrev home : Bytes
home = b'h' ∷ []

abbrev one_idle : DeliveryPool ℕ
one_idle = record {
  conns = (home, record { stream = 7; idle_since = 100 }) ∷ [];
  idle_timeout = 60;
}

-- The connection 7 has been closed by the consumer; the second attempt connects anew, at its third try.
abbrev network : Network ℕ
network = record {
  dial = λ attempt n. if n == 2 then connected 8 else refused true;
  wrote = λ attempt s. s == 8;
  clock = λ attempt. 120 + attempt;
  clock_after = λ attempt. 125 + attempt;
}

delivered_anew : (tcp_deliver_batch network home one_idle).0 ≡ true
unfolding tcp_deliver_batch deliver_attempts get_or_connect take_conn evict_stale retain_fresh find
    without_addr invalidate connect_fresh attempts put
delivered_anew = refl

slept : connect_fresh (network.dial 1) ≡ (some 8, 15)
unfolding connect_fresh attempts
slept = refl

tcp_deliver_batch_example : Left network home 60 (tcp_deliver_batch network home one_idle)
tcp_deliver_batch_example = tcp_deliver_batch_lem network home one_idle
