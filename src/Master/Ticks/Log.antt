-- ===== src/Master/Ticks/Log.antt =====
-- The buffer against its specification: the log of all ticks since the last drain, of which a drain
-- returns the last `cap`.
use cupidmq.Common.{
  leb, if◌then◌else◌, Bool-cases, length, drop, length-append, length-drop, ℕ, zero, suc, ◌-◌, ◌≤◌,
  ◌<◌, min, max, ◌≡◌, refl, sym, ap, ap₂, ◌∙◌, inl, inr, List, [], ◌∷◌, ◌++◌, arith,
}
use cupidmq.Master.Ticks.{tick_buffer_cap, TransferTick, TickBuffer, new, push, drain}

-- The last `n` items of a list.
abbrev pub last {ℓ} : {A : Type ℓ} → ℕ → List A → List A
last n xs = drop (length xs - n) xs

-- What a client does to the buffer.
pub data Call : Type 0 where
  pushes : TransferTick → Call
  drains : Call

-- The answers of the drains, from the buffer.
unfoldable pub run : List Call → TickBuffer → List (List TransferTick)
run [] b = []
run (pushes tick ∷ calls) b = run calls (push tick b)
run (drains ∷ calls) b = let (ticks, b') = drain b in ticks ∷ run calls b'

-- And from a log that forgets nothing.
unfoldable pub run_log : List Call → ℕ → List TransferTick → List (List TransferTick)
run_log [] cap log = []
run_log (pushes tick ∷ calls) cap log = run_log calls cap (log ++ (tick ∷ []))
run_log (drains ∷ calls) cap log = last cap log ∷ run_log calls cap []

module _ {ℓ} {A : Type ℓ} where
  drop-append_le : (n : ℕ) (xs ys : List A) → n ≤ length xs → drop n (xs ++ ys) ≡ drop n xs ++ ys
  drop-append_le zero xs ys h = refl
  drop-append_le (suc n) [] ys h = absurd (omega arith)
  drop-append_le (suc n) (x ∷ xs) ys h = drop-append_le n xs ys (omega arith)

  drop_one-drop : (n : ℕ) (xs : List A) → drop 1 (drop n xs) ≡ drop (suc n) xs
  drop_one-drop zero xs = refl
  drop_one-drop (suc n) [] = refl
  drop_one-drop (suc n) (x ∷ xs) = drop_one-drop n xs

  drop-nil : (n : ℕ) → ◌≡◌ {A = List A} (drop n []) []
  drop-nil zero = refl
  drop-nil (suc n) = refl

  pub last-nil : (n : ℕ) → ◌≡◌ {A = List A} (last n []) []
  last-nil n = drop-nil (0 - n)

  -- One more item: the oldest of the last `n` goes if there were `n`.
  pub last-snoc :
      (n : ℕ) (xs : List A) (x : A)
      → 1 ≤ n
      → last n (xs ++ (x ∷ []))
        ≡ (if leb n (length (last n xs)) then drop 1 (last n xs) else last n xs) ++ (x ∷ [])
  last-snoc n xs x h = elim (Bool-cases (leb n (length (last n xs)))) [
    | inl full ↦
        let more : n ≤ length xs = ground (arith, length-drop (length xs - n) xs) in
        rw (full, drop_one-drop (length xs - n) xs)
          (ap (λ k. drop k (xs ++ (x ∷ []))) (count (suc (length xs - n)) (omega arith))
            ∙ drop-append_le (suc (length xs - n)) xs (x ∷ []) (omega arith))
    | inr room ↦
        let fewer : length xs < n = ground (arith, length-drop (length xs - n) xs) in
        rw room (
          ap (λ k. drop k (xs ++ (x ∷ []))) (count (length xs - n) (omega arith))
          ∙ drop-append_le (length xs - n) xs (x ∷ []) (omega arith))
  ]
    where
      count : (k : ℕ) → k ≡ suc (length xs) - n → length (xs ++ (x ∷ [])) - n ≡ k
      count k e = omega (arith, length-append xs (x ∷ []), e)

-- The buffer holds the last `cap` ticks of the log.
pub record Holds (b : TickBuffer) (cap : ℕ) (log : List TransferTick) : Type 0 where
  pub suffix : b.inner ≡ last cap log
  pub bound : b.cap ≡ cap
  pub positive : 1 ≤ cap

push-Holds :
    (b : TickBuffer) (cap : ℕ) (log : List TransferTick) (tick : TransferTick)
    → Holds b cap log
    → Holds (push tick b) cap (log ++ (tick ∷ []))
unfolding push
push-Holds b cap log tick h = record {
  suffix = rw (h.suffix, h.bound) (sym (last-snoc cap log tick h.positive));
  bound = h.bound;
  positive = h.positive;
}

run-Holds :
    (calls : List Call) (b : TickBuffer) (cap : ℕ) (log : List TransferTick)
    → Holds b cap log
    → run calls b ≡ run_log calls cap log
unfolding run run_log drain
run-Holds [] b cap log h = refl
run-Holds (pushes tick ∷ calls) b cap log h =
    run-Holds calls (push tick b) cap (log ++ (tick ∷ [])) (push-Holds b cap log tick h)
run-Holds (drains ∷ calls) b cap log h =
    ap₂ (λ ticks rest. ticks ∷ rest) h.suffix
      (run-Holds calls (record b { inner = [] }) cap []
        (record { suffix = sym (last-nil cap); bound = h.bound; positive = h.positive }))

-- Over every sequence of pushes and drains, a buffer of any capacity answers as a log that forgets
-- nothing and of which a drain shows the last ticks, as many as the capacity clamped to 1 to 65536.
pub run-run_log :
    (calls : List Call) (cap : ℕ)
    → run calls (new cap) ≡ run_log calls (min (max cap 1) tick_buffer_cap) []
unfolding new
run-run_log calls cap = run-Holds calls (new cap) (min (max cap 1) tick_buffer_cap) [] (record {
  suffix = sym (last-nil (min (max cap 1) tick_buffer_cap));
  bound = refl;
  positive = omega arith;
})
