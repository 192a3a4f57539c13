-- ===== src/Master/History/Log.antt =====
-- The history against its specification: the log of all samples, of which it keeps the last points.
use cupidmq.Common.{
  ltb, leb, if◌then◌else◌, Bool-cases, length, drop, get_elem?, length-append, length-drop, ℕ, zero,
  suc, ◌+◌, ◌-◌, ◌≤◌, max, ◌≡◌, refl, sym, ap, subst, ◌∙◌, inl, inr, true, false, Option, none,
  some, List, [], ◌∷◌, ◌++◌, append-nil, append_assoc, arith,
}
use cupidmq.Master.History.{
  Rates, HistoryPoint, RateCounters, Sample, MetricsHistory, counters_of, new, point_of,
  record_sample, rates_of, last_rates, since, list_since, list_all,
}
use cupidmq.Master.Ticks.Log.{last, last-snoc, last-nil}

module _ {F : Type 0} (fl : Rates F) where
  -- The history after some samples.
  unfoldable pub record_all : List Sample → MetricsHistory F → MetricsHistory F
  record_all [] h = h
  record_all (s ∷ samples) h = record_all samples (record_sample fl s h)

  -- The points of all samples, each with its rates since the sample before it.
  unfoldable pub all_points : Option RateCounters → List Sample → List (HistoryPoint F)
  all_points prev [] = []
  all_points prev (s ∷ samples) = point_of fl prev s ∷ all_points (some (counters_of s)) samples

  -- The history shows the last points of the log.
  record Shows (h : MetricsHistory F) (n : ℕ) (log : List (HistoryPoint F)) : Type 0 where
    pub suffix : h.points ≡ last n log
    pub bound : h.cap ≡ n
    pub positive : 1 ≤ n

  -- What the buffer of ticks drops before a push, the history drops after it.
  drop_after :
      (n : ℕ) (q : List (HistoryPoint F)) (p : HistoryPoint F)
      → length q ≤ n
      → 1 ≤ n
      → (let points = q ++ (p ∷ []) in
          if ltb n (length points) then drop (length points - n) points else points)
        ≡ (if leb n (length q) then drop 1 q else q) ++ (p ∷ [])
  drop_after n q p h k = elim (Bool-cases (leb n (length q))) [
    | inl full ↦
        let over : ltb n (length (q ++ (p ∷ []))) ≡ true =
          ground (arith, length-append q (p ∷ [])) in
        let one : length (q ++ (p ∷ [])) - n ≡ 1 = ground (arith, length-append q (p ∷ [])) in
        rw (full, over, one) (drop_one q (ground arith))
    | inr room ↦
        let fits : ltb n (length (q ++ (p ∷ []))) ≡ false =
          ground (arith, length-append q (p ∷ [])) in
        rw (room, fits) refl
  ]
    where
      drop_one :
          (xs : List (HistoryPoint F))
          → 1 ≤ length xs
          → drop 1 (xs ++ (p ∷ [])) ≡ drop 1 xs ++ (p ∷ [])
      drop_one [] e = absurd (omega arith)
      drop_one (x ∷ xs) e = refl

  record_sample-Shows :
      (s : Sample) (h : MetricsHistory F) (n : ℕ) (log : List (HistoryPoint F))
      → Shows h n log
      → Shows (record_sample fl s h) n (log ++ (point_of fl h.last s ∷ []))
  unfolding record_sample
  record_sample-Shows s h n log v = record {
    suffix =
        rw (v.suffix, v.bound)
          (drop_after n (last n log) (point_of fl h.last s)
              (omega (arith, length-drop (length log - n) log)) v.positive
            ∙ sym (last-snoc n log (point_of fl h.last s) v.positive));
    bound = v.bound;
    positive = v.positive;
  }

  record_all-Shows :
      (samples : List Sample) (h : MetricsHistory F) (n : ℕ) (log : List (HistoryPoint F))
      → Shows h n log
      → Shows (record_all samples h) n (log ++ all_points h.last samples)
  unfolding record_all all_points record_sample
  record_all-Shows [] h n log v = subst (Shows h n) (sym (append-nil log)) v
  record_all-Shows (s ∷ samples) h n log v =
      subst (Shows (record_all samples (record_sample fl s h)) n)
        (append_assoc log (point_of fl h.last s ∷ []) _)
        (record_all-Shows samples (record_sample fl s h) n _ (record_sample-Shows s h n log v))

  get_elem?-drop :
      (k i : ℕ) (xs : List (HistoryPoint F)) → get_elem? (drop k xs) i ≡ get_elem? xs (k + i)
  get_elem?-drop zero i xs = ap (get_elem? xs) (omega arith)
  get_elem?-drop (suc k) i [] = refl
  get_elem?-drop (suc k) i (x ∷ xs) =
      let e : suc k + i ≡ suc (k + i) = omega arith in rw e (get_elem?-drop k i xs)

  get_elem?-last :
      (n : ℕ) (log : List (HistoryPoint F))
      → 1 ≤ n
      → get_elem? (last n log) (length (last n log) - 1) ≡ get_elem? log (length log - 1)
  get_elem?-last n [] h = ap (λ xs. get_elem? xs (length xs - 1)) (last-nil {A = HistoryPoint F} n)
  get_elem?-last n (x ∷ xs) h =
      get_elem?-drop (length (x ∷ xs) - n) _ (x ∷ xs)
      ∙ ap (get_elem? (x ∷ xs)) (omega (arith, length-drop (length (x ∷ xs) - n) (x ∷ xs)))

  -- After any samples, from the start, the history is the end of the log of all of them, as many
  -- points as the capacity, or one for a capacity of 0: `list_all` returns it, `list_since` those of
  -- it that are not older, and `last_rates` the rates of the newest point of the whole log, or zeros.
  -- In the log each sample has its rates since the one before it, whether that is still kept or not.
  pub record_all-all_points :
      (samples : List Sample) (cap ts : ℕ)
      → let log = all_points none samples in
        let h = record_all samples (new cap) in
        (list_all h ≡ last (max cap 1) log)
        × (list_since ts h ≡ since ts (last (max cap 1) log))
        × (last_rates fl h ≡ rates_of fl (get_elem? log (length log - 1)))
  unfolding new list_all list_since last_rates
  record_all-all_points samples cap ts =
      let v : Shows (record_all samples (new cap)) (max cap 1) (all_points none samples) =
        record_all-Shows samples (new cap) (max cap 1) []
          (record { suffix = sym (last-nil (max cap 1)); bound = refl; positive = omega arith }) in
      (
        v.suffix,
        ap (since ts) v.suffix,
        ap (λ xs. rates_of fl (get_elem? xs (length xs - 1))) v.suffix
            ∙ ap (rates_of fl) (get_elem?-last (max cap 1) (all_points none samples) (omega arith)),
      )
