-- ===== src/Common/Metrics/Extremes.antt =====
-- The minimum, the maximum and the sum that the reports print lie as they should.
use mathlib.Core.List.{Mem, mem-cons_self, mem-cons_of_mem, mem-cons, Mem-prop}
use mathlib.Core.Logic.Or
use grpccapnp.Base.{◌≡◌, refl, List, [], ◌∷◌, arith, length, All, inl, inr, if◌then◌else◌, ◌⊎◌}
use grpccapnp.Base.Int.{ℤ, pos, ltb_ℤ, ◌≤ℤ◌, ◌+ℤ◌, scale, int_laws}
use grpccapnp.Common.Double.{Double}
use grpccapnp.Common.Metrics.{MetricsAggregator}
use grpccapnp.Common.Metrics.Statistics.{
  accumulate, min_element, max_element, get_num_chunks, get_min_chunk_rtt_ms, get_max_chunk_rtt_ms,
  get_avg_chunk_rtt_ms,
}

smaller : ℤ → ℤ → ℤ
smaller x best = if ltb_ℤ x best then x else best

larger : ℤ → ℤ → ℤ
larger x best = if ltb_ℤ best x then x else best

smaller_lem :
    (x best : ℤ)
    → (smaller x best ≤ℤ x)
      × (smaller x best ≤ℤ best)
      × ((smaller x best ≡ x) ⊎ (smaller x best ≡ best))
unfolding smaller
smaller_lem x best = ground arith

larger_lem :
    (x best : ℤ)
    → (x ≤ℤ larger x best)
      × (best ≤ℤ larger x best)
      × ((larger x best ≡ x) ⊎ (larger x best ≡ best))
unfolding larger
larger_lem x best = ground arith

min_element-le :
    (best m : ℤ) (xs : List ℤ) → min_element best xs ≡ m → (m ≤ℤ best) × All (λ y. m ≤ℤ y) xs
unfolding min_element smaller
min_element-le best m [] e = (rw e (omega arith), tt)
min_element-le best m (x ∷ xs) e =
    let (low, all) = min_element-le (smaller x best) m xs e in
    (omega (arith, low, smaller_lem x best), (omega (arith, low, smaller_lem x best), all))

max_element-le :
    (best m : ℤ) (xs : List ℤ) → max_element best xs ≡ m → (best ≤ℤ m) × All (λ y. y ≤ℤ m) xs
unfolding max_element larger
max_element-le best m [] e = (rw e (omega arith), tt)
max_element-le best m (x ∷ xs) e =
    let (high, all) = max_element-le (larger x best) m xs e in
    (omega (arith, high, larger_lem x best), (omega (arith, high, larger_lem x best), all))

mem_of_pick :
    {m step x best : ℤ} (xs : List ℤ)
    → (step ≡ x) ⊎ (step ≡ best)
    → Mem m (step ∷ xs)
    → Mem m (best ∷ x ∷ xs)
mem_of_pick {x} {best} xs (inl e) h = mem-cons_of_mem best (rw e at h)
mem_of_pick {x} {best} xs (inr e) h =
    Or.elim Mem-prop (mem-cons.0 (rw e at h)) (λ is_best. rw is_best mem-cons_self)
      (λ later. mem-cons_of_mem best (mem-cons_of_mem x later))

min_element-mem : (best : ℤ) (xs : List ℤ) → Mem (min_element best xs) (best ∷ xs)
unfolding min_element smaller
min_element-mem best [] = mem-cons_self
min_element-mem best (x ∷ xs) =
    mem_of_pick xs (smaller_lem x best).2 (min_element-mem (smaller x best) xs)

max_element-mem : (best : ℤ) (xs : List ℤ) → Mem (max_element best xs) (best ∷ xs)
unfolding max_element larger
max_element-mem best [] = mem-cons_self
max_element-mem best (x ∷ xs) =
    mem_of_pick xs (larger_lem x best).2 (max_element-mem (larger x best) xs)

-- Each item is between the bounds, so the sum is between the bounds times the number of items.
accumulate_bounds :
    (sum low high : ℤ) (xs : List ℤ)
    → All (λ y. low ≤ℤ y) xs
    → All (λ y. y ≤ℤ high) xs
    → (sum +ℤ scale (length xs) low ≤ℤ accumulate sum xs)
      × (accumulate sum xs ≤ℤ sum +ℤ scale (length xs) high)
unfolding accumulate
accumulate_bounds sum low high [] a b = omega int_laws
accumulate_bounds sum low high (x ∷ xs) (p, a) (q, b) =
    let ih = accumulate_bounds (sum +ℤ x) low high xs a b in omega (int_laws, ih, p, q)

-- Of round trips that were recorded, at least one, `get_min` gives one of them that none is below,
-- `get_max` one of them that none is above (each as a `double`, in milliseconds), and `get_avg` divides by their number a sum that lies between that number times the
-- least and that number times the greatest.
pub round_trip_bounds :
    (double : Double) {Message : Type 0} (m : MetricsAggregator Message) (x : ℤ) (xs : List ℤ)
    → m.chunk_rtt_us ≡ x ∷ xs
    → let least = min_element x xs in
      let greatest = max_element x xs in
      let total = accumulate (pos 0) (x ∷ xs) in
      let k = get_num_chunks double m in
      let thousand = double.of_size 1000 in
      (get_min_chunk_rtt_ms double m ≡ double.div (double.of_int least) thousand)
      × Mem least m.chunk_rtt_us
      × All (λ y. least ≤ℤ y) m.chunk_rtt_us
      × (get_max_chunk_rtt_ms double m ≡ double.div (double.of_int greatest) thousand)
      × Mem greatest m.chunk_rtt_us
      × All (λ y. y ≤ℤ greatest) m.chunk_rtt_us
      × (get_avg_chunk_rtt_ms double m
          ≡ double.div (double.div (double.of_int total) (double.of_size k)) thousand)
      × (scale k least ≤ℤ total)
      × (total ≤ℤ scale k greatest)
unfolding get_num_chunks get_min_chunk_rtt_ms get_max_chunk_rtt_ms get_avg_chunk_rtt_ms
round_trip_bounds double m x xs e =
    let low = min_element-le x _ xs refl in
    let high = max_element-le x _ xs refl in
    let bounds =
      accumulate_bounds (pos 0) (min_element x xs) (max_element x xs) (x ∷ xs) low high in
    simp e (
      refl,
      min_element-mem x xs,
      low,
      refl,
      max_element-mem x xs,
      high,
      refl,
      omega (int_laws, bounds),
      omega (int_laws, bounds),
    )
