-- ===== src/Tcp/Metrics/Report/RoundTrips.antt =====
-- The chunk times that the summary of the TCP benchmark prints.
use mathlib.Core.List.{Mem, mem-cons_self, mem-cons_of_mem, mem-cons, Mem-prop}
use mathlib.Core.Logic.Or
use grpccapnp.Base.{
  ℕ, ◌+◌, ◌*◌, ◌≤◌, ◌≡◌, refl, List, [], ◌∷◌, map, arith, length, All, ltb, inl, inr, ◌⊎◌,
  if◌then◌else◌,
}
use grpccapnp.Common.Double.{Double}
use grpccapnp.Tcp.Metrics.{ChunkRttInfo}
use grpccapnp.Tcp.Metrics.Report.{amount, sum_rtt, min_rtt, max_rtt, rtt_lines}

abbrev pub times : List ChunkRttInfo → List ℕ
times is = map (λ i. i.rtt_us) is

-- The better of a time and the best so far comes from either.
pick :
    {m step x best : ℕ} (xs : List ℕ)
    → (step ≡ x) ⊎ (step ≡ best)
    → Mem m (step ∷ xs)
    → Mem m (best ∷ x ∷ xs)
pick {x} {best} xs (inl e) h = mem-cons_of_mem best (rw e at h)
pick {x} {best} xs (inr e) h =
    Or.elim Mem-prop (mem-cons.0 (rw e at h)) (λ is_best. rw is_best mem-cons_self)
      (λ later. mem-cons_of_mem best (mem-cons_of_mem x later))

abbrev less : ℕ → ℕ → ℕ
less x best = if ltb x best then x else best

abbrev more : ℕ → ℕ → ℕ
more x best = if ltb best x then x else best

less_lem :
    (x best : ℕ)
    → (less x best ≤ x) × (less x best ≤ best) × ((less x best ≡ x) ⊎ (less x best ≡ best))
less_lem x best = ground arith

more_lem :
    (x best : ℕ)
    → (x ≤ more x best) × (best ≤ more x best) × ((more x best ≡ x) ⊎ (more x best ≡ best))
more_lem x best = ground arith

min_rtt-le :
    (best m : ℕ) (is : List ChunkRttInfo)
    → min_rtt best is ≡ m
    → (m ≤ best) × All (λ y. m ≤ y) (times is)
unfolding min_rtt
min_rtt-le best m [] e = (rw e (omega arith), tt)
min_rtt-le best m (i ∷ is) e =
    let (low, all) = min_rtt-le (less i.rtt_us best) m is e in
    (omega (arith, low, less_lem i.rtt_us best), (omega (arith, low, less_lem i.rtt_us best), all))

max_rtt-le :
    (best m : ℕ) (is : List ChunkRttInfo)
    → max_rtt best is ≡ m
    → (best ≤ m) × All (λ y. y ≤ m) (times is)
unfolding max_rtt
max_rtt-le best m [] e = (rw e (omega arith), tt)
max_rtt-le best m (i ∷ is) e =
    let (high, all) = max_rtt-le (more i.rtt_us best) m is e in
    (
      omega (arith, high, more_lem i.rtt_us best),
      (omega (arith, high, more_lem i.rtt_us best), all),
    )

min_rtt-mem : (best : ℕ) (is : List ChunkRttInfo) → Mem (min_rtt best is) (best ∷ times is)
unfolding min_rtt
min_rtt-mem best [] = mem-cons_self
min_rtt-mem best (i ∷ is) =
    pick (times is) (less_lem i.rtt_us best).2 (min_rtt-mem (less i.rtt_us best) is)

max_rtt-mem : (best : ℕ) (is : List ChunkRttInfo) → Mem (max_rtt best is) (best ∷ times is)
unfolding max_rtt
max_rtt-mem best [] = mem-cons_self
max_rtt-mem best (i ∷ is) =
    pick (times is) (more_lem i.rtt_us best).2 (max_rtt-mem (more i.rtt_us best) is)

sum_rtt-between :
    (sum low high : ℕ) (is : List ChunkRttInfo)
    → All (λ y. low ≤ y) (times is)
    → All (λ y. y ≤ high) (times is)
    → (sum + length is * low ≤ sum_rtt sum is) × (sum_rtt sum is ≤ sum + length is * high)
unfolding sum_rtt
sum_rtt-between sum low high [] a b = omega arith
sum_rtt-between sum low high (i ∷ is) (p, a) (q, b) =
    let ih = sum_rtt-between (sum + i.rtt_us) low high is a b in omega (arith, ih, p, q)

-- Where chunks were recorded, the summary prints one line on their times: the least of them, the
-- greatest of them, and the quotient by their number of a sum that lies between that number times the
-- least and that number times the greatest (each then divided by 1000); nothing is printed of none.
pub rtt_lines-between :
    (double : Double) (i : ChunkRttInfo) (is : List ChunkRttInfo)
    → let shown : ℕ → double.Carrier = λ n. double.div (double.of_size n) (double.of_size 1000) in
      let k = length (i ∷ is) in
      (rtt_lines double [] ≡ [])
      × ((total : ℕ) × (least : ℕ) × (greatest : ℕ) × (rtt_lines double (i ∷ is)
            ≡ amount "Chunk RTT (ms) - Avg, Min, Max" (
                double.div
                  (double.div (double.of_size total) (double.of_size k))
                  (double.of_size 1000)
                ∷ shown least
                ∷ shown greatest
                ∷ [])
              ∷ [])
          × Mem least (times (i ∷ is))
          × All (λ y. least ≤ y) (times (i ∷ is))
          × Mem greatest (times (i ∷ is))
          × All (λ y. y ≤ greatest) (times (i ∷ is))
          × (k * least ≤ total)
          × (total ≤ k * greatest))
unfolding rtt_lines
rtt_lines-between double i is =
    let low = min_rtt-le i.rtt_us _ is refl in
    let high = max_rtt-le i.rtt_us _ is refl in
    let least = min_rtt i.rtt_us is in
    let greatest = max_rtt i.rtt_us is in
    let bounds = sum_rtt-between 0 least greatest (i ∷ is) low high in
    (
      refl,
      (
        sum_rtt 0 (i ∷ is),
        least,
        greatest,
        refl,
        min_rtt-mem i.rtt_us is,
        low,
        max_rtt-mem i.rtt_us is,
        high,
        omega (arith, bounds),
        omega (arith, bounds),
      ),
    )
