-- ===== src/Tcp/Metrics/Records.antt =====
-- What the TCP benchmark's `MetricsAggregator` has recorded after any sequence of calls.
use grpccapnp.Base.{
  false, ℕ, ◌+◌, ◌-◌, ◌/◌, ◌^◌, ◌≤◌, ◌<◌, ◌≡◌, refl, sym, ap, ◌∙◌, subst, String, Bool, List, [],
  ◌∷◌, ◌++◌, arith, length, length-append, if◌then◌else◌,
}
use grpccapnp.Common.Double.{Double}
use grpccapnp.Common.Metrics.{u64}
use grpccapnp.Tcp.Metrics.{
  ChunkRttInfo, Moment, MetricsAggregator, make, start_timer, stop_timer, start_resource_monitoring,
  stop_resource_monitoring, start_chunk_rtt_timer, stop_and_record_chunk_rtt,
  record_chunk_processed, record_chunk_verified,
}

pub data Call : Type 0 where
  timer_started timer_stopped chunk_started : Moment → Call
  chunk_recorded : Moment → ℕ → Bool → Call
  bytes_processed : ℕ → Call
  verification_noted : Bool → Call

-- The sizes of the recorded chunks, and how many of them were verified.
abbrev pub recorded_bytes : List ChunkRttInfo → ℕ
recorded_bytes [] = 0
recorded_bytes (i ∷ is) = i.chunk_size_bytes + recorded_bytes is

abbrev pub recorded_verified : List ChunkRttInfo → ℕ
recorded_verified [] = 0
recorded_verified (i ∷ is) = (if i.verified then 1 else 0) + recorded_verified is

-- The chunks from the k-th on have the numbers from k + 1 on.
abbrev pub IsNumbered : ℕ → List ChunkRttInfo → Type 0
IsNumbered k [] = Unit {0}
IsNumbered k (i ∷ is) = (i.chunk_index ≡ k + 1) × IsNumbered (k + 1) is

-- The bytes that were reported besides the recorded chunks.
abbrev pub other_bytes : List Call → ℕ
other_bytes [] = 0
other_bytes (bytes_processed n ∷ cs) = n + other_bytes cs
other_bytes (_ ∷ cs) = other_bytes cs

IsNumbered-append :
    (k : ℕ) (is : List ChunkRttInfo) (i : ChunkRttInfo)
    → IsNumbered k is
    → i.chunk_index ≡ k + length is + 1
    → IsNumbered k (is ++ i ∷ [])
IsNumbered-append k [] i h e = (omega (arith, e), tt)
IsNumbered-append k (j ∷ is) i h e = (h.0, IsNumbered-append (k + 1) is i h.1 (omega (arith, e)))

pub recorded_bytes-append :
    (is : List ChunkRttInfo) (i : ChunkRttInfo)
    → recorded_bytes (is ++ i ∷ []) ≡ recorded_bytes is + i.chunk_size_bytes
recorded_bytes-append [] i = omega arith
recorded_bytes-append (j ∷ is) i = omega (arith, recorded_bytes-append is i)

pub recorded_verified-append :
    (is : List ChunkRttInfo) (i : ChunkRttInfo)
    → recorded_verified (is ++ i ∷ []) ≡ recorded_verified is + (if i.verified then 1 else 0)
recorded_verified-append [] i = omega arith
recorded_verified-append (j ∷ is) i = omega (arith, recorded_verified-append is i)

pub recorded_verified-le : (is : List ChunkRttInfo) → recorded_verified is ≤ length is
recorded_verified-le [] = omega arith
recorded_verified-le (i ∷ is) = ground (arith, recorded_verified-le is)

module _ (double : Double) where
  pub apply : Call → MetricsAggregator double → MetricsAggregator double
  apply (timer_started t) m = start_timer double t m
  apply (timer_stopped t) m = stop_timer double t m
  apply (chunk_started t) m = start_chunk_rtt_timer double t m
  apply (chunk_recorded t size verified) m = stop_and_record_chunk_rtt double t size verified m
  apply (bytes_processed n) m = record_chunk_processed double n m
  apply (verification_noted success) m = record_chunk_verified double success m

  pub run : List Call → MetricsAggregator double → MetricsAggregator double
  unfolding apply
  run [] m = m
  run (c ∷ cs) m = run cs (apply c m)

  -- The counters say what the list of chunks says; `other` bytes were reported besides.
  pub record IsConsistent (other : ℕ) (m : MetricsAggregator double) : Type 0 where
    pub processed : m.processed_chunks_count ≡ length m.chunk_rtt_data
    pub verified : m.verified_chunks_count ≡ recorded_verified m.chunk_rtt_data
    pub bytes : m.total_bytes_processed ≡ u64 (recorded_bytes m.chunk_rtt_data + other)
    pub numbered : IsNumbered 0 m.chunk_rtt_data

  -- A call that leaves the records alone.
  abbrev pub Same : MetricsAggregator double → MetricsAggregator double → Type 0
  Same m m' =
      (m'.processed_chunks_count ≡ m.processed_chunks_count)
      × (m'.verified_chunks_count ≡ m.verified_chunks_count)
      × (m'.total_bytes_processed ≡ m.total_bytes_processed)
      × (m'.chunk_rtt_data ≡ m.chunk_rtt_data)

  pub Same-IsConsistent :
      (other : ℕ) (m m' : MetricsAggregator double)
      → Same m m'
      → IsConsistent other m
      → IsConsistent other m'
  Same-IsConsistent other m m' (p, v, b, d) h = record {
    processed = p ∙ h.processed ∙ ap length (sym d);
    verified = v ∙ h.verified ∙ ap recorded_verified (sym d);
    bytes = b ∙ h.bytes ∙ ap (λ is. u64 (recorded_bytes is + other)) (sym d);
    numbered = subst (IsNumbered 0) (sym d) h.numbered;
  }

  pub start_timer-Same :
      (t : Moment) (m : MetricsAggregator double) → Same m (start_timer double t m)
  unfolding start_timer start_resource_monitoring
  start_timer-Same t m = ground arith

  pub stop_timer-Same : (t : Moment) (m : MetricsAggregator double) → Same m (stop_timer double t m)
  unfolding stop_timer stop_resource_monitoring
  stop_timer-Same t m = ground arith

  pub stop_and_record-IsConsistent :
      (other : ℕ) (t : Moment) (size : ℕ) (ok : Bool) (m : MetricsAggregator double)
      → length m.chunk_rtt_data + 1 < 2 ^ 64
      → IsConsistent other m
      → IsConsistent other (stop_and_record_chunk_rtt double t size ok m)
  unfolding stop_and_record_chunk_rtt
  stop_and_record-IsConsistent other t size ok m small h = record {
    processed = omega (arith, h.processed, length-append m.chunk_rtt_data (_ ∷ []));
    verified =
        let info : ChunkRttInfo = record {
          chunk_index = u64 (m.processed_chunks_count + 1);
          rtt_us = (t.now - m.current_chunk_rtt_start_time) / 1000;
          chunk_size_bytes = size;
          verified = ok;
        } in
        ground (
          arith,
          h.verified,
          recorded_verified-append m.chunk_rtt_data info,
          recorded_verified-le m.chunk_rtt_data,
        );
    bytes = omega (arith, h.bytes, recorded_bytes-append m.chunk_rtt_data _);
    numbered = IsNumbered-append 0 m.chunk_rtt_data _ h.numbered (omega (arith, h.processed));
  }

  apply-IsConsistent :
      (other : ℕ) (c : Call) (cs : List Call) (m : MetricsAggregator double)
      → length m.chunk_rtt_data + length (c ∷ cs) < 2 ^ 64
      → IsConsistent other m
      → (later : ℕ) × (later + other_bytes cs ≡ other + other_bytes (c ∷ cs))
        × IsConsistent later (apply c m)
        × (length (apply c m).chunk_rtt_data ≤ length m.chunk_rtt_data + 1)
  unfolding apply start_chunk_rtt_timer record_chunk_processed record_chunk_verified
      stop_and_record_chunk_rtt
  apply-IsConsistent other (timer_started t) cs m small h =
      let same = start_timer-Same t m in
      (other, refl, Same-IsConsistent other m _ same h, omega (arith, ap length same.3))
  apply-IsConsistent other (timer_stopped t) cs m small h =
      let same = stop_timer-Same t m in
      (other, refl, Same-IsConsistent other m _ same h, omega (arith, ap length same.3))
  apply-IsConsistent other (chunk_started t) cs m small h =
      (other, refl, Same-IsConsistent other m _ (refl, refl, refl, refl) h, omega arith)
  apply-IsConsistent other (chunk_recorded t size ok) cs m small h = (
    other,
    refl,
    stop_and_record-IsConsistent other t size ok m (omega arith) h,
    omega (arith, length-append m.chunk_rtt_data (_ ∷ [])),
  )
  apply-IsConsistent other (bytes_processed n) cs m small h = (
    other + n,
    omega arith,
    record {
      processed = h.processed;
      verified = h.verified;
      bytes = omega (arith, h.bytes);
      numbered = h.numbered;
    },
    omega arith,
  )
  apply-IsConsistent other (verification_noted ok) cs m small h = (other, refl, h, omega arith)

  run-IsConsistent :
      (other : ℕ) (cs : List Call) (m : MetricsAggregator double)
      → length m.chunk_rtt_data + length cs < 2 ^ 64
      → IsConsistent other m
      → IsConsistent (other + other_bytes cs) (run cs m)
  unfolding run
  run-IsConsistent other [] m small h = subst (λ n. IsConsistent n m) (omega arith) h
  run-IsConsistent other (c ∷ cs) m small h =
      let (later, e, next, grows) = apply-IsConsistent other c cs m small h in
      subst (λ n. IsConsistent n (run cs (apply c m))) e
        (run-IsConsistent later cs (apply c m) (omega (arith, small, grows)) next)

  -- After any fewer than 2 ^ 64 calls on a new aggregator, whatever the clock says, the number of
  -- processed chunks is that of the recorded ones, the number of verified chunks is that of the
  -- recorded ones that were verified, the bytes are (modulo 2 ^ 64) those of the recorded chunks and
  -- those reported besides, and the recorded chunks are numbered from 1 in their order.
  pub counters_run :
      (name : String) (total chunk : ℕ) (cs : List Call)
      → length cs < 2 ^ 64
      → IsConsistent (other_bytes cs) (run cs (make double name total chunk))
  unfolding make
  counters_run name total chunk cs small =
      subst (λ n. IsConsistent n (run cs (make double name total chunk))) (omega arith)
        (run-IsConsistent 0 cs (make double name total chunk) (omega arith)
          (record { processed = refl; verified = refl; bytes = refl; numbered = tt }))

pub stop_timer-stopped :
    (double : Double) (t : Moment) (m : MetricsAggregator double)
    → (stop_timer double t m).timer_running ≡ false
unfolding stop_timer stop_resource_monitoring
stop_timer-stopped double t m = ground arith
