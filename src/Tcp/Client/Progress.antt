-- ===== src/Tcp/Client/Progress.antt =====
-- Where the TCP client stands in its file, while it sends and waits.
use grpccapnp.Base.{
  ℕ, String, ◌+◌, ◌^◌, ◌≤◌, ◌<◌, ◌≡◌, refl, sym, ap, ◌∙◌, subst, ◌⊎◌, inl, inr, Bytes, List, [],
  ◌∷◌, ◌++◌, true, false, none, some, arith, length, length-append, map, reverse,
}
use grpccapnp.Base.Chunks.{chunks_of}
use grpccapnp.Common.Double.{Double}
use grpccapnp.Tcp.Messaging.{prepare_message}
use grpccapnp.Tcp.ChunkReader.{ChunkReader}
use grpccapnp.Tcp.ChunkReader.Reading.{Ready}
use grpccapnp.Tcp.Metrics.{Moment, MetricsAggregator, make, stop_and_record_chunk_rtt}
use grpccapnp.Tcp.Metrics.Records.{
  IsConsistent, Same, Same-IsConsistent, stop_and_record-IsConsistent, recorded_bytes,
  recorded_verified, recorded_bytes-append, recorded_verified-append,
}
use grpccapnp.Tcp.Client.{
  Waiting, resolving, connecting, reading_header, reading_body, writing, nothing, unwound, Client,
}

-- The aggregator has k chunks of b bytes, all of them verified.
pub record Tracked (double : Double) (k b : ℕ) (m : MetricsAggregator double) : Type 0 where
  pub consistent : IsConsistent double 0 m
  pub count : length m.chunk_rtt_data ≡ k
  pub verified : recorded_verified m.chunk_rtt_data ≡ k
  pub bytes : recorded_bytes m.chunk_rtt_data ≡ b

-- The reader will deliver `rest`, in chunks of n bytes.
pub record Behind (n : ℕ) (rest : Bytes) (r : ChunkReader) : Type 0 where
  pub same_chunk_size : r.chunk_size ≡ n
  pub chunked : 0 < n
  pub coming : (Ready rest r) ⊎ ((rest ≡ []) × (r.eof_flag ≡ true))

module _ (double : Double) (n len total : ℕ) (expected : List Bytes) where
  -- The chunks up to here are verified, and the next one is to be read.
  pub record IsSending (past : List Bytes) (c : Client double) : Type 0 where
    pub rest : Bytes
    pub sent_bytes : ℕ
    pub running : c.operations_stopped ≡ false
    pub silent : c.finished ≡ none
    pub tracked : Tracked double c.chunks_sent sent_bytes c.metrics
    pub all_bytes : sent_bytes + length rest ≡ len
    pub answers : past ++ map reverse (chunks_of n rest) ≡ expected
    pub all_chunks : c.chunks_sent + length (chunks_of n rest) ≡ total
    pub target : c.total_chunks_to_send ≡ total
    pub behind : Behind n rest c.chunk_reader

  -- A chunk is on its way.
  pub record IsWaiting (past : List Bytes) (c : Client double) : Type 0 where
    pub rest : Bytes
    pub sent_bytes : ℕ
    pub running : c.operations_stopped ≡ false
    pub silent : c.finished ≡ none
    pub tracked : Tracked double c.chunks_sent sent_bytes c.metrics
    pub some_chunk : 0 < length c.current_chunk_data
    pub fits : length c.current_chunk_data ≤ n
    pub expects : c.expected_reversed_chunk ≡ reverse c.current_chunk_data
    pub all_bytes : sent_bytes + length c.current_chunk_data + length rest ≡ len
    pub answers : past ++ reverse c.current_chunk_data ∷ map reverse (chunks_of n rest) ≡ expected
    pub all_chunks : c.chunks_sent + 1 + length (chunks_of n rest) ≡ total
    pub target : c.total_chunks_to_send ≡ total
    pub behind : Behind n rest c.chunk_reader

  -- All chunks are verified, and the client has said so.
  pub record IsDone (past : List Bytes) (c : Client double) : Type 0 where
    pub stopped : c.operations_stopped ≡ true
    pub waits : c.waiting ≡ nothing
    pub said : c.finished ≡ some false
    pub tracked : Tracked double total len c.metrics
    pub sent : c.chunks_sent ≡ total
    pub answers : past ≡ expected

  pub record IsFailed (c : Client double) : Type 0 where
    pub stopped : c.operations_stopped ≡ true
    pub said : c.finished ≡ some true

  abbrev pub At : Waiting → List Bytes → Client double → Type 0
  At resolving past c = IsSending past c
  At connecting past c = IsSending past c
  At (writing buffers) past c = IsWaiting past c
  At reading_header past c = IsWaiting past c
  At reading_body past c = IsWaiting past c
  At nothing past c = IsDone past c ⊎ IsFailed c
  At unwound past c = c.finished ≡ none

  abbrev pub Stands : List Bytes → Client double → Type 0
  Stands past c = At c.waiting past c

  -- The chunk is being written.
  abbrev pub IsSent : List Bytes → Client double → Type 0
  IsSent past c = IsWaiting past c × (c.waiting ≡ writing (prepare_message c.current_chunk_data))

  -- After a success: the end, or the next chunk with k chunks behind it.
  abbrev pub Goes : ℕ → List Bytes → Client double → Type 0
  Goes k past c = IsDone past c ⊎ (IsSent past c × (c.chunks_sent ≡ k))

  pub Goes-Stands : (k : ℕ) (past : List Bytes) (c : Client double) → Goes k past c → Stands past c
  Goes-Stands k past c (inl h) = subst (λ w. At w past c) (sym h.waits) (inl h)
  Goes-Stands k past c (inr ((h, e), _)) = subst (λ w. At w past c) (sym e) h

pub Same-Tracked :
    (double : Double) (k b : ℕ) (m m' : MetricsAggregator double)
    → Same double m m'
    → Tracked double k b m
    → Tracked double k b m'
Same-Tracked double k b m m' same h = record {
  consistent = Same-IsConsistent double 0 m m' same h.consistent;
  count = ap length same.3 ∙ h.count;
  verified = ap recorded_verified same.3 ∙ h.verified;
  bytes = ap recorded_bytes same.3 ∙ h.bytes;
}

pub recorded-Tracked :
    (double : Double) (k b size : ℕ) (t : Moment) (m : MetricsAggregator double)
    → k + 1 < 2 ^ 64
    → Tracked double k b m
    → Tracked double (k + 1) (b + size) (stop_and_record_chunk_rtt double t size true m)
unfolding stop_and_record_chunk_rtt
recorded-Tracked double k b size t m small h = record {
  consistent =
      stop_and_record-IsConsistent double 0 t size true m (omega (arith, h.count)) h.consistent;
  count = omega (arith, h.count, length-append m.chunk_rtt_data (_ ∷ []));
  verified = omega (arith, h.verified, recorded_verified-append m.chunk_rtt_data _);
  bytes = omega (arith, h.bytes, recorded_bytes-append m.chunk_rtt_data _);
}

pub new-Tracked :
    (double : Double) (name : String) (size chunk : ℕ)
    → Tracked double 0 0 (make double name size chunk)
unfolding make
new-Tracked double name size chunk = record {
  consistent = record { processed = refl; verified = refl; bytes = refl; numbered = tt };
  count = refl;
  verified = refl;
  bytes = refl;
}
