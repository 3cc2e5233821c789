-- ===== src/Capnp/Client/Rounds.antt =====
-- The rounds of the loop.
use grpccapnp.Base.{
  ℕ, zero, suc, ◌+◌, ◌^◌, ◌≤◌, ◌<◌, ◌≡◌, refl, ap, ap₂, ◌∙◌, subst, inl, inr, Bool, true, false, [],
  ◌∷◌, ◌++◌, Byte, Bytes, Option, some, arith, length, length-append, length-reverse, bytes_eq,
  reverse, ◌==◌, Bool-cases, ==_refl, bytes_eq_refl, eq_of_bytes_eq, if◌then◌else◌,
}
use grpccapnp.Base.Chunks.{chunks_of, chunks_of-nil}
use grpccapnp.Common.Reversal.{reverse_bytes}
use grpccapnp.Common.ChunkReader.{ChunkReader, next_chunk}
use grpccapnp.Common.ChunkReader.Reading.{Delivered}
use grpccapnp.Common.ChunkReader.WholeFile.{AtEnd, Within, next_chunk-Next, eof-remaining}
use grpccapnp.Common.Metrics.{record_chunk_sent, record_chunk_rtt_us, log_error, u64}
use grpccapnp.Capnp.Client.{
  Reply, replied, raised, Calls, Loop, Round, continue, stop, throw, verify, answer, exchange,
  round, transfer,
}
use grpccapnp.Capnp.Client.Judgement.{Verdict, wrong, mismatch, weigh, judge, Ends}

round-AtEnd :
    (calls : Calls) (s : Loop) (seen : Bytes)
    → AtEnd seen s.reader (next_chunk s.reader).0 (next_chunk s.reader).1
    → round calls s ≡ stop (record s { reader = (next_chunk s.reader).0 })
unfolding round
round-AtEnd calls s seen a =
    let (_, _, ended) = eof-remaining seen (next_chunk s.reader).0 a.delivered in
    simp (a.empty, ended.1 a.none_left')

round_within :
    (calls : Calls) (s : Loop) (b : Byte) (bs : Bytes)
    → (next_chunk s.reader).1 ≡ b ∷ bs
    → round calls s ≡ exchange calls (record s { reader = (next_chunk s.reader).0 }) (b ∷ bs)
unfolding round
round_within calls s b bs e = simp e

-- The loop after a round that was answered right.
abbrev next_loop : Calls → Loop → Bytes → Loop
next_loop calls s c = record s {
  metrics =
      record_chunk_rtt_us (calls.rtt_us s.chunks_sent)
        (record_chunk_sent (length c) (length c) s.metrics);
  chunks_sent = u64 (s.chunks_sent + 1);
  total_bytes_verified_payload = u64 (s.total_bytes_verified_payload + length c);
}

-- How an exchange follows the answer.
abbrev Follows : Calls → Loop → Bytes → Reply → Round → Type 0
Follows calls s c (raised e) r =
    (s' : Loop) × (r ≡ throw e s') × (s'.metrics.errors ≡ s.metrics.errors)
Follows calls s c (replied response) r =
    if bytes_eq response (reverse c)
    then r ≡ continue (next_loop calls s c)
    else ((s' : Loop) × (r ≡ stop s')
        × (s'.total_bytes_verified_payload ≡ s.total_bytes_verified_payload)
        × (s'.metrics.errors ≡ s.metrics.errors ++ mismatch s.chunks_sent c response ∷ []))

answer-Follows :
    (calls : Calls) (s : Loop) (c : Bytes) (reply : Reply)
    → Follows calls s c reply (
        answer calls
          (record s { metrics = record_chunk_sent (length c) (length c) s.metrics })
          c
          reply)
unfolding answer verify reverse_bytes record_chunk_sent log_error record_chunk_rtt_us
answer-Follows calls s c (raised e) = (_, refl, refl)
answer-Follows calls s c (replied response) = elim (Bool-cases (bytes_eq response (reverse c))) [
  | inl right ↦
      let same : response ≡ reverse c = eq_of_bytes_eq _ _ right in
      simp (same, bytes_eq_refl, ==_refl)
  | inr bad ↦ elim (Bool-cases (length response == length c)) [
    | inl same ↦ simp (bad, length-reverse, same) (_, refl, refl, refl)
    | inr other ↦ simp (bad, length-reverse, other) (_, refl, refl, refl)
  ]
]

exchange-Follows :
    (calls : Calls) (s : Loop) (c : Bytes)
    → Follows calls s c (calls.process_chunk s.chunks_sent c) (exchange calls s c)
unfolding exchange
exchange-Follows calls s c = answer-Follows calls s c (calls.process_chunk s.chunks_sent c)

-- What the loop has before a round: the reader's file, and counters that do not wrap.
pub record Sending (seen : Bytes) (s : Loop) : Type 0 where
  pub delivered : Delivered seen s.reader
  pub sent : s.chunks_sent ≤ length seen
  pub room : length seen + length s.reader.file_stream.rest < 2 ^ 64
  pub verified : s.total_bytes_verified_payload ≡ length seen

next_loop-Sending :
    (calls : Calls) (s : Loop) (seen : Bytes) (b : Byte) (bs : Bytes) (reader : ChunkReader)
    → Sending seen s
    → Within seen s.reader reader b bs
    → Sending (seen ++ b ∷ bs) (next_loop calls (record s { reader = reader }) (b ∷ bs))
next_loop-Sending calls s seen b bs reader p w =
    let grows = length-append seen (b ∷ bs) in
    let parts = ap length w.splits ∙ length-append (b ∷ bs) reader.file_stream.rest in
    record {
      delivered = w.delivered;
      sent = omega (arith, grows, p.sent, p.room);
      room = omega (arith, grows, parts, p.room);
      verified = omega (arith, grows, parts, p.verified, p.room);
    }

-- What the loop makes of a round.
abbrev then_loop : ℕ → Calls → Round → Option Round
then_loop fuel calls r = elim r [
  | continue s' ↦ transfer fuel calls s'
  | stop s' ↦ some (stop s')
  | throw e s' ↦ some (throw e s')
]

abbrev Ended : Option Round → Verdict → Loop → Type 0
Ended result v s = (q : Round) × (result ≡ some q) × Ends v s.metrics.errors q

Ended-of_test :
    (calls : Calls) (fuel : ℕ) (s : Loop) (c response : Bytes) (r : Round) (rest : Verdict)
    (b : Bool)
    → (if b
        then r ≡ continue (next_loop calls s c)
        else ((s' : Loop) × (r ≡ stop s')
            × (s'.total_bytes_verified_payload ≡ s.total_bytes_verified_payload)
            × (s'.metrics.errors ≡ s.metrics.errors ++ mismatch s.chunks_sent c response ∷ [])))
    → Ended (transfer fuel calls (next_loop calls s c)) rest (next_loop calls s c)
    → Ended
        (then_loop fuel calls r)
        (if b
          then rest
          else wrong s.total_bytes_verified_payload (mismatch s.chunks_sent c response))
        s
unfolding record_chunk_sent record_chunk_rtt_us
Ended-of_test calls fuel s c response r rest true e later = rw e later
Ended-of_test calls fuel s c response r rest false (s', is, verified, errors) later =
    (stop s', rw is refl, (s', refl, verified, errors))

-- The loop's result, from the round that has followed an answer.
Ended-of_Follows :
    (calls : Calls) (fuel : ℕ) (s : Loop) (c : Bytes) (reply : Reply) (r : Round) (rest : Verdict)
    → Follows calls s c reply r
    → Ended (transfer fuel calls (next_loop calls s c)) rest (next_loop calls s c)
    → Ended
        (then_loop fuel calls r)
        (weigh s.chunks_sent s.total_bytes_verified_payload c reply rest)
        s
Ended-of_Follows calls fuel s c (raised e) r rest (s', is, errors) later =
    (throw e s', rw is refl, (s', refl, errors))
Ended-of_Follows calls fuel s c (replied response) r rest f later =
    Ended-of_test calls fuel s c response r rest (bytes_eq response (reverse c)) f later

-- The verdict on the rest of the file, with the counters of the next round.
judge_next :
    (calls : Calls) (s : Loop) (seen : Bytes) (b : Byte) (bs : Bytes) (reader : ChunkReader)
    → Sending seen s
    → Within seen s.reader reader b bs
    → let s' = next_loop calls (record s { reader = reader }) (b ∷ bs) in
      judge calls s'.chunks_sent s'.total_bytes_verified_payload
        (chunks_of s'.reader.chunk_size s'.reader.file_stream.rest)
      ≡ judge calls
          (suc s.chunks_sent)
          (s.total_bytes_verified_payload + length (b ∷ bs))
          (chunks_of s.reader.chunk_size reader.file_stream.rest)
judge_next calls s seen b bs reader p w =
    let parts = ap length w.splits ∙ length-append (b ∷ bs) reader.file_stream.rest in
    let k : u64 (s.chunks_sent + 1) ≡ suc s.chunks_sent = omega (arith, parts, p.sent, p.room) in
    let v : u64 (s.total_bytes_verified_payload + length (b ∷ bs))
        ≡ s.total_bytes_verified_payload + length (b ∷ bs) =
      omega (arith, parts, p.verified, p.room) in
    ap₂ (λ x y. judge calls x y (chunks_of reader.chunk_size reader.file_stream.rest)) k v
    ∙ ap
        (λ n.
          judge calls (suc s.chunks_sent) (s.total_bytes_verified_payload + length (b ∷ bs))
            (chunks_of n reader.file_stream.rest))
        w.same_chunk_size

-- With more fuel than there are bytes left, the loop ends as the verdict says.
pub transfer-judge :
    (fuel : ℕ) (calls : Calls) (s : Loop) (seen : Bytes)
    → Sending seen s
    → length s.reader.file_stream.rest < fuel
    → Ended
        (transfer fuel calls s)
        (judge calls s.chunks_sent s.total_bytes_verified_payload
          (chunks_of s.reader.chunk_size s.reader.file_stream.rest))
        s
unfolding transfer judge
transfer-judge zero calls s seen p h = absurd (omega arith)
transfer-judge (suc fuel) calls s seen p h = elim (next_chunk-Next seen s.reader p.delivered) [
  | inl a ↦
      simp (a.none_left, chunks_of-nil)
        (_, ap (then_loop fuel calls) (round-AtEnd calls s seen a), (_, refl, refl, refl))
  | inr (b, bs, e, w) ↦
      let s₁ : Loop = record s { reader = (next_chunk s.reader).0 } in
      let c : Bytes = b ∷ bs in
      let parts = ap length w.splits ∙ length-append c s₁.reader.file_stream.rest in
      let later =
        transfer-judge fuel calls (next_loop calls s₁ c) (seen ++ c)
          (next_loop-Sending calls s seen b bs s₁.reader p w) (omega (arith, parts)) in
      let (q, is, ends) = Ended-of_Follows calls fuel s₁ c _ _ _ (exchange-Follows calls s₁ c) (
        subst (λ v. Ended (transfer fuel calls (next_loop calls s₁ c)) v (next_loop calls s₁ c))
          (judge_next calls s seen b bs s₁.reader p w) later) in
      simp w.cuts (q, ap (then_loop fuel calls) (round_within calls s b bs e) ∙ is, ends)
]
