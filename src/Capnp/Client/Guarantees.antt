-- ===== src/Capnp/Client/Guarantees.antt =====
-- What a run of the client reports, from the `try` block of `main` on.
use grpccapnp.Base.{
  append_cons_ne_nil, eq_of_some, ℕ, suc, ◌+◌, ◌^◌, ◌<◌, ◌≡◌, ◌≢◌, refl, sym, ap, ap₂, ◌∙◌, subst,
  String, List, [], ◌∷◌, ◌++◌, Bytes, none, some, arith, length, flatten, reverse, ◌==◌, ==_refl,
  ==_eq, if◌then◌else◌, Bool-cases, inl, inr,
}
use grpccapnp.Base.Chunks.{chunks_of, flatten-chunks_of}
use grpccapnp.Common.Stream.{File, IsSound}
use grpccapnp.Common.ChunkReader.WholeFile.{fresh, make-fresh, fresh-Delivered}
use grpccapnp.Common.Metrics.{MetricsAggregator, set_total_transaction_time_ms, log_error}
use grpccapnp.Capnp.Server.{process_chunk, process_chunk-reverse}
use grpccapnp.Capnp.Client.{
  Exception, kj, std, unknown, Message, not_all_verified, exception, replied, Calls, Loop, Round,
  World, Report, finish_verified, finish, finish_round, failed, start, run_reader, session,
}
use grpccapnp.Capnp.Client.Judgement.{
  Answered, Verdict, all_right, wrong, threw, mismatch, judge, Ends,
}
use grpccapnp.Capnp.Client.Verdicts.{
  payload, payload-flatten, judge-Answered, judge-all_right, judge-wrong,
}
use grpccapnp.Capnp.Client.Rounds.{Sending, transfer-judge}

-- A world in which nothing but the calls can go wrong: the connection is made, the test file is
-- found and reads to its end, and `doneStreaming` returns.
pub record Sane (world : World) (name : String) (n : ℕ) (f : File) : Type 0 where
  pub connects : world.connect ≡ none
  pub probes : world.probed name ≡ some f
  pub opens : world.opened name ≡ some f
  pub sound : IsSound f
  pub chunked : 0 < n
  pub small : length f.bytes < 2 ^ 64
  pub finishes : world.done ≡ none

-- The last check of the run: the errors, with a warning unless all bytes were verified.
abbrev pub checked : List Message → ℕ → ℕ → List Message
checked es v target = if v == target then es else es ++ not_all_verified v target ∷ []

abbrev pub success_files : List String
success_files = "capnp_summary_results.csv" ∷ "capnp_detailed_rtt_results.csv" ∷ []

-- What is reported for a verdict.
abbrev pub Reported : Verdict → List Message → ℕ → Report → Type 0
Reported (all_right v) es target r =
    (r.exit_code ≡ 0) × (r.metrics.errors ≡ checked es v target) × (r.files ≡ success_files)
Reported (wrong v m) es target r =
    (r.exit_code ≡ 0)
    × (r.metrics.errors ≡ checked (es ++ m ∷ []) v target)
    × (r.files ≡ success_files)
Reported (threw v e) es target r = (r.exit_code ≡ 1) × (r.metrics.errors ≡ es ++ exception e ∷ [])

verified-checked :
    (target : ℕ) (s : Loop)
    → ((finish_verified target s).exit_code ≡ 0)
      × ((finish_verified target s).metrics.errors
          ≡ checked s.metrics.errors s.total_bytes_verified_payload target)
      × ((finish_verified target s).files ≡ success_files)
unfolding finish_verified log_error
verified-checked target s = elim (Bool-cases (s.total_bytes_verified_payload == target)) [
  | inl all ↦ rw (all, finish_verified) (refl, refl, refl)
  | inr part ↦ rw (part, finish_verified) (refl, refl, refl)
]

finish-checked :
    (world : World) (target : ℕ) (s : Loop)
    → world.done ≡ none
    → ((finish world target s).exit_code ≡ 0)
      × ((finish world target s).metrics.errors
          ≡ checked s.metrics.errors s.total_bytes_verified_payload target)
      × ((finish world target s).files ≡ success_files)
unfolding finish set_total_transaction_time_ms
finish-checked world target s e =
    rw (e, finish)
      (verified-checked target
        (record s { metrics = set_total_transaction_time_ms world.duration_ms s.metrics }))

failed-errors :
    (e : Exception) (m : MetricsAggregator Message)
    → ((failed e m).exit_code ≡ 1) × ((failed e m).metrics.errors ≡ m.errors ++ exception e ∷ [])
unfolding log_error
failed-errors (kj what) m = (refl, refl)
failed-errors (std what) m = (refl, refl)
failed-errors unknown m = (refl, refl)

Reported-of_Ends :
    (world : World) (target : ℕ) (es : List Message) (v : Verdict) (q : Round)
    → world.done ≡ none
    → Ends v es q
    → Reported v es target (finish_round world target q)
unfolding finish_round
Reported-of_Ends world target es (all_right v) q e (s, is, verified, errors) =
    let (code, logged, files) = finish-checked world target s e in
    rw (is, finish_round) (code, logged ∙ ap₂ (λ a b. checked a b target) errors verified, files)
Reported-of_Ends world target es (wrong v m) q e (s, is, verified, errors) =
    let (code, logged, files) = finish-checked world target s e in
    rw (is, finish_round) (code, logged ∙ ap₂ (λ a b. checked a b target) errors verified, files)
Reported-of_Ends world target es (threw v x) q e (s, is, errors) =
    let (code, logged) = failed-errors x s.metrics in
    rw (is, finish_round) (code, logged ∙ ap (λ a. a ++ exception x ∷ []) errors)

module _ (fuel : ℕ) (world : World) (name : String) (target n : ℕ) (f : File)
    (m : MetricsAggregator Message) (sane : Sane world name n f)
    (enough : length f.bytes < fuel) where
  fresh-Sending : Sending [] (start m (fresh name n f))
  fresh-Sending = record {
    delivered = fresh-Delivered name n f sane.sound sane.chunked;
    sent = omega arith;
    room = omega (arith, sane.small);
    verified = refl;
  }

  -- Where the connection is made, the test file is found and reads to its end with fewer than
  -- 2 ^ 64 bytes, the chunk size is above 0, and `doneStreaming` returns: whatever the server answers
  -- or raises, the run is over within fuel above the file's size, and its exit status, its logged errors and, where
  -- no call threw, its files are those of the verdict that judges the answers to the chunks of the
  -- file, the chunks cut and the answers compared independently of the client.
  pub session-judge :
      (r : Report) × (session fuel world name target n m ≡ some r)
      × Reported (judge world.calls 0 0 (chunks_of n f.bytes)) m.errors target r
  unfolding session run_reader
  session-judge =
      let (q, is, ends) =
        transfer-judge fuel world.calls (start m (fresh name n f)) [] fresh-Sending enough in
      (
        finish_round world target q,
        let reader = make-fresh world.probed world.opened name n f sane.probes sane.opens in
            rw (sane.connects, session)
              (ap (run_reader fuel world target m) reader ∙ rw (is, run_reader)),
        Reported-of_Ends world target m.errors _ q sane.finishes ends,
      )

Answered-of_honest :
    (calls : Calls) (k : ℕ) (cs : List Bytes)
    → ((k : ℕ) (c : Bytes) → calls.process_chunk k c ≡ replied (process_chunk c))
    → Answered calls k cs
Answered-of_honest calls k [] honest = tt
Answered-of_honest calls k (c ∷ cs) honest =
    (honest k c ∙ ap replied (process_chunk-reverse c), Answered-of_honest calls (suc k) cs honest)

payload-chunks_of : (n : ℕ) (xs : Bytes) → 0 < n → payload (chunks_of n xs) ≡ length xs
payload-chunks_of n xs p = payload-flatten (chunks_of n xs) ∙ ap length (flatten-chunks_of n xs p)

-- Where the connection is made, the test file is found and reads to its end with fewer than 2 ^ 64
-- bytes, the chunk size is above 0, and `doneStreaming` returns: against the handler of the server
-- of this program, a run over a file of the expected size ends (within fuel above that size), exits
-- with status 0, logs nothing beyond what was logged before, and saves its files under the names of
-- success.
pub session-honest :
    (fuel : ℕ) (world : World) (name : String) (n : ℕ) (f : File) (m : MetricsAggregator Message)
    → Sane world name n f
    → length f.bytes < fuel
    → ((k : ℕ) (c : Bytes) → world.calls.process_chunk k c ≡ replied (process_chunk c))
    → (r : Report) × (session fuel world name (length f.bytes) n m ≡ some r)
      × (r.exit_code ≡ 0)
      × (r.metrics.errors ≡ m.errors)
      × (r.files ≡ success_files)
session-honest fuel world name n f m sane enough honest =
    let chunks : List Bytes = chunks_of n f.bytes in
    let (r, is, reported) = session-judge fuel world name (length f.bytes) n f m sane enough in
    let fine : judge world.calls 0 0 chunks ≡ all_right (length f.bytes) =
      judge-Answered world.calls 0 0 chunks (Answered-of_honest world.calls 0 chunks honest)
      ∙ ap all_right (omega (arith, payload-chunks_of n f.bytes sane.chunked)) in
    let (code, errors, files) = subst (λ v. Reported v m.errors (length f.bytes) r) fine reported in
    (r, is, code, errors ∙ rw (==_refl (length f.bytes), if◌then◌else◌), files)

checked-nil :
    (es : List Message) (v target : ℕ) → checked es v target ≡ [] → (es ≡ []) × (v ≡ target)
checked-nil [] v target h = elim (Bool-cases (v == target)) [
  | inl e ↦ (refl, ==_eq v target e)
  | inr e ↦ absurd (append_cons_ne_nil [] _ [] (rw (e, if◌then◌else◌) at h))
]
checked-nil (x ∷ xs) v target h = elim (Bool-cases (v == target)) [
  | inl e ↦ absurd (append_cons_ne_nil [] x xs (rw (e, if◌then◌else◌) at h))
  | inr e ↦ absurd (append_cons_ne_nil (x ∷ xs) _ [] (rw (e, if◌then◌else◌) at h))
]

clean-all_right :
    (v : Verdict) (es : List Message) (target : ℕ) (r : Report)
    → Reported v es target r
    → r.metrics.errors ≡ []
    → (w : ℕ) × (v ≡ all_right w) × (w ≡ target)
clean-all_right (all_right w) es target r (code, errors, files) clean =
    (w, refl, (checked-nil es w target (sym errors ∙ clean)).1)
clean-all_right (wrong w m) es target r (code, errors, files) clean =
    absurd (append_cons_ne_nil es m [] (checked-nil (es ++ m ∷ []) w target (sym errors ∙ clean)).0)
clean-all_right (threw w e) es target r (code, errors) clean =
    absurd (append_cons_ne_nil es (exception e) [] (sym errors ∙ clean))

-- Where the connection is made, the test file is found and reads to its end with fewer than 2 ^ 64
-- bytes, the chunk size is above 0, and `doneStreaming` returns, whatever the server answers: if a
-- run ends with no error logged, then the file had the expected size, and each of its chunks, in
-- order, was answered by exactly its reversal.
pub session_sound :
    (fuel : ℕ) (world : World) (name : String) (target n : ℕ) (f : File)
    (m : MetricsAggregator Message) (r : Report)
    → Sane world name n f
    → length f.bytes < fuel
    → session fuel world name target n m ≡ some r
    → r.metrics.errors ≡ []
    → (length f.bytes ≡ target) × Answered world.calls 0 (chunks_of n f.bytes)
session_sound fuel world name target n f m r sane enough is clean =
    let (r', is', reported) = session-judge fuel world name target n f m sane enough in
    let same : r' ≡ r = eq_of_some (sym is' ∙ is) in
    let (w, fine, all) =
      clean-all_right _ m.errors target r' reported (ap (λ q. q.metrics.errors) same ∙ clean) in
    let (answered, sum) = judge-all_right world.calls 0 0 w (chunks_of n f.bytes) fine in
    (omega (arith, sum, all, payload-chunks_of n f.bytes sane.chunked), answered)

-- Where the connection is made, the test file is found and reads to its end with fewer than 2 ^ 64
-- bytes, the chunk size is above 0, and `doneStreaming` returns (and with fuel above the file's
-- size), the first wrong answer stops the run: the chunks before it count as verified, the mismatch is
-- logged with the number of the chunk, followed by the warning on missing bytes unless those before
-- it happen to be the expected number, and the run exits with status 0 all the same.
pub session-mismatch :
    (fuel : ℕ) (world : World) (name : String) (target n : ℕ) (f : File)
    (m : MetricsAggregator Message) (before after : List Bytes) (c response : Bytes)
    → Sane world name n f
    → length f.bytes < fuel
    → chunks_of n f.bytes ≡ before ++ c ∷ after
    → Answered world.calls 0 before
    → world.calls.process_chunk (length before) c ≡ replied response
    → response ≢ reverse c
    → (r : Report) × (session fuel world name target n m ≡ some r)
      × (r.exit_code ≡ 0)
      × (r.metrics.errors
          ≡ checked
              (m.errors ++ mismatch (length before) c response ∷ [])
              (length (flatten before))
              target)
session-mismatch fuel world name target n f m before after c response sane enough cut right bad ne =
    let (r, is, reported) = session-judge fuel world name target n f m sane enough in
    let z : 0 + length before ≡ length before = omega arith in
    let found : judge world.calls 0 0 (chunks_of n f.bytes)
        ≡ wrong (length (flatten before)) (mismatch (length before) c response) =
      ap (judge world.calls 0 0) cut
      ∙ judge-wrong world.calls 0 0 before after c response right (rw z bad) ne
      ∙ ap₂ wrong (omega (arith, payload-flatten before)) (ap (λ k. mismatch k c response) z) in
    let (code, errors, _) = subst (λ v. Reported v m.errors target r) found reported in
    (r, is, code, errors)
