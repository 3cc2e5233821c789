-- ===== src/Tcp/Client/Outcomes.antt =====
-- What the TCP client's run comes to, whatever its operations complete with.
use grpccapnp.Base.{
  ℕ, ◌^◌, ◌<◌, ◌≡◌, refl, sym, ◌∙◌, subst, inl, inr, Bytes, List, [], ◌∷◌, ◌++◌, String, Bool,
  false, some, arith, length, map, append-nil, append_assoc, reverse,
}
use grpccapnp.Base.Chunks.{chunks_of, length-chunks_of}
use grpccapnp.Common.Double.{Double}
use grpccapnp.Common.Stream.{File, IsSound}
use grpccapnp.Tcp.Messaging.{Header}
use grpccapnp.Tcp.Server.{Outcome}
use grpccapnp.Tcp.Client.{
  Waiting, resolving, connecting, reading_header, reading_body, writing, nothing, unwound, Clock,
  Client, make, on_resolved, on_connected, on_written, on_header, on_body,
}
use grpccapnp.Tcp.Client.Progress.{new-Tracked, IsDone, At, Stands}
use grpccapnp.Tcp.Client.Handlers.{
  header_answer, body_answer, on_resolved-Stands, on_connected-Stands, on_written-Stands,
  on_header-Stands, on_body-Stands,
}
use grpccapnp.Tcp.Client.Opening.{fresh, chunks_le, make-IsSending}

-- The completion of an operation of the client.
pub data Completion : Type 0 where
  resolved written : Outcome (Unit {0}) → Completion
  connected : Outcome Bool → Completion
  header_read : Outcome Header → Completion
  body_read : Outcome Bytes → Completion

module _ (double : Double) where
  -- Only the operation that the client waits for completes.
  unfoldable pub complete : Clock → Waiting → Completion → Client double → Client double
  complete clock resolving (resolved o) c = on_resolved double clock o c
  complete clock connecting (connected o) c = on_connected double clock o c
  complete clock (writing buffers) (written o) c = on_written double clock o c
  complete clock reading_header (header_read o) c = on_header double clock o c
  complete clock reading_body (body_read o) c = on_body double clock o c
  complete clock _ _ c = c

  unfoldable pub complete_all : List (Clock × Completion) → Client double → Client double
  complete_all [] c = c
  complete_all ((clock, o) ∷ os) c = complete_all os (complete clock c.waiting o c)

-- What a completion adds to the bodies received.
abbrev pub answer : Waiting → Completion → List Bytes
answer reading_header (header_read o) = header_answer o
answer reading_body (body_read o) = body_answer o
answer _ _ = []

module _ (double : Double) where
  unfoldable pub answers : List (Clock × Completion) → Client double → List Bytes
  unfolding complete
  answers [] c = []
  answers ((clock, o) ∷ os) c =
      answer c.waiting o ++ answers os (complete double clock c.waiting o c)

module _ (double : Double) (n len total : ℕ) (expected : List Bytes) where
  nil_answer :
      (past : List Bytes) (c : Client double)
      → Stands double n len total expected past c
      → Stands double n len total expected (past ++ []) c
  nil_answer past c h =
      subst (λ q. Stands double n len total expected q c) (sym (append-nil past)) h

  kept :
      (past : List Bytes) (w : Waiting) (c : Client double)
      → c.waiting ≡ w
      → At double n len total expected w past c
      → Stands double n len total expected (past ++ []) c
  kept past w c e h =
      nil_answer past c (subst (λ q. At double n len total expected q past c) (sym e) h)

  complete-Stands :
      (clock : Clock) (past : List Bytes) (w : Waiting) (o : Completion) (c : Client double)
      → total < 2 ^ 64
      → c.waiting ≡ w
      → At double n len total expected w past c
      → Stands double n len total expected (past ++ answer w o) (complete double clock w o c)
  unfolding complete
  complete-Stands clock past resolving (resolved o) c small e h =
      nil_answer past _ (on_resolved-Stands double n len total expected clock past o c h)
  complete-Stands clock past resolving (connected o) c small e h = kept past resolving c e h
  complete-Stands clock past resolving (written o) c small e h = kept past resolving c e h
  complete-Stands clock past resolving (header_read o) c small e h = kept past resolving c e h
  complete-Stands clock past resolving (body_read o) c small e h = kept past resolving c e h
  complete-Stands clock past connecting (resolved o) c small e h = kept past connecting c e h
  complete-Stands clock past connecting (connected o) c small e h =
      nil_answer past _ (on_connected-Stands double n len total expected clock past o c h)
  complete-Stands clock past connecting (written o) c small e h = kept past connecting c e h
  complete-Stands clock past connecting (header_read o) c small e h = kept past connecting c e h
  complete-Stands clock past connecting (body_read o) c small e h = kept past connecting c e h
  complete-Stands clock past (writing buffers) (resolved o) c small e h =
      kept past (writing buffers) c e h
  complete-Stands clock past (writing buffers) (connected o) c small e h =
      kept past (writing buffers) c e h
  complete-Stands clock past (writing buffers) (written o) c small e h =
      nil_answer past _ (on_written-Stands double n len total expected clock past o c h)
  complete-Stands clock past (writing buffers) (header_read o) c small e h =
      kept past (writing buffers) c e h
  complete-Stands clock past (writing buffers) (body_read o) c small e h =
      kept past (writing buffers) c e h
  complete-Stands clock past reading_header (resolved o) c small e h =
      kept past reading_header c e h
  complete-Stands clock past reading_header (connected o) c small e h =
      kept past reading_header c e h
  complete-Stands clock past reading_header (written o) c small e h = kept past reading_header c e h
  complete-Stands clock past reading_header (header_read o) c small e h =
      on_header-Stands double n len total expected clock past o c small h
  complete-Stands clock past reading_header (body_read o) c small e h =
      kept past reading_header c e h
  complete-Stands clock past reading_body (resolved o) c small e h = kept past reading_body c e h
  complete-Stands clock past reading_body (connected o) c small e h = kept past reading_body c e h
  complete-Stands clock past reading_body (written o) c small e h = kept past reading_body c e h
  complete-Stands clock past reading_body (header_read o) c small e h = kept past reading_body c e h
  complete-Stands clock past reading_body (body_read o) c small e h =
      on_body-Stands double n len total expected clock past o c small h
  complete-Stands clock past nothing (resolved o) c small e h = kept past nothing c e h
  complete-Stands clock past nothing (connected o) c small e h = kept past nothing c e h
  complete-Stands clock past nothing (written o) c small e h = kept past nothing c e h
  complete-Stands clock past nothing (header_read o) c small e h = kept past nothing c e h
  complete-Stands clock past nothing (body_read o) c small e h = kept past nothing c e h
  complete-Stands clock past unwound (resolved o) c small e h = kept past unwound c e h
  complete-Stands clock past unwound (connected o) c small e h = kept past unwound c e h
  complete-Stands clock past unwound (written o) c small e h = kept past unwound c e h
  complete-Stands clock past unwound (header_read o) c small e h = kept past unwound c e h
  complete-Stands clock past unwound (body_read o) c small e h = kept past unwound c e h

  complete_all-Stands :
      (past : List Bytes) (os : List (Clock × Completion)) (c : Client double)
      → total < 2 ^ 64
      → Stands double n len total expected past c
      → Stands double n len total expected (past ++ answers double os c) (complete_all double os c)
  unfolding complete_all answers
  complete_all-Stands past [] c small h = nil_answer past c h
  complete_all-Stands past ((clock, o) ∷ os) c small h =
      let now = past ++ answer c.waiting o in
      let c' = complete double clock c.waiting o c in
      subst (λ q. Stands double n len total expected q (complete_all double os c'))
        (append_assoc past (answer c.waiting o) (answers double os c'))
        (complete_all-Stands now os c' small
          (complete-Stands clock past c.waiting o c small refl h))

module _ (double : Double) where
  said :
      (len total : ℕ) (expected past : List Bytes) (n : ℕ) (w : Waiting) (c : Client double)
      → At double n len total expected w past c
      → c.finished ≡ some false
      → IsDone double n len total expected past c
  said len total expected past n resolving c h e = absurd (ground (arith, e, h.silent))
  said len total expected past n connecting c h e = absurd (ground (arith, e, h.silent))
  said len total expected past n (writing buffers) c h e = absurd (ground (arith, e, h.silent))
  said len total expected past n reading_header c h e = absurd (ground (arith, e, h.silent))
  said len total expected past n reading_body c h e = absurd (ground (arith, e, h.silent))
  said len total expected past n unwound c h e = absurd (ground (arith, e, h))
  said len total expected past n nothing c (inl h) e = h
  said len total expected past n nothing c (inr h) e = absurd (ground (arith, e, h.said))

  -- What the client has come to when it says that no error occurred.
  pub finished-IsDone :
      (f : File) (n : ℕ) (name : String) (os : List (Clock × Completion))
      → IsSound f
      → 0 < n
      → length f.bytes < 2 ^ 64
      → (complete_all double os (fresh double f n name)).finished ≡ some false
      → IsDone double n
          (length f.bytes)
          (length (chunks_of n f.bytes))
          (map reverse (chunks_of n f.bytes))
          (answers double os (fresh double f n name))
          (complete_all double os (fresh double f n name))
  unfolding make
  finished-IsDone f n name os s p small e =
      let chunks = chunks_of n f.bytes in
      let len = length f.bytes in
      let expected = map reverse chunks in
      let c = complete_all double os (fresh double f n name) in
      let stands =
        complete_all-Stands double n len (length chunks) expected [] os (fresh double f n name)
          (omega (arith, chunks_le double n len (length chunks) (length-chunks_of n f.bytes p) p))
          (make-IsSending double f n _ s p (new-Tracked double name f.size n)) in
      said len (length chunks) expected _ n c.waiting c stands e

  -- For a file of fewer than 2 ^ 64 bytes that reads to its end, and a chunk size above 0, whatever
  -- the operations complete with and whenever: if the client says at its end that no error occurred,
  -- then the bodies that it received are the reversals of the chunks of the file, all of them and in
  -- their order, the aggregator has that many chunks processed and verified, and the bytes processed
  -- are those of the file.
  pub finished_sound :
      (f : File) (n : ℕ) (name : String) (os : List (Clock × Completion))
      → IsSound f
      → 0 < n
      → length f.bytes < 2 ^ 64
      → (complete_all double os (fresh double f n name)).finished ≡ some false
      → let m = (complete_all double os (fresh double f n name)).metrics in
        (answers double os (fresh double f n name) ≡ map reverse (chunks_of n f.bytes))
        × (m.processed_chunks_count ≡ length (chunks_of n f.bytes))
        × (m.verified_chunks_count ≡ length (chunks_of n f.bytes))
        × (m.total_bytes_processed ≡ length f.bytes)
  finished_sound f n name os s p small e =
      let h = finished-IsDone f n name os s p small e in
      let m = h.tracked in
      (
        h.answers,
        m.consistent.processed ∙ m.count,
        m.consistent.verified ∙ m.verified,
        omega (arith, m.consistent.bytes, m.bytes),
      )
