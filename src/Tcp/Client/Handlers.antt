-- ===== src/Tcp/Client/Handlers.antt =====
-- What each completion handler of the TCP client makes of where the client stands.
use grpccapnp.Base.{
  ℕ, ◌*◌, ◌^◌, ◌<◌, ◌≡◌, refl, sym, ap, ◌∙◌, subst, ◌⊎◌, inl, inr, Bytes, List, [], ◌∷◌, ◌++◌, Bool,
  true, false, not, arith, length, ltb, ◌==◌, append-nil, ==_eq, Bool-cases, if◌then◌else◌,
}
use grpccapnp.Common.Double.{Double}
use grpccapnp.Tcp.Config.{chunk_size}
use grpccapnp.Tcp.Messaging.{Header, parse_header}
use grpccapnp.Tcp.Metrics.{start_timer}
use grpccapnp.Tcp.Metrics.Records.{start_timer-Same}
use grpccapnp.Tcp.Server.{ErrorCode, operation_aborted, other, Outcome, done, failed, resize}
use grpccapnp.Tcp.Client.{
  reading_header, reading_body, Clock, Client, stop_client_operations, handle_received_chunk_data,
  on_resolved, on_connected, on_written, on_header, on_body,
}
use grpccapnp.Tcp.Client.Progress.{IsSending, IsWaiting, Stands, Goes, Goes-Stands, Same-Tracked}
use grpccapnp.Tcp.Client.Sending.{stop_failed, send_next_chunk-Goes}
use grpccapnp.Tcp.Client.Receiving.{again, handle_received-Stands}

-- The body that a completion brings. A body of 0 bytes is received with its header.
abbrev pub body_answer : Outcome Bytes → List Bytes
body_answer (failed ec) = []
body_answer (done body) = body ∷ []

abbrev pub header_answer : Outcome Header → List Bytes
header_answer (failed ec) = []
header_answer (done header) = if parse_header header == 0 then [] ∷ [] else []

module _ (double : Double) (n len total : ℕ) (expected : List Bytes) (clock : Clock) where
  -- Behind a test that fails, and behind one that holds.
  beyond :
      (answers : List Bytes) (test : Bool) (c c' : Client double)
      → test ≡ false
      → Stands double n len total expected answers c'
      → Stands double n len total expected answers (if test then c else c')
  beyond answers test c c' e h =
      subst (Stands double n len total expected answers) (sym (ap (λ q. if q then c else c') e)) h

  caught :
      (answers : List Bytes) (test : Bool) (c c' : Client double)
      → test ≡ true
      → Stands double n len total expected answers c
      → Stands double n len total expected answers (if test then c else c')
  caught answers test c c' e h =
      subst (Stands double n len total expected answers) (sym (ap (λ q. if q then c else c') e)) h

  pub on_resolved-Stands :
      (past : List Bytes) (o : Outcome (Unit {0})) (c : Client double)
      → IsSending double n len total expected past c
      → Stands double n len total expected past (on_resolved double clock o c)
  unfolding on_resolved
  on_resolved-Stands past (failed ec) c h =
      stop_failed double n len total expected clock past c h.running
  on_resolved-Stands past (done _) c h = record {
    rest = h.rest;
    sent_bytes = h.sent_bytes;
    running = h.running;
    silent = h.silent;
    tracked = h.tracked;
    all_bytes = h.all_bytes;
    answers = h.answers;
    all_chunks = h.all_chunks;
    target = h.target;
    behind = h.behind;
  }

  pub connected-Goes :
      (past : List Bytes) (c : Client double)
      → IsSending double n len total expected past c
      → Goes double n len total expected c.chunks_sent past
          (on_connected double clock (done true) c)
  unfolding on_connected
  connected-Goes past c h =
      let m = start_timer double clock.at_connect c.metrics in
      send_next_chunk-Goes double n len total expected clock past
        (record c { socket_open = true; metrics = m })
        (record {
          rest = h.rest;
          sent_bytes = h.sent_bytes;
          running = h.running;
          silent = h.silent;
          tracked =
              Same-Tracked double c.chunks_sent h.sent_bytes c.metrics m
                (start_timer-Same double clock.at_connect c.metrics) h.tracked;
          all_bytes = h.all_bytes;
          answers = h.answers;
          all_chunks = h.all_chunks;
          target = h.target;
          behind = h.behind;
        })

  pub on_connected-Stands :
      (past : List Bytes) (o : Outcome Bool) (c : Client double)
      → IsSending double n len total expected past c
      → Stands double n len total expected past (on_connected double clock o c)
  unfolding on_connected
  on_connected-Stands past (failed ec) c h =
      stop_failed double n len total expected clock past c h.running
  on_connected-Stands past (done false) c h = h.silent
  on_connected-Stands past (done true) c h =
      Goes-Stands double n len total expected _ past _ (connected-Goes past c h)

  pub on_written-Stands :
      (past : List Bytes) (o : Outcome (Unit {0})) (c : Client double)
      → IsWaiting double n len total expected past c
      → Stands double n len total expected past (on_written double clock o c)
  unfolding on_written
  on_written-Stands past (failed ec) c h =
      beyond past c.operations_stopped c _ h.running
        (stop_failed double n len total expected clock past c h.running)
  on_written-Stands past (done _) c h = beyond past c.operations_stopped c _ h.running (
      beyond past c.operations_stopped c _ h.running
        (again double n len total expected clock past reading_header c.read_body_buffer c h))

  pub on_body-Stands :
      (past : List Bytes) (o : Outcome Bytes) (c : Client double)
      → total < 2 ^ 64
      → IsWaiting double n len total expected past c
      → Stands double n len total expected (past ++ body_answer o) (on_body double clock o c)
  unfolding on_body
  on_body-Stands past (failed ec) c small h =
      beyond (past ++ []) c.operations_stopped c _ h.running
        (stop_failed double n len total expected clock (past ++ []) c h.running)
  on_body-Stands past (done body) c small h =
      elim (Bool-cases (length body == length c.read_body_buffer)) [
        | inl whole ↦ beyond (past ++ body ∷ []) c.operations_stopped c _ h.running (
            beyond (past ++ body ∷ []) _ _ _ (ap not whole) (
              handle_received-Stands double n len total expected clock past
                (record c { read_body_buffer = body }) small
                (again double n len total expected clock past c.waiting body c h)))
        | inr short ↦ beyond (past ++ body ∷ []) c.operations_stopped c _ h.running (
            caught (past ++ body ∷ []) _ _ _ (ap not short)
              (stop_failed double n len total expected clock (past ++ body ∷ []) c h.running))
      ]

  -- A header that was read: the body is taken in, or there is none, or it is too long.
  header_cases :
      (header : Header) (c : Client double)
      → c.operations_stopped ≡ false
      → let c' = record c { read_body_buffer = resize (parse_header header) c.read_body_buffer } in
        let next = on_header double clock (done header) c in
        (next ≡ stop_client_operations double clock true c)
        ⊎ ((next ≡ handle_received_chunk_data double clock c')
            × ((parse_header header == 0) ≡ true))
        ⊎ ((next ≡ record c' { waiting = reading_body }) × ((parse_header header == 0) ≡ false))
  unfolding on_header
  header_cases header c running = elim (Bool-cases (ltb (chunk_size * 2) (parse_header header))) [
    | inl long ↦ inl (simp (running, long, if◌then◌else◌) refl)
    | inr fits ↦ elim (Bool-cases (parse_header header == 0)) [
      | inl empty ↦ inr (inl (simp (running, fits, empty, if◌then◌else◌) refl, empty))
      | inr full ↦ inr (inr (simp (running, fits, full, if◌then◌else◌) refl, full))
    ]
  ]

  -- The other side closed the connection: an error, for more is waited for.
  closed-Stands :
      (past now : List Bytes) (early : Bool) (c : Client double)
      → early ≡ ltb c.chunks_sent c.total_chunks_to_send
      → IsWaiting double n len total expected past c
      → Stands double n len total expected now (stop_client_operations double clock early c)
  closed-Stands past now true c e h = stop_failed double n len total expected clock now c h.running
  closed-Stands past now false c e h = absurd (ground (arith, e, h.all_chunks, h.target))

  -- A header of a body of 0 bytes is an answer of its own.
  header_answer_empty :
      (header : Header) (c : Client double)
      → (parse_header header == 0) ≡ true
      → header_answer (done header) ≡ resize (parse_header header) c.read_body_buffer ∷ []
  unfolding resize
  header_answer_empty header c e =
      ap (λ q. if q then [] ∷ [] else []) e
      ∙ ap (λ q. resize q c.read_body_buffer ∷ []) (sym (==_eq (parse_header header) 0 e))

  pub on_header-Stands :
      (past : List Bytes) (o : Outcome Header) (c : Client double)
      → total < 2 ^ 64
      → IsWaiting double n len total expected past c
      → Stands double n len total expected (past ++ header_answer o) (on_header double clock o c)
  unfolding on_header
  on_header-Stands past (failed ErrorCode.eof) c small h =
      beyond (past ++ []) c.operations_stopped c _ h.running
        (closed-Stands past (past ++ []) (ltb c.chunks_sent c.total_chunks_to_send) c refl h)
  on_header-Stands past (failed operation_aborted) c small h =
      beyond (past ++ []) c.operations_stopped c _ h.running
        (stop_failed double n len total expected clock (past ++ []) c h.running)
  on_header-Stands past (failed other) c small h =
      beyond (past ++ []) c.operations_stopped c _ h.running
        (stop_failed double n len total expected clock (past ++ []) c h.running)
  on_header-Stands past (done header) c small h =
      let buffer = resize (parse_header header) c.read_body_buffer in
      let now = past ++ header_answer (done header) in
      elim (header_cases header c h.running) [
        | inl e ↦
            subst (Stands double n len total expected now) (sym e)
              (stop_failed double n len total expected clock now c h.running)
        | inr (inl (e, empty)) ↦ subst (Stands double n len total expected now) (sym e) (
            subst
              (λ q.
                Stands double n len total expected (past ++ q) (
                  handle_received_chunk_data double clock (record c { read_body_buffer = buffer })))
              (sym (header_answer_empty header c empty))
              (handle_received-Stands double n len total expected clock past
                (record c { read_body_buffer = buffer }) small
                (again double n len total expected clock past c.waiting buffer c h)))
        | inr (inr (e, full)) ↦
            subst
              (λ q. Stands double n len total expected q (on_header double clock (done header) c))
              (sym (append-nil past) ∙ ap (λ q. past ++ (if q then [] ∷ [] else [])) (sym full))
              (subst (Stands double n len total expected past) (sym e)
                (again double n len total expected clock past reading_body buffer c h))
      ]
