-- ===== src/Tcp/Server/Answers.antt =====
-- The answers of a session to a stream of messages.
use grpccapnp.Base.{
  ℕ, zero, suc, ◌+◌, ◌*◌, ◌^◌, ◌≤◌, ◌<◌, ◌≡◌, refl, ap, ◌∙◌, ◌⊎◌, inl, inr, Bytes, List, [], ◌∷◌,
  ◌++◌, map, reverse, append_assoc, Option, none, some, arith, length, All, if◌then◌else◌, ◌%◌,
  ==_refl,
}
use mathlib.Core.Option
use native.Mathlib.Decide.{dec_le}
use grpccapnp.Tcp.Reversal.{reverse_vector_content}
use grpccapnp.Tcp.Config.{chunk_size}
use grpccapnp.Tcp.Messaging.{Header, encode_length, prepare_message, parse_header}
use grpccapnp.Tcp.Messaging.Stream.{
  receive_header, receive_body, frame, frames, receive_header-frame, receive_body-append,
  receive_body-short, parse_frame,
}
use grpccapnp.Tcp.Server.{
  Outcome, Session, reading_header, reading_body, writing, closed, resize, on_header, on_body,
  on_written,
}
use grpccapnp.Tcp.Server.Connection.{outcome, behind, serve}

pub length-resize : (n : ℕ) (bytes : Bytes) → length (resize n bytes) ≡ n
unfolding resize
length-resize zero bytes = refl
length-resize (suc n) [] = ap suc (length-resize n [])
length-resize (suc n) (b ∷ bytes) = ap suc (length-resize n bytes)

abbrev pub at_header : Bytes → Session
at_header buffer = record { pending = reading_header; read_body_buffer = buffer }

-- No answer follows: the header is cut off or announces too much, or the body is cut off.
abbrev pub Stops : Bytes → Type 0
Stops tail =
    (receive_header tail ≡ none)
    ⊎ ((h : Header) × (rest : Bytes) × (receive_header tail ≡ some (h, rest))
        × ((chunk_size * 2 < parse_header h) ⊎ (length rest < parse_header h)))

on_header_empty :
    (h : Header) (buffer : Bytes)
    → parse_header h ≡ 0
    → on_header (Outcome.done h) (at_header buffer)
      ≡ record { pending = writing (prepare_message []); read_body_buffer = [] }
unfolding on_header
on_header_empty h buffer e = rw e refl

pub on_header_fits :
    (h : Header) (buffer : Bytes)
    → 0 < parse_header h
    → parse_header h ≤ chunk_size * 2
    → on_header (Outcome.done h) (at_header buffer)
      ≡ record { pending = reading_body; read_body_buffer = resize (parse_header h) buffer }
unfolding on_header
on_header_fits h buffer some_body fits = ground arith

on_header_excessive :
    (h : Header) (buffer : Bytes)
    → chunk_size * 2 < parse_header h
    → on_header (Outcome.done h) (at_header buffer)
      ≡ record { pending = closed; read_body_buffer = buffer }
unfolding on_header
on_header_excessive h buffer too_long = ground arith

serve_header :
    (fuel : ℕ) (buffer input rest : Bytes) (h : Header)
    → receive_header input ≡ some (h, rest)
    → serve (suc fuel) (at_header buffer) input
      ≡ serve fuel (on_header (Outcome.done h) (at_header buffer)) rest
unfolding serve
serve_header fuel buffer input rest h e = rw e refl

-- What a session does with one message.
abbrev answered : Bytes → Option Bytes → Option Bytes
answered payload sent = Option.map (λ later. frame (reverse payload) ++ later) sent

serve_empty :
    (fuel : ℕ) (buffer rest : Bytes)
    → serve (suc (suc fuel)) (at_header buffer) (frame [] ++ rest)
      ≡ answered [] (serve fuel (at_header []) rest)
unfolding serve on_written
serve_empty fuel buffer rest =
    serve_header (suc fuel) buffer (frame [] ++ rest) rest _ (receive_header-frame [] rest)
    ∙ ap (λ s. serve (suc fuel) s rest) (on_header_empty _ buffer (parse_frame [] (omega arith)))

abbrev pub at_body : Bytes → Session
at_body buffer = record { pending = reading_body; read_body_buffer = buffer }

-- A step that reads a body, for what the read comes to.
serve_body_read :
    (fuel : ℕ) (buffer input : Bytes) (read : Option (Bytes × Bytes))
    → receive_body (length buffer) input ≡ read
    → serve (suc fuel) (at_body buffer) input
      ≡ serve fuel (on_body (outcome read) (at_body buffer)) (behind read)
unfolding serve
serve_body_read fuel buffer input read e =
    ap (λ q. serve fuel (on_body (outcome q) (at_body buffer)) (behind q)) e

pub on_body_whole :
    (buffer payload : Bytes)
    → length buffer ≡ length payload
    → on_body (Outcome.done payload) (at_body buffer) ≡ record {
      pending = writing (prepare_message (reverse payload));
      read_body_buffer = reverse payload;
    }
unfolding on_body reverse_vector_content
on_body_whole buffer payload e = rw (e, ==_refl (length payload), if◌then◌else◌) refl

serve_body :
    (fuel : ℕ) (buffer payload rest : Bytes)
    → length buffer ≡ length payload
    → serve (suc (suc fuel)) (at_body buffer) (payload ++ rest)
      ≡ answered payload (serve fuel (at_header (reverse payload)) rest)
unfolding serve on_written
serve_body fuel buffer payload rest e =
    serve_body_read (suc fuel) buffer (payload ++ rest) (some (payload, rest))
      (ap (λ n. receive_body n (payload ++ rest)) e ∙ receive_body-append payload rest)
    ∙ ap (λ s. serve (suc fuel) s rest) (on_body_whole buffer payload e)

serve_message :
    (fuel : ℕ) (buffer payload rest : Bytes)
    → 0 < length payload
    → length payload ≤ chunk_size * 2
    → serve (suc (suc (suc fuel))) (at_header buffer) (frame payload ++ rest)
      ≡ answered payload (serve fuel (at_header (reverse payload)) rest)
serve_message fuel buffer payload rest some_body fits =
    let h = encode_length (length payload % 2 ^ 32) in
    let size : parse_header h ≡ length payload = parse_frame payload (omega arith) in
    serve_header (suc (suc fuel)) buffer (frame payload ++ rest) (payload ++ rest) h
      (receive_header-frame payload rest)
    ∙ ap (λ s. serve (suc (suc fuel)) s (payload ++ rest))
        (on_header_fits h buffer (omega (arith, size)) (omega (arith, size)))
    ∙ serve_body fuel (resize (parse_header h) buffer) payload rest
        (length-resize (parse_header h) buffer ∙ size)

serve_no_header :
    (fuel : ℕ) (buffer tail : Bytes)
    → receive_header tail ≡ none
    → serve (suc (suc fuel)) (at_header buffer) tail ≡ some []
unfolding serve on_header
serve_no_header fuel buffer tail e =
    ap (λ q. serve (suc fuel) (on_header (outcome q) (at_header buffer)) (behind q)) e

serve_excessive :
    (fuel : ℕ) (buffer rest : Bytes) (h : Header)
    → chunk_size * 2 < parse_header h
    → serve (suc fuel) (on_header (Outcome.done h) (at_header buffer)) rest ≡ some []
unfolding serve
serve_excessive fuel buffer rest h too_long =
    ap (λ s. serve (suc fuel) s rest) (on_header_excessive h buffer too_long)

serve_short :
    (fuel : ℕ) (buffer rest : Bytes) (h : Header)
    → length rest < parse_header h
    → parse_header h ≤ chunk_size * 2
    → serve (suc (suc fuel)) (on_header (Outcome.done h) (at_header buffer)) rest ≡ some []
unfolding serve on_body
serve_short fuel buffer rest h short fits =
    let sized = length-resize (parse_header h) buffer in
    ap (λ s. serve (suc (suc fuel)) s rest) (on_header_fits h buffer (omega arith) fits)
    ∙ serve_body_read (suc fuel) (resize (parse_header h) buffer) rest none
        (ap (λ n. receive_body n rest) sized ∙ receive_body-short (parse_header h) rest short)

serve-Stops :
    (fuel : ℕ) (buffer tail : Bytes)
    → Stops tail
    → serve (suc (suc (suc fuel))) (at_header buffer) tail ≡ some []
serve-Stops fuel buffer tail (inl e) = serve_no_header (suc fuel) buffer tail e
serve-Stops fuel buffer tail (inr (h, rest, e, inl too_long)) =
    serve_header (suc (suc fuel)) buffer tail rest h e
    ∙ serve_excessive (suc fuel) buffer rest h too_long
serve-Stops fuel buffer tail (inr (h, rest, e, inr short)) =
    serve_header (suc (suc fuel)) buffer tail rest h e
    ∙ (elim (dec_le (parse_header h) (chunk_size * 2)) [
      | yes fits ↦ serve_short fuel buffer rest h short fits
      | no long ↦ serve_excessive (suc fuel) buffer rest h (omega (arith, long))
    ])

-- Where every message is at most twice the chunk size long, and what follows the messages is a
-- header or a body that is cut off or a header that announces more than that, a session answers each
-- message, in order, by its reversal, writes nothing else, and ends.
pub serve-frames :
    (fuel : ℕ) (buffer : Bytes) (payloads : List Bytes) (tail : Bytes)
    → All (λ p. length p ≤ chunk_size * 2) payloads
    → Stops tail
    → 3 * length payloads + 3 ≤ fuel
    → serve fuel (at_header buffer) (frames payloads ++ tail) ≡ some (frames (map reverse payloads))
serve-frames (suc (suc (suc fuel))) buffer [] tail fit stops enough =
    serve-Stops fuel buffer tail stops
serve-frames (suc (suc (suc fuel))) buffer ([] ∷ payloads) tail fit stops enough =
    ap (λ input. serve (suc (suc (suc fuel))) (at_header buffer) input)
      (append_assoc (frame []) (frames payloads) tail)
    ∙ serve_empty (suc fuel) buffer (frames payloads ++ tail)
    ∙ ap (answered []) (serve-frames (suc fuel) [] payloads tail fit.1 stops (omega arith))
serve-frames (suc (suc (suc fuel))) buffer ((b ∷ bs) ∷ payloads) tail fit stops enough =
    ap (λ input. serve (suc (suc (suc fuel))) (at_header buffer) input)
      (append_assoc (frame (b ∷ bs)) (frames payloads) tail)
    ∙ serve_message fuel buffer (b ∷ bs) (frames payloads ++ tail) (omega arith) fit.0
    ∙ ap (answered (b ∷ bs))
        (serve-frames fuel (reverse (b ∷ bs)) payloads tail fit.1 stops (omega arith))
serve-frames fuel buffer payloads tail fit stops enough = absurd (omega arith)
