-- ===== src/Common/ChunkReader/Reading.antt =====
-- What successive calls of `next_chunk` deliver.
use grpccapnp.Base.{
  ◌+◌, ◌≤◌, ◌<◌, ◌≡◌, refl, sym, ap, ◌∙◌, ◌⊎◌, inl, inr, true, false, [], ◌++◌, arith, Bytes,
  length, take, drop, length-take, length-append, take-append-drop, take-all, drop-all, Bool-cases,
  ltb, ltb→lt, ltb→le, List-cases, append_assoc, append-nil,
}
use grpccapnp.Common.Stream.{good}
use grpccapnp.Common.ChunkReader.{ChunkReader, next_chunk}

-- The reader has delivered `seen`, of a file that reads to its end.
pub record Delivered (seen : Bytes) (r : ChunkReader) : Type 0 where
  pub is_open : r.file_stream.is_open ≡ true
  pub works : r.file_stream.broken ≡ false
  pub split : seen ++ r.file_stream.rest ≡ r.file_stream.content
  pub counted : r.total_bytes_read ≡ length seen
  pub sized : r.file_size ≡ length r.file_stream.content
  pub chunked : 0 < r.chunk_size
  pub ready : ((r.eof_flag ≡ false) × (good r.file_stream ≡ true)) ⊎ (r.file_stream.rest ≡ [])

-- One call takes the next `chunk_size` bytes, or what is left of them.
pub record Advanced (seen : Bytes) (r r' : ChunkReader) (chunk : Bytes) : Type 0 where
  pub delivered : Delivered (seen ++ chunk) r'
  pub took : chunk ≡ take r.chunk_size r.file_stream.rest
  pub left : r'.file_stream.rest ≡ drop r.chunk_size r.file_stream.rest
  pub same_chunk_size : r'.chunk_size ≡ r.chunk_size
  pub same_content : r'.file_stream.content ≡ r.file_stream.content

next_chunk_at_end :
    (seen : Bytes) (r : ChunkReader)
    → Delivered seen r
    → r.file_stream.rest ≡ []
    → ((next_chunk r).1 ≡ [])
      × ((next_chunk r).0.file_stream.rest ≡ [])
      × ((next_chunk r).0.file_stream.content ≡ r.file_stream.content)
      × ((next_chunk r).0.chunk_size ≡ r.chunk_size)
      × ((next_chunk r).0.file_size ≡ r.file_size)
      × ((next_chunk r).0.total_bytes_read ≡ r.total_bytes_read)
      × ((next_chunk r).0.file_stream.is_open ≡ true)
      × ((next_chunk r).0.file_stream.broken ≡ false)
unfolding next_chunk
next_chunk_at_end seen r d e = ground arith

next_chunk_within :
    (r : ChunkReader)
    → r.file_stream.is_open ≡ true
    → r.eof_flag ≡ false
    → good r.file_stream ≡ true
    → r.chunk_size ≤ length r.file_stream.rest
    → 0 < r.chunk_size
    → next_chunk r ≡ (
      record r {
        file_stream = record r.file_stream {
          rest = drop r.chunk_size r.file_stream.rest;
          gcount = r.chunk_size;
        };
        total_bytes_read = r.total_bytes_read + r.chunk_size;
      },
      take r.chunk_size r.file_stream.rest,
    )
unfolding next_chunk
next_chunk_within r o e g h p = ground arith

next_chunk_last :
    (r : ChunkReader)
    → r.file_stream.is_open ≡ true
    → r.file_stream.broken ≡ false
    → r.eof_flag ≡ false
    → good r.file_stream ≡ true
    → length r.file_stream.rest < r.chunk_size
    → 0 < length r.file_stream.rest
    → next_chunk r ≡ (
      record r {
        file_stream = record r.file_stream {
          rest = [];
          gcount = length r.file_stream.rest;
          eofbit = true;
          failbit = true;
        };
        total_bytes_read = r.total_bytes_read + length r.file_stream.rest;
      },
      r.file_stream.rest,
    )
unfolding next_chunk
next_chunk_last r o w e g h p = ground arith

end_Advanced :
    (seen : Bytes) (r : ChunkReader)
    → Delivered seen r
    → r.file_stream.rest ≡ []
    → Advanced seen r (next_chunk r).0 (next_chunk r).1
end_Advanced seen r d e =
    let (none_left, left, content, chunk, size, total, opened, works) =
      next_chunk_at_end seen r d e in
    record {
      delivered = record {
        is_open = opened;
        works = works;
        split =
            rw (none_left, left, content, append-nil seen, append-nil seen)
              (sym (append-nil seen) ∙ ap (◌++◌ seen) (sym e) ∙ d.split);
        counted = rw (none_left, append-nil seen, total) d.counted;
        sized = rw (size, content) d.sized;
        chunked = rw chunk d.chunked;
        ready = inr left;
      };
      took = rw (none_left, e) (sym (take-all r.chunk_size [] (omega arith)));
      left = left ∙ sym (ap (drop r.chunk_size) e ∙ drop-all r.chunk_size [] (omega arith));
      same_chunk_size = chunk;
      same_content = content;
    }

within_Advanced :
    (seen : Bytes) (r : ChunkReader)
    → Delivered seen r
    → r.eof_flag ≡ false
    → good r.file_stream ≡ true
    → r.chunk_size ≤ length r.file_stream.rest
    → Advanced seen r (next_chunk r).0 (next_chunk r).1
within_Advanced seen r d e g h = rw (next_chunk_within r d.is_open e g h d.chunked) (record {
  delivered = record {
    is_open = d.is_open;
    works = d.works;
    split =
        append_assoc seen (take r.chunk_size r.file_stream.rest)
          (drop r.chunk_size r.file_stream.rest)
        ∙ ap (◌++◌ seen) (take-append-drop r.chunk_size _)
        ∙ d.split;
    counted = omega (
      arith,
      d.counted,
      length-append seen (take r.chunk_size r.file_stream.rest),
      length-take r.chunk_size r.file_stream.rest,
    );
    sized = d.sized;
    chunked = d.chunked;
    ready = inl (e, g);
  };
  took = refl;
  left = refl;
  same_chunk_size = refl;
  same_content = refl;
})

last_Advanced :
    (seen : Bytes) (r : ChunkReader)
    → Delivered seen r
    → r.eof_flag ≡ false
    → good r.file_stream ≡ true
    → length r.file_stream.rest < r.chunk_size
    → 0 < length r.file_stream.rest
    → Advanced seen r (next_chunk r).0 (next_chunk r).1
last_Advanced seen r d e g h p = rw (next_chunk_last r d.is_open d.works e g h p) (record {
  delivered = record {
    is_open = d.is_open;
    works = d.works;
    split = append-nil _ ∙ d.split;
    counted = omega (arith, d.counted, length-append seen r.file_stream.rest);
    sized = d.sized;
    chunked = d.chunked;
    ready = inr refl;
  };
  took = sym (take-all r.chunk_size _ (omega arith));
  left = sym (drop-all r.chunk_size _ (omega arith));
  same_chunk_size = refl;
  same_content = refl;
})

-- A call of `next_chunk` on a reader of a file that reads to its end.
pub next_chunk-Advanced :
    (seen : Bytes) (r : ChunkReader)
    → Delivered seen r
    → Advanced seen r (next_chunk r).0 (next_chunk r).1
next_chunk-Advanced seen r d = elim (List-cases r.file_stream.rest) [
  | inl e ↦ end_Advanced seen r d e
  | inr (b, bs, e) ↦ elim d.ready [
    | inr none_left ↦ end_Advanced seen r d none_left
    | inl (flag, g) ↦ elim (Bool-cases (ltb (length r.file_stream.rest) r.chunk_size)) [
      | inl short ↦ last_Advanced seen r d flag g (ltb→lt _ _ short) (omega (arith, ap length e))
      | inr long ↦ within_Advanced seen r d flag g (ltb→le _ _ long)
    ]
  ]
]
