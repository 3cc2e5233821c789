-- ===== src/Tcp/Metrics/ProcFiles/StatLine.antt =====
-- A line of /proc/self/stat: words and numbers with a space behind each.
use grpccapnp.Base.{
  ℕ, ◌^◌, ◌<◌, ◌≡◌, refl, sym, ap, ◌∙◌, Bytes, List, [], ◌∷◌, ◌++◌, false, some, arith, is_empty,
  All, length, if◌then◌else◌,
}
use grpccapnp.Tcp.Metrics.ProcFiles.{
  is_space, skip_spaces, next_word, read_word, skip_words, next_line, read_stat_line, get_proc_stat,
}
use grpccapnp.Tcp.Metrics.ProcFiles.Decimal.{decimal, read_unsigned-decimal, skip_spaces-decimal}

-- Each word with a space behind it, and what follows.
abbrev pub spaced : List Bytes → Bytes → Bytes
spaced [] tail = tail
spaced (w ∷ ws) tail = w ++ 32 ∷ spaced ws tail

-- A word has a character, and no space.
abbrev pub IsWord : Bytes → Type 0
IsWord w = (is_empty w ≡ false) × All (λ c. is_space c ≡ false) w

skip_spaces-word : (w t : Bytes) → IsWord w → skip_spaces (w ++ t) ≡ w ++ t
unfolding skip_spaces
skip_spaces-word [] t (e, h) = absurd (ground (arith, e))
skip_spaces-word (c ∷ w) t (e, (h, hs)) = simp (h, if◌then◌else◌) refl

next_word-space :
    (w t : Bytes) → All (λ c. is_space c ≡ false) w → next_word (w ++ 32 ∷ t) ≡ (w, 32 ∷ t)
unfolding next_word
next_word-space [] t h = refl
next_word-space (c ∷ w) t (h, hs) = simp (h, if◌then◌else◌, next_word-space w t hs) refl

is_empty-append : (w t : Bytes) → is_empty w ≡ false → is_empty (w ++ t) ≡ false
is_empty-append [] t e = absurd (ground (arith, e))
is_empty-append (c ∷ w) t e = refl

read_word-word :
    (old r w t : Bytes)
    → IsWord w
    → skip_spaces r ≡ w ++ 32 ∷ t
    → read_word old (record { rest = r; failed = false })
      ≡ (record { rest = 32 ∷ t; failed = false }, w)
unfolding read_word
read_word-word old r w t (e, h) is =
    simp (is, is_empty-append w (32 ∷ t) e, next_word-space w t h, if◌then◌else◌) refl

skip_spaces-space : (t : Bytes) → skip_spaces (32 ∷ t) ≡ skip_spaces t
unfolding skip_spaces
skip_spaces-space t = refl

-- The words are skipped, but for the space behind the last.
skip_words-spaced :
    (ws : List Bytes) (r tail : Bytes)
    → All IsWord ws
    → skip_spaces r ≡ skip_spaces (spaced ws tail)
    → (r' : Bytes) × (skip_words (length ws) (record { rest = r; failed = false })
        ≡ record { rest = r'; failed = false })
      × (skip_spaces r' ≡ skip_spaces tail)
unfolding skip_words
skip_words-spaced [] r tail h is = (r, refl, is)
skip_words-spaced (w ∷ ws) r tail (h, hs) is =
    let (r', skipped, there) =
      skip_words-spaced ws (32 ∷ spaced ws tail) tail hs (skip_spaces-space (spaced ws tail)) in
    let read =
      read_word-word [] r w (spaced ws tail) h (is ∙ skip_spaces-word w (32 ∷ spaced ws tail) h) in
    (r', ap (λ q. skip_words (length ws) q.0) read ∙ skipped, there)

-- If the first line of the file is 13 words, each without a space in it, and behind them two numbers
-- below 2 ^ 64 as the system prints them, with a space behind each word and each number, then
-- `get_proc_stat` yields these two numbers, whatever follows.
pub get_proc_stat-decimal :
    (stat_file rest : Bytes) (ws : List Bytes) (utime stime : ℕ)
    → length ws ≡ 13
    → All IsWord ws
    → utime < 2 ^ 64
    → stime < 2 ^ 64
    → (next_line stat_file).0 ≡ spaced ws (decimal utime ++ 32 ∷ (decimal stime ++ 32 ∷ rest))
    → get_proc_stat (some stat_file) ≡ record { utime = utime; stime = stime }
unfolding get_proc_stat read_stat_line
get_proc_stat-decimal stat_file rest ws utime stime many h u s is =
    let tail = decimal utime ++ 32 ∷ (decimal stime ++ 32 ∷ rest) in
    let (r, skipped, at) = skip_words-spaced ws (spaced ws tail) tail h refl in
    let all : skip_words 13 (record { rest = spaced ws tail; failed = false })
        ≡ record { rest = r; failed = false } =
      ap (λ n. skip_words n (record { rest = spaced ws tail; failed = false })) (sym many)
      ∙ skipped in
    let first =
      read_unsigned-decimal 0 r (decimal stime ++ 32 ∷ rest) utime u
        (at ∙ skip_spaces-decimal utime (32 ∷ (decimal stime ++ 32 ∷ rest))) in
    let second =
      read_unsigned-decimal 0 (32 ∷ (decimal stime ++ 32 ∷ rest)) rest stime s
        (skip_spaces-space (decimal stime ++ 32 ∷ rest) ∙ skip_spaces-decimal stime (32 ∷ rest)) in
    simp (is, all, first, second) refl
