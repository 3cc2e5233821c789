-- ===== src/Tcp/Metrics/ProcFiles.antt =====
-- The reading of /proc/self/stat and /proc/self/status in common/src/metrics_aggregator.cpp of the TCP
-- benchmark: `get_proc_stat` and `get_peak_memory_kb`. A text is the list of its characters' codes; a
-- file that does not open is `none`. A `std::stringstream` is what is left to read, and whether an
-- extraction has failed.
pub mod Decimal
pub mod StatLine
mod Tests
use grpccapnp.Base.{
  ℕ, zero, suc, ◌+◌, ◌-◌, ◌*◌, ◌^◌, ◌%◌, Byte, Bytes, List, [], ◌∷◌, Bool, true, false, not, ◌&&◌,
  ◌||◌, Option, none, some, ltb, leb, ◌==◌, is_empty, bytes_eq, length, take, drop, if◌then◌else◌,
}
use grpccapnp.Base.Int.{ℤ, pos, negsuc}

pub record ProcStatInfo : Type 0 where
  pub utime : ℕ
  pub stime : ℕ

-- `std::isspace`: the blank, and from the tabulator to the carriage return.
abbrev pub is_space : Byte → Bool
is_space c = (c == 32) || (leb 9 c && leb c 13)

abbrev pub is_digit : Byte → Bool
is_digit c = leb 48 c && leb c 57

unfoldable pub skip_spaces : Bytes → Bytes
skip_spaces [] = []
skip_spaces (c ∷ cs) = if is_space c then skip_spaces cs else c ∷ cs

-- The characters up to the next space, and the rest.
unfoldable pub next_word : Bytes → Bytes × Bytes
next_word [] = ([], [])
next_word (c ∷ cs) =
    let (word, rest) = next_word cs in if is_space c then ([], c ∷ cs) else (c ∷ word, rest)

unfoldable pub leading_digits : Bytes → Bytes × Bytes
leading_digits [] = ([], [])
leading_digits (c ∷ cs) =
    let (digits, rest) = leading_digits cs in
    if is_digit c then (c ∷ digits, rest) else ([], c ∷ cs)

-- The number that digits denote behind those already read.
unfoldable pub number_from : ℕ → Bytes → ℕ
number_from acc [] = acc
number_from acc (c ∷ cs) = number_from (10 * acc + (c - 48)) cs

pub record StringStream : Type 0 where
  pub rest : Bytes
  pub failed : Bool

-- `ss >> value` for a `std::string`, which stays if nothing is left.
unfoldable pub read_word : Bytes → StringStream → StringStream × Bytes
unfolding skip_spaces next_word
read_word old s =
    let text = skip_spaces s.rest in
    if s.failed || is_empty text
    then (record s { failed = true }, old)
    else (record { rest = (next_word text).1; failed = false }, (next_word text).0)

-- A sign in front of the digits, and whether it is a minus.
pub split_sign : Bytes → Bool × Bytes
split_sign [] = (false, [])
split_sign (c ∷ cs) =
    if c == 45 then (true, cs) else (if c == 43 then (false, cs) else (false, c ∷ cs))

-- The value that is stored for the digits: 0 if there are none, the greatest one if they are too
-- many, and with a minus the complement; the first two are failures.
store_unsigned : Bool → Bytes → ℕ × Bool
unfolding number_from
store_unsigned minus digits =
    let value = number_from 0 digits in
    if is_empty digits
    then (0, true)
    else (if leb (2 ^ 64) value
        then (2 ^ 64 - 1, true)
        else (if minus then ((2 ^ 64 - value) % 2 ^ 64, false) else (value, false)))

-- `ss >> value` for an `unsigned long long`, which stays if nothing is left.
unfoldable pub read_unsigned : ℕ → StringStream → StringStream × ℕ
unfolding skip_spaces split_sign leading_digits store_unsigned
read_unsigned old s =
    let text = skip_spaces s.rest in
    let (minus, unsigned_text) = split_sign text in
    let (digits, rest) = leading_digits unsigned_text in
    let (value, bad) = store_unsigned minus digits in
    if s.failed || is_empty text
    then (record s { failed = true }, old)
    else (record { rest = rest; failed = bad }, value)

-- `for (int i = 1; i < 14; ++i) ss >> value;`
unfoldable pub skip_words : ℕ → StringStream → StringStream
unfolding read_word
skip_words zero s = s
skip_words (suc n) s = skip_words n (read_word [] s).0

-- `std::getline`: a line and what follows its end.
unfoldable pub next_line : Bytes → Bytes × Bytes
next_line [] = ([], [])
next_line (c ∷ cs) =
    let (line, rest) = next_line cs in if c == 10 then ([], cs) else (c ∷ line, rest)

read_stat_line : Bytes → ProcStatInfo
unfolding skip_words read_unsigned
read_stat_line line =
    let s = skip_words 13 (record { rest = line; failed = false }) in
    let (s', utime) = read_unsigned 0 s in
    let (_, stime) = read_unsigned 0 s' in record { utime = utime; stime = stime }

unfoldable pub get_proc_stat : Option Bytes → ProcStatInfo
unfolding read_stat_line next_line
get_proc_stat none = record { utime = 0; stime = 0 }
get_proc_stat (some stat_file) = read_stat_line (next_line stat_file).0

-- `std::stol`: `none` is an exception, for no digits or a number out of range.
unfoldable pub stol : Bytes → Option ℤ
unfolding skip_spaces split_sign leading_digits number_from
stol text =
    let (minus, unsigned_text) = split_sign (skip_spaces text) in
    let digits = (leading_digits unsigned_text).0 in
    let value = number_from 0 digits in
    if is_empty digits
    then none
    else (if minus
        then (if value == 0
            then some (pos 0)
            else (if leb value (2 ^ 63) then some (negsuc (value - 1)) else none))
        else (if ltb value (2 ^ 63) then some (pos value) else none))

-- `while (std::getline(status_file, line))`.
unfoldable pub lines : Bytes → List Bytes
lines [] = []
lines (c ∷ cs) =
    let rest = lines cs in
    if c == 10 then [] ∷ rest else elim rest [ [] ↦ (c ∷ []) ∷ [] | l ∷ ls ↦ (c ∷ l) ∷ ls ]

-- "VmHWM:".
abbrev pub vm_hwm : Bytes
vm_hwm = 86 ∷ 109 ∷ 72 ∷ 87 ∷ 77 ∷ 58 ∷ []

-- `line.rfind("VmHWM:", 0) == 0`.
abbrev pub names_peak : Bytes → Bool
names_peak line = bytes_eq (take (length vm_hwm) line) vm_hwm

-- The second word of the line, or 0 where it is no number.
peak_of_line : Bytes → ℤ
unfolding read_word stol
peak_of_line line =
    let s = (read_word [] (record { rest = line; failed = false })).0 in
    elim (stol (read_word [] s).1) [ none ↦ pos 0 | some value ↦ value ]

unfoldable pub peak_of_lines : List Bytes → ℤ
unfolding peak_of_line
peak_of_lines [] = pos 0
peak_of_lines (line ∷ rest) =
    let later = peak_of_lines rest in if names_peak line then peak_of_line line else later

unfoldable pub get_peak_memory_kb : Option Bytes → ℤ
unfolding lines peak_of_lines
get_peak_memory_kb none = pos 0
get_peak_memory_kb (some status_file) = peak_of_lines (lines status_file)
