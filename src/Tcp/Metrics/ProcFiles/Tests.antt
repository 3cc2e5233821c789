-- ===== src/Tcp/Metrics/ProcFiles/Tests.antt =====
-- Lines of /proc/self/stat and /proc/self/status.
use grpccapnp.Base.{◌≡◌, refl, Bytes, List, [], ◌∷◌, ◌++◌, some, arith, bytes_eq}
use grpccapnp.Base.Int.{pos}
use grpccapnp.Tcp.Metrics.ProcFiles.{
  skip_spaces, next_word, leading_digits, number_from, read_word, split_sign, store_unsigned,
  read_unsigned, skip_words, next_line, read_stat_line, get_proc_stat, stol, lines, vm_hwm,
  peak_of_line, peak_of_lines, get_peak_memory_kb,
}
use grpccapnp.Tcp.Metrics.ProcFiles.Decimal.{decimal, decimal_from}
use grpccapnp.Tcp.Metrics.ProcFiles.StatLine.{spaced, get_proc_stat-decimal}

-- "7 (c) S 1 1 1 0 -1 4 0 0 0 9".
abbrev fields : List Bytes
fields =
    (55 ∷ [])
    ∷ (40 ∷ 99 ∷ 41 ∷ [])
    ∷ (83 ∷ [])
    ∷ (49 ∷ [])
    ∷ (49 ∷ [])
    ∷ (49 ∷ [])
    ∷ (48 ∷ [])
    ∷ (45 ∷ 49 ∷ [])
    ∷ (52 ∷ [])
    ∷ (48 ∷ [])
    ∷ (48 ∷ [])
    ∷ (48 ∷ [])
    ∷ (57 ∷ [])
    ∷ []

-- The times are 250 and 17, and a 0 and the end of the line follow.
abbrev stat_file : Bytes
stat_file = spaced fields (50 ∷ 53 ∷ 48 ∷ 32 ∷ 49 ∷ 55 ∷ 32 ∷ 48 ∷ 10 ∷ [])

get_proc_stat-decimal_example : get_proc_stat (some stat_file) ≡ record { utime = 250; stime = 17 }
unfolding next_line decimal decimal_from
get_proc_stat-decimal_example =
    get_proc_stat-decimal stat_file (48 ∷ []) fields 250 17 refl
      (
        (refl, (refl, tt)),
        (
          (refl, (refl, (refl, (refl, tt)))),
          (
            (refl, (refl, tt)),
            (
              (refl, (refl, tt)),
              (
                (refl, (refl, tt)),
                (
                  (refl, (refl, tt)),
                  (
                    (refl, (refl, tt)),
                    (
                      (refl, (refl, (refl, tt))),
                      (
                        (refl, (refl, tt)),
                        (
                          (refl, (refl, tt)),
                          ((refl, (refl, tt)), ((refl, (refl, tt)), ((refl, (refl, tt)), tt))),
                        ),
                      ),
                    ),
                  ),
                ),
              ),
            ),
          ),
        ),
      )
      (omega arith) (omega arith) refl

-- With a blank in the name of the program, "(c" and "d)", the 13th field is taken for the user time, and
-- the user time for the system time.
shifted :
    get_proc_stat (
      some (
        55 ∷ 32 ∷ 40 ∷ 99 ∷ 32 ∷ 100 ∷ 41 ∷ 32 ∷ 83 ∷ 32 ∷ 49 ∷ 32 ∷ 49 ∷ 32 ∷ 49 ∷ 32 ∷ 48 ∷ 32
        ∷ 45 ∷ 49 ∷ 32 ∷ 52 ∷ 32 ∷ 48 ∷ 32 ∷ 48 ∷ 32 ∷ 48 ∷ 32 ∷ 57 ∷ 32 ∷ 50 ∷ 53 ∷ 48 ∷ 32 ∷ 49
        ∷ 55 ∷ 32 ∷ 48 ∷ 10 ∷ []))
    ≡ record { utime = 9; stime = 250 }
unfolding get_proc_stat read_stat_line next_line skip_words read_word skip_spaces next_word
    read_unsigned split_sign leading_digits store_unsigned number_from
shifted = refl

-- "A: 1\n", "VmHWM:\t 42 kB\n".
peak :
    get_peak_memory_kb
      (some (65 ∷ 58 ∷ 32 ∷ 49 ∷ 10 ∷ (vm_hwm ++ 9 ∷ 32 ∷ 52 ∷ 50 ∷ 32 ∷ 107 ∷ 66 ∷ 10 ∷ [])))
    ≡ pos 42
unfolding get_peak_memory_kb lines peak_of_lines peak_of_line read_word skip_spaces next_word stol
    split_sign leading_digits number_from bytes_eq
peak = refl
