-- ===== src/Tcp/TestFile.antt =====
-- GO++PROJECT/src/cpp_tcp_benchmark/common/src/file_utils.cpp: `generate_test_file_if_not_exists`. The
-- file is what a read finds, or `none` where there is none; the random device and the disk are
-- arguments: `rng i` is the i-th number drawn from 0 to 255, `opens` says whether the file opens for
-- writing, `disk k` whether the write at offset `k` succeeds, and `lost` is the number of bytes that the
-- stream has still buffered at its end and `close()`, whose result nobody looks at, cannot write. That
-- the file system answers for a file's existence and size, and removes a file, is taken for granted.
use grpccapnp.Base.{
  ℕ, zero, suc, ◌-◌, ◌≤◌, ◌<◌, ◌≡◌, ◌⊎◌, inl, inr, refl, Bool, true, false, not, [], ◌++◌, Option,
  none, some, arith, Byte, Bytes, length, take, length-append, length-take, min, ltb, ◌==◌, ==_eq,
  ltb→lt, ltb→le, Bool-cases, if◌then◌else◌,
}
use grpccapnp.Common.Stream.{File, IsSound}
use grpccapnp.Common.GenerateFile.{buffer_size, fill_buffer, length-fill_buffer}

-- The file behind the call, and whether the call has thrown.
pub record Prepared : Type 0 where
  pub thrown : Bool
  pub file : Option File

abbrev regenerate : Option File → ℕ → Bool
regenerate none target_size = true
regenerate (some f) target_size = not (f.size == target_size)

-- What is on the disk after `outfile.close()`.
abbrev flushed_file : ℕ → Bytes → File
flushed_file lost written =
    let flushed = take (length written - lost) written in
    record { bytes = flushed; size = length flushed; broken = false }

-- The `while` over `bytes_written`, which is `length written`; the outer `none` means that the fuel
-- ran out.
write_file : ℕ → (ℕ → Bool) → (ℕ → Byte) → ℕ → ℕ → Bytes → Option Prepared
write_file zero disk rng lost target_size written = none
write_file (suc fuel) disk rng lost target_size written =
    let bytes_to_write = min buffer_size (target_size - length written) in
    let rest =
      write_file fuel disk rng lost target_size
        (written ++ fill_buffer rng (length written) bytes_to_write) in
    if ltb (length written) target_size
    then (if disk (length written) then rest else some (record { thrown = true; file = none }))
    else some (record { thrown = false; file = some (flushed_file lost written) })

unfoldable pub generate_test_file_if_not_exists :
    Option File → Bool → (ℕ → Bool) → (ℕ → Byte) → ℕ → ℕ → Option Prepared
unfolding write_file
generate_test_file_if_not_exists found opens disk rng lost target_size =
    let generated = write_file (suc target_size) disk rng lost target_size [] in
    if regenerate found target_size
    then (if opens then generated else some (record { thrown = true; file = none }))
    else some (record { thrown = false; file = found })

-- A file that reads to its end and has that size, less what the flush has lost, or a write that failed
-- and no file.
abbrev pub Written : (ℕ → Bool) → ℕ → ℕ → Prepared → Type 0
Written disk lost size p =
    ((f : File) × (p ≡ record { thrown = false; file = some f })
      × (f.size ≡ size - lost)
      × IsSound f)
    ⊎ ((p ≡ record { thrown = true; file = none }) × (k : ℕ) × (k < size) × (disk k ≡ false))

write_file-Written :
    (fuel : ℕ) (disk : ℕ → Bool) (rng : ℕ → Byte) (lost size : ℕ) (written : Bytes)
    → length written ≤ size
    → size - length written < fuel
    → (p : Prepared) × (write_file fuel disk rng lost size written ≡ some p)
      × Written disk lost size p
unfolding write_file
write_file-Written zero disk rng lost size written h enough = absurd (omega arith)
write_file-Written (suc fuel) disk rng lost size written h enough =
    let more = fill_buffer rng (length written) (min buffer_size (size - length written)) in
    let grows = length-append written more in
    let drawn = length-fill_buffer rng (length written) (min buffer_size (size - length written)) in
    elim (Bool-cases (ltb (length written) size)) [
      | inr done ↦ (
        record { thrown = false; file = some (flushed_file lost written) },
        rw done refl,
        inl (
          flushed_file lost written,
          refl,
          omega (arith, length-take (length written - lost) written, ltb→le _ _ done, h),
          record { sized = refl; works = refl },
        ),
      )
      | inl going ↦ elim (Bool-cases (disk (length written))) [
        | inr full ↦ (
          record { thrown = true; file = none },
          rw (going, full) refl,
          inr (refl, length written, ltb→lt _ _ going, full),
        )
        | inl fine ↦
            rw (going, fine)
              (write_file-Written fuel disk rng lost size (written ++ more)
                (omega (arith, grows, drawn, ltb→lt _ _ going))
                (omega (arith, grows, drawn, ltb→lt _ _ going)))
      ]
    ]

pub test_file_prepared :
    (found : Option File) (opens : Bool) (disk : ℕ → Bool) (rng : ℕ → Byte) (lost size : ℕ)
    → (p : Prepared) × (generate_test_file_if_not_exists found opens disk rng lost size ≡ some p)
      × (((f : File) × (found ≡ some f)
            × (f.size ≡ size)
            × (p ≡ record { thrown = false; file = some f }))
          ⊎ (opens ≡ true) × Written disk lost size p
          ⊎ ((opens ≡ false) × (p ≡ record { thrown = true; file = none })))
unfolding generate_test_file_if_not_exists
test_file_prepared none false disk rng lost size =
    (record { thrown = true; file = none }, refl, inr (inr (refl, refl)))
test_file_prepared none true disk rng lost size =
    let (p, e, w) =
      write_file-Written (suc size) disk rng lost size [] (omega arith) (omega arith) in
    (p, e, inr (inl (refl, w)))
test_file_prepared (some f) false disk rng lost size = elim (Bool-cases (f.size == size)) [
  | inl same ↦ (
    record { thrown = false; file = some f },
    rw same refl,
    inl (f, refl, ==_eq f.size size same, refl),
  )
  | inr differs ↦ (record { thrown = true; file = none }, rw differs refl, inr (inr (refl, refl)))
]
test_file_prepared (some f) true disk rng lost size = elim (Bool-cases (f.size == size)) [
  | inl same ↦ (
    record { thrown = false; file = some f },
    rw same refl,
    inl (f, refl, ==_eq f.size size same, refl),
  )
  | inr differs ↦
      let (p, e, w) =
        write_file-Written (suc size) disk rng lost size [] (omega arith) (omega arith) in
      (p, rw differs e, inr (inl (refl, w)))
]
