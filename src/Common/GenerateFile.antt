-- ===== src/Common/GenerateFile.antt =====
-- src/common/src/file_utils.cpp: `generate_test_file`. The random device and the disk are
-- arguments: `rng i` is the i-th number drawn from 0 to 255, and `disk k` says whether the write at
-- offset `k` succeeds. The result is what the function returns and the bytes that it has written.
use grpccapnp.Base.{
  ℕ, zero, suc, ◌-◌, ◌*◌, ◌≤◌, ◌<◌, ◌≡◌, refl, ap, Bool, true, false, [], ◌∷◌, ◌++◌, Option, none,
  some, arith, Byte, Bytes, length, take, length-append, length-take, ltb, if◌then◌else◌,
  Bool-cases, ltb→lt, ltb→le, inl, inr, min,
}

-- `buffer[i] = dist(rng)` for the `n` indices from `i` on.
pub fill_buffer : (ℕ → Byte) → ℕ → ℕ → Bytes
fill_buffer rng i zero = []
fill_buffer rng i (suc n) = rng i ∷ fill_buffer rng (suc i) n

pub record Generated : Type 0 where
  pub result : Bool
  pub written : Bytes

-- The `while` over `bytes_written`, which is `length written`; `none` means that the fuel ran out.
pub generate_loop : ℕ → (ℕ → Bool) → ℕ → Bytes → ℕ → Bytes → Option Generated
generate_loop zero disk buffer_size buffer size_bytes written = none
generate_loop (suc fuel) disk buffer_size buffer size_bytes written =
    let to_write = min buffer_size (size_bytes - length written) in
    let rest =
      generate_loop fuel disk buffer_size buffer size_bytes (written ++ take to_write buffer) in
    if ltb (length written) size_bytes
    then (if disk (length written)
        then rest
        else some (record { result = false; written = written }))
    else some (record { result = true; written = written })

-- 1 MB.
abbrev pub buffer_size : ℕ
buffer_size = 1 * 1024 * 1024

-- `opens` says whether the output file can be opened.
pub generate_test_file : Bool → (ℕ → Bool) → (ℕ → Byte) → ℕ → Option Generated
generate_test_file opens disk rng size_bytes =
    let buffer = fill_buffer rng 0 buffer_size in
    let generated = generate_loop (suc size_bytes) disk buffer_size buffer size_bytes [] in
    if opens then generated else some (record { result = false; written = [] })

pub length-fill_buffer : (rng : ℕ → Byte) (i n : ℕ) → length (fill_buffer rng i n) ≡ n
unfolding fill_buffer
length-fill_buffer rng i zero = refl
length-fill_buffer rng i (suc n) = ap suc (length-fill_buffer rng (suc i) n)

-- What the loop returns: all the bytes asked for, or an offset below that at which a write failed.
abbrev pub Outcome : (ℕ → Bool) → ℕ → Generated → Type 0
Outcome disk size g =
    (if g.result
      then length g.written ≡ size
      else ((length g.written < size) × (disk (length g.written) ≡ false)))

loop-Outcome :
    (fuel : ℕ) (disk : ℕ → Bool) (chunk : ℕ) (buffer : Bytes) (size : ℕ) (written : Bytes)
    → 0 < chunk
    → length buffer ≡ chunk
    → length written ≤ size
    → size - length written < fuel
    → (g : Generated) × (generate_loop fuel disk chunk buffer size written ≡ some g)
      × Outcome disk size g
unfolding generate_loop
loop-Outcome zero disk chunk buffer size written p b h f = absurd (omega arith)
loop-Outcome (suc fuel) disk chunk buffer size written p b h f =
    let more = take (min chunk (size - length written)) buffer in
    let grows = length-append written more in
    let takes = length-take (min chunk (size - length written)) buffer in
    elim (Bool-cases (ltb (length written) size)) [
      | inr done ↦
          (record { result = true; written = written }, rw done, omega (arith, ltb→le _ _ done))
      | inl going ↦ elim (Bool-cases (disk (length written))) [
        | inr full ↦ (
          record { result = false; written = written },
          rw (going, full),
          (ltb→lt _ _ going, full),
        )
        | inl fine ↦
            rw (going, fine)
              (loop-Outcome fuel disk chunk buffer size (written ++ more) p b
                (omega (arith, grows, takes, ltb→lt _ _ going))
                (omega (arith, grows, takes, ltb→lt _ _ going)))
      ]
    ]

-- `generate_test_file` always returns. If the file cannot be opened, it returns false and has
-- written nothing. Else it returns true having written exactly `size_bytes` bytes, or it returns
-- false at an offset below `size_bytes` at which the write failed.
pub generate_test_file-Outcome :
    (opens : Bool) (disk : ℕ → Bool) (rng : ℕ → Byte) (size_bytes : ℕ)
    → (g : Generated) × (generate_test_file opens disk rng size_bytes ≡ some g)
      × (if opens then Outcome disk size_bytes g else ((g.result ≡ false) × (g.written ≡ [])))
unfolding generate_test_file
generate_test_file-Outcome false disk rng size_bytes =
    (record { result = false; written = [] }, refl, (refl, refl))
generate_test_file-Outcome true disk rng size_bytes =
    loop-Outcome (suc size_bytes) disk buffer_size (fill_buffer rng 0 buffer_size) size_bytes []
      (omega arith) (length-fill_buffer rng 0 buffer_size) (omega arith) (omega arith)
