-- ===== src/Capnp/Client/Judgement.antt =====
-- The client's loop against an independent judgement of the answers, chunk by chunk of the file.
use grpccapnp.Base.{
  ℕ, suc, ◌+◌, ◌≡◌, Bytes, List, [], ◌∷◌, ◌++◌, length, bytes_eq, ◌==◌, reverse, if◌then◌else◌,
}
use grpccapnp.Capnp.Client.{
  Exception, Message, size_mismatch, content_mismatch, Reply, replied, raised, Calls, Loop, Round,
  stop, throw,
}

-- Every chunk of the list, the first of them in the k-th call, is answered by its reversal.
abbrev pub Answered : Calls → ℕ → List Bytes → Type 0
Answered calls k [] = Unit {0}
Answered calls k (c ∷ cs) =
    (calls.process_chunk k c ≡ replied (reverse c)) × Answered calls (suc k) cs

-- The verdict on the answers, with the number of bytes that were answered right before it.
pub data Verdict : Type 0 where
  all_right : ℕ → Verdict
  wrong : ℕ → Message → Verdict
  threw : ℕ → Exception → Verdict

abbrev pub mismatch : ℕ → Bytes → Bytes → Message
mismatch k c r =
    if length r == length c
    then content_mismatch (k + 1)
    else size_mismatch (k + 1) (length c) (length r)

abbrev pub weigh : ℕ → ℕ → Bytes → Reply → Verdict → Verdict
weigh k v c (raised e) rest = threw v e
weigh k v c (replied r) rest = if bytes_eq r (reverse c) then rest else wrong v (mismatch k c r)

-- The first answer that is not right decides.
unfoldable pub judge : Calls → ℕ → ℕ → List Bytes → Verdict
judge calls k v [] = all_right v
judge calls k v (c ∷ cs) =
    weigh k v c (calls.process_chunk k c) (judge calls (suc k) (v + length c) cs)

-- What the loop leaves for a verdict: the bytes that it has verified, and the errors that it has
-- logged behind those that were there.
abbrev pub Ends : Verdict → List Message → Round → Type 0
Ends (all_right v) es r =
    (s : Loop) × (r ≡ stop s) × (s.total_bytes_verified_payload ≡ v) × (s.metrics.errors ≡ es)
Ends (wrong v m) es r =
    (s : Loop) × (r ≡ stop s)
    × (s.total_bytes_verified_payload ≡ v)
    × (s.metrics.errors ≡ es ++ m ∷ [])
Ends (threw v e) es r = (s : Loop) × (r ≡ throw e s) × (s.metrics.errors ≡ es)
