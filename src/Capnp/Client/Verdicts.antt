-- ===== src/Capnp/Client/Verdicts.antt =====
-- When the verdict on the answers is which.
use grpccapnp.Base.{
  ℕ, suc, ◌+◌, ◌≡◌, ◌≢◌, refl, ap, ◌∙◌, inl, inr, List, [], ◌∷◌, ◌++◌, Bytes, arith, length,
  flatten, bytes_eq, reverse, bytes_eq_refl, eq_of_bytes_eq, Bool-cases, if◌then◌else◌,
  length-append,
}
use grpccapnp.Capnp.Client.{Reply, replied, raised, Calls}
use grpccapnp.Capnp.Client.Judgement.{Answered, Verdict, all_right, wrong, mismatch, weigh, judge}

pub payload : List Bytes → ℕ
payload [] = 0
payload (c ∷ cs) = length c + payload cs

pub payload-flatten : (cs : List Bytes) → payload cs ≡ length (flatten cs)
unfolding payload flatten
payload-flatten [] = refl
payload-flatten (c ∷ cs) = omega (arith, payload-flatten cs, length-append c (flatten cs))

pub judge-Answered :
    (calls : Calls) (k v : ℕ) (cs : List Bytes)
    → Answered calls k cs
    → judge calls k v cs ≡ all_right (v + payload cs)
unfolding judge payload
judge-Answered calls k v [] a = ap all_right (omega arith)
judge-Answered calls k v (c ∷ cs) (right, a) =
    rw (right, bytes_eq_refl (reverse c), if◌then◌else◌)
      (judge-Answered calls (suc k) (v + length c) cs a ∙ ap all_right (omega arith))

-- One answer, and a verdict that all is right.
weigh-all_right :
    (k v w : ℕ) (c : Bytes) (reply : Reply) (rest : Verdict)
    → weigh k v c reply rest ≡ all_right w
    → (reply ≡ replied (reverse c)) × (rest ≡ all_right w)
weigh-all_right k v w c (raised e) rest h = cc
weigh-all_right k v w c (replied r) rest h = elim (Bool-cases (bytes_eq r (reverse c))) [
  | inl same ↦ (ap replied (eq_of_bytes_eq _ _ same), rw (same, if◌then◌else◌) at h)
  | inr other ↦
      let wrong_one : wrong v (mismatch k c r) ≡ all_right w = rw (other, if◌then◌else◌) at h in cc
]

pub judge-all_right :
    (calls : Calls) (k v w : ℕ) (cs : List Bytes)
    → judge calls k v cs ≡ all_right w
    → Answered calls k cs × (w ≡ v + payload cs)
unfolding judge payload
judge-all_right calls k v w [] h = (tt, ground arith)
judge-all_right calls k v w (c ∷ cs) h =
    let (right, rest) = weigh-all_right k v w c (calls.process_chunk k c) _ h in
    let (a, sum) = judge-all_right calls (suc k) (v + length c) w cs rest in
    ((right, a), omega (arith, sum))

pub judge-wrong :
    (calls : Calls) (k v : ℕ) (before after : List Bytes) (c r : Bytes)
    → Answered calls k before
    → calls.process_chunk (k + length before) c ≡ replied r
    → r ≢ reverse c
    → judge calls k v (before ++ c ∷ after)
      ≡ wrong (v + payload before) (mismatch (k + length before) c r)
unfolding judge payload
judge-wrong calls k v [] after c r a e ne = elim (Bool-cases (bytes_eq r (reverse c))) [
  | inl same ↦ absurd (ne (eq_of_bytes_eq _ _ same))
  | inr other ↦
      let z : k + 0 ≡ k = omega arith in
      let z' : v + 0 ≡ v = omega arith in rw (z, z', rw z at e, other, if◌then◌else◌)
]
judge-wrong calls k v (b ∷ before) after c r (right, a) e ne =
    let z : suc k + length before ≡ k + suc (length before) = omega arith in
    let z' : v + length b + payload before ≡ v + (length b + payload before) = omega arith in
    rw (right, bytes_eq_refl (reverse b), if◌then◌else◌, ← z, ← z')
      (judge-wrong calls (suc k) (v + length b) before after c r a (rw (← z) at e) ne)
