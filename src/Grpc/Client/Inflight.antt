-- ===== src/Grpc/Client/Inflight.antt =====
-- `inflight_requests_map` of src/grpc_app/grpc_client.cpp: a `std::map` from the identifier of a
-- request to what was sent, as an association list. (`time_sent` is left to the clock.)
use grpccapnp.Base.{
  ℕ, suc, ◌+◌, ◌≤◌, ◌<◌, ◌≡◌, refl, Bytes, List, [], ◌∷◌, Option, none, some, arith, length, ◌==◌,
  ==_eq, ◌≢◌, if◌then◌else◌, Bool-cases, inl, inr, eq_of_some, subst,
}

pub record SentChunkInfo : Type 0 where
  pub client_assigned_id : ℕ
  pub original_payload_size : ℕ
  pub on_wire_request_size_bytes : ℕ
  pub original_data_for_verification : Bytes

abbrev pub InflightMap : Type 0
InflightMap = List (ℕ × SentChunkInfo)

unfoldable pub find : ℕ → InflightMap → Option SentChunkInfo
find id [] = none
find id ((k, info) ∷ m) = if k == id then some info else find id m

unfoldable pub erase : ℕ → InflightMap → InflightMap
erase id [] = []
erase id ((k, info) ∷ m) = if k == id then m else (k, info) ∷ erase id m

-- `map[id] = info`.
unfoldable pub assign : ℕ → SentChunkInfo → InflightMap → InflightMap
assign id info [] = (id, info) ∷ []
assign id info ((k, old) ∷ m) = if k == id then (id, info) ∷ m else (k, old) ∷ assign id info m

-- The payload bytes of the entries.
abbrev pub payload : InflightMap → ℕ
payload [] = 0
payload ((k, info) ∷ m) = info.original_payload_size + payload m

pub length-assign-le :
    (id : ℕ) (info : SentChunkInfo) (m : InflightMap) → length (assign id info m) ≤ suc (length m)
unfolding assign
length-assign-le id info [] = omega arith
length-assign-le id info ((k, old) ∷ m) = ground (arith, length-assign-le id info m)

pub assign_fresh :
    (id : ℕ) (info : SentChunkInfo) (m : InflightMap)
    → find id m ≡ none
    → (length (assign id info m) ≡ suc (length m))
      × (payload (assign id info m) ≡ payload m + info.original_payload_size)
unfolding assign find
assign_fresh id info [] h = omega arith
assign_fresh id info ((k, old) ∷ m) h = ground (arith, assign_fresh id info m)

pub length-erase-le : (id : ℕ) (m : InflightMap) → length (erase id m) ≤ length m
unfolding erase
length-erase-le id [] = omega arith
length-erase-le id ((k, old) ∷ m) = ground (arith, length-erase-le id m)

pub erase_found :
    (id : ℕ) (m : InflightMap) (info : SentChunkInfo)
    → find id m ≡ some info
    → (length m ≡ suc (length (erase id m)))
      × (payload m ≡ payload (erase id m) + info.original_payload_size)
unfolding erase find
erase_found id [] info h = cc
erase_found id ((k, old) ∷ m) info h = ground (arith, erase_found id m info)

-- A predicate of every entry and its key.
abbrev pub Entries {ℓ} : (ℕ → SentChunkInfo → Type ℓ) → InflightMap → Type ℓ
Entries P [] = Unit
Entries P ((k, info) ∷ m) = P k info × Entries P m

module _ {ℓ} (P : ℕ → SentChunkInfo → Type ℓ) where
  pub Entries-assign :
      (id : ℕ) (info : SentChunkInfo) (m : InflightMap)
      → P id info
      → Entries P m
      → Entries P (assign id info m)
  unfolding assign
  Entries-assign id info [] p h = (p, tt)
  Entries-assign id info ((k, old) ∷ m) p h = elim (Bool-cases (k == id)) [
    | inl e ↦ rw (e, if◌then◌else◌) (p, h.1)
    | inr e ↦ rw (e, if◌then◌else◌) (h.0, Entries-assign id info m p h.1)
  ]

  pub Entries-erase : (id : ℕ) (m : InflightMap) → Entries P m → Entries P (erase id m)
  unfolding erase
  Entries-erase id [] h = tt
  Entries-erase id ((k, old) ∷ m) h = elim (Bool-cases (k == id)) [
    | inl e ↦ rw (e, if◌then◌else◌) h.1
    | inr e ↦ rw (e, if◌then◌else◌) (h.0, Entries-erase id m h.1)
  ]

  pub Entries-find :
      (id : ℕ) (m : InflightMap) (info : SentChunkInfo)
      → Entries P m
      → find id m ≡ some info
      → P id info
  unfolding find
  Entries-find id [] info h e = cc
  Entries-find id ((k, old) ∷ m) info h e = elim (Bool-cases (k == id)) [
    | inl same ↦
        let is : old ≡ info = eq_of_some (rw (same, if◌then◌else◌) at e) in
        subst (λ j. P j info) (==_eq k id same) (subst (P k) is h.0)
    | inr other ↦ Entries-find id m info h.1 (rw (other, if◌then◌else◌) at e)
  ]

-- A key above all those of the map is not in it.
pub find_above :
    (n id : ℕ) (m : InflightMap) → Entries (λ k info. k ≤ n) m → n < id → find id m ≡ none
unfolding find
find_above n id [] h lt = refl
find_above n id ((k, old) ∷ m) h lt = ground (arith, find_above n id m h.1 lt)

-- Other keys are left alone.
pub find-assign_ne :
    (id j : ℕ) (info : SentChunkInfo) (m : InflightMap)
    → id ≢ j
    → find j (assign id info m) ≡ find j m
unfolding find assign
find-assign_ne id j info [] ne = ground arith
find-assign_ne id j info ((k, old) ∷ m) ne = ground (arith, find-assign_ne id j info m ne)

pub find-erase_ne : (id j : ℕ) (m : InflightMap) → id ≢ j → find j (erase id m) ≡ find j m
unfolding find erase
find-erase_ne id j [] ne = refl
find-erase_ne id j ((k, old) ∷ m) ne = ground (arith, find-erase_ne id j m ne)

pub find-assign :
    (id : ℕ) (info : SentChunkInfo) (m : InflightMap) → find id (assign id info m) ≡ some info
unfolding find assign
find-assign id info [] = ground arith
find-assign id info ((k, old) ∷ m) = ground (arith, find-assign id info m)
