-- ===== src/Tests/Messages.antt =====
-- The port hopper, the serialized messages, the allocator and the pool on small inputs.
use boost.Prelude.{
  ◌+◌, ◌≡◌, ◌≤◌, ◌<◌, refl, ℕ, true, false, List, [], ◌∷◌, none, some, ltb, if◌then◌else◌, Bytes,
  arith, Bool-cases, inl, inr,
}
use boost.Asio.Connection.{success, contains}
use boost.Asio.Porthopper
use boost.Asio.Porthopper.RoundTrip.{ports-control_request}
use boost.Asio.Serialization
use boost.Asio.Allocation
use boost.Asio.Allocation.Exclusive
use boost.Asio.Allocation.Exclusive.{IsExclusive, IsFreshAt, Uses-IsExclusive}
use boost.Asio.Allocation.Echo
use boost.Asio.Allocation.Echo.{Run-IsEcho, IsEcho, IsFrugal}
use boost.Tests.Numbers.{streams, streams-IsHex}

ports-control_request_example :
    (Porthopper.old_port streams (Porthopper.control_request streams 80 8080) ≡ 80)
    × (Porthopper.new_port streams (Porthopper.control_request streams 80 8080) ≡ 8080)
ports-control_request_example =
    ports-control_request streams streams-IsHex 80 8080 (omega arith) (omega arith)

abbrev client : Porthopper.Endpoint
client = record { address = 5; port = 8080 }

abbrev hopper : Porthopper.Server
hopper = record { subscribers_ = []; next_frame_number_ = 1; sent = [] }

-- An archive of texts as they are.
abbrev plain : Serialization.Archive Bytes
plain = record { write = λ s. s; read = some }

-- A heap that hands out the number behind all of its blocks and the storage.
unfoldable top : List ℕ → ℕ
top [] = 1000
top (p ∷ ps) = let rest = top ps in if ltb p rest then rest else p + 1

abbrev operator_new : Allocation.OperatorNew
operator_new heap size = top heap

top_above : (heap : List ℕ) (p : ℕ) → contains p heap ≡ true → p < top heap
unfolding top
top_above [] p h = absurd (cc)
top_above (q ∷ heap) p h = let rest = top_above heap p in ground (arith, rest)

top_large : (heap : List ℕ) → 1000 ≤ top heap
unfolding top
top_large [] = omega arith
top_large (q ∷ heap) = let rest = top_large heap in ground (arith, rest)

top-IsFreshAt : IsFreshAt operator_new 7
top-IsFreshAt = record {
  no_block = λ heap size. elim (Bool-cases (contains (top heap) heap)) [
    | inl e ↦ absurd (omega (arith, top_above heap (top heap) e))
    | inr e ↦ e
  ];
  no_storage = λ heap size. let large = top_large heap in ground arith;
}

abbrev unused_memory : Allocation.Memory
unused_memory = record { address = 7; in_use = false; heap = [] }

-- Two handlers, for the second of which the storage is not free.
two-Uses :
    Exclusive.Uses operator_new unused_memory
      (record { address = 7; in_use = true; heap = 1000 ∷ [] })
      (1000 ∷ 7 ∷ [])
unfolding Allocation.allocate top
two-Uses = Exclusive.allocated 64 (Exclusive.allocated 64 Exclusive.unused)

Uses-IsExclusive_example :
    IsExclusive 7 (record { address = 7; in_use = true; heap = 1000 ∷ [] }) (1000 ∷ 7 ∷ [])
Uses-IsExclusive_example =
    Uses-IsExclusive operator_new unused_memory top-IsFreshAt refl refl two-Uses

abbrev handler_size : Allocation.Operation → ℕ
handler_size op = 64

abbrev new_session : Allocation.Session
new_session = record { data_ = []; allocator_ = unused_memory; pending = none }

-- Two bytes are read and written back.
abbrev echoed : Allocation.Session
echoed = Allocation.write_completed operator_new handler_size success (
    Allocation.read_completed operator_new handler_size success (1 ∷ 2 ∷ [])
      (Allocation.start operator_new handler_size new_session))

echo-Run :
    Echo.Run operator_new handler_size new_session ((1 ∷ 2 ∷ []) ∷ []) ((1 ∷ 2 ∷ []) ∷ []) echoed
unfolding Allocation.start Allocation.begin Allocation.allocate Allocation.handle_read
    Allocation.finish
echo-Run = Echo.was_written 7 (1 ∷ 2 ∷ []) refl (Echo.was_read 7 (1 ∷ 2 ∷ []) refl Echo.started)

Run-IsEcho_example :
    IsEcho echoed.pending ((1 ∷ 2 ∷ []) ∷ []) ((1 ∷ 2 ∷ []) ∷ [])
    × IsFrugal echoed.pending echoed.allocator_
Run-IsEcho_example = Run-IsEcho operator_new handler_size (λ op. omega arith) refl refl echo-Run
