-- ===== src/Xof/Cached.antt =====
-- hashkdf.c in the build with USE_ICCS. The functions of iccs/auxfunc.c, code of the competition's
-- interface, are the parameter `Iccs`. `granted` is whether the call of realloc that an operation
-- makes succeeds. Pointers to the state, the buffers and the inputs are not NULL here. size_t and
-- unsigned long long have 64 bits.
pub mod Growth
pub mod Inputs
pub mod Stream
pub mod Squeeze
pub mod Total
pub mod Chunks
use meds2end.Base.{ℕ, zero, suc, ◌+◌, ◌-◌, ◌*◌, ◌/◌, ◌%◌, ◌^◌, ◌>>=◌}
use meds2end.Base.{Bool, true, false, not, ◌||◌, Option, none, some, List, [], ◌++◌, length, take}
use meds2end.Base.{ltb, leb, ◌==◌, if◌then◌else◌, replicate}
use meds2end.Base.Slices.{slice, write_at}

-- The number of values of size_t; SIZE_MAX is one less.
abbrev pub size_limit : ℕ
size_limit = 2 ^ 64

-- Each function takes the length of its output in bits, the message and its length in bits; `none`
-- is a return value other than 0.
pub record Iccs : Type 0 where
  pub pseudo_xof : ℕ → List ℕ → ℕ → Option (List ℕ)
  pub sm3hash : ℕ → List ℕ → ℕ → Option (List ℕ)
  pub pseudohash : ℕ → List ℕ → ℕ → Option (List ℕ)

unfoldable pub size_to_bits_ull : ℕ → Option ℕ
size_to_bits_ull byte_len =
    if ltb ((size_limit - 1) / 8) byte_len then none else some (byte_len * 8 % size_limit)

-- The loop of grow_buffer. The fuel is the number of its rounds, at most 64.
unfoldable pub grow_capacity : ℕ → ℕ → ℕ → ℕ
grow_capacity zero required new_capacity = new_capacity
grow_capacity (suc fuel) required new_capacity =
    let rest = grow_capacity fuel required (new_capacity * 2 % size_limit) in
    if ltb new_capacity required
    then if ltb ((size_limit - 1) / 2) new_capacity then required else rest
    else new_capacity

-- The buffer and its capacity; what realloc adds is set to 0.
unfoldable pub grow_buffer : Bool → List ℕ → ℕ → ℕ → Option (List ℕ × ℕ)
grow_buffer granted buffer capacity required =
    if leb required capacity
    then some (buffer, capacity)
    else let new_capacity = grow_capacity 64 required (if capacity == 0 then 64 else capacity) in
      if not granted
      then none
      else some (
        (if ltb capacity new_capacity
            then take capacity buffer ++ replicate (new_capacity - capacity) 0
            else take new_capacity buffer),
        new_capacity,
      )

-- A buffer, the length in use and the capacity.
pub record Input : Type 0 where
  pub bytes : List ℕ
  pub used : ℕ
  pub capacity : ℕ

unfoldable pub append_input : Bool → Input → List ℕ → Option Input
append_input granted s input = if ltb (size_limit - 1 - s.used) (length input) then none else do
  (buffer, capacity) ← grow_buffer granted s.bytes s.capacity (s.used + length input)
  some (record {
    bytes = write_at buffer s.used input;
    used = s.used + length input;
    capacity = capacity;
  })

-- `trine_xof_state`.
pub record XofCache : Type 0 where
  pub input : Input
  pub output_cache : List ℕ
  pub output_capacity : ℕ
  pub output_offset : ℕ
  pub finalized : Bool
  pub failed : Bool

abbrev pub empty_input : Input
empty_input = record { bytes = []; used = 0; capacity = 0 }

unfoldable pub cache_init : XofCache
cache_init = record {
  input = empty_input;
  output_cache = [];
  output_capacity = 0;
  output_offset = 0;
  finalized = false;
  failed = false;
}

-- The state after the call, and whether it returned 0.
unfoldable pub cache_absorb : Bool → XofCache → List ℕ → XofCache × Bool
cache_absorb granted s input =
    if s.finalized || s.failed then (s, false) else elim (append_input granted s.input input) [
      | none ↦ (record s { failed = true }, false)
      | some appended ↦ (record s { input = appended }, true)
    ]

unfoldable pub cache_finalize : XofCache → XofCache × Bool
cache_finalize s =
    if s.finalized || s.failed then (s, false) else (record s { finalized = true }, true)

module _ (ic : Iccs) where
  -- The branch of trine_xof_squeeze that computes a longer output: the new cache and its capacity.
  -- What a failed step leaves in the cache is not kept; `failed` is set then, and no call reads it.
  unfoldable pub refill : Bool → XofCache → ℕ → Option (List ℕ × ℕ)
  refill granted s required = do
    (cache, capacity) ← grow_buffer granted s.output_cache s.output_capacity required
    output_bits ← size_to_bits_ull capacity
    input_bits ← size_to_bits_ull s.input.used
    output ← ic.pseudo_xof output_bits (take s.input.used s.input.bytes) input_bits
    some (write_at cache 0 output, capacity)

  -- The end of trine_xof_squeeze: the copy out of the cache.
  unfoldable pub copy_out : XofCache → ℕ → XofCache × Option (List ℕ)
  copy_out s n = (
    record s { output_offset = s.output_offset + n },
    some (slice s.output_cache s.output_offset n),
  )

  -- The state after the call, and the output where it returned 0.
  unfoldable pub cache_squeeze : Bool → XofCache → ℕ → XofCache × Option (List ℕ)
  cache_squeeze granted s n =
      if not s.finalized
      then (s, none)
      else if n == 0
      then (s, some [])
      else if s.failed
      then (s, none)
      else if ltb (size_limit - 1 - s.output_offset) n
      then (record s { failed = true }, none)
      else if ltb s.output_capacity (s.output_offset + n)
      then elim (refill granted s (s.output_offset + n)) [
        | none ↦ (record s { failed = true }, none)
        | some (cache, capacity) ↦
            copy_out (record s { output_cache = cache; output_capacity = capacity }) n
      ]
      else copy_out s n

  unfoldable pub cache_once : ℕ → List ℕ → Option (List ℕ)
  cache_once output_len input = do
    output_bits ← size_to_bits_ull output_len
    input_bits ← size_to_bits_ull (length input)
    ic.pseudo_xof output_bits input input_bits

-- trine_xof_release clears both buffers and the state.
unfoldable pub cache_release : XofCache → XofCache
cache_release s = cache_init

-- `trine_hash_state`.
pub record HashInput : Type 0 where
  pub input : Input
  pub finalized : Bool
  pub failed : Bool

unfoldable pub hash_init : HashInput
hash_init = record { input = empty_input; finalized = false; failed = false }

unfoldable pub hash_absorb : Bool → HashInput → List ℕ → HashInput × Bool
hash_absorb granted s input =
    if s.finalized || s.failed then (s, false) else elim (append_input granted s.input input) [
      | none ↦ (record s { failed = true }, false)
      | some appended ↦ (record s { input = appended }, true)
    ]

module _ (ic : Iccs) where
  -- The choice of the hash by the length of the digest.
  unfoldable pub digest_of : ℕ → List ℕ → ℕ → Option (List ℕ)
  digest_of output_len message input_bits =
      if output_len == 32
      then ic.sm3hash 256 message input_bits
      else if output_len == 64
      then ic.pseudohash 512 message input_bits
      else if output_len == 128
      then ic.pseudohash 1024 message input_bits
      else none

  unfoldable pub cached_hash_finalize : HashInput → ℕ → HashInput × Option (List ℕ)
  cached_hash_finalize s output_len =
      if s.finalized || s.failed
      then (s, none)
      else elim (size_to_bits_ull s.input.used >>= λ input_bits.
          digest_of output_len (take s.input.used s.input.bytes) input_bits) [
            | none ↦ (record s { failed = true }, none)
            | some digest ↦ (record s { finalized = true }, some digest)
          ]
