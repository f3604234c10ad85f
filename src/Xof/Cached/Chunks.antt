-- ===== src/Xof/Cached/Chunks.antt =====
-- A message absorbed in any number of calls: the digest and the output are those of the whole.
use mathlib.Core.List.{append-nil, append_assoc}
use meds2end.Base.{ℕ, ◌+◌, ◌*◌, ◌<◌, ◌≡◌, refl, sym, subst, arith, List, [], ◌∷◌, ◌++◌}
use meds2end.Base.{true, false, inl, inr, Option-cases, Option, none, some}
use meds2end.Base.{length, length-append, if◌then◌else◌}
use meds2end.Xof.Cached.{
  size_limit, Iccs, Input, empty_input, append_input, HashInput, hash_init, hash_absorb,
  size_to_bits_ull, digest_of, cached_hash_finalize, XofCache, cache_init, cache_absorb,
  cache_finalize,
}
use meds2end.Xof.Cached.Inputs.{IsInput, length-message, append_input-IsInput, append_input-total}
use meds2end.Xof.Cached.Stream.{IsStream, size_to_bits-total}

-- The chunks one behind the other.
unfoldable pub joined : List (List ℕ) → List ℕ
joined [] = []
joined (c ∷ cs) = c ++ joined cs

-- One call of trine_hash_absorb for each chunk; `none` where one of them fails.
unfoldable pub hash_chunks : List (List ℕ) → HashInput → Option HashInput
hash_chunks [] s = some s
hash_chunks (c ∷ cs) s =
    let (t, ok) = hash_absorb true s c in let rest = hash_chunks cs t in if ok then rest else none

-- One call of trine_xof_absorb for each chunk.
unfoldable pub xof_chunks : List (List ℕ) → XofCache → Option XofCache
xof_chunks [] s = some s
xof_chunks (c ∷ cs) s =
    let (t, ok) = cache_absorb true s c in let rest = xof_chunks cs t in if ok then rest else none

empty-IsInput : IsInput [] empty_input
empty-IsInput = record { size = refl; within = omega arith; fits = omega arith; content = refl }

-- One chunk more.
one_more :
    (message chunk : List ℕ) (s : Input)
    → IsInput message s
    → length message + length chunk < size_limit
    → (t : Input) × (append_input true s chunk ≡ some t) × IsInput (message ++ chunk) t
one_more message chunk s h small =
    let (t, e) =
      append_input-total message s h chunk (omega (arith, small, length-message message s h)) in
    (t, e, append_input-IsInput message s h true chunk e)

-- The chunks behind a first one.
room_left :
    (message chunk : List ℕ) (cs : List (List ℕ))
    → length message + length (joined (chunk ∷ cs)) < size_limit
    → (length message + length chunk < size_limit)
      × (length (message ++ chunk) + length (joined cs) < size_limit)
unfolding joined
room_left message chunk cs small = (
  omega (arith, small, length-append chunk (joined cs)),
  omega (arith, small, length-append chunk (joined cs), length-append message chunk),
)

-- A state that still absorbs.
abbrev hash_taking : Input → HashInput
hash_taking i = record { input = i; finalized = false; failed = false }

abbrev xof_taking : Input → XofCache
xof_taking i = record {
  input = i;
  output_cache = [];
  output_capacity = 0;
  output_offset = 0;
  finalized = false;
  failed = false;
}

hash_chunks_lem :
    (cs : List (List ℕ)) (message : List ℕ) (i : Input)
    → IsInput message i
    → length message + length (joined cs) < size_limit
    → (t : Input) × (hash_chunks cs (hash_taking i) ≡ some (hash_taking t))
      × IsInput (message ++ joined cs) t
unfolding hash_chunks hash_absorb joined
hash_chunks_lem [] message i h small =
    (i, refl, subst (λ m. IsInput m i) (sym (append-nil message)) h)
hash_chunks_lem (c ∷ cs) message i h small =
    let (fits, rest) = room_left message c cs small in
    let (t, taken, ht) = one_more message c i h fits in
    let (u, absorbed, hu) = hash_chunks_lem cs (message ++ c) t ht rest in
    (
      u,
      simp (taken, absorbed) refl,
      subst (λ m. IsInput m u) (append_assoc message c (joined cs)) hu,
    )

xof_chunks_lem :
    (cs : List (List ℕ)) (message : List ℕ) (i : Input)
    → IsInput message i
    → length message + length (joined cs) < size_limit
    → (t : Input) × (xof_chunks cs (xof_taking i) ≡ some (xof_taking t))
      × IsInput (message ++ joined cs) t
unfolding xof_chunks cache_absorb joined
xof_chunks_lem [] message i h small =
    (i, refl, subst (λ m. IsInput m i) (sym (append-nil message)) h)
xof_chunks_lem (c ∷ cs) message i h small =
    let (fits, rest) = room_left message c cs small in
    let (t, taken, ht) = one_more message c i h fits in
    let (u, absorbed, hu) = xof_chunks_lem cs (message ++ c) t ht rest in
    (
      u,
      simp (taken, absorbed) refl,
      subst (λ m. IsInput m u) (append_assoc message c (joined cs)) hu,
    )

-- A message absorbed by trine_hash_absorb in any number of calls has the digest of the whole message:
-- trine_hash_finalize returns what the hash of that digest length gives for the chunks joined. The
-- length of the message in bits fits its type, and the calls of realloc succeed.
pub cached_hash_finalize-joined :
    (ic : Iccs) (cs : List (List ℕ)) (output_len : ℕ)
    → length (joined cs) * 8 < size_limit
    → (t : HashInput) × (hash_chunks cs hash_init ≡ some t)
      × ((cached_hash_finalize ic t output_len).1
          ≡ digest_of ic output_len (joined cs) (length (joined cs) * 8))
unfolding hash_init cached_hash_finalize
cached_hash_finalize-joined ic cs output_len small =
    let (i, absorbed, h) = hash_chunks_lem cs [] empty_input empty-IsInput (omega arith) in
    let size = length-message (joined cs) i h in
    let bits : size_to_bits_ull i.used ≡ some (length (joined cs) * 8) =
      rw (← size) (size_to_bits-total (length (joined cs)) small) in
    (
      hash_taking i,
      absorbed,
      elim (Option-cases (digest_of ic output_len (joined cs) (length (joined cs) * 8))) [
        | inl refused ↦ simp (bits, h.content, refused) refl
        | inr (digest, given) ↦ simp (bits, h.content, given) refl
      ],
    )

-- After the chunks and trine_xof_finalize, the state holds the joined message and has put out nothing.
pub cache_finalize-joined :
    (ic : Iccs) (cs : List (List ℕ))
    → length (joined cs) < size_limit
    → (t u : XofCache) × (xof_chunks cs cache_init ≡ some t)
      × (cache_finalize t ≡ (u, true))
      × IsStream ic (joined cs) 0 u
unfolding cache_init cache_finalize
cache_finalize-joined ic cs small =
    let (i, absorbed, h) = xof_chunks_lem cs [] empty_input empty-IsInput (omega arith) in
    (
      xof_taking i,
      record (xof_taking i) { finalized = true },
      absorbed,
      refl,
      record {
        input = h;
        finalized = refl;
        fine = refl;
        offset = refl;
        within = omega arith;
        fits = omega arith;
        size = refl;
        content = inl refl;
      },
    )
