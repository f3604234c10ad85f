-- ===== src/Tests/Cached.antt =====
-- hashkdf.c with USE_ICCS: runs and the theorems at concrete inputs.
use meds2end.Base.{ℕ, zero, suc, ◌*◌, ◌/◌, ◌≤◌, ◌≡◌, refl, ap, ◌∙◌, arith, List, [], ◌∷◌}
use meds2end.Base.{true, false, inr, some, length, length-replicate, replicate, take}
use meds2end.Base.Slices.{slice, write_at}
use meds2end.Xof.Cached.{
  Iccs, XofCache, grow_capacity, grow_buffer, size_to_bits_ull, refill, copy_out, cache_squeeze,
  cache_once, HashInput, hash_init, cached_hash_finalize, digest_of, cache_init, cache_finalize,
}
use meds2end.Xof.Cached.Stream.{IsXof, IsStream}
use meds2end.Xof.Cached.Squeeze.{cache_squeeze-slice}
use meds2end.Xof.Cached.Total.{cache_squeeze-total}
use meds2end.Xof.Cached.Chunks.{
  joined, hash_chunks, xof_chunks, cached_hash_finalize-joined, cache_finalize-joined,
}

-- An output function whose bytes are all 7, and hashes that are all 5.
abbrev sevens : Iccs
sevens = record {
  pseudo_xof = λ output_bits message input_bits. some (replicate (output_bits / 8) 7);
  sm3hash = λ bits message input_bits. some (replicate (bits / 8) 5);
  pseudohash = λ bits message input_bits. some (replicate (bits / 8) 5);
}

take-replicate : (n k : ℕ) → n ≤ k → take {A = ℕ} n (replicate k 7) ≡ replicate n 7
take-replicate zero k h = refl
take-replicate (suc n) zero h = absurd (omega arith)
take-replicate (suc n) (suc k) h = ap (λ (xs : List ℕ). 7 ∷ xs) (take-replicate n k (omega arith))

bytes_of : (n : ℕ) → n * 8 / 8 ≡ n
bytes_of n = omega arith

sevens-IsXof : IsXof sevens
sevens-IsXof = record {
  size = λ n message bits {out} e.
      let same : replicate (n * 8 / 8) 7 ≡ out = cc e in
      rw (← same) (length-replicate {A = ℕ} (n * 8 / 8) 7 ∙ bytes_of n);
  start = λ n k message bits {short} {long} le es el.
      let same_s : replicate (n * 8 / 8) 7 ≡ short = cc es in
      let same_l : replicate (k * 8 / 8) 7 ≡ long = cc el in
      rw (← same_s, ← same_l, bytes_of n, bytes_of k) (take-replicate n k le);
}

-- A state that holds two bytes and has put out one.
abbrev one_out : XofCache
one_out = record {
  input = record { bytes = 1 ∷ 2 ∷ []; used = 2; capacity = 2 };
  output_cache = 7 ∷ 7 ∷ [];
  output_capacity = 2;
  output_offset = 1;
  finalized = true;
  failed = false;
}

one_out-IsStream : IsStream sevens (1 ∷ 2 ∷ []) 1 one_out
one_out-IsStream = record {
  input = record { size = refl; within = omega arith; fits = omega arith; content = refl };
  finalized = refl;
  fine = refl;
  offset = refl;
  within = omega arith;
  fits = omega arith;
  size = refl;
  content = inr refl;
}

squeeze_run : cache_squeeze sevens true one_out 3 ≡ (
  record one_out { output_cache = replicate 4 7; output_capacity = 4; output_offset = 4 },
  some (7 ∷ 7 ∷ 7 ∷ []),
)
unfolding cache_squeeze refill grow_buffer grow_capacity size_to_bits_ull copy_out write_at
squeeze_run = refl

once_run : cache_once sevens 5 (1 ∷ 2 ∷ []) ≡ some (7 ∷ 7 ∷ 7 ∷ 7 ∷ 7 ∷ [])
unfolding cache_once size_to_bits_ull
once_run = refl

cache_squeeze-slice_example :
    IsStream sevens
      (1 ∷ 2 ∷ [])
      4
      (record one_out { output_cache = replicate 4 7; output_capacity = 4; output_offset = 4 })
    × (7 ∷ 7 ∷ 7 ∷ [] ≡ slice (7 ∷ 7 ∷ 7 ∷ 7 ∷ 7 ∷ []) 1 3)
cache_squeeze-slice_example =
    cache_squeeze-slice sevens sevens-IsXof (1 ∷ 2 ∷ []) 1 one_out one_out-IsStream true 3 5
      squeeze_run once_run (omega arith)

cache_squeeze-total_example :
    (t : XofCache) × (out : List ℕ) × (cache_squeeze sevens true one_out 3 ≡ (t, some out))
cache_squeeze-total_example =
    cache_squeeze-total sevens sevens-IsXof (1 ∷ 2 ∷ []) 1 one_out one_out-IsStream
      (λ output_bits some_bits below. (replicate (output_bits / 8) 7, refl)) 3 (omega arith)
      (omega arith)

abbrev two_chunks : List (List ℕ)
two_chunks = (1 ∷ 2 ∷ []) ∷ (3 ∷ []) ∷ []

two_chunks-joined : joined two_chunks ≡ 1 ∷ 2 ∷ 3 ∷ []
unfolding joined
two_chunks-joined = refl

cached_hash_finalize-joined_example :
    (t : HashInput) × (hash_chunks two_chunks hash_init ≡ some t)
    × ((cached_hash_finalize sevens t 32).1
        ≡ digest_of sevens 32 (joined two_chunks) (length (joined two_chunks) * 8))
cached_hash_finalize-joined_example =
    cached_hash_finalize-joined sevens two_chunks 32 (rw (two_chunks-joined) (omega arith))

cache_finalize-joined_example :
    (t u : XofCache) × (xof_chunks two_chunks cache_init ≡ some t)
    × (cache_finalize t ≡ (u, true))
    × IsStream sevens (joined two_chunks) 0 u
cache_finalize-joined_example =
    cache_finalize-joined sevens two_chunks (rw (two_chunks-joined) (omega arith))
