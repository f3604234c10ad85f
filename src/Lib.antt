-- ===== src/Lib.antt =====
-- Verification library of MEDS2end, a signature scheme on trilinear forms over the field of 4093
-- elements.
--
-- A form M has n ^ 3 coefficients. A key pair consists of a seed and of forms that secret matrices
-- make of a public one. A signature answers r challenges about canonical forms: at a challenge below
-- x with a vector, at the challenge x with the seed of the round. The field is below the matrices,
-- these are below the forms, and canonical forms use both; the codec turns field elements into bytes,
-- and meds.c joins all parts to key generation, signing and verification.
--
-- Files and the code that they model, by the path from the root of the repository:
--   Params, Params/Checks  params.h: the macros of a parameter set are a record `Params`, which is an
--                          argument of all that depends on it. q is the constant 4093.
--   Field                  field.h and field.c. `gf_inv_at` is GF_inv with q as an argument.
--   Codec, Codec/Keys      trine_codec.c. A pointer that may be NULL is an option; `alloc` says whether
--                          malloc succeeds; an output is the content that it has after the call.
--   Bitstream and below    bitstream.c: a number is written in a head, whole bytes and a tail.
--   Matrix                 matrixmod.c: an n x n matrix is a list of n * n elements, by rows.
--   Matrix/Systematic      the pmod_mat_*_ct functions of matrixmod.c, the systematic form.
--   Elim and below         matrixelim.c: the elimination carries the matrix, the second matrix that it
--                          transforms alike, the rank and the pivot columns. Elim/Echelon and
--                          Elim/Reduction have the echelon form, Elim/Images and Elim/Linked what the
--                          row operations keep, Elim/Inverse, Elim/Kernel, Elim/Corank, Elim/Line and
--                          Elim/Exists the results.
--   Triform                triform.h and triform.c: evaluation, partial evaluations and the action.
--   Canon                  canonical.c, and the kernel wrappers of triform.c, whose callers it has.
--                          Canon/Anchors, Canon/Scaling and Canon/Apply follow the normalisation through
--                          its arrays, Canon/Ones and Canon/Unique have its algebra, Canon/Rescaled,
--                          Canon/Transfer and Canon/Invariant the comparison of two normalisations.
--   Xof                    hashkdf.c in the build with USE_SHA3; the sponge is the parameter `Shake`.
--   Xof/Cached and below   hashkdf.c in the build with USE_ICCS: growing buffers, and a cache of the
--                          output that is computed again when it is too short. The functions of
--                          iccs/auxfunc.c are the parameter `Iccs`.
--   Sampling               util.c: rejection sampling and the parsing of a digest.
--   Legacy, Legacy/Solve   util.c: the functions that the scheme does not call.
--   Expand, Expand/Pairs   trine_expand.c and corank1.c; Expand/Pairs has the secret matrices, and
--   and Expand/Memory      Expand/Memory the case of two outputs in one array, by their indices.
--   Sign and below         meds.c: Sign/Keypair, Sign/Signing, Sign/Verifying are crypto_sign_keypair,
--                          crypto_sign, and crypto_sign_verify with crypto_sign_open.
--                          Sign/Signing/Answers and Sign/Signing/Output are about the signed message.
--   Adapter and below      iccs/SIG_AlgorithmInstance.c: its error codes are the type `ErrorCode`.
-- Base holds C arrays as lists, loops, bits, regions of buffers, matrices of entries, sums and
-- congruences. Tests holds runs of the model and the theorems at concrete inputs.
--
-- Errors and loops. A function that returns -1 is an Option, `none` being -1, or a `Run` where it has
-- loops that end only by chance: `done`, `failed` for -1, and `running` when the fuel is used up. Such
-- loops are those over random candidates; all others are structural. A read out of range gives 0 and a
-- write there is dropped, where C has no defined result. The loop of GF_inv has fuel 16, which
-- a 16-bit exponent does not use up, that of bit_length_u32 has 32, one for each bit, and that of
-- grow_buffer has 64, since the capacity doubles in every round and fits 64 bits.
--
-- Integers. Elements are natural numbers; the wrap-around of 16-, 32- and 64-bit arithmetic is written
-- out as `% 2 ^ w` where the operands do not exclude it by their range. The accumulators
-- of the matrix loops wrap at 2 ^ 64.
--
-- Not modelled: fips202.c and the other files of iccs, vendored; randombytes.c and osfreq.c, whose
-- outputs are arguments; trine_xof_once in the build with USE_SHA3; printing, the speed tests, and the
-- clearing of secrets. The allocations of meds.c succeed.
pub mod Base
pub mod Params
pub mod Field
pub mod Bitstream
pub mod Codec
pub mod Legacy
pub mod Matrix
pub mod Triform
pub mod Elim
pub mod Canon
pub mod Xof
pub mod Sampling
pub mod Expand
pub mod Sign
pub mod Adapter
mod Tests
