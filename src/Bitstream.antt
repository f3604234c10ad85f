-- ===== src/Bitstream.antt =====
-- bitstream.c: numbers of any bit length one behind the other in a buffer, from the lowest bit on.
-- The positions are uint32_t, and so are the numbers.
pub mod Bytes
pub mod Calls
pub mod Readback
pub mod RoundTrip
use meds2end.Base.{ℕ, ◌+◌, ◌-◌, ◌*◌, ◌/◌, ◌%◌, ◌^◌, for_up, bit_and, bit_or}
use meds2end.Base.{Bool, Option, none, some, List, at, set, ltb, ◌==◌, if◌then◌else◌}

-- `bitstream_t`; `buf` is its field data.
pub record Bitstream : Type 0 where
  pub buf : List ℕ
  pub buf_len : ℕ
  pub byte_pos : ℕ
  pub bit_pos : ℕ

unfoldable pub bs_init : List ℕ → ℕ → Bitstream
bs_init buf buf_len = record { buf = buf; buf_len = buf_len; byte_pos = 0; bit_pos = 0 }

-- The state, and the result, an int, by its value modulo 2 ^ 32.
unfoldable pub bs_finalize : Bitstream → Bitstream × ℕ
bs_finalize bs =
    let byte_pos = (bs.byte_pos + (if ltb 0 bs.bit_pos then 1 else 0)) % 2 ^ 32 in
    (record bs { byte_pos = byte_pos; bit_pos = 0 }, (byte_pos + 2 ^ 32 - 1) % 2 ^ 32)

-- The test whether the bits exceed the buffer.
unfoldable pub exceeds : Bitstream → ℕ → Bool
exceeds bs data_len =
    ltb (bs.buf_len * 8 % 2 ^ 64) ((bs.byte_pos * 8 + bs.bit_pos + data_len) % 2 ^ 32)

-- The bits stay within the current byte, and the position is below its end.
unfoldable pub within_byte : Bitstream → ℕ → Bool
within_byte bs data_len = ltb ((bs.bit_pos + data_len) % 2 ^ 32) 8

-- The end of the branch within one byte: the position moves by the bits, and to the next byte behind
-- the last bit of this one.
unfoldable pub advance : Bitstream → ℕ → Bitstream
advance bs data_len =
    let bit_pos = (bs.bit_pos + data_len) % 2 ^ 32 in
    if ltb 7 bit_pos
    then record bs { byte_pos = (bs.byte_pos + 1) % 2 ^ 32; bit_pos = 0 }
    else record bs { bit_pos = bit_pos }

-- What is left to write, its length, and the stream.
pub record Writing : Type 0 where
  pub value : ℕ
  pub data_len : ℕ
  pub bs : Bitstream

-- The branch for `bit_pos > 0`: the rest of the current byte.
unfoldable pub write_head : Writing → Writing
write_head w =
    let bs = w.bs in
    if ltb 0 bs.bit_pos
    then record {
      value = w.value / 2 ^ (8 - bs.bit_pos);
      data_len = w.data_len - (8 - bs.bit_pos);
      bs = record bs {
        buf =
            set bs.buf bs.byte_pos
              (bit_or (at bs.buf bs.byte_pos) (w.value * 2 ^ bs.bit_pos % 2 ^ 32 % 256));
        byte_pos = bs.byte_pos + 1;
        bit_pos = 0;
      };
    }
    else w

-- One round of `while (data_len >= 8)`.
unfoldable pub write_byte : Writing → Writing
write_byte w =
    let bs = w.bs in
    record {
      value = w.value / 2 ^ 8;
      data_len = w.data_len - 8;
      bs = record bs { buf = set bs.buf bs.byte_pos (w.value % 256); byte_pos = bs.byte_pos + 1 };
    }

-- The branch for the bits that are left.
unfoldable pub write_tail : Writing → Bitstream
write_tail w =
    let bs = w.bs in
    if ltb 0 w.data_len
    then record bs { buf = set bs.buf bs.byte_pos (w.value % 256); bit_pos = w.data_len }
    else bs

-- The loop over the bytes has data_len / 8 rounds. `none` is the result -1.
unfoldable pub bs_write : Bitstream → ℕ → ℕ → Option Bitstream
bs_write bs value data_len =
    if exceeds bs data_len
    then none
    else if within_byte bs data_len
    then some (
        advance
          (record bs {
            buf =
                set bs.buf bs.byte_pos
                  (bit_or (at bs.buf bs.byte_pos) (value * 2 ^ bs.bit_pos % 2 ^ 32) % 256);
          })
          data_len)
    else let w = write_head (record { value = value; data_len = data_len; bs = bs }) in
      some (write_tail (for_up (w.data_len / 8) (λ i. write_byte) w))

-- What is read, its length so far, the length that is left, and the stream.
pub record Reading : Type 0 where
  pub value : ℕ
  pub off : ℕ
  pub data_len : ℕ
  pub bs : Bitstream

unfoldable pub read_head : Reading → Reading
read_head r =
    let bs = r.bs in
    if ltb 0 bs.bit_pos
    then record {
      value = at bs.buf bs.byte_pos / 2 ^ bs.bit_pos;
      off = 8 - bs.bit_pos;
      data_len = r.data_len - (8 - bs.bit_pos);
      bs = record bs { byte_pos = bs.byte_pos + 1; bit_pos = 0 };
    }
    else r

unfoldable pub read_byte : Reading → Reading
read_byte r =
    let bs = r.bs in
    record {
      value = bit_or r.value (at bs.buf bs.byte_pos * 2 ^ r.off % 2 ^ 32);
      off = r.off + 8;
      data_len = r.data_len - 8;
      bs = record bs { byte_pos = bs.byte_pos + 1; bit_pos = 0 };
    }

unfoldable pub read_tail : Reading → ℕ × Bitstream
read_tail r =
    let bs = r.bs in
    if ltb 0 r.data_len
    then (
      bit_or r.value (bit_and (at bs.buf bs.byte_pos) (2 ^ r.data_len - 1) * 2 ^ r.off % 2 ^ 32),
      record bs { bit_pos = r.data_len },
    )
    else (r.value, bs)

-- The result -1 is 2 ^ 32 - 1, as uint32_t.
unfoldable pub bs_read : Bitstream → ℕ → ℕ × Bitstream
bs_read bs data_len =
    if exceeds bs data_len
    then (2 ^ 32 - 1, bs)
    else if within_byte bs data_len
    then (bit_and (at bs.buf bs.byte_pos / 2 ^ bs.bit_pos) (2 ^ data_len - 1), advance bs data_len)
    else let r = read_head (record { value = 0; off = 0; data_len = data_len; bs = bs }) in
      read_tail (for_up (r.data_len / 8) (λ i. read_byte) r)
