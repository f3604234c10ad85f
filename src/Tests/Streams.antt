-- ===== src/Tests/Streams.antt =====
-- bitstream.c: runs, and the theorem at a concrete input.
use meds2end.Base.{◌≡◌, refl, arith, [], ◌∷◌, some, none, for_up}
use meds2end.Bitstream.{
  Bitstream, bs_init, bs_finalize, exceeds, within_byte, bs_write, write_head, write_byte,
  write_tail, bs_read, read_head, read_byte, read_tail,
}
use meds2end.Bitstream.Calls.{IsStream}
use meds2end.Bitstream.RoundTrip.{bs_read-bs_write}

-- Five bits are taken in the first byte.
abbrev partial_byte : Bitstream
partial_byte = record { buf = 21 ∷ 0 ∷ 0 ∷ 0 ∷ []; buf_len = 4; byte_pos = 0; bit_pos = 5 }

abbrev after : Bitstream
after = record { buf = 181 ∷ 154 ∷ 122 ∷ 2 ∷ []; buf_len = 4; byte_pos = 3; bit_pos = 2 }

write_run : bs_write partial_byte 1299669 21 ≡ some after
unfolding bs_write exceeds within_byte write_head write_byte write_tail for_up
write_run = refl

read_run : bs_read (record after { byte_pos = 0; bit_pos = 5 }) 21 ≡ (1299669, after)
unfolding bs_read exceeds within_byte read_head read_byte read_tail for_up
read_run = refl

write_fails : bs_write partial_byte 0 28 ≡ none
unfolding bs_write exceeds within_byte write_head write_byte write_tail for_up
write_fails = refl

finalize_run : bs_finalize (bs_init (7 ∷ []) 1) ≡ (bs_init (7 ∷ []) 1, 4294967295)
unfolding bs_finalize bs_init
finalize_run = refl

partial_byte-IsStream : IsStream partial_byte
partial_byte-IsStream = record {
  size = refl;
  fits = omega arith;
  byte = omega arith;
  bit = omega arith;
  clear = omega arith;
}

bs_read-bs_write_example :
    (t : Bitstream) × (bs_write partial_byte 1299669 21 ≡ some t)
    × ((bs_read (record t { byte_pos = 0; bit_pos = 5 }) 21).0 ≡ 1299669)
    × ((bs_read (record t { byte_pos = 0; bit_pos = 5 }) 21).1.byte_pos ≡ t.byte_pos)
    × ((bs_read (record t { byte_pos = 0; bit_pos = 5 }) 21).1.bit_pos ≡ t.bit_pos)
bs_read-bs_write_example =
    bs_read-bs_write partial_byte 1299669 21 partial_byte-IsStream (omega arith) (omega arith)
      (omega arith)
