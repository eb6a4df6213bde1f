-- ===== src/ByteArray/Tests.antt =====
-- Runs of ByteArray (Sylar/bytearray.cc) at concrete inputs, and the theorems at concrete inputs.
use my_sylar_server.Base.{ℕ, ◌+◌, ◌≤◌, ◌≡◌, refl, inl, some, List, [], ◌∷◌, arith}
use my_sylar_server.ByteArray.{ByteArray, byte_array, little_endian, write}
use my_sylar_server.ByteArray.Chain.{ok}
use my_sylar_server.ByteArray.Valid.{IsValid}
use my_sylar_server.ByteArray.Writes.{Wrote, write_lem}
use my_sylar_server.ByteArray.RoundTrip.{there_and_back}
use my_sylar_server.ByteArray.Spec.{
  Call, writes, reads, seeks, Follows, view, file_run, file_step, run, run-Follows,
  byte_array-IsValid,
}
use my_sylar_server.ByteArray.Fixed.RoundTrip.{fuint64, write_as, read_as, fixed_round_trip}
use my_sylar_server.ByteArray.Varint.Sizes.{bits32, write_uint_as, read_uint_as}
use my_sylar_server.ByteArray.Varint.RoundTrip.{varint_round_trip}
use my_sylar_server.ByteArray.Text.RoundTrip.{vint, write_string, read_string, string_round_trip}

-- A new buffer with blocks of 4 bytes.
abbrev fresh : ByteArray
fresh = byte_array 0 4

fresh-IsValid : IsValid fresh
fresh-IsValid = (byte_array-IsValid 0 4 (omega arith)).0

-- Five bytes in two blocks, with the position at the second byte.
abbrev two_blocks : ByteArray
two_blocks = record {
  base_size = 4;
  position = 1;
  capacity = 8;
  size = 5;
  endian = little_endian;
  root =
      record { mem = 1 ∷ 2 ∷ 3 ∷ 4 ∷ []; size = 4 }
      ∷ record { mem = 5 ∷ 0 ∷ 0 ∷ 0 ∷ []; size = 4 }
      ∷ [];
  cur = some 0;
  junk = 0;
}

two_blocks-IsValid : IsValid two_blocks
two_blocks-IsValid = record {
  positive = omega arith;
  uniform = ((refl, refl), ((refl, refl), tt));
  covered = refl;
  some_node = omega arith;
  behind = omega arith;
  within = omega arith;
  cursor = refl;
}

write_lem_example :
    Wrote two_blocks
      (6 ∷ 7 ∷ 8 ∷ 9 ∷ 10 ∷ 11 ∷ 12 ∷ 13 ∷ [])
      (write (6 ∷ 7 ∷ 8 ∷ 9 ∷ 10 ∷ 11 ∷ 12 ∷ 13 ∷ []) two_blocks)
write_lem_example = write_lem two_blocks-IsValid (6 ∷ 7 ∷ 8 ∷ 9 ∷ 10 ∷ 11 ∷ 12 ∷ 13 ∷ [])

abbrev history : List Call
history = writes (1 ∷ 2 ∷ 3 ∷ 4 ∷ 5 ∷ []) ∷ seeks 1 ∷ reads 3 ∷ reads 0 ∷ []

history_allowed :
    file_run history (view fresh)
    ≡ some (2 ∷ 3 ∷ 4 ∷ [], record { bytes = 1 ∷ 2 ∷ 3 ∷ 4 ∷ 5 ∷ []; place = 4 })
unfolding file_run file_step byte_array
history_allowed = refl

run-Follows_example :
    Follows
      (2 ∷ 3 ∷ 4 ∷ [])
      (record { bytes = 1 ∷ 2 ∷ 3 ∷ 4 ∷ 5 ∷ []; place = 4 })
      (run history fresh)
run-Follows_example = run-Follows history fresh-IsValid history_allowed

fixed_round_trip_example :
    there_and_back (write_as fuint64 81985529216486895) (read_as fuint64) fresh
    ≡ ok (81985529216486895, fresh.position + 8)
fixed_round_trip_example = fixed_round_trip fuint64 81985529216486895 fresh-IsValid (omega arith)

varint_round_trip_example :
    (n : ℕ) × (there_and_back (write_uint_as bits32 4000000000) (read_uint_as bits32) fresh
      ≡ ok (4000000000, fresh.position + n))
    × (1 ≤ n)
    × (n ≤ 5)
varint_round_trip_example = varint_round_trip bits32 4000000000 fresh-IsValid (omega arith)

string_round_trip_example :
    there_and_back (write_string vint (104 ∷ 101 ∷ 121 ∷ [])) (read_string vint) two_blocks
    ≡ ok (104 ∷ 101 ∷ 121 ∷ [], 5)
string_round_trip_example =
    string_round_trip vint (104 ∷ 101 ∷ 121 ∷ []) two_blocks-IsValid (inl (omega arith))
