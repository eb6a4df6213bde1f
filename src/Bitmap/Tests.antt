-- ===== src/Bitmap/Tests.antt =====
-- The theorems about Bitmap (Sylar/DataStructure/bitmap.cc) at concrete inputs.
use my_sylar_server.Base.{
  ℕ, ◌≡◌, refl, some, none, [], ◌∷◌, true, false, arith, List, ◌++◌, Bool, length, ◌==◌, inl, ◌&&◌,
}
use my_sylar_server.Bitmap.{Bitmap, bitmap}
use my_sylar_server.Bitmap.Word.{count_bits}
use my_sylar_server.Bitmap.Word
use my_sylar_server.Bitmap.Runs.{compressed, uncompress, and_assign}
use my_sylar_server.Bitmap.Bits.{WasSet, set_bit-WasSet}
use my_sylar_server.Bitmap.Combine.{Combined, and_assign-Combined}
use my_sylar_server.Bitmap.RoundTrip.{IsPlain, uncompress-compressed}
use my_sylar_server.Bitmap.Walk.{list_pos_asc}
use my_sylar_server.Bitmap.Members.{members_from}
use my_sylar_server.Bitmap.Listed.{list_pos_asc_lem}
use my_sylar_server.Bitmap.Each.{foreach, feed, foreach-list_pos_asc}
use my_sylar_server.Bitmap.Stream.{write_to, read_from, read_from-write_to}
use my_sylar_server.ByteArray.{ByteArray, byte_array}
use my_sylar_server.ByteArray.Chain.{ok}
use my_sylar_server.ByteArray.Spec.{byte_array-IsValid}
use my_sylar_server.ByteArray.RoundTrip.{there_and_back}

-- 84 numbers: three words of ones, a mixed word, and two words of zeros.
abbrev some_members : Bitmap
some_members = record {
  compress = false;
  size = 84;
  data_size = 6;
  words = 16383 ∷ 16383 ∷ 16383 ∷ 5 ∷ 0 ∷ 0 ∷ [];
}

some_members-IsPlain : IsPlain some_members
some_members-IsPlain = record {
  plain = refl;
  counted = refl;
  filled = refl;
  bounded = omega arith;
  members =
      (omega arith, (omega arith, (omega arith, (omega arith, (omega arith, (omega arith, _))))));
}

-- The runs and the word of its compressed form.
compressed-some_members : (compressed some_members).words ≡ 49194 ∷ 5 ∷ 32796 ∷ []
unfolding compressed count_bits
compressed-some_members = refl

uncompress-compressed_example : uncompress (compressed some_members) ≡ Word.ok some_members
uncompress-compressed_example = uncompress-compressed some_members some_members-IsPlain

-- A callback that keeps what it gets and stops with the second call.
abbrev two_calls : ℕ → List ℕ → List ℕ × Bool
two_calls x seen = (seen ++ x ∷ [], length seen == 0)

-- 60 numbers: three members in five words.
abbrev few_members : Bitmap
few_members = record { compress = false; size = 60; data_size = 5; words = 5 ∷ 0 ∷ 0 ∷ 0 ∷ 4 ∷ [] }

few_members_listed : list_pos_asc few_members ≡ some (0 ∷ 2 ∷ 58 ∷ [])
unfolding list_pos_asc
few_members_listed = refl

-- Three words are not enough for 84 numbers.
listed_behind : list_pos_asc (record some_members { data_size = 3 }) ≡ none
unfolding list_pos_asc
listed_behind = refl

foreach-list_pos_asc_example :
    foreach two_calls few_members [] ≡ some (feed two_calls (0 ∷ 2 ∷ 58 ∷ []) []).0
foreach-list_pos_asc_example =
    foreach-list_pos_asc two_calls few_members (0 ∷ 2 ∷ 58 ∷ []) [] few_members_listed

-- A new buffer with blocks of 8 bytes.
abbrev buffer : ByteArray
buffer = byte_array 0 8

read_from-write_to_example :
    there_and_back (write_to some_members) (read_from 7 (bitmap 3 0)) buffer
    ≡ ok ((true, some_members), 21)
unfolding byte_array
read_from-write_to_example =
    read_from-write_to 7 some_members (bitmap 3 0)
      (record { size_fits = omega arith; counted = refl; count_fits = omega arith })
      (byte_array-IsValid 0 8 (omega arith)).0 (inl (omega arith))

-- Every second number of the second word and the first of the fourth word.
abbrev others : Bitmap
others = record {
  compress = false;
  size = 84;
  data_size = 6;
  words = 0 ∷ 5461 ∷ 0 ∷ 1 ∷ 0 ∷ 0 ∷ [];
}

set_bit-WasSet_example : WasSet 43 true some_members
set_bit-WasSet_example = set_bit-WasSet 43 true some_members (omega arith)

and_assign-Combined_example :
    Combined (λ x y. x && y) some_members others (and_assign some_members others)
and_assign-Combined_example =
    and_assign-Combined some_members others (record { plain = refl; counted = refl; filled = refl })
      (record { plain = refl; counted = refl; filled = refl }) refl

list_pos_asc_lem_example : list_pos_asc some_members ≡ some (members_from 84 0 some_members)
list_pos_asc_lem_example =
    list_pos_asc_lem some_members (record { plain = refl; counted = refl; filled = refl })
