-- ===== src/Codec/Tests.antt =====
-- The codecs (Sylar/util/hash_util.cc, Sylar/util.cc) at concrete inputs.
use my_sylar_server.Base.{◌*◌, ◌/◌, ◌≤◌, ◌≡◌, refl, true, none, some, [], ◌∷◌, length, arith}
use my_sylar_server.Codec.{codes}
use my_sylar_server.Codec.Hex.{hexstring_from_data, data_from_hexstring}
use my_sylar_server.Codec.Base64.{base64encode, base64decode}
use my_sylar_server.Codec.Base64.RoundTrip.{base64decode-base64encode, length-base64decode}
use my_sylar_server.Codec.Url.{url_encode, url_decode}
use my_sylar_server.Codec.Url.RoundTrip.{url_decode-url_encode}
use my_sylar_server.Codec.Trim.{
  find_first_not_of, find_last_not_of, trim, trim_right, trim_lem, strip_left, strip_right,
}
use my_sylar_server.Codec.Split.{split, join, join-split}

encoded : base64encode (codes "light w") ≡ codes "bGlnaHQgdw=="
unfolding base64encode
encoded = refl

decoded : base64decode (codes "bGlnaHQgdw==") ≡ codes "light w"
unfolding base64decode
decoded = refl

refused : base64decode (codes "bGln*HQg") ≡ []
unfolding base64decode
refused = refl

-- Padding that does not end the text.
padded : base64decode (codes "bA==bGln") ≡ []
unfolding base64decode
padded = refl

in_hex : hexstring_from_data (codes "a~") ≡ codes "617e"
unfolding hexstring_from_data
in_hex = refl

from_hex : data_from_hexstring (codes "617E") ≡ some (codes "a~")
unfolding data_from_hexstring
from_hex = refl

not_hex : data_from_hexstring (codes "6x") ≡ none
unfolding data_from_hexstring
not_hex = refl

url_encoded : url_encode (codes "a b+%=~") true ≡ codes "a+b%2B%25=~"
unfolding url_encode
url_encoded = refl

url_decoded : url_decode (codes "a+b%2B%25=~%4") true ≡ codes "a b+%=~%4"
unfolding url_decode
url_decoded = refl

trimmed : trim (codes " a b ") (codes " ") ≡ codes "a b"
unfolding trim find_first_not_of find_last_not_of
trimmed = refl

-- A letter is lost.
trimmed_right : trim_right (codes "ab ") (codes " ") ≡ codes "a"
unfolding trim_right find_last_not_of
trimmed_right = refl

limited : split (codes "a,b,c") b',' 2 ≡ codes "a" ∷ codes "b,c" ∷ []
unfolding split
limited = refl

unlimited : split (codes "a,b,c") b',' 1 ≡ codes "a" ∷ codes "b" ∷ codes "c" ∷ []
unfolding split
unlimited = refl

base64decode-base64encode_example : base64decode (base64encode (codes "light w")) ≡ codes "light w"
base64decode-base64encode_example = base64decode-base64encode (codes "light w") (omega arith)

length-base64decode_example :
    length (base64decode (codes "bGlnaHQ=")) ≤ length (codes "bGlnaHQ=") * 3 / 4
length-base64decode_example = length-base64decode (codes "bGlnaHQ=")

url_decode-url_encode_example : url_decode (url_encode (codes "a b+%") true) true ≡ codes "a b+%"
url_decode-url_encode_example = url_decode-url_encode (codes "a b+%") true (omega arith)

trim_lem_example :
    trim (codes " a b ") (codes " ")
    ≡ strip_right (codes " ") (strip_left (codes " ") (codes " a b "))
trim_lem_example = trim_lem (codes " a b ") (codes " ")

join-split_example : join b',' (split (codes "a,b,c") b',' 2) ≡ codes "a,b,c"
join-split_example = join-split (codes "a,b,c") b',' 2
