-- ===== src/Prelude/Bytes.antt =====
-- Node's Buffer conversions and String(n), over lists of bytes.
use Prim.Native.Nat.{ℕ, zero, suc, ◌+◌, ◌-◌, ◌*◌, ◌/◌, ◌%◌, ◌<◌}
use Prim.Native.Char.{code}
use Prim.Native.String.{String}
use mathlib.Core.Path.{◌≡◌, refl}
use mathlib.Core.Bool.{◌&&◌}
use mathlib.Core.Option.{Option, none, some}
use mathlib.Core.List.{List, [], ◌∷◌, ◌++◌}
use native.Mathlib.Omega.{arith}
use ainumbers_helm.Prelude.Tests.{ltb, leb, if◌then◌else◌}

-- The code points of a text.
abbrev pub codes : String → List ℕ
codes String.[] = []
codes (String.◌∷◌ c s) = code c ∷ codes s

-- The UTF-8 bytes of one code point.
utf8_bytes : ℕ → List ℕ
utf8_bytes c =
    if ltb c 0x80
    then c ∷ []
    else if ltb c 0x800
    then (0xc0 + c / 64) ∷ (0x80 + c % 64) ∷ []
    else if ltb c 0x10000
    then (0xe0 + c / 4096) ∷ (0x80 + c / 64 % 64) ∷ (0x80 + c % 64) ∷ []
    else (0xf0 + c / 262144) ∷ (0x80 + c / 4096 % 64) ∷ (0x80 + c / 64 % 64) ∷ (0x80 + c % 64) ∷ []

unfoldable pub encode_utf8 : List ℕ → List ℕ
unfolding utf8_bytes
encode_utf8 [] = []
encode_utf8 (c ∷ cs) = utf8_bytes c ++ encode_utf8 cs

-- Buffer.from(s, "utf8")
unfoldable pub utf8 : String → List ℕ
unfolding encode_utf8
utf8 s = encode_utf8 (codes s)

hex_value : ℕ → Option ℕ
hex_value c =
    if leb b'0' c && leb c b'9'
    then some (c - b'0')
    else if leb b'a' c && leb c b'f'
    then some (c - b'a' + 10)
    else if leb b'A' c && leb c b'F'
    then some (c - b'A' + 10)
    else none

hex_pair : Option ℕ → Option ℕ → List ℕ → List ℕ
hex_pair (some h) (some l) rest = (h * 16 + l) ∷ rest
hex_pair _ _ rest = []

decode_hex : List ℕ → List ℕ
unfolding hex_value hex_pair
decode_hex (h ∷ l ∷ cs) = hex_pair (hex_value h) (hex_value l) (decode_hex cs)
decode_hex _ = []

-- Buffer.from(s, "hex"): stops at the first pair that is not two hexadecimal digits.
unfoldable pub from_hex : String → List ℕ
unfolding decode_hex
from_hex s = decode_hex (codes s)

decimal_from : ℕ → ℕ → List ℕ
decimal_from zero n = []
decimal_from (suc fuel) n =
    let more = decimal_from fuel (n / 10) ++ (b'0' + n % 10) ∷ [] in
    if ltb n 10 then (b'0' + n) ∷ [] else more

-- String(n) as ASCII; a number has fewer digits than its value plus one.
unfoldable pub decimal : ℕ → List ℕ
unfolding decimal_from
decimal n = decimal_from (suc n) n

-- Any fuel above the number gives the same digits.
decimal_from-fuel : (f g n : ℕ) → n < f → n < g → decimal_from f n ≡ decimal_from g n
unfolding decimal_from
decimal_from-fuel zero g n h k = absurd (omega arith)
decimal_from-fuel (suc f) zero n h k = absurd (omega arith)
decimal_from-fuel (suc f) (suc g) n h k = ground (arith, decimal_from-fuel f g (n / 10))

decimal_run : decimal 1209 ≡ codes "1209"
unfolding decimal
decimal_run = refl

utf8_run : utf8 "é€" ≡ 0xc3 ∷ 0xa9 ∷ 0xe2 ∷ 0x82 ∷ 0xac ∷ []
unfolding utf8
utf8_run = refl

from_hex_run : from_hex "00ffA1zz00" ≡ 0 ∷ 255 ∷ 161 ∷ []
unfolding from_hex
from_hex_run = refl
