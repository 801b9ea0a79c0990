-- ===== src/Matter/Texts.antt =====
-- Strings of characters given by number, and Buffer.toString("base64"), for hub/matter-store.mjs.
use Prim.Native.Char.{Char, char, nul}
use Prim.Native.Nat.{compare, Ordering, lt, eq, gt}
use ainumbers_helm.Prelude.{
  ℕ, ◌+◌, ◌-◌, ◌*◌, ◌/◌, ◌%◌, String, List, [], ◌∷◌, ltb, ◌==◌, if◌then◌else◌, ◌≡◌, refl,
}

unfoldable pub char_below : (n : ℕ) (o : Ordering) → compare n 55296 ≡ o → Char
char_below n lt e = char n (rw e tt)
char_below n eq e = nul
char_below n gt e = nul

-- A text of characters below the surrogates.
unfoldable pub of_codes : List ℕ → String
unfolding char_below
of_codes [] = String.[]
of_codes (c ∷ cs) = String.◌∷◌ (char_below c (compare c 55296) refl) (of_codes cs)

base64_digit : ℕ → ℕ
base64_digit d =
    if ltb d 26
    then b'A' + d
    else if ltb d 52
    then b'a' + (d - 26)
    else if ltb d 62
    then b'0' + (d - 52)
    else if d == 62
    then b'+'
    else b'/'

unfoldable pub to_base64 : List ℕ → List ℕ
unfolding base64_digit
to_base64 [] = []
to_base64 (a ∷ []) = base64_digit (a / 4) ∷ base64_digit (a % 4 * 16) ∷ b'=' ∷ b'=' ∷ []
to_base64 (a ∷ b ∷ []) =
    base64_digit (a / 4)
    ∷ base64_digit (a % 4 * 16 + b / 16)
    ∷ base64_digit (b % 16 * 4)
    ∷ b'='
    ∷ []
to_base64 (a ∷ b ∷ c ∷ cs) =
    base64_digit (a / 4)
    ∷ base64_digit (a % 4 * 16 + b / 16)
    ∷ base64_digit (b % 16 * 4 + c / 64)
    ∷ base64_digit (c % 64)
    ∷ to_base64 cs

to_base64_run : of_codes (to_base64 (77 ∷ 97 ∷ 110 ∷ 77 ∷ [])) ≡ "TWFuTQ=="
unfolding of_codes to_base64
to_base64_run = refl
