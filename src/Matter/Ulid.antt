-- ===== src/Matter/Ulid.antt =====
-- hub/matter-store.mjs: generateUlid, on the milliseconds and the ten random bytes that it draws.
use ainumbers_helm.Prelude.{
  ℕ, zero, suc, ◌+◌, ◌*◌, ◌/◌, ◌%◌, ◌^◌, ◌<◌, String, Option, none, some, List, [], ◌∷◌, ◌++◌, map,
  All, All-append, length, ◌≡◌, ◌≢◌, refl, ◌∙◌, arith,
}
use native.Mathlib.Nat.{pow-succ'}
use ainumbers_helm.Prelude.Bytes.{codes}

abbrev pub crockford : String
crockford = "0123456789ABCDEFGHJKMNPQRSTVWXYZ"

-- text[i], which is undefined past its end
unfoldable pub char_at : ℕ → List ℕ → Option ℕ
char_at i [] = none
char_at zero (c ∷ cs) = some c
char_at (suc i) (c ∷ cs) = char_at i cs

unfoldable pub digit : ℕ → Option ℕ
unfolding char_at
digit n = char_at n (codes crockford)

-- The loop from the last place to the first; what is left of the time is dropped.
unfoldable pub time_digits : ℕ → ℕ → List ℕ
time_digits zero time = []
time_digits (suc places) time = time_digits places (time / 32) ++ time % 32 ∷ []

-- byte.toString(2).padStart(8, "0"), as the values of its bits
unfoldable pub byte_bits : ℕ → List ℕ
byte_bits b =
    b / 128 % 2
    ∷ b / 64 % 2
    ∷ b / 32 % 2
    ∷ b / 16 % 2
    ∷ b / 8 % 2
    ∷ b / 4 % 2
    ∷ b / 2 % 2
    ∷ b % 2
    ∷ []

unfoldable pub all_bits : List ℕ → List ℕ
unfolding byte_bits
all_bits [] = []
all_bits (b ∷ bs) = byte_bits b ++ all_bits bs

-- parseInt(bits.slice(i * 5, i * 5 + 5), 2) for each i
unfoldable pub random_digits : List ℕ → List ℕ
random_digits (a ∷ b ∷ c ∷ d ∷ e ∷ bits) = (a * 16 + b * 8 + c * 4 + d * 2 + e) ∷ random_digits bits
random_digits _ = []

unfoldable pub generate_ulid : ℕ → List ℕ → List (Option ℕ)
unfolding time_digits all_bits random_digits digit
generate_ulid now random_bytes =
    map digit (time_digits 10 now) ++ map digit (random_digits (all_bits random_bytes))

-- The number of a text of digits.
abbrev pub value_of : ℕ → List ℕ → ℕ
value_of acc [] = acc
value_of acc (d ∷ ds) = value_of (acc * 32 + d) ds

value_of-append : (acc d : ℕ) (ds : List ℕ) → value_of acc (ds ++ d ∷ []) ≡ value_of acc ds * 32 + d
value_of-append acc d [] = refl
value_of-append acc d (e ∷ ds) = value_of-append (acc * 32 + e) d ds

-- The ten digits of the time are those of the milliseconds, which fit until the year 10889.
time_digits-value :
    (places time : ℕ) → time < 32 ^ places → value_of 0 (time_digits places time) ≡ time
unfolding time_digits
time_digits-value zero time h = omega arith
time_digits-value (suc places) time h =
    let below : time / 32 < 32 ^ places = omega (arith, h, pow-succ' 32 places) in
    value_of-append 0 (time % 32) (time_digits places (time / 32))
    ∙ rw (time_digits-value places (time / 32) below) (omega arith)

time_digits-small : (places time : ℕ) → All (λ d. d < 32) (time_digits places time)
unfolding time_digits
time_digits-small zero time = tt
time_digits-small (suc places) time =
    All-append (λ d. d < 32) (time_digits places (time / 32)) _
      (time_digits-small places (time / 32)) (omega arith, tt)

char_at-Defined : (i : ℕ) (cs : List ℕ) → i < length cs → char_at i cs ≢ none
unfolding char_at
char_at-Defined i [] h = absurd (omega arith)
char_at-Defined zero (c ∷ cs) h = cc
char_at-Defined (suc i) (c ∷ cs) h = char_at-Defined i cs (omega (arith, h))

digits-Defined : (ds : List ℕ) → All (λ d. d < 32) ds → All (λ c. c ≢ none) (map digit ds)
unfolding digit
digits-Defined [] h = tt
digits-Defined (d ∷ ds) h = (char_at-Defined d (codes crockford) h.0, digits-Defined ds h.1)

all_bits-small : (bs : List ℕ) → All (λ x. x < 2) (all_bits bs)
unfolding all_bits
all_bits-small [] = tt
all_bits-small (b ∷ bs) = (
  omega arith,
  (
    omega arith,
    (
      omega arith,
      (omega arith, (omega arith, (omega arith, (omega arith, (omega arith, all_bits-small bs))))),
    ),
  ),
)

-- Five bits make a digit; fewer make none.
random_digits-small :
    (bits : List ℕ) → All (λ x. x < 2) bits → All (λ d. d < 32) (random_digits bits)
unfolding random_digits
random_digits-small [] h = tt
random_digits-small (a ∷ []) h = tt
random_digits-small (a ∷ b ∷ []) h = tt
random_digits-small (a ∷ b ∷ c ∷ []) h = tt
random_digits-small (a ∷ b ∷ c ∷ d ∷ []) h = tt
random_digits-small (a ∷ b ∷ c ∷ d ∷ e ∷ bits) h =
    (omega arith, random_digits-small bits h.1.1.1.1.1)

-- An identifier has 26 characters, each one of the alphabet, whatever the clock and the ten random
-- bytes are; and while the milliseconds fit into 50 bits, its first ten are their digits, the most
-- significant first.
pub generate_ulid-Shape :
    (now : ℕ) (a b c d e f g h i j : ℕ)
    → let bytes = a ∷ b ∷ c ∷ d ∷ e ∷ f ∷ g ∷ h ∷ i ∷ j ∷ [] in
      (length (generate_ulid now bytes) ≡ 26)
      × All (λ x. x ≢ none) (generate_ulid now bytes)
      × (now < 32 ^ 10
          → (ds : List ℕ) × (rest : List ℕ) × (generate_ulid now bytes
              ≡ map digit ds ++ map digit rest)
            × (length ds ≡ 10)
            × (value_of 0 ds ≡ now))
unfolding generate_ulid time_digits random_digits all_bits
generate_ulid-Shape now a b c d e f g h i j =
    let random : List ℕ = random_digits (all_bits (a ∷ b ∷ c ∷ d ∷ e ∷ f ∷ g ∷ h ∷ i ∷ j ∷ [])) in
    (
      refl,
      All-append (λ x. x ≢ none) (map digit (time_digits 10 now)) (map digit random)
          (digits-Defined (time_digits 10 now) (time_digits-small 10 now))
          (digits-Defined random (
            random_digits-small (all_bits (a ∷ b ∷ c ∷ d ∷ e ∷ f ∷ g ∷ h ∷ i ∷ j ∷ []))
              (all_bits-small (a ∷ b ∷ c ∷ d ∷ e ∷ f ∷ g ∷ h ∷ i ∷ j ∷ [])))),
      λ small. (time_digits 10 now, random, refl, refl, time_digits-value 10 now small),
    )
