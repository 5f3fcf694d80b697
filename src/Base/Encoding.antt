-- ===== src/Base/Encoding.antt =====
-- What the source uses of the standard library to write numbers: `binary.BigEndian.PutUint64` and
-- `PutUint32`, `hex.Encode`, and `%d` of package fmt on an int64.
use Prim.Native.Nat.{ℕ, zero, suc, ◌+◌, ◌-◌, ◌*◌, ◌/◌, ◌%◌, ◌^◌, ◌≤◌, ◌<◌}
use mathlib.Core.Path.{◌≡◌, refl, sym, ap, ◌∙◌}
use mathlib.Core.List.{List, [], ◌∷◌, ◌++◌}
use native.Mathlib.Omega.{arith}
use native.Mathlib.Nat.{pow-suc}
use traffic.Base.Tests.{ltb, if◌then◌else◌}
use traffic.Base.Lists.{length, length-append}

-- the `k` low bytes of a number, the highest first
unfoldable pub big_endian : ℕ → ℕ → List ℕ
big_endian zero n = []
big_endian (suc k) n = big_endian k (n / 256) ++ (n % 256 ∷ [])

unfoldable pub hex_digit : ℕ → ℕ
hex_digit d = if ltb d 10 then b'0' + d else b'a' + (d - 10)

unfoldable pub hex : List ℕ → List ℕ
unfolding hex_digit
hex [] = []
hex (b ∷ s) = hex_digit (b / 16) ∷ hex_digit (b % 16) ∷ hex s

-- decimal digits of a number below 10 ^ fuel, in front of `out`
unfoldable pub digits_onto : ℕ → ℕ → List ℕ → List ℕ
digits_onto zero n out = out
digits_onto (suc fuel) n out =
    let rest = digits_onto fuel (n / 10) ((b'0' + n % 10) ∷ out) in
    if ltb n 10 then (b'0' + n) ∷ out else rest

-- An int64: `negsuc n` is -(n + 1).
pub data ℤ : Type 0 where
  pos negsuc : ℕ → ℤ

-- `%d`; 19 digits hold every int64
unfoldable pub decimal : ℤ → List ℕ
unfolding digits_onto
decimal (pos n) = digits_onto 19 n []
decimal (negsuc n) = b'-' ∷ digits_onto 19 (n + 1) []

-- Each element of a list has the property.
abbrev pub All {ℓ κ} : {A : Type ℓ} → (A → Type κ) → List A → Type κ
All P [] = Unit
All P (x ∷ xs) = P x × All P xs

pub All-append {ℓ κ} :
    {A : Type ℓ} (P : A → Type κ) (xs ys : List A) → All P xs → All P ys → All P (xs ++ ys)
All-append P [] ys _ hy = hy
All-append P (x ∷ xs) ys (px, hx) hy = (px, All-append P xs ys hx hy)

-- The bytes of decimal numbers: digits and the sign.
abbrev pub IsNumeric : ℕ → Type 0
IsNumeric c = (b'-' ≤ c) × (c ≤ b'9')

digits_onto-All :
    (fuel n : ℕ) (out : List ℕ) → All IsNumeric out → All IsNumeric (digits_onto fuel n out)
unfolding digits_onto
digits_onto-All zero n out h = h
digits_onto-All (suc fuel) n out h =
    ground (arith, digits_onto-All fuel (n / 10) ((b'0' + n % 10) ∷ out))

pub decimal-All : (n : ℤ) → All IsNumeric (decimal n)
unfolding decimal
decimal-All (pos n) = digits_onto-All 19 n [] tt
decimal-All (negsuc n) = (omega arith, digits_onto-All 19 (n + 1) [] tt)

-- the number that bytes stand for, behind `acc`
from_bytes : ℕ → List ℕ → ℕ
from_bytes acc [] = acc
from_bytes acc (b ∷ s) = from_bytes (acc * 256 + b) s

from_bytes-append :
    (acc : ℕ) (s t : List ℕ) → from_bytes acc (s ++ t) ≡ from_bytes (from_bytes acc s) t
unfolding from_bytes
from_bytes-append acc [] t = refl
from_bytes-append acc (b ∷ s) t = from_bytes-append (acc * 256 + b) s t

from_bytes-big_endian : (k n : ℕ) → n < 256 ^ k → from_bytes 0 (big_endian k n) ≡ n
unfolding big_endian from_bytes
from_bytes-big_endian zero n h = omega arith
from_bytes-big_endian (suc k) n h =
    from_bytes-append 0 (big_endian k (n / 256)) (n % 256 ∷ [])
    ∙ omega (arith, from_bytes-big_endian k (n / 256) (omega (arith, pow-suc 256 k)))

pub length-big_endian : (k n : ℕ) → length (big_endian k n) ≡ k
unfolding big_endian
length-big_endian zero n = refl
length-big_endian (suc k) n =
    omega
      (arith, length-append (big_endian k (n / 256)) (n % 256 ∷ []), length-big_endian k (n / 256))

-- the bytes that hexadecimal digits stand for
unhex_digit : ℕ → ℕ
unhex_digit c = if ltb c b'a' then c - b'0' else c - b'a' + 10

unhex : List ℕ → List ℕ
unhex [] = []
unhex (h ∷ []) = []
unhex (h ∷ l ∷ s) = (unhex_digit h * 16 + unhex_digit l) ∷ unhex s

unhex-hex : (s : List ℕ) → All (λ b. b < 256) s → unhex (hex s) ≡ s
unfolding hex unhex unhex_digit
unhex-hex [] h = refl
unhex-hex (b ∷ s) h = ground (arith, unhex-hex s h.1)

-- Hexadecimal text determines the bytes.
pub hex-injective :
    (s t : List ℕ) → All (λ b. b < 256) s → All (λ b. b < 256) t → hex s ≡ hex t → s ≡ t
hex-injective s t hs ht e = sym (unhex-hex s hs) ∙ ap unhex e ∙ unhex-hex t ht

pub big_endian-All : (k n : ℕ) → All (λ b. b < 256) (big_endian k n)
unfolding big_endian
big_endian-All zero n = tt
big_endian-All (suc k) n =
    All-append (λ b. b < 256) (big_endian k (n / 256)) (n % 256 ∷ []) (big_endian-All k (n / 256))
      (omega arith, tt)

-- The bytes of a number that they hold determine it.
pub big_endian-injective :
    (k n m : ℕ) → n < 256 ^ k → m < 256 ^ k → big_endian k n ≡ big_endian k m → n ≡ m
big_endian-injective k n m hn hm e =
    sym (from_bytes-big_endian k n hn) ∙ ap (from_bytes 0) e ∙ from_bytes-big_endian k m hm

pub hex-All : (s : List ℕ) → All (λ b. b < 256) s → All (λ c. (b'0' ≤ c) × (c ≤ b'f')) (hex s)
unfolding hex
hex-All [] h = tt
hex-All (b ∷ s) h = ground (arith, hex-All s h.1)
