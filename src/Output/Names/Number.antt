-- ===== src/Output/Names/Number.antt =====
-- output/output_file.go: a decimal number is read back.
use mathlib.Core.Path.{subst}
use traffic.Base.Encoding.{ℤ, pos, negsuc, decimal, digits_onto, All}
use traffic.Base.{
  ℕ, zero, suc, ◌+◌, ◌*◌, ◌/◌, ◌%◌, ◌^◌, ◌≤◌, ◌<◌, false, [], ◌∷◌, some, ◌≡◌, ◌≢◌, refl, ap, ◌∙◌,
  inl, inr, arith, ltb, ◌==◌, if◌then◌else◌, length, le→leb, ltb→lt, lt→ltb, le→leb, Bool-cases,
}
use native.Mathlib.Nat.{pow-suc}
use traffic.Output.Names.Ext.{cons_ne}
use traffic.Http.Search.{Bytes}
use traffic.Output.Names.{digits_value, digits, positive, negative, atoi}

abbrev IsDigit : ℕ → Type 0
IsDigit c = (b'0' ≤ c) × (c ≤ b'9')

digits_onto-IsDigit :
    (fuel n : ℕ) (out : Bytes) → All IsDigit out → All IsDigit (digits_onto fuel n out)
unfolding digits_onto
digits_onto-IsDigit zero n out h = h
digits_onto-IsDigit (suc fuel) n out h =
    ground (arith, digits_onto-IsDigit fuel (n / 10) ((b'0' + n % 10) ∷ out))

length-digits_onto : (fuel n : ℕ) (out : Bytes) → length out ≤ length (digits_onto fuel n out)
unfolding digits_onto
length-digits_onto zero n out = omega arith
length-digits_onto (suc fuel) n out =
    ground (arith, length-digits_onto fuel (n / 10) ((b'0' + n % 10) ∷ out))

digits_value-digit :
    (acc d : ℕ) (s : Bytes)
    → d < 10
    → digits_value acc ((b'0' + d) ∷ s) ≡ digits_value (acc * 10 + d) s
unfolding digits_value
digits_value-digit acc d s h = ground arith

digits_value-digits_onto :
    (fuel n : ℕ) (out : Bytes)
    → n < 10 ^ fuel
    → digits_value 0 (digits_onto fuel n out) ≡ digits_value n out
unfolding digits_onto
digits_value-digits_onto zero n out h = ap (λ m. digits_value m out) (omega arith)
digits_value-digits_onto (suc fuel) n out h = elim (Bool-cases (ltb n 10)) [
  | inl e ↦
      rw (e)
        (digits_value-digit 0 n out (ltb→lt n 10 e) ∙ ap (λ m. digits_value m out) (omega arith))
  | inr e ↦ rw (e) (
      digits_value-digits_onto fuel (n / 10) ((b'0' + n % 10) ∷ out)
        (let p = pow-suc 10 fuel in omega arith)
      ∙ digits_value-digit (n / 10) (n % 10) out (omega arith)
      ∙ ap (λ m. digits_value m out) (omega arith))
]

-- an int of 64 bits
abbrev pub IsInt : ℤ → Type 0
IsInt (pos n) = n < 2 ^ 63
IsInt (negsuc n) = n < 2 ^ 63

digits-digits_value : (s : Bytes) → s ≢ [] → digits s ≡ digits_value 0 s
unfolding digits
digits-digits_value [] h = absurd (h refl)
digits-digits_value (b ∷ s) h = refl

atoi-digits : (s : Bytes) → s ≢ [] → All IsDigit s → atoi s ≡ positive (digits s)
unfolding atoi
atoi-digits [] h k = absurd (h refl)
atoi-digits (b ∷ s) h k =
    let (l, u) = k.0 in
    let m : (b == b'-') ≡ false = ground arith in
    let n : (b == b'+') ≡ false = ground arith in rw (m, n) refl

digits_onto_ne : (fuel n : ℕ) → digits_onto (suc fuel) n [] ≢ []
unfolding digits_onto
digits_onto_ne fuel n h = elim (Bool-cases (ltb n 10)) [
  | inl e ↦ cons_ne (b'0' + n) [] (
      subst
        (λ x.
          (if x then (b'0' + n) ∷ [] else digits_onto fuel (n / 10) ((b'0' + n % 10) ∷ [])) ≡ [])
        e h)
  | inr e ↦
      let k : digits_onto fuel (n / 10) ((b'0' + n % 10) ∷ []) ≡ [] =
        subst
          (λ x.
            (if x then (b'0' + n) ∷ [] else digits_onto fuel (n / 10) ((b'0' + n % 10) ∷ [])) ≡ [])
          e h in
      let l = length-digits_onto fuel (n / 10) ((b'0' + n % 10) ∷ []) in
      let m : length (digits_onto fuel (n / 10) ((b'0' + n % 10) ∷ [])) ≡ 0 = ap length k in
      omega arith
]

digits-digits_onto :
    (fuel n : ℕ) → n < 10 ^ suc fuel → digits (digits_onto (suc fuel) n []) ≡ some n
unfolding digits_value
digits-digits_onto fuel n h =
    digits-digits_value (digits_onto (suc fuel) n []) (digits_onto_ne fuel n)
    ∙ digits_value-digits_onto (suc fuel) n [] h

atoi-digits_onto :
    (fuel n : ℕ) → n < 10 ^ suc fuel → atoi (digits_onto (suc fuel) n []) ≡ positive (some n)
atoi-digits_onto fuel n h =
    atoi-digits (digits_onto (suc fuel) n []) (digits_onto_ne fuel n)
      (digits_onto-IsDigit (suc fuel) n [] tt)
    ∙ ap positive (digits-digits_onto fuel n h)

decimal_pos : (n : ℕ) → decimal (pos n) ≡ digits_onto 19 n []
unfolding decimal
decimal_pos n = refl

decimal_neg : (n : ℕ) → decimal (negsuc n) ≡ b'-' ∷ digits_onto 19 (n + 1) []
unfolding decimal
decimal_neg n = refl

atoi_neg : (s : Bytes) → atoi (b'-' ∷ s) ≡ negative (digits s)
unfolding atoi
atoi_neg s = refl

positive_in_range : (n : ℕ) → n < 2 ^ 63 → positive (some n) ≡ some (pos n)
unfolding positive
positive_in_range n h = rw (lt→ltb n (2 ^ 63) h) refl

negative_in_range : (n : ℕ) → n < 2 ^ 63 → negative (some (n + 1)) ≡ some (negsuc n)
unfolding negative
negative_in_range n h =
    let z : (n + 1 == 0) ≡ false = ground arith in
    rw (z, le→leb (n + 1) (2 ^ 63) (omega arith)) (ap (λ m. some (negsuc m)) (omega arith))

-- `Atoi` reads back what `Itoa` writes.
pub atoi-decimal : (i : ℤ) → IsInt i → atoi (decimal i) ≡ some i
atoi-decimal (pos n) h =
    ap atoi (decimal_pos n) ∙ atoi-digits_onto 18 n (omega arith) ∙ positive_in_range n h
atoi-decimal (negsuc n) h =
    ap atoi (decimal_neg n)
    ∙ atoi_neg (digits_onto 19 (n + 1) [])
    ∙ ap negative (digits-digits_onto 18 (n + 1) (omega arith))
    ∙ negative_in_range n h
