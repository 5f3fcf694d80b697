-- ===== src/Listener/Magic.antt =====
-- listener/ip_listener.go: the packets that the test for the Dubbo protocol lets through.
use traffic.Base.Encoding.{hex, hex_digit}
use traffic.Base.Outcome.{Outcome, ok, slice, slice-take}
use traffic.Base.{
  ℕ, ◌<◌, Bool, true, [], ◌∷◌, ◌≡◌, ◌↔◌, ap, inl, inr, arith, leb, ◌==◌, length, Bool-cases, leb→le,
  ◌/◌, ◌%◌,
}
use traffic.Http.Search.{Bytes, codes, equal}
use traffic.Listener.{filter_package}
use traffic.Packet.{HdrError}

hex_digit_iff : (d c : ℕ) → d < 16 → c < 16 → ((hex_digit d == hex_digit c) ≡ true) ↔ (d ≡ c)
unfolding hex_digit
hex_digit_iff d c h k = ground arith

magic_iff :
    (x y z w : ℕ)
    → x < 16
    → y < 16
    → z < 16
    → w < 16
    → (equal (hex_digit x ∷ hex_digit y ∷ hex_digit z ∷ hex_digit w ∷ []) (codes "dabb") ≡ true)
      ↔ ((x ≡ 13) × (y ≡ 10) × (z ≡ 11) × (w ≡ 11))
unfolding equal hex_digit
magic_iff x y z w hx hy hz hw =
    let i = hex_digit_iff x 13 hx (omega arith) in
    let j = hex_digit_iff y 10 hy (omega arith) in
    let k = hex_digit_iff z 11 hz (omega arith) in
    let l = hex_digit_iff w 11 hw (omega arith) in ground arith

ok-Bool : {x y : Bool} → ◌≡◌ {A = Outcome HdrError Bool} (ok x) (ok y) → x ≡ y
ok-Bool {x = x} e = ap (λ m. elim m [ ok z ↦ z | _ ↦ x ]) e

first_digits :
    (a b : ℕ) (s : Bytes)
    → slice {E = HdrError} (hex (a ∷ b ∷ s)) 0 4
      ≡ ok (hex_digit (a / 16) ∷ hex_digit (a % 16) ∷ hex_digit (b / 16) ∷ hex_digit (b % 16) ∷ [])
unfolding hex
first_digits a b s = slice-take {E = HdrError} (hex (a ∷ b ∷ s)) 4 (omega arith)

-- Of packets of bytes, the test for the Dubbo protocol lets through exactly those of more than 17
-- bytes that begin with the bytes 0xda and 0xbb.
filter_package_iff :
    (a b : ℕ) (s : Bytes)
    → a < 256
    → b < 256
    → (filter_package {E = HdrError} true (a ∷ b ∷ s) ≡ ok true)
      ↔ ((17 < length (a ∷ b ∷ s)) × (a ≡ 0xda) × (b ≡ 0xbb))
unfolding filter_package
filter_package_iff a b s ha hb =
    let m =
      magic_iff (a / 16) (a % 16) (b / 16) (b % 16) (omega arith) (omega arith) (omega arith)
        (omega arith) in
    elim (Bool-cases (leb (length (a ∷ b ∷ s)) 17)) [
      | inl short ↦
          let l = leb→le (length (a ∷ b ∷ s)) 17 short in
          (
            λ h. let k = rw (filter_package, short) at h in absurd cc,
            λ (n, e, f). absurd (omega arith),
          )
      | inr long ↦ (
        λ h.
            let k = m.0 (ok-Bool (rw (filter_package, long, first_digits a b s) at h)) in
            let n : 17 < length (a ∷ b ∷ s) = ground arith in (n, omega arith, omega arith),
        λ (n, e, f).
            rw (filter_package, long, first_digits a b s)
              (ap ok (m.1 (omega arith, omega arith, omega arith, omega arith))),
      )
    ]
