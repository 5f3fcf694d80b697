-- ===== src/Messages/Version.antt =====
-- message/http.go: the version in a status line.
use traffic.Base.Encoding.{ℤ, pos, decimal}
use traffic.Base.{
  ℕ, ◌+◌, ◌≤◌, true, false, [], ◌∷◌, ◌++◌, some, le→leb, length, take, drop, ◌≡◌, refl, sym, ap,
  ◌∙◌, arith, inl, inr, Bool-cases, take-length-append, drop-append_ge,
}
use traffic.Http.Equal.{equal-same}
use traffic.Http.Search.{Bytes, codes, equal, has_prefix}
use traffic.Messages.{version_number, version_numbers, parse_http_version}
use traffic.Output.Names.{has_byte}
use traffic.Output.Names.Index.{atoi-Lacks}
use traffic.Output.Names.Number.{atoi-decimal}
use traffic.Payload.{index_byte}
use traffic.Payload.Meta.{Lacks, index_byte-append}

-- A version as it is written.
abbrev pub written_version : ℕ → ℕ → Bytes
written_version major minor = codes "HTTP/" ++ (decimal (pos major) ++ (b'.' ∷ decimal (pos minor)))

Lacks-has_byte : (c : ℕ) (s : Bytes) → has_byte c s ≡ false → Lacks c s
unfolding has_byte
Lacks-has_byte c [] h = tt
Lacks-has_byte c (b ∷ s) h = (ground arith, Lacks-has_byte c s (ground arith))

version_number-decimal : (n : ℕ) → n ≤ 1000000 → version_number (decimal (pos n)) ≡ some (pos n)
unfolding version_number
version_number-decimal n h =
    rw (atoi-decimal (pos n) (omega arith), version_number, le→leb n 1000000 h) refl

version_numbers-of :
    (vers p q : Bytes) (a b : ℤ)
    → has_prefix vers (codes "HTTP/") ≡ true
    → index_byte vers b'.' ≡ some (length p)
    → version_number (drop 5 (take (length p) vers)) ≡ some a
    → version_number (drop (length p + 1) vers) ≡ some b
    → version_numbers vers ≡ some (a, b)
unfolding version_numbers
version_numbers-of vers p q a b h i j k = rw (version_numbers, h, i, j, k) refl

version_numbers-written :
    (major minor : ℕ)
    → major ≤ 1000000
    → minor ≤ 1000000
    → version_numbers (written_version major minor) ≡ some (pos major, pos minor)
unfolding has_prefix
version_numbers-written major minor h k =
    let d = decimal (pos major) in
    let p = codes "HTTP/" ++ d in
    let rest = decimal (pos minor) in
    let int = atoi-decimal (pos major) (omega arith) in
    let dotless =
      Lacks-has_byte b'.' d
        (atoi-Lacks b'.' (omega arith) (omega arith) (omega arith) d (pos major) int) in
    let lacks : Lacks b'.' p =
      (omega arith, (omega arith, (omega arith, (omega arith, (omega arith, dotless))))) in
    version_numbers-of (written_version major minor) p rest (pos major) (pos minor) refl
      (index_byte-append p rest b'.' lacks)
      (ap (λ s. version_number (drop 5 s)) (take-length-append p (b'.' ∷ rest))
        ∙ version_number-decimal major h)
      (ap version_number (drop-append_ge 1 p (b'.' ∷ rest)) ∙ version_number-decimal minor k)

usual_one : version_numbers (codes "HTTP/1.1") ≡ some (pos 1, pos 1)
unfolding version_numbers
usual_one = refl

usual_zero : version_numbers (codes "HTTP/1.0") ≡ some (pos 1, pos 0)
unfolding version_numbers
usual_zero = refl

parse_http_version-version_numbers : (vers : Bytes) → parse_http_version vers ≡ version_numbers vers
unfolding parse_http_version
parse_http_version-version_numbers vers = elim (Bool-cases (equal vers (codes "HTTP/1.1"))) [
  | inl e ↦
      rw (parse_http_version, e)
        (sym (ap version_numbers (equal-same vers (codes "HTTP/1.1") e) ∙ usual_one))
  | inr e ↦ elim (Bool-cases (equal vers (codes "HTTP/1.0"))) [
    | inl f ↦
        rw (parse_http_version, e, f)
          (sym (ap version_numbers (equal-same vers (codes "HTTP/1.0") f) ∙ usual_zero))
    | inr f ↦ rw (parse_http_version, e, f) refl
  ]
]

-- A version with numbers up to 1000000 is read back as it was written, the usual two included.
parse_http_version-written_version :
    (major minor : ℕ)
    → major ≤ 1000000
    → minor ≤ 1000000
    → parse_http_version (written_version major minor) ≡ some (pos major, pos minor)
parse_http_version-written_version major minor h k =
    parse_http_version-version_numbers (written_version major minor)
    ∙ version_numbers-written major minor h k
