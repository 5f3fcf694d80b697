-- ===== src/Output/Names/Index.antt =====
-- output/output_file.go: the number in a file's name is read back.
use traffic.Base.Encoding.{ℤ, decimal, All, IsNumeric, decimal-All}
use traffic.Base.{
  ℕ, ◌+◌, ◌-◌, ◌<◌, false, [], ◌∷◌, ◌++◌, append_assoc, append-nil, some, ◌≡◌, ◌≢◌, refl, sym, ap,
  ◌∙◌, inl, inr, arith, ◌==◌, length, take, drop, le→leb, Bool-cases, Option-cases, drop-append_ge,
  take-append-drop, take_all, le→leb,
}
use traffic.Payload.Meta.{Lacks}
use traffic.Http.Search.{Bytes, has_prefix, has_suffix}
use traffic.Output.Names.{
  has_byte, ext, trim_suffix, last_index, digits, positive, negative, atoi, get_file_index,
  without_number, set_file_index,
}
use traffic.Output.Names.Ext.{
  ext-IsExt, IsExt, ext-append, ext-append_none, ext-append_left, trim_suffix-append,
  digits_value-Lacks, last_index-drop, last_index-append, none_ne,
}
use traffic.Output.Names.Number.{IsInt, atoi-decimal}

has_byte-cons :
    (c b : ℕ) (s : Bytes) → (b == c) ≡ false → has_byte c s ≡ false → has_byte c (b ∷ s) ≡ false
unfolding has_byte
has_byte-cons c b s h k = rw (h, k) refl

-- a number holds no byte below the digits but its sign
module _ (c : ℕ) (below : c < b'0') (no_minus : c ≢ b'-') (no_plus : c ≢ b'+') where
  digits-Lacks : (s : Bytes) (n : ℕ) → digits s ≡ some n → has_byte c s ≡ false
  unfolding digits has_byte
  digits-Lacks [] n h = refl
  digits-Lacks (b ∷ s) n h = digits_value-Lacks c 0 (b ∷ s) n below h

  positive-Lacks : (s : Bytes) (n : ℤ) → positive (digits s) ≡ some n → has_byte c s ≡ false
  unfolding positive
  positive-Lacks s n h = elim (Option-cases (digits s)) [
    | inl e ↦ absurd (none_ne n (sym (ap positive e) ∙ h))
    | inr (m, e) ↦ digits-Lacks s m e
  ]

  negative-Lacks : (s : Bytes) (n : ℤ) → negative (digits s) ≡ some n → has_byte c s ≡ false
  unfolding negative
  negative-Lacks s n h = elim (Option-cases (digits s)) [
    | inl e ↦ absurd (none_ne n (sym (ap negative e) ∙ h))
    | inr (m, e) ↦ digits-Lacks s m e
  ]

  pub atoi-Lacks : (s : Bytes) (n : ℤ) → atoi s ≡ some n → has_byte c s ≡ false
  unfolding atoi
  atoi-Lacks [] n h = absurd (none_ne n h)
  atoi-Lacks (b ∷ s) n h = elim (Bool-cases (b == b'-')) [
    | inl e ↦ has_byte-cons c b s (ground arith) (negative-Lacks s n (simp e at h))
    | inr e ↦ elim (Bool-cases (b == b'+')) [
      | inl f ↦ has_byte-cons c b s (ground arith) (positive-Lacks s n (simp (e, f) at h))
      | inr f ↦ positive-Lacks (b ∷ s) n (simp (e, f) at h)
    ]
  ]

numeric-Lacks : (c : ℕ) (s : Bytes) → b'9' < c → All IsNumeric s → Lacks c s
numeric-Lacks c [] l h = tt
numeric-Lacks c (b ∷ s) l h = let k = h.0 in (ground arith, numeric-Lacks c s l h.1)

-- a name without an extension has none when its number is cut off
without_number-ext : (s : Bytes) → ext s ≡ [] → ext (without_number s) ≡ []
unfolding without_number
without_number-ext s h = elim (Option-cases (last_index s b'_')) [
  | inl e ↦ rw (without_number, e) h
  | inr (i, e) ↦ elim (Option-cases (atoi (drop (i + 1) s))) [
    | inl f ↦ rw (without_number, e, f) h
    | inr (n, f) ↦
        let slash =
          has_byte-cons b'/' b'_' (drop (i + 1) s) refl
            (atoi-Lacks b'/' (omega arith) (omega arith) (omega arith) (drop (i + 1) s) n f) in
        rw (without_number, e, f)
          (ext-append_left (take i s) (drop i s) (ap ext (take-append-drop i s) ∙ h)
            (ap (has_byte b'/') (last_index-drop b'_' s i e) ∙ slash))
  ]
]

-- the stem of a name with its number
numbered : Bytes → ℤ → Bytes
numbered stem i = stem ++ (b'_' ∷ decimal i)

get_file_index-stem :
    (name w : Bytes) (n : ℕ) (i : ℤ)
    → trim_suffix name (ext name) ≡ w
    → last_index w b'_' ≡ some n
    → atoi (drop (n + 1) w) ≡ some i
    → get_file_index name ≡ i
unfolding get_file_index
get_file_index-stem name w n i h k l = rw (get_file_index, h, k, h, l) refl

get-numbered :
    (stem e : Bytes) (i : ℤ)
    → IsInt i
    → ext (numbered stem i ++ e) ≡ e
    → get_file_index (numbered stem i ++ e) ≡ i
unfolding numbered
get-numbered stem e i h k =
    let d = numeric-Lacks b'_' (decimal i) (omega arith) (decimal-All i) in
    get_file_index-stem (numbered stem i ++ e) (numbered stem i) (length stem) i
      (ap (trim_suffix (numbered stem i ++ e)) k ∙ trim_suffix-append (numbered stem i) e)
      (last_index-append b'_' stem (decimal i) d)
      (ap atoi (drop-append_ge 1 stem (b'_' ∷ decimal i)) ∙ atoi-decimal i h)

ext-numbered :
    (stem e : Bytes) (i : ℤ)
    → IsInt i
    → IsExt e
    → (e ≡ [] → ext stem ≡ [])
    → ext (numbered stem i ++ e) ≡ e
unfolding numbered
ext-numbered stem (b ∷ e) i h k l = ext-append (numbered stem i) b e k
ext-numbered stem [] i h k l =
    let dot =
      atoi-Lacks b'.' (omega arith) (omega arith) (omega arith) (decimal i) i (atoi-decimal i h) in
    ap ext (append-nil (numbered stem i))
    ∙ ext-append_none stem (b'_' ∷ decimal i) (l refl)
        (has_byte-cons b'.' b'_' (decimal i) refl dot)

trim_suffix-nil : (s : Bytes) → trim_suffix s [] ≡ s
unfolding trim_suffix has_suffix has_prefix
trim_suffix-nil s =
    rw (trim_suffix, le→leb 0 (length s) (omega arith)) (take_all (length s - 0) s (omega arith))

-- The number that a name is given is the number that is read from it, whatever the name was: with or
-- without an extension and a number before.
pub get_file_index-set_file_index :
    (name : Bytes) (i : ℤ) → IsInt i → get_file_index (set_file_index name i) ≡ i
unfolding set_file_index numbered
get_file_index-set_file_index name i h =
    let e = ext name in
    let stem = without_number (trim_suffix name e) in
    let none_left : e ≡ [] → ext stem ≡ [] = λ n.
      without_number-ext (trim_suffix name e)
        (ap ext (ap (trim_suffix name) n ∙ trim_suffix-nil name) ∙ n) in
    ap get_file_index (sym (append_assoc stem (b'_' ∷ decimal i) e))
    ∙ get-numbered stem e i h (ext-numbered stem e i h (ext-IsExt name) none_left)
