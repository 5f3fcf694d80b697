-- ===== src/Output/Names/Ext.antt =====
-- output/output_file.go: extensions of names, and the searches in them.
use mathlib.Core.Path.{subst}
use traffic.Base.{
  ℕ, suc, ◌+◌, ◌-◌, ◌*◌, ◌<◌, Bool, true, false, not, ◌&&◌, [], ◌∷◌, ◌++◌, Option, none, some, ◌≡◌,
  ◌≢◌, refl, sym, ap, ◌∙◌, inl, inr, ◌⊎◌, arith, leb, ◌==◌, if◌then◌else◌, length, drop, ◌||◌,
  le→leb, ==_iff, Bool-cases, Option-cases, length-append, drop-length-append, take-length-append,
}
use traffic.Payload.Meta.{Lacks}
use traffic.Http.Search.{Bytes, has_prefix, has_suffix}
use traffic.Output.Names.{has_byte, ext, trim_suffix, last_index, digits_value}

pub cons_ne : (c : ℕ) (t : Bytes) → c ∷ t ≢ []
cons_ne c t e = cc

or_assoc : (a b c : Bool) → (a || (b || c)) ≡ ((a || b) || c)
or_assoc true b c = refl
or_assoc false b c = refl

pub none_ne : {A : Type 0} (n : A) → none ≢ some n
none_ne n e = cc

pub has_byte-append : (c : ℕ) (s t : Bytes) → has_byte c (s ++ t) ≡ (has_byte c s || has_byte c t)
unfolding has_byte
has_byte-append c [] t = refl
has_byte-append c (b ∷ s) t =
    rw (has_byte-append c s t) (or_assoc (b == c) (has_byte c s) (has_byte c t))

pub has_byte-Lacks : (c : ℕ) (s : Bytes) → Lacks c s → has_byte c s ≡ false
unfolding has_byte
has_byte-Lacks c [] h = refl
has_byte-Lacks c (b ∷ s) h = let k = h.0 in ground (arith, has_byte-Lacks c s h.1)

-- the two forms of an extension: none, or a dot in front of bytes that are no dot and no slash
abbrev pub IsExt : Bytes → Type 0
IsExt [] = Unit
IsExt (b ∷ s) = (b ≡ b'.') × (has_byte b'.' s ≡ false) × (has_byte b'/' s ≡ false)

pub Bytes-cases : (s : Bytes) → (s ≡ []) ⊎ ((b : ℕ) × (t : Bytes) × (s ≡ b ∷ t))
Bytes-cases [] = inl refl
Bytes-cases (b ∷ t) = inr (b, t, refl)

ext_last :
    (b : ℕ) (s : Bytes)
    → ext s ≡ []
    → ext (b ∷ s) ≡ (if b == b'.' && not (has_byte b'/' s) then b ∷ s else [])
unfolding ext
ext_last b s h = rw (ext, h) refl

ext_more : (b c : ℕ) (s t : Bytes) → ext s ≡ c ∷ t → ext (b ∷ s) ≡ c ∷ t
unfolding ext
ext_more b c s t h = rw (ext, h) refl

-- where there is no extension, the last element of the path has no dot
has_byte-ext : (s : Bytes) → ext s ≡ [] → has_byte b'/' s ≡ false → has_byte b'.' s ≡ false
unfolding has_byte
has_byte-ext [] h k = refl
has_byte-ext (b ∷ s) h k = elim (Bytes-cases (ext s)) [
  | inr (c, t, e) ↦ absurd (cons_ne c t (sym (ext_more b c s t e) ∙ h))
  | inl e ↦
      let i = has_byte-ext s e (ground arith) in let j = sym (ext_last b s e) ∙ h in ground arith
]

pub ext-IsExt : (s : Bytes) → IsExt (ext s)
unfolding ext
ext-IsExt [] = tt
ext-IsExt (b ∷ s) = elim (Bytes-cases (ext s)) [
  | inr (c, t, e) ↦ rw (ext_more b c s t e) (subst IsExt e (ext-IsExt s))
  | inl e ↦ rw (ext_last b s e) (elim (Bool-cases (b == b'.' && not (has_byte b'/' s))) [
    | inr f ↦ rw f tt
    | inl f ↦ rw f (ground arith, has_byte-ext s e (ground arith), ground arith)
  ])
]

last_index-Lacks : (c : ℕ) (s : Bytes) → Lacks c s → last_index s c ≡ none
unfolding last_index
last_index-Lacks c [] h = refl
last_index-Lacks c (b ∷ s) h = rw (last_index-Lacks c s h.1) (let k = h.0 in ground arith)

pub last_index-append :
    (c : ℕ) (s t : Bytes) → Lacks c t → last_index (s ++ (c ∷ t)) c ≡ some (length s)
unfolding last_index
last_index-append c [] t h = rw (last_index-Lacks c t h) (ground arith)
last_index-append c (b ∷ s) t h = rw (last_index-append c s t h) refl

pub ext_none : (s : Bytes) → has_byte b'.' s ≡ false → ext s ≡ []
unfolding has_byte ext
ext_none [] h = refl
ext_none (b ∷ s) h = ext_last b s (ext_none s (ground arith)) ∙ ground arith

-- what it takes that a name has no extension
ext-nil_cons :
    (b : ℕ) (s : Bytes)
    → ext (b ∷ s) ≡ []
    → (ext s ≡ []) × ((b == b'.' && not (has_byte b'/' s)) ≡ false)
ext-nil_cons b s h = elim (Bytes-cases (ext s)) [
  | inr (c, t, e) ↦ absurd (cons_ne c t (sym (ext_more b c s t e) ∙ h))
  | inl e ↦ (
    e,
    elim (Bool-cases (b == b'.' && not (has_byte b'/' s))) [
      | inr f ↦ f
      | inl f ↦
          absurd
            (cons_ne b s (subst (λ x. (if x then b ∷ s else []) ≡ []) f (sym (ext_last b s e) ∙ h)))
    ],
  )
]

-- an extension behind any bytes
pub ext-append : (s : Bytes) (b : ℕ) (e : Bytes) → IsExt (b ∷ e) → ext (s ++ (b ∷ e)) ≡ b ∷ e
ext-append [] b e h =
    let dot = h.0 in let slash = h.2 in ext_last b e (ext_none e h.1) ∙ ground arith
ext-append (c ∷ s) b e h = ext_more c b (s ++ (b ∷ e)) e (ext-append s b e h)

-- a name that has no extension gets none from bytes without a dot
pub ext-append_none : (s t : Bytes) → ext s ≡ [] → has_byte b'.' t ≡ false → ext (s ++ t) ≡ []
ext-append_none [] t h k = ext_none t k
ext-append_none (b ∷ s) t h k =
    let (e, f) = ext-nil_cons b s h in
    let l = has_byte-append b'/' s t in ext_last b (s ++ t) (ext-append_none s t e k) ∙ ground arith

pub ext-append_left : (s t : Bytes) → ext (s ++ t) ≡ [] → has_byte b'/' t ≡ false → ext s ≡ []
unfolding ext
ext-append_left [] t h k = refl
ext-append_left (b ∷ s) t h k =
    let (e, f) = ext-nil_cons b (s ++ t) h in
    let l = has_byte-append b'/' s t in ext_last b s (ext-append_left s t e k) ∙ ground arith

equal_self : (s : Bytes) → has_prefix s s ≡ true
unfolding has_prefix
equal_self [] = refl
equal_self (b ∷ s) = ground (arith, equal_self s)

pub trim_suffix-append : (s e : Bytes) → trim_suffix (s ++ e) e ≡ s
unfolding trim_suffix has_suffix
trim_suffix-append s e =
    let l = length-append s e in
    let n : length (s ++ e) - length e ≡ length s = omega arith in
    rw
      (
        trim_suffix,
        n,
        drop-length-append s e,
        equal_self e,
        take-length-append s e,
        le→leb (length e) (length (s ++ e)) (omega arith),
      )
      refl

pub digits_value-Lacks :
    (c acc : ℕ) (s : Bytes) (n : ℕ) → c < b'0' → digits_value acc s ≡ some n → has_byte c s ≡ false
unfolding digits_value has_byte
digits_value-Lacks c acc [] n l h = refl
digits_value-Lacks c acc (b ∷ s) n l h = elim (Bool-cases (leb b'0' b && leb b b'9')) [
  | inr e ↦ absurd (none_ne n (simp e at h))
  | inl e ↦ let i = digits_value-Lacks c (acc * 10 + (b - b'0')) s n l (simp e at h) in ground arith
]

pub some-injective : {A : Type 0} (a b : A) → some a ≡ some b → a ≡ b
some-injective a b h = cc

last_of : ℕ → ℕ → Option ℕ → Option ℕ
last_of b c o = elim o [ some i ↦ some (suc i) | none ↦ if b == c then some 0 else none ]

last_index-last_of : (b c : ℕ) (s : Bytes) → last_index (b ∷ s) c ≡ last_of b c (last_index s c)
unfolding last_index last_of
last_index-last_of b c s = refl

suc-add : (j : ℕ) → suc (j + 1) ≡ suc j + 1
suc-add j = omega arith

pub last_index-drop :
    (c : ℕ) (s : Bytes) (i : ℕ) → last_index s c ≡ some i → drop i s ≡ c ∷ drop (i + 1) s
unfolding last_index last_of
last_index-drop c [] i h = absurd (none_ne i h)
last_index-drop c (b ∷ s) i h = elim (Option-cases (last_index s c)) [
  | inr (j, e) ↦
      let k = some-injective (suc j) i (sym (ap (last_of b c) e) ∙ h) in
      subst (λ n. drop n (b ∷ s) ≡ c ∷ drop (n + 1) (b ∷ s)) k
        (last_index-drop c s j e ∙ ap (λ n. c ∷ drop n (b ∷ s)) (suc-add j))
  | inl e ↦
      let k : (if b == c then some 0 else none) ≡ some i = sym (ap (last_of b c) e) ∙ h in
      elim (Bool-cases (b == c)) [
        | inl f ↦
            let z = some-injective 0 i (subst (λ x. (if x then some 0 else none) ≡ some i) f k) in
            subst (λ n. drop n (b ∷ s) ≡ c ∷ drop (n + 1) (b ∷ s)) z
              (ap (λ x. x ∷ s) ((==_iff b c).0 f))
        | inr f ↦ absurd (none_ne i (subst (λ x. (if x then some 0 else none) ≡ some i) f k))
      ]
]
