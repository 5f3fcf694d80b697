-- ===== src/Base/Outcome.antt =====
-- What a call of the source can end in: a value, an error value, a run-time panic (an index or a
-- slice out of range), or no end at all, when the fuel of a loop runs out.
use Prim.Native.Nat.{ℕ, zero, suc, ◌+◌, ◌-◌, ◌≤◌, ◌<◌}
use mathlib.Core.Path.{◌≡◌, refl, ap, ◌∙◌}
use mathlib.Core.Bool.{Bool, true, false, ◌&&◌}
use mathlib.Core.Option.{Option, none, some}
use mathlib.Core.Logic.{◌≢◌, ◌⊎◌, inl, inr}
use mathlib.Core.List.{List, [], ◌∷◌, ◌++◌}
use native.Mathlib.Omega.{arith}
use traffic.Base.Tests.{leb, le→leb, if◌then◌else◌}
use traffic.Base.Lists.{length, get_or, take, drop, length-append, drop-length-append, take_all}

pub data Outcome {ℓ} (E : Type ℓ) (A : Type ℓ) : Type ℓ where
  ok : A → Outcome E A
  err : E → Outcome E A
  panic loops : Outcome E A

infixl 5 ◌>>=◌
abbrev pub ◌>>=◌ {ℓ} : {E A B : Type ℓ} → Outcome E A → (A → Outcome E B) → Outcome E B
ok a >>= f = f a
err e >>= f = err e
panic >>= f = panic
loops >>= f = loops

-- `s[i]`
abbrev pub at {ℓ} : {E : Type ℓ} {A : Type ℓ} → List A → ℕ → Outcome E A
at [] i = panic
at (x ∷ xs) zero = ok x
at (x ∷ xs) (suc i) = at xs i

-- `s[i:j]`
unfoldable pub slice {ℓ} : {E : Type ℓ} {A : Type ℓ} → List A → ℕ → ℕ → Outcome E (List A)
slice s i j = if leb i j && leb j (length s) then ok (take (j - i) (drop i s)) else panic

-- An index in range is read.
pub at-get_or {ℓ} :
    {E : Type ℓ} {A : Type ℓ} (xs : List A) (i : ℕ) (d : A)
    → i < length xs
    → at {E = E} xs i ≡ ok (get_or xs i d)
at-get_or [] i d h = elim h [ ]
at-get_or (x ∷ xs) zero d h = refl
at-get_or (x ∷ xs) (suc i) d h = at-get_or xs i d (omega arith)

-- An index behind a part is one in what follows it.
pub at-drop {ℓ} :
    {E : Type ℓ} {A : Type ℓ} (xs : List A) (n i : ℕ)
    → at {E = E} xs (n + i) ≡ at {E = E} (drop n xs) i
at-drop xs zero i = ap (at xs) (omega arith)
at-drop [] (suc n) i = refl
at-drop {E = E} (x ∷ xs) (suc n) i =
    let e : suc n + i ≡ suc (n + i) = omega arith in ap (at (x ∷ xs)) e ∙ at-drop {E = E} xs n i

-- A slice in range is taken.
pub slice-take-drop {ℓ} :
    {E : Type ℓ} {A : Type ℓ} (s : List A) (i j : ℕ)
    → i ≤ j
    → j ≤ length s
    → slice {E = E} s i j ≡ ok (take (j - i) (drop i s))
unfolding slice
slice-take-drop s i j h k = rw (le→leb i j h, le→leb j _ k)

pub slice-take {ℓ} :
    {E : Type ℓ} {A : Type ℓ} (s : List A) (j : ℕ)
    → j ≤ length s
    → slice {E = E} s 0 j ≡ ok (take j s)
slice-take {E = E} s j h =
    slice-take-drop {E = E} s 0 j (omega arith) h ∙ ap (λ n. ok (take n s)) (omega arith)

-- `s[len(xs):]` of `xs` and what follows it
pub slice-append {ℓ} :
    {E : Type ℓ} {A : Type ℓ} (xs ys : List A)
    → slice {E = E} (xs ++ ys) (length xs) (length (xs ++ ys)) ≡ ok ys
slice-append {E = E} xs ys =
    let n = length (xs ++ ys) in
    let l = length-append xs ys in
    slice-take-drop {E = E} (xs ++ ys) (length xs) n (omega arith) (omega arith)
    ∙ rw drop-length-append (ap ok (take_all (n - length xs) ys (omega arith)))

-- The call returns: a value with the property, or an error value.
module _ {E A : Type 0} where
  abbrev pub Returns : (A → Type 0) → Outcome E A → Type 0
  Returns P (ok a) = P a
  Returns P (err e) = Unit
  Returns P panic = ⊥
  Returns P loops = ⊥

  -- The call does not panic, and a value that it returns has the property.
  abbrev pub WhenEnds : (A → Type 0) → Outcome E A → Type 0
  WhenEnds P (ok a) = P a
  WhenEnds P (err e) = Unit
  WhenEnds P panic = ⊥
  WhenEnds P loops = Unit

  pub Returns-WhenEnds : (P : A → Type 0) (m : Outcome E A) → Returns P m → WhenEnds P m
  Returns-WhenEnds P (ok a) h = h
  Returns-WhenEnds P (err e) h = tt
  Returns-WhenEnds P panic h = h
  Returns-WhenEnds P loops h = tt

module _ {E A B : Type 0} (P : A → Type 0) (Q : B → Type 0) where
  pub Returns-bind :
      (m : Outcome E A) (f : A → Outcome E B)
      → Returns P m
      → ((a : A) → P a → Returns Q (f a))
      → Returns Q (m >>= f)
  Returns-bind (ok a) f h k = k a h
  Returns-bind (err e) f h k = tt
  Returns-bind panic f h k = absurd h
  Returns-bind loops f h k = absurd h

  pub WhenEnds-bind :
      (m : Outcome E A) (f : A → Outcome E B)
      → WhenEnds P m
      → ((a : A) → P a → WhenEnds Q (f a))
      → WhenEnds Q (m >>= f)
  WhenEnds-bind (ok a) f h k = k a h
  WhenEnds-bind (err e) f h k = tt
  WhenEnds-bind panic f h k = absurd h
  WhenEnds-bind loops f h k = tt

pub Returns-ne-loops : {E A : Type 0} (P : A → Type 0) (m : Outcome E A) → Returns P m → m ≢ loops
Returns-ne-loops P (ok a) h e = cc
Returns-ne-loops P (err x) h e = cc
Returns-ne-loops P panic h e = h
Returns-ne-loops P loops h e = h

pub bind-eq-loops :
    {E A B : Type 0} (m : Outcome E A) (f : A → Outcome E B)
    → m >>= f ≡ loops
    → (m ≡ loops) ⊎ ((a : A) × (m ≡ ok a) × (f a ≡ loops))
bind-eq-loops (ok a) f h = inr (a, refl, h)
bind-eq-loops (err x) f h = absurd cc
bind-eq-loops panic f h = absurd cc
bind-eq-loops loops f h = inl refl

-- A value that is returned has the property.
abbrev pub IfOk : {E A : Type 0} → (A → Type 0) → Outcome E A → Type 0
IfOk P (ok a) = P a
IfOk P (err e) = Unit
IfOk P panic = Unit
IfOk P loops = Unit

pub IfOk-bind :
    {E A B : Type 0} (P : B → Type 0) (m : Outcome E A) (f : A → Outcome E B)
    → ((a : A) → IfOk P (f a))
    → IfOk P (m >>= f)
IfOk-bind P (ok a) f h = h a
IfOk-bind P (err e) f h = tt
IfOk-bind P panic f h = tt
IfOk-bind P loops f h = tt

pub IfOk-bind_of :
    {E A B : Type 0} (P : A → Type 0) (Q : B → Type 0) (m : Outcome E A) (f : A → Outcome E B)
    → IfOk P m
    → ((a : A) → P a → IfOk Q (f a))
    → IfOk Q (m >>= f)
IfOk-bind_of P Q (ok a) f h k = k a h
IfOk-bind_of P Q (err e) f h k = tt
IfOk-bind_of P Q panic f h k = tt
IfOk-bind_of P Q loops f h k = tt

pub IfOk-if :
    {E A : Type 0} (P : A → Type 0) (b : Bool) (x y : Outcome E A)
    → (b ≡ true → IfOk P x)
    → (b ≡ false → IfOk P y)
    → IfOk P (if b then x else y)
IfOk-if P true x y h k = h refl
IfOk-if P false x y h k = k refl

pub IfOk-option :
    {E X A : Type 0} (P : A → Type 0) (o : Option X) (x : Outcome E A) (f : X → Outcome E A)
    → IfOk P x
    → ((a : X) → IfOk P (f a))
    → IfOk P (elim o [ none ↦ x | some a ↦ f a ])
IfOk-option P none x f h k = h
IfOk-option P (some a) x f h k = k a

pub IfOk-and :
    {E A : Type 0} (P Q : A → Type 0) (m : Outcome E A)
    → IfOk P m
    → IfOk Q m
    → IfOk (λ a. P a × Q a) m
IfOk-and P Q (ok a) h k = (h, k)
IfOk-and P Q (err e) h k = tt
IfOk-and P Q panic h k = tt
IfOk-and P Q loops h k = tt

pub IfOk-known : {E A : Type 0} (m : Outcome E A) → IfOk (λ a. m ≡ ok a) m
IfOk-known (ok a) = refl
IfOk-known (err e) = tt
IfOk-known panic = tt
IfOk-known loops = tt

pub bind_same :
    {E A B : Type 0} (m : Outcome E A) (f g : A → Outcome E B)
    → ((a : A) → f a ≡ g a)
    → m >>= f ≡ m >>= g
bind_same (ok a) f g h = h a
bind_same (err e) f g h = refl
bind_same panic f g h = refl
bind_same loops f g h = refl

pub bind_assoc :
    {E A B C : Type 0} (m : Outcome E A) (f : A → Outcome E B) (g : B → Outcome E C)
    → (m >>= f) >>= g ≡ m >>= (λ a. f a >>= g)
bind_assoc (ok a) f g = refl
bind_assoc (err e) f g = refl
bind_assoc panic f g = refl
bind_assoc loops f g = refl
