-- ===== src/Http/Equal.antt =====
-- proto/proto.go: the comparison of slices of bytes.
use traffic.Base.{true, [], ◌∷◌, ==_iff, ◌≡◌, refl, ap, ◌∙◌, arith}
use traffic.Http.Search.{Bytes, equal}

pub equal_self : (s : Bytes) → equal s s ≡ true
unfolding equal
equal_self [] = refl
equal_self (b ∷ s) = ground (arith, equal_self s)

pub equal-same : (s t : Bytes) → equal s t ≡ true → s ≡ t
unfolding equal
equal-same [] [] h = refl
equal-same [] (c ∷ t) h = absurd cc
equal-same (b ∷ s) [] h = absurd cc
equal-same (b ∷ s) (c ∷ t) h =
    let e : b ≡ c = (==_iff b c).0 (ground arith) in
    ap (λ x. x ∷ s) e ∙ ap (◌∷◌ c) (equal-same s t (ground arith))
