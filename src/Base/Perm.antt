-- ===== src/Base/Perm.antt =====
-- Lists with the same elements.
use mathlib.Core.List.{Permᴰ}
use mathlib.Core.Path.{subst}
use mathlib.Core.List.{List}
use traffic.Base.Encoding.{All}

pub All-Permᴰ : {A : Type 0} (P : A → Type 0) {rs ts : List A} → Permᴰ rs ts → All P rs → All P ts
All-Permᴰ P Permᴰ.nil h = tt
All-Permᴰ P (Permᴰ.cons e p) h = (subst P e h.0, All-Permᴰ P p h.1)
All-Permᴰ P (Permᴰ.swap e f) h = (subst P f h.1.0, (subst P e h.0, h.1.1))
All-Permᴰ P (Permᴰ.trans p q) h = All-Permᴰ P q (All-Permᴰ P p h)
