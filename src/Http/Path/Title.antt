-- ===== src/Http/Path/Title.antt =====
-- proto/proto.go: the path is the part of the title between its two spaces.
use traffic.Base.Outcome.{ok}
use traffic.Base.{
  ◌+◌, true, [], ◌∷◌, ◌++◌, append_assoc, ◌≡◌, refl, ap, ◌∙◌, arith, length, drop-length-append,
  length-append,
}
use traffic.ByteUtils.Splice.{replace-append}
use traffic.Http.Path.{behind, next_at, set_path}
use traffic.Http.Search.{Bytes}
use traffic.Http.Title.{has_title}
use traffic.Payload.Meta.{Lacks, index_byte-append}

-- A title of a method, a path and the rest of the payload.
abbrev pub titled : Bytes → Bytes → Bytes → Bytes
titled method p rest = method ++ (b' ' ∷ (p ++ (b' ' ∷ rest)))

module _ (method p rest : Bytes) (one_word : Lacks b' ' method) (no_space : Lacks b' ' p) where
  pub titled-append : titled method p rest ≡ (method ++ (b' ' ∷ [])) ++ (p ++ (b' ' ∷ rest))
  titled-append = simp append_assoc

  pub behind-titled : behind (titled method p rest) b' ' ≡ length (method ++ (b' ' ∷ []))
  unfolding behind
  behind-titled =
      rw (behind, index_byte-append method (p ++ (b' ' ∷ rest)) b' ' one_word)
        (omega (arith, length-append method (b' ' ∷ [])))

  pub next_at-titled :
      next_at (titled method p rest) (length (method ++ (b' ' ∷ []))) b' '
      ≡ length (method ++ (b' ' ∷ [])) + length p
  unfolding next_at
  next_at-titled =
      rw
        (
          titled-append,
          next_at,
          drop-length-append (method ++ (b' ' ∷ [])) (p ++ (b' ' ∷ rest)),
          index_byte-append p rest b' ' no_space,
        )
        refl

  -- In a payload with a title, where neither the method nor the path holds a space, `SetPath` puts
  -- the new path in the place of the old one and leaves the rest of the payload as it was.
  pub set_path-titled :
      {E : Type 0} (new : Bytes)
      → has_title (titled method p rest) ≡ true
      → set_path {E = E} (titled method p rest) new ≡ ok (titled method new rest)
  unfolding set_path
  set_path-titled {E = E} new h =
      rw (h, behind-titled, next_at-titled, titled-append)
        (replace-append {E = E} (method ++ (b' ' ∷ [])) p (b' ' ∷ rest) new
          ∙ ap ok (append_assoc method _ _))
