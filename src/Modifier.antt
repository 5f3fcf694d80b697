-- ===== src/Modifier.antt =====
-- modifier/http_modifier.go: the requests that the rules on paths let through. Matching a regular
-- expression is a parameter.
use traffic.Base.Outcome.{Outcome, ok, ◌>>=◌}
use traffic.Base.{
  Bool, true, false, not, ◌&&◌, List, [], ◌∷◌, Option, none, some, ◌≡◌, ◌↔◌, ◌⊎◌, refl, inl, inr,
  arith, if◌then◌else◌, Bool-cases,
}
use traffic.Http.Path.{path}
use traffic.Http.Search.{Bytes}
use traffic.Http.Title.{has_request_title}

-- `HTTPModifierConfig` over the type of expressions; the fields are `URLRegexp` and
-- `URLNegativeRegexp`.
pub record ModifierConfig (R : Type 0) : Type 0 where
  pub allowed : List R
  pub disallowed : List R

abbrev pub nonempty {ℓ} : {A : Type ℓ} → List A → Bool
nonempty [] = false
nonempty (x ∷ xs) = true

-- `NewHTTPModifier`: nil for no rules
unfoldable pub new_http_modifier : {R : Type 0} → ModifierConfig R → Option (ModifierConfig R)
new_http_modifier cfg =
    if not (nonempty cfg.allowed) && not (nonempty cfg.disallowed) then none else some cfg

-- a loop over expressions
unfoldable pub some_matches : {R : Type 0} → (R → Bytes → Bool) → List R → Bytes → Bool
some_matches matches [] p = false
some_matches matches (r ∷ rs) p = if matches r p then true else some_matches matches rs p

-- `Rewrite`; an empty result drops the request
unfoldable pub rewrite :
    {E R : Type 0} → (R → Bytes → Bool) → ModifierConfig R → Bytes → Outcome E Bytes
unfolding some_matches
rewrite matches cfg payload = if not (has_request_title payload) then ok payload else do
  p ← path payload
  if nonempty cfg.allowed && not (some_matches matches cfg.allowed p)
      then ok []
      else if nonempty cfg.disallowed && some_matches matches cfg.disallowed p
      then ok []
      else ok payload

-- One of a list has the property.
unfoldable pub Any : {R : Type 0} → (R → Type 0) → List R → Type 0
Any P [] = ⊥
Any P (r ∷ rs) = P r ⊎ Any P rs

module _ {R : Type 0} (matches : R → Bytes → Bool) where
  -- The rules let a path through.
  pub record IsLetThrough (cfg : ModifierConfig R) (p : Bytes) : Type 0 where
    pub one_allows : (cfg.allowed ≡ []) ⊎ Any (λ r. matches r p ≡ true) cfg.allowed
    pub none_disallows : ¬ Any (λ r. matches r p ≡ true) cfg.disallowed

  some_matches-Any :
      (rs : List R) (p : Bytes)
      → some_matches matches rs p ≡ true
      → Any (λ r. matches r p ≡ true) rs
  unfolding some_matches Any
  some_matches-Any [] p h = absurd cc
  some_matches-Any (r ∷ rs) p h = elim (Bool-cases (matches r p)) [
    | inl e ↦ inl e
    | inr e ↦ inr (some_matches-Any rs p (simp e at h))
  ]

  Any-some_matches :
      (rs : List R) (p : Bytes)
      → Any (λ r. matches r p ≡ true) rs
      → some_matches matches rs p ≡ true
  unfolding some_matches Any
  Any-some_matches [] p h = absurd h
  Any-some_matches (r ∷ rs) p (inl e) = rw e refl
  Any-some_matches (r ∷ rs) p (inr h) = let k = Any-some_matches rs p h in ground (arith, k)

  allow_test :
      (rs : List R) (p : Bytes)
      → ((rs ≡ []) ⊎ Any (λ r. matches r p ≡ true) rs)
        ↔ ((nonempty rs && not (some_matches matches rs p)) ≡ false)
  allow_test [] p = (λ h. refl, λ h. inl refl)
  allow_test (r ∷ rs) p = (
    λ h. elim h [ inl e ↦ absurd cc | inr a ↦ rw (Any-some_matches (r ∷ rs) p a) refl ],
    λ h. elim (Bool-cases (some_matches matches (r ∷ rs) p)) [
      | inl e ↦ inr (some_matches-Any (r ∷ rs) p e)
      | inr e ↦ absurd (ground arith)
    ],
  )

  deny_test :
      (rs : List R) (p : Bytes)
      → (¬ Any (λ r. matches r p ≡ true) rs) ↔ ((nonempty rs && some_matches matches rs p) ≡ false)
  unfolding Any
  deny_test [] p = (λ h. refl, λ h a. absurd a)
  deny_test (r ∷ rs) p = (
    λ h. elim (Bool-cases (some_matches matches (r ∷ rs) p)) [
      | inl e ↦ absurd (h (some_matches-Any (r ∷ rs) p e))
      | inr e ↦ rw e refl
    ],
    λ h a. let k = Any-some_matches (r ∷ rs) p a in ground arith,
  )

  -- A request whose path the rules let through is kept as it is: one of the allowing expressions
  -- matches, or there are none, and no disallowing one does. Any other is emptied. What is not a
  -- request is kept.
  pub rewrite_branches :
      {E : Type 0} (cfg : ModifierConfig R) (payload p : Bytes)
      → path {E = E} payload ≡ ok p
      → ((has_request_title payload ≡ false) × (rewrite {E = E} matches cfg payload ≡ ok payload))
        ⊎ ((has_request_title payload ≡ true)
            × IsLetThrough cfg p
            × (rewrite {E = E} matches cfg payload ≡ ok payload))
        ⊎ ((has_request_title payload ≡ true)
            × (¬ IsLetThrough cfg p)
            × (rewrite {E = E} matches cfg payload ≡ ok []))
  unfolding rewrite
  rewrite_branches cfg payload p e = elim (Bool-cases (has_request_title payload)) [
    | inr t ↦ inl (t, rw (rewrite, t) refl)
    | inl t ↦ elim (Bool-cases (nonempty cfg.allowed && not (some_matches matches cfg.allowed p))) [
      | inl a ↦ inr (
          inr (
            t,
            (λ h. let k = (allow_test cfg.allowed p).0 h.one_allows in ground arith),
            rw (rewrite, t, e, a) refl,
          ))
      | inr a ↦
          elim (Bool-cases (nonempty cfg.disallowed && some_matches matches cfg.disallowed p)) [
            | inl d ↦ inr (
                inr (
                  t,
                  (λ h. let k = (deny_test cfg.disallowed p).0 h.none_disallows in ground arith),
                  rw (rewrite, t, e, a, d) refl,
                ))
            | inr d ↦ inr (
                inl (
                  t,
                  record {
                    one_allows = (allow_test cfg.allowed p).1 a;
                    none_disallows = (deny_test cfg.disallowed p).1 d;
                  },
                  rw (rewrite, t, e, a, d) refl,
                ))
          ]
    ]
  ]
