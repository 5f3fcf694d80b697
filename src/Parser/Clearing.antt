-- ===== src/Parser/Clearing.antt =====
-- tcp/tcp_message.go: what a tick of the timer does to all messages of the map.
use mathlib.Core.Path.{subst}
use traffic.Base.Outcome.{Outcome, ok, err, panic, loops, Returns, Returns-bind}
use traffic.Base.{
  ℕ, Bool, true, false, ◌&&◌, ◌||◌, List, [], ◌∷◌, ◌++◌, append_assoc, append-nil, none, some, ◌≡◌,
  ◌≢◌, refl, sym, ap, ◌∙◌, inl, inr, arith, ◌==◌, if◌then◌else◌, Bool-cases, Option-cases, ==_iff,
}
use traffic.Message.{Store}
use traffic.Packet.{HdrError}
use traffic.Parser.{Config, lookup, expire, timer}
use traffic.Parser.Late.{
  IsKeyed, is_late, emits, IsKept, IsKept-refl, IsKept-trans, IsExpired, HasId-kept, expire_late,
  expire_early,
}

-- whether a key is one of a list
unfoldable pub is_key : ℕ → List ℕ → Bool
is_key k [] = false
is_key k (l ∷ ls) = l == k || is_key k ls

-- the keys differ from one another, as those of a map
unfoldable pub AreKeys : List ℕ → Type 0
unfolding is_key
AreKeys [] = Unit
AreKeys (k ∷ ks) = (is_key k ks ≡ false) × AreKeys ks

-- whether the map has a late message under the key
unfoldable pub late_under : Config → ℕ → Store → ℕ → Bool
late_under cfg now s k = elim (lookup k s.table) [
  | none ↦ false
  | some i ↦ is_late cfg now (s.message i)
]

-- the message under a key, where it is late
unfoldable pub late_at : Config → ℕ → Store → ℕ → List ℕ
late_at cfg now s k = elim (lookup k s.table) [
  | none ↦ []
  | some i ↦ if is_late cfg now (s.message i) then i ∷ [] else []
]

-- the late messages under the keys, in the order of the keys
unfoldable pub late_messages : Config → ℕ → Store → List ℕ → List ℕ
unfolding late_at
late_messages cfg now s [] = []
late_messages cfg now s (k ∷ ks) = late_at cfg now s k ++ late_messages cfg now s ks

-- What a tick leaves: the late messages under the keys are gone, and were emitted in the order of
-- the keys if the parser emits what is late; the other keys have their messages as before.
pub record IsTicked (cfg : Config) (now : ℕ) (s : Store) (keys : List ℕ) (t : Store) : Type 0 where
  pub table :
      (k : ℕ)
      → lookup k t.table
        ≡ (if is_key k keys && late_under cfg now s k then none else lookup k s.table)
  pub emitted : t.emitted ≡ s.emitted ++ (if emits cfg then late_messages cfg now s keys else [])
  pub kept : IsKept s t

-- one key of the loop
unfoldable pub step_of : Config → ℕ → Store → ℕ → Outcome HdrError Store
step_of cfg now s k = elim (lookup k s.table) [ none ↦ ok s | some i ↦ expire cfg now s i ]

pub some-ne-none : {A : Type 0} {a : A} → some a ≡ none → ⊥
some-ne-none h = cc

pub record IsStepped (cfg : Config) (now : ℕ) (s : Store) (k : ℕ) (t : Store) : Type 0 where
  pub here : lookup k t.table ≡ (if late_under cfg now s k then none else lookup k s.table)
  pub others : (l : ℕ) → l ≢ k → lookup l t.table ≡ lookup l s.table
  pub emitted : t.emitted ≡ s.emitted ++ (if emits cfg then late_at cfg now s k else [])
  pub kept : IsKept s t

if_same : {A : Type 0} (b : Bool) (x : A) → (if b then x else x) ≡ x
if_same true x = refl
if_same false x = refl

nothing_late :
    (cfg : Config) (now : ℕ) (s : Store) (k : ℕ)
    → late_under cfg now s k ≡ false
    → late_at cfg now s k ≡ []
    → IsStepped cfg now s k s
nothing_late cfg now s k l n = record {
  here = rw l refl;
  others = λ j d. refl;
  emitted = rw n (sym (append-nil s.emitted) ∙ ap (◌++◌ s.emitted) (sym (if_same (emits cfg) [])));
  kept = IsKept-refl s;
}

pub Returns-map :
    {A : Type 0} (P Q : A → Type 0) (m : Outcome HdrError A)
    → Returns P m
    → ((a : A) → P a → Returns {E = HdrError} Q (ok a))
    → Returns Q m
Returns-map P Q (ok a) h f = f a h
Returns-map P Q (err e) h f = tt
Returns-map P Q panic h f = h
Returns-map P Q loops h f = h

pub timer_step :
    (cfg : Config) (now : ℕ) (s : Store) (k : ℕ)
    → IsKeyed s
    → Returns (IsStepped cfg now s k) (step_of cfg now s k)
unfolding step_of late_under late_at
timer_step cfg now s k h = elim (Option-cases (lookup k s.table)) [
  | inl e ↦
      rw (e, step_of) (nothing_late cfg now s k (rw (e, late_under) refl) (rw (e, late_at) refl))
  | inr (i, e) ↦ elim (Bool-cases (is_late cfg now (s.message i))) [
    | inl l ↦
        let under : late_under cfg now s k ≡ true = rw (e, late_under) l in
        let messages : late_at cfg now s k ≡ i ∷ [] = rw (e, late_at, l) refl in
        rw (e, step_of)
          (Returns-map (IsExpired cfg s i k) (IsStepped cfg now s k) (expire cfg now s i)
            (expire_late cfg now s i k l (h k i e))
            λ t x. record {
              here = rw under x.gone;
              others = x.others;
              emitted = rw messages x.emitted;
              kept = x.kept;
            })
    | inr l ↦
        rw (e, step_of, expire_early cfg now s i l)
          (nothing_late cfg now s k (rw (e, late_under) l) (rw (e, late_at, l) refl))
  ]
]

module _ (cfg : Config) (now : ℕ) (s : Store) (k : ℕ) (t : Store)
    (x : IsStepped cfg now s k t) where
  pub still_there : (l i : ℕ) → lookup l t.table ≡ some i → lookup l s.table ≡ some i
  still_there l i e = elim (Bool-cases (l == k)) [
    | inr d ↦ sym (x.others l (ground arith)) ∙ e
    | inl d ↦
        let same : l ≡ k = (==_iff l k).0 d in
        let here = ap (λ j. lookup j t.table) (sym same) ∙ e in
        elim (Bool-cases (late_under cfg now s k)) [
          | inl late ↦ let gone = x.here ∙ rw late refl in absurd (some-ne-none (sym here ∙ gone))
          | inr early ↦
              let kept : lookup k t.table ≡ lookup k s.table = x.here ∙ rw early refl in
              ap (λ j. lookup j s.table) same ∙ sym kept ∙ here
        ]
  ]

  pub stepped-IsKeyed : IsKeyed s → IsKeyed t
  stepped-IsKeyed h l i e = HasId-kept s t i l x.kept (h l i (still_there l i e))

  late_under-stepped : (l : ℕ) → l ≢ k → late_under cfg now t l ≡ late_under cfg now s l
  unfolding late_under
  late_under-stepped l d =
      rw (x.others l d, late_under)
        (elim (Option-cases (lookup l s.table)) [
          | inl e ↦ rw (e, late_under) refl
          | inr (i, e) ↦ rw (e, late_under, x.kept.end_at i) refl
        ])

  late_at-stepped : (l : ℕ) → l ≢ k → late_at cfg now t l ≡ late_at cfg now s l
  unfolding late_at
  late_at-stepped l d =
      rw (x.others l d, late_at)
        (elim (Option-cases (lookup l s.table)) [
          | inl e ↦ rw (e, late_at) refl
          | inr (i, e) ↦ rw (e, late_at, x.kept.end_at i) refl
        ])

  late_messages-stepped :
      (keys : List ℕ)
      → is_key k keys ≡ false
      → late_messages cfg now t keys ≡ late_messages cfg now s keys
  unfolding late_messages is_key
  late_messages-stepped [] d = refl
  late_messages-stepped (l ∷ keys) d =
      rw (late_at-stepped l (ground arith), late_messages-stepped keys (ground arith)) refl

  ticked :
      (keys : List ℕ) (u : Store)
      → is_key k keys ≡ false
      → IsTicked cfg now t keys u
      → IsTicked cfg now s (k ∷ keys) u
  unfolding is_key late_messages
  ticked keys u d y = record {
    table = λ l. elim (Bool-cases (k == l)) [
      | inl e ↦
          let same : k ≡ l = (==_iff k l).0 e in
          let not_later : is_key l keys ≡ false = ap (λ j. is_key j keys) (sym same) ∙ d in
          let there : lookup l u.table ≡ lookup l t.table = y.table l ∙ rw not_later refl in
          rw e (
            there
            ∙ subst
                (λ j.
                  lookup j t.table ≡ (if late_under cfg now s j then none else lookup j s.table))
                same x.here)
      | inr e ↦
          let ne : l ≢ k = ground arith in
          rw e (y.table l ∙ rw (late_under-stepped l ne, x.others l ne) refl)
    ];
    emitted =
        y.emitted
        ∙ ap (λ a. a ++ (if emits cfg then late_messages cfg now t keys else [])) x.emitted
        ∙ joined_late keys d;
    kept = IsKept-trans s t u x.kept y.kept;
  }
    where
      joined_late :
          (ks : List ℕ)
          → is_key k ks ≡ false
          → (s.emitted ++ (if emits cfg then late_at cfg now s k else []))
              ++ (if emits cfg then late_messages cfg now t ks else [])
            ≡ s.emitted
              ++ (if emits cfg then late_at cfg now s k ++ late_messages cfg now s ks else [])
      joined_late ks d' = elim (Bool-cases (emits cfg)) [
        | inl b ↦ rw (b, late_messages-stepped ks d') (append_assoc s.emitted _ _)
        | inr b ↦ rw b (append_assoc s.emitted [] [])
      ]

-- A tick for which the keys of the map are visited in any order: no run-time panic, the late messages
-- are gone from the map, and emitted in that order if the parser emits late messages.
pub timer-IsTicked :
    (cfg : Config) (now : ℕ) (s : Store) (keys : List ℕ)
    → IsKeyed s
    → AreKeys keys
    → Returns {E = HdrError} (λ t. IsTicked cfg now s keys t × IsKeyed t) (timer cfg now s keys)
unfolding timer AreKeys is_key late_messages step_of
timer-IsTicked cfg now s [] h d = (
  record {
    table = λ k. refl;
    emitted = sym (append-nil s.emitted) ∙ ap (◌++◌ s.emitted) (sym (if_same (emits cfg) []));
    kept = IsKept-refl s;
  },
  h,
)
timer-IsTicked cfg now s (k ∷ keys) h d =
    Returns-bind (IsStepped cfg now s k) (λ u. IsTicked cfg now s (k ∷ keys) u × IsKeyed u)
      (step_of cfg now s k) _ (timer_step cfg now s k h)
      λ t x.
        Returns-map (λ u. IsTicked cfg now t keys u × IsKeyed u) _ (timer cfg now t keys)
          (timer-IsTicked cfg now t keys (stepped-IsKeyed cfg now s k t x h) d.1)
          λ u y. (ticked cfg now s k t x keys u d.0 y.0, y.1)
