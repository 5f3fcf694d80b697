-- ===== src/Emitter/Pairs.antt =====
-- emitter.go: requests that are filtered, and their responses.
use mathlib.Core.Path.{subst, fun_ext}
use traffic.Base.Outcome.{Outcome, ok, ◌>>=◌, bind_same, bind_assoc}
use traffic.Base.{
  ℕ, ◌-◌, Bool, true, false, List, [], ◌∷◌, ◌==◌, if◌then◌else◌, length, ◌≡◌, refl, sym, ap, ◌∙◌,
  inl, inr, Bool-cases,
}
use traffic.Emitter.{
  PluginMessage, Filter, Clock, Sent, dropped, sent, is_filtered, forget, remember, filter_message,
}
use traffic.Http.Equal.{equal-same}
use traffic.Http.Search.{Bytes, equal}
use traffic.Modifier.{ModifierConfig, rewrite}
use traffic.Payload.{is_request_payload}

-- A set of ids, with one more, and without one.
abbrev pub with_id : Bytes → (Bytes → Bool) → Bytes → Bool
with_id id ids k = if equal id k then true else ids k

abbrev pub without_id : Bytes → (Bytes → Bool) → Bytes → Bool
without_id id ids k = if equal id k then false else ids k

-- the set of the ids of the map
abbrev pub ids_of : Filter → Bytes → Bool
ids_of f k = is_filtered k f.filtered_requests

abbrev pub is_dropped : Sent → Bool
is_dropped dropped = true
is_dropped (sent m) = false

equal-other : (j id k : Bytes) → equal j id ≡ false → equal id k ≡ true → equal j k ≡ false
equal-other j id k h e = subst (λ x. equal j x ≡ false) (equal-same id k e) h

is_filtered-forget :
    (id k : Bytes) (m : List (Bytes × ℕ))
    → is_filtered k (forget id m) ≡ (if equal id k then false else is_filtered k m)
unfolding is_filtered forget
is_filtered-forget id k [] = elim (Bool-cases (equal id k)) [
  | inl e ↦ rw e refl
  | inr e ↦ rw e refl
]
is_filtered-forget id k ((j, t) ∷ m) = elim (Bool-cases (equal j id)) [
  | inl e ↦
      let same : equal j k ≡ equal id k = ap (λ x. equal x k) (equal-same j id e) in
      rw (e, forget, is_filtered-forget id k m, same)
        (elim (Bool-cases (equal id k)) [ inl f ↦ rw f refl | inr f ↦ rw f refl ])
  | inr e ↦
      rw (e, forget, is_filtered, is_filtered-forget id k m)
        (elim (Bool-cases (equal id k)) [
          | inl f ↦ rw (f, equal-other j id k e f) refl
          | inr f ↦ rw f refl
        ])
]

is_filtered-remember :
    (id k : Bytes) (now : ℕ) (f : Filter) → ids_of (remember id now f) k ≡ with_id id (ids_of f) k
unfolding remember is_filtered
is_filtered-remember id k now f = elim (Bool-cases (equal id k)) [
  | inl e ↦ rw (e, with_id) refl
  | inr e ↦ rw (e, with_id, is_filtered-forget id k f.filtered_requests, e) refl
]

module _ {E R : Type 0} (matches : R → Bytes → Bool) (cfg : ModifierConfig R) where
  -- What becomes of a message by the ids of the filtered requests alone: a request that is rewritten to
  -- nothing is dropped and its id is noted; a response whose id is noted is dropped and its id is
  -- forgotten.
  unfoldable pub decide : (Bytes → Bool) → Bytes → PluginMessage → Outcome E ((Bytes → Bool) × Bool)
  decide ids id msg = do
    request ← is_request_payload msg.meta
    if request
        then (do
          new ← rewrite matches cfg msg.body
          ok (if length new == 0 then (with_id id ids, true) else (ids, false)))
        else ok (if ids id then (without_id id ids, true) else (ids, false))

  -- the decisions on messages one after the other
  unfoldable pub decide_each :
      (Bytes → Bool) → List (Clock × (Bytes × PluginMessage)) → Outcome E (List Bool)
  decide_each ids [] = ok []
  decide_each ids ((c, (id, msg)) ∷ messages) = do
    (next, gone) ← decide ids id msg
    rest ← decide_each next messages
    ok (gone ∷ rest)

  -- the same by the code
  unfoldable pub filter_each :
      Filter → List (Clock × (Bytes × PluginMessage)) → Outcome E (List Bool)
  filter_each f [] = ok []
  filter_each f ((c, (id, msg)) ∷ messages) = do
    (g, s) ← filter_message matches cfg c f id msg
    rest ← filter_each g messages
    ok (is_dropped s ∷ rest)

  -- the ids after a message that is dropped
  abbrev noted : (Bytes → Bool) → Outcome E ((Bytes → Bool) × Bool)
  noted ids = ok (ids, true)

  -- the ids and the decision of the code
  abbrev viewed : Filter × Sent → Outcome E ((Bytes → Bool) × Bool)
  viewed (g, s) = ok (ids_of g, is_dropped s)

  filter_message-decide :
      (c : Clock) (f : Filter) (id : Bytes) (msg : PluginMessage)
      → (filter_message {E = E} matches cfg c f id msg >>= viewed) ≡ decide (ids_of f) id msg
  unfolding filter_message decide
  filter_message-decide c f id msg =
      let ids = ids_of f in
      let asked : Outcome E (Filter × Sent) = rewrite matches cfg msg.body >>= λ new. ok (
        if length new == 0
        then (remember id c.filtered_at f, dropped)
        else (f, sent (record msg { body = new }))) in
      let answered : Outcome E (Filter × Sent) =
        if is_filtered id f.filtered_requests
        then ok (
          record f {
            filtered_requests = forget id f.filtered_requests;
            filtered_count = f.filtered_count - 1;
          },
          dropped,
        )
        else ok (f, sent msg) in
      let asked_ids : Outcome E ((Bytes → Bool) × Bool) = rewrite matches cfg msg.body >>= λ new.
      ok (if length new == 0 then (with_id id ids, true) else (ids, false)) in
      let answered_ids : Outcome E ((Bytes → Bool) × Bool) =
        ok (if ids id then (without_id id ids, true) else (ids, false)) in
      bind_assoc (is_request_payload msg.meta) _ viewed
      ∙ bind_same (is_request_payload msg.meta) _ _ λ request.
        elim request
          as (λ b.
            ((if b then asked else answered) >>= viewed)
            ≡ (if b then asked_ids else answered_ids)) [
              | true ↦
                  bind_assoc (rewrite matches cfg msg.body) _ viewed
                  ∙ bind_same (rewrite matches cfg msg.body) _ _ λ new.
                    elim (Bool-cases (length new == 0)) [
                      | inl e ↦ rw e (
                          ap (λ v. noted v)
                            (fun_ext λ k. is_filtered-remember id k c.filtered_at f))
                      | inr e ↦ rw e refl
                    ]
              | false ↦ elim (Bool-cases (is_filtered id f.filtered_requests)) [
                | inl e ↦
                    rw e
                      (ap (λ v. noted v) (fun_ext λ k. is_filtered-forget id k f.filtered_requests))
                | inr e ↦ rw e refl
              ]
            ]

  -- Between cleanings, which of the messages that come one after the other are dropped is decided as by
  -- the set of the ids of filtered requests: a request exactly when it is rewritten to nothing, and a
  -- response exactly when a request of its id was, and no response of that id has been dropped since.
  pub filter_each-decide_each :
      (f : Filter) (messages : List (Clock × (Bytes × PluginMessage)))
      → filter_each f messages ≡ decide_each (ids_of f) messages
  unfolding filter_each decide_each
  filter_each-decide_each f [] = refl
  filter_each-decide_each f ((c, (id, msg)) ∷ messages) =
      let K : (Bytes → Bool) × Bool → Outcome E (List Bool) =
        λ (next, gone). decide_each next messages >>= λ rest. ok (gone ∷ rest) in
      let m = filter_message {E = E} matches cfg c f id msg in
      bind_same m _ (λ x. viewed x >>= K)
        (λ (g, s).
          ap (λ o. o >>= λ rest. ok (is_dropped s ∷ rest)) (filter_each-decide_each g messages))
      ∙ sym (bind_assoc m viewed K)
      ∙ ap (λ o. o >>= K) (filter_message-decide c f id msg)
