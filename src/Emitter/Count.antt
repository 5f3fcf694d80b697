-- ===== src/Emitter/Count.antt =====
-- emitter.go: the count of filtered requests, and the map that it counts.
use traffic.Base.Outcome.{ok, IfOk, IfOk-bind, IfOk-bind_of, IfOk-if}
use traffic.Base.{
  ℕ, ◌+◌, ◌-◌, ◌≤◌, ◌<◌, Bool, true, false, List, [], ◌∷◌, Option, none, some, ◌≡◌, inl, inr, arith,
  ltb, ◌==◌, if◌then◌else◌, length, get_or, Bool-cases,
}
use traffic.Http.Search.{Bytes, equal}
use traffic.Emitter.{
  PluginMessage, Filter, Clock, is_filtered, forget, remember, clean_from, clean, Sent, dropped,
  sent, filter_message, round,
}
use traffic.Modifier.{ModifierConfig, rewrite}
use traffic.Packet.{HdrError}
use traffic.Payload.{payload_meta, is_request_payload}

-- The map has no more entries than the count, so that a step down never passes 0.
unfoldable pub IsCounted : Filter → Type 0
IsCounted f = length f.filtered_requests ≤ f.filtered_count

length-forget : (id : Bytes) (m : List (Bytes × ℕ)) → length (forget id m) ≤ length m
unfolding forget
length-forget id [] = omega arith
length-forget id ((k, t) ∷ m) = ground (arith, length-forget id m)

length-forget_lt :
    (id : Bytes) (m : List (Bytes × ℕ)) → is_filtered id m ≡ true → length (forget id m) < length m
unfolding forget is_filtered
length-forget_lt id [] h = absurd cc
length-forget_lt id ((k, t) ∷ m) h = elim (Bool-cases (equal k id)) [
  | inl e ↦ let l = length-forget id m in rw e (omega arith)
  | inr e ↦ let l = length-forget_lt id m (simp e at h) in rw e (omega arith)
]

remember-IsCounted :
    (id : Bytes) (now : ℕ) (f : Filter) → IsCounted f → IsCounted (remember id now f)
unfolding remember IsCounted
remember-IsCounted id now f h = let l = length-forget id f.filtered_requests in omega arith

clean_from-counts :
    (now : ℕ) (m : List (Bytes × ℕ)) (n d : ℕ)
    → length m + d ≤ n
    → length (clean_from now m n).0 + d ≤ (clean_from now m n).1
unfolding clean_from
clean_from-counts now [] n d h = omega arith
clean_from-counts now ((k, t) ∷ m) n d h = elim (Bool-cases (ltb (t + 60000000000) now)) [
  | inl e ↦ rw e (clean_from-counts now m (n - 1) d (omega arith))
  | inr e ↦ let l = clean_from-counts now m n (d + 1) (omega arith) in rw e (omega arith)
]

clean-IsCounted : (c : Clock) (f : Filter) → IsCounted f → IsCounted (clean c f)
unfolding clean IsCounted
clean-IsCounted c f h =
    ground (arith, clean_from-counts c.clean_at f.filtered_requests f.filtered_count 0)

forget-IsCounted :
    (id : Bytes) (f : Filter)
    → IsCounted f
    → length (forget id f.filtered_requests) < length f.filtered_requests
    → IsCounted (record f {
      filtered_requests = forget id f.filtered_requests;
      filtered_count = f.filtered_count - 1;
    })
unfolding IsCounted
forget-IsCounted id f h l = omega arith

sent-IsCounted :
    (c : Clock) (f : Filter) (s : Sent)
    → IsCounted f
    → IfOk {E = HdrError} {A = Filter × Option Sent}
        (λ x. IsCounted x.0)
        (elim s [ dropped ↦ ok (f, some dropped) | sent m ↦ ok (clean c f, some (sent m)) ])
sent-IsCounted c f dropped h = h
sent-IsCounted c f (sent m) h = clean-IsCounted c f h

new_message-IsCounted :
    (E : Type 0) (b : Bool) (c : Clock) (f : Filter) (id : Bytes) (m : Sent)
    → IsCounted f
    → IfOk {E = E} {A = Filter × Sent}
        (λ r. IsCounted r.0)
        (ok (if b then (remember id c.filtered_at f, dropped) else (f, m)))
new_message-IsCounted E true c f id m h = remember-IsCounted id c.filtered_at f h
new_message-IsCounted E false c f id m h = h

filter_message-IsCounted :
    (E : Type 0) {R : Type 0} (matches : R → Bytes → Bool) (cfg : ModifierConfig R) (c : Clock)
    (f : Filter) (id : Bytes) (msg : PluginMessage)
    → IsCounted f
    → IfOk (λ r. IsCounted r.0) (filter_message {E = E} matches cfg c f id msg)
unfolding filter_message
filter_message-IsCounted E matches cfg c f id msg h =
    IfOk-bind _ (is_request_payload msg.meta) _ (λ request.
      IfOk-if _ request _ _
        (λ t.
          IfOk-bind _ (rewrite matches cfg msg.body) _
            (λ new. new_message-IsCounted E (length new == 0) c f id _ h))
        (λ t.
          IfOk-if _ (is_filtered id f.filtered_requests) _ _
            (λ e. let l = length-forget_lt id f.filtered_requests e in forget-IsCounted id f h l)
            (λ e. h)))

-- A round that returns leaves at most as many requests in the map as it counts, when there were at
-- most as many before it.
pub round-IsCounted :
    {R : Type 0} (matches : R → Bytes → Bool) (rule : Option (ModifierConfig R)) (buffer_size : ℕ)
    (c : Clock) (f : Filter) (msg : PluginMessage)
    → IsCounted f
    → IfOk {E = HdrError} (λ r. IsCounted r.0) (round matches rule buffer_size c f msg)
unfolding round
round-IsCounted matches none buffer_size c f msg h =
    IfOk-if _ (length msg.body == 0) _ _ (λ e. clean-IsCounted c f h)
      (λ e.
        IfOk-if _ (ltb (length (payload_meta msg.meta)) 3) _ _ (λ k. h)
          (λ k. clean-IsCounted c f h))
round-IsCounted matches (some cfg) buffer_size c f msg h =
    IfOk-if _ (length msg.body == 0) _ _ (λ e. clean-IsCounted c f h)
      (λ e.
        IfOk-if _ (ltb (length (payload_meta msg.meta)) 3) _ _ (λ k. h)
          (λ k.
            IfOk-bind_of (λ r. IsCounted r.0) _ _ _
              (filter_message-IsCounted HdrError matches cfg c f
                (get_or (payload_meta msg.meta) 1 []) _ h)
              (λ a k. sent-IsCounted c a.0 a.1 k)))
