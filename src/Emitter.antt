-- ===== src/Emitter.antt =====
-- emitter.go: the copying from an input to the outputs. The writes of the outputs, and the
-- matching of expressions, are parameters.
pub mod Count
pub mod Pairs
use traffic.Base.Outcome.{Outcome, ok, err, panic, ◌>>=◌, Returns}
use traffic.Base.{
  ℕ, zero, suc, ◌+◌, ◌-◌, ◌%◌, ◌≤◌, Bool, true, false, not, ◌&&◌, ◌||◌, List, [], ◌∷◌, Option, none,
  some, ◌≡◌, refl, ap, ◌∙◌, inl, inr, arith, ltb, leb, ◌==◌, if◌then◌else◌, length, take, get_or,
  Bool-cases,
}
use traffic.Http.Search.{Bytes, equal}
use traffic.Modifier.{ModifierConfig, nonempty, rewrite}
use traffic.Payload.{payload_meta, is_request_payload}

-- What a reader of an input gives.
pub record PluginMessage : Type 0 where
  pub meta : Bytes
  pub body : Bytes

-- What `CopyMulty` keeps between its rounds; a time is in nanoseconds.
pub record Filter : Type 0 where
  pub filtered_count : ℕ
  pub last_clean_time : ℕ
  pub filtered_requests : List (Bytes × ℕ)

-- Readings of the clock in a round: where a request is filtered, and about the cleaning.
pub record Clock : Type 0 where
  pub filtered_at : ℕ
  pub clean_at : ℕ
  pub cleaned_at : ℕ

unfoldable pub is_filtered : Bytes → List (Bytes × ℕ) → Bool
is_filtered id [] = false
is_filtered id ((k, t) ∷ m) = equal k id || is_filtered id m

unfoldable pub forget : Bytes → List (Bytes × ℕ) → List (Bytes × ℕ)
forget id [] = []
forget id ((k, t) ∷ m) = if equal k id then forget id m else (k, t) ∷ forget id m

-- `filteredRequests[requestID] = now`, `filteredCount++`
unfoldable pub remember : Bytes → ℕ → Filter → Filter
unfolding forget
remember id now f = record f {
  filtered_requests = (id, now) ∷ forget id f.filtered_requests;
  filtered_count = f.filtered_count + 1;
}

-- the loop of the cleaning, with the count
unfoldable pub clean_from : ℕ → List (Bytes × ℕ) → ℕ → List (Bytes × ℕ) × ℕ
clean_from now [] n = ([], n)
clean_from now ((k, t) ∷ m) n =
    if ltb (t + 60000000000) now
    then clean_from now m (n - 1)
    else (let (kept, left) = clean_from now m n in ((k, t) ∷ kept, left))

unfoldable pub clean : Clock → Filter → Filter
unfolding clean_from
clean c f =
    if ltb 0 f.filtered_count && f.filtered_count % 1000 == 0
    then (if ltb (f.last_clean_time + 60000000000) c.clean_at
        then (let (kept, left) = clean_from c.clean_at f.filtered_requests f.filtered_count in
            record {
              filtered_count = left;
              last_clean_time = c.cleaned_at;
              filtered_requests = kept;
            })
        else f)
    else f

-- What a round ends with: the next round follows at once (`continue`), or the message goes to the
-- outputs and the cleaning follows.
pub data Sent : Type 0 where
  dropped : Sent
  sent : PluginMessage → Sent

module _ {E R : Type 0} (matches : R → Bytes → Bool) where
  -- the branches under `modifierRule != nil`
  unfoldable pub filter_message :
      ModifierConfig R → Clock → Filter → Bytes → PluginMessage → Outcome E (Filter × Sent)
  unfolding forget is_filtered remember
  filter_message cfg c f id msg = do
    request ← is_request_payload msg.meta
    if request
        then (do
          new ← rewrite matches cfg msg.body
          ok (
              if length new == 0
              then (remember id c.filtered_at f, dropped)
              else (f, sent (record msg { body = new }))))
        else if is_filtered id f.filtered_requests
        then ok (
          record f {
            filtered_requests = forget id f.filtered_requests;
            filtered_count = f.filtered_count - 1;
          },
          dropped,
        )
        else ok (f, sent msg)

  -- one round of `CopyMulty` up to the writes: `none` for a message without data
  unfoldable pub round :
      Option (ModifierConfig R)
      → ℕ
      → Clock
      → Filter
      → PluginMessage
      → Outcome E (Filter × Option Sent)
  unfolding filter_message
  round rule buffer_size c f msg =
      if length msg.body == 0
      then ok (clean c f, none)
      else let cut = record msg {
        body = if ltb buffer_size (length msg.body) then take buffer_size msg.body else msg.body;
      } in
        let meta = payload_meta msg.meta in
        if ltb (length meta) 3 then ok (f, some dropped) else elim rule [
          | none ↦ ok (clean c f, some (sent cut))
          | some cfg ↦ filter_message cfg c f (get_or meta 1 []) cut >>= λ (g, s). elim s [
            | dropped ↦ ok (g, some dropped)
            | sent m ↦ ok (clean c g, some (sent m))
          ]
        ]

-- What a writer of an output returns: no error, the error of a closed pipe, or another.
pub data Written (E : Type 0) : Type 0 where
  written closed_pipe : Written E
  write_failed : E → Written E

module _ {E R W : Type 0} (matches : R → Bytes → Bool)
    (write : W → PluginMessage → W × Written E) where
  -- the loop over the writers; each keeps a state
  unfoldable pub write_each : List W → PluginMessage → Outcome E (List W)
  write_each [] msg = ok []
  write_each (w ∷ writers) msg =
      let (v, result) = write w msg in
      let rest = write_each writers msg >>= λ vs. ok (v ∷ vs) in
      elim result [ written ↦ rest | closed_pipe ↦ rest | write_failed e ↦ err e ]

  -- the loop of `CopyMulty` over the messages that its reader gives, up to the error that ends it
  unfoldable pub copy_multy :
      Option (ModifierConfig R)
      → ℕ
      → Filter
      → List W
      → List (Clock × PluginMessage)
      → Outcome E (Filter × List W)
  unfolding round write_each
  copy_multy rule buffer_size f writers [] = ok (f, writers)
  copy_multy rule buffer_size f writers ((c, msg) ∷ messages) = do
    (g, s) ← round matches rule buffer_size c f msg
    vs ← elim s [
      | none ↦ ok writers
      | some x ↦ elim x [ dropped ↦ ok writers | sent m ↦ write_each writers m ]
    ]
    copy_multy rule buffer_size g vs messages
