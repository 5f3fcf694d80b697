-- ===== src/Parser/Draining.antt =====
-- tcp/tcp_message.go: a parser without hints, whatever it receives: a tick clears the map of the late
-- messages, and emits them.
use mathlib.Core.Path.{subst}
use traffic.Base.Outcome.{
  Outcome, err, panic, loops, ok, IfOk, IfOk-bind, IfOk-bind_of, IfOk-and, Returns,
}
use traffic.Base.Encoding.{All}
use traffic.Base.{
  ℕ, ◌+◌, ◌<◌, true, false, not, ◌||◌, List, [], ◌∷◌, ◌++◌, Option, none, some, ◌≡◌, refl, sym, ap,
  ◌∙◌, inl, inr, arith, ◌==◌, if◌then◌else◌, Bool-cases, Option-cases, ==_iff,
}
use traffic.Message.{Store, set_packet}
use traffic.Packet.{Packet, HdrError, message_id}
use traffic.Parser.Clearing.{
  IsStepped, step_of, timer_step, stepped-IsKeyed, still_there, Returns-map, is_key, late_under,
  late_at, late_messages, AreKeys, IsTicked, timer-IsTicked,
}
use traffic.Parser.Invariant.{IsSoundStore, handle-IsSound}
use traffic.Parser.Emission.{update_same}
use traffic.Parser.Late.{IsKeyed, is_late}
use traffic.Parser.Ids.{IsIndexed, IsKeyed-fresh, message_id-again}
use traffic.Parser.Keyed.{update_other, resume-IsIndexed, begin-IsIndexed}
use traffic.Parser.{
  Config, Event, frame, tick, lookup, process_stored, process_packet, parse_captured, timer, handle,
  wait,
}

process_stored-IsIndexed :
    (fuel : ℕ) (cfg : Config) (s : Store) (r : ℕ)
    → cfg.http ≡ false
    → IsIndexed s
    → ((i : ℕ) → All (λ q. q < r) (s.message i).packets)
    → IfOk {E = HdrError} IsIndexed (process_stored fuel cfg s r)
unfolding process_stored
process_stored-IsIndexed fuel cfg s r h x a =
    IfOk-bind_of (λ y. message_id {E = HdrError} y.0 ≡ ok y) IsIndexed (message_id (s.packet r)) _
      (message_id-again (s.packet r))
      λ y m.
        let t = set_packet s r y.0 in
        let here = update_same s.packet r y.0 in
        let again : message_id {E = HdrError} (t.packet r) ≡ ok (t.packet r, y.1) =
          ap message_id here ∙ m ∙ ap (λ p. ok (p, y.1)) (sym here) in
        let k : IsIndexed t = record {
          keyed =
              IsKeyed-fresh s t r a refl refl
                (λ q l.
                  let ne : (q == r) ≡ false = ground arith in update_other s.packet r q y.0 ne)
                x.keyed;
          within = x.within;
        } in
        elim (Option-cases (lookup y.1 s.table)) [
          | inl e ↦ rw e (begin-IsIndexed fuel cfg t y.1 r h k again)
          | inr (i, e) ↦ rw e (resume-IsIndexed fuel cfg t i r y.1 h k e again)
        ]

process_packet-IsIndexed :
    (fuel : ℕ) (cfg : Config) (s : Store) (o : Option Packet)
    → cfg.http ≡ false
    → IsSoundStore s
    → IsIndexed s
    → IfOk {E = HdrError} IsIndexed (process_packet fuel cfg s o)
unfolding process_packet
process_packet-IsIndexed fuel cfg s none h w x = x
process_packet-IsIndexed fuel cfg s (some p) h w x =
    let r = s.packets_used in
    let t : Store = record (set_packet s r p) { packets_used = r + 1 } in
    process_stored-IsIndexed fuel cfg t r h
      (record {
        keyed =
            IsKeyed-fresh s t r w.allocated refl refl
              (λ q l. let ne : (q == r) ≡ false = ground arith in update_other s.packet r q p ne)
              x.keyed;
        within = x.within;
      })
      w.allocated

Returns-IfOk : {A : Type 0} (P : A → Type 0) (m : Outcome HdrError A) → Returns P m → IfOk P m
Returns-IfOk P (ok a) h = h
Returns-IfOk P (err e) h = tt
Returns-IfOk P panic h = tt
Returns-IfOk P loops h = tt

-- A tick keeps the map as it should be, whichever keys it visits.
timer-IsIndexed :
    (cfg : Config) (now : ℕ) (s : Store) (keys : List ℕ)
    → IsIndexed s
    → IfOk {E = HdrError} IsIndexed (timer cfg now s keys)
unfolding timer step_of
timer-IsIndexed cfg now s [] x = x
timer-IsIndexed cfg now s (k ∷ keys) x =
    IfOk-bind_of (IsStepped cfg now s k) IsIndexed (step_of cfg now s k) _
      (Returns-IfOk (IsStepped cfg now s k) (step_of cfg now s k) (timer_step cfg now s k x.keyed))
      λ t y. timer-IsIndexed cfg now t keys (record {
        keyed = stepped-IsKeyed cfg now s k t y x.keyed;
        within = λ l i e.
            let used = y.kept.used in
            let w = x.within l i (still_there cfg now s k t y l i e) in omega arith;
      })

abbrev IsRunning : Store → Type 0
IsRunning s = IsSoundStore s × IsIndexed s

handle-IsRunning :
    (fuel : ℕ) (cfg : Config) (s : Store) (e : Event)
    → cfg.http ≡ false
    → IsRunning s
    → IfOk IsRunning (handle fuel cfg s e)
unfolding handle
handle-IsRunning fuel cfg s (frame n bytes link_len cp) h x =
    IfOk-and IsSoundStore IsIndexed (handle fuel cfg s (frame n bytes link_len cp))
      (handle-IsSound fuel cfg s (frame n bytes link_len cp) x.0)
      (IfOk-bind IsIndexed (parse_captured n cfg bytes link_len cp) _
        λ p. process_packet-IsIndexed fuel cfg s p h x.0 x.1)
handle-IsRunning fuel cfg s (tick now keys) h x =
    IfOk-and IsSoundStore IsIndexed (handle fuel cfg s (tick now keys))
      (handle-IsSound fuel cfg s (tick now keys) x.0) (timer-IsIndexed cfg now s keys x.1)

wait-IsRunning :
    (fuel : ℕ) (cfg : Config) (s : Store) (events : List Event)
    → cfg.http ≡ false
    → IsRunning s
    → IfOk IsRunning (wait fuel cfg s events)
unfolding wait
wait-IsRunning fuel cfg s [] h x = x
wait-IsRunning fuel cfg s (e ∷ events) h x =
    IfOk-bind_of IsRunning IsRunning (handle fuel cfg s e) _ (handle-IsRunning fuel cfg s e h x)
      λ t y. wait-IsRunning fuel cfg t events h y

-- What a tick does with the message i that stands under the key k of the map of t.
abbrev pub Drains : Config → ℕ → Store → Store → ℕ → ℕ → Type 0
Drains cfg now t u k i =
    if is_late cfg now (t.message i)
    then (lookup k u.table ≡ none) × (is_key i u.emitted ≡ true)
    else lookup k u.table ≡ some i

is_key-append : (i : ℕ) (xs ys : List ℕ) → is_key i ys ≡ true → is_key i (xs ++ ys) ≡ true
unfolding is_key
is_key-append i [] ys h = h
is_key-append i (x ∷ xs) ys h = ground (arith, is_key-append i xs ys h)

is_key-append_front : (i : ℕ) (xs ys : List ℕ) → is_key i xs ≡ true → is_key i (xs ++ ys) ≡ true
unfolding is_key
is_key-append_front i [] ys h = absurd (cc)
is_key-append_front i (x ∷ xs) ys h = ground (arith, is_key-append_front i xs ys)

-- A late message under a key that is visited is one of the late ones.
late_messages-has :
    (cfg : Config) (now : ℕ) (t : Store) (keys : List ℕ) (k i : ℕ)
    → lookup k t.table ≡ some i
    → is_late cfg now (t.message i) ≡ true
    → is_key k keys ≡ true
    → is_key i (late_messages cfg now t keys) ≡ true
unfolding late_messages is_key late_at
late_messages-has cfg now t [] k i e l v = absurd (cc)
late_messages-has cfg now t (j ∷ keys) k i e l v = elim (Bool-cases (j == k)) [
  | inl d ↦
      let same : late_at cfg now t j ≡ i ∷ [] =
        ap (late_at cfg now t) ((==_iff j k).0 d) ∙ rw (e, late_at, l) refl in
      is_key-append_front i (late_at cfg now t j) (late_messages cfg now t keys)
        (rw same (ground arith))
  | inr d ↦
      is_key-append i (late_at cfg now t j) (late_messages cfg now t keys)
        (late_messages-has cfg now t keys k i e l (ground arith))
]

ticked-Drains :
    (cfg : Config) (now : ℕ) (t u : Store) (keys : List ℕ) (k i : ℕ)
    → cfg.http ≡ false
    → IsTicked cfg now t keys u
    → lookup k t.table ≡ some i
    → is_key k keys ≡ true
    → Drains cfg now t u k i
unfolding late_under
ticked-Drains cfg now t u keys k i h y e v = elim (Bool-cases (is_late cfg now (t.message i))) [
  | inl l ↦
      let under : late_under cfg now t k ≡ true = rw (e, late_under) l in
      let b : (not cfg.http || cfg.allow_incomplete) ≡ true = ground arith in
      rw l (
        y.table k ∙ rw (v, under) refl,
        rw (y.emitted, b)
            (is_key-append i t.emitted (late_messages cfg now t keys)
              (late_messages-has cfg now t keys k i e l v)),
      )
  | inr l ↦
      let under : late_under cfg now t k ≡ false = rw (e, late_under) l in
      rw l (y.table k ∙ rw (v, under) e)
]

-- A parser without hints on any frames and ticks, from a sound store whose map has each message under
-- the id of its packets: where it has not ended with a run-time panic, a tick that visits the keys of
-- the map, in any order, does not either; every message that has waited for too long is emitted by it
-- and gone from the map, and every other one is still in the map.
pub timer-wait :
    (fuel : ℕ) (cfg : Config) (s t : Store) (events : List Event) (now : ℕ) (keys : List ℕ)
    → cfg.http ≡ false
    → IsSoundStore s
    → IsIndexed s
    → wait fuel cfg s events ≡ ok t
    → AreKeys keys
    → ((k i : ℕ) → lookup k t.table ≡ some i → is_key k keys ≡ true)
    → Returns {E = HdrError}
        (λ u. (k i : ℕ) → lookup k t.table ≡ some i → Drains cfg now t u k i)
        (timer cfg now t keys)
timer-wait fuel cfg s t events now keys h sound indexed e d all =
    let x = subst (IfOk IsRunning) e (wait-IsRunning fuel cfg s events h (sound, indexed)) in
    Returns-map (λ u. IsTicked cfg now t keys u × IsKeyed u) _ (timer cfg now t keys)
      (timer-IsTicked cfg now t keys x.1.keyed d)
      λ u y k i f. ticked-Drains cfg now t u keys k i h y.0 f (all k i f)
