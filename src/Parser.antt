-- ===== src/Parser.antt =====
-- tcp/tcp_message.go: the parser of messages; listener/ip_listener.go: the hints that it is given.
pub mod Sound
pub mod Adding
pub mod Invariant
pub mod Complete
pub mod Emission
pub mod Processing
pub mod Late
pub mod Ids
pub mod Clearing
pub mod Keyed
pub mod Draining
use traffic.Base.Outcome.{Outcome, ok, err, panic, loops, ◌>>=◌}
use traffic.Base.{
  ℕ, zero, suc, ◌+◌, ◌%◌, ◌^◌, Bool, true, false, not, ◌&&◌, ◌||◌, List, [], ◌∷◌, ◌++◌, Option,
  none, some, ltb, leb, ◌==◌, if◌then◌else◌, length, take, drop, replicate,
}
use traffic.Http.Search.{equal}
use traffic.Http.State.{HttpState, new_state, has_full_payload}
use traffic.Http.Title.{has_request_title, has_response_title}
use traffic.Message.{
  Message, Table, Store, set_packet, set_message, is_unknown, add, missing_chunk, packet_data,
  continues,
}
use traffic.Packet.{
  Bytes, Dir, unknown, incoming, outcoming, Packet, HdrError, CaptureInfo, parse_packet, message_id,
}

-- What a parser is made with. `http` is set where `Start` and `End` are the hints of the listener;
-- otherwise both are nil.
pub record Config : Type 0 where
  pub message_expire : ℕ
  pub allow_incomplete : Bool
  pub http : Bool
  pub ports : List ℕ
  pub ips : List Bytes

unfoldable pub lookup : ℕ → Table → Option ℕ
lookup k [] = none
lookup k ((j, v) ∷ t) = if j == k then some v else lookup k t

-- `delete(m, k)`
unfoldable pub delete : ℕ → Table → Table
delete k [] = []
delete k ((j, v) ∷ t) = if j == k then delete k t else (j, v) ∷ delete k t

-- `m[k] = v`
unfoldable pub store : ℕ → ℕ → Table → Table
unfolding delete
store k v t = (k, v) ∷ delete k t

-- `http1StartHint`
unfoldable pub http1_start_hint : Bytes → Bool × Bool
http1_start_hint payload =
    if has_request_title payload
    then (true, false)
    else if has_response_title payload
    then (false, true)
    else (false, false)

-- the direction that the hint gives, or the one before it
unfoldable pub hinted : Bool × Bool → Dir → Dir
hinted (true, out) d = incoming
hinted (false, true) d = outcoming
hinted (false, false) d = d

abbrev pub state_of : Option HttpState → HttpState
state_of none = new_state
state_of (some s) = s

module _ {E : Type 0} where
  -- `http1EndHint`; the message keeps the state
  unfoldable pub http1_end_hint : Store → ℕ → Outcome E (Store × Bool)
  http1_end_hint s i =
      let m = s.message i in
      missing_chunk s m.packets >>= λ missing. if missing then ok (s, false) else do
        (state, full) ← has_full_payload (state_of m.feedback) (packet_data s m.packets)
        ok (set_message s i (record m { feedback = some state }), full)

  -- `m.packets[0].MessageID()`, which keeps the id in the packet
  unfoldable pub first_id : Store → List ℕ → Outcome E (Store × ℕ)
  first_id s [] = panic
  first_id s (r ∷ rs) = do (p, id) ← message_id (s.packet r); ok (set_packet s r p, id)

  -- `Emit`; the statistics that it counts are not kept
  unfoldable pub emit : Store → ℕ → Outcome E Store
  unfolding delete
  emit s i = do
    (t, id) ← first_id s (s.message i).packets
    ok (record t { table = delete id t.table; emitted = t.emitted ++ (i ∷ []) })

-- the loop that shifts the acknowledgement numbers
unfoldable pub shift_acks : Store → List ℕ → Store
shift_acks s [] = s
shift_acks s (r ∷ rs) =
    let p = s.packet r in
    shift_acks (set_packet s r (record p { message_id = 0; ack = (p.ack + 25) % 2 ^ 32 })) rs

module _ {E : Type 0} where
  -- `AddPacket` of each packet of another message
  unfoldable pub add_all :
      (Store → ℕ → ℕ → Outcome E (Store × Bool)) → Store → ℕ → List ℕ → Outcome E Store
  add_all add_one s i [] = ok s
  add_all add_one s i (r ∷ rs) = add_one s i r >>= λ (t, added). add_all add_one t i rs

  -- `Fix100Continue`; the call of `addPacket` is handed over
  unfoldable pub fix100_continue :
      (Store → ℕ → ℕ → Outcome E (Store × Bool)) → Store → ℕ → Outcome E Store
  unfolding continues delete store lookup
  fix100_continue add_one s i = if not (continues (s.message i).feedback) then ok s else do
    (a, old_id) ← first_id s (s.message i).packets
    let b = shift_acks (record a { table = delete old_id a.table }) (s.message i).packets
    (c, new_id) ← first_id b (b.message i).packets
    d ← elim (lookup new_id c.table) [
      | none ↦ ok c
      | some next ↦ add_all add_one c i (c.message next).packets
    ]
    (e, last_id) ← first_id d (d.message i).packets
    ok (record e { table = store last_id i e.table })

  -- `addPacket`; the calls that `Fix100Continue` makes of it take fuel
  unfoldable pub add_packet : ℕ → Config → Store → ℕ → ℕ → Outcome E (Store × Bool)
  add_packet zero cfg s i r = loops
  add_packet (suc fuel) cfg s i r =
      let (t, added) = add s i r in
      let rest = add_packet fuel cfg in
      if not added then ok (t, false) else if not cfg.http then ok (t, true) else do
        (u, ended) ← http1_end_hint t i
        if ended
            then (emit u i >>= λ v. ok (v, true))
            else (fix100_continue rest u i >>= λ v. ok (v, true))

  -- the branch of `processPacket` for a message in progress; a nil `Start` is called there too
  unfoldable pub resume : ℕ → Config → Store → ℕ → ℕ → Outcome E Store
  resume fuel cfg s i r =
      let m = s.message i in
      let direct =
        set_message s i
          (record m { direction = hinted (http1_start_hint (s.packet r).payload) m.direction }) in
      if is_unknown m.direction && not cfg.http then panic else do
        (t, added) ← add_packet fuel cfg (if is_unknown m.direction then direct else s) i r
        ok t

  -- the rest of `processPacket`: a new message for the packet
  unfoldable pub begin : ℕ → Config → Store → ℕ → ℕ → Outcome E Store
  begin fuel cfg s id r =
      let p = s.packet r in
      let direction =
        if is_unknown p.direction && cfg.http
        then hinted (http1_start_hint p.payload) p.direction
        else p.direction in
      let q = record p { direction = direction } in
      let i = s.messages_used in
      let m : Message = record {
        packets = [];
        feedback = none;
        lost_data = 0;
        size = 0;
        start = q.timestamp;
        end_at = 0;
        src_addr = q.src_ip;
        dst_addr = q.dst_ip;
        direction = direction;
        timed_out = false;
        truncated = false;
        ip_version = 0;
      } in
      let t = set_message (set_packet s r q) i m in
      do
        (u, added) ←
            add_packet fuel cfg (record t { messages_used = i + 1; table = store id i t.table }) i r
        ok u

  -- `processPacket` of a packet in the store
  unfoldable pub process_stored : ℕ → Config → Store → ℕ → Outcome E Store
  process_stored fuel cfg s r = do
    (p, id) ← message_id (s.packet r)
    let t = set_packet s r p
    elim (lookup id t.table) [ some i ↦ resume fuel cfg t i r | none ↦ begin fuel cfg t id r ]

  -- `processPacket`, with `none` for nil
  unfoldable pub process_packet : ℕ → Config → Store → Option Packet → Outcome E Store
  process_packet fuel cfg s none = ok s
  process_packet fuel cfg s (some p) =
      let r = s.packets_used in
      process_stored fuel cfg (record (set_packet s r p) { packets_used = r + 1 }) r

  -- the body of the timer's loop for the message of one key
  unfoldable pub expire : Config → ℕ → Store → ℕ → Outcome E Store
  unfolding delete
  expire cfg now s i =
      let m = s.message i in
      let late = set_message s i (record m { timed_out = true }) in
      if ltb (m.end_at + cfg.message_expire) now
      then (do
        t ← if not cfg.http || cfg.allow_incomplete then emit late i else ok late
        (u, id) ← first_id t m.packets
        ok (record u { table = delete id u.table }))
      else ok s

  -- `timer`; `keys` is the order in which the range over the map visits its keys, and a key that was
  -- deleted before is not visited
  unfoldable pub timer : Config → ℕ → Store → List ℕ → Outcome E Store
  unfolding lookup
  timer cfg now s [] = ok s
  timer cfg now s (k ∷ keys) =
      elim (lookup k s.table) [ none ↦ ok s | some i ↦ expire cfg now s i ] >>= λ t.
      timer cfg now t keys

-- `DstIP.Equal(ip)`: the same bytes, or an IPv4 address and its IPv6 form
unfoldable pub ip_equal : Bytes → Bytes → Bool
unfolding equal
ip_equal a b =
    equal a b
    || (length a == 4 && length b == 16 && equal ((replicate 10 0 ++ (255 ∷ 255 ∷ [])) ++ a) b)
    || (length a == 16 && length b == 4 && equal a ((replicate 10 0 ++ (255 ∷ 255 ∷ [])) ++ b))

unfoldable pub contains : (Bytes → Bool) → List Bytes → Bool
contains test [] = false
contains test (x ∷ xs) = test x || contains test xs

unfoldable pub contains_port : ℕ → List ℕ → Bool
contains_port p [] = false
contains_port p (q ∷ ports) = p == q || contains_port p ports

-- `parsePacket`: nil for an error, and the direction of a packet to a port and address of ours
unfoldable pub parse_captured :
    ℕ → Config → Bytes → ℕ → CaptureInfo → Outcome HdrError (Option Packet)
unfolding ip_equal contains contains_port
parse_captured fuel cfg frame link_len cp = elim (parse_packet fuel frame link_len cp false) [
  | ok p ↦
      if contains_port p.dst_port cfg.ports && contains (ip_equal p.dst_ip) cfg.ips
      then ok (some (record p { direction = incoming }))
      else ok (some p)
  | err e ↦ ok none
  | panic ↦ panic
  | loops ↦ loops
]

-- What the loop of `wait` receives: a captured frame with its fuel, or a tick with the order of keys.
pub data Event : Type 0 where
  frame : ℕ → Bytes → ℕ → CaptureInfo → Event
  tick : ℕ → List ℕ → Event

unfoldable pub handle : ℕ → Config → Store → Event → Outcome HdrError Store
handle fuel cfg s (frame n bytes link_len cp) =
    parse_captured n cfg bytes link_len cp >>= λ p. process_packet fuel cfg s p
handle fuel cfg s (tick now keys) = timer cfg now s keys

-- `wait` up to its close
unfoldable pub wait : ℕ → Config → Store → List Event → Outcome HdrError Store
unfolding handle
wait fuel cfg s [] = ok s
wait fuel cfg s (e ∷ events) = handle fuel cfg s e >>= λ t. wait fuel cfg t events
