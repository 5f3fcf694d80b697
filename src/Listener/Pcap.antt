-- ===== src/Listener/Pcap.antt =====
-- listener/ip_listener.go: `PcapHandle`, which configures and activates the handle of a device. Which of
-- the calls of libpcap succeed is an argument; the calls that were made are kept in their order.
use traffic.Base.{
  ℕ, ◌*◌, Bool, not, ◌&&◌, List, [], ◌∷◌, ◌++◌, Option, none, some, ◌==◌, if◌then◌else◌, length,
}
use traffic.FileInput.{less}
use traffic.Base.Encoding.{ℤ, pos}
use traffic.Http.Search.{Bytes, codes, equal}
use traffic.Listener.Devices.{snap_len}

pub data Call : Type 0 where
  new_inactive_handle set_timestamp_source : Bytes → Call
  set_promisc set_rf_mon : Call
  set_snap_len : ℕ → Call
  set_buffer_size : ℤ → Call
  set_timeout : ℕ → Call
  activate : Call
  set_bpf_filter : Bytes → Call
  close clean_up : Call

-- `PcapOptions`, as far as it is read here; a time is in nanoseconds
pub record PcapOptions : Type 0 where
  pub timestamp_type : Bytes
  pub promiscuous : Bool
  pub monitor : Bool
  pub snaplen : Bool
  pub buffer_size : ℤ
  pub buffer_timeout : ℕ
  pub bpf_filter : Bytes

-- A function that makes calls: the calls behind those before it, and the call whose error it returns.
abbrev pub Attempt : Type 0
Attempt = List Call → List Call × Option Call

-- what follows a function: nothing, where it has failed
abbrev pub next : List Call × Option Call → Attempt → List Call × Option Call
next (made, none) k = k made
next (made, some failed) k = (made, some failed)

infixl 5 ◌>>◌
abbrev pub ◌>>◌ : Attempt → Attempt → Attempt
◌>>◌ m k calls = next (m calls) k

module _ (succeeds : Call → Bool) where
  -- a call, whose error is returned
  unfoldable pub try_call : Call → Attempt
  try_call c calls = (calls ++ (c ∷ []), if succeeds c then none else some c)

  -- `if test { … }`
  unfoldable pub try_when : Bool → Call → Attempt
  unfolding try_call
  try_when test c calls = if test then try_call c calls else (calls, none)

  -- the calls up to `SetTimeout`; `tolerated` is whether the error of `SetRFMon` is `CannotSetRFMon`
  unfoldable pub configure : PcapOptions → Bool → ℕ → Attempt
  unfolding try_when less equal
  configure o tolerated snap =
      try_when (not (length o.timestamp_type == 0) && not (equal o.timestamp_type (codes "go")))
        (set_timestamp_source o.timestamp_type)
      >> try_when o.promiscuous set_promisc
      >> (λ calls.
          let (made, failed) = try_when o.monitor set_rf_mon calls in
          (made, if tolerated then none else failed))
      >> try_call (set_snap_len snap)
      >> try_when (less (pos 0) o.buffer_size) (set_buffer_size o.buffer_size)
      >> try_call (set_timeout (if o.buffer_timeout == 0 then 2000 * 1000000 else o.buffer_timeout))

  -- the filter of a handle, which is closed where it is refused
  unfoldable pub set_filter : Bytes → Attempt
  unfolding try_call
  set_filter filter calls =
      let (made, failed) = try_call (set_bpf_filter filter) calls in
      elim failed [ none ↦ (made, none) | some c ↦ (made ++ (close ∷ []), some c) ]

  -- the calls behind them
  unfoldable pub open_handle : Bytes → Attempt
  unfolding try_call set_filter
  open_handle filter = try_call activate >> set_filter filter

  -- what follows the creation of the inactive handle, whose clean-up is deferred
  unfoldable pub with_clean_up : Attempt → Attempt
  with_clean_up m calls = let (made, failed) = m calls in (made ++ (clean_up ∷ []), failed)

  -- `PcapHandle` of a device by its name, with the MTUs of the interfaces of the system, and the
  -- expression that `Filter` gives
  unfoldable pub pcap_handle :
      PcapOptions → Bool → Bytes → List (Bytes × ℕ) → Bytes → List Call × Option Call
  unfolding try_call configure open_handle with_clean_up
  pcap_handle o tolerated name infs filter =
      let expression = if length o.bpf_filter == 0 then filter else o.bpf_filter in
      (try_call (new_inactive_handle name)
          >> with_clean_up
              (configure o tolerated (snap_len o.snaplen name infs) >> open_handle expression))
        []
