-- ===== src/Listener/Lifecycle.antt =====
-- listener/ip_listener.go and input/input_http.go: how a listener is made and listens, and how the input
-- starts one. What libpcap, the system and the context of the input give are arguments.
use traffic.Base.Outcome.{Outcome, ok, err, panic, loops, ◌>>=◌}
use traffic.Base.{ℕ, ◌*◌, Bool, true, false, List, [], ◌∷◌, Option, if◌then◌else◌}
use traffic.Http.Search.{Bytes, codes, equal}
use traffic.Listener.{Interface}
use traffic.Listener.Devices.{DeviceError, NetInterface, Chosen, set_interfaces, activate_pcap}
use traffic.Listener.Pcap.{PcapOptions}

-- `IPListener`, as far as it is made here; the channels are empty, and the options those of zero
pub record IpListener : Type 0 where
  pub host : Bytes
  pub ports : List ℕ
  pub track_response : Bool
  pub transport : Bytes
  pub allow_incomplete : Bool
  pub expiry : ℕ
  pub chosen : Chosen
  pub options : PcapOptions
  pub handles : List (Bytes × List Bytes)

module _ (windows : Bool) (ifis : List NetInterface) (devices : Option (List Interface)) where
  -- `NewIPListener`
  unfoldable pub new_ip_listener :
      PcapOptions → Bytes → List ℕ → Bool → ℕ → Bool → Outcome DeviceError IpListener
  unfolding set_interfaces equal
  new_ip_listener blank host ports track_response expiry allow_incomplete =
      let named = if equal host (codes "localhost") then codes "127.0.0.1" else host in
      set_interfaces named windows ifis devices >>= λ chosen. ok (record {
        host = named;
        ports = ports;
        track_response = track_response;
        transport = codes "tcp";
        allow_incomplete = allow_incomplete;
        expiry = expiry;
        chosen = chosen;
        options = blank;
        handles = [];
      })

  -- `SetPcapOptions`
  unfoldable pub set_pcap_options : IpListener → PcapOptions → IpListener
  set_pcap_options l o = record l { options = o }

  -- `HttpInput.listen` up to the listening, of an input with its fields: the listener with its handles.
  -- The error of `NewIPListener` is dropped, and setting the options of nil panics then; `log.Fatal` is
  -- an error.
  unfoldable pub listen_http :
      (Interface → Option Bytes)
      → PcapOptions
      → Bytes
      → List ℕ
      → Bool
      → Bool
      → PcapOptions
      → Outcome DeviceError IpListener
  unfolding new_ip_listener set_pcap_options activate_pcap
  listen_http pcap_handle blank host ports track_response allow_incomplete options =
      let made =
        new_ip_listener blank host ports track_response (2 * 1000000000) allow_incomplete in
      elim made [
        | ok l ↦ do
          let t = set_pcap_options l options
          handles ← activate_pcap pcap_handle t.handles t.chosen.interfaces
          ok (record t { handles = handles })
        | err e ↦ panic
        | panic ↦ panic
        | loops ↦ loops
      ]

-- What ends `Listen`: the context of the input, or all handles being closed.
pub data Ending : Type 0 where
  cancelled all_closed : Ending

-- `Listen`: whether the handles are told to quit, and whether the error of the context is returned
unfoldable pub listen : Ending → Bool × Bool
listen cancelled = (true, true)
listen all_closed = (false, false)

-- `ListenBackground`: what its channel gives before it is closed. The test is of the channel, which is
-- not nil, so that the absence of an error is sent, too.
unfoldable pub listen_background : Ending → List Bool
unfolding listen
listen_background ending = (listen ending).1 ∷ []
