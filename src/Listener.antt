-- ===== src/Listener.antt =====
-- listener/ip_listener.go: the filter expression for a device, the sizes of link headers, and the test
-- for packets of the Dubbo protocol. A device and its addresses come from libpcap; an address is
-- kept as its text.
pub mod Magic
pub mod Handles
pub mod Devices
pub mod Pcap
pub mod Configure
pub mod Tidy
pub mod Lifecycle
use traffic.Base.Encoding.{hex, decimal, ℤ, pos}
use traffic.Base.Outcome.{Outcome, ok, ◌>>=◌, slice}
use traffic.Base.{
  ℕ, suc, ◌+◌, ◌-◌, ◌^◌, Bool, true, false, not, ◌&&◌, ◌||◌, List, [], ◌∷◌, ◌++◌, map, Option, none,
  some, ltb, leb, ◌==◌, if◌then◌else◌, length,
}
use traffic.Http.Search.{Bytes, codes, equal}

-- `pcap.Interface`
pub record Interface : Type 0 where
  pub name : Bytes
  pub addresses : List Bytes

-- The values that the package layers of gopacket gives its link types.
pub record LinkTypes : Type 0 where
  pub ethernet : ℕ
  pub null_type : ℕ
  pub loop : ℕ
  pub raw : ℕ
  pub ipv4 : ℕ
  pub ipv6 : ℕ
  pub linux_sll : ℕ
  pub fddi : ℕ

unfoldable pub pcap_link_type_length : LinkTypes → ℕ → ℕ × Bool
pcap_link_type_length types t =
    if t == types.ethernet
    then (14, true)
    else if t == types.null_type || t == types.loop
    then (4, true)
    else if t == types.raw || t == 12 || t == 14
    then (0, true)
    else if t == types.ipv4 || t == types.ipv6
    then (0, true)
    else if t == types.linux_sll
    then (16, true)
    else if t == types.fddi
    then (13, true)
    else if t == 226
    then (24, true)
    else (0, false)

-- a `switch` over texts
unfoldable pub is_one_of : Bytes → List Bytes → Bool
unfolding equal
is_one_of s [] = false
is_one_of s (t ∷ ts) = equal s t || is_one_of s ts

unfoldable pub is_loopback : Interface → Bool
unfolding is_one_of
is_loopback device = elim device.addresses [
  | [] ↦ false
  | a ∷ others ↦ is_one_of a (codes "127.0.0.1" ∷ codes "::1" ∷ [])
]

unfoldable pub listen_all : Bytes → Bool
unfolding is_one_of
listen_all address = is_one_of address ([] ∷ codes "0.0.0.0" ∷ codes "[::]" ∷ codes "::" ∷ [])

unfoldable pub listen_all_interfaces : Bytes → Bool
unfolding is_one_of
listen_all_interfaces address =
    is_one_of address ([] ∷ codes "0.0.0.0" ∷ codes "[::]" ∷ codes "::" ∷ [])

unfoldable pub is_device : Bytes → Interface → Bool
unfolding equal is_one_of
is_device address device =
    (equal address (codes "127.0.0.1") && equal device.name (codes "\\Device\\NPF_Loopback"))
    || equal address device.name
    || is_one_of address device.addresses

-- `strings.Join(parts, " or ")`
unfoldable pub join_or : List Bytes → Bytes
join_or [] = []
join_or (p ∷ []) = p
join_or (p ∷ q ∷ ps) = p ++ (codes " or " ++ join_or (q ∷ ps))

-- the words with a space between them
abbrev pub words : Bytes → Bytes → Bytes → Bytes
words a b c = a ++ (b' ' ∷ (b ++ (b' ' ∷ c)))

-- no port, or port 0 in front, stands for all ports
abbrev pub all_ports : List ℕ → Bool
all_ports [] = true
all_ports (p ∷ ports) = p == 0

unfoldable pub ports_filter : Bytes → Bytes → List ℕ → Bytes
unfolding join_or
ports_filter transport direction ports =
    if all_ports ports
    then words transport direction (codes "portrange 0-" ++ decimal (pos 65535))
    else join_or (map (λ p. words transport direction (codes "port " ++ decimal (pos p))) ports)

unfoldable pub hosts_filter : Bytes → List Bytes → Bytes
unfolding join_or
hosts_filter direction hosts = join_or (map (λ h. words direction (codes "host") h) hosts)

-- The fields of `IPListener` that the filter depends on.
pub record ListenerConfig : Type 0 where
  pub host : Bytes
  pub transport : Bytes
  pub ports : List ℕ
  pub promiscuous : Bool
  pub track_response : Bool

abbrev pub has_hosts : List Bytes → Bool
has_hosts [] = false
has_hosts (h ∷ hosts) = true

-- the part of the filter for one direction
unfoldable pub side : ListenerConfig → List Bytes → Bytes → Bytes
unfolding ports_filter hosts_filter
side l hosts direction =
    let ports = ports_filter l.transport direction l.ports in
    if has_hosts hosts && not l.promiscuous
    then codes "((" ++ (ports ++ (codes ") and (" ++ (hosts_filter direction hosts ++ codes "))")))
    else codes "(" ++ (ports ++ codes ")")

unfoldable pub filter : ListenerConfig → Interface → Bytes
unfolding listen_all is_device side
filter l device =
    let hosts =
      if listen_all l.host || is_device l.host device then device.addresses else l.host ∷ [] in
    let requests = side l hosts (codes "dst") in
    if l.track_response then requests ++ (codes " or " ++ side l hosts (codes "src")) else requests

module _ {E : Type 0} where
  -- `filterPackage` on the payload of the TCP layer
  unfoldable pub filter_package : Bool → Bytes → Outcome E Bool
  unfolding equal
  filter_package dubbo content =
      if not dubbo
      then ok true
      else if leb (length content) 17
      then ok false
      else do payload16 ← slice (hex content) 0 4; ok (equal payload16 (codes "dabb"))
