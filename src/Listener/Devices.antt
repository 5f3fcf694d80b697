-- ===== src/Listener/Devices.antt =====
-- listener/ip_listener.go: the choice of the devices that are listened to, and the opening of their
-- handles. The lists of devices, and what opening one gives, come from libpcap and the package net.
use traffic.Base.Outcome.{Outcome, ok, err}
use traffic.Base.{
  ℕ, ◌+◌, ◌*◌, Bool, true, false, not, ◌&&◌, ◌||◌, List, [], ◌∷◌, ◌++◌, Option, none, some, ltb,
  ◌==◌, if◌then◌else◌, length,
}
use traffic.Http.Search.{Bytes, equal}
use traffic.Listener.{Interface, is_loopback, listen_all_interfaces, is_device, is_one_of}

-- the errors of the listener, the texts of which are put together from libpcap's
pub data DeviceError : Type 0 where
  no_devices : DeviceError
  device_not_found : Bytes → DeviceError
  handles_error : List Bytes → DeviceError

-- whether the loop over the addresses of a device returns
unfoldable pub has_address : Bytes → Bytes → List Bytes → Bool
unfolding equal
has_address name address [] = false
has_address name address (a ∷ addresses) =
    equal name address || equal a address || has_address name address addresses

-- the loop of `findPcapDevices`
unfoldable pub find_from : Bytes → List Interface → List Interface → List Interface
unfolding has_address is_loopback listen_all_interfaces
find_from address found [] = found
find_from address found (d ∷ devices) =
    elim ((listen_all_interfaces address && ltb 0 (length d.addresses)) || is_loopback d) [
      | true ↦ find_from address (found ++ (d ∷ [])) devices
      | false ↦ elim (has_address d.name address d.addresses) [
        | true ↦ found ++ (d ∷ [])
        | false ↦ find_from address found devices
      ]
    ]

-- `findPcapDevices`; `log.Fatal` of the error of libpcap is `no_devices`
unfoldable pub find_pcap_devices :
    Bytes → Option (List Interface) → Outcome DeviceError (List Interface)
unfolding find_from
find_pcap_devices address none = err no_devices
find_pcap_devices address (some devices) = elim (find_from address [] devices) [
  | [] ↦ err (device_not_found address)
  | d ∷ found ↦ ok (d ∷ found)
]

-- `net.Interface`, with its flags for the loopback and for being up
pub record NetInterface : Type 0 where
  pub name : Bytes
  pub index : ℕ
  pub loopback : Bool
  pub up : Bool
  pub addresses : List Bytes

-- the zero value
abbrev pub no_interface : NetInterface
no_interface = record { name = []; index = 0; loopback = false; up = false; addresses = [] }

-- whether one of the addresses is one of the others
unfoldable pub shares_address : List Bytes → List Bytes → Bool
unfolding is_one_of
shares_address [] others = false
shares_address (a ∷ addresses) others = is_one_of a others || shares_address addresses others

-- the loop over the interfaces of the system for a device of libpcap
unfoldable pub match_interface : Interface → NetInterface → List NetInterface → NetInterface
unfolding shares_address equal
match_interface device ni [] = ni
match_interface device ni (i ∷ ifis) =
    let next = if shares_address i.addresses device.addresses then i else ni in
    let rest = match_interface device next ifis in if equal i.name device.name then i else rest

-- `Interfaces` and `loopIndex` of an `IPListener`
pub record Chosen : Type 0 where
  pub interfaces : List Interface
  pub loop_index : ℕ

-- whether a device is added; `windows` is whether the system is
unfoldable pub is_usable : Bool → Interface → NetInterface → Bool
is_usable windows device ni = windows || (not (length device.addresses == 0) && ni.up)

-- the loop of `setInterfaces`
unfoldable pub set_from : Bytes → Bool → List NetInterface → Chosen → List Interface → Chosen
unfolding match_interface is_usable is_device
set_from host windows ifis c [] = c
set_from host windows ifis c (d ∷ devices) =
    let ni = match_interface d no_interface ifis in
    let looped = if ni.loopback then record c { loop_index = ni.index } else c in
    let next =
      if is_usable windows d ni
      then record looped { interfaces = looped.interfaces ++ (d ∷ []) }
      else looped in
    let rest = set_from host windows ifis next devices in
    if is_device host d then record c { interfaces = d ∷ [] } else rest

-- `setInterfaces`
unfoldable pub set_interfaces :
    Bytes → Bool → List NetInterface → Option (List Interface) → Outcome DeviceError Chosen
unfolding set_from
set_interfaces host windows ifis none = err no_devices
set_interfaces host windows ifis (some devices) =
    ok (set_from host windows ifis (record { interfaces = []; loop_index = 0 }) devices)

-- the snapshot length of `PcapHandle`, by the MTUs of the interfaces of the system by name
unfoldable pub mtu_snap : Bytes → ℕ → List (Bytes × ℕ) → ℕ
unfolding equal
mtu_snap name snap [] = snap
mtu_snap name snap ((n, mtu) ∷ infs) = mtu_snap name (if equal n name then mtu + 200 else snap) infs

unfoldable pub snap_len : Bool → Bytes → List (Bytes × ℕ) → ℕ
unfolding mtu_snap
snap_len override name infs =
    let snap = if override then 0 else mtu_snap name 0 infs in
    if snap == 0 then 64 * 1024 + 200 else snap

-- `interfaceIPs`
unfoldable pub interface_ips : Interface → List Bytes
interface_ips device = device.addresses

-- `l.Handles[name] = handle`, of a map that is kept as a list
unfoldable pub put_handle :
    Bytes → List Bytes → List (Bytes × List Bytes) → List (Bytes × List Bytes)
unfolding equal
put_handle name ips [] = (name, ips) ∷ []
put_handle name ips ((n, old) ∷ handles) =
    let rest = put_handle name ips handles in
    if equal n name then (name, ips) ∷ handles else (n, old) ∷ rest

-- the loop of `activatePcap`; `pcap_handle` is `PcapHandle`, with the text of its error
unfoldable pub activate_from :
    (Interface → Option Bytes)
    → List (Bytes × List Bytes)
    → List Bytes
    → List Interface
    → List (Bytes × List Bytes) × List Bytes
unfolding put_handle interface_ips
activate_from pcap_handle handles texts [] = (handles, texts)
activate_from pcap_handle handles texts (d ∷ devices) = elim (pcap_handle d) [
  | some text ↦ activate_from pcap_handle handles (texts ++ (text ∷ [])) devices
  | none ↦ activate_from pcap_handle (put_handle d.name (interface_ips d) handles) texts devices
]

-- `activatePcap`
unfoldable pub activate_pcap :
    (Interface → Option Bytes)
    → List (Bytes × List Bytes)
    → List Interface
    → Outcome DeviceError (List (Bytes × List Bytes))
unfolding activate_from
activate_pcap pcap_handle handles devices =
    let (opened, texts) = activate_from pcap_handle handles [] devices in
    if length opened == 0 then err (handles_error texts) else ok opened
