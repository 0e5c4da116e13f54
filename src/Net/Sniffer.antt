-- ===== src/Net/Sniffer.antt =====
-- net/Sniffer.cpp and net/SnifferLoop.cpp. What libpcap answers is an argument.
pub mod Accounting
use ntmd.Base.{
  ℕ, Bool, true, false, not, Option, none, some, List, [], ◌∷◌, Text, if◌then◌else◌, ◌==◌, nat_eq,
  list_eq,
}
use ntmd.Base.Outcome.{Outcome, ok, exits, ◌>>=◌}
use ntmd.Config.Configuration.{Config}
use ntmd.Net.IpList
use ntmd.Net.IpList.{IpList, Interface}
use ntmd.Net.Packet.{Packet, PcapHeader, parse}
use ntmd.Proc.FileSystem.{FileSystem}
use ntmd.Proc.ProcessResolver
use ntmd.Proc.ProcessResolver.{ProcessResolver, resolve}
use ntmd.Traffic.TrafficStorage
use ntmd.Traffic.TrafficStorage.{TrafficStorage}

-- `traffic_storage` is the object that `mTrafficStorage` refers to.
pub record Sniffer : Type 0 where
  pub ip_list : IpList
  pub process_resolver : ProcessResolver
  pub traffic_storage : TrafficStorage

-- What the calls of libpcap and `getifaddrs` answer to the constructor.
pub record Devices : Type 0 where
  -- the names that `pcap_findalldevs` lists, if it succeeds
  pub found : Option (List Text)
  -- whether `pcap_create` succeeds for a name
  pub creates : Text → Bool
  -- whether `pcap_activate` returns 0
  pub activates : Bool
  pub interfaces : Option (List Interface)

-- the loop of `findDevice`
unfoldable pub device_named : Text → List Text → Option Text
device_named device [] = none
device_named device (name ∷ names) =
    let rest = device_named device names in if name == device then some name else rest

abbrev first_device : List Text → Option Text
first_device [] = none
first_device (name ∷ _) = some name

abbrev chosen : Text → List Text → Option Text
chosen [] names = first_device names
chosen (c ∷ device) names = device_named (c ∷ device) names

unfoldable pub find_device : Devices → Text → Outcome Text
unfolding device_named
find_device d device = elim d.found [
  | none ↦ exits 1
  | some names ↦ elim (chosen device names) [ none ↦ exits 1 | some name ↦ ok name ]
]

-- the rest of the constructor, behind `findDevice`
unfoldable pub open_device : Devices → Text → ProcessResolver → TrafficStorage → Outcome Sniffer
open_device d device resolver storage =
    if not (d.creates device)
    then exits 1
    else if not d.activates
    then exits 1
    else IpList.init device d.interfaces IpList.fresh >>= λ l.
        ok (record { ip_list = l; process_resolver = resolver; traffic_storage = storage })

-- the constructor
unfoldable pub init : FileSystem → Devices → Config → TrafficStorage → Outcome Sniffer
unfolding find_device open_device
init fs d cfg storage = do
  resolver ← ProcessResolver.init fs cfg.process_cache_size
  device ← find_device d cfg.interface
  open_device d device resolver storage

-- the callback for a packet that is kept
unfoldable pub account : FileSystem → Packet → Sniffer → Outcome Sniffer
account fs pkt s = do
  (resolver, process) ← resolve fs pkt s.process_resolver
  storage ← TrafficStorage.add process pkt s.traffic_storage
  ok (record s { process_resolver = resolver; traffic_storage = storage })

-- `SnifferLoop::pktCallback`
unfoldable pub pkt_callback : FileSystem → PcapHeader → List ℕ → Sniffer → Outcome Sniffer
unfolding account
pkt_callback fs hdr raw s = do
  pkt ← parse hdr raw s.ip_list
  if pkt.discard then ok s else account fs pkt s
