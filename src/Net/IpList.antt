-- ===== src/Net/IpList.antt =====
-- net/IPList.cpp: the local addresses of the monitored device, in a fixed array of 64.
pub mod Laws
use ntmd.Base.{
  ℕ, zero, suc, ◌+◌, ◌-◌, Bool, true, false, not, Option, none, some, List, [], ◌∷◌, ◌++◌, Text,
  if◌then◌else◌, ◌==◌, nat_eq, list_eq, eqb, leb, ltb, set, replicate,
}
use ntmd.Base.Outcome.{Outcome, ok, exits, undefined, ◌>>=◌}

-- `uint32_t mIPs[64]` and `mSize`
pub record IpList : Type 0 where
  pub ips : List ℕ
  pub size : ℕ

-- the two default member initializers
abbrev pub fresh : IpList
fresh = record { ips = replicate 64 0; size = 0 }

-- An entry of the list that `getifaddrs` returns: its name, the family of its address, and what
-- stands where a `sockaddr_in` has `s_addr` (in memory order), if it has an address. For an AF_INET6
-- address this is the flow information, for an AF_PACKET address the index of the interface.
pub record Interface : Type 0 where
  pub name : Text
  pub sa_family : ℕ
  pub s_addr : Option ℕ

-- the body of the first loop of `init`
unfoldable pub note_interface : Text → Interface → List ℕ → List ℕ
note_interface device interface tmp = elim interface.s_addr [
  | none ↦ tmp
  | some addr ↦
      if not (interface.name == device)
      then tmp
      else if leb 43200 addr
      then addr ∷ tmp
      else tmp ++ addr ∷ []
]

unfoldable pub collect : Text → List Interface → List ℕ → List ℕ
unfolding note_interface
collect device [] tmp = tmp
collect device (interface ∷ rest) tmp = collect device rest (note_interface device interface tmp)

-- the second loop of `init`; a write behind the array is undefined
unfoldable pub store : ℕ → List ℕ → IpList → Outcome IpList
store i [] l = ok l
store i (addr ∷ rest) l =
    let stored = store (suc i) rest (record l { ips = set l.ips i addr; size = l.size + 1 }) in
    if ltb i 64 then stored else undefined

-- `none` for the interfaces: `getifaddrs` failed
unfoldable pub init : Text → Option (List Interface) → IpList → Outcome IpList
unfolding collect store
init device none l = exits 1
init device (some interfaces) l = store 0 (collect device interfaces []) l

-- `mIPs[i]`, for an index inside the array
abbrev entry : List ℕ → ℕ → ℕ
entry [] i = 0
entry (x ∷ xs) zero = x
entry (x ∷ xs) (suc i) = entry xs i

-- the loop of `contains`, over the rounds that are left
unfoldable pub contains_from : ℕ → ℕ → List ℕ → ℕ → Bool
contains_from zero i ips ip = false
contains_from (suc rounds) i ips ip =
    let rest = contains_from rounds (suc i) ips ip in if eqb (entry ips i) ip then true else rest

unfoldable pub contains : IpList → ℕ → Bool
unfolding contains_from
contains l ip = if eqb (entry l.ips 0) ip then true else contains_from (l.size - 1) 1 l.ips ip
