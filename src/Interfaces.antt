-- ===== src/Interfaces.antt =====
-- core/engine/netiface_cgo.go: the network interfaces of a machine, from what libc's `getifaddrs`
-- lists. `index` and `mtu` stand for `if_nametoindex` and `tc_if_mtu`, and the bits of the `IFF_*`
-- constants are a parameter, since the platforms differ in them.
pub mod Ordered
pub mod Addresses
pub mod Grouped
use tailcat_gui.Prelude.{
  ℕ, zero, suc, ◌+◌, ◌/◌, ◌%◌, ◌^◌, ◌==◌, Bool, true, false, List, [], ◌∷◌, ◌++◌, Option, none,
  some, if◌then◌else◌, Text, codes,
}
use tailcat_gui.Prelude.Dict.{Dict, lookup, insert}
use tailcat_gui.Tokens.{Outcome, good, bad}

-- A `sockaddr` by its family, with the bytes of its address.
pub data Sockaddr : Type 0 where
  inet inet6 : List ℕ → Sockaddr
  other_family : Sockaddr

pub record IpNet : Type 0 where
  pub ip : List ℕ
  pub mask : List ℕ

abbrev ones : ℕ → List ℕ
ones zero = []
ones (suc n) = 255 ∷ ones n

-- `ipv4Mask` and `ipv6Mask`
unfoldable pub ipv4_mask : Option Sockaddr → List ℕ
ipv4_mask (some (inet bytes)) = bytes
ipv4_mask (some (inet6 _)) = ones 4
ipv4_mask (some other_family) = ones 4
ipv4_mask none = ones 4

unfoldable pub ipv6_mask : Option Sockaddr → List ℕ
ipv6_mask (some (inet6 bytes)) = bytes
ipv6_mask (some (inet _)) = ones 16
ipv6_mask (some other_family) = ones 16
ipv6_mask none = ones 16

-- `goAddr`
unfoldable pub go_addr : Option Sockaddr → Option Sockaddr → Option IpNet
go_addr (some (inet ip)) mask = some (record { ip = ip; mask = ipv4_mask mask })
go_addr (some (inet6 ip)) mask = some (record { ip = ip; mask = ipv6_mask mask })
go_addr (some other_family) mask = none
go_addr none mask = none

-- `net.Flags`, bit by bit, and which bits of `ifa_flags` they come from.
pub record Flags (A : Type 0) : Type 0 where
  pub up : A
  pub running : A
  pub broadcast : A
  pub loopback : A
  pub point_to_point : A
  pub multicast : A

abbrev has_bit : ℕ → ℕ → Bool
has_bit f k = (f / 2 ^ k) % 2 == 1

-- `goFlags`
unfoldable pub go_flags : Flags ℕ → ℕ → Flags Bool
go_flags bits f = record {
  up = has_bit f bits.up;
  running = has_bit f bits.running;
  broadcast = has_bit f bits.broadcast;
  loopback = has_bit f bits.loopback;
  point_to_point = has_bit f bits.point_to_point;
  multicast = has_bit f bits.multicast;
}

-- An entry of `getifaddrs`.
pub record IfAddr : Type 0 where
  pub name : Option Text
  pub flags : ℕ
  pub addr : Option Sockaddr
  pub netmask : Option Sockaddr

pub record Interface : Type 0 where
  pub index : ℕ
  pub name : Text
  pub mtu : ℕ
  pub flags : Flags Bool
  pub alt_addrs : List IpNet

unfoldable pub with_addr : IfAddr → Interface → Interface
with_addr e i = elim (go_addr e.addr e.netmask) [
  | none ↦ i
  | some a ↦ record i { alt_addrs = i.alt_addrs ++ (a ∷ []) }
]

-- `*byName[name]` for each name; `none` is a panic.
unfoldable pub collect : Dict Interface → List Text → Option (List Interface)
collect m [] = some []
collect m (n ∷ ns) =
    let rest = collect m ns in
    elim (lookup n m) [ none ↦ none | some i ↦ elim rest [ none ↦ none | some is ↦ some (i ∷ is) ] ]

module _ (index mtu : Text → ℕ) (bits : Flags ℕ) where
  unfoldable pub new_interface : Text → ℕ → Interface
  new_interface n flags = record {
    index = index n;
    name = n;
    mtu = mtu n;
    flags = go_flags bits flags;
    alt_addrs = [];
  }

  -- The loop over the entries: `byName` and `order`.
  unfoldable pub group : List IfAddr → Dict Interface → List Text → Dict Interface × List Text
  group [] m order = (m, order)
  group (e ∷ es) m order = elim e.name [
    | none ↦ group es m order
    | some n ↦ elim (lookup n m) [
      | none ↦ group es (insert n (with_addr e (new_interface n e.flags)) m) (order ++ (n ∷ []))
      | some i ↦ group es (insert n (with_addr e i) m) order
    ]
  ]

  -- `getifaddrsInterfaces`; `none` is a panic.
  unfoldable pub getifaddrs_interfaces : Outcome (List IfAddr) → Option (Outcome (List Interface))
  getifaddrs_interfaces (bad e) = some (bad e)
  getifaddrs_interfaces (good es) =
      let (m, order) = group es [] [] in
      elim (collect m order) [
        | none ↦ none
        | some [] ↦ some (bad (codes "getifaddrs returned no interfaces"))
        | some (i ∷ is) ↦ some (good (i ∷ is))
      ]
