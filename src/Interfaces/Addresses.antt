-- ===== src/Interfaces/Addresses.antt =====
-- netiface_cgo.go: what an interface is to be, from the entries of its name.
use tailcat_gui.Prelude.{
  ℕ, ◌/◌, ◌%◌, ◌^◌, ◌==◌, Bool, append-nil, List, [], ◌∷◌, ◌++◌, ◌≡◌, refl, ap, ◌∙◌, Option, none,
  some, if◌then◌else◌, Text, text_eq,
}
use tailcat_gui.Interfaces.{
  IfAddr, Interface, Flags, Sockaddr, inet, inet6, other_family, IpNet, go_addr, ipv4_mask,
  ipv6_mask, with_addr,
}

-- The entries with a name.
abbrev pub entries_of : Text → List IfAddr → List IfAddr
entries_of k [] = []
entries_of k (e ∷ es) =
    let rest = entries_of k es in
    elim e.name [ none ↦ rest | some n ↦ if text_eq n k then e ∷ rest else rest ]

-- A mask of all ones.
abbrev four : List ℕ
four = 255 ∷ 255 ∷ 255 ∷ 255 ∷ []

-- An IPv4 or IPv6 address with the mask of its own family, or else the mask of all ones; no
-- address for another family.
abbrev pub addresses : Option Sockaddr → Option Sockaddr → List IpNet
addresses (some (inet ip)) (some (inet mask)) = record { ip = ip; mask = mask } ∷ []
addresses (some (inet ip)) _ = record { ip = ip; mask = four } ∷ []
addresses (some (inet6 ip)) (some (inet6 mask)) = record { ip = ip; mask = mask } ∷ []
addresses (some (inet6 ip)) _ = record { ip = ip; mask = four ++ (four ++ (four ++ four)) } ∷ []
addresses (some other_family) _ = []
addresses none _ = []

abbrev pub all_addresses : List IfAddr → List IpNet
all_addresses [] = []
all_addresses (e ∷ es) = addresses e.addr e.netmask ++ all_addresses es

abbrev pub is_set : ℕ → ℕ → Bool
is_set f k = (f / 2 ^ k) % 2 == 1

go_addr-addresses :
    (a m : Option Sockaddr) → elim (go_addr a m) [ none ↦ [] | some x ↦ x ∷ [] ] ≡ addresses a m
unfolding go_addr ipv4_mask ipv6_mask
go_addr-addresses (some (inet ip)) (some (inet m)) = refl
go_addr-addresses (some (inet ip)) (some (inet6 m)) = refl
go_addr-addresses (some (inet ip)) (some other_family) = refl
go_addr-addresses (some (inet ip)) none = refl
go_addr-addresses (some (inet6 ip)) (some (inet m)) = refl
go_addr-addresses (some (inet6 ip)) (some (inet6 m)) = refl
go_addr-addresses (some (inet6 ip)) (some other_family) = refl
go_addr-addresses (some (inet6 ip)) none = refl
go_addr-addresses (some other_family) m = refl
go_addr-addresses none m = refl

pub with_addr-addresses :
    (e : IfAddr) (i : Interface)
    → with_addr e i ≡ record i { alt_addrs = i.alt_addrs ++ addresses e.addr e.netmask }
unfolding with_addr
with_addr-addresses e i =
    go (go_addr e.addr e.netmask)
    ∙ ap (λ l. record i { alt_addrs = i.alt_addrs ++ l }) (go_addr-addresses e.addr e.netmask)
  where
    go :
        (o : Option IpNet)
        → elim o [ none ↦ i | some a ↦ record i { alt_addrs = i.alt_addrs ++ (a ∷ []) } ]
          ≡ record i { alt_addrs = i.alt_addrs ++ (elim o [ none ↦ [] | some x ↦ x ∷ [] ]) }
    go none = rw append-nil refl
    go (some a) = refl

module _ (index mtu : Text → ℕ) (bits : Flags ℕ) where
  -- The interface of a name, from its entries: the index and the MTU of the name, the flags of the
  -- first entry, and the addresses of all of them in their order.
  abbrev pub interface_of : Text → List IfAddr → Option Interface
  interface_of k [] = none
  interface_of k (e ∷ es) = some (record {
    index = index k;
    name = k;
    mtu = mtu k;
    flags = record {
      up = is_set e.flags bits.up;
      running = is_set e.flags bits.running;
      broadcast = is_set e.flags bits.broadcast;
      loopback = is_set e.flags bits.loopback;
      point_to_point = is_set e.flags bits.point_to_point;
      multicast = is_set e.flags bits.multicast;
    };
    alt_addrs = all_addresses (e ∷ es);
  })
