-- ===== src/Tests/Machines.antt =====
-- Runs of core/engine/netiface_cgo.go.
use tailcat_gui.Prelude.{
  ℕ, true, false, List, [], ◌∷◌, ◌≡◌, refl, none, some, is_some, if◌then◌else◌, Text, text_eq,
  codes, Text-discrete,
}
use tailcat_gui.Prelude.Dict.{lookup, insert}
use tailcat_gui.Tokens.{good}
use tailcat_gui.Interfaces.{
  IfAddr, Interface, Flags, inet, other_family, getifaddrs_interfaces, group, go_flags,
}
use tailcat_gui.Interfaces.Ordered.{Distinct, names, member}
use tailcat_gui.Interfaces.Addresses.{interface_of, entries_of}
use tailcat_gui.Interfaces.Grouped.{Gathered, found, getifaddrs_interfaces-Gathered}

-- The bits of Linux.
abbrev linux : Flags ℕ
linux = record {
  up = 0;
  running = 6;
  broadcast = 1;
  loopback = 3;
  point_to_point = 4;
  multicast = 12;
}

abbrev index_of : Text → ℕ
index_of n = if text_eq n (codes "lo") then 1 else 2

abbrev mtu_of : Text → ℕ
mtu_of _ = 1500

-- The loopback interface with two addresses, apart from each other, and a card whose own entry has no IP address.
abbrev libc_entries : List IfAddr
libc_entries =
    record {
      name = some (codes "lo");
      flags = 73;
      addr = some (inet (127 ∷ 0 ∷ 0 ∷ 1 ∷ []));
      netmask = some (inet (255 ∷ 0 ∷ 0 ∷ 0 ∷ []));
    }
    ∷ record { name = some (codes "wlan0"); flags = 4163; addr = some other_family; netmask = none }
    ∷ record { name = none; flags = 0; addr = none; netmask = none }
    ∷ record {
      name = some (codes "lo");
      flags = 73;
      addr = some (inet (127 ∷ 0 ∷ 0 ∷ 2 ∷ []));
      netmask = none;
    }
    ∷ []

loopback_flags : go_flags linux 73 ≡ record {
  up = true;
  running = true;
  broadcast = false;
  loopback = true;
  point_to_point = false;
  multicast = false;
}
unfolding go_flags
loopback_flags = refl

in_order_of_entries :
    (group index_of mtu_of linux libc_entries [] []).1 ≡ codes "lo" ∷ codes "wlan0" ∷ []
unfolding group lookup insert Text-discrete
in_order_of_entries = refl

getifaddrs_interfaces-Gathered_example :
    (out : List Interface) × (getifaddrs_interfaces index_of mtu_of linux (good libc_entries)
      ≡ some (found index_of mtu_of linux out))
    × Gathered index_of mtu_of linux libc_entries out
    × Distinct (names out)
    × ((k : Text)
        → member k (names out)
          ≡ is_some (interface_of index_of mtu_of linux k (entries_of k libc_entries)))
getifaddrs_interfaces-Gathered_example =
    getifaddrs_interfaces-Gathered index_of mtu_of linux libc_entries
