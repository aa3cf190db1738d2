-- ===== src/Interfaces/Grouped.antt =====
-- netiface_cgo.go: the entries of one interface, put together.
use tailcat_gui.Prelude.{
  ℕ, true, append-nil, append_assoc, List, [], ◌∷◌, ◌++◌, ◌≡◌, refl, sym, ap, ◌∙◌, subst, arith,
  Option, none, some, is_some, if◌then◌else◌, Text, codes, text_eq, Option-cases, Bool-cases, inl,
  inr, All,
}
use tailcat_gui.Prelude.Dict.{Dict, lookup, insert, lookup-insert}
use tailcat_gui.Interfaces.Ordered.{
  text_eq-same, member, Distinct, names, IsOrdered, new-IsOrdered, known-IsOrdered,
}
use tailcat_gui.Tokens.{Outcome, good, bad}
use tailcat_gui.Interfaces.{
  IfAddr, Interface, Flags, go_flags, with_addr, new_interface, group, collect,
  getifaddrs_interfaces,
}
use tailcat_gui.Interfaces.Addresses.{
  entries_of, all_addresses, addresses, with_addr-addresses, interface_of,
}

with_addr-name : (e : IfAddr) (i : Interface) → (with_addr e i).name ≡ i.name
unfolding with_addr
with_addr-name e i = ground arith

module _ (index mtu : Text → ℕ) (bits : Flags ℕ) where
  -- The loop, as it goes for one name.
  abbrev gather : Text → Option Interface → List IfAddr → Option Interface
  gather k cur [] = cur
  gather k cur (e ∷ es) = elim e.name [
    | none ↦ gather k cur es
    | some n ↦
        if text_eq n k
        then gather k
            (some (
              with_addr e
                (elim cur [ none ↦ new_interface index mtu bits n e.flags | some i ↦ i ])))
            es
        else gather k cur es
  ]

  gather_on :
      (k : Text) (i : Interface) (es : List IfAddr)
      → gather k (some i) es
        ≡ some (record i { alt_addrs = i.alt_addrs ++ all_addresses (entries_of k es) })
  gather_on k i [] = rw append-nil refl
  gather_on k i (e ∷ es) = elim (Option-cases e.name) [
    | inl h ↦ rw h (gather_on k i es)
    | inr (n, h) ↦ elim (Bool-cases (text_eq n k)) [
      | inr f ↦ rw (h, f) (gather_on k i es)
      | inl t ↦
          rw (h, t)
            (gather_on k (with_addr e i) es ∙ rw (with_addr-addresses e i, append_assoc) refl)
    ]
  ]

  new_interface_lem :
      (k : Text) (e : IfAddr) (es : List IfAddr)
      → some (record (new_interface index mtu bits k e.flags) {
        alt_addrs =
            ((new_interface index mtu bits k e.flags).alt_addrs ++ addresses e.addr e.netmask)
            ++ all_addresses es;
      })
        ≡ interface_of index mtu bits k (e ∷ es)
  unfolding new_interface go_flags
  new_interface_lem k e es = refl

  gather-interface_of :
      (k : Text) (es : List IfAddr)
      → gather k none es ≡ interface_of index mtu bits k (entries_of k es)
  gather-interface_of k [] = refl
  gather-interface_of k (e ∷ es) = elim (Option-cases e.name) [
    | inl h ↦ rw h (gather-interface_of k es)
    | inr (n, h) ↦ elim (Bool-cases (text_eq n k)) [
      | inr f ↦ rw (h, f) (gather-interface_of k es)
      | inl t ↦
          let same = text_eq-same n k t in
          rw (h, t)
            (ap (λ m. gather k (some (with_addr e (new_interface index mtu bits m e.flags))) es)
                same
              ∙ gather_on k (with_addr e (new_interface index mtu bits k e.flags)) es
              ∙ ap
                  (λ (j : Interface).
                    some (record j { alt_addrs = j.alt_addrs ++ all_addresses (entries_of k es) }))
                  (with_addr-addresses e (new_interface index mtu bits k e.flags))
              ∙ new_interface_lem k e (entries_of k es))
    ]
  ]

  -- One entry `e` with the name `n`, where the map holds `cur` under it.
  gather_put :
      (k n : Text) (cur : Option Interface) (e : IfAddr) (es : List IfAddr) (m : Dict Interface)
      → e.name ≡ some n
      → lookup n m ≡ cur
      → gather k
          (lookup k (
            insert n
              (with_addr e
                (elim cur [ none ↦ new_interface index mtu bits n e.flags | some i ↦ i ]))
              m))
          es
        ≡ gather k (lookup k m) (e ∷ es)
  unfolding with_addr
  gather_put k n cur e es m h l = elim (Bool-cases (text_eq n k)) [
    | inr f ↦ ap (λ x. gather k x es) (lookup-insert n k _ m) ∙ rw (h, f) refl
    | inl t ↦
        ap (λ x. gather k x es) (lookup-insert n k _ m)
        ∙ rw (h, t, ap (λ x. lookup x m) (sym (text_eq-same n k t)) ∙ l) refl
  ]

  group_new :
      (e : IfAddr) (es : List IfAddr) (m : Dict Interface) (order : List Text) (n : Text)
      → e.name ≡ some n
      → lookup n m ≡ none
      → group index mtu bits (e ∷ es) m order
        ≡ group index mtu bits es
            (insert n (with_addr e (new_interface index mtu bits n e.flags)) m)
            (order ++ (n ∷ []))
  unfolding group with_addr
  group_new e es m order n h l = rw (h, l, group) refl

  group_known :
      (e : IfAddr) (es : List IfAddr) (m : Dict Interface) (order : List Text) (n : Text)
      (i : Interface)
      → e.name ≡ some n
      → lookup n m ≡ some i
      → group index mtu bits (e ∷ es) m order
        ≡ group index mtu bits es (insert n (with_addr e i) m) order
  unfolding group with_addr
  group_known e es m order n i h l = rw (h, l, group) refl

  group-gather :
      (es : List IfAddr) (m : Dict Interface) (order : List Text) (k : Text)
      → lookup k (group index mtu bits es m order).0 ≡ gather k (lookup k m) es
  unfolding group
  group-gather [] m order k = refl
  group-gather (e ∷ es) m order k = elim (Option-cases e.name) [
    | inl h ↦ rw (h, group) (group-gather es m order k)
    | inr (n, h) ↦ elim (Option-cases (lookup n m)) [
      | inl l ↦
          let m' = insert n (with_addr e (new_interface index mtu bits n e.flags)) m in
          ap (λ r. lookup k r.0) (group_new e es m order n h l)
          ∙ group-gather es m' (order ++ (n ∷ [])) k
          ∙ gather_put k n none e es m h l
      | inr (i, l) ↦
          ap (λ r. lookup k r.0) (group_known e es m order n i h l)
          ∙ group-gather es (insert n (with_addr e i) m) order k
          ∙ gather_put k n (some i) e es m h l
    ]
  ]

  group-entries :
      (es : List IfAddr) (k : Text)
      → lookup k (group index mtu bits es [] []).0 ≡ interface_of index mtu bits k (entries_of k es)
  unfolding lookup
  group-entries es k = group-gather es [] [] k ∙ gather-interface_of k es

  group-IsOrdered :
      (es : List IfAddr) (m : Dict Interface) (order : List Text)
      → IsOrdered m order
      → IsOrdered (group index mtu bits es m order).0 (group index mtu bits es m order).1
  unfolding group
  group-IsOrdered [] m order k = k
  group-IsOrdered (e ∷ es) m order k = elim (Option-cases e.name) [
    | inl h ↦ rw (h, group) (group-IsOrdered es m order k)
    | inr (n, h) ↦ elim (Option-cases (lookup n m)) [
      | inl l ↦
          let fresh = new_interface index mtu bits n e.flags in
          rw (h, group)
            (rw (l, group)
              (group-IsOrdered es
                (insert n (with_addr e (new_interface index mtu bits n e.flags)) m)
                (order ++ (n ∷ []))
                (new-IsOrdered n (with_addr e fresh) m order
                  (with_addr-name e fresh ∙ (unfold new_interface in refl)) l k)))
      | inr (i, l) ↦
          rw (h, group)
            (rw (l, group)
              (group-IsOrdered es (insert n (with_addr e i) m) order (
                known-IsOrdered n (with_addr e i) i m order (with_addr-name e i ∙ k.keyed n i l) l
                  k)))
    ]
  ]

  -- Interfaces, each under its own name, as its entries give them.
  abbrev pub Gathered : List IfAddr → List Interface → Type 0
  Gathered es out =
      All (λ (i : Interface). interface_of index mtu bits i.name (entries_of i.name es) ≡ some i)
        out

  collect-Gathered :
      (es : List IfAddr) (m : Dict Interface) (order : List Text)
      → ((k : Text) → lookup k m ≡ interface_of index mtu bits k (entries_of k es))
      → ((k : Text) (i : Interface) → lookup k m ≡ some i → i.name ≡ k)
      → ((k : Text) → member k order ≡ true → is_some (lookup k m) ≡ true)
      → (out : List Interface) × (collect m order ≡ some out)
        × Gathered es out
        × (names out ≡ order)
  unfolding collect
  collect-Gathered es m [] g f s = ([], refl, tt, refl)
  collect-Gathered es m (n ∷ ns) g f s = elim (Option-cases (lookup n m)) [
    | inl l ↦ absurd (ground (arith, s n, l))
    | inr (i, l) ↦
        let (out, c, all, same) = collect-Gathered es m ns g f (λ k h. s k (ground (arith, h))) in
        let own : interface_of index mtu bits i.name (entries_of i.name es) ≡ some i =
          sym (g i.name) ∙ ap (λ x. lookup x m) (f n i l) ∙ l in
        (i ∷ out, rw (l, collect) (rw c refl), (own, all), rw (f n i l, same) refl)
  ]

  abbrev pub found : List Interface → Outcome (List Interface)
  found [] = bad (codes "getifaddrs returned no interfaces")
  found (i ∷ is) = good (i ∷ is)

  answer :
      (es : List IfAddr) (out : List Interface)
      → collect (group index mtu bits es [] []).0 (group index mtu bits es [] []).1 ≡ some out
      → getifaddrs_interfaces index mtu bits (good es) ≡ some (found out)
  unfolding getifaddrs_interfaces
  answer es [] h = rw (h, getifaddrs_interfaces) refl
  answer es (i ∷ is) h = rw (h, getifaddrs_interfaces) refl

  -- Whatever entries libc lists, `getifaddrsInterfaces` does not panic. It returns one interface
  -- for each name among them, with the index and the MTU of the name, the flags of its first entry
  -- bit by bit, and the IPv4 and IPv6 addresses of all of its entries in their order, each with
  -- its mask; or an error if no entry has a name.
  pub getifaddrs_interfaces-Gathered :
      (es : List IfAddr)
      → (out : List Interface) × (getifaddrs_interfaces index mtu bits (good es) ≡ some (found out))
        × Gathered es out
        × Distinct (names out)
        × ((k : Text)
            → member k (names out) ≡ is_some (interface_of index mtu bits k (entries_of k es)))
  unfolding getifaddrs_interfaces lookup
  getifaddrs_interfaces-Gathered es =
      let r = group index mtu bits es [] [] in
      let k = group-IsOrdered es [] [] (record {
        distinct = tt;
        listed = λ _. refl;
        keyed = λ _ i e. absurd (ground (arith, e));
      }) in
      let (out, c, all, same) =
        collect-Gathered es r.0 r.1 (group-entries es) k.keyed (λ x h. sym (k.listed x) ∙ h) in
      (
        out,
        answer es out c,
        all,
        subst Distinct (sym same) k.distinct,
        λ x. ap (member x) same ∙ k.listed x ∙ ap is_some (group-entries es x),
      )
