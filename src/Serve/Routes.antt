-- ===== src/Serve/Routes.antt =====
-- server.go: the ports that a server announces are those that it answers.
use tailcat_gui.Prelude.{
  ℕ, Bool, true, false, ◌&&◌, ◌||◌, List, [], ◌∷◌, ◌++◌, ◌≡◌, inl, inr, refl, sym, ap, ◌∙◌, arith,
  is_some, if◌then◌else◌, ◌==◌, ℤ, Bool-cases,
}
use tailcat_gui.Serve.{
  StartServerArgs, uint16, in_port_set, has_service, on_tcp, insert_port, sort_ports, same_port,
  compact, to_ranges, offered, served_ports, manifest_port, sftp_port,
}

abbrev pub member : ℕ → List ℕ → Bool
member port [] = false
member port (p ∷ ps) = p == port || member port ps

module _ (port : ℕ) where
  member-to_ranges : (ps : List ℤ) → member port (to_ranges ps) ≡ in_port_set port ps
  unfolding in_port_set
  member-to_ranges [] = refl
  member-to_ranges (p ∷ ps) = ap (◌||◌ (uint16 p == port)) (member-to_ranges ps)

  in_port_set-insert_port :
      (p : ℤ) (qs : List ℤ) → in_port_set port (insert_port p qs) ≡ in_port_set port (p ∷ qs)
  unfolding in_port_set insert_port
  in_port_set-insert_port p [] = refl
  in_port_set-insert_port p (q ∷ qs) = ground (arith, in_port_set-insert_port p qs)

  in_port_set-sort_ports : (ps : List ℤ) → in_port_set port (sort_ports ps) ≡ in_port_set port ps
  unfolding in_port_set sort_ports
  in_port_set-sort_ports [] = refl
  in_port_set-sort_ports (p ∷ ps) =
      in_port_set-insert_port p (sort_ports ps)
      ∙ ap (◌||◌ (uint16 p == port)) (in_port_set-sort_ports ps)

  same_port-uint16 : (p q : ℤ) → same_port p q ≡ true → uint16 p ≡ uint16 q
  same_port-uint16 (ℤ.pos m) (ℤ.pos n) h = let e : m ≡ n = ground arith in rw e refl
  same_port-uint16 (ℤ.pos m) (ℤ.negsuc n) h = absurd (ground arith)
  same_port-uint16 (ℤ.negsuc m) (ℤ.pos n) h = absurd (ground arith)
  same_port-uint16 (ℤ.negsuc m) (ℤ.negsuc n) h = let e : m ≡ n = ground arith in rw e refl

  in_port_set-compact : (ps : List ℤ) → in_port_set port (compact ps) ≡ in_port_set port ps
  unfolding in_port_set compact
  in_port_set-compact [] = refl
  in_port_set-compact (p ∷ []) = refl
  in_port_set-compact (p ∷ q ∷ qs) = elim (Bool-cases (same_port p q)) [
    | inl h ↦ ground (arith, h, same_port-uint16 p q h, in_port_set-compact (q ∷ qs))
    | inr h ↦ ground (arith, h, in_port_set-compact (q ∷ qs))
  ]

  in_port_set-append :
      (ps qs : List ℤ) → in_port_set port (ps ++ qs) ≡ in_port_set port ps || in_port_set port qs
  unfolding in_port_set
  in_port_set-append [] qs = refl
  in_port_set-append (p ∷ ps) qs = ground (arith, in_port_set-append ps qs)

  in_port_set-offered :
      (a : StartServerArgs)
      → in_port_set port (offered a)
        ≡ in_port_set port a.ports || port == manifest_port || (port == sftp_port && has_service a)
  unfolding in_port_set
  in_port_set-offered a =
      in_port_set-append (a.ports ++ (ℤ.pos manifest_port ∷ []))
        (if has_service a then ℤ.pos sftp_port ∷ [] else [])
      ∙ rw (in_port_set-append a.ports (ℤ.pos manifest_port ∷ [])) (ground arith)

  on_tcp-is_some :
      (a : StartServerArgs)
      → is_some (on_tcp a port)
        ≡ a.all
          || in_port_set port a.ports
          || port == manifest_port
          || (port == sftp_port && has_service a)
  unfolding on_tcp
  on_tcp-is_some a = ground arith

  -- A server answers exactly the ports that it announces: `OnTCP` has a handler for a port if all
  -- ports are exposed or the port is among `ServedTCPPorts`, and has none otherwise.
  pub on_tcp-served_ports :
      (a : StartServerArgs) → is_some (on_tcp a port) ≡ a.all || member port (served_ports a)
  unfolding served_ports
  on_tcp-served_ports a = elim (Bool-cases a.all) [
    | inl h ↦ on_tcp-is_some a ∙ rw h refl
    | inr h ↦
        on_tcp-is_some a
        ∙ rw h (
            sym (
              member-to_ranges _
              ∙ in_port_set-compact _
              ∙ in_port_set-sort_ports (offered a)
              ∙ in_port_set-offered a))
  ]
