-- ===== src/Tokens/Addresses.antt =====
-- engine.go: where `listenAddr` lets the engine listen.
use tailcat_gui.Prelude.{
  ℕ, ◌≤◌, ◌<◌, true, false, [], ◌++◌, ◌≡◌, ◌≢◌, ◌⊎◌, inl, inr, refl, ap, ◌∙◌, arith, none, some,
  Text, codes, text_eq, Option-cases, Bool-cases, ℤ,
}
use tailcat_gui.Prelude.Decimal.{decimal}
use tailcat_gui.Errors.{Result, ok, err, Error, bad_request, code_of}
use tailcat_gui.Share.Names.{trim_space}
use tailcat_gui.Tokens.{atoi, split_host_port, in_port_range, listen_addr}

-- A number that is no port, or no number and no address with a host and a port.
abbrev pub IsUnusable : Text → Type 0
IsUnusable s =
    ((n : ℕ) × (atoi s ≡ some (ℤ.negsuc n)))
    ⊎ ((n : ℕ) × (atoi s ≡ some (ℤ.pos n)) × (65535 < n))
    ⊎ ((atoi s ≡ none) × (split_host_port s ≡ none))

-- What `listenAddr` makes of an input: the default port or a bare port that is in range, on the loopback address; an
-- address that names its host and port, as it stands; or an error with the code `bad_request`.
pub data ListensOn (s : Text) (default_port : ℕ) : Result Text → Type 0 where
  by_default : s ≡ [] → ListensOn s default_port (ok (codes "127.0.0.1:" ++ decimal default_port))
  by_port :
      (n : ℕ)
      → s ≢ []
      → atoi s ≡ some (ℤ.pos n)
      → n ≤ 65535
      → ListensOn s default_port (ok (codes "127.0.0.1:" ++ s))
  by_address :
      (host port : Text)
      → s ≢ []
      → atoi s ≡ none
      → split_host_port s ≡ some (host, port)
      → ListensOn s default_port (ok s)
  refused :
      (e : Error)
      → s ≢ []
      → code_of e ≡ bad_request
      → IsUnusable s
      → ListensOn s default_port (err e)

in_range : (p : ℤ) → in_port_range p ≡ true → (n : ℕ) × (p ≡ ℤ.pos n) × (n ≤ 65535)
in_range (ℤ.pos n) h = (n, refl, ground (arith, h))
in_range (ℤ.negsuc n) h = absurd (ground (arith, h))

out_of_range : (s : Text) (p : ℤ) → atoi s ≡ some p → in_port_range p ≡ false → IsUnusable s
out_of_range s (ℤ.pos n) e h = inr (inl (n, e, ground (arith, h)))
out_of_range s (ℤ.negsuc n) e h = inl (n, e)

-- `listenAddr` takes, less the white space around it: no input, for the default port on 127.0.0.1;
-- a number from 0 to 65535, for that port on 127.0.0.1; and an address that is no number and has a
-- host and a port, as it stands. All else, and only that, it refuses with the code `bad_request`.
pub listen_addr-ListensOn :
    (input : Text) (default_port : ℕ)
    → ListensOn (trim_space input) default_port (listen_addr input default_port)
unfolding listen_addr code_of
listen_addr-ListensOn input default_port =
    let s = trim_space input in
    elim (Bool-cases (text_eq s [])) [
      | inl e ↦ rw e (by_default (ground arith))
      | inr e ↦
          let full : s ≢ [] = λ h. absurd (ground (arith, e, h)) in
          elim (Option-cases (atoi s)) [
            | inl n ↦ elim (Option-cases (split_host_port s)) [
              | inl x ↦ rw (e, n, x, listen_addr) (refused _ full refl (inr (inr (n, x))))
              | inr ((host, port), x) ↦ rw (e, n, x, listen_addr) (by_address host port full n x)
            ]
            | inr (p, n) ↦ elim (Bool-cases (in_port_range p)) [
              | inl r ↦
                  let (m, same, within) = in_range p r in
                  rw (e, n, listen_addr) (rw r (by_port m full (n ∙ ap some same) within))
              | inr r ↦ rw (e, n, listen_addr) (rw r (refused _ full refl (out_of_range s p n r)))
            ]
          ]
    ]
