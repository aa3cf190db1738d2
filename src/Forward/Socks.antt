-- ===== src/Forward/Socks.antt =====
-- socks.go: where the proxy dials.
use tailcat_gui.Prelude.{
  ℕ, ◌≤◌, true, false, [], ◌≡◌, ◌⊎◌, refl, arith, Option, none, some, Text, inl, inr, Bool-cases,
  Option-cases, ℤ,
}
use tailcat_gui.Errors.{Error, Result, ok, err, plain, bad_request, code_of}
use tailcat_gui.Tokens.{Outcome, good, bad, split_host_port, atoi, in_port_range}
use tailcat_gui.Forward.{Dial, server_port, address, named, one_of, own_hosts, socks_dial}

-- A port as a decimal number from 0 to 65535.
abbrev pub HasPort : Text → ℕ → Type 0
HasPort s n = (atoi s ≡ some (ℤ.pos n)) × (n ≤ 65535)

-- The rules for a destination `addr`.
pub data Dials {Addr : Type 0} (parse_addr : Text → Option Addr) (ready : Outcome (Unit {0}))
    (addr : Text) : Result (Dial Addr) → Type 0 where
  to_server :
      (host port : Text) (n : ℕ)
      → ready ≡ good tt
      → split_host_port addr ≡ some (host, port)
      → HasPort port n
      → one_of host own_hosts ≡ true
      → Dials parse_addr ready addr (ok (server_port n))
  to_address :
      (host port : Text) (ip : Addr) (n : ℕ)
      → ready ≡ good tt
      → split_host_port addr ≡ some (host, port)
      → HasPort port n
      → one_of host own_hosts ≡ false
      → parse_addr host ≡ some ip
      → Dials parse_addr ready addr (ok (address ip n))
  to_name :
      (host port : Text) (n : ℕ)
      → ready ≡ good tt
      → split_host_port addr ≡ some (host, port)
      → HasPort port n
      → one_of host own_hosts ≡ false
      → parse_addr host ≡ none
      → Dials parse_addr ready addr (ok (named addr))
  not_ready : (e : Text) → ready ≡ bad e → Dials parse_addr ready addr (err (plain e []))
  no_host_port : (e : Error) → split_host_port addr ≡ none → Dials parse_addr ready addr (err e)
  no_port :
      (host port : Text) (e : Error)
      → split_host_port addr ≡ some (host, port)
      → ((n : ℕ) → HasPort port n → ⊥)
      → code_of e ≡ bad_request
      → Dials parse_addr ready addr (err e)

port_range_cases :
    (p : ℤ)
    → ((n : ℕ) × (p ≡ ℤ.pos n) × (n ≤ 65535) × (in_port_range p ≡ true))
      ⊎ (((n : ℕ) → p ≡ ℤ.pos n → n ≤ 65535 → ⊥) × (in_port_range p ≡ false))
port_range_cases (ℤ.pos n) = elim (Bool-cases (in_port_range (ℤ.pos n))) [
  | inl h ↦ inl (n, refl, ground arith, h)
  | inr h ↦ inr (λ m e le. absurd (ground arith), h)
]
port_range_cases (ℤ.negsuc n) = inr (λ m e le. absurd (ground arith), ground arith)

-- Before the tunnel is up the proxy dials nothing. Then it reads a destination as a host and a
-- port. The server's own names are a port of the server itself; any other IP address, or else the
-- name as it stands, is reached behind the server. The port that is dialled is the number that was
-- asked for, and a port that is no number from 0 to 65535 is refused with the code `bad_request`.
pub socks_dial-Dials :
    {Addr : Type 0} (parse_addr : Text → Option Addr) (split_error : Text → Text)
    (ready : Outcome (Unit {0})) (addr : Text)
    → Dials parse_addr ready addr (socks_dial parse_addr split_error ready addr)
unfolding socks_dial code_of
socks_dial-Dials parse_addr split_error (bad e) addr = not_ready e refl
socks_dial-Dials parse_addr split_error (good tt) addr =
    elim (Option-cases (split_host_port addr)) [
      | inl s ↦ rw (s, socks_dial) (no_host_port _ s)
      | inr ((host, port), s) ↦ elim (Option-cases (atoi port)) [
        | inl n ↦
            rw (s, n, socks_dial) (no_port host port _ s (λ k (h, _). absurd (ground arith)) refl)
        | inr (p, n) ↦ elim (port_range_cases p) [
          | inr (never, r) ↦
              rw (s, n, socks_dial)
                (rw r (no_port host port _ s (λ k (h, le). never k (ground arith) le) refl))
          | inl (k, is, le, r) ↦ elim (Bool-cases (one_of host own_hosts)) [
            | inl own ↦
                rw (s, n, socks_dial)
                  (rw (r, own) (rw is (to_server host port k refl s (ground arith, le) own)))
            | inr own ↦ elim (Option-cases (parse_addr host)) [
              | inr (ip, a) ↦
                  rw (s, n, socks_dial)
                    (rw (r, own, a)
                      (rw is (to_address host port ip k refl s (ground arith, le) own a)))
              | inl a ↦
                  rw (s, n, socks_dial)
                    (rw (r, own, a) (to_name host port k refl s (ground arith, le) own a))
            ]
          ]
        ]
      ]
    ]
