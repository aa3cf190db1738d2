-- ===== src/Tests/Inputs.antt =====
-- Runs of what core/engine/engine.go makes of the user's inputs.
use tailcat_gui.Prelude.{
  ℕ, false, List, [], ◌∷◌, ◌≡◌, refl, Text, codes, ℤ, Text-discrete, none, some,
}
use tailcat_gui.Prelude.Decimal.{value_from, decimal}
use tailcat_gui.Errors.{ok, err, coded, bad_request}
use tailcat_gui.Events.{int}
use tailcat_gui.Share.Names.{trim_space, trim_right, cut_prefix, trim_prefix, has_byte}
use tailcat_gui.Tokens.{
  cut_last, split_bracketed, Outcome, good, bad, normalize_token, listen_addr, atoi,
  split_host_port, classify_ping, region_of, txt_token, check_token, resolve_token,
}
use tailcat_gui.Tokens.Addresses.{ListensOn, listen_addr-ListensOn}

-- A resolver that knows one record of every host, and a library that reads each token that begins with `tc`.
some_host : Text → Outcome (List Text)
some_host _ = good (codes "v=spf1" ∷ codes "tailcat= tcabc " ∷ [])

no_host : Text → Outcome (List Text)
no_host _ = bad (codes "no such host")

reads_tc : Text → Outcome ℕ
unfolding cut_prefix
reads_tc tok = elim (cut_prefix (codes "tc") tok) [
  | some _ ↦ good 1
  | none ↦ bad (codes "bad prefix")
]

from_host : normalize_token some_host reads_tc (codes " home.example\n") ≡ ok (codes "tcabc")
unfolding normalize_token resolve_token txt_token check_token reads_tc some_host trim_space
    Text-discrete trim_prefix
from_host = refl

from_prefix : normalize_token no_host reads_tc (codes "tailcat=tc1.2") ≡ ok (codes "tc1.2")
unfolding normalize_token resolve_token check_token reads_tc trim_space Text-discrete trim_prefix
from_prefix = refl

port_only : listen_addr (codes " 1080") 0 ≡ ok (codes "127.0.0.1:1080")
unfolding listen_addr atoi trim_space Text-discrete value_from
port_only = refl

port_too_large :
    listen_addr (codes "65536") 0
    ≡ err (coded bad_request (codes "port out of range: %d") (int (ℤ.pos 65536) ∷ []))
unfolding listen_addr atoi trim_space Text-discrete value_from
port_too_large = refl

bracketed : split_host_port (codes "[::1]:22") ≡ some (codes "::1", codes "22")
unfolding split_host_port Text-discrete cut_last cut_prefix split_bracketed trim_prefix
bracketed = refl

by_region : classify_ping [] [] (ℤ.pos 12) ≡ (codes "derp", codes "DERP(12)")
unfolding classify_ping region_of Text-discrete decimal
by_region = refl

no_dot : has_byte b'.' (trim_prefix (codes "tailcat=") (trim_space (codes "tcabc"))) ≡ false
unfolding trim_space trim_right Text-discrete trim_prefix cut_prefix
no_dot = refl

listen_addr-ListensOn_example :
    ListensOn (trim_space (codes ":1080")) 0 (listen_addr (codes ":1080") 0)
listen_addr-ListensOn_example = listen_addr-ListensOn (codes ":1080") 0
