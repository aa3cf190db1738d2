-- ===== src/Tokens.antt =====
-- core/engine/engine.go: what users type: tokens and listen addresses, and the path that a ping reports.
-- `lookup_txt` stands for the resolver's `LookupTXT` and `parse_conn_blob` for tailcat's `ParseConnBlob`.
pub mod Addresses
pub mod Accepted
pub mod Info
use tailcat_gui.Prelude.{
  ℕ, ◌+◌, ◌*◌, ◌^◌, zero, suc, Bool, true, false, not, ◌&&◌, ◌||◌, List, [], ◌∷◌, ◌++◌, Option,
  none, some, is_some, if◌then◌else◌, Text, codes, text_eq, leb, ltb, ◌==◌, ℤ, ltb_ℤ, reverse,
}
use tailcat_gui.Prelude.Decimal.{decimal, value_from}
use tailcat_gui.Errors.{Result, ok, err, Error, coded, invalid_token, bad_request, ◌>>=◌}
use tailcat_gui.Events.{Value, text, int}
use tailcat_gui.Share.Names.{trim_space, trim_prefix, cut_prefix, has_byte}

-- An outcome of a call outside the core, with its error as a text.
pub data Outcome {ℓ} (A : Type ℓ) : Type ℓ where
  good : A → Outcome A
  bad : Text → Outcome A

-- The loop over the TXT records: the first one with the prefix gives the token.
unfoldable pub txt_token : Text → List Text → Text
txt_token tok [] = tok
txt_token tok (t ∷ ts) = elim (cut_prefix (codes "tailcat=") t) [
  | some v ↦ trim_space v
  | none ↦ txt_token tok ts
]

module _ {ConnInfo : Type 0} (lookup_txt : Text → Outcome (List Text))
    (parse_conn_blob : Text → Outcome ConnInfo) where
  -- The last part of `normalizeToken`.
  unfoldable pub check_token : Text → Result Text
  check_token tok = elim (parse_conn_blob tok) [
    | bad e ↦ err (coded invalid_token (codes "invalid token: %v") (text e ∷ []))
    | good _ ↦ ok tok
  ]

  -- The middle part: what looks like a host name is looked up.
  unfoldable pub resolve_token : Text → Result Text
  resolve_token tok =
      if has_byte b'.' tok && not (is_some (cut_prefix (codes "tc") tok))
      then (elim (lookup_txt tok) [
        | bad e ↦ err (coded invalid_token (codes "lookup TXT %q: %v") (text tok ∷ text e ∷ []))
        | good txts ↦ ok (txt_token tok txts)
      ])
      else ok tok

  -- `normalizeToken`
  unfoldable pub normalize_token : Text → Result Text
  normalize_token input =
      let tok = trim_prefix (codes "tailcat=") (trim_space input) in
      if text_eq tok []
      then err (coded invalid_token (codes "empty token") [])
      else resolve_token tok >>= check_token

  -- `parseToken`: the token and what it says of the server.
  unfoldable pub parse_token : Text → Result (Text × ConnInfo)
  parse_token input = normalize_token input >>= λ cb. elim (parse_conn_blob cb) [
    | bad e ↦ err (coded invalid_token (codes "invalid token: %v") (text e ∷ []))
    | good ci ↦ ok (cb, ci)
  ]

-- The last two branches of `classifyPing`, on the region's number.
unfoldable pub region_of : ℤ → Text × Text
region_of (ℤ.pos zero) = (codes "derp", codes "DERP")
region_of (ℤ.pos (suc n)) = (codes "derp", codes "DERP(" ++ (decimal (suc n) ++ codes ")"))
region_of (ℤ.negsuc n) = (codes "derp", codes "DERP(" ++ ((b'-' ∷ decimal (suc n)) ++ codes ")"))

-- `classifyPing`
unfoldable pub classify_ping : Text → Text → ℤ → Text × Text
classify_ping endpoint region_code region_id =
    if not (text_eq endpoint [])
    then (codes "direct", endpoint)
    else if not (text_eq region_code [])
    then (codes "derp", codes "DERP(" ++ (region_code ++ codes ")"))
    else region_of region_id

-- ASCII digits, at least one.
all_digits : Text → Bool
all_digits [] = true
all_digits (c ∷ cs) = leb 48 c && leb c 57 && all_digits cs

abbrev digits_value : Text → Option ℕ
digits_value [] = none
digits_value (c ∷ cs) = if all_digits (c ∷ cs) then some (value_from 0 (c ∷ cs)) else none

abbrev negate : ℕ → ℤ
negate zero = ℤ.pos 0
negate (suc n) = ℤ.negsuc n

-- `strconv.Atoi` with 64-bit integers; `none` is its error.
unfoldable pub atoi : Text → Option ℤ
unfolding all_digits
atoi [] = none
atoi (c ∷ cs) =
    if c == b'-'
    then (elim (digits_value cs) [
      | none ↦ none
      | some n ↦ if leb n (2 ^ 63) then some (negate n) else none
    ])
    else (elim (digits_value (if c == b'+' then cs else c ∷ cs)) [
      | none ↦ none
      | some n ↦ if ltb n (2 ^ 63) then some (ℤ.pos n) else none
    ])

-- What stands before the first `b` and behind it.
unfoldable pub cut_byte : ℕ → Text → Option (Text × Text)
cut_byte b [] = none
cut_byte b (c ∷ cs) =
    let rest = cut_byte b cs in
    if c == b then some ([], cs) else (elim rest [ none ↦ none | some (x, y) ↦ some (c ∷ x, y) ])

-- What stands before the last `b` and behind it.
unfoldable pub cut_last : ℕ → Text → Option (Text × Text)
unfolding cut_byte
cut_last b s = elim (cut_byte b (reverse s)) [
  | none ↦ none
  | some (x, y) ↦ some (reverse y, reverse x)
]

-- The branch of `net.SplitHostPort` for an address that begins with a bracket.
unfoldable pub split_bracketed : Text → Text → Option (Text × Text)
split_bracketed s port = elim (cut_byte b']' s) [
  | none ↦ none
  | some (before, behind) ↦
      if text_eq behind (b':' ∷ port)
        && not (has_byte b'[' (trim_prefix (b'[' ∷ []) before))
        && not (has_byte b'[' behind)
        && not (has_byte b']' behind)
      then some (trim_prefix (b'[' ∷ []) before, port)
      else none
]

-- `net.SplitHostPort`; `none` is its error.
unfoldable pub split_host_port : Text → Option (Text × Text)
split_host_port s = elim (cut_last b':' s) [
  | none ↦ none
  | some (host, port) ↦
      if is_some (cut_prefix (b'[' ∷ []) s)
      then split_bracketed s port
      else if has_byte b':' host || has_byte b'[' s || has_byte b']' s
      then none
      else some (host, port)
]

abbrev pub loopback : Text
loopback = codes "127.0.0.1:"

abbrev pub in_port_range : ℤ → Bool
in_port_range p = not (ltb_ℤ p (ℤ.pos 0) || ltb_ℤ (ℤ.pos 65535) p)

-- `listenAddr`
unfoldable pub listen_addr : Text → ℕ → Result Text
listen_addr input default_port =
    let s = trim_space input in
    if text_eq s [] then ok (loopback ++ decimal default_port) else (elim (atoi s) [
      | some p ↦
          if in_port_range p
          then ok (loopback ++ s)
          else err (coded bad_request (codes "port out of range: %d") (int p ∷ []))
      | none ↦ elim (split_host_port s) [
        | none ↦ err (coded bad_request (codes "bad listen address %q: %v") (text s ∷ []))
        | some _ ↦ ok s
      ]
    ])
