-- ===== src/Share/Server/Subsystem.antt =====
-- server.go: the name in a subsystem request, and the requests that a session grants.
use tailcat_gui.Prelude.{
  ℕ, ◌+◌, ◌-◌, ◌/◌, ◌%◌, ◌≤◌, ◌<◌, Bool, true, false, ◌||◌, List, [], ◌∷◌, ◌++◌, map, length, take,
  ◌≡◌, refl, ap, ◌∙◌, arith, none, some, Text, codes, text_eq, Text-discrete, length-append,
  Bool-cases, inl, inr, if◌then◌else◌, ltb, All,
}
use tailcat_gui.Share.Server.{
  be32, int64, int32, int_of_uint32, slice_name, subsystem_name, ChannelRequest, served,
  channel_closed, serve_session, with_reply,
}

-- A string in the SSH encoding: its length in four bytes, then its bytes.
unfoldable pub ssh_string : Text → Text
ssh_string s =
    (length s / 16777216) ∷ (length s / 65536 % 256) ∷ (length s / 256 % 256) ∷ (length s % 256) ∷ s

take-append : (s rest : Text) → take (length s) (s ++ rest) ≡ s
take-append [] rest = refl
take-append (c ∷ cs) rest = ap (◌∷◌ c) (take-append cs rest)

be32-length : (n : ℕ) → be32 (n / 16777216) (n / 65536 % 256) (n / 256 % 256) (n % 256) ≡ n
unfolding be32
be32-length n = omega arith

slice_name_inside :
    (n a b c d : ℕ) (rest : Text)
    → n ≤ length rest
    → length rest + 4 < 4294967296
    → slice_name n (a ∷ b ∷ c ∷ d ∷ rest) ≡ some (take n rest)
unfolding slice_name
slice_name_inside n a b c d rest h k =
    let bound : (4 + n) % 4294967296 ≡ 4 + n = omega arith in
    let back : 4 + n - 4 ≡ n = omega arith in
    ground (arith, bound, ap (λ (m : ℕ). take m rest) back)

slice_name_outside :
    (n a b c d : ℕ) (rest : Text)
    → 2147483648 ≤ n
    → n < 4294967296
    → length rest < 2147483640
    → slice_name n (a ∷ b ∷ c ∷ d ∷ rest) ≡ none
unfolding slice_name
slice_name_outside n a b c d rest h k l = ground arith

-- The check of `subsystemName` with 64-bit integers, and with 32-bit integers where the length has
-- its highest bit set.
name_int64 :
    (n a b c d : ℕ) (rest : Text)
    → be32 a b c d ≡ n
    → subsystem_name int64 (a ∷ b ∷ c ∷ d ∷ rest)
      ≡ (if ltb (length rest) n then some [] else slice_name n (a ∷ b ∷ c ∷ d ∷ rest))
unfolding subsystem_name int_of_uint32
name_int64 n a b c d rest h = rw h (ground arith)

name_int32 :
    (n a b c d : ℕ) (rest : Text)
    → be32 a b c d ≡ n
    → 2147483648 ≤ n
    → subsystem_name int32 (a ∷ b ∷ c ∷ d ∷ rest) ≡ slice_name n (a ∷ b ∷ c ∷ d ∷ rest)
unfolding subsystem_name int_of_uint32
name_int32 n a b c d rest h k = rw h (ground arith)

-- On a build with 64-bit integers, the name that a client sends is read back, whatever follows it,
-- from a payload that an SSH packet can hold.
pub subsystem_name-ssh_string :
    (s rest : Text)
    → length (ssh_string s ++ rest) < 4294967296
    → subsystem_name int64 (ssh_string s ++ rest) ≡ some s
unfolding ssh_string
subsystem_name-ssh_string s rest h =
    let n = length s in
    let total = length-append s rest in
    name_int64 n _ _ _ _ (s ++ rest) (be32-length n)
    ∙ ground (
      arith,
      total,
      slice_name_inside n (n / 16777216) (n / 65536 % 256) (n / 256 % 256) (n % 256) (s ++ rest),
      take-append s rest,
    )

-- On a build with 64-bit integers, reading the name never panics on a payload that an SSH packet can hold.
pub subsystem_name-total :
    (payload : Text)
    → length payload < 4294967296
    → (s : Text) × (subsystem_name int64 payload ≡ some s)
unfolding subsystem_name
subsystem_name-total (a ∷ b ∷ c ∷ d ∷ rest) h =
    elim (Bool-cases (ltb (length rest) (be32 a b c d))) [
      | inl long ↦ ([], name_int64 _ a b c d rest refl ∙ rw long)
      | inr fits ↦ (
        take (be32 a b c d) rest,
        name_int64 _ a b c d rest refl
            ∙ rw fits (slice_name_inside (be32 a b c d) a b c d rest (ground arith) (omega arith)),
      )
    ]
subsystem_name-total [] h = ([], refl)
subsystem_name-total (a ∷ []) h = ([], refl)
subsystem_name-total (a ∷ b ∷ []) h = ([], refl)
subsystem_name-total (a ∷ b ∷ c ∷ []) h = ([], refl)

-- On a build with 32-bit integers, a payload whose four length bytes have the highest bit set,
-- with less than 2147483640 bytes behind them, is a panic.
pub subsystem_name-panics :
    (a b c d : ℕ) (rest : Text)
    → 128 ≤ a
    → a < 256
    → b < 256
    → c < 256
    → d < 256
    → length rest < 2147483640
    → subsystem_name int32 (a ∷ b ∷ c ∷ d ∷ rest) ≡ none
unfolding be32
subsystem_name-panics a b c d rest ha ha' hb hc hd h =
    name_int32 _ a b c d rest refl (omega arith)
    ∙ slice_name_outside (be32 a b c d) a b c d rest (omega arith) (omega arith) h

-- The requests that are granted with no effect.
abbrev pub is_harmless : ChannelRequest → Bool
is_harmless r =
    text_eq r.kind (codes "env")
    || text_eq r.kind (codes "pty-req")
    || text_eq r.kind (codes "window-change")

-- A request for the sftp subsystem, and a request for anything else.
abbrev pub AsksSftp : ChannelRequest → Type 0
AsksSftp r = (r.kind ≡ codes "subsystem") × (subsystem_name int64 r.payload ≡ some (codes "sftp"))

pub record AsksOther (r : ChannelRequest) : Type 0 where
  pub other : AsksSftp r → ⊥
  pub sendable : length r.payload < 4294967296

harmless_subsystem : (r : ChannelRequest) → r.kind ≡ codes "subsystem" → is_harmless r ≡ false
unfolding Text-discrete
harmless_subsystem r k = rw k

other_reply :
    (r : ChannelRequest) (rs : List ChannelRequest)
    → AsksOther r
    → serve_session int64 (r ∷ rs) ≡ with_reply (is_harmless r) (serve_session int64 rs)
unfolding serve_session
other_reply r rs o = elim (Text-discrete r.kind (codes "subsystem")) [
  | yes k ↦
      let (name, found) = subsystem_name-total r.payload o.sendable in
      elim (Text-discrete name (codes "sftp")) [
        | yes s ↦ absurd (o.other (k, found ∙ ap some s))
        | no n ↦ ground (arith, found, harmless_subsystem r k)
      ]
  | no k ↦ ground arith
]

-- On a build with 64-bit integers, a session grants the requests that have no effect, refuses all
-- others (a shell, a command, another subsystem), if their payloads fit an SSH packet, and goes
-- on, until the first request for the sftp subsystem. It grants that one, serves SFTP and reads no
-- further request.
pub serve_session-first_sftp :
    (before : List ChannelRequest) (r : ChannelRequest) (after : List ChannelRequest)
    → All AsksOther before
    → AsksSftp r
    → serve_session int64 (before ++ (r ∷ after)) ≡ (map is_harmless before ++ (true ∷ []), served)
unfolding serve_session
serve_session-first_sftp [] r after o (k, s) = ground arith
serve_session-first_sftp (b ∷ before) r after o s =
    other_reply b (before ++ (r ∷ after)) o.0
    ∙ ap (with_reply (is_harmless b)) (serve_session-first_sftp before r after o.1 s)

-- On a build with 64-bit integers, a session without a request for the sftp subsystem, and whose
-- payloads fit an SSH packet, grants the requests that have no effect, refuses all others, and
-- serves nothing until its channel closes.
pub serve_session-no_sftp :
    (rs : List ChannelRequest)
    → All AsksOther rs
    → serve_session int64 rs ≡ (map is_harmless rs, channel_closed)
unfolding serve_session
serve_session-no_sftp [] o = refl
serve_session-no_sftp (r ∷ rs) o =
    other_reply r rs o.0 ∙ ap (with_reply (is_harmless r)) (serve_session-no_sftp rs o.1)
