-- ===== src/Tests/Shares.antt =====
-- Runs of core/engine/fileshare.
use tailcat_gui.Share.Server.{slice_name}
use tailcat_gui.Share.Server.{int_of_uint32}
use tailcat_gui.Share.Server.{be32}
use tailcat_gui.Share.Names.{trim_prefix}
use tailcat_gui.Share.Names.{elements}
use tailcat_gui.Share.Names.{clean_loop}
use tailcat_gui.Share.Handlers.{change}
use tailcat_gui.Prelude.{
  ℕ, suc, true, false, List, [], ◌∷◌, ◌++◌, ◌≡◌, ◌⊎◌, refl, arith, none, some, Text, codes, ℤ,
  Text-discrete, text_eq, length,
}
use tailcat_gui.Prelude.Decimal.{decimal}
use tailcat_gui.Prelude.Dict.{Dict, lookup}
use tailcat_gui.Share.Mode.{read_only, read_write, write_only}
use tailcat_gui.Share.Backend.{Backend, Try, OsError}
use tailcat_gui.Share.Names.{clean, dot, trim_space, ext, trim_suffix}
use tailcat_gui.Share.Request.{rel, IsName, rel-stays_inside}
use tailcat_gui.Share.Names.{join}
use tailcat_gui.Prelude.{All}
use tailcat_gui.Share.Handlers.{
  Request, CountingFile, Reply, permission_denied, open_file, file_write, file_cmd,
}
use tailcat_gui.Share.Access.{
  Writers, Readers, SameWriters, SameReaders, IsDropBox, read_only-writes_nothing,
  write_only-reads_nothing,
}
use tailcat_gui.Share.Unique.{unique_name, unique_loop, candidate}
use tailcat_gui.Share.Counting.{
  CountOp, counts, reports, Progress, count_run, count_run-Counts, Rising,
}
use tailcat_gui.Prelude.{Perm, map}
use tailcat_gui.Share.Server.{ChannelRequest, int64, int32, subsystem_name}
use tailcat_gui.Share.Server.Subsystem.{
  ssh_string, subsystem_name-ssh_string, subsystem_name-total, subsystem_name-panics, AsksSftp,
  AsksOther,
}

-- A request path that climbs, and one that ends in a space.
climbing : rel (codes "/../a//./b/../../../etc") ≡ codes "etc"
unfolding rel clean trim_space Text-discrete trim_prefix join clean_loop elements
climbing = refl

rel-stays_inside_example :
    (rel (codes "../x") ≡ dot) ⊎ ((es : List Text) × All IsName es × (rel (codes "../x") ≡ join es))
rel-stays_inside_example = rel-stays_inside (codes "../x")

-- A disk that counts the calls that write to it.
abbrev disk : Backend
disk = record {
  State = ℕ;
  File = Text;
  Info = Text;
  name = λ i. i;
  size = λ i. length i;
  is_dir = λ i. text_eq i dot;
  open_file = λ p f s. (Try.ok p, suc s);
  open_read = λ p s. (Try.ok p, s);
  stat = λ p s. (Try.ok p, s);
  lstat = λ p s. (Try.ok p, s);
  read_dir = λ p s. (Try.ok (p ∷ []), s);
  readlink = λ p s. (Try.ok p, s);
  mkdir = λ p s. (Try.ok tt, suc s);
  remove = λ p s. (Try.ok tt, suc s);
  rename = λ p q s. (Try.ok tt, suc s);
  symlink = λ p q s. (Try.ok tt, suc s);
  link = λ p q s. (Try.ok tt, suc s);
  chmod = λ p m s. (Try.ok tt, suc s);
  chtimes = λ p a m s. (Try.ok tt, suc s);
  file_stat = λ f s. (Try.ok f, s);
  file_truncate = λ f n s. suc s;
  file_close = λ f s. s;
}

abbrev denied {ℓ} : {A : Type ℓ} → ℕ → Try A × ℕ
denied s = (Try.err OsError.permission, s)

abbrev other_writers : Writers disk
other_writers = record {
  open_file = λ p f s. denied s;
  mkdir = λ p s. denied s;
  remove = λ p s. denied s;
  rename = λ p q s. denied s;
  symlink = λ p q s. denied s;
  link = λ p q s. denied s;
  chmod = λ p m s. denied s;
  chtimes = λ p a m s. denied s;
  file_truncate = λ f n s. s;
}

abbrev other_readers : Readers disk
other_readers = record {
  open_read = λ p s. denied s;
  read_dir = λ p s. denied s;
  readlink = λ p s. denied s;
  remove = λ p s. denied s;
  rename = λ p q s. denied s;
  symlink = λ p q s. denied s;
  link = λ p q s. denied s;
  file_truncate = λ f n s. s;
}

abbrev removal : Request
removal = record {
  method = codes "Remove";
  filepath = codes "/a";
  target = [];
  pflags = record { read = true; creat = true; trunc = false; excl = true; append = false };
  attributes = none;
}

read_only-writes_nothing_example :
    SameWriters disk other_writers read_only removal 0
    × (file_write disk read_only removal 0 ≡ (Reply.err permission_denied, 0))
    × (open_file disk read_only removal 0 ≡ (Reply.err permission_denied, 0))
    × (file_cmd disk read_only removal 0 ≡ (Reply.err permission_denied, 0))
read_only-writes_nothing_example = read_only-writes_nothing disk other_writers removal 0

write_only-reads_nothing_example :
    SameReaders disk other_readers write_only removal 0 × IsDropBox disk removal 0
write_only-reads_nothing_example = write_only-reads_nothing disk other_readers removal 0

-- The same removal changes a share that may be written to.
removes : file_cmd disk read_write removal 0 ≡ (Reply.ok tt, 1)
unfolding file_cmd rel clean trim_space Text-discrete change
removes = refl

-- Two names that clash, and a third.
abbrev taken : Dict ℕ
taken = (codes "a.txt", 1) ∷ (codes "a (2).txt", 2) ∷ []

third : unique_name taken (codes "a.txt") ≡ some (codes "a (3).txt")
unfolding unique_name unique_loop candidate decimal lookup Text-discrete ext trim_suffix
third = refl

abbrev half_sent : CountingFile Text
half_sent = record {
  file = codes "f";
  path = codes "/f";
  total = ℤ.pos 10;
  upload = true;
  bytes = 4;
}

-- Two readers: the second one reports first.
abbrev two_readers : List CountOp
two_readers = counts 8 ∷ counts 12 ∷ reports 1 ∷ reports 0 ∷ []

count_run-Counts_example :
    let t = count_run two_readers (record { counted = half_sent; waiting = []; reported = [] }) in
    (t.counted.bytes ≡ 10)
    × ((ps : List Progress) × Perm (t.reported ++ t.waiting) ps
        × (map (λ p. p.bytes) ps ≡ 8 ∷ 10 ∷ [])
        × Rising half_sent.total half_sent.bytes ps)
count_run-Counts_example = count_run-Counts two_readers half_sent refl

subsystem_name-ssh_string_example :
    subsystem_name int64 (ssh_string (codes "sftp") ++ (0 ∷ [])) ≡ some (codes "sftp")
subsystem_name-ssh_string_example =
    subsystem_name-ssh_string (codes "sftp") (0 ∷ []) (unfold ssh_string in omega arith)

subsystem_name-total_example : (s : Text) × (subsystem_name int64 (255 ∷ 0 ∷ 0 ∷ 0 ∷ []) ≡ some s)
subsystem_name-total_example = subsystem_name-total (255 ∷ 0 ∷ 0 ∷ 0 ∷ []) (omega arith)

abbrev sftp_request : ChannelRequest
sftp_request = record { kind = codes "subsystem"; payload = 0 ∷ 0 ∷ 0 ∷ 4 ∷ codes "sftp" }

abbrev shell_request : ChannelRequest
shell_request = record { kind = codes "shell"; payload = [] }

shell_AsksOther : AsksOther shell_request
unfolding Text-discrete
shell_AsksOther = record { other = λ (k, _). absurd (ground arith); sendable = omega arith }

asks_sftp : AsksSftp sftp_request
unfolding subsystem_name int_of_uint32 be32 slice_name
asks_sftp = (refl, refl)

subsystem_name-panics_example : subsystem_name int32 (255 ∷ 0 ∷ 0 ∷ 4 ∷ codes "sftp") ≡ none
subsystem_name-panics_example =
    subsystem_name-panics 255 0 0 4 (codes "sftp") (omega arith) (omega arith) (omega arith)
      (omega arith) (omega arith) (omega arith)
