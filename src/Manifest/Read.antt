-- ===== src/Manifest/Read.antt =====
-- manifest.go: a manifest that is written and read back.
use tailcat_gui.Prelude.{
  ℕ, ◌<◌, ◌≤◌, zero, suc, true, List, [], ◌∷◌, ◌++◌, ◌≡◌, ◌≢◌, refl, ap, ◌∙◌, arith, Text, take,
  length, length-append, All, Text-discrete,
}
use tailcat_gui.Errors.{ok}
use tailcat_gui.Tokens.{Outcome, good}
use tailcat_gui.Manifest.{
  Manifest, manifest_app, manifest_line, read_bytes, read_limit, read_manifest, as_sent,
}

take-all : {A : Type 0} (n : ℕ) (xs : List A) → length xs ≤ n → take n xs ≡ xs
take-all zero [] h = refl
take-all zero (x ∷ xs) h = absurd (omega arith)
take-all (suc n) [] h = refl
take-all (suc n) (x ∷ xs) h = ap (◌∷◌ x) (take-all n xs (omega arith))

-- A line is read up to its end, whatever follows.
read_bytes-line :
    (s rest : Text) → All (λ c. c ≢ 10) s → read_bytes (s ++ (10 ∷ rest)) ≡ (s ++ (10 ∷ []), true)
unfolding read_bytes
read_bytes-line [] rest h = refl
read_bytes-line (c ∷ cs) rest (h, hs) = ground (arith, read_bytes-line cs rest hs)

read_manifest-line :
    (unmarshal : Text → Outcome Manifest) (stream end line : Text) (m : Manifest)
    → read_bytes (take read_limit stream) ≡ (line, true)
    → unmarshal line ≡ good m
    → m.app ≡ manifest_app
    → read_manifest unmarshal stream end ≡ ok m
unfolding read_manifest Text-discrete
read_manifest-line unmarshal stream end line m r d h = rw (r, d, h) refl

module _ (marshal : Manifest → Text) (unmarshal : Text → Outcome Manifest) where
  -- What the encoding relies on: one line, which decodes to the manifest less the paths, and which
  -- the reader's limit lets through.
  pub record IsEncoded (m : Manifest) : Type 0 where
    pub one_line : All (λ c. c ≢ 10) (marshal m)
    pub fits : length (marshal m) < read_limit
    pub decodes : unmarshal (manifest_line marshal m) ≡ good (as_sent m)

  short :
      (m : Manifest)
      → length (marshal m) < read_limit
      → length (manifest_line marshal m) ≤ read_limit
  unfolding manifest_line
  short m h = omega (arith, h, length-append (marshal m) (10 ∷ []))

  whole :
      (m : Manifest)
      → All (λ c. c ≢ 10) (marshal m)
      → read_bytes (manifest_line marshal m) ≡ (manifest_line marshal m, true)
  unfolding manifest_line
  whole m h = read_bytes-line (marshal m) [] h

  -- A manifest of this program whose encoding is one line of less than 1 MiB that decodes to it is
  -- read back from what `manifestHandler` writes, less the local paths of its items.
  pub read_manifest-manifest_line :
      (m : Manifest) (end : Text)
      → m.app ≡ manifest_app
      → IsEncoded m
      → read_manifest unmarshal (manifest_line marshal m) end ≡ ok (as_sent m)
  read_manifest-manifest_line m end h k =
      read_manifest-line unmarshal (manifest_line marshal m) end (manifest_line marshal m)
        (as_sent m)
        (ap read_bytes (take-all read_limit (manifest_line marshal m) (short m k.fits))
          ∙ whole m k.one_line)
        k.decodes h
