-- ===== src/Trace/Reading.antt =====
-- What is known of an artifact that is read (packages/trace/src/index.ts).
use agent_loop_snapshot.Prelude.{
  ℕ, ◌≤◌, String, ◌≡◌, refl, Bool, true, false, not, Option, none, some, List, [], ◌∷◌, ◌==◌, ltb,
  if◌then◌else◌, arith, eq_iff, length, any, All, if_elim, get_text,
}
use mathlib.Core.Path.{subst}
use agent_loop_snapshot.Trace.Lines.{Inspected, trusted, is_missing, is_untrusted}
use agent_loop_snapshot.Trace.Artifacts.{
  FoundReference, References, ArtifactMetadata, Read, bytes, refused, is_digest, is_natural,
  is_there, too_long, actual_length, found_at, too_large, untrusted, unavailable, check_bytes,
  read_artifact,
}

-- The bytes have the digest, keep to the limit, and are as many as every reference declares; the
-- artifact was found when the snapshot was loaded, and its file is trusted now.
pub record IsTrusted (sha256 : List ℕ → String) (max_bytes : ℕ)
    (artifacts : List (String × ArtifactMetadata)) (references : References) (file : Inspected)
    (digest : String) (b : List ℕ) : Type 0 where
  pub digest_form : is_digest digest ≡ true
  pub digest_of : sha256 b ≡ digest
  pub within : length b ≤ max_bytes
  pub declared :
      All
        (λ (f : FoundReference). is_natural f.reference.byte_length (length b) ≡ true)
        (found_at digest references)
  pub loaded : is_there (get_text digest artifacts) ≡ true
  pub size : ℕ
  pub is_trusted : file ≡ trusted size
  pub size_within : size ≤ max_bytes

none_wrong :
    (n : ℕ) (fs : List FoundReference)
    → any (λ (f : FoundReference). not (is_natural f.reference.byte_length n)) fs ≡ false
    → All (λ (f : FoundReference). is_natural f.reference.byte_length n ≡ true) fs
none_wrong n [] h = tt
none_wrong n (f ∷ fs) h = (ground (arith, h), none_wrong n fs (ground (arith, h)))

holds_by_not : (b : Bool) → not b ≡ false → b ≡ true
holds_by_not true h = refl
holds_by_not false h = cc

within_limit : (n m : ℕ) → ltb m n ≡ false → n ≤ m
within_limit n m h = ground (arith, h)

module _ (sha256 : List ℕ → String) (max_bytes : ℕ) (artifacts : List (String × ArtifactMetadata))
    (references : References) (digest : String) (b : List ℕ) where
  abbrev Claim : Inspected → Read → Type 0
  Claim file r = r ≡ bytes b → IsTrusted sha256 max_bytes artifacts references file digest b

  checked :
      (size : ℕ) (c : List ℕ)
      → is_digest digest ≡ true
      → is_there (get_text digest artifacts) ≡ true
      → ltb max_bytes size ≡ false
      → Claim (trusted size) (check_bytes sha256 max_bytes (found_at digest references) digest c)
  checked size c form there small =
      if_elim (Claim (trusted size)) (ltb max_bytes (length c)) (λ _ h. cc)
        (λ within.
          if_elim (Claim (trusted size))
            (any (λ (f : FoundReference). not (is_natural f.reference.byte_length (length c)))
              (found_at digest references))
            (λ _ h. cc)
            (λ right.
              if_elim (Claim (trusted size)) (not (sha256 c == digest)) (λ _ h. cc)
                (λ same h.
                  let e : c ≡ b = cc h in
                  subst (IsTrusted sha256 max_bytes artifacts references (trusted size) digest) e
                    (record {
                      digest_form = form;
                      digest_of =
                          (eq_iff (sha256 c) digest).0 (holds_by_not (sha256 c == digest) same);
                      within = within_limit (length c) max_bytes within;
                      declared = none_wrong (length c) (found_at digest references) right;
                      loaded = there;
                      size = size;
                      is_trusted = refl;
                      size_within = within_limit size max_bytes small;
                    }))))

  -- Where `readArtifact` gives bytes, they have the digest that was asked for, keep to the limit and
  -- are as many as every reference to the digest declares; the artifact was there when the snapshot
  -- was loaded, and its file is a trusted one within the limit.
  pub read_artifact-IsTrusted :
      (file : Inspected) (content : Option (List ℕ))
      → read_artifact sha256 max_bytes artifacts references file content digest ≡ bytes b
      → IsTrusted sha256 max_bytes artifacts references file digest b
  unfolding read_artifact
  read_artifact-IsTrusted file content =
      if_elim (Claim file) (not (is_digest digest)) (λ _ h. cc)
        (λ form.
          if_elim (Claim file) (not (is_there (get_text digest artifacts))) (λ _ h. cc)
            (λ there.
              if_elim (Claim file) (too_long max_bytes (actual_length (get_text digest artifacts)))
                (λ _ h. cc)
                (λ _.
                  inspected file content (holds_by_not (is_digest digest) form)
                    (holds_by_not (is_there (get_text digest artifacts)) there))))
    where
      inspected :
          (file : Inspected) (content : Option (List ℕ))
          → is_digest digest ≡ true
          → is_there (get_text digest artifacts) ≡ true
          → Claim file (elim file [
            | is_missing ↦ refused untrusted
            | is_untrusted ↦ refused untrusted
            | trusted size ↦ if ltb max_bytes size then refused too_large else elim content [
              | none ↦ refused unavailable
              | some c ↦ check_bytes sha256 max_bytes (found_at digest references) digest c
            ]
          ])
      inspected is_missing content form there = λ h. cc
      inspected is_untrusted content form there = λ h. cc
      inspected (trusted size) none form there =
          if_elim (Claim (trusted size)) (ltb max_bytes size) (λ _ h. cc) (λ _ h. cc)
      inspected (trusted size) (some c) form there =
          if_elim (Claim (trusted size)) (ltb max_bytes size) (λ _ h. cc)
            (checked size c form there)
