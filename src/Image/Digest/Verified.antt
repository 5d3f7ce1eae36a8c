-- ===== src/Image/Digest/Verified.antt =====
-- The digests and the metadata blobs of source/src/image.rs that are accepted.
use rules_oci_runtime.Prelude.{
  ℕ, ◌+◌, ◌≤◌, ◌≡◌, ◌≢◌, ◌↔◌, all_iff, All, ◌⊎◌, inl, inr, refl, sym, ap, ◌∙◌, Bool, true, false,
  not, ◌&&◌, ◌||◌, Option, none, some, [], ◌∷◌, ◌++◌, Bytes, ◌==◌, ==_iff, ◌=b◌, eq_of_=b, ltb,
  if◌then◌else◌, length, length-take, take, take_all, codes, Result, ok, err, ◌>>=◌, ◌>>◌,
  >>=-eq-ok, ok-injective, arith,
}
use mathlib.Core.Path.{subst}
use rules_oci_runtime.Errors.{
  Error, layout, unsupported_media_type, malformed_digest, size_mismatch, digest_mismatch,
}
use rules_oci_runtime.Spec.Env.{split_once}
use rules_oci_runtime.Spec.Env.Definition.{Joined, split_once-Joined}
use rules_oci_runtime.Fsutil.{slash}
use rules_oci_runtime.Image.Digest.{
  Descriptor, ParsedDigest, max_metadata_blob_bytes, algorithm_ok, is_ascii_hexdigit, hex_ok,
  parse_split, parse_digest, hex_encode, check_hex, verify_digest, limit_of, verify, checked,
  read_metadata_blob,
}

-- A digit of a hexadecimal number, in either case.
abbrev pub IsHexDigit : ℕ → Type 0
IsHexDigit c = ((48 ≤ c) × (c ≤ 57)) ⊎ (((97 ≤ c) × (c ≤ 102)) ⊎ ((65 ≤ c) × (c ≤ 70)))

-- One hexadecimal digit or more, none of them a separator of paths.
pub record IsHex (hex : Bytes) : Type 0 where
  pub given : hex ≢ []
  pub digits : All IsHexDigit hex
  pub in_one_name : All (λ c. (c ≢ slash) × (c ≢ b'.')) hex

is_ascii_hexdigit_iff : (c : ℕ) → (is_ascii_hexdigit c ≡ true) ↔ IsHexDigit c
unfolding is_ascii_hexdigit
is_ascii_hexdigit_iff c = (λ h. ground arith, λ h. ground arith)

hex_ok_iff : (hex : Bytes) → (hex_ok hex ≡ true) ↔ IsHex hex
unfolding hex_ok
hex_ok_iff [] = (λ h. cc, λ h. absurd (h.given refl))
hex_ok_iff (x ∷ xs) = (
  λ h.
      let digits = (all_iff is_ascii_hexdigit is_ascii_hexdigit_iff (x ∷ xs)).0 h in
      record { given = λ e. cc; digits = digits; in_one_name = apart (x ∷ xs) digits },
  λ h. (all_iff is_ascii_hexdigit is_ascii_hexdigit_iff (x ∷ xs)).1 h.digits,
)
  where
    apart : (ys : Bytes) → All IsHexDigit ys → All (λ c. (c ≢ slash) × (c ≢ b'.')) ys
    apart [] a = tt
    apart (y ∷ ys) a = ((λ e. ground (arith, a.0), λ e. ground (arith, a.0)), apart ys a.1)

parse_digest_sha256 :
    (hex : Bytes)
    → hex_ok hex ≡ true
    → parse_digest (codes "sha256:" ++ hex) ≡ ok (record { algorithm = codes "sha256"; hex = hex })
unfolding parse_digest split_once algorithm_ok ◌=b◌
parse_digest_sha256 hex h = rw h refl

parse_digest-hex_ok :
    (digest : Bytes) (parsed : ParsedDigest)
    → (parse_digest digest ≡ ok parsed) ↔ (
        (digest ≡ codes "sha256:" ++ parsed.hex)
        × (parsed.algorithm ≡ codes "sha256")
        × (hex_ok parsed.hex ≡ true))
unfolding parse_digest
parse_digest-hex_ok digest parsed = (
  forward (split_once b':' digest) (split_once-Joined b':' digest),
  λ (d, a, x).
      ap parse_digest d
      ∙ parse_digest_sha256 parsed.hex x
      ∙ ap (λ a. ok (record { algorithm = a; hex = parsed.hex })) (sym a),
)
  where
    accepted :
        (algorithm hex : Bytes) (a x q : Bool)
        → digest ≡ algorithm ++ (b':' ∷ hex)
        → hex_ok hex ≡ x
        → (algorithm =b codes "sha256") ≡ q
        → (if not a || not x
            then err (malformed_digest digest)
            else if q
            then ok (record { algorithm = algorithm; hex = hex })
            else err (unsupported_media_type (codes "digest algorithm " ++ algorithm)))
          ≡ ok parsed
        → (digest ≡ codes "sha256:" ++ parsed.hex)
          × (parsed.algorithm ≡ codes "sha256")
          × (hex_ok parsed.hex ≡ true)
    accepted algorithm hex false x q j e f h = cc
    accepted algorithm hex true false q j e f h = cc
    accepted algorithm hex true true false j e f h = cc
    accepted algorithm hex true true true j e f h =
        subst
          (λ p.
            (digest ≡ codes "sha256:" ++ p.hex)
            × (p.algorithm ≡ codes "sha256")
            × (hex_ok p.hex ≡ true))
          (ok-injective _ parsed h)
          (
            j ∙ ap (λ a. a ++ (b':' ∷ hex)) (eq_of_=b algorithm (codes "sha256") f),
            eq_of_=b algorithm (codes "sha256") f,
            e,
          )

    forward :
        (o : Option (Bytes × Bytes))
        → Joined b':' digest o
        → parse_split digest o ≡ ok parsed
        → (digest ≡ codes "sha256:" ++ parsed.hex)
          × (parsed.algorithm ≡ codes "sha256")
          × (hex_ok parsed.hex ≡ true)
    forward none j h = cc
    forward (some (algorithm, hex)) j h =
        accepted algorithm hex (algorithm_ok algorithm) _ _ j.0 refl refl h

-- A digest is accepted exactly when it is `sha256:` and hexadecimal digits, at least one, and the
-- digits, which name the file, hold neither `/` nor `.`.
pub parse_digest_iff :
    (digest : Bytes) (parsed : ParsedDigest)
    → (parse_digest digest ≡ ok parsed) ↔ (
        (digest ≡ codes "sha256:" ++ parsed.hex)
        × (parsed.algorithm ≡ codes "sha256")
        × IsHex parsed.hex)
parse_digest_iff digest parsed = (
  λ h.
      let (d, a, x) = (parse_digest-hex_ok digest parsed).0 h in
      (d, a, (hex_ok_iff parsed.hex).0 x),
  λ (d, a, x). (parse_digest-hex_ok digest parsed).1 (d, a, (hex_ok_iff parsed.hex).1 x),
)

-- What is known of a blob that was read.
pub record IsVerified (sha256 : Bytes → Bytes) (files : ParsedDigest → Result Error Bytes)
    (d : Descriptor) (bytes : Bytes) : Type 0 where
  pub parsed : ParsedDigest
  pub named : parse_digest d.digest ≡ ok parsed
  pub whole : files parsed ≡ ok bytes
  pub hashed : hex_encode (sha256 bytes) ≡ parsed.hex
  pub bounded : length bytes ≤ max_metadata_blob_bytes
  pub sized : (d.size ≡ 0) ⊎ (d.size ≡ length bytes)

verify_digest-eq-ok :
    (d : Descriptor) (size : ℕ) (digest : Bytes) (parsed : ParsedDigest)
    → parse_digest d.digest ≡ ok parsed
    → verify_digest d size digest ≡ ok tt
    → (hex_encode digest ≡ parsed.hex) × ((d.size ≡ 0) ⊎ (d.size ≡ size))
unfolding verify_digest
verify_digest-eq-ok d size digest parsed p h =
    go (d.size == 0) (d.size == size) (hex_encode digest =b parsed.hex) refl refl refl (
      subst
        (λ r.
          (if not (d.size == 0) && not (d.size == size)
            then err (size_mismatch d.digest d.size size)
            else (r >>= check_hex d (hex_encode digest)))
          ≡ ok tt)
        p h)
  where
    go :
        (z s q : Bool)
        → (d.size == 0) ≡ z
        → (d.size == size) ≡ s
        → (hex_encode digest =b parsed.hex) ≡ q
        → ◌≡◌ {A = Result Error (Unit {0})}
            (if not z && not s
              then err (size_mismatch d.digest d.size size)
              else if q
              then ok tt
              else err (digest_mismatch d.digest (hex_encode digest)))
            (ok tt)
        → (hex_encode digest ≡ parsed.hex) × ((d.size ≡ 0) ⊎ (d.size ≡ size))
    go false false q ez es eq h = cc
    go true s false ez es eq h = cc
    go false true false ez es eq h = cc
    go true s true ez es eq h = (eq_of_=b _ _ eq, inl ((==_iff d.size 0).0 ez))
    go false true true ez es eq h = (eq_of_=b _ _ eq, inr ((==_iff d.size size).0 es))

limit_of_bounded : (d : Descriptor) → limit_of d ≤ max_metadata_blob_bytes
limit_of_bounded d = ground arith

within :
    (n limit : ℕ)
    → limit ≤ max_metadata_blob_bytes
    → ltb limit n ≡ false
    → n ≤ max_metadata_blob_bytes
within n limit l h = ground arith

-- What was read within the limit is all there is.
whole_within :
    (content : Bytes) (limit : ℕ)
    → ltb limit (length (take (limit + 1) content)) ≡ false
    → take (limit + 1) content ≡ content
whole_within content limit h =
    let l = length-take (limit + 1) content in take_all content (limit + 1) (ground (arith, l))

-- A blob that is read is the whole file of its digest, hashes to the digest, is no larger than is
-- allowed, and has the size of the descriptor where that gives one.
pub read_metadata_blob-IsVerified :
    (sha256 : Bytes → Bytes) (files : ParsedDigest → Result Error Bytes) (d : Descriptor)
    (bytes : Bytes)
    → read_metadata_blob sha256 files d ≡ ok bytes
    → IsVerified sha256 files d bytes
unfolding read_metadata_blob checked verify
read_metadata_blob-IsVerified sha256 files d bytes h =
    let (parsed, named, h₁) = >>=-eq-ok (parse_digest d.digest) _ h in
    let (content, found, h₂) = >>=-eq-ok (files parsed) _ h₁ in
    go parsed content named found (ltb (limit_of d) (length (take (limit_of d + 1) content))) refl
      (verify_digest d (length (take (limit_of d + 1) content))
        (sha256 (take (limit_of d + 1) content)))
      refl h₂
  where
    go :
        (parsed : ParsedDigest) (content : Bytes)
        → parse_digest d.digest ≡ ok parsed
        → files parsed ≡ ok content
        → (b : Bool) → ltb (limit_of d) (length (take (limit_of d + 1) content)) ≡ b
        → (r : Result Error (Unit {0}))
        → verify_digest d
            (length (take (limit_of d + 1) content))
            (sha256 (take (limit_of d + 1) content))
          ≡ r
        → (if b
            then err (
                layout
                  (codes "blob " ++ (d.digest ++ codes " is larger than its descriptor allows")))
            else (r >> ok (take (limit_of d + 1) content)))
          ≡ ok bytes
        → IsVerified sha256 files d bytes
    go parsed content named found true e r v h = cc
    go parsed content named found false e (err f) v h = cc
    go parsed content named found false e (ok u) v h =
        let same = ok-injective (take (limit_of d + 1) content) bytes h in
        let whole = whole_within content (limit_of d) e in
        let (hashed, sized) =
          verify_digest-eq-ok d (length bytes) (sha256 bytes) parsed named
            (subst (λ x. verify_digest d (length x) (sha256 x) ≡ ok tt) same v) in
        record {
          parsed = parsed;
          named = named;
          whole = found ∙ ap ok (sym whole ∙ same);
          hashed = hashed;
          bounded =
              within (length bytes) (limit_of d) (limit_of_bounded d)
                (subst (λ x. ltb (limit_of d) (length x) ≡ false) same e);
          sized = sized;
        }
