-- ===== src/Rootfs/Codec/RoundTrip.antt =====
-- Written rootfs tables (source/src/rootfs.rs), and the reader over them.
use rules_oci_runtime.Prelude.{
  ℕ, Bool, true, false, if◌then◌else◌, ◌==◌, err, ◌>>◌, ◌^◌, ◌*◌, ◌≤◌, ◌<◌, ◌≡◌, refl, sym, ap, ◌∙◌,
  List, [], ◌∷◌, ◌++◌, Bytes, All, length, ==_refl, Result, ok, ok-injective, >>=-eq-ok,
  to_le_bytes,
}
use mathlib.Core.List.{append_assoc, append-nil}
use rules_oci_runtime.Errors.{IoError, other}
use mathlib.Core.Path.{subst}
use rules_oci_runtime.Entries.{Entry, Table, max_entries}
use rules_oci_runtime.Entries.Text.{is_utf8}
use rules_oci_runtime.Entries.Reads.{IsEntry, IsRecordable, encode, name_bytes}
use rules_oci_runtime.Entries.RoundTrip.{write_bytes-eq-ok, write_entries-eq-ok, encode_all}
use rules_oci_runtime.Entries.Framed.{
  Deflate, IsLossless, write_framed, read_framed, read_framed-write_framed,
}
use rules_oci_runtime.Rootfs.{RootfsTable, rootfs_magic, check}
use rules_oci_runtime.Rootfs.Kept.{IsServable}
use rules_oci_runtime.Rootfs.Placed.{check_iff}
use rules_oci_runtime.Rootfs.Codec.{
  write_all, write_list, put_u32, write_layer, write_directory, write_index, write_files,
  write_pair, write_xattrs, rootfs_body, take_rootfs, checked_table, read_rootfs_body, write_rootfs,
  read_rootfs,
}
use rules_oci_runtime.Rootfs.Codec.Reads.{
  encode_each, encode_list, encode_layer, encode_directory, encode_pair, encode_xattrs,
  encode_files, encode_rootfs, IsLayer, IsDirectory, IsPair, IsXattrs, IsFiles, IsRecorded,
  Reads-take_rootfs,
}

-- A write of one value: when it succeeds, the value can be recorded and its encoding was added.
abbrev Writes :
    {A : Type 0}
    → (Bytes → A → Result IoError Bytes)
    → (A → Bytes)
    → (A → Type 0)
    → (A → Type 0)
    → Type 0
Writes {A} write enc Typed P =
    (a : A) (body out : Bytes) → Typed a → write body a ≡ ok out → P a × (out ≡ body ++ enc a)

write_all-Writes :
    {A : Type 0} (write : Bytes → A → Result IoError Bytes) (enc : A → Bytes) (Typed P : A → Type 0)
    → Writes write enc Typed P
    → Writes (write_all write) (encode_each enc) (All Typed) (All P)
unfolding write_all
write_all-Writes write enc Typed P each [] body out v h = (tt, cc (append-nil body))
write_all-Writes write enc Typed P each (a ∷ more) body out v h =
    let (b, w₁, w₂) = >>=-eq-ok _ _ h in
    let (p, o) = each a body b v.0 w₁ in
    let (ps, os) = write_all-Writes write enc Typed P each more b out v.1 w₂ in
    ((p, ps), os ∙ rw o (append_assoc body (enc a) (encode_each enc more)))

write_list-Writes :
    {A : Type 0} (write : Bytes → A → Result IoError Bytes) (enc : A → Bytes) (Typed P : A → Type 0)
    → Writes write enc Typed P
    → Writes (write_list write) (encode_list enc) (All Typed) (All P)
write_list-Writes write enc Typed P each items body out v h =
    let (p, o) =
      write_all-Writes write enc Typed P each items (put_u32 body (length items)) out v h in
    (p, o ∙ append_assoc body (to_le_bytes 4 (length items)) (encode_each enc items))

-- What the types of the source give.
abbrev pub IsTypedLayer : Table → Type 0
IsTypedLayer t = (is_utf8 t.layer ≡ true) × (length t.entries < 256 ^ 4) × All IsEntry t.entries

abbrev pub IsTypedXattrs : ℕ × Bytes × Bytes → Type 0
IsTypedXattrs (layer, path, names) = layer < 256 ^ 4

abbrev pub IsTypedDirectory : Bytes × ℕ → Type 0
IsTypedDirectory (path, mode) = mode < 256 ^ 4

pub record IsTyped (t : RootfsTable) : Type 0 where
  pub manifest : is_utf8 t.manifest ≡ true
  pub platform : is_utf8 t.platform ≡ true
  pub layers_count : length t.layers < 256 ^ 4
  pub layers : All IsTypedLayer t.layers
  pub directories_count : length t.directories < 256 ^ 4
  pub directories : All IsTypedDirectory t.directories
  -- a list of files for each layer
  pub files_count : length t.work.files ≡ length t.layers
  pub files : All IsFiles t.work.files
  pub symlinks_count : length t.work.symlinks < 256 ^ 4
  pub symlinks : All IsPair t.work.symlinks
  pub hard_links_count : length t.work.hard_links < 256 ^ 4
  pub hard_links : All IsPair t.work.hard_links
  pub xattrs_count : length t.xattrs < 256 ^ 4
  pub xattrs : All IsTypedXattrs t.xattrs

encode_all_each : (es : List Entry) → encode_all es ≡ encode_each encode es
encode_all_each [] = refl
encode_all_each (e ∷ es) = ap (λ rest. encode e ++ rest) (encode_all_each es)

All-both :
    {A : Type 0} (P Q : A → Type 0) (xs : List A) → All P xs → All Q xs → All (λ x. P x × Q x) xs
All-both P Q [] p q = tt
All-both P Q (x ∷ xs) p q = ((p.0, q.0), All-both P Q xs p.1 q.1)

write_layer-Writes : Writes write_layer encode_layer IsTypedLayer IsLayer
unfolding write_layer
write_layer-Writes t body out v h =
    let (b, w₁, w₂) = >>=-eq-ok _ _ h in
    let (l, o) = write_bytes-eq-ok body t.layer b w₁ in
    let (r, os) = write_entries-eq-ok t.entries (put_u32 b (length t.entries)) out v.2 w₂ in
    (
      ((v.0, l), v.1, All-both IsEntry IsRecordable t.entries v.2 r),
      os ∙ rw (o, encode_all_each t.entries) (simp append_assoc),
    )

write_directory-Writes : Writes write_directory encode_directory IsTypedDirectory IsDirectory
unfolding write_directory
write_directory-Writes (path, mode) body out v h =
    let (b, w₁, w₂) = >>=-eq-ok _ _ h in
    let (l, o) = write_bytes-eq-ok body path b w₁ in
    (
      (l, v),
      sym (ok-injective _ _ w₂) ∙ rw o (append_assoc body (name_bytes path) (to_le_bytes 4 mode)),
    )

write_index-Writes : Writes write_index (to_le_bytes 4) (λ e. e < 256 ^ 4) (λ e. e < 256 ^ 4)
unfolding write_index
write_index-Writes e body out v h = (v, sym (ok-injective _ _ h))

write_files-Writes : Writes write_files encode_files IsFiles IsFiles
unfolding write_files
write_files-Writes files body out v h = (
  v,
  (write_list-Writes write_index (to_le_bytes 4) (λ e. e < 256 ^ 4) (λ e. e < 256 ^ 4)
      write_index-Writes files body out v.1 h).1,
)

write_pair-Writes : Writes write_pair encode_pair IsPair IsPair
unfolding write_pair
write_pair-Writes (layer, entry) body out v h =
    (v, sym (ok-injective _ _ h) ∙ append_assoc body (to_le_bytes 4 layer) (to_le_bytes 4 entry))

write_xattrs-Writes : Writes write_xattrs encode_xattrs IsTypedXattrs IsXattrs
unfolding write_xattrs
write_xattrs-Writes (layer, path, names) body out v h =
    let (b, w₁, w₂) = >>=-eq-ok _ _ h in
    let (l₁, o₁) = write_bytes-eq-ok (body ++ to_le_bytes 4 layer) path b w₁ in
    let (l₂, o₂) = write_bytes-eq-ok b names out w₂ in ((v, l₁, l₂), o₂ ∙ rw o₁ (simp append_assoc))

rootfs_body-eq-ok :
    (t : RootfsTable) (body : Bytes)
    → IsTyped t
    → rootfs_body t ≡ ok body
    → IsRecorded t × (body ≡ encode_rootfs t)
unfolding rootfs_body
rootfs_body-eq-ok t body v h =
    let (b₁, w₁, k₁) = >>=-eq-ok _ _ h in
    let (b₂, w₂, k₂) = >>=-eq-ok _ _ k₁ in
    let (b₃, w₃, k₃) = >>=-eq-ok _ _ k₂ in
    let (b₄, w₄, k₄) = >>=-eq-ok _ _ k₃ in
    let (b₅, w₅, k₅) = >>=-eq-ok _ _ k₄ in
    let (b₆, w₆, k₆) = >>=-eq-ok _ _ k₅ in
    let (b₇, w₇, k₇) = >>=-eq-ok _ _ k₆ in
    let (p₁, o₁) = write_bytes-eq-ok [] t.manifest b₁ w₁ in
    let (p₂, o₂) = write_bytes-eq-ok b₁ t.platform b₂ w₂ in
    let (p₃, o₃) =
      write_list-Writes write_layer encode_layer IsTypedLayer IsLayer write_layer-Writes t.layers b₂
        b₃ v.layers w₃ in
    let (p₄, o₄) =
      write_list-Writes write_directory encode_directory IsTypedDirectory IsDirectory
        write_directory-Writes t.directories b₃ b₄ v.directories w₄ in
    let (p₅, o₅) =
      write_all-Writes write_files encode_files IsFiles IsFiles write_files-Writes t.work.files b₄
        b₅ v.files w₅ in
    let (p₆, o₆) =
      write_list-Writes write_pair encode_pair IsPair IsPair write_pair-Writes t.work.symlinks b₅ b₆
        v.symlinks w₆ in
    let (p₇, o₇) =
      write_list-Writes write_pair encode_pair IsPair IsPair write_pair-Writes t.work.hard_links b₆
        b₇ v.hard_links w₇ in
    let (p₈, o₈) =
      write_list-Writes write_xattrs encode_xattrs IsTypedXattrs IsXattrs write_xattrs-Writes
        t.xattrs b₇ body v.xattrs k₇ in
    (
      record {
        manifest = (v.manifest, p₁);
        platform = (v.platform, p₂);
        layers_count = v.layers_count;
        layers = p₃;
        directories_count = v.directories_count;
        directories = p₄;
        files_count = v.files_count;
        files = p₅;
        symlinks_count = v.symlinks_count;
        symlinks = p₆;
        hard_links_count = v.hard_links_count;
        hard_links = p₇;
        xattrs_count = v.xattrs_count;
        xattrs = p₈;
      },
      o₈ ∙ rw (o₇, o₆, o₅, o₄, o₃, o₂, o₁) (simp append_assoc),
    )

read_rootfs_body-rootfs_body :
    (t : RootfsTable) (body : Bytes)
    → IsTyped t
    → check t ≡ ok tt
    → rootfs_body t ≡ ok body
    → read_rootfs_body body ≡ ok t
unfolding read_rootfs_body checked_table
read_rootfs_body-rootfs_body t body v c h =
    let (r, o) = rootfs_body-eq-ok t body v h in
    let reads : take_rootfs body 0 ≡ ok (t, length body) =
      rw o (rw append-nil at ((Reads-take_rootfs t r).at [] [])) in
    rw (reads, ==_refl (length body), c) refl

module _ (d : Deflate) (L : IsLossless d) where
  -- With a lossless deflate, a table within the ranges of its types, with a list of files for each
  -- layer, that can be served and that was written is read back as it was, whatever follows it in the
  -- file, if its body is not longer than the reader allows and the file is shorter than 256 ^ 8.
  pub read_rootfs-write_rootfs :
      (t : RootfsTable) (body out rest : Bytes)
      → IsTyped t
      → IsServable t
      → rootfs_body t ≡ ok body
      → length body ≤ max_entries * 512
      → write_rootfs d t ≡ ok out
      → length out < 256 ^ 8
      → read_rootfs d (out ++ rest) ≡ ok t
  unfolding write_rootfs read_rootfs
  read_rootfs-write_rootfs t body out rest v s b h w k =
      let framed : write_framed d rootfs_magic body ≡ ok out = rw b at w in
      rw (read_framed-write_framed d L rootfs_magic "a rootfs table" body out rest refl framed h k)
        (read_rootfs_body-rootfs_body t body v ((check_iff t).1 s) b)

checked_table-check :
    (body : Bytes) (t t' : RootfsTable) (at : ℕ)
    → checked_table body (t, at) ≡ ok t'
    → check t' ≡ ok tt
unfolding checked_table
checked_table-check body t t' at h = passed (at == length body) (check t) refl h
  where
    passed :
        (b : Bool) (r : Result IoError (Unit {0}))
        → check t ≡ r
        → (if b then (r >> ok t) else err (other "trailing bytes in rootfs table")) ≡ ok t'
        → check t' ≡ ok tt
    passed true (ok u) e k = subst (λ x. check x ≡ ok tt) (ok-injective t t' k) e
    passed true (err f) e k = cc
    passed false r e k = cc

module _ (d : Deflate) where
  -- Whatever a file holds, a table that is read from it can be served: all that it names by index
  -- is there, its files are in stream order, and its paths are canonical.
  pub read_rootfs-IsServable :
      (stream : Bytes) (t : RootfsTable) → read_rootfs d stream ≡ ok t → IsServable t
  unfolding read_rootfs read_rootfs_body
  read_rootfs-IsServable stream t h =
      let (body, w₁, w₂) =
        >>=-eq-ok (read_framed d rootfs_magic "a rootfs table" stream) read_rootfs_body h in
      let (r, k₁, k₂) = >>=-eq-ok (take_rootfs body 0) (checked_table body) w₂ in
      (check_iff t).0 (checked_table-check body r.0 t r.1 k₂)
