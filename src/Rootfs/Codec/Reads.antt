-- ===== src/Rootfs/Codec/Reads.antt =====
-- The reads of a rootfs table (source/src/rootfs.rs) against the bytes of what they read.
use rules_oci_runtime.Prelude.{
  ℕ, ◌-◌, ◌^◌, ◌≤◌, ◌<◌, ◌≡◌, refl, true, false, none, some, List, [], ◌∷◌, ◌++◌, Bytes, All,
  length, length-append, length-to_le_bytes, ltb, ok_or, to_le_bytes, if◌then◌else◌, arith,
}
use mathlib.Core.List.{append_assoc, append-nil}
use rules_oci_runtime.Errors.{other}
use rules_oci_runtime.Entries.{Entry, Table}
use rules_oci_runtime.Entries.Text.{is_utf8, from_utf8}
use rules_oci_runtime.Entries.Codec
use rules_oci_runtime.Entries.Codec.{Take, take_bytes, take_u32, take_entry}
use rules_oci_runtime.Entries.Reads.{
  Reads, Reads-bind, Reads-pure, Reads-then_pure, Reads-lift, Reads-take_bytes, Reads-take_u32,
  Reads-take_entry, IsEntry, IsRecordable, encode, name_bytes,
}
use rules_oci_runtime.Rootfs.{RootfsTable}
use rules_oci_runtime.Rootfs.Codec.{
  take_text, plausible, take_count, take_times, take_list, take_layer, take_directory, take_pair,
  take_xattrs, take_rootfs,
}

-- The encodings one behind the other, and with their number before them.
abbrev pub encode_each : {A : Type 0} → (A → Bytes) → List A → Bytes
encode_each enc [] = []
encode_each enc (a ∷ more) = enc a ++ encode_each enc more

abbrev pub encode_list : {A : Type 0} → (A → Bytes) → List A → Bytes
encode_list enc items = to_le_bytes 4 (length items) ++ encode_each enc items

module _ {A : Type 0} (take : Take A) (enc : A → Bytes) (P : A → Type 0)
    (each : (a : A) → P a → Reads take (enc a) a) where
  pub Reads-take_times :
      (items : List A)
      → All P items
      → Reads (take_times take (length items)) (encode_each enc items) items
  unfolding take_times
  Reads-take_times [] w = Reads-pure []
  Reads-take_times (a ∷ more) w =
      Reads-bind take _ _ _ a (a ∷ more) (each a w.0)
        (Reads-then_pure _ (λ rest. a ∷ rest) _ more (Reads-take_times more w.1))

  module _ (wide : (a : A) → 1 ≤ length (enc a)) where
    length-encode_each : (items : List A) → length items ≤ length (encode_each enc items)
    length-encode_each [] = omega arith
    length-encode_each (a ∷ more) =
        rw (length-append (enc a) (encode_each enc more))
          (omega (arith, wide a, length-encode_each more))

    pub Reads-take_list :
        (items : List A)
        → length items < 256 ^ 4
        → All P items
        → Reads (take_list take) (encode_list enc items) items
    unfolding take_list take_count plausible Codec.◌>>=◌
    Reads-take_list items n w = record {
      at = λ pre rest.
          let count = to_le_bytes 4 (length items) in
          let body = encode_each enc items in
          let long : ltb (length (pre ++ (count ++ (body ++ rest))) - length (pre ++ count))
                (length items)
              ≡ false =
            rw
              (
                ← append_assoc pre count (body ++ rest),
                length-append (pre ++ count) (body ++ rest),
                length-append body rest,
              )
              (ground (arith, length-encode_each items)) in
          rw
            (
              append_assoc count body rest,
              (Reads-take_u32 (length items) n).at pre (body ++ rest),
              long,
              ← append_assoc pre count (body ++ rest),
              (Reads-take_times items w).at (pre ++ count) rest,
              append_assoc pre count body,
            )
            refl;
    }

abbrev pub IsText : Bytes → Type 0
IsText text = (is_utf8 text ≡ true) × (length text < 65536)

pub Reads-take_text : (text : Bytes) → IsText text → Reads take_text (name_bytes text) text
unfolding take_text from_utf8
Reads-take_text text w =
    let is_text : Reads
        (Codec.lift
          (ok_or (if is_utf8 text then some text else none) (other "a digest is not text")))
        [] text =
      rw w.0 (Reads-lift text) in
    let both : Reads take_text (name_bytes text ++ []) text =
      Reads-bind take_bytes _ (name_bytes text) [] text text (Reads-take_bytes text w.1) is_text in
    rw append-nil at both

pub Reads-take_layer :
    (t : Table)
    → IsText t.layer
    → length t.entries < 256 ^ 4
    → All (λ (e : Entry). IsEntry e × IsRecordable e) t.entries
    → Reads take_layer (name_bytes t.layer ++ encode_list encode t.entries) t
unfolding take_layer
Reads-take_layer t l n w = Reads-bind take_text _ _ _ t.layer t (Reads-take_text t.layer l) (
    Reads-then_pure _ (λ kept. record { layer = t.layer; entries = kept }) _ t.entries
      (Reads-take_list take_entry encode (λ (e : Entry). IsEntry e × IsRecordable e)
        (λ e v. Reads-take_entry e v.0 v.1) encode_wide t.entries n w))
  where
    encode_wide : (e : Entry) → 1 ≤ length (encode e)
    encode_wide e = omega arith

abbrev pub encode_layer : Table → Bytes
encode_layer t = name_bytes t.layer ++ encode_list encode t.entries

abbrev pub encode_directory : Bytes × ℕ → Bytes
encode_directory (path, mode) = name_bytes path ++ to_le_bytes 4 mode

abbrev pub encode_pair : ℕ × ℕ → Bytes
encode_pair (layer, entry) = to_le_bytes 4 layer ++ to_le_bytes 4 entry

abbrev pub encode_xattrs : ℕ × Bytes × Bytes → Bytes
encode_xattrs (layer, path, names) = to_le_bytes 4 layer ++ (name_bytes path ++ name_bytes names)

abbrev pub encode_files : List ℕ → Bytes
encode_files files = encode_list (to_le_bytes 4) files

abbrev pub IsLayer : Table → Type 0
IsLayer t =
    IsText t.layer
    × (length t.entries < 256 ^ 4)
    × All (λ (e : Entry). IsEntry e × IsRecordable e) t.entries

abbrev pub IsDirectory : Bytes × ℕ → Type 0
IsDirectory (path, mode) = (length path < 65536) × (mode < 256 ^ 4)

abbrev pub IsPair : ℕ × ℕ → Type 0
IsPair (layer, entry) = (layer < 256 ^ 4) × (entry < 256 ^ 4)

abbrev pub IsXattrs : ℕ × Bytes × Bytes → Type 0
IsXattrs (layer, path, names) = (layer < 256 ^ 4) × (length path < 65536) × (length names < 65536)

abbrev pub IsFiles : List ℕ → Type 0
IsFiles files = (length files < 256 ^ 4) × All (λ (e : ℕ). e < 256 ^ 4) files

Reads-take_directory : (d : Bytes × ℕ) → IsDirectory d → Reads take_directory (encode_directory d) d
unfolding take_directory
Reads-take_directory (path, mode) w =
    Reads-bind take_bytes _ _ _ path (path, mode) (Reads-take_bytes path w.0)
      (Reads-then_pure take_u32 (λ m. (path, m)) _ mode (Reads-take_u32 mode w.1))

Reads-take_pair : (p : ℕ × ℕ) → IsPair p → Reads take_pair (encode_pair p) p
unfolding take_pair
Reads-take_pair (layer, entry) w =
    Reads-bind take_u32 _ _ _ layer (layer, entry) (Reads-take_u32 layer w.0)
      (Reads-then_pure take_u32 (λ e. (layer, e)) _ entry (Reads-take_u32 entry w.1))

Reads-take_xattrs : (x : ℕ × Bytes × Bytes) → IsXattrs x → Reads take_xattrs (encode_xattrs x) x
unfolding take_xattrs
Reads-take_xattrs (layer, path, names) w =
    Reads-bind take_u32 _ _ _ layer (layer, path, names) (Reads-take_u32 layer w.0)
      (Reads-bind take_bytes _ _ _ path (layer, path, names) (Reads-take_bytes path w.1)
        (Reads-then_pure take_bytes (λ n. (layer, path, n)) _ names (Reads-take_bytes names w.2)))

u32_wide : (n : ℕ) → 1 ≤ length (to_le_bytes 4 n)
u32_wide n = rw (length-to_le_bytes 4 n) (omega arith)

Reads-take_files :
    (files : List ℕ) → IsFiles files → Reads (take_list take_u32) (encode_files files) files
Reads-take_files files w =
    Reads-take_list take_u32 (to_le_bytes 4) (λ n. n < 256 ^ 4) Reads-take_u32 u32_wide files w.0
      w.1

-- A table whose parts can be recorded.
pub record IsRecorded (t : RootfsTable) : Type 0 where
  pub manifest : IsText t.manifest
  pub platform : IsText t.platform
  pub layers_count : length t.layers < 256 ^ 4
  pub layers : All IsLayer t.layers
  pub directories_count : length t.directories < 256 ^ 4
  pub directories : All IsDirectory t.directories
  pub files_count : length t.work.files ≡ length t.layers
  pub files : All IsFiles t.work.files
  pub symlinks_count : length t.work.symlinks < 256 ^ 4
  pub symlinks : All IsPair t.work.symlinks
  pub hard_links_count : length t.work.hard_links < 256 ^ 4
  pub hard_links : All IsPair t.work.hard_links
  pub xattrs_count : length t.xattrs < 256 ^ 4
  pub xattrs : All IsXattrs t.xattrs

abbrev pub encode_rootfs : RootfsTable → Bytes
encode_rootfs t =
    name_bytes t.manifest
    ++ (name_bytes t.platform
        ++ (encode_list encode_layer t.layers
            ++ (encode_list encode_directory t.directories
                ++ (encode_each encode_files t.work.files
                    ++ (encode_list encode_pair t.work.symlinks
                        ++ (encode_list encode_pair t.work.hard_links
                            ++ encode_list encode_xattrs t.xattrs))))))

pub Reads-take_rootfs : (t : RootfsTable) → IsRecorded t → Reads take_rootfs (encode_rootfs t) t
unfolding take_rootfs to_le_bytes
Reads-take_rootfs t w =
    Reads-bind take_text _ _ _ t.manifest t (Reads-take_text t.manifest w.manifest) (
      Reads-bind take_text _ _ _ t.platform t (Reads-take_text t.platform w.platform) (
        Reads-bind (take_list take_layer) _ _ _ t.layers t
          (Reads-take_list take_layer encode_layer IsLayer (λ l v. Reads-take_layer l v.0 v.1 v.2)
            layer_wide t.layers w.layers_count w.layers)
          (Reads-bind (take_list take_directory) _ _ _ t.directories t
            (Reads-take_list take_directory encode_directory IsDirectory Reads-take_directory
              directory_wide t.directories w.directories_count w.directories)
            (Reads-bind (take_times (take_list take_u32) (length t.layers)) _ _ _ t.work.files t
              files
              (Reads-bind (take_list take_pair) _ _ _ t.work.symlinks t
                (pairs t.work.symlinks w.symlinks_count w.symlinks)
                (Reads-bind (take_list take_pair) _ _ _ t.work.hard_links t
                  (pairs t.work.hard_links w.hard_links_count w.hard_links)
                  (Reads-then_pure (take_list take_xattrs) (λ x. record t { xattrs = x }) _ t.xattrs
                    (Reads-take_list take_xattrs encode_xattrs IsXattrs Reads-take_xattrs
                      xattrs_wide t.xattrs w.xattrs_count w.xattrs))))))))
  where
    layer_wide : (l : Table) → 1 ≤ length (encode_layer l)
    layer_wide l = omega arith

    directory_wide : (d : Bytes × ℕ) → 1 ≤ length (encode_directory d)
    directory_wide (path, mode) = omega arith

    pair_wide : (p : ℕ × ℕ) → 1 ≤ length (encode_pair p)
    pair_wide (layer, entry) =
        rw (length-append (to_le_bytes 4 layer) (to_le_bytes 4 entry))
          (omega (arith, u32_wide layer))

    xattrs_wide : (x : ℕ × Bytes × Bytes) → 1 ≤ length (encode_xattrs x)
    xattrs_wide (layer, path, names) =
        rw (length-append (to_le_bytes 4 layer) (name_bytes path ++ name_bytes names))
          (omega (arith, u32_wide layer))

    files :
        Reads
          (take_times (take_list take_u32) (length t.layers))
          (encode_each encode_files t.work.files)
          t.work.files
    files = rw (← w.files_count) (
        Reads-take_times (take_list take_u32) encode_files IsFiles Reads-take_files t.work.files
          w.files)

    pairs :
        (ps : List (ℕ × ℕ))
        → length ps < 256 ^ 4
        → All IsPair ps
        → Reads (take_list take_pair) (encode_list encode_pair ps) ps
    pairs = Reads-take_list take_pair encode_pair IsPair Reads-take_pair pair_wide
