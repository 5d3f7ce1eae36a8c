-- ===== src/Entries/RoundTrip.antt =====
-- Written entries and tables (source/src/entries.rs), and the reader over them.
use rules_oci_runtime.Prelude.{
  ℕ, ◌^◌, ◌*◌, ◌≤◌, ◌<◌, ◌≡◌, ◌≢◌, ◌↔◌, refl, ◌∙◌, Bool, true, false, Option, none, some, List, [],
  ◌∷◌, ◌++◌, Bytes, length, ==_refl, ok, >>=-eq-ok, to_le_bytes, arith, All,
}
use mathlib.Core.List.{append_assoc, append-nil}
use rules_oci_runtime.Entries.{Entry, Table, magic, max_entries, is_file}
use rules_oci_runtime.Entries.Text.{is_utf8, from_utf8}
use rules_oci_runtime.Entries.Codec.{take_bytes, take_u32, take_entry}
use rules_oci_runtime.Entries.Write.{write_bytes, write_entry, write_digest}
use rules_oci_runtime.Entries.Reads.{
  Reads, Reads-bind, Reads-pure, Reads-then_pure, Reads-lift, Reads-take_bytes, Reads-take_u32,
  Reads-take_entry, IsEntry, IsRecordable, encode, name_bytes, digest_bytes, Hashed,
}
use rules_oci_runtime.Entries.Framed.{Deflate, IsLossless, write_framed, read_framed-write_framed}
use rules_oci_runtime.Entries.TableCodec.{
  write_entries, take_entries, table_body, check_count, take_table, read_table_body, write_to,
  read_from,
}

pub write_bytes-eq-ok :
    (out bytes out' : Bytes)
    → write_bytes out bytes ≡ ok out'
    → (length bytes < 65536) × (out' ≡ out ++ name_bytes bytes)
unfolding write_bytes
write_bytes-eq-ok out bytes out' h =
    (ground arith, ground (arith, append_assoc out (to_le_bytes 2 (length bytes)) bytes))

write_digest-eq-ok :
    (body : Bytes) (is_file : Bool) (sha256 : Option Bytes) (out : Bytes)
    → Hashed is_file sha256
    → write_digest body is_file sha256 ≡ ok out
    → out ≡ body ++ digest_bytes sha256
unfolding write_digest
write_digest-eq-ok body true none out h e = absurd h
write_digest-eq-ok body true (some digest) out h e = cc
write_digest-eq-ok body false none out h e = cc (append-nil body)
write_digest-eq-ok body false (some digest) out h e = absurd h

-- What `write_entry` puts behind a body, and what it insists on.
pub write_entry-eq-ok :
    (body : Bytes) (e : Entry) (out : Bytes)
    → Hashed (is_file e.kind) e.sha256
    → write_entry body e ≡ ok out
    → IsRecordable e × (out ≡ body ++ encode e)
unfolding write_entry
write_entry-eq-ok body e out h w =
    let (b6, w6, k6) = >>=-eq-ok _ _ w in
    let (b7, w7, k7) = >>=-eq-ok _ _ k6 in
    let (b8, w8, k8) = >>=-eq-ok _ _ k7 in
    let f6 = write_bytes-eq-ok _ e.path b6 w6 in
    let f7 = write_bytes-eq-ok b6 e.link b7 w7 in
    let f8 = write_bytes-eq-ok b7 e.xattrs b8 w8 in
    (
      record { path = f6.0; link = f7.0; xattrs = f8.0 },
      write_digest-eq-ok b8 _ e.sha256 out h k8 ∙ rw (f8.1, f7.1, f6.1) (simp append_assoc),
    )

-- An entry within the ranges of its types that `write_entry` accepts is read back from behind
-- the body, whatever follows it, and the reader stops where the entry ends.
pub take_entry-write_entry :
    (body : Bytes) (e : Entry) (out rest : Bytes)
    → IsEntry e
    → write_entry body e ≡ ok out
    → take_entry (out ++ rest) (length body) ≡ ok (e, length out)
take_entry-write_entry body e out rest v w =
    let (r, o) = write_entry-eq-ok body e out v.hash w in
    rw (o, append_assoc body (encode e) rest) ((Reads-take_entry e v r).at body rest)

abbrev pub encode_all : List Entry → Bytes
encode_all [] = []
encode_all (e ∷ es) = encode e ++ encode_all es

pub write_entries-eq-ok :
    (es : List Entry) (body out : Bytes)
    → All IsEntry es
    → write_entries body es ≡ ok out
    → All IsRecordable es × (out ≡ body ++ encode_all es)
unfolding write_entries
write_entries-eq-ok [] body out v w = (tt, cc (append-nil body))
write_entries-eq-ok (e ∷ es) body out v w =
    let (b, w₁, w₂) = >>=-eq-ok _ _ w in
    let (r, o) = write_entry-eq-ok body e b v.0.hash w₁ in
    let (rs, os) = write_entries-eq-ok es b out v.1 w₂ in
    ((r, rs), os ∙ rw o (append_assoc body (encode e) (encode_all es)))

Reads-take_entries :
    (es : List Entry)
    → All IsEntry es
    → All IsRecordable es
    → Reads (take_entries (length es)) (encode_all es) es
unfolding take_entries
Reads-take_entries [] v r = Reads-pure []
Reads-take_entries (e ∷ es) v r =
    Reads-bind take_entry _ _ _ e (e ∷ es) (Reads-take_entry e v.0 r.0)
      (Reads-then_pure _ (λ es. e ∷ es) _ es (Reads-take_entries es v.1 r.1))

-- What the types of the source, and the bound that `Table::build` keeps, give.
pub record IsTable (t : Table) : Type 0 where
  pub text : is_utf8 t.layer ≡ true
  pub entries : All IsEntry t.entries
  pub count : length t.entries ≤ max_entries

abbrev encode_table : Table → Bytes
encode_table t = name_bytes t.layer ++ (to_le_bytes 4 (length t.entries) ++ encode_all t.entries)

check_count_ok : (n : ℕ) → n ≤ max_entries → check_count n ≡ ok tt
unfolding check_count
check_count_ok n h = ground arith

Reads-take_table :
    (t : Table)
    → IsTable t
    → length t.layer < 65536
    → All IsRecordable t.entries
    → Reads take_table (encode_table t) t
unfolding take_table from_utf8
Reads-take_table t v l r = Reads-bind take_bytes _ _ _ t.layer t (Reads-take_bytes t.layer l) (
    Reads-bind _ _ [] _ t.layer t (rw v.text (Reads-lift t.layer)) (
      Reads-bind take_u32 _ _ _ (length t.entries) t
        (Reads-take_u32 (length t.entries) (omega (arith, v.count)))
        (Reads-bind _ _ [] _ tt t (rw (check_count_ok _ v.count) (Reads-lift tt)) (
          Reads-then_pure _ (λ es. record { layer = t.layer; entries = es }) _ t.entries
            (Reads-take_entries t.entries v.entries r)))))

table_body-eq-ok :
    (t : Table) (body : Bytes)
    → IsTable t
    → table_body t ≡ ok body
    → (length t.layer < 65536) × All IsRecordable t.entries × (body ≡ encode_table t)
unfolding table_body
table_body-eq-ok t body v w =
    let (b, w₁, w₂) = >>=-eq-ok _ _ w in
    let (l, o) = write_bytes-eq-ok [] t.layer b w₁ in
    let (r, os) = write_entries-eq-ok t.entries _ body v.entries w₂ in
    (l, r, os ∙ rw o (simp append_assoc))

-- The body of a table within the ranges of its types and the bound on entries is read back as
-- the table.
pub read_table_body-table_body :
    (t : Table) (body : Bytes) → IsTable t → table_body t ≡ ok body → read_table_body body ≡ ok t
unfolding read_table_body
read_table_body-table_body t body v w =
    let (l, r, o) = table_body-eq-ok t body v w in
    let reads : take_table body 0 ≡ ok (t, length body) =
      rw o (rw append-nil at ((Reads-take_table t v l r).at [] [])) in
    rw (reads, ==_refl (length body)) refl

module _ (d : Deflate) (L : IsLossless d) where
  -- With a lossless deflate, a table within the ranges of its types and the bound on entries
  -- that was written is read back as it was, whatever follows it in the file, if its body is not
  -- longer than the reader allows and the file is shorter than 256 ^ 8.
  pub read_from-write_to :
      (t : Table) (body out rest : Bytes)
      → IsTable t
      → table_body t ≡ ok body
      → length body ≤ max_entries * 512
      → write_to d t ≡ ok out
      → length out < 256 ^ 8
      → read_from d (out ++ rest) ≡ ok t
  unfolding write_to read_from
  read_from-write_to t body out rest v b h w k =
      let framed : write_framed d magic body ≡ ok out = rw b at w in
      rw (read_framed-write_framed d L magic "an entry table" body out rest refl framed h k)
        (read_table_body-table_body t body v b)

write_digest_unhashed :
    (body : Bytes) (file : Bool) (sha256 : Option Bytes) (out : Bytes)
    → file ≡ true
    → sha256 ≡ none
    → write_digest body file sha256 ≢ ok out
unfolding write_digest
write_digest_unhashed body true none out f n w = cc
write_digest_unhashed body true (some x) out f n w = cc
write_digest_unhashed body false sha256 out f n w = cc

-- A file with no content hash is never written.
pub write_entry_unhashed :
    (body : Bytes) (e : Entry) (out : Bytes)
    → is_file e.kind ≡ true
    → e.sha256 ≡ none
    → write_entry body e ≢ ok out
unfolding write_entry
write_entry_unhashed body e out f n w =
    let (b6, w6, k6) = >>=-eq-ok (write_bytes _ e.path) _ w in
    let (b7, w7, k7) = >>=-eq-ok (write_bytes b6 e.link) _ k6 in
    let (b8, w8, k8) = >>=-eq-ok (write_bytes b7 e.xattrs) _ k7 in
    write_digest_unhashed b8 (is_file e.kind) e.sha256 out f n k8

write_bytes_ok :
    (out bytes : Bytes)
    → length bytes < 65536
    → write_bytes out bytes ≡ ok ((out ++ to_le_bytes 2 (length bytes)) ++ bytes)
unfolding write_bytes
write_bytes_ok out bytes h = ground arith

write_digest_ok :
    (body : Bytes) (file : Bool) (sha256 : Option Bytes)
    → Hashed file sha256
    → (out : Bytes) × (write_digest body file sha256 ≡ ok out)
unfolding write_digest
write_digest_ok body true none h = absurd h
write_digest_ok body true (some digest) h = (body ++ digest, refl)
write_digest_ok body false sha256 h = (body, refl)

-- An entry within the ranges of its types is written exactly when its path, its link and its
-- attribute names fit their lengths.
pub write_entry_iff :
    (body : Bytes) (e : Entry)
    → IsEntry e
    → ((out : Bytes) × (write_entry body e ≡ ok out)) ↔ IsRecordable e
unfolding write_entry
write_entry_iff body e v = (
  λ p. (write_entry-eq-ok body e p.0 v.hash p.1).0,
  λ r.
      rw
        (
          write_bytes_ok _ e.path r.path,
          write_bytes_ok _ e.link r.link,
          write_bytes_ok _ e.xattrs r.xattrs,
        )
        (write_digest_ok _ (is_file e.kind) e.sha256 v.hash),
)
