-- ===== src/Entries/Reads.antt =====
-- The reader of an entry (source/src/entries.rs) against the bytes of one.
use rules_oci_runtime.Prelude.{
  ℕ, ◌+◌, ◌-◌, ◌<◌, ◌^◌, ◌≡◌, refl, sym, Bool, true, false, Option, none, some, List, [], ◌∷◌, ◌++◌,
  Bytes, length, get_elem?, leb, ok, ok_or, to_le_bytes, from_le_bytes, length-append, take-append,
  drop-append, length-to_le_bytes, from_le_bytes-to_le_bytes, arith,
}
use mathlib.Core.List.{append_assoc, append-nil}
use Prim.Native.String.{String}
use rules_oci_runtime.Errors.{other}
use rules_oci_runtime.Entries.{Kind, file, code, is_file, Entry}
use rules_oci_runtime.Entries.Codec.{
  Take, ◌>>=◌, pure, get_range, take_width, take_array, take_u8, take_u32, take_u64, take_bytes,
  from_code, take_kind, take_digest, take_entry, lift,
}

-- `m` reads the value `a` from the bytes `enc`, wherever they stand, and stops behind them.
pub record Reads {A : Type 0} (m : Take A) (enc : Bytes) (a : A) : Type 0 where
  pub at : (pre rest : Bytes) → m (pre ++ (enc ++ rest)) (length pre) ≡ ok (a, length (pre ++ enc))

pub Reads-pure : {A : Type 0} (a : A) → Reads (pure a) [] a
unfolding pure
Reads-pure a = record { at = λ pre rest. rw append-nil }

pub Reads-bind :
    {A B : Type 0} (m : Take A) (f : A → Take B) (e₁ e₂ : Bytes) (a : A) (b : B)
    → Reads m e₁ a
    → Reads (f a) e₂ b
    → Reads (m >>= f) (e₁ ++ e₂) b
unfolding ◌>>=◌
Reads-bind m f e₁ e₂ a b h k = record {
  at = λ pre rest.
      rw
        (
          append_assoc e₁ e₂ rest,
          h.at pre (e₂ ++ rest),
          ← append_assoc pre e₁ (e₂ ++ rest),
          k.at (pre ++ e₁) rest,
          append_assoc pre e₁ e₂,
        )
        refl;
}

get_range-append :
    (pre enc rest : Bytes) (w : ℕ)
    → length enc ≡ w
    → get_range (pre ++ (enc ++ rest)) (length pre) (length pre + w) ≡ some enc
unfolding get_range
get_range-append pre enc rest w e =
    let width : length pre + w - length pre ≡ length enc = omega arith in
    let fits : leb (length pre + w) (length (pre ++ (enc ++ rest))) ≡ true =
      rw (length-append pre (enc ++ rest), length-append enc rest) (ground (arith)) in
    let starts : leb (length pre) (length pre + w) ≡ true = ground arith in
    rw (fits, starts, width, drop-append pre (enc ++ rest), take-append enc rest) refl

Reads-take_width :
    (w : ℕ) (what : String) (enc : Bytes) → length enc ≡ w → Reads (take_width w what) enc enc
unfolding take_width
Reads-take_width w what enc e = record {
  at = λ pre rest. rw (get_range-append pre enc rest w e, length-append pre enc, e) refl;
}

get_elem?-append :
    {A : Type 0} (pre : List A) (x : A) (rest : List A)
    → get_elem? (pre ++ (x ∷ rest)) (length pre) ≡ some x
get_elem?-append [] x rest = refl
get_elem?-append (p ∷ pre) x rest = get_elem?-append pre x rest

Reads-take_u8 : (x : ℕ) → Reads take_u8 (x ∷ []) x
unfolding take_u8
Reads-take_u8 x = record {
  at = λ pre rest. rw (get_elem?-append pre x rest, length-append pre (x ∷ [])) refl;
}

-- A read whose value is passed through a function.
pub Reads-then_pure :
    {A B : Type 0} (m : Take A) (g : A → B) (enc : Bytes) (a : A)
    → Reads m enc a
    → Reads (m >>= (λ x. pure (g x))) enc (g a)
Reads-then_pure m g enc a h =
    rw append-nil at (Reads-bind m (λ x. pure (g x)) enc [] a (g a) h (Reads-pure (g a)))

pub Reads-take_u32 : (n : ℕ) → n < 256 ^ 4 → Reads take_u32 (to_le_bytes 4 n) n
unfolding take_u32
Reads-take_u32 n h = rw (from_le_bytes-to_le_bytes 4 n h) at (
    Reads-then_pure (take_width 4 "an entry") from_le_bytes (to_le_bytes 4 n) _
      (Reads-take_width 4 "an entry" _ (length-to_le_bytes 4 n)))

pub Reads-take_u64 : (n : ℕ) → n < 256 ^ 8 → Reads take_u64 (to_le_bytes 8 n) n
unfolding take_u64
Reads-take_u64 n h = rw (from_le_bytes-to_le_bytes 8 n h) at (
    Reads-then_pure (take_width 8 "an entry") from_le_bytes (to_le_bytes 8 n) _
      (Reads-take_width 8 "an entry" _ (length-to_le_bytes 8 n)))

-- The bytes of a name: its length in two bytes, then the name.
abbrev pub name_bytes : Bytes → Bytes
name_bytes name = to_le_bytes 2 (length name) ++ name

pub Reads-take_bytes :
    (name : Bytes) → length name < 65536 → Reads take_bytes (name_bytes name) name
unfolding take_bytes
Reads-take_bytes name h =
    Reads-bind (take_width 2 "a name") (λ len. take_width (from_le_bytes len) "a name") _ name _
      name (Reads-take_width 2 "a name" _ (length-to_le_bytes 2 (length name)))
      (Reads-take_width _ "a name" name (sym (from_le_bytes-to_le_bytes 2 (length name) h)))

pub Reads-lift : {A : Type 0} (a : A) → Reads (lift (ok a)) [] a
unfolding lift
Reads-lift a = record { at = λ pre rest. rw append-nil }

pub from_code-code : (kind : Kind) → from_code (code kind) ≡ some kind
unfolding from_code code
from_code-code file = refl
from_code-code _ = refl

Reads-take_kind : (kind : Kind) → Reads take_kind (code kind ∷ []) kind
unfolding take_kind
Reads-take_kind kind =
    Reads-bind take_u8 (λ n. lift (ok_or (from_code n) (other "unknown entry kind")))
      (code kind ∷ []) [] (code kind) kind (Reads-take_u8 (code kind))
      (rw (from_code-code kind) (Reads-lift kind))

-- What a hash field may hold: 32 bytes where the entry is a file, and nothing elsewhere.
abbrev pub Hashed : Bool → Option Bytes → Type 0
Hashed true none = ⊥
Hashed true (some digest) = length digest ≡ 32
Hashed false none = Unit
Hashed false (some digest) = ⊥

abbrev pub digest_bytes : Option Bytes → Bytes
digest_bytes none = []
digest_bytes (some digest) = digest

Reads-take_digest :
    (is_file : Bool) (sha256 : Option Bytes)
    → Hashed is_file sha256
    → Reads (take_digest is_file) (digest_bytes sha256) sha256
unfolding take_digest take_array
Reads-take_digest true none h = absurd h
Reads-take_digest true (some digest) h =
    Reads-then_pure take_array some digest digest (Reads-take_width 32 _ digest h)
Reads-take_digest false none h = Reads-pure none
Reads-take_digest false (some digest) h = absurd h

-- The ranges that the field types of the source give.
pub record IsEntry (e : Entry) : Type 0 where
  pub mode : e.mode < 256 ^ 4
  pub mtime : e.mtime < 256 ^ 8
  pub offset : e.offset < 256 ^ 8
  pub size : e.size < 256 ^ 8
  pub hash : Hashed (is_file e.kind) e.sha256

-- The names are short enough to be recorded.
pub record IsRecordable (e : Entry) : Type 0 where
  pub path : length e.path < 65536
  pub link : length e.link < 65536
  pub xattrs : length e.xattrs < 65536

-- The bytes of an entry.
abbrev pub encode : Entry → Bytes
encode e =
    (code e.kind ∷ [])
    ++ (to_le_bytes 4 e.mode
        ++ (to_le_bytes 8 e.mtime
            ++ (to_le_bytes 8 e.offset
                ++ (to_le_bytes 8 e.size
                    ++ (name_bytes e.path
                        ++ (name_bytes e.link
                            ++ (name_bytes e.xattrs ++ digest_bytes e.sha256)))))))

pub Reads-take_entry : (e : Entry) → IsEntry e → IsRecordable e → Reads take_entry (encode e) e
unfolding take_entry
Reads-take_entry e v r = Reads-bind take_kind _ _ _ e.kind e (Reads-take_kind e.kind) (
    Reads-bind take_u32 _ _ _ e.mode e (Reads-take_u32 e.mode v.mode) (
      Reads-bind take_u64 _ _ _ e.mtime e (Reads-take_u64 e.mtime v.mtime) (
        Reads-bind take_u64 _ _ _ e.offset e (Reads-take_u64 e.offset v.offset) (
          Reads-bind take_u64 _ _ _ e.size e (Reads-take_u64 e.size v.size) (
            Reads-bind take_bytes _ _ _ e.path e (Reads-take_bytes e.path r.path) (
              Reads-bind take_bytes _ _ _ e.link e (Reads-take_bytes e.link r.link) (
                Reads-bind take_bytes _ _ _ e.xattrs e (Reads-take_bytes e.xattrs r.xattrs) (
                  Reads-then_pure (take_digest (is_file e.kind)) _ (digest_bytes e.sha256) e.sha256
                    (Reads-take_digest (is_file e.kind) e.sha256 v.hash)))))))))
