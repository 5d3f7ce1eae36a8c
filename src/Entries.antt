-- ===== src/Entries.antt =====
-- The entry tables of source/src/entries.rs: what a layer's tar stream contains and where.
pub mod Codec
pub mod Text
pub mod Write
pub mod Reads
pub mod Framed
pub mod TableCodec
pub mod RoundTrip
use rules_oci_runtime.Prelude.{
  ℕ, ◌*◌, Bool, true, false, Option, none, some, List, [], ◌∷◌, Bytes, codes,
}

-- `MAX_ENTRIES`, 8 << 20.
abbrev pub max_entries : ℕ
max_entries = 8388608

abbrev pub magic : Bytes
magic = codes "OTE3"

pub data Kind : Type 0 where
  file directory symlink hard_link sparse unsupported : Kind

-- `Kind::code`
unfoldable pub code : Kind → ℕ
code file = 0
code directory = 1
code symlink = 2
code hard_link = 3
code unsupported = 4
code sparse = 5

unfoldable pub is_file : Kind → Bool
is_file file = true
is_file sparse = true
is_file _ = false

pub record Entry : Type 0 where
  pub kind : Kind
  pub mode : ℕ
  pub mtime : ℕ
  pub offset : ℕ
  pub size : ℕ
  pub path : Bytes
  pub link : Bytes
  pub xattrs : Bytes
  pub sha256 : Option Bytes

pub record Table : Type 0 where
  pub layer : Bytes
  pub entries : List Entry
