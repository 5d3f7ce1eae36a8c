-- ===== src/Profile.antt =====
-- The recordings of source/src/profile.rs: what a container read, merged over its runs, and how a path
-- is written as one line of a text.
pub mod Lines
pub mod Merged
use rules_oci_runtime.Prelude.{
  ℕ, zero, suc, ◌+◌, ◌-◌, ◌*◌, ◌/◌, ◌%◌, Bool, true, false, not, ◌&&◌, ◌||◌, Option, none, some,
  List, [], ◌∷◌, ◌++◌, Bytes, codes, ◌==◌, ◌=b◌, ltb, leb, if◌then◌else◌,
}
use rules_oci_runtime.Entries.Text.{is_utf8}
use rules_oci_runtime.OrderedMap.{OrderedMap, get, insert, is_lt}
use rules_oci_runtime.Plan.Key.{lex}
use rules_oci_runtime.Plan.Placeable.{sort}
use rules_oci_runtime.Plan.Tree.{root_entry}

-- `Entry` of the source.
pub record Recording : Type 0 where
  pub hits : ℕ
  pub rank : ℕ

pub record Profile : Type 0 where
  pub platform : Bytes
  pub image : Bytes
  pub runs : ℕ
  pub entries : OrderedMap Recording

-- `and_modify(...).or_insert(...)`
abbrev pub seen_at : ℕ → Option Recording → Recording
seen_at index none = record { hits = 1; rank = index }
seen_at index (some entry) = record {
  hits = entry.hits + 1;
  rank = (entry.rank * entry.hits + index) / (entry.hits + 1);
}

-- The loop of `merge_run`, from the path numbered `index`.
unfoldable pub merge_paths : ℕ → List Bytes → OrderedMap Recording → OrderedMap Recording
unfolding insert get
merge_paths index [] entries = entries
merge_paths index (path ∷ more) entries =
    merge_paths (suc index) more (insert path (seen_at index (get path entries)) entries)

-- `Profile::merge_run`
unfoldable pub merge_run : Bytes → List Bytes → Profile → Profile
unfolding merge_paths
merge_run image order profile = record profile {
  image = image;
  runs = profile.runs + 1;
  entries = merge_paths 0 order profile.entries;
}

-- The order of `ordered`: by rank, then by path.
abbrev pub fetched_before : Bytes × Recording → Bytes × Recording → Bool
fetched_before (p, a) (q, b) = ltb a.rank b.rank || (a.rank == b.rank && is_lt (lex p q))

abbrev pub paths_of : List (Bytes × Recording) → List Bytes
paths_of [] = []
paths_of ((path, entry) ∷ more) = path ∷ paths_of more

-- `Profile::ordered`
unfoldable pub ordered : Profile → List Bytes
unfolding sort lex
ordered profile = paths_of (sort fetched_before profile.entries)

abbrev pub rest_or_root : Bytes → Bytes
rest_or_root [] = root_entry
rest_or_root (byte ∷ rest) = byte ∷ rest

unfoldable pub to_entry_path : Bytes → Bytes
to_entry_path [] = []
to_entry_path (byte ∷ rest) = if byte == 0x2f then rest_or_root rest else byte ∷ rest

unfoldable pub from_entry_path : Bytes → Bytes
unfolding ◌=b◌
from_entry_path path = if path =b root_entry then codes "/" else 0x2f ∷ path

-- A digit of `{byte:02x}`.
abbrev pub low_hex : ℕ → ℕ
low_hex n = if ltb n 10 then 48 + n else 87 + n

-- What `escape` writes for one byte, where `utf8` says whether the whole path is a text.
unfoldable pub escape_byte : Bool → ℕ → Bytes
escape_byte utf8 byte =
    if byte == 0x5c
    then codes "\\\\"
    else if byte == 0x0a
    then codes "\\n"
    else if byte == 0x0d
    then codes "\\r"
    else if leb 0x20 byte && leb byte 0x7e
    then byte ∷ []
    else if utf8 && leb 0x80 byte
    then byte ∷ []
    else 0x5c ∷ (0x78 ∷ (low_hex (byte / 16) ∷ (low_hex (byte % 16) ∷ [])))

unfoldable pub escape_bytes : Bool → Bytes → Bytes
unfolding escape_byte
escape_bytes utf8 [] = []
escape_bytes utf8 (byte ∷ more) = escape_byte utf8 byte ++ escape_bytes utf8 more

unfoldable pub escape : Bytes → Bytes
unfolding escape_bytes
escape path = escape_bytes (is_utf8 path) path

-- A digit of either case, as `u8::from_str_radix` reads it.
abbrev pub hex_value : ℕ → Option ℕ
hex_value c =
    if leb 48 c && leb c 57
    then some (c - 48)
    else if leb 97 c && leb c 102
    then some (c - 87)
    else if leb 65 c && leb c 70
    then some (c - 55)
    else none

abbrev pub two_digits : Option ℕ → Option ℕ → Option ℕ
two_digits (some a) (some b) = some (a * 16 + b)
two_digits (some a) none = none
two_digits none b = none

-- `u8::from_str_radix` on two bytes: a plus sign may stand before the digits.
abbrev pub from_str_radix : ℕ → ℕ → Option ℕ
from_str_radix a b = if a == 0x2b then hex_value b else two_digits (hex_value a) (hex_value b)

abbrev pub cons_byte : Option ℕ → Option Bytes → Option Bytes
cons_byte none rest = none
cons_byte (some byte) none = none
cons_byte (some byte) (some rest) = some (byte ∷ rest)

-- What `unescape` has read of an escape.
pub data Pending : Type 0 where
  plain backslash hex : Pending
  hex_then : ℕ → Pending

-- The loop of `unescape` over the bytes of the line.
unfoldable pub unescape_from : Pending → Bytes → Option Bytes
unescape_from plain [] = some []
unescape_from backslash [] = none
unescape_from hex [] = none
unescape_from (hex_then a) [] = none
unescape_from plain (byte ∷ more) =
    let kept = unescape_from plain more in
    let escaped = unescape_from backslash more in
    if byte == 0x5c then escaped else cons_byte (some byte) kept
unescape_from backslash (byte ∷ more) =
    let kept = unescape_from plain more in
    let digits = unescape_from hex more in
    if byte == 0x5c
    then cons_byte (some 0x5c) kept
    else if byte == 0x6e
    then cons_byte (some 0x0a) kept
    else if byte == 0x72
    then cons_byte (some 0x0d) kept
    else if byte == 0x78
    then digits
    else none
unescape_from hex (byte ∷ more) = unescape_from (hex_then byte) more
unescape_from (hex_then a) (byte ∷ more) =
    cons_byte (from_str_radix a byte) (unescape_from plain more)

unfoldable pub unescape : Bytes → Option Bytes
unfolding unescape_from
unescape line = unescape_from plain line
