-- ===== src/Entries/Codec.antt =====
-- Reading one entry at a position of a body: `take_entry` and what it is made of.
use rules_oci_runtime.Prelude.{
  ℕ, ◌+◌, ◌-◌, Bool, true, false, ◌&&◌, Option, none, some, Bytes, length, take, drop, get_elem?,
  leb, ◌==◌, if◌then◌else◌, Result, ok, err, ok_or, from_le_bytes,
}
use Prim.Native.String.{String, ◌++◌ as ◌<>◌}
use rules_oci_runtime.Errors.{IoError, other}
use rules_oci_runtime.Entries.{
  Kind, file, directory, symlink, hard_link, sparse, unsupported, is_file, Entry,
}

-- A read at a position of a body: the value and the position behind it. After an error nothing
-- is read on, so the position is then dropped.
abbrev pub Take : Type 0 → Type 0
Take A = Bytes → ℕ → Result IoError (A × ℕ)

abbrev pub and_then :
    {A B : Type 0} → (A → Take B) → Bytes → Result IoError (A × ℕ) → Result IoError (B × ℕ)
and_then f body (ok (a, at)) = f a body at
and_then f body (err e) = err e

infixl 5 ◌>>=◌
unfoldable pub ◌>>=◌ : {A B : Type 0} → Take A → (A → Take B) → Take B
◌>>=◌ m f body at = and_then f body (m body at)

unfoldable pub pure : {A : Type 0} → A → Take A
pure a body at = ok (a, at)

-- A result that reads nothing.
unfoldable pub lift : {A : Type 0} → Result IoError A → Take A
lift (ok a) body at = ok (a, at)
lift (err e) body at = err e

-- `slice::get` with a range
unfoldable pub get_range : Bytes → ℕ → ℕ → Option Bytes
get_range body start end =
    if leb start end && leb end (length body)
    then some (take (end - start) (drop start body))
    else none

unfoldable pub short : String → IoError
short what = other ("entry table ends inside " <> what)

abbrev pub taken {ℓ} : {A : Type ℓ} → String → ℕ → Option A → Result IoError (A × ℕ)
taken what at (some a) = ok (a, at)
taken what at none = err (short what)

-- `body.get(*at..*at + width).ok_or_else(|| short(what))?` with the step of `at` behind it
unfoldable pub take_width : ℕ → String → Take Bytes
take_width width what body at = taken what (at + width) (get_range body at (at + width))

unfoldable pub take_array : Take Bytes
take_array = take_width 32 "a content hash"

unfoldable pub take_u8 : Take ℕ
take_u8 body at = taken "an entry" (at + 1) (get_elem? body at)

unfoldable pub take_u32 : Take ℕ
take_u32 = do bytes ← take_width 4 "an entry"; pure (from_le_bytes bytes)

unfoldable pub take_u64 : Take ℕ
take_u64 = do bytes ← take_width 8 "an entry"; pure (from_le_bytes bytes)

unfoldable pub take_bytes : Take Bytes
take_bytes = do len ← take_width 2 "a name"; take_width (from_le_bytes len) "a name"

-- `Kind::from_code`
unfoldable pub from_code : ℕ → Option Kind
from_code n =
    if n == 0
    then some file
    else if n == 1
    then some directory
    else if n == 2
    then some symlink
    else if n == 3
    then some hard_link
    else if n == 4
    then some unsupported
    else if n == 5
    then some sparse
    else none

unfoldable pub take_kind : Take Kind
unfolding from_code
take_kind = do n ← take_u8; lift (ok_or (from_code n) (other "unknown entry kind"))

unfoldable pub take_digest : Bool → Take (Option Bytes)
take_digest true = do bytes ← take_array; pure (some bytes)
take_digest false = pure none

unfoldable pub take_entry : Take Entry
take_entry = do
  kind ← take_kind
  mode ← take_u32
  mtime ← take_u64
  offset ← take_u64
  size ← take_u64
  path ← take_bytes
  link ← take_bytes
  xattrs ← take_bytes
  sha256 ← take_digest (is_file kind)
  pure (record {
    kind = kind;
    mode = mode;
    mtime = mtime;
    offset = offset;
    size = size;
    path = path;
    link = link;
    xattrs = xattrs;
    sha256 = sha256;
  })
