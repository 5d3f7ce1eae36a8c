-- ===== src/Profile/Lines.antt =====
-- Paths as lines of a text (`escape` and `unescape` of source/src/profile.rs).
use rules_oci_runtime.Prelude.{
  ℕ, ◌+◌, ◌*◌, ◌/◌, ◌%◌, ◌<◌, ◌≡◌, ◌≢◌, refl, sym, ap, Bool, true, false, ◌&&◌, Option, some, [],
  ◌∷◌, ◌++◌, Bytes, All, AreBytes, codes, ◌==◌, ==_iff, leb, if◌then◌else◌, arith,
}
use rules_oci_runtime.Entries.Text.{is_utf8}
use rules_oci_runtime.Profile.{
  low_hex, escape_byte, escape_bytes, escape, hex_value, from_str_radix, plain, unescape_from,
  unescape,
}

hex_value-low_hex : (n : ℕ) → n < 16 → hex_value (low_hex n) ≡ some n
hex_value-low_hex n h = ground arith

from_str_radix-low_hex :
    (a b : ℕ) → a < 16 → b < 16 → from_str_radix (low_hex a) (low_hex b) ≡ some (a * 16 + b)
from_str_radix-low_hex a b h k =
    let no_sign : (low_hex a == 0x2b) ≡ false = ground arith in
    rw (no_sign, hex_value-low_hex a h, hex_value-low_hex b k) refl

-- One byte, escaped and read again.
unescape_from-escape_byte :
    (utf8 : Bool) (byte : ℕ) (rest out : Bytes)
    → byte < 256
    → unescape_from plain rest ≡ some out
    → unescape_from plain (escape_byte utf8 byte ++ rest) ≡ some (byte ∷ out)
unfolding escape_byte unescape_from
unescape_from-escape_byte utf8 byte rest out h k =
    go (byte == 0x5c) (byte == 0x0a) (byte == 0x0d) (leb 0x20 byte && leb byte 0x7e)
      (utf8 && leb 0x80 byte) refl refl refl
  where
    kept : (byte == 0x5c) ≡ false → unescape_from plain (byte ∷ rest) ≡ some (byte ∷ out)
    kept e = rw (e, k) refl

    named :
        (b : ℕ) → (byte == b) ≡ true → ◌≡◌ {A = Option Bytes} (some (b ∷ out)) (some (byte ∷ out))
    named b e = ap (λ x. some (x ∷ out)) (sym ((==_iff byte b).0 e))

    go :
        (s n r p u : Bool)
        → (byte == 0x5c) ≡ s
        → (byte == 0x0a) ≡ n
        → (byte == 0x0d) ≡ r
        → unescape_from plain (
            (if s
              then codes "\\\\"
              else if n
              then codes "\\n"
              else if r
              then codes "\\r"
              else if p
              then byte ∷ []
              else if u
              then byte ∷ []
              else 0x5c ∷ (0x78 ∷ (low_hex (byte / 16) ∷ (low_hex (byte % 16) ∷ []))))
            ++ rest)
          ≡ some (byte ∷ out)
    go true n r p u es en er = rw k (named 0x5c es)
    go false true r p u es en er = rw k (named 0x0a en)
    go false false true p u es en er = rw k (named 0x0d er)
    go false false false true u es en er = kept es
    go false false false false true es en er = kept es
    go false false false false false es en er =
        let high : byte / 16 < 16 = omega arith in
        let low : byte % 16 < 16 = omega arith in
        let whole : byte / 16 * 16 + byte % 16 ≡ byte = omega arith in
        rw (from_str_radix-low_hex (byte / 16) (byte % 16) high low, k, whole) refl

unescape_from-escape_bytes :
    (utf8 : Bool) (path : Bytes)
    → AreBytes path
    → unescape_from plain (escape_bytes utf8 path) ≡ some path
unfolding escape_bytes unescape_from
unescape_from-escape_bytes utf8 [] a = refl
unescape_from-escape_bytes utf8 (byte ∷ more) a =
    unescape_from-escape_byte utf8 byte (escape_bytes utf8 more) more a.0
      (unescape_from-escape_bytes utf8 more a.1)

-- A byte that does not end a line.
abbrev pub IsInLine : ℕ → Type 0
IsInLine byte = (byte ≢ 0x0a) × (byte ≢ 0x0d)

low_hex-IsInLine : (n : ℕ) → IsInLine (low_hex n)
low_hex-IsInLine n = (ground arith, ground arith)

escape_byte-IsInLine :
    (utf8 : Bool) (byte : ℕ) (rest : Bytes)
    → All IsInLine rest
    → All IsInLine (escape_byte utf8 byte ++ rest)
unfolding escape_byte
escape_byte-IsInLine utf8 byte rest a =
    go (byte == 0x5c) (byte == 0x0a) (byte == 0x0d) (leb 0x20 byte && leb byte 0x7e)
      (utf8 && leb 0x80 byte) refl refl
  where
    itself : (byte == 0x0a) ≡ false → (byte == 0x0d) ≡ false → IsInLine byte
    itself n r = (ground arith, ground arith)

    go :
        (s n r p u : Bool)
        → (byte == 0x0a) ≡ n
        → (byte == 0x0d) ≡ r
        → All IsInLine (
            (if s
              then codes "\\\\"
              else if n
              then codes "\\n"
              else if r
              then codes "\\r"
              else if p
              then byte ∷ []
              else if u
              then byte ∷ []
              else 0x5c ∷ (0x78 ∷ (low_hex (byte / 16) ∷ (low_hex (byte % 16) ∷ []))))
            ++ rest)
    go true n r p u en er = ((omega arith, omega arith), ((omega arith, omega arith), a))
    go false true r p u en er = ((omega arith, omega arith), ((omega arith, omega arith), a))
    go false false true p u en er = ((omega arith, omega arith), ((omega arith, omega arith), a))
    go false false false true u en er = (itself en er, a)
    go false false false false true en er = (itself en er, a)
    go false false false false false en er = (
      (omega arith, omega arith),
      (
        (omega arith, omega arith),
        (low_hex-IsInLine (byte / 16), (low_hex-IsInLine (byte % 16), a)),
      ),
    )

escape_bytes-IsInLine : (utf8 : Bool) (path : Bytes) → All IsInLine (escape_bytes utf8 path)
unfolding escape_bytes
escape_bytes-IsInLine utf8 [] = tt
escape_bytes-IsInLine utf8 (byte ∷ more) =
    escape_byte-IsInLine utf8 byte (escape_bytes utf8 more) (escape_bytes-IsInLine utf8 more)

-- A path of any bytes is read back from its escaped form, and the escaped form stays on one line.
pub unescape-escape :
    (path : Bytes)
    → AreBytes path
    → (unescape (escape path) ≡ some path) × All IsInLine (escape path)
unfolding unescape escape
unescape-escape path a =
    (unescape_from-escape_bytes (is_utf8 path) path a, escape_bytes-IsInLine (is_utf8 path) path)
