-- ===== src/Entries/Text.antt =====
-- `String::from_utf8`: whether bytes are UTF-8, as the standard defines it. A text is modelled by
-- its bytes.
use rules_oci_runtime.Prelude.{
  ℕ, zero, suc, Bool, true, false, ◌&&◌, Option, none, some, [], ◌∷◌, Bytes, ltb, leb,
  if◌then◌else◌, ◌==◌,
}

-- How many bytes follow a leading byte, and the range of the first of them.
pub record Lead : Type 0 where
  pub valid : Bool
  pub need : ℕ
  pub lo : ℕ
  pub hi : ℕ

lead : ℕ → Lead
lead x =
    if ltb x 0x80
    then record { valid = true; need = 0; lo = 0; hi = 0 }
    else if ltb x 0xc2
    then record { valid = false; need = 0; lo = 0; hi = 0 }
    else if ltb x 0xe0
    then record { valid = true; need = 1; lo = 0x80; hi = 0xbf }
    else if x == 0xe0
    then record { valid = true; need = 2; lo = 0xa0; hi = 0xbf }
    else if x == 0xed
    then record { valid = true; need = 2; lo = 0x80; hi = 0x9f }
    else if ltb x 0xf0
    then record { valid = true; need = 2; lo = 0x80; hi = 0xbf }
    else if x == 0xf0
    then record { valid = true; need = 3; lo = 0x90; hi = 0xbf }
    else if ltb x 0xf4
    then record { valid = true; need = 3; lo = 0x80; hi = 0xbf }
    else record { valid = x == 0xf4; need = 3; lo = 0x80; hi = 0x8f }

utf8_from : ℕ → ℕ → ℕ → Bytes → Bool
utf8_from zero lo hi [] = true
utf8_from (suc n) lo hi [] = false
utf8_from zero lo hi (x ∷ xs) = let l = lead x in l.valid && utf8_from l.need l.lo l.hi xs
utf8_from (suc n) lo hi (x ∷ xs) = leb lo x && leb x hi && utf8_from n 0x80 0xbf xs

unfoldable pub is_utf8 : Bytes → Bool
unfolding lead utf8_from
is_utf8 = utf8_from 0 0 0

unfoldable pub from_utf8 : Bytes → Option Bytes
from_utf8 bytes = if is_utf8 bytes then some bytes else none
