-- ===== src/Tests/Profiles.antt =====
-- A path with a byte that is no text and a recording of two runs, for source/src/profile.rs.
use rules_oci_runtime.Prelude.{◌≡◌, [], ◌∷◌, Bytes, All, some, arith}
use rules_oci_runtime.Profile.{escape, unescape}
use rules_oci_runtime.Profile.Lines.{IsInLine, unescape-escape}

-- A slash, a new line, a backslash and a byte that begins no character.
abbrev awkward_path : Bytes
awkward_path = 47 ∷ (10 ∷ (92 ∷ (255 ∷ [])))

unescape-escape_example :
    (unescape (escape awkward_path) ≡ some awkward_path) × All IsInLine (escape awkward_path)
unescape-escape_example =
    unescape-escape awkward_path (omega arith, (omega arith, (omega arith, (omega arith, tt))))
