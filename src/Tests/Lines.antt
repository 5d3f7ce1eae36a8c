-- ===== src/Tests/Lines.antt =====
-- A value with references, for source/src/cli.rs.
use rules_oci_runtime.Prelude.{
  ◌≡◌, ◌=b◌, Option, none, some, ◌∷◌, ◌++◌, Bytes, if◌then◌else◌, codes, arith,
}
use rules_oci_runtime.Cli.{or_nothing, expand_env}
use rules_oci_runtime.Cli.References.{expand_env-braced}

abbrev pub home : Bytes → Option Bytes
home name = if name =b codes "H" then some (codes "/root") else none

expand_env-braced_example :
    (expand_env home (codes "a" ++ (codes "${" ++ (codes "H" ++ (b'}' ∷ codes "/$H"))))
      ≡ codes "a" ++ (or_nothing (home (codes "H")) ++ expand_env home (codes "/$H")))
    × (expand_env home (codes "a" ++ (codes "${" ++ codes "H"))
        ≡ codes "a" ++ (codes "${" ++ codes "H"))
expand_env-braced_example =
    expand_env-braced home (codes "a") (codes "H") (codes "/$H") (codes "H")
      ((λ e. omega arith), tt) ((λ e. omega arith), tt) ((λ e. omega arith), tt)
