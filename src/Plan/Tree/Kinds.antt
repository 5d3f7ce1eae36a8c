-- ===== src/Plan/Tree/Kinds.antt =====
-- What `same_kind` tells of two kinds (`==` on `Kind` of source/src/extract/entries.rs).
use rules_oci_runtime.Prelude.{◌≡◌, ◌↔◌, sym, ap, ◌∙◌, true, ==_iff}
use mathlib.Core.Option.{some-injective}
use rules_oci_runtime.Entries.{Kind, code}
use rules_oci_runtime.Entries.Codec.{from_code}
use rules_oci_runtime.Entries.Reads.{from_code-code}
use rules_oci_runtime.Plan.Tree.{same_kind}

pub same_kind_iff : (a b : Kind) → (same_kind a b ≡ true) ↔ (a ≡ b)
same_kind_iff a b = (
  λ h.
      some-injective a b (
        sym (from_code-code a)
        ∙ (ap from_code ((==_iff (code a) (code b)).0 h) ∙ from_code-code b)),
  λ e. (==_iff (code a) (code b)).1 (ap code e),
)
