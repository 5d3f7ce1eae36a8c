-- ===== src/Plan/Replay/Owners.antt =====
-- The entries that place the nodes of the tree (`replay` of source/src/extract/plan.rs).
use rules_oci_runtime.Prelude.{◌≡◌, refl, sym, ap, ◌∙◌, false, some, List, Bytes, All}
use mathlib.Core.Option.{some-injective}
use rules_oci_runtime.Entries.{directory, unsupported, code, Entry, Table}
use rules_oci_runtime.OrderedMap.{get}
use rules_oci_runtime.OrderedMap.Sorted.{All-insert, All-remove, All-modify, All-or_insert, All-get}
use rules_oci_runtime.Plan.Tree.{Node, same_kind, entry_at}
use rules_oci_runtime.Plan.Replay.{replay}
use rules_oci_runtime.Plan.Replay.Sorted.{replay-keeps}

-- A path and its node, and the entry that placed it.
pub record Owned (tables : List Table) (x : Bytes × Node) : Type 0 where
  pub entry : Entry
  pub found : entry_at tables x.1.owner ≡ some entry
  pub supported : same_kind x.1.kind unsupported ≡ false
  pub placed : same_kind x.1.kind directory ≡ false → (entry.kind ≡ x.1.kind) × (entry.path ≡ x.0)

pub replay-All-Owned : (tables : List Table) → All (Owned tables) (replay tables).tree
unfolding code
replay-All-Owned tables =
    replay-keeps (λ t. All (Owned tables) t) tables
      (λ l e entry at. record {
        parent = λ a t s.
            All-or_insert (Owned tables) a _ t
              (record { entry = entry; found = at; supported = refl; placed = λ h. cc }) s;
        own = λ t k s.
            All-insert (Owned tables) entry.path _ t
              (record { entry = entry; found = at; supported = k; placed = λ _. (refl, refl) }) s;
        again = λ k t s.
            All-modify (Owned tables) k _ t
              (λ v o. record {
                entry = o.entry;
                found = o.found;
                supported = o.supported;
                placed = o.placed;
              })
              s;
        dropped = λ k t s. All-remove (Owned tables) k t s;
      })
      tt

-- What stands at a path of the tree was placed by an entry of the tables, whose index is in range.
-- What is no directory was placed by an entry of that very path and kind, and nothing
-- unsupported stands anywhere.
pub replay-Owned :
    (tables : List Table) (path : Bytes) (node : Node)
    → get path (replay tables).tree ≡ some node
    → Owned tables (path, node)
replay-Owned tables path node e = All-get (Owned tables) path node _ (replay-All-Owned tables) e

-- One entry places one path at most: two paths that are no directories and have one owner are one.
pub owner-injective :
    (tables : List Table) (p q : Bytes) (m n : Node)
    → get p (replay tables).tree ≡ some m
    → get q (replay tables).tree ≡ some n
    → same_kind m.kind directory ≡ false
    → same_kind n.kind directory ≡ false
    → m.owner ≡ n.owner
    → p ≡ q
owner-injective tables p q m n hp hq dm dn e =
    let a = replay-Owned tables p m hp in
    let b = replay-Owned tables q n hq in
    let same : a.entry ≡ b.entry =
      some-injective a.entry b.entry (sym a.found ∙ ap (entry_at tables) e ∙ b.found) in
    sym (a.placed dm).1 ∙ ap (λ (x : Entry). x.path) same ∙ (b.placed dn).1
