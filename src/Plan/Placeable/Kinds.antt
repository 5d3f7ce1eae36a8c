-- ===== src/Plan/Placeable/Kinds.antt =====
-- The rounds of the loop of `placeable` (source/src/extract/plan.rs), by kind.
use rules_oci_runtime.Prelude.{
  ℕ, ◌<◌, ◌≡◌, refl, ◌∙◌, Bool, true, false, Option, none, some, List, [], ◌∷◌, ◌++◌, Bytes,
  if◌then◌else◌, All, length,
}
use mathlib.Core.Option.{some-injective}
use mathlib.Core.Path.{subst}
use rules_oci_runtime.Entries.{
  Kind, file, directory, symlink, hard_link, sparse, unsupported, Table,
}
use rules_oci_runtime.OrderedMap.{get}
use rules_oci_runtime.Plan.Tree.{Tree, Node, behind_a_link, entry_at, link_of}
use rules_oci_runtime.Plan.Placeable.{
  Work, push_at, link_stands, place_hard_link, place_kind, place_node, place_nodes, and_then,
}
use rules_oci_runtime.Plan.Placeable.Members.{
  IsPlaced, link_stands-Stands, Among-append_left, Among-append_last, FileIn-push_at_self,
  FileIn-push_at, length-push_at,
}

-- What a round adds to, and what it leaves.
pub record Grows (tree : Tree) (tables : List Table) (before after : Work) : Type 0 where
  pub kept :
      (k : Kind) (owner : ℕ × ℕ)
      → IsPlaced tree tables before k owner
      → IsPlaced tree tables after k owner
  pub layers : length after.files ≡ length before.files

module _ (tree : Tree) (tables : List Table) where
  Grows-refl : (w : Work) → Grows tree tables w w
  Grows-refl w = record { kept = λ k o p. p; layers = refl }

  Grows-files :
      (w : Work) (l e : ℕ) → Grows tree tables w (record w { files = push_at l e w.files })
  Grows-files w l e = record { kept = kept; layers = length-push_at l e w.files }
    where
      kept :
          (k : Kind) (o : ℕ × ℕ)
          → IsPlaced tree tables w k o
          → IsPlaced tree tables (record w { files = push_at l e w.files }) k o
      kept file o p = FileIn-push_at o.0 o.1 l e w.files p
      kept directory o p = p
      kept symlink o p = p
      kept hard_link o p = p
      kept sparse o p = p
      kept unsupported o p = p

  Grows-symlinks :
      (w : Work) (owner : ℕ × ℕ)
      → Grows tree tables w (record w { symlinks = w.symlinks ++ (owner ∷ []) })
  Grows-symlinks w owner = record { kept = kept; layers = refl }
    where
      kept :
          (k : Kind) (o : ℕ × ℕ)
          → IsPlaced tree tables w k o
          → IsPlaced tree tables (record w { symlinks = w.symlinks ++ (owner ∷ []) }) k o
      kept symlink o p = Among-append_left o w.symlinks (owner ∷ []) p
      kept file o p = p
      kept directory o p = p
      kept hard_link o p = p
      kept sparse o p = p
      kept unsupported o p = p

  Grows-hard_links :
      (w : Work) (owner : ℕ × ℕ)
      → Grows tree tables w (record w { hard_links = w.hard_links ++ (owner ∷ []) })
  Grows-hard_links w owner = record { kept = kept; layers = refl }
    where
      kept :
          (k : Kind) (o : ℕ × ℕ)
          → IsPlaced tree tables w k o
          → IsPlaced tree tables (record w { hard_links = w.hard_links ++ (owner ∷ []) }) k o
      kept hard_link o p = (Among-append_left o w.hard_links (owner ∷ []) p.0, p.1)
      kept file o p = p
      kept directory o p = p
      kept symlink o p = p
      kept sparse o p = p
      kept unsupported o p = p

  hard_link-IsPlaced :
      (owner : ℕ × ℕ) (w w' : Work)
      → place_hard_link tree tables owner w ≡ some w'
      → IsPlaced tree tables w' hard_link owner × Grows tree tables w w'
  hard_link-IsPlaced owner w w' h =
      go
        (link_stands tree (link_of (entry_at tables owner)) owner
          (get (link_of (entry_at tables owner)) tree))
        refl h
    where
      go :
          (b : Bool)
          → link_stands tree
              (link_of (entry_at tables owner))
              owner
              (get (link_of (entry_at tables owner)) tree)
            ≡ b
          → (if b then some (record w { hard_links = w.hard_links ++ (owner ∷ []) }) else none)
            ≡ some w'
          → IsPlaced tree tables w' hard_link owner × Grows tree tables w w'
      go false e k = cc
      go true e k =
          subst (λ x. IsPlaced tree tables x hard_link owner × Grows tree tables w x)
            (some-injective _ w' k)
            (
              (Among-append_last owner w.hard_links, link_stands-Stands tree _ owner _ refl e),
              Grows-hard_links w owner,
            )

  place_kind-IsPlaced :
      (k : Kind) (owner : ℕ × ℕ) (w w' : Work)
      → owner.0 < length w.files
      → place_kind k tree tables owner w ≡ some w'
      → IsPlaced tree tables w' k owner × Grows tree tables w w'
  place_kind-IsPlaced file owner w w' r h =
      subst (λ x. IsPlaced tree tables x file owner × Grows tree tables w x) (some-injective _ w' h)
        (FileIn-push_at_self owner.0 owner.1 w.files r, Grows-files w owner.0 owner.1)
  place_kind-IsPlaced symlink owner w w' r h =
      subst (λ x. IsPlaced tree tables x symlink owner × Grows tree tables w x)
        (some-injective _ w' h) (Among-append_last owner w.symlinks, Grows-symlinks w owner)
  place_kind-IsPlaced hard_link owner w w' r h = hard_link-IsPlaced owner w w' h
  place_kind-IsPlaced sparse owner w w' r h = cc
  place_kind-IsPlaced directory owner w w' r h =
      subst (λ x. Unit {0} × Grows tree tables w x) (some-injective w w' h) (tt, Grows-refl w)
  place_kind-IsPlaced unsupported owner w w' r h =
      subst (λ x. Unit {0} × Grows tree tables w x) (some-injective w w' h) (tt, Grows-refl w)

  -- A path, its node and the work that has been made.
  abbrev pub Accounted : Work → Bytes × Node → Type 0
  Accounted w x = (behind_a_link tree x.0 ≡ false) × IsPlaced tree tables w x.1.kind x.1.owner

  place_node-Accounted :
      (path : Bytes) (node : Node) (w w' : Work)
      → node.owner.0 < length w.files
      → place_node tree tables path node w ≡ some w'
      → Accounted w' (path, node) × Grows tree tables w w'
  unfolding place_node
  place_node-Accounted path node w w' r h = go (behind_a_link tree path) refl h
    where
      go :
          (b : Bool)
          → behind_a_link tree path ≡ b
          → (if b then none else place_kind node.kind tree tables node.owner w) ≡ some w'
          → Accounted w' (path, node) × Grows tree tables w w'
      go true e k = cc
      go false e k = let f = place_kind-IsPlaced node.kind node.owner w w' r k in ((e, f.0), f.1)

  pub place_nodes-Accounted :
      (m : Tree) (w w' : Work)
      → All (λ x. x.1.owner.0 < length w.files) m
      → place_nodes tree tables m w ≡ some w'
      → All (Accounted w') m × Grows tree tables w w'
  unfolding place_nodes
  place_nodes-Accounted [] w w' r h =
      subst (λ x. Unit {0} × Grows tree tables w x) (some-injective w w' h) (tt, Grows-refl w)
  place_nodes-Accounted ((path, node) ∷ m) w w' r h =
      go (place_node tree tables path node w) refl h (λ v. place_nodes-Accounted m v w')
    where
      in_range :
          (v : Work) (n : Tree)
          → length v.files ≡ length w.files
          → All (λ x. x.1.owner.0 < length w.files) n
          → All (λ x. x.1.owner.0 < length v.files) n
      in_range v [] e a = tt
      in_range v (x ∷ n) e a = (rw e a.0, in_range v n e a.1)

      go :
          (o : Option Work)
          → place_node tree tables path node w ≡ o
          → and_then o (place_nodes tree tables m) ≡ some w'
          → ((v : Work)
              → All (λ x. x.1.owner.0 < length v.files) m
              → place_nodes tree tables m v ≡ some w'
              → All (Accounted w') m × Grows tree tables v w')
          → All (Accounted w') ((path, node) ∷ m) × Grows tree tables w w'
      go none e k ih = cc
      go (some v) e k ih =
          let f = place_node-Accounted path node w v r.0 e in
          let g = ih v (in_range v m f.1.layers r.1) k in
          (
            ((f.0.0, g.1.kept node.kind node.owner f.0.1), g.0),
            record {
              kept = λ k o p. g.1.kept k o (f.1.kept k o p);
              layers = g.1.layers ∙ f.1.layers;
            },
          )
