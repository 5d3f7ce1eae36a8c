-- ===== src/Plan/Replay.antt =====
-- `replay`: every layer in order, entry for entry, into the tree that they build.
pub mod Sorted
pub mod Owners
use rules_oci_runtime.Prelude.{
  ℕ, suc, Bool, true, false, not, ◌&&◌, ◌||◌, Option, none, some, List, [], ◌∷◌, Bytes, ◌=b◌,
  if◌then◌else◌,
}
use rules_oci_runtime.Whiteout
use rules_oci_runtime.Whiteout.{Whiteout, opaque, named, invalid}
use rules_oci_runtime.Entries.{
  Kind, file, directory, symlink, hard_link, sparse, unsupported, Entry, Table,
}
use rules_oci_runtime.OrderedMap.{get, insert, remove, modify}
use rules_oci_runtime.Plan.Tree.{
  Node, Tree, Blocked, nothing, through_a_symlink, the_walk_stops_here, worst, same_kind, under,
  links_somewhere, ensure_parents, resolves_to_a_directory,
}
use rules_oci_runtime.Plan.Removal.{whole, lower_layers, is_layer, remove_under}

-- What the replay has come to.
pub record Replayed : Type 0 where
  pub tree : Tree
  pub blocked : Blocked

-- `at.named_by = Some(l)`
abbrev pub name_again : ℕ → Node → Node
name_again l node = record node { named_by = some l }

abbrev pub node_of : ℕ → ℕ → Entry → Node
node_of l e entry = record {
  kind = entry.kind;
  owner = (l, e);
  mode = entry.mode;
  named_by = some l;
}

-- Whether the node standing at the path is a symlink, and then what it resolves to.
abbrev pub standing_link : Tree → List Table → Bytes → Option Node → Option (Option Bool)
standing_link tree tables path none = none
standing_link tree tables path (some at) =
    if same_kind at.kind symlink then some (resolves_to_a_directory tree tables path at) else none

abbrev pub settle_directory : Tree → Blocked → Bytes → Node → ℕ → Option (Option Bool) → Replayed
settle_directory tree blocked path node l none = record {
  tree = insert path node tree;
  blocked = blocked;
}
settle_directory tree blocked path node l (some (some false)) = record {
  tree = insert path node tree;
  blocked = blocked;
}
settle_directory tree blocked path node l (some (some true)) = record {
  tree = modify path (name_again l) tree;
  blocked = blocked;
}
settle_directory tree blocked path node l (some none) = record {
  tree = modify path (name_again l) tree;
  blocked = worst blocked through_a_symlink;
}

-- The `Kind::Directory` arm.
unfoldable pub place_directory : Tree → Blocked → List Table → ℕ → ℕ → Entry → Replayed
place_directory tree blocked tables l e entry =
    let tree₁ = ensure_parents tree entry.path (l, e) in
    settle_directory tree₁ blocked entry.path (node_of l e entry) l
      (standing_link tree₁ tables entry.path (get entry.path tree₁))

-- The arm of every other kind that is placed.
unfoldable pub place_other : Tree → Blocked → ℕ → ℕ → Entry → Replayed
place_other tree blocked l e entry =
    let tree₁ = ensure_parents tree entry.path (l, e) in
    record {
      tree =
          if same_kind entry.kind hard_link && entry.link =b entry.path
          then modify entry.path (name_again l) tree₁
          else insert entry.path (node_of l e entry) (remove_under tree₁ entry.path whole);
      blocked = blocked;
    }

abbrev pub place_kind : Kind → Tree → Blocked → List Table → ℕ → ℕ → Entry → Replayed
place_kind unsupported tree blocked tables l e entry = record { tree = tree; blocked = blocked }
place_kind directory tree blocked tables l e entry = place_directory tree blocked tables l e entry
place_kind _ tree blocked tables l e entry = place_other tree blocked l e entry

-- The arm of an entry that is not a marker, or a marker that names nothing.
unfoldable pub place : Tree → Blocked → List Table → ℕ → ℕ → Entry → Replayed
unfolding place_directory place_other
place tree blocked tables l e entry =
    place_kind entry.kind tree (worst blocked (links_somewhere tree tables entry)) tables l e entry

abbrev pub ours : Option Node → ℕ → Bool
ours none l = false
ours (some node) l = is_layer node.named_by l

unfoldable pub hide : Tree → Bytes → ℕ → Tree
hide tree target l =
    if ours (get target tree) l then tree else remove_under (remove target tree) target whole

abbrev pub replay_marker : Option Whiteout → Tree → Blocked → List Table → ℕ → ℕ → Entry → Replayed
replay_marker (some (opaque dir)) tree blocked tables l e entry = record {
  tree = remove_under tree dir (lower_layers l);
  blocked = blocked;
}
replay_marker (some (named target)) tree blocked tables l e entry = record {
  tree = hide tree target l;
  blocked = blocked;
}
replay_marker (some invalid) tree blocked tables l e entry =
    place tree the_walk_stops_here tables l e entry
replay_marker none tree blocked tables l e entry = place tree blocked tables l e entry

-- One entry.
unfoldable pub replay_entry : List Table → ℕ → ℕ → Entry → Replayed → Replayed
unfolding place hide
replay_entry tables l e entry s =
    replay_marker (Whiteout.of entry.path) s.tree (worst s.blocked (under s.tree tables entry.path))
      tables l e entry

-- The entries of layer `l`, from the one numbered `e`.
unfoldable pub replay_entries : List Table → ℕ → ℕ → List Entry → Replayed → Replayed
unfolding replay_entry
replay_entries tables l e [] s = s
replay_entries tables l e (entry ∷ more) s =
    replay_entries tables l (suc e) more (replay_entry tables l e entry s)

-- The layers from the one numbered `l`.
unfoldable pub replay_layers : List Table → ℕ → List Table → Replayed → Replayed
unfolding replay_entries
replay_layers tables l [] s = s
replay_layers tables l (table ∷ more) s =
    replay_layers tables (suc l) more (replay_entries tables l 0 table.entries s)

unfoldable pub replay : List Table → Replayed
unfolding replay_layers
replay tables = replay_layers tables 0 tables (record { tree = []; blocked = nothing })
