-- ===== src/Tests/Images.antt =====
-- An image of two layers, for the theorems on source/src/extract/plan.rs.
use rules_oci_runtime.Prelude.{
  ℕ, ◌≡◌, ◌↔◌, inl, refl, true, false, none, some, List, [], ◌∷◌, Bytes, All, codes, if◌then◌else◌,
  ◌=b◌,
}
use rules_oci_runtime.Entries.{
  Kind, file, directory, symlink, hard_link, code, is_file, Entry, Table,
}
use rules_oci_runtime.Fsutil.{names_the_root, components, canonical_entry_path}
use rules_oci_runtime.Whiteout.{of}
use rules_oci_runtime.OrderedMap.{get, contains_key, insert, modify, or_insert, remove, range_from}
use rules_oci_runtime.Plan.Key.{lex}
use rules_oci_runtime.Plan.Tree.{
  Tree, Node, same_kind, ancestors, starts_with, names_itself, worst, entry_at, under,
  ensure_parents, behind_a_link, blocked_by, links_somewhere,
}
use rules_oci_runtime.Plan.Removal.{remove_under, whole, lower_layers}
use rules_oci_runtime.Plan.Removal.Order.{IsBeneath}
use rules_oci_runtime.Plan.Removal.Whole.{lies_under, get-remove_under-whole}
use rules_oci_runtime.Plan.Removal.LowerLayers.{get-remove_under_lower, directory_lost}
use rules_oci_runtime.Plan.Replay.{replay}
use rules_oci_runtime.Plan.Replay.Sorted.{replay-IsSorted}
use rules_oci_runtime.Plan.Replay.Owners.{Owned, replay-Owned}
use rules_oci_runtime.Plan.Placeable.{Work, placeable}
use rules_oci_runtime.Plan.Placeable.Kinds.{Accounted}
use rules_oci_runtime.Plan.Placeable.Complete.{placeable-Accounted}
use rules_oci_runtime.Plan.Canonicalise.{canonicalise, AllCanonical, canonicalise-AllCanonical}
use rules_oci_runtime.Plan.Directories.{directories}
use rules_oci_runtime.Plan.Directories.Parents.{directories_parents}
use rules_oci_runtime.Plan.Resolve.{
  is_nil, planned, is_shadowed, is_doomed, linked, doomed_of, stops,
}
use rules_oci_runtime.Plan.Resolve.Doomed.{dooms, contains_nil-dooms, IsReplaced, dooms_iff}
use rules_oci_runtime.Plan.Resolve.Shadowed.{is_shadowed_iff, is_shadowed_repeated}

abbrev pub an_entry : Kind → Bytes → Bytes → ℕ → Entry
an_entry kind path link offset = record {
  kind = kind;
  mode = 0o644;
  mtime = 0;
  offset = offset;
  size = 1;
  path = path;
  link = link;
  xattrs = [];
  sha256 = some [];
}

abbrev pub lower_table : Table
lower_table = record {
  layer = codes "one";
  entries =
      an_entry directory (codes "a") [] 0
      ∷ (an_entry file (codes "a/b") [] 512 ∷ (an_entry symlink (codes "l") (codes "a/b") 0 ∷ []));
}

abbrev pub upper_table : Table
upper_table = record {
  layer = codes "two";
  entries =
      an_entry file (codes "a/c") [] 512 ∷ (an_entry hard_link (codes "h") (codes "a/b") 0 ∷ []);
}

abbrev pub two_layers : List Table
two_layers = lower_table ∷ (upper_table ∷ [])

abbrev pub two_layers_work : Work
two_layers_work = record {
  files = (1 ∷ []) ∷ ((0 ∷ []) ∷ []);
  symlinks = (0, 2) ∷ [];
  hard_links = (1, 1) ∷ [];
}

two_layers-placeable : placeable (replay two_layers).tree two_layers ≡ some two_layers_work
unfolding placeable replay ◌=b◌ remove_under range_from modify or_insert remove worst of entry_at
    under ensure_parents behind_a_link blocked_by lex canonical_entry_path insert get code
    links_somewhere
two_layers-placeable = refl

placeable-Accounted_example :
    All (Accounted (replay two_layers).tree two_layers two_layers_work) (replay two_layers).tree
placeable-Accounted_example = placeable-Accounted two_layers two_layers_work two_layers-placeable

abbrev pub replay_two : Tree
replay_two = (replay two_layers).tree

abbrev pub a_directory : Node
a_directory = record { kind = directory; owner = (0, 0); mode = 0o644; named_by = some 0 }

abbrev pub a_file : Node
a_file = record { kind = file; owner = (0, 1); mode = 0o644; named_by = some 0 }

abbrev pub a_link : Node
a_link = record { kind = symlink; owner = (0, 2); mode = 0o644; named_by = some 0 }

get-a : get (codes "a") replay_two ≡ some a_directory
unfolding placeable replay ◌=b◌ remove_under range_from modify or_insert remove worst of entry_at
    under ensure_parents behind_a_link blocked_by lex canonical_entry_path insert get code
    links_somewhere
get-a = refl

get-a_b : get (codes "a/b") replay_two ≡ some a_file
unfolding placeable replay ◌=b◌ remove_under range_from modify or_insert remove worst of entry_at
    under ensure_parents behind_a_link blocked_by lex canonical_entry_path insert get code
    links_somewhere
get-a_b = refl

behind_a_link-a : behind_a_link replay_two (codes "a") ≡ false
unfolding placeable replay ◌=b◌ remove_under range_from modify or_insert remove worst of entry_at
    under ensure_parents behind_a_link blocked_by lex canonical_entry_path insert get code
    links_somewhere
behind_a_link-a = refl

canonicalise-two : canonicalise two_layers ≡ some two_layers
unfolding placeable replay ◌=b◌ remove_under range_from modify or_insert remove worst of entry_at
    under ensure_parents behind_a_link blocked_by lex canonical_entry_path insert get code
    links_somewhere canonicalise names_the_root components
canonicalise-two = refl

-- Clearing `a` drops `a/b`.
get-remove_under-whole_example :
    (get (codes "a/b") (remove_under replay_two (codes "a") whole)
      ≡ (if lies_under (codes "a") (codes "a/b") then none else get (codes "a/b") replay_two))
    × ((lies_under (codes "a") (codes "a/b") ≡ true) ↔ IsBeneath (codes "a") (codes "a/b"))
get-remove_under-whole_example =
    get-remove_under-whole replay_two (codes "a") (codes "a/b") (replay-IsSorted two_layers)

get-remove_under_lower_example :
    get (codes "a/b") (remove_under replay_two (codes "a") (lower_layers 0)) ≡ some a_file
get-remove_under_lower_example =
    get-remove_under_lower replay_two (codes "a") (codes "a/b") 0 a_file
      (replay-IsSorted two_layers) get-a_b (inl refl)

replay-Owned_example : Owned two_layers (codes "a/b", a_file)
replay-Owned_example = replay-Owned two_layers (codes "a/b") a_file get-a_b

canonicalise-AllCanonical_example : AllCanonical two_layers two_layers
canonicalise-AllCanonical_example = canonicalise-AllCanonical two_layers two_layers canonicalise-two

directories_parents_example :
    All (λ a. contains_key a (directories replay_two) ≡ true) (ancestors (codes "a"))
    × (same_kind a_directory.kind directory ≡ true
        → contains_key (codes "a") (directories replay_two) ≡ true)
directories_parents_example =
    directories_parents replay_two (codes "a") a_directory get-a behind_a_link-a

-- A file that the layer above places again.
abbrev pub replacing_table : Table
replacing_table = record { layer = codes "two"; entries = an_entry file (codes "a/b") [] 512 ∷ [] }

abbrev pub replaced : List Table
replaced = lower_table ∷ (replacing_table ∷ [])

replaced-goes_on : stops (replay replaced).blocked ≡ false
unfolding placeable replay ◌=b◌ remove_under range_from modify or_insert remove worst of entry_at
    under ensure_parents behind_a_link blocked_by lex canonical_entry_path insert get code
    links_somewhere
replaced-goes_on = refl

lower-dooms :
    dooms (replay replaced).tree (linked replaced) 0 (codes "a/b") lower_table.entries ≡ true
unfolding placeable replay ◌=b◌ remove_under range_from modify or_insert remove worst of entry_at
    under ensure_parents behind_a_link blocked_by lex canonical_entry_path insert get code
    links_somewhere linked is_doomed is_file
lower-dooms = refl

upper-dooms_nothing :
    is_nil (doomed_of (replay replaced).tree (linked replaced) 1 replacing_table.entries) ≡ true
unfolding placeable replay ◌=b◌ remove_under range_from modify or_insert remove worst of entry_at
    under ensure_parents behind_a_link blocked_by lex canonical_entry_path insert get code
    links_somewhere linked is_doomed is_file doomed_of
upper-dooms_nothing = refl

is_shadowed_iff_example :
    (is_shadowed
        (planned (codes "one" ∷ (codes "two" ∷ [])) replaced (replay replaced))
        (codes "one")
        (codes "a/b")
      ≡ true)
    ↔ IsReplaced (replay replaced).tree replaced 0 (codes "a/b") lower_table.entries
unfolding ◌=b◌
is_shadowed_iff_example =
    is_shadowed_iff [] (codes "two" ∷ []) (codes "one") (codes "a/b") [] (replacing_table ∷ [])
      lower_table (replay replaced) refl tt (refl, tt) replaced-goes_on

lower-IsReplaced : IsReplaced (replay replaced).tree replaced 0 (codes "a/b") lower_table.entries
lower-IsReplaced =
    (dooms_iff (replay replaced).tree replaced 0 (codes "a/b") lower_table.entries).0 lower-dooms

upper-not_IsReplaced :
    (p : Bytes) → ¬ IsReplaced (replay replaced).tree replaced 1 p replacing_table.entries
upper-not_IsReplaced p held = cc (
  (dooms_iff (replay replaced).tree replaced 1 p replacing_table.entries).1 held,
  contains_nil-dooms (replay replaced).tree (linked replaced) 1 p replacing_table.entries
      upper-dooms_nothing,
)

is_shadowed_repeated_example :
    is_shadowed
      (planned (codes "one" ∷ (codes "one" ∷ [])) replaced (replay replaced))
      (codes "one")
      (codes "a/b")
    ≡ true
is_shadowed_repeated_example =
    is_shadowed_repeated [] [] [] (codes "one") (codes "a/b") [] [] [] lower_table replacing_table
      (replay replaced) refl refl tt tt replaced-goes_on lower-IsReplaced upper-not_IsReplaced

-- `a` was there before, and the layer of the marker named `a-` and `a/x`.
abbrev pub newer : Node
newer = record { kind = file; owner = (1, 0); mode = 0o644; named_by = some 1 }

abbrev pub beside_and_within : Tree
beside_and_within = (codes "a", a_directory) ∷ ((codes "a-", newer) ∷ ((codes "a/x", newer) ∷ []))

directory_lost_example :
    (get (codes "a") (remove_under beside_and_within [] (lower_layers 1)) ≡ none)
    × (get (codes "a/x") (remove_under beside_and_within [] (lower_layers 1)) ≡ some newer)
unfolding ◌=b◌ lies_under starts_with names_itself get lex
directory_lost_example =
    directory_lost beside_and_within [] (codes "a") (codes "a-") (codes "x") 1 a_directory newer
      newer ((refl, (refl, tt)), ((refl, tt), (tt, tt))) (inl (refl, refl)) refl refl refl refl refl
      refl refl
