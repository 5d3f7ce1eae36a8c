-- ===== src/Plan/Resolve.antt =====
-- `Plan::resolve`: which entries each layer can skip, and the directories and the work of the
-- image. The log line is not modelled. A layer is known by its digest.
pub mod Linked
pub mod Doomed
pub mod Shadowed
use rules_oci_runtime.Prelude.{
  ℕ, zero, suc, Bool, true, false, not, ◌&&◌, ◌||◌, Option, none, some, List, [], ◌∷◌, ◌++◌, Bytes,
  ◌==◌, ◌=b◌, if◌then◌else◌, get_elem?,
}
use rules_oci_runtime.Fsutil.{is_empty}
use rules_oci_runtime.Whiteout
use rules_oci_runtime.Entries.{Kind, hard_link, Entry, Table, is_file}
use rules_oci_runtime.OrderedMap.{OrderedMap, get, is_some}
use rules_oci_runtime.Plan.Tree.{
  Node, Tree, Blocked, nothing, the_walk_stops_here, through_a_symlink, same_kind, is_nothing,
}
use rules_oci_runtime.Plan.Replay.{Replayed, replay}
use rules_oci_runtime.Plan.Canonicalise.{canonicalise}
use rules_oci_runtime.Plan.Placeable.{Work, placeable}
use rules_oci_runtime.Plan.Directories.{directories}

-- A set of paths.
unfoldable pub contains : Bytes → List Bytes → Bool
contains p [] = false
contains p (q ∷ qs) = p =b q || contains p qs

-- The `shadowed` map: `HashMap::insert` replaces what a digest had.
unfoldable pub lookup : Bytes → List (Bytes × List Bytes) → Option (List Bytes)
lookup digest [] = none
lookup digest ((d, paths) ∷ more) = if digest =b d then some paths else lookup digest more

abbrev pub insert : Bytes → List Bytes → List (Bytes × List Bytes) → List (Bytes × List Bytes)
insert digest paths m = (digest, paths) ∷ m

pub record Plan : Type 0 where
  pub shadowed : List (Bytes × List Bytes)
  pub directories : OrderedMap ℕ
  pub resolved : Bool
  pub work : Option Work
  pub tables : List Table
  pub xattrs : List (ℕ × Bytes × Bytes)

-- `Plan::default()`
abbrev pub empty_plan : Plan
empty_plan = record {
  shadowed = [];
  directories = [];
  resolved = false;
  work = none;
  tables = [];
  xattrs = [];
}

-- The links of the hard links of every table.
unfoldable pub linked_in : List Entry → List Bytes
linked_in [] = []
linked_in (entry ∷ more) =
    let rest = linked_in more in if same_kind entry.kind hard_link then entry.link ∷ rest else rest

unfoldable pub linked : List Table → List Bytes
unfolding linked_in
linked [] = []
linked (table ∷ more) = linked_in table.entries ++ linked more

abbrev pub owned_by : ℕ → Option Node → Bool
owned_by l none = false
owned_by l (some node) = node.owner.0 == l

-- Whether the entry is a body that layer `l` need not place.
unfoldable pub is_doomed : Tree → List Bytes → ℕ → Entry → Bool
unfolding contains
is_doomed tree links l entry =
    (is_file entry.kind && not (is_some (Whiteout.of entry.path)))
    && (not (contains entry.path links) && not (owned_by l (get entry.path tree)))

unfoldable pub doomed_of : Tree → List Bytes → ℕ → List Entry → List Bytes
unfolding is_doomed
doomed_of tree links l [] = []
doomed_of tree links l (entry ∷ more) =
    let rest = doomed_of tree links l more in
    if is_doomed tree links l entry then entry.path ∷ rest else rest

abbrev pub is_nil : List Bytes → Bool
is_nil [] = true
is_nil (x ∷ xs) = false

-- The loop over the tables and their layers' digests, from the layer numbered `l`.
unfoldable pub shadow :
    Tree
    → List Bytes
    → ℕ
    → List Bytes
    → List Table
    → List (Bytes × List Bytes)
    → List (Bytes × List Bytes)
unfolding doomed_of
shadow tree links l [] tables m = m
shadow tree links l (d ∷ digests) [] m = m
shadow tree links l (d ∷ digests) (table ∷ tables) m =
    let doomed = doomed_of tree links l table.entries in
    shadow tree links (suc l) digests tables (if is_nil doomed then m else insert d doomed m)

unfoldable pub xattrs_in : ℕ → List Entry → List (ℕ × Bytes × Bytes)
xattrs_in l [] = []
xattrs_in l (entry ∷ more) =
    let rest = xattrs_in l more in
    if is_empty entry.xattrs then rest else (l, entry.path, entry.xattrs) ∷ rest

unfoldable pub xattrs_of : ℕ → List Table → List (ℕ × Bytes × Bytes)
unfolding xattrs_in
xattrs_of l [] = []
xattrs_of l (table ∷ more) = xattrs_in l table.entries ++ xattrs_of (suc l) more

abbrev pub stops : Blocked → Bool
stops nothing = false
stops through_a_symlink = false
stops the_walk_stops_here = true

-- The body of `resolve` behind the replay.
unfoldable pub planned : List Bytes → List Table → Replayed → Plan
unfolding shadow linked xattrs_of directories placeable
planned digests tables r = if stops r.blocked then empty_plan else record {
  shadowed = shadow r.tree (linked tables) 0 digests tables [];
  directories = directories r.tree;
  resolved = true;
  work = if is_nothing r.blocked then placeable r.tree tables else none;
  tables = tables;
  xattrs = xattrs_of 0 tables;
}

abbrev pub resolve_canonical : List Bytes → Option (List Table) → Plan
resolve_canonical digests none = empty_plan
resolve_canonical digests (some tables) = planned digests tables (replay tables)

unfoldable pub resolve : List Bytes → List Table → Plan
unfolding planned canonicalise replay
resolve digests tables = resolve_canonical digests (canonicalise tables)

abbrev pub in_set : Bytes → Option (List Bytes) → Bool
in_set path none = false
in_set path (some paths) = contains path paths

-- `Plan::is_shadowed`
unfoldable pub is_shadowed : Plan → Bytes → Bytes → Bool
unfolding lookup contains
is_shadowed plan digest path = in_set path (lookup digest plan.shadowed)
