-- ===== src/Plan/Placeable.antt =====
-- `placeable`: the surviving entries, grouped the way they are placed.
pub mod Members
pub mod Kinds
pub mod Complete
use rules_oci_runtime.Prelude.{
  ℕ, zero, suc, Bool, true, false, not, ◌&&◌, ◌||◌, Option, none, some, List, [], ◌∷◌, ◌++◌, Bytes,
  ◌==◌, ltb, leb, if◌then◌else◌, map,
}
use rules_oci_runtime.Entries.{
  Kind, file, directory, symlink, hard_link, sparse, unsupported, Entry, Table,
}
use rules_oci_runtime.OrderedMap.{get}
use rules_oci_runtime.Plan.Tree.{Node, Tree, behind_a_link, entry_at, link_of}

pub record Work : Type 0 where
  pub files : List (List ℕ)
  pub symlinks : List (ℕ × ℕ)
  pub hard_links : List (ℕ × ℕ)

-- `<` on pairs of indices
unfoldable pub pair_lt : ℕ × ℕ → ℕ × ℕ → Bool
pair_lt (a, b) (c, d) = ltb a c || (a == c && ltb b d)

-- `files[layer].push(entry)`
unfoldable pub push_at : ℕ → ℕ → List (List ℕ) → List (List ℕ)
push_at layer entry [] = []
push_at zero entry (files ∷ more) = (files ++ (entry ∷ [])) ∷ more
push_at (suc layer) entry (files ∷ more) = files ∷ push_at layer entry more

-- The hard link arm: the target stands in the tree, behind no link, and was not placed later.
abbrev pub link_stands : Tree → Bytes → ℕ × ℕ → Option Node → Bool
link_stands tree target owner none = false
link_stands tree target owner (some at) =
    not (behind_a_link tree target) && not (pair_lt owner at.owner)

abbrev pub place_hard_link : Tree → List Table → ℕ × ℕ → Work → Option Work
place_hard_link tree tables owner work =
    let target = link_of (entry_at tables owner) in
    if link_stands tree target owner (get target tree)
    then some (record work { hard_links = work.hard_links ++ (owner ∷ []) })
    else none

abbrev pub place_kind : Kind → Tree → List Table → ℕ × ℕ → Work → Option Work
place_kind directory tree tables owner work = some work
place_kind unsupported tree tables owner work = some work
place_kind sparse tree tables owner work = none
place_kind file tree tables owner work =
    some (record work { files = push_at owner.0 owner.1 work.files })
place_kind symlink tree tables owner work =
    some (record work { symlinks = work.symlinks ++ (owner ∷ []) })
place_kind hard_link tree tables owner work = place_hard_link tree tables owner work

-- One round of the loop over the tree.
unfoldable pub place_node : Tree → List Table → Bytes → Node → Work → Option Work
place_node tree tables path node work =
    if behind_a_link tree path then none else place_kind node.kind tree tables node.owner work

abbrev pub and_then {ℓ κ} : {A : Type ℓ} {B : Type κ} → Option A → (A → Option B) → Option B
and_then none f = none
and_then (some a) f = f a

unfoldable pub place_nodes : Tree → List Table → Tree → Work → Option Work
unfolding place_node push_at
place_nodes tree tables [] work = some work
place_nodes tree tables ((path, node) ∷ more) work =
    and_then (place_node tree tables path node work) (place_nodes tree tables more)

-- The sorts of the source are not stable; here elements of one key keep their order.
unfoldable pub insert_sorted {ℓ} : {A : Type ℓ} → (A → A → Bool) → A → List A → List A
insert_sorted lt x [] = x ∷ []
insert_sorted lt x (y ∷ ys) =
    let rest = insert_sorted lt x ys in if lt y x then y ∷ rest else x ∷ (y ∷ ys)

unfoldable pub sort {ℓ} : {A : Type ℓ} → (A → A → Bool) → List A → List A
unfolding insert_sorted
sort lt [] = []
sort lt (x ∷ xs) = insert_sorted lt x (sort lt xs)

abbrev pub offset_of : Option Entry → ℕ
offset_of none = 0
offset_of (some entry) = entry.offset

abbrev pub offset_lt : List Table → ℕ → ℕ → ℕ → Bool
offset_lt tables layer a b =
    ltb (offset_of (entry_at tables (layer, a))) (offset_of (entry_at tables (layer, b)))

-- The loop that sorts the files of each layer by offset.
unfoldable pub sort_files : List Table → ℕ → List (List ℕ) → List (List ℕ)
unfolding sort
sort_files tables layer [] = []
sort_files tables layer (files ∷ more) =
    sort (offset_lt tables layer) files ∷ sort_files tables (suc layer) more

abbrev pub sorted_work : List Table → Work → Work
sorted_work tables work = record work {
  files = sort_files tables 0 work.files;
  hard_links = sort pair_lt work.hard_links;
}

abbrev pub no_files : List Table → List (List ℕ)
no_files [] = []
no_files (table ∷ more) = [] ∷ no_files more

unfoldable pub placeable : Tree → List Table → Option Work
unfolding place_nodes sort_files pair_lt
placeable tree tables =
    and_then
      (place_nodes tree tables tree
        (record { files = no_files tables; symlinks = []; hard_links = [] }))
      (λ work. some (sorted_work tables work))
