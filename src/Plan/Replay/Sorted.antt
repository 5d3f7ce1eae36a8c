-- ===== src/Plan/Replay/Sorted.antt =====
-- What each step of `replay` (source/src/extract/plan.rs) keeps of the tree.
use rules_oci_runtime.Prelude.{
  ℕ, suc, ◌≡◌, refl, Bool, true, false, ◌&&◌, Option, none, some, List, [], ◌∷◌, Bytes, ◌=b◌,
  get_elem?, drop, drop-cons, Bool-cases, inl, inr,
}
use rules_oci_runtime.Whiteout
use rules_oci_runtime.Whiteout.{Whiteout, opaque, named, invalid}
use rules_oci_runtime.Entries.{
  Kind, file, directory, symlink, hard_link, sparse, unsupported, code, Entry, Table,
}
use rules_oci_runtime.OrderedMap.{get, insert, remove, modify, or_insert}
use rules_oci_runtime.OrderedMap.Sorted.{
  IsSorted, insert-IsSorted, remove-IsSorted, modify-IsSorted, or_insert-IsSorted,
}
use rules_oci_runtime.Plan.Tree.{
  Node, Tree, Blocked, same_kind, ensure_all, ensure_parents, default_directory_mode, ancestors,
  entry_at,
}
use rules_oci_runtime.Plan.Removal.{
  Removal, whole, lower_layers, remove_all, remove_under, doomed, entries_under,
}
use rules_oci_runtime.Plan.Replay.{
  Replayed, name_again, node_of, settle_directory, place_directory, place_other, place_kind, place,
  ours, hide, replay_marker, replay_entry, replay_entries, replay_layers, replay,
}

-- The directory that `ensure_parents` makes.
abbrev pub parent_node : ℕ × ℕ → Node
parent_node owner = record {
  kind = directory;
  owner = owner;
  mode = default_directory_mode;
  named_by = none;
}

-- A property of trees that every change by layer `l` and its entry `e` keeps.
pub record Keeps (P : Tree → Type 0) (l e : ℕ) (entry : Entry) : Type 0 where
  pub parent : (a : Bytes) (t : Tree) → P t → P (or_insert a (parent_node (l, e)) t)
  pub own :
      (t : Tree)
      → (same_kind entry.kind unsupported ≡ false)
      → P t
      → P (insert entry.path (node_of l e entry) t)
  pub again : (k : Bytes) (t : Tree) → P t → P (modify k (name_again l) t)
  pub dropped : (k : Bytes) (t : Tree) → P t → P (remove k t)

module _ (P : Tree → Type 0) (l e : ℕ) (entry : Entry) (K : Keeps P l e entry) where
  remove_all-keeps : (ps : List Bytes) (t : Tree) → P t → P (remove_all ps t)
  unfolding remove_all
  remove_all-keeps [] t h = h
  remove_all-keeps (p ∷ ps) t h = remove_all-keeps ps (remove p t) (K.dropped p t h)

  remove_under-keeps : (dir : Bytes) (r : Removal) (t : Tree) → P t → P (remove_under t dir r)
  unfolding remove_under
  remove_under-keeps dir r t h = remove_all-keeps (doomed r (entries_under dir t)) t h

  ensure_all-keeps : (ps : List Bytes) (t : Tree) → P t → P (ensure_all t ps (l, e))
  unfolding ensure_all
  ensure_all-keeps [] t h = h
  ensure_all-keeps (a ∷ ps) t h = ensure_all-keeps ps _ (K.parent a t h)

  ensure_parents-keeps : (path : Bytes) (t : Tree) → P t → P (ensure_parents t path (l, e))
  unfolding ensure_parents
  ensure_parents-keeps path t h = ensure_all-keeps (ancestors path) t h

  settle-keeps :
      (t : Tree) (b : Blocked) (s : Option (Option Bool))
      → same_kind entry.kind unsupported ≡ false
      → P t
      → P (settle_directory t b entry.path (node_of l e entry) l s).tree
  settle-keeps t b none k h = K.own t k h
  settle-keeps t b (some none) k h = K.again entry.path t h
  settle-keeps t b (some (some true)) k h = K.again entry.path t h
  settle-keeps t b (some (some false)) k h = K.own t k h

  place_directory-keeps :
      (t : Tree) (b : Blocked) (tables : List Table)
      → same_kind entry.kind unsupported ≡ false
      → P t
      → P (place_directory t b tables l e entry).tree
  unfolding place_directory
  place_directory-keeps t b tables k h = settle-keeps _ b _ k (ensure_parents-keeps entry.path t h)

  place_other-keeps :
      (t : Tree) (b : Blocked)
      → same_kind entry.kind unsupported ≡ false
      → P t
      → P (place_other t b l e entry).tree
  unfolding place_other
  place_other-keeps t b k h =
      elim (Bool-cases (same_kind entry.kind hard_link && entry.link =b entry.path)) [
        | inl c ↦ rw c (K.again entry.path _ (ensure_parents-keeps entry.path t h))
        | inr c ↦ rw c (
            K.own _ k (remove_under-keeps entry.path whole _ (ensure_parents-keeps entry.path t h)))
      ]

  place_kind-keeps :
      (t : Tree) (b : Blocked) (tables : List Table) (k : Kind)
      → entry.kind ≡ k
      → P t
      → P (place_kind k t b tables l e entry).tree
  unfolding code
  place_kind-keeps t b tables unsupported q h = h
  place_kind-keeps t b tables directory q h = place_directory-keeps t b tables (rw q refl) h
  place_kind-keeps t b tables file q h = place_other-keeps t b (rw q refl) h
  place_kind-keeps t b tables symlink q h = place_other-keeps t b (rw q refl) h
  place_kind-keeps t b tables hard_link q h = place_other-keeps t b (rw q refl) h
  place_kind-keeps t b tables sparse q h = place_other-keeps t b (rw q refl) h

  place-keeps :
      (t : Tree) (b : Blocked) (tables : List Table) → P t → P (place t b tables l e entry).tree
  unfolding place
  place-keeps t b tables h = place_kind-keeps t _ tables entry.kind refl h

  hide-keeps : (t : Tree) (target : Bytes) → P t → P (hide t target l)
  unfolding hide
  hide-keeps t target h = elim (Bool-cases (ours (get target t) l)) [
    | inl c ↦ rw c h
    | inr c ↦ rw c (remove_under-keeps target whole _ (K.dropped target t h))
  ]

  marker-keeps :
      (t : Tree) (b : Blocked) (tables : List Table) (m : Option Whiteout)
      → P t
      → P (replay_marker m t b tables l e entry).tree
  marker-keeps t b tables none h = place-keeps t b tables h
  marker-keeps t b tables (some (opaque dir)) h = remove_under-keeps dir (lower_layers l) t h
  marker-keeps t b tables (some (named target)) h = hide-keeps t target h
  marker-keeps t b tables (some invalid) h = place-keeps t _ tables h

  pub replay_entry-keeps :
      (tables : List Table) (s : Replayed) → P s.tree → P (replay_entry tables l e entry s).tree
  unfolding replay_entry
  replay_entry-keeps tables s h = marker-keeps s.tree _ tables (Whiteout.of entry.path) h

-- The tables from the one numbered `l`, and the entries from the one numbered `e`, as `drop` has
-- them.
module _ (P : Tree → Type 0) (tables : List Table) where
  -- The steps of every entry that the tables hold keep the property.
  abbrev pub EveryKeeps : Type 0
  EveryKeeps = (l e : ℕ) (entry : Entry) → entry_at tables (l, e) ≡ some entry → Keeps P l e entry

  module _ (K : EveryKeeps) where
    entries-keep :
        (l e : ℕ) (table : Table) (es : List Entry) (s : Replayed)
        → get_elem? tables l ≡ some table
        → drop e table.entries ≡ es
        → P s.tree
        → P (replay_entries tables l e es s).tree
    unfolding replay_entries
    entries-keep l e table [] s t d h = h
    entries-keep l e table (entry ∷ es) s t d h =
        let (at, rest) = drop-cons e table.entries entry es d in
        entries-keep l (suc e) table es _ t rest
          (replay_entry-keeps P l e entry (K l e entry (unfold entry_at in (rw t at))) tables s h)

    layers-keep :
        (l : ℕ) (ts : List Table) (s : Replayed)
        → drop l tables ≡ ts
        → P s.tree
        → P (replay_layers tables l ts s).tree
    unfolding replay_layers
    layers-keep l [] s d h = h
    layers-keep l (table ∷ ts) s d h =
        let (at, rest) = drop-cons l tables table ts d in
        layers-keep (suc l) ts _ rest (entries-keep l 0 table table.entries s at refl h)

    pub replay-keeps : P [] → P (replay tables).tree
    unfolding replay
    replay-keeps h = layers-keep 0 tables _ refl h

-- The tree of a replay is in strict order of its paths.
pub replay-IsSorted : (tables : List Table) → IsSorted (replay tables).tree
replay-IsSorted tables =
    replay-keeps IsSorted tables
      (λ l e entry at. record {
        parent = λ a t s. or_insert-IsSorted a _ t s;
        own = λ t k s. insert-IsSorted entry.path _ t s;
        again = λ k t s. modify-IsSorted k _ t s;
        dropped = λ k t s. remove-IsSorted k t s;
      })
      tt
