-- ===== src/Rootfs/Stitch/Marked.antt =====
-- The marks and the numbers of the entries that `Table::stitch` of source/src/rootfs.rs keeps.
use rules_oci_runtime.Prelude.{
  ℕ, zero, suc, ◌+◌, ◌≡◌, inl, inr, refl, sym, ap, ◌∙◌, Bool, true, false, some, List, [], ◌∷◌,
  length, get_elem?, set, arith,
}
use mathlib.Core.Path.{subst}
use mathlib.Core.Option.{some-injective}
use rules_oci_runtime.Entries.{Entry}
use rules_oci_runtime.Plan.Placeable.Members.{Among}
use rules_oci_runtime.Rootfs.Stitch.{unused, mark, keep, number}

get_elem?-set-true :
    (used : List Bool) (i e : ℕ)
    → get_elem? used e ≡ some true
    → get_elem? (set used i true) e ≡ some true
get_elem?-set-true [] i e h = cc
get_elem?-set-true (b ∷ used) zero zero h = refl
get_elem?-set-true (b ∷ used) zero (suc e) h = h
get_elem?-set-true (b ∷ used) (suc i) zero h = h
get_elem?-set-true (b ∷ used) (suc i) (suc e) h = get_elem?-set-true used i e h

set-true_at :
    (used : List Bool) (e : ℕ) (b : Bool)
    → get_elem? used e ≡ some b
    → get_elem? (set used e true) e ≡ some true
set-true_at [] e b h = cc
set-true_at (c ∷ used) zero b h = refl
set-true_at (c ∷ used) (suc e) b h = set-true_at used e b h

set-true_kept :
    (used : List Bool) (i e : ℕ) (b : Bool)
    → get_elem? used e ≡ some b
    → (c : Bool) × (get_elem? (set used i true) e ≡ some c)
set-true_kept [] i e b h = cc
set-true_kept (c ∷ used) zero zero b h = (true, refl)
set-true_kept (c ∷ used) zero (suc e) b h = (b, h)
set-true_kept (c ∷ used) (suc i) zero b h = (b, h)
set-true_kept (c ∷ used) (suc i) (suc e) b h = set-true_kept used i e b h

mark-true :
    (placed : List ℕ) (used : List Bool) (e : ℕ)
    → get_elem? used e ≡ some true
    → get_elem? (mark placed used) e ≡ some true
unfolding mark
mark-true [] used e h = h
mark-true (i ∷ placed) used e h =
    mark-true placed (set used i true) e (get_elem?-set-true used i e h)

-- What is placed is marked.
pub mark_placed :
    (placed : List ℕ) (used : List Bool) (e : ℕ) (b : Bool)
    → Among e placed
    → get_elem? used e ≡ some b
    → get_elem? (mark placed used) e ≡ some true
unfolding mark
mark_placed [] used e b m h = absurd m
mark_placed (i ∷ placed) used e b (inl s) h =
    mark-true placed (set used i true) e
      (subst (λ x. get_elem? (set used x true) e ≡ some true) s (set-true_at used e b h))
mark_placed (i ∷ placed) used e b (inr m) h =
    let (c, k) = set-true_kept used i e b h in mark_placed placed (set used i true) e c m k

length-set-true : (used : List Bool) (i : ℕ) → length (set used i true) ≡ length used
length-set-true [] i = refl
length-set-true (b ∷ used) zero = refl
length-set-true (b ∷ used) (suc i) = ap suc (length-set-true used i)

pub length-mark : (placed : List ℕ) (used : List Bool) → length (mark placed used) ≡ length used
unfolding mark
length-mark [] used = refl
length-mark (i ∷ placed) used = length-mark placed (set used i true) ∙ length-set-true used i

pub length-unused : (entries : List Entry) → length (unused entries) ≡ length entries
length-unused [] = refl
length-unused (entry ∷ more) = ap suc (length-unused more)

-- The number of a marked entry is where it stands among the kept ones.
number-keep :
    (used : List Bool) (entries : List Entry) (n e i : ℕ)
    → length used ≡ length entries
    → get_elem? used e ≡ some true
    → get_elem? (number n used) e ≡ some i
    → (j : ℕ) × (entry : Entry) × (i ≡ n + j)
      × (get_elem? entries e ≡ some entry)
      × (get_elem? (keep used entries) j ≡ some entry)
unfolding number keep
number-keep [] entries n e i l m h = cc
number-keep (b ∷ used) [] n e i l m h = cc
number-keep (true ∷ used) (entry ∷ more) n zero i l m h =
    (0, entry, sym (some-injective n i h) ∙ omega arith, refl, refl)
number-keep (false ∷ used) (entry ∷ more) n zero i l m h = cc
number-keep (true ∷ used) (entry ∷ more) n (suc e) i l m h =
    let (j, found, at, k, k') = number-keep used more (suc n) e i (omega arith) m h in
    (suc j, found, omega arith, k, k')
number-keep (false ∷ used) (entry ∷ more) n (suc e) i l m h =
    number-keep used more n e i (omega arith) m h

pub number-keep_first :
    (used : List Bool) (entries : List Entry) (e i : ℕ)
    → length used ≡ length entries
    → get_elem? used e ≡ some true
    → get_elem? (number 0 used) e ≡ some i
    → (entry : Entry) × (get_elem? entries e ≡ some entry)
      × (get_elem? (keep used entries) i ≡ some entry)
number-keep_first used entries e i l m h =
    let (j, entry, at, f, f') = number-keep used entries 0 e i l m h in
    (entry, f, ap (get_elem? (keep used entries)) (plain j at) ∙ f')
  where
    plain : (j : ℕ) → i ≡ 0 + j → i ≡ j
    plain j at = omega arith

pub get_elem?-number :
    (used : List Bool) (n e i : ℕ)
    → get_elem? (number n used) e ≡ some i
    → (b : Bool) × (get_elem? used e ≡ some b)
unfolding number
get_elem?-number [] n e i h = cc
get_elem?-number (true ∷ used) n zero i h = (true, refl)
get_elem?-number (false ∷ used) n zero i h = (false, refl)
get_elem?-number (true ∷ used) n (suc e) i h = get_elem?-number used (suc n) e i h
get_elem?-number (false ∷ used) n (suc e) i h = get_elem?-number used n e i h

pub unmarked :
    (placed : List ℕ) (used : List Bool) (e : ℕ) (b : Bool)
    → get_elem? (mark placed used) e ≡ some b
    → (c : Bool) × (get_elem? used e ≡ some c)
unfolding mark
unmarked [] used e b h = (b, h)
unmarked (i ∷ placed) used e b h =
    let (c, k) = unmarked placed (set used i true) e b h in unset used i e c k
  where
    unset :
        (used : List Bool) (i e : ℕ) (c : Bool)
        → get_elem? (set used i true) e ≡ some c
        → (d : Bool) × (get_elem? used e ≡ some d)
    unset [] i e c h = cc
    unset (b ∷ used) zero zero c h = (b, refl)
    unset (b ∷ used) zero (suc e) c h = (c, h)
    unset (b ∷ used) (suc i) zero c h = (c, h)
    unset (b ∷ used) (suc i) (suc e) c h = unset used i e c h
