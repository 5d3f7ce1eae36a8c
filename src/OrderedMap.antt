-- ===== src/OrderedMap.antt =====
-- The standard library's ordered map over paths, by its sorted entries: what source/src uses of
-- `BTreeMap<&Key, V>` and `BTreeMap<Vec<u8>, V>`. Keys are ordered by `lex`, the order of
-- `[u8]`.
pub mod Laws
pub mod Sorted
use rules_oci_runtime.Prelude.{
  ℕ, Ordering, Bool, true, false, Option, none, some, List, [], ◌∷◌, Bytes, ◌=b◌, if◌then◌else◌,
}
use rules_oci_runtime.Plan.Key.{lex}

abbrev pub OrderedMap {ℓ} : Type ℓ → Type ℓ
OrderedMap V = List (Bytes × V)

abbrev pub is_lt : Ordering → Bool
is_lt Ordering.lt = true
is_lt Ordering.eq = false
is_lt Ordering.gt = false

abbrev pub is_some {ℓ} : {A : Type ℓ} → Option A → Bool
is_some none = false
is_some (some a) = true

module _ {ℓ} {V : Type ℓ} where
  unfoldable pub get : Bytes → OrderedMap V → Option V
  get k [] = none
  get k ((j, v) ∷ m) = if k =b j then some v else get k m

  unfoldable pub remove : Bytes → OrderedMap V → OrderedMap V
  remove k [] = []
  remove k ((j, v) ∷ m) = let rest = remove k m in if k =b j then rest else (j, v) ∷ rest

  -- An entry in front of, in place of or behind the first one.
  abbrev pub placed : Ordering → Bytes × V → Bytes × V → OrderedMap V → OrderedMap V → OrderedMap V
  placed Ordering.lt new old m rest = new ∷ (old ∷ m)
  placed Ordering.eq new old m rest = new ∷ m
  placed Ordering.gt new old m rest = old ∷ rest

  unfoldable pub insert : Bytes → V → OrderedMap V → OrderedMap V
  insert k v [] = (k, v) ∷ []
  insert k v ((j, w) ∷ m) = placed (lex k j) (k, v) (j, w) m (insert k v m)

  unfoldable pub contains_key : Bytes → OrderedMap V → Bool
  unfolding get
  contains_key k m = is_some (get k m)

  -- `entry(k).or_insert(v)`
  unfoldable pub or_insert : Bytes → V → OrderedMap V → OrderedMap V
  unfolding contains_key insert
  or_insert k v m = if contains_key k m then m else insert k v m

  -- An assignment through `get_mut`.
  unfoldable pub modify : Bytes → (V → V) → OrderedMap V → OrderedMap V
  modify k f [] = []
  modify k f ((j, v) ∷ m) = (j, if k =b j then f v else v) ∷ modify k f m

  -- `range((Included(bound), Unbounded))`
  unfoldable pub range_from : Bytes → OrderedMap V → OrderedMap V
  range_from bound [] = []
  range_from bound ((j, v) ∷ m) =
      let rest = range_from bound m in if is_lt (lex j bound) then rest else (j, v) ∷ m
