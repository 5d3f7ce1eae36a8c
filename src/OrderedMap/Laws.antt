-- ===== src/OrderedMap/Laws.antt =====
-- What a lookup in the ordered map finds after each operation.
use rules_oci_runtime.Prelude.{
  ◌≡◌, refl, Option, none, some, [], ◌∷◌, Bytes, ◌=b◌, =b_iff, if◌then◌else◌, arith,
}
use rules_oci_runtime.Plan.Key.Order.{eq_of_lex, lex_of_eq}
use rules_oci_runtime.OrderedMap.{OrderedMap, get, remove, insert, or_insert, modify}

module _ {ℓ} {V : Type ℓ} where
  pub get-insert :
      (j k : Bytes) (v : V) (m : OrderedMap V)
      → get j (insert k v m) ≡ (if j =b k then some v else get j m)
  unfolding get insert
  get-insert j k v [] = refl
  get-insert j k v ((i, w) ∷ m) =
      ground (arith, get-insert j k v m, eq_of_lex k i, lex_of_eq k i, =b_iff j k, =b_iff j i)

  pub get-remove :
      (j k : Bytes) (m : OrderedMap V) → get j (remove k m) ≡ (if j =b k then none else get j m)
  unfolding get remove
  get-remove j k [] = ground arith
  get-remove j k ((i, w) ∷ m) = ground (arith, get-remove j k m, =b_iff j k, =b_iff j i, =b_iff k i)

  abbrev pub apply_to : (V → V) → Option V → Option V
  apply_to f none = none
  apply_to f (some v) = some (f v)

  pub get-modify :
      (j k : Bytes) (f : V → V) (m : OrderedMap V)
      → get j (modify k f m) ≡ (if j =b k then apply_to f (get j m) else get j m)
  unfolding get modify
  get-modify j k f [] = ground arith
  get-modify j k f ((i, w) ∷ m) =
      ground (arith, get-modify j k f m, =b_iff j k, =b_iff j i, =b_iff k i)

  abbrev pub or_value : V → Option V → Option V
  or_value v none = some v
  or_value v (some w) = some w

  pub get-or_insert :
      (j k : Bytes) (v : V) (m : OrderedMap V)
      → get j (or_insert k v m) ≡ (if j =b k then or_value v (get k m) else get j m)
  unfolding or_insert
  get-or_insert j k v m = ground (arith, get-insert j k v m, =b_iff j k)
