-- ===== src/OrderedMap/Sorted.antt =====
-- The order of the entries of an ordered map.
use rules_oci_runtime.Prelude.{
  ◌≡◌, refl, Ordering, Bool, true, false, none, some, [], ◌∷◌, Bytes, ◌=b◌, eq_of_=b, if◌then◌else◌,
  arith, Bool-cases, inl, inr, All,
}
use mathlib.Core.Option.{some-injective}
use mathlib.Core.Path.{subst}
use rules_oci_runtime.Plan.Key.{lex}
use rules_oci_runtime.Plan.Key.Order.{eq_of_lex, lex_of_eq, lex_swap, lex_trans}
use rules_oci_runtime.OrderedMap.{
  OrderedMap, get, remove, insert, or_insert, modify, contains_key, placed,
}

infix 50 ◌≺◌
abbrev pub ◌≺◌ : Bytes → Bytes → Type 0
a ≺ b = lex a b ≡ Ordering.lt

-- The key lies below every key of the map.
abbrev pub Below {ℓ} : {V : Type ℓ} → Bytes → OrderedMap V → Type 0
Below {V} k m = All (λ (e : Bytes × V). k ≺ e.0) m

abbrev pub IsSorted {ℓ} : {V : Type ℓ} → OrderedMap V → Type 0
IsSorted [] = Unit
IsSorted ((j, v) ∷ m) = Below j m × IsSorted m

-- A predicate of the entries is kept by each operation.
module _ {ℓ κ} {V : Type ℓ} (P : Bytes × V → Type κ) where
  All-placed :
      (o : Ordering) (new old : Bytes × V) (m rest : OrderedMap V)
      → P new
      → P old
      → All P m
      → All P rest
      → All P (placed o new old m rest)
  All-placed Ordering.lt new old m rest hn ho hm hr = (hn, (ho, hm))
  All-placed Ordering.eq new old m rest hn ho hm hr = (hn, hm)
  All-placed Ordering.gt new old m rest hn ho hm hr = (ho, hr)

  pub All-insert :
      (k : Bytes) (v : V) (m : OrderedMap V) → P (k, v) → All P m → All P (insert k v m)
  unfolding insert
  All-insert k v [] h a = (h, tt)
  All-insert k v ((j, w) ∷ m) h a =
      All-placed (lex k j) (k, v) (j, w) m (insert k v m) h a.0 a.1 (All-insert k v m h a.1)

  pub All-remove : (k : Bytes) (m : OrderedMap V) → All P m → All P (remove k m)
  unfolding remove
  All-remove k [] a = tt
  All-remove k ((j, w) ∷ m) a = elim (Bool-cases (k =b j)) [
    | inl e ↦ rw (e, remove) (All-remove k m a.1)
    | inr e ↦ rw (e, remove) (a.0, All-remove k m a.1)
  ]

  pub All-or_insert :
      (k : Bytes) (v : V) (m : OrderedMap V) → P (k, v) → All P m → All P (or_insert k v m)
  unfolding or_insert
  All-or_insert k v m h a = elim (Bool-cases (contains_key k m)) [
    | inl e ↦ rw (e, or_insert) a
    | inr e ↦ rw (e, or_insert) (All-insert k v m h a)
  ]

  pub All-modify :
      (k : Bytes) (f : V → V) (m : OrderedMap V)
      → ((v : V) → P (k, v) → P (k, f v))
      → All P m
      → All P (modify k f m)
  unfolding modify
  All-modify k f [] h a = tt
  All-modify k f ((j, w) ∷ m) h a = (modified (k =b j) refl, All-modify k f m h a.1)
    where
      modified : (b : Bool) → (k =b j) ≡ b → P (j, if b then f w else w)
      modified true e = let same = eq_of_=b k j e in rw same at (h w (rw same a.0))
      modified false e = a.0

  -- A lookup finds what the predicate says.
  pub All-get : (k : Bytes) (v : V) (m : OrderedMap V) → All P m → get k m ≡ some v → P (k, v)
  unfolding get
  All-get k v [] a e = cc
  All-get k v ((j, w) ∷ m) a e = found (k =b j) refl e (All-get k v m a.1)
    where
      found :
          (b : Bool)
          → (k =b j) ≡ b
          → (if b then some w else get k m) ≡ some v
          → (get k m ≡ some v → P (k, v))
          → P (k, v)
      found true d c h = subst (λ x. P (k, x)) (some-injective w v c) (rw (eq_of_=b k j d) a.0)
      found false d c h = h c

module _ {ℓ} {V : Type ℓ} where
  Below-trans : (a b : Bytes) (m : OrderedMap V) → a ≺ b → Below b m → Below a m
  Below-trans a b [] h k = tt
  Below-trans a b ((j, v) ∷ m) h k = (lex_trans a b j h k.0, Below-trans a b m h k.1)

  pub insert-IsSorted :
      (k : Bytes) (v : V) (m : OrderedMap V) → IsSorted m → IsSorted (insert k v m)
  unfolding insert
  insert-IsSorted k v [] s = (tt, tt)
  insert-IsSorted k v ((j, w) ∷ m) s = go (lex k j) refl (insert-IsSorted k v m s.1)
    where
      go :
          (o : Ordering)
          → lex k j ≡ o
          → IsSorted (insert k v m)
          → IsSorted (placed o (k, v) (j, w) m (insert k v m))
      go Ordering.lt e r = ((e, Below-trans k j m e s.0), s)
      go Ordering.eq e r = (rw (eq_of_lex k j e) s.0, s.1)
      go Ordering.gt e r = (All-insert _ k v m ((lex_swap j k).1 e) s.0, r)

  pub remove-IsSorted : (k : Bytes) (m : OrderedMap V) → IsSorted m → IsSorted (remove k m)
  unfolding remove
  remove-IsSorted k [] s = tt
  remove-IsSorted k ((j, w) ∷ m) s = elim (Bool-cases (k =b j)) [
    | inl e ↦ rw (e, remove) (remove-IsSorted k m s.1)
    | inr e ↦ rw (e, remove) (All-remove _ k m s.0, remove-IsSorted k m s.1)
  ]

  pub or_insert-IsSorted :
      (k : Bytes) (v : V) (m : OrderedMap V) → IsSorted m → IsSorted (or_insert k v m)
  unfolding or_insert
  or_insert-IsSorted k v m s = elim (Bool-cases (contains_key k m)) [
    | inl e ↦ rw (e, or_insert) s
    | inr e ↦ rw (e, or_insert) (insert-IsSorted k v m s)
  ]

  pub modify-IsSorted :
      (k : Bytes) (f : V → V) (m : OrderedMap V) → IsSorted m → IsSorted (modify k f m)
  unfolding modify
  modify-IsSorted k f [] s = tt
  modify-IsSorted k f ((j, w) ∷ m) s = (below m s.0, modify-IsSorted k f m s.1)
    where
      below : (n : OrderedMap V) → Below j n → Below j (modify k f n)
      below n b = All-modify (λ e. j ≺ e.0) k f n (λ v h. h) b

  -- The first key is below every other, so it is not among them.
  pub get-Below : (k : Bytes) (m : OrderedMap V) → Below k m → get k m ≡ none
  unfolding get
  get-Below k [] b = refl
  get-Below k ((j, w) ∷ m) b = ground (arith, get-Below k m b.1, eq_of_=b k j, lex_of_eq k j, b.0)
