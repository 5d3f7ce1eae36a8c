-- ===== src/Plan/Resolve/Shadowed.antt =====
-- The bodies that a layer skips (`is_shadowed` of source/src/extract/plan.rs).
use rules_oci_runtime.Prelude.{
  ℕ, suc, ◌+◌, ◌≡◌, ◌↔◌, refl, sym, ap, ◌∙◌, Bool, true, false, not, ◌&&◌, some, List, [], ◌∷◌,
  ◌++◌, Bytes, ◌=b◌, =b_refl, if◌then◌else◌, arith, All, Bool-cases, inl, inr, length,
}
use rules_oci_runtime.Entries.{Entry, Table}
use rules_oci_runtime.Plan.Tree.{Tree}
use rules_oci_runtime.Plan.Resolve.{
  contains, lookup, doomed_of, shadow, in_set, is_nil, planned, is_shadowed, stops, linked,
}
use rules_oci_runtime.Plan.Replay.{Replayed}
use rules_oci_runtime.Plan.Resolve.Doomed.{
  dooms, contains-doomed_of, contains_nil-dooms, IsReplaced, dooms_iff,
}

-- What layer `i` and those behind it leave for a digest that was `start` before.
abbrev after_layers : Tree → List Bytes → ℕ → Bytes → Bytes → List Bytes → List Table → Bool → Bool
after_layers tree links l digest path [] ts start = start
after_layers tree links l digest path (d ∷ ds) [] start = start
after_layers tree links l digest path (d ∷ ds) (t ∷ ts) start =
    after_layers tree links (suc l) digest path ds ts (
      if digest =b d && not (is_nil (doomed_of tree links l t.entries))
      then dooms tree links l path t.entries
      else start)

shadow-after_layers :
    (tree : Tree) (links : List Bytes) (l : ℕ) (digest path : Bytes) (ds : List Bytes)
    (ts : List Table) (m : List (Bytes × List Bytes))
    → in_set path (lookup digest (shadow tree links l ds ts m))
      ≡ after_layers tree links l digest path ds ts (in_set path (lookup digest m))
unfolding shadow lookup
shadow-after_layers tree links l digest path [] ts m = refl
shadow-after_layers tree links l digest path (d ∷ ds) [] m = refl
shadow-after_layers tree links l digest path (d ∷ ds) (t ∷ ts) m =
    shadow-after_layers tree links (suc l) digest path ds ts _
    ∙ ap (after_layers tree links (suc l) digest path ds ts)
        (elim (Bool-cases (is_nil (doomed_of tree links l t.entries))) [
          | inl e ↦ rw e (unchanged (digest =b d))
          | inr e ↦ rw e (inserted (digest =b d))
        ])
  where
    unchanged :
        (b : Bool)
        → in_set path (lookup digest m) ≡ (
            if b && false then dooms tree links l path t.entries else in_set path (lookup digest m))
    unchanged true = refl
    unchanged false = refl

    inserted :
        (b : Bool)
        → in_set path (if b then some (doomed_of tree links l t.entries) else lookup digest m)
          ≡ (if b && true then dooms tree links l path t.entries else in_set path (lookup digest m))
    inserted true = contains-doomed_of tree links l path t.entries
    inserted false = refl

module _ (tree : Tree) (links : List Bytes) (digest path : Bytes) where
  after_layers_absent :
      (ds : List Bytes) (l : ℕ) (ts : List Table) (start : Bool)
      → All (λ d. (digest =b d) ≡ false) ds
      → after_layers tree links l digest path ds ts start ≡ start
  after_layers_absent [] l ts start a = refl
  after_layers_absent (d ∷ ds) l [] start a = refl
  after_layers_absent (d ∷ ds) l (t ∷ ts) start a =
      rw a.0 (after_layers_absent ds (suc l) ts start a.1)

  after_layers-append :
      (ds : List Bytes) (ts : List Table) (l : ℕ) (es : List Bytes) (us : List Table) (start : Bool)
      → length ds ≡ length ts
      → after_layers tree links l digest path (ds ++ es) (ts ++ us) start
        ≡ after_layers tree links
            (l + length ds)
            digest
            path
            es
            us
            (after_layers tree links l digest path ds ts start)
  after_layers-append [] [] l es us start e =
      ap (λ (k : ℕ). after_layers tree links k digest path es us start) (omega arith)
  after_layers-append [] (t ∷ ts) l es us start e = absurd (omega arith)
  after_layers-append (d ∷ ds) [] l es us start e = absurd (omega arith)
  after_layers-append (d ∷ ds) (t ∷ ts) l es us start e =
      let here = after_layers tree links (suc l) digest path ds ts (
        if digest =b d && not (is_nil (doomed_of tree links l t.entries))
        then dooms tree links l path t.entries
        else start) in
      after_layers-append ds ts (suc l) es us _ (omega arith)
      ∙ ap (λ (k : ℕ). after_layers tree links k digest path es us here) (omega arith)

  -- A layer of the digest leaves what it dooms, where it dooms anything.
  after_layers_here :
      (l : ℕ) (ds : List Bytes) (t : Table) (ts : List Table) (start : Bool)
      → after_layers tree links l digest path (digest ∷ ds) (t ∷ ts) start
        ≡ after_layers tree links (suc l) digest path ds ts (
            if is_nil (doomed_of tree links l t.entries)
            then start
            else dooms tree links l path t.entries)
  after_layers_here l ds t ts start =
      ap (after_layers tree links (suc l) digest path ds ts)
        (elim (Bool-cases (is_nil (doomed_of tree links l t.entries))) [
          | inl n ↦ rw (=b_refl digest, n) refl
          | inr n ↦ rw (=b_refl digest, n) refl
        ])

dooms-after_layers :
    (tree : Tree) (links : List Bytes) (l : ℕ) (path : Bytes) (es : List Entry)
    → (if is_nil (doomed_of tree links l es) then false else dooms tree links l path es)
      ≡ dooms tree links l path es
dooms-after_layers tree links l path es = elim (Bool-cases (is_nil (doomed_of tree links l es))) [
  | inl n ↦ rw n (sym (contains_nil-dooms tree links l path es n))
  | inr n ↦ rw n refl
]

is_shadowed-dooms :
    (before behind : List Bytes) (digest path : Bytes) (ts us : List Table) (t : Table)
    (r : Replayed)
    → length before ≡ length ts
    → All (λ d. (digest =b d) ≡ false) before
    → All (λ d. (digest =b d) ≡ false) behind
    → stops r.blocked ≡ false
    → is_shadowed (planned (before ++ (digest ∷ behind)) (ts ++ (t ∷ us)) r) digest path
      ≡ dooms r.tree (linked (ts ++ (t ∷ us))) (length before) path t.entries
unfolding is_shadowed planned
is_shadowed-dooms before behind digest path ts us t r e a b s =
    let links = linked (ts ++ (t ∷ us)) in
    rw s (
      shadow-after_layers r.tree links 0 digest path (before ++ (digest ∷ behind)) (ts ++ (t ∷ us))
        []
      ∙ after_layers-append r.tree links digest path before ts 0 (digest ∷ behind) (t ∷ us) false e
      ∙ ap (after_layers r.tree links (0 + length before) digest path (digest ∷ behind) (t ∷ us))
          (after_layers_absent r.tree links digest path before 0 ts false a)
      ∙ after_layers_here r.tree links digest path (0 + length before) behind t us false
      ∙ after_layers_absent r.tree links digest path behind _ us _ b
      ∙ ap
          (λ (k : ℕ).
            if is_nil (doomed_of r.tree links k t.entries)
            then false
            else dooms r.tree links k path t.entries)
          (omega arith)
      ∙ dooms-after_layers r.tree links (length before) path t.entries)

-- Where no other layer has the digest and the walk does not stop on the image, a path is skipped
-- in the layer exactly where the layer holds the body of a file at that path whose name is no
-- marker, which no hard link of any layer names, and whose path is another layer's or nobody's.
pub is_shadowed_iff :
    (before behind : List Bytes) (digest path : Bytes) (ts us : List Table) (t : Table)
    (r : Replayed)
    → length before ≡ length ts
    → All (λ d. (digest =b d) ≡ false) before
    → All (λ d. (digest =b d) ≡ false) behind
    → stops r.blocked ≡ false
    → (is_shadowed (planned (before ++ (digest ∷ behind)) (ts ++ (t ∷ us)) r) digest path ≡ true)
      ↔ IsReplaced r.tree (ts ++ (t ∷ us)) (length before) path t.entries
is_shadowed_iff before behind digest path ts us t r e a b s =
    let same = is_shadowed-dooms before behind digest path ts us t r e a b s in
    let meaning = dooms_iff r.tree (ts ++ (t ∷ us)) (length before) path t.entries in
    (λ h. meaning.0 (sym same ∙ h), λ h. same ∙ meaning.1 h)

nothing_doomed :
    (tree : Tree) (tables : List Table) (l : ℕ) (es : List Entry)
    → ((path : Bytes) → ¬ IsReplaced tree tables l path es)
    → is_nil (doomed_of tree (linked tables) l es) ≡ true
nothing_doomed tree tables l es none_of =
    go (doomed_of tree (linked tables) l es)
      (λ path. contains-doomed_of tree (linked tables) l path es)
  where
    go :
        (ps : List Bytes)
        → ((path : Bytes) → contains path ps ≡ dooms tree (linked tables) l path es)
        → is_nil ps ≡ true
    go [] c = refl
    go (p ∷ ps) c = absurd (
        none_of p
          ((dooms_iff tree tables l p es).0 (sym (c p) ∙ unfold contains in rw (=b_refl p) refl)))

something_doomed :
    (tree : Tree) (links : List Bytes) (l : ℕ) (path : Bytes) (es : List Entry)
    → dooms tree links l path es ≡ true
    → is_nil (doomed_of tree links l es) ≡ false
something_doomed tree links l path es h = elim (Bool-cases (is_nil (doomed_of tree links l es))) [
  | inl e ↦ absurd (cc (contains_nil-dooms tree links l path es e, h))
  | inr e ↦ e
]

-- Where the walk does not stop on the image, a digest stands twice among the layers and neither
-- between the two nor behind them, and the second of the two needs every body that it holds, a
-- path that the first need not place is skipped for the digest all the same: the set that is kept
-- for it is the first one's.
pub is_shadowed_repeated :
    (before mid behind : List Bytes) (digest path : Bytes) (ts ms us : List Table) (t u : Table)
    (r : Replayed)
    → length before ≡ length ts
    → length mid ≡ length ms
    → All (λ d. (digest =b d) ≡ false) mid
    → All (λ d. (digest =b d) ≡ false) behind
    → stops r.blocked ≡ false
    → IsReplaced r.tree (ts ++ (t ∷ (ms ++ (u ∷ us)))) (length before) path t.entries
    → ((p : Bytes)
        → ¬ IsReplaced r.tree
            (ts ++ (t ∷ (ms ++ (u ∷ us))))
            (suc (length before) + length mid)
            p
            u.entries)
    → is_shadowed
        (planned (before ++ (digest ∷ (mid ++ (digest ∷ behind)))) (ts ++ (t ∷ (ms ++ (u ∷ us)))) r)
        digest
        path
      ≡ true
unfolding is_shadowed planned
is_shadowed_repeated before mid behind digest path ts ms us t u r e f a b s first second =
    let tables = ts ++ (t ∷ (ms ++ (u ∷ us))) in
    let links = linked tables in
    let at = length before in
    let d = (dooms_iff r.tree tables at path t.entries).1 first in
    let start = after_layers r.tree links 0 digest path before ts false in
    rw s (
      shadow-after_layers r.tree links 0 digest path
        (before ++ (digest ∷ (mid ++ (digest ∷ behind)))) tables []
      ∙ after_layers-append r.tree links digest path before ts 0
          (digest ∷ (mid ++ (digest ∷ behind))) (t ∷ (ms ++ (u ∷ us))) false e
      ∙ ap
          (λ (k : ℕ).
            after_layers r.tree links k digest path (digest ∷ (mid ++ (digest ∷ behind)))
              (t ∷ (ms ++ (u ∷ us))) start)
          (omega arith)
      ∙ after_layers_here r.tree links digest path at (mid ++ (digest ∷ behind)) t (ms ++ (u ∷ us))
          start
      ∙ ap
          (after_layers r.tree links (suc at) digest path (mid ++ (digest ∷ behind))
            (ms ++ (u ∷ us)))
          (rw (something_doomed r.tree links at path t.entries d) d)
      ∙ after_layers-append r.tree links digest path mid ms (suc at) (digest ∷ behind) (u ∷ us) true
          f
      ∙ ap (after_layers r.tree links (suc at + length mid) digest path (digest ∷ behind) (u ∷ us))
          (after_layers_absent r.tree links digest path mid (suc at) ms true a)
      ∙ after_layers_here r.tree links digest path (suc at + length mid) behind u us true
      ∙ after_layers_absent r.tree links digest path behind _ us _ b
      ∙ rw (nothing_doomed r.tree tables (suc at + length mid) u.entries second) refl)
