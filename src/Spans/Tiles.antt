-- ===== src/Spans/Tiles.antt =====
-- The spans of a layer against its files and its checkpoints (`plan_units` of
-- source/src/extract/spans.rs).
use rules_oci_runtime.Prelude.{
  ℕ, zero, suc, ◌+◌, ◌-◌, ◌≤◌, ◌<◌, ◌≡◌, refl, sym, ap, ◌∙◌, some, List, [], ◌∷◌, ◌++◌, All, length,
  length-append, take, drop, take-append, drop-append, get_elem?, lt→ltb, arith,
}
use mathlib.Core.List.{append_assoc, append-nil}
use mathlib.Core.Path.{subst}
use rules_oci_runtime.Entries.{Table}
use rules_oci_runtime.Zinfo.{Checkpoint, Index}
use rules_oci_runtime.Spans.{
  WorkUnit, span, digest, Body, Position, span_end, seek, resume, take_files, cons_unit, plan_files,
  plan_layer, bodies_of,
}
use rules_oci_runtime.Spans.Loops.{Apart, IsAt, seek-IsSought, resume-IsResumed, take_files-IsTaken}

module _ (l uncompressed_len : ℕ) (checkpoints : List Checkpoint) (bodies : List Body) where
  -- A span of the layer that takes the files from `first` up to `last`: it has some, and each begins
  -- behind its checkpoint and before the next one.
  pub record IsSpan (l' c first last : ℕ) : Type 0 where
    pub layer : l' ≡ l
    pub taken : first < last
    pub point : Checkpoint
    pub found : get_elem? checkpoints c ≡ some point
    pub inside :
        All
          (λ (b : Body).
            (point.out_offset ≤ b.start)
            × (b.start < span_end uncompressed_len (drop (suc c) checkpoints)))
          (take (last - first) (drop first bodies))

  -- Spans that take the files from `at` to the last, each once and in order.
  abbrev pub Tiles : ℕ → List WorkUnit → Type 0
  Tiles at [] = at ≡ length bodies
  Tiles at (digest l' ∷ units) = ⊥
  Tiles at (span l' c first last ∷ units) = (first ≡ at) × IsSpan l' c first last × Tiles last units

get_elem?-append :
    {A : Type 0} (pre : List A) (x : A) (rest : List A)
    → get_elem? (pre ++ (x ∷ rest)) (length pre) ≡ some x
get_elem?-append [] x rest = refl
get_elem?-append (p ∷ pre) x rest = get_elem?-append pre x rest

drop-append_suc :
    {A : Type 0} (pre : List A) (x : A) (rest : List A)
    → drop (suc (length pre)) (pre ++ (x ∷ rest)) ≡ rest
drop-append_suc [] x rest = refl
drop-append_suc (p ∷ pre) x rest = drop-append_suc pre x rest

-- The files that a span takes, cut out of all of them.
slice :
    (prior taken left : List Body)
    → take
        (length prior + length taken - length prior)
        (drop (length prior) (prior ++ (taken ++ left)))
      ≡ taken
slice prior taken left =
    let n : length prior + length taken - length prior ≡ length taken = omega arith in
    rw (n, drop-append prior (taken ++ left)) (take-append taken left)

module _ (l uncompressed_len : ℕ) (checkpoints : List Checkpoint) (bodies : List Body) where
  -- The first span of the files that are left, and the files behind it.
  first-IsSpan :
      (prior taken left : List Body) (at count : ℕ) (q : Position) (body : Body) (more : List Body)
      → bodies ≡ prior ++ (taken ++ left)
      → length prior ≡ at
      → length taken ≡ count
      → 0 < count
      → IsAt checkpoints q
      → All
          (λ (b : Body).
            (q.here.out_offset ≤ b.start) × (b.start < span_end uncompressed_len q.later))
          taken
      → IsSpan l uncompressed_len checkpoints bodies l q.checkpoint at (at + count)
  first-IsSpan prior taken left at count q body more e n k pos a i = record {
    layer = refl;
    taken = omega arith;
    point = q.here;
    found = rw (a.split, ← a.counted) (get_elem?-append a.before q.here q.later);
    inside =
        rw
          (
            a.split,
            ← a.counted,
            drop-append_suc a.before q.here q.later,
            e,
            ← n,
            ← k,
            slice prior taken left,
          )
          i;
  }

  All-behind : (P : Body → Type 0) (xs ys : List Body) → All P (xs ++ ys) → All P ys
  All-behind P [] ys a = a
  All-behind P (x ∷ xs) ys a = All-behind P xs ys a.1

  from_start :
      (out low limit : ℕ)
      → out ≤ low
      → (xs : List Body) → All (λ (b : Body). (low ≤ b.start) × (b.start < limit)) xs
      → All (λ (b : Body). (out ≤ b.start) × (b.start < limit)) xs
  from_start out low limit h [] a = tt
  from_start out low limit h (x ∷ xs) a =
      ((omega (arith, a.0.0), a.0.1), from_start out low limit h xs a.1)

  plan_files-Tiles :
      (fuel at e : ℕ) (prior left : List Body) (p : Position)
      → length left ≤ fuel
      → bodies ≡ prior ++ left
      → length prior ≡ at
      → IsAt checkpoints p
      → p.here.out_offset ≤ e
      → Apart e left
      → All (λ (b : Body). b.start < uncompressed_len) left
      → (units : List WorkUnit) × (plan_files fuel l uncompressed_len at left p ≡ some units)
        × Tiles l uncompressed_len checkpoints bodies at units
  unfolding plan_files
  plan_files-Tiles fuel at e prior [] p f s n a b c w =
      ([], refl, sym n ∙ ap length (sym (append-nil prior)) ∙ ap length (sym s))
  plan_files-Tiles zero at e prior (body ∷ more) p f s n a b c w = absurd (omega arith)
  plan_files-Tiles (suc fuel) at e prior (body ∷ more) p f s n a b c w =
      let q = seek body.start p.checkpoint p.here p.later in
      let sought =
        seek-IsSought checkpoints uncompressed_len body.start p.checkpoint p.here p.later a
          (omega (arith, c.0)) w.0 in
      let limit = span_end uncompressed_len q.later in
      let t = take_files limit body.end more in
      let r = take_files-IsTaken limit body.start body.end more c.1 c.2 in
      let pos =
        resume-IsResumed checkpoints t.end q.checkpoint q.here q.later sought.at
          (omega (arith, sought.begun, c.1, r.further)) in
      let whole : bodies ≡ prior ++ (body ∷ (r.taken ++ t.left)) =
        s ∙ ap (λ bs. prior ++ (body ∷ bs)) r.split in
      let (units, made, tiles) =
        plan_files-Tiles fuel (at + suc t.count) t.end (prior ++ (body ∷ r.taken)) t.left
          (resume t.end q.checkpoint q.here q.later)
          (omega (arith, ap length r.split, length-append r.taken t.left))
          (whole ∙ sym (append_assoc prior (body ∷ r.taken) t.left))
          (length-append prior (body ∷ r.taken) ∙ omega (arith, r.counted)) pos.at pos.begun r.apart
          (All-behind _ r.taken t.left
            (subst (All (λ (b : Body). b.start < uncompressed_len)) r.split w.1)) in
      rw (lt→ltb body.start limit sought.ahead) (
        span l q.checkpoint at (at + suc t.count) ∷ units,
        ap (cons_unit (span l q.checkpoint at (at + suc t.count))) made,
        (
          refl,
          first-IsSpan prior (body ∷ r.taken) t.left at (suc t.count) q body more whole n
              (ap suc r.counted) (omega arith) sought.at
              (
                (sought.begun, sought.ahead),
                from_start q.here.out_offset body.start limit sought.begun r.taken r.inside,
              ),
          tiles,
        ),
      )

-- Where the files of a layer are in the table, follow each other in the stream and begin before its
-- end, and the first checkpoint is the start of the stream, the cutting ends within as many rounds
-- as there are files. The spans take each file once and in order, and each file begins behind the
-- checkpoint of its span and before the next checkpoint.
pub plan_layer-Tiles :
    (l : ℕ) (index : Index) (here : Checkpoint) (later : List Checkpoint) (table : Table)
    (files : List ℕ) (bodies : List Body)
    → index.checkpoints ≡ here ∷ later
    → here.out_offset ≡ 0
    → bodies_of table files ≡ some bodies
    → Apart 0 bodies
    → All (λ (b : Body). b.start < index.uncompressed_len) bodies
    → (units : List WorkUnit) × (plan_layer (length bodies) l index table files ≡ some units)
      × Tiles l index.uncompressed_len index.checkpoints bodies 0 units
unfolding plan_layer
plan_layer-Tiles l index here later table files bodies c z e a w =
    rw (e, c)
      (plan_files-Tiles l index.uncompressed_len (here ∷ later) bodies (length bodies) 0 0 [] bodies
        (record { checkpoint = 0; here = here; later = later }) (omega arith) refl refl
        (record { before = []; split = refl; counted = refl }) (omega arith) a w)
