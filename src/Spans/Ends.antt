-- ===== src/Spans/Ends.antt =====
-- When the loop of `plan_units` (source/src/extract/spans.rs) comes to an end.
use rules_oci_runtime.Prelude.{
  ℕ, zero, suc, ◌+◌, ◌≤◌, ◌<◌, ◌≡◌, refl, Bool, true, false, Option, none, some, List, [], ◌∷◌,
  if◌then◌else◌, All, ltb, leb, ltb→lt, Bool-cases, inl, inr, arith,
}
use rules_oci_runtime.Entries.{Table}
use rules_oci_runtime.Zinfo.{Checkpoint, Index}
use rules_oci_runtime.Spans.{
  WorkUnit, span, Body, Position, Taken, one_more, span_end, seek, resume, take_files, cons_unit,
  plan_files, plan_from, plan_layer, bodies_of,
}

module _ (uncompressed_len : ℕ) where
  -- Checkpoints inside the stream.
  abbrev pub Inside : List Checkpoint → Type 0
  Inside = All (λ (c : Checkpoint). c.out_offset ≤ uncompressed_len)

  -- Bodies that begin inside it.
  abbrev pub Begun : List Body → Type 0
  Begun = All (λ (b : Body). b.start < uncompressed_len)

  span_end-Inside :
      (later : List Checkpoint) → Inside later → span_end uncompressed_len later ≤ uncompressed_len
  span_end-Inside [] i = omega arith
  span_end-Inside (next ∷ later) i = i.0

  seek-Inside :
      (start c : ℕ) (here : Checkpoint) (later : List Checkpoint)
      → Inside later
      → Inside (seek start c here later).later
  unfolding seek
  seek-Inside start c here [] i = tt
  seek-Inside start c here (next ∷ later) i = elim (Bool-cases (leb next.out_offset start)) [
    | inl e ↦ rw e (seek-Inside start (suc c) next later i.1)
    | inr e ↦ rw e i
  ]

  resume-Inside :
      (end c : ℕ) (here : Checkpoint) (later : List Checkpoint)
      → Inside later
      → Inside (resume end c here later).later
  unfolding resume
  resume-Inside end c here [] i = tt
  resume-Inside end c here (next ∷ later) i = elim (Bool-cases (ltb next.out_offset end)) [
    | inl e ↦ rw e (resume-Inside end (suc c) next later i.1)
    | inr e ↦ rw e i
  ]

  take_files-Begun :
      (limit end : ℕ) (bodies : List Body)
      → limit ≤ uncompressed_len
      → Begun (take_files limit end bodies).left
      → Begun bodies
  unfolding take_files
  take_files-Begun limit end [] h b = tt
  take_files-Begun limit end (body ∷ more) h b =
      go (ltb body.start limit) refl b (take_files-Begun limit body.end more h)
    where
      go :
          (t : Bool)
          → ltb body.start limit ≡ t
          → Begun
              (if t
                then one_more (take_files limit body.end more)
                else record { count = 0; end = end; left = body ∷ more }).left
          → (Begun (take_files limit body.end more).left → Begun more)
          → Begun (body ∷ more)
      go true e b ih = (omega (arith, ltb→lt body.start limit e, h), ih b)
      go false e b ih = b

  plan_files-Begun :
      (fuel l at : ℕ) (left : List Body) (p : Position) (units : List WorkUnit)
      → Inside p.later
      → plan_files fuel l uncompressed_len at left p ≡ some units
      → Begun left
  unfolding plan_files
  plan_files-Begun fuel l at [] p units i h = tt
  plan_files-Begun zero l at (body ∷ more) p units i h = cc
  plan_files-Begun (suc fuel) l at (body ∷ more) p units i h =
      go (plan_files fuel l uncompressed_len (at + t.count) t.left r) refl h (λ us.
        plan_files-Begun fuel l (at + t.count) t.left r us
          (resume-Inside t.end q.checkpoint q.here q.later inside))
    where
      q : Position
      q = seek body.start p.checkpoint p.here p.later

      t : Taken
      t = take_files (span_end uncompressed_len q.later) body.end (body ∷ more)

      r : Position
      r = resume t.end q.checkpoint q.here q.later

      inside : Inside q.later
      inside = seek-Inside body.start p.checkpoint p.here p.later i

      go :
          (o : Option (List WorkUnit))
          → plan_files fuel l uncompressed_len (at + t.count) t.left r ≡ o
          → cons_unit (span l q.checkpoint at (at + t.count)) o ≡ some units
          → ((us : List WorkUnit)
              → plan_files fuel l uncompressed_len (at + t.count) t.left r ≡ some us
              → Begun t.left)
          → Begun (body ∷ more)
      go none e k ih = cc
      go (some us) e k ih =
          take_files-Begun (span_end uncompressed_len q.later) body.end (body ∷ more)
            (span_end-Inside q.later inside) (ih us e)

-- The cutting of a layer whose checkpoints lie inside the stream ends only where every file begins
-- before the end of the stream: where one begins at the end or behind it, no number of rounds is
-- enough.
pub plan_layer-Begun :
    (fuel l : ℕ) (index : Index) (table : Table) (files : List ℕ) (bodies : List Body)
    (units : List WorkUnit)
    → Inside index.uncompressed_len index.checkpoints
    → bodies_of table files ≡ some bodies
    → plan_layer fuel l index table files ≡ some units
    → Begun index.uncompressed_len bodies
unfolding plan_layer
plan_layer-Begun fuel l index table files bodies units i b h = go index.checkpoints i (rw (← b) h)
  where
    go :
        (checkpoints : List Checkpoint)
        → Inside index.uncompressed_len checkpoints
        → plan_from fuel l index.uncompressed_len checkpoints (some bodies) ≡ some units
        → Begun index.uncompressed_len bodies
    go [] i h = cc
    go (here ∷ later) i h =
        plan_files-Begun index.uncompressed_len fuel l 0 bodies
          (record { checkpoint = 0; here = here; later = later }) units i.1 h
