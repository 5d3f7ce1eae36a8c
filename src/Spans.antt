-- ===== src/Spans.antt =====
-- `plan_units` of source/src/extract/spans.rs: the files of a resolved image, cut into the units that
-- the workers claim. The threads that claim them are not modelled.
pub mod Loops
pub mod Tiles
pub mod Ends
use rules_oci_runtime.Prelude.{
  ℕ, zero, suc, ◌+◌, ◌-◌, Bool, true, false, Option, none, some, List, [], ◌∷◌, ◌++◌, if◌then◌else◌,
  get_elem?, ltb, leb, length,
}
use rules_oci_runtime.Entries.{Entry, Table}
use rules_oci_runtime.Plan.Placeable.{Work, sort}
use rules_oci_runtime.Zinfo.{Checkpoint, Index}

-- `Unit` of the source.
pub data WorkUnit : Type 0 where
  -- layer, checkpoint, and the range of the layer's files
  span : ℕ → ℕ → ℕ → ℕ → WorkUnit
  digest : ℕ → WorkUnit

-- Where a file's body begins and ends in the stream.
pub record Body : Type 0 where
  pub start : ℕ
  pub end : ℕ

-- Where the loop stands among the checkpoints: the index, the checkpoint there, and the later ones.
pub record Position : Type 0 where
  pub checkpoint : ℕ
  pub here : Checkpoint
  pub later : List Checkpoint

-- `span_end(checkpoint)`
abbrev pub span_end : ℕ → List Checkpoint → ℕ
span_end uncompressed_len [] = uncompressed_len
span_end uncompressed_len (next ∷ later) = next.out_offset

-- `while checkpoint + 1 < checkpoints.len() && checkpoints[checkpoint + 1].out_offset <= body(at).0`
unfoldable pub seek : ℕ → ℕ → Checkpoint → List Checkpoint → Position
seek start c here [] = record { checkpoint = c; here = here; later = [] }
seek start c here (next ∷ later) =
    let rest = seek start (suc c) next later in
    if leb next.out_offset start
    then rest
    else record { checkpoint = c; here = here; later = next ∷ later }

-- `while checkpoint + 1 < checkpoints.len() && span_end(checkpoint) < end`
unfoldable pub resume : ℕ → ℕ → Checkpoint → List Checkpoint → Position
resume end c here [] = record { checkpoint = c; here = here; later = [] }
resume end c here (next ∷ later) =
    let rest = resume end (suc c) next later in
    if ltb next.out_offset end
    then rest
    else record { checkpoint = c; here = here; later = next ∷ later }

-- What the inner loop over the files has come to: how many it took, where the last one ends, and
-- the files that are left.
pub record Taken : Type 0 where
  pub count : ℕ
  pub end : ℕ
  pub left : List Body

abbrev pub one_more : Taken → Taken
one_more t = record t { count = suc t.count }

-- `while at < files.len() && body(at).0 < limit`
unfoldable pub take_files : ℕ → ℕ → List Body → Taken
take_files limit end [] = record { count = 0; end = end; left = [] }
take_files limit end (body ∷ more) =
    let rest = one_more (take_files limit body.end more) in
    if ltb body.start limit then rest else record { count = 0; end = end; left = body ∷ more }

abbrev pub cons_unit : WorkUnit → Option (List WorkUnit) → Option (List WorkUnit)
cons_unit unit none = none
cons_unit unit (some units) = some (unit ∷ units)

-- The outer loop, on fuel, from the file numbered `at`: `none` where the fuel runs out.
unfoldable pub plan_files : ℕ → ℕ → ℕ → ℕ → List Body → Position → Option (List WorkUnit)
unfolding seek resume take_files
plan_files fuel l uncompressed_len at [] p = some []
plan_files zero l uncompressed_len at (body ∷ more) p = none
plan_files (suc fuel) l uncompressed_len at (body ∷ more) p =
    let q = seek body.start p.checkpoint p.here p.later in
    let taken = take_files (span_end uncompressed_len q.later) body.end (body ∷ more) in
    cons_unit (span l q.checkpoint at (at + taken.count)) (
      plan_files fuel l uncompressed_len (at + taken.count) taken.left
        (resume taken.end q.checkpoint q.here q.later))

abbrev pub body_of : Option Entry → Option Body
body_of none = none
body_of (some entry) = some (record { start = entry.offset; end = entry.offset + entry.size })

abbrev pub cons_body : Option Body → Option (List Body) → Option (List Body)
cons_body none bodies = none
cons_body (some body) none = none
cons_body (some body) (some bodies) = some (body ∷ bodies)

-- The bodies of a layer's files; `none` where the table does not hold one, which the source indexes.
unfoldable pub bodies_of : Table → List ℕ → Option (List Body)
bodies_of table [] = some []
bodies_of table (file ∷ files) =
    cons_body (body_of (get_elem? table.entries file)) (bodies_of table files)

-- What one layer contributes: its blob's length and its index.
pub record Layer : Type 0 where
  pub blob_len : ℕ
  pub index : Index

-- An index has a checkpoint: building one begins with the start of the stream, and reading one
-- refuses an empty list.
abbrev pub plan_from : ℕ → ℕ → ℕ → List Checkpoint → Option (List Body) → Option (List WorkUnit)
plan_from fuel l uncompressed_len checkpoints none = none
plan_from fuel l uncompressed_len [] (some bodies) = none
plan_from fuel l uncompressed_len (here ∷ later) (some bodies) =
    plan_files fuel l uncompressed_len 0 bodies
      (record { checkpoint = 0; here = here; later = later })

-- The spans of one layer.
unfoldable pub plan_layer : ℕ → ℕ → Index → Table → List ℕ → Option (List WorkUnit)
unfolding plan_files bodies_of
plan_layer fuel l index table files =
    plan_from fuel l index.uncompressed_len index.checkpoints (bodies_of table files)

abbrev pub digests : ℕ → List ℕ → List WorkUnit
digests l [] = []
digests l (file ∷ files) = digest l ∷ []

abbrev pub append_units :
    List WorkUnit → Option (List WorkUnit) → Option (List WorkUnit) → Option (List WorkUnit)
append_units first none rest = none
append_units first (some units) none = none
append_units first (some units) (some more) = some (first ++ (units ++ more))

-- The loop over the layers, from the one numbered `l`. A layer that has no file has no unit.
unfoldable pub plan_layers :
    ℕ → ℕ → List Layer → List Table → List (List ℕ) → Option (List WorkUnit)
unfolding plan_layer
plan_layers fuel l (layer ∷ layers) (table ∷ tables) (files ∷ more) =
    append_units (digests l files)
      (if leb 1 (length files) then plan_layer fuel l layer.index table files else some [])
      (plan_layers fuel (suc l) layers tables more)
plan_layers fuel l _ _ _ = some []

abbrev pub blob_len_of : Option Layer → ℕ
blob_len_of none = 0
blob_len_of (some layer) = layer.blob_len

abbrev pub end_of : Option Body → ℕ
end_of none = 0
end_of (some body) = body.end

abbrev pub entry_of : Option Table → Option ℕ → Option Entry
entry_of (some table) (some file) = get_elem? table.entries file
entry_of (some table) none = none
entry_of none file = none

abbrev pub file_of : Option (List ℕ) → ℕ → Option ℕ
file_of none at = none
file_of (some files) at = get_elem? files at

abbrev pub out_offset_of : Option Checkpoint → ℕ
out_offset_of none = 0
out_offset_of (some point) = point.out_offset

abbrev pub checkpoint_of : Option Layer → ℕ → Option Checkpoint
checkpoint_of none c = none
checkpoint_of (some layer) c = get_elem? layer.index.checkpoints c

-- `Unit::weight`
unfoldable pub weight : List Layer → Work → List Table → WorkUnit → ℕ
weight layers work tables (digest l) = blob_len_of (get_elem? layers l)
weight layers work tables (span l c first last) =
    end_of (body_of (entry_of (get_elem? tables l) (file_of (get_elem? work.files l) (last - 1))))
    - out_offset_of (checkpoint_of (get_elem? layers l) c)

abbrev pub sort_units : (WorkUnit → ℕ) → Option (List WorkUnit) → Option (List WorkUnit)
sort_units weigh none = none
sort_units weigh (some units) = some (sort (λ a b. ltb (weigh b) (weigh a)) units)

-- `plan_units`: the heaviest units first.
unfoldable pub plan_units : ℕ → List Layer → Work → List Table → Option (List WorkUnit)
unfolding plan_layers weight sort
plan_units fuel layers work tables =
    sort_units (weight layers work tables) (plan_layers fuel 0 layers tables work.files)
