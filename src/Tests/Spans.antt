-- ===== src/Tests/Spans.antt =====
-- A layer of three files and two checkpoints, for source/src/extract/spans.rs.
use rules_oci_runtime.Prelude.{ℕ, ◌≡◌, refl, some, List, [], ◌∷◌, Bytes, codes, arith}
use rules_oci_runtime.Entries.{file, Entry, Table}
use rules_oci_runtime.Tests.Images.{an_entry}
use rules_oci_runtime.Zinfo.{gzip, Checkpoint, Index}
use rules_oci_runtime.Spans.{
  WorkUnit, span, Body, plan_layer, plan_files, bodies_of, seek, resume, take_files,
}
use rules_oci_runtime.Spans.Tiles.{Tiles, plan_layer-Tiles}
use rules_oci_runtime.Errors.{no_command}
use rules_oci_runtime.Prelude.{ok, none, ◌+◌, ◌≤◌}
use rules_oci_runtime.Lazy.Source.{Window, inflate_body}
use rules_oci_runtime.Lazy.Source.Covers.{inflate_body_covers}
use rules_oci_runtime.Lazy.Tree
use rules_oci_runtime.Spans.Ends.{Begun, plan_layer-Begun}

abbrev point_at : ℕ → ℕ → Checkpoint
point_at in_offset out_offset = record {
  in_offset = in_offset;
  bits = 0;
  out_offset = out_offset;
  window = [];
  crc = 0;
}

abbrev two_points : Index
two_points = record {
  flavor = gzip;
  uncompressed_len = 4096;
  checkpoints = point_at 10 0 ∷ (point_at 900 2048 ∷ []);
}

abbrev sized : Bytes → ℕ → ℕ → Entry
sized path offset size = record (an_entry file path [] offset) { size = size }

abbrev three_files : Table
three_files = record {
  layer = codes "one";
  entries =
      sized (codes "a") 512 100 ∷ (sized (codes "b") 1024 2000 ∷ (sized (codes "c") 3584 10 ∷ []));
}

abbrev three_bodies : List Body
three_bodies =
    record { start = 512; end = 612 }
    ∷ (record { start = 1024; end = 3024 } ∷ (record { start = 3584; end = 3594 } ∷ []))

abbrev two_spans : List WorkUnit
two_spans = span 0 0 0 2 ∷ (span 0 1 2 3 ∷ [])

bodies_of-three_files : bodies_of three_files (0 ∷ (1 ∷ (2 ∷ []))) ≡ some three_bodies
unfolding bodies_of
bodies_of-three_files = refl

plan_layer-three_files : plan_layer 2 0 two_points three_files (0 ∷ (1 ∷ (2 ∷ []))) ≡ some two_spans
unfolding plan_layer bodies_of plan_files seek resume take_files
plan_layer-three_files = refl

plan_layer-Tiles_example :
    (units : List WorkUnit) × (plan_layer 3 0 two_points three_files (0 ∷ (1 ∷ (2 ∷ [])))
      ≡ some units)
    × Tiles 0 4096 two_points.checkpoints three_bodies 0 units
plan_layer-Tiles_example =
    plan_layer-Tiles 0 two_points (point_at 10 0) (point_at 900 2048 ∷ []) three_files
      (0 ∷ (1 ∷ (2 ∷ []))) three_bodies refl refl bodies_of-three_files
      (omega arith, omega arith, (omega arith, omega arith, (omega arith, omega arith, tt)))
      (omega arith, (omega arith, (omega arith, tt)))

plan_layer-Begun_example : Begun 4096 three_bodies
plan_layer-Begun_example =
    plan_layer-Begun 2 0 two_points three_files (0 ∷ (1 ∷ (2 ∷ []))) three_bodies two_spans
      (omega arith, (omega arith, tt)) bodies_of-three_files plan_layer-three_files

abbrev across : Tree.Body
across = record { layer = 0; offset = 1024; size = 2000; sha256 = none }

inflate_body_covers_example :
    (window : Window) × (inflate_body (λ i. ok tt) no_command two_points across ≡ some (ok window))
    × (window.base ≤ across.offset)
    × (across.offset + across.size ≤ window.end)
    × (window.end ≤ two_points.uncompressed_len)
inflate_body_covers_example =
    inflate_body_covers (λ i. ok tt) no_command two_points across (point_at 10 0)
      (point_at 900 2048 ∷ []) refl refl (omega arith, omega arith, (omega arith, omega arith, tt))
      (omega arith, (omega arith, tt)) (λ i. refl) (omega arith)
