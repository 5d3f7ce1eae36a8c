-- ===== src/Lib.antt =====
-- The launcher of rules_oci_runtime: source/src, the Rust program that takes an OCI image apart
-- and starts a container from it.
--
-- An image is a list of layers, each a compressed tar stream. A build step records each layer's
-- entries in an entry table beside the layer (source/src/entries.rs). At run time the tables of
-- all the layers are replayed into the tree the image leaves (source/src/extract/plan.rs), and
-- the plan says which files need not be written, which directories there are, and, where nothing
-- has to be resolved against the file system, what to place directly. Where a plan cannot be
-- made the layers are walked one by one.
--
-- The parts and their files:
--
-- Fsutil: source/src/fsutil.rs, the spelling of entry paths. `components`, `safe_components`,
--   `canonical_entry_path` and `names_the_root` have the names of their functions; a path is a
--   byte string, and the buffer that a function fills is its result.
-- Whiteout: source/src/extract/whiteout.rs, the markers that hide what lower layers hold.
-- Entries: source/src/entries.rs, one function of the model for each of the codec. A reader
--   takes the body and a position and gives the value and the next position (`Codec.Take`); a
--   writer takes what was written so far and gives it with more. `Deflate` is the flate2
--   library.
-- OrderedMap: what the source uses of the standard library's ordered map, by its sorted entries.
-- The modules under Plan: source/src/extract/plan.rs. `Key` is `Key::cmp`; `Tree` the nodes and
--   what stands on the way to a path; `Removal` is `remove_under`; `Replay`, `Canonicalise`,
--   `Placeable`, `Directories` and `Resolve` are the functions of those names;
--   `Resolve.Doomed` describes the bodies that a layer need not place without the code's test. A
--   tree that the source changes in place is an argument and a result.
-- Spec: source/src/spec.rs, the container's configuration: arguments, environment and mounts.
-- Image: source/src/image.rs, digests, platforms, the check of what a blob holds and the search
--   for a manifest. The hash, the files under `blobs` and the reading of a nested index are
--   parameters; the bound of eight lists that `resolve_manifest_descriptor` takes from its queue
--   is the fuel of `search`, and running out of it is the source's own error.
-- Cli: source/src/cli.rs, `expand_env` as a machine over the characters, and `Toggle`, whose
--   True and False are `on` and `off`. The variables of the process are a parameter.
-- Rootfs: source/src/rootfs.rs, the resolved image that a build step records. `check` is
--   `Table::check`; `Rootfs.Stitch` is `stitch` and `into_plan`, where an index that would be out
--   of range is `none`; `Rootfs.Codec` is `write_to` and `read_from`, with `for _ in 0..n` as
--   `take_times`.
-- Zinfo: source/src/zinfo.rs, the index of where a compressed layer can be resumed, and its codec:
--   `write_zinfo` and `read_zinfo` are `Index::write_to` and `Index::read_from`, on the bytes of a
--   reader. `WindowCodec` is the flate2 library on a reader. `Zinfo.Stored` is `Index::stored` and the arm of `extract_span_into` for it.
-- Spans: source/src/extract/spans.rs, `plan_units`. A `Unit` of the source is a `WorkUnit`, and the
--   indices at which its loops stand are lists of what is still ahead (`Position`, `Taken`). The
--   outer loop has fuel: as many rounds as there are files are enough where the files begin inside
--   the stream.
-- The modules under Lazy: source/src/lazy/tree.rs, the inodes of an image that is served without
--   being extracted. `Tree` holds the nodes and their mutations, where a mutation that stops part
--   way leaves what it did; `Build` is `Tree::build`. `Lazy.Source` is source/src/lazy/source.rs, the span of a body and how far it is inflated, where
--   what the decompression of a span comes to is a parameter.
-- Profile: source/src/profile.rs, the merging of a run and paths as lines. The counts are not cut
--   to 64 bits.
-- Prelude and Errors hold what the others share, and Tests runs the theorems at concrete inputs.
--
-- Numbers are natural numbers. A field of w bytes is written by its bytes (`to_le_bytes w`), and
-- a theorem on it asks that it is below 256 ^ w, as its type in the source says. The other loops
-- are over a list that is given and have no fuel. `sort_unstable` is an insertion sort that
-- keeps the order of equal elements: the keys of hard links differ, and files of equal offset
-- have no order in the source. `Plan::resolve` is given one descriptor for each table, as its
-- callers do; the model stops at the shorter list.
--
-- Not modelled: the walk of the layers and the threads that place bodies
-- (source/src/extract/mod.rs, entry.rs, file.rs, pipeline.rs, and the workers of spans.rs), the
-- requests to the lazy file system (the rest of source/src/lazy), the building of an index and
-- decompression (zinfo.rs), the store (store.rs), the parsing of the command line, the files of
-- profiles, processes, system calls, and the log. Of entries.rs the building of a table from a tar
-- stream, which is the tar crate's, and of fsutil.rs what acts on the file system.
pub mod Cli
pub mod Entries
pub mod Errors
pub mod Fsutil
pub mod Image
pub mod Lazy
pub mod OrderedMap
pub mod Plan
pub mod Prelude
pub mod Profile
pub mod Rootfs
pub mod Spans
pub mod Spec
pub mod Tests
pub mod Whiteout
pub mod Zinfo
