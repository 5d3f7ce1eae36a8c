-- ===== src/Lazy/Source.antt =====
-- The spans that a body is served from, source/src/lazy/source.rs: which one it begins in, how far
-- inflating goes, and the bytes of the body in what was inflated.
pub mod Covers
use rules_oci_runtime.Prelude.{
  ℕ, zero, suc, ◌+◌, ◌-◌, Bool, true, false, ◌||◌, Option, none, some, List, [], ◌∷◌, ◌++◌, Bytes,
  get_elem?, take, drop, ltb, leb, if◌then◌else◌, Result, ok, err, ◌>>=◌, ◌>>◌,
}
use rules_oci_runtime.Errors.{Error}
use rules_oci_runtime.Entries.Codec.{get_range}
use rules_oci_runtime.Zinfo.{Checkpoint, Index}
use rules_oci_runtime.Spans.{span_end}
use rules_oci_runtime.Lazy.Tree.{Body}
use rules_oci_runtime.Lazy.Build.{partition_point}

-- `Window`: the stretch of the stream that the buffer holds.
pub record Window : Type 0 where
  pub base : ℕ
  pub end : ℕ

abbrev pub at_or_before : ℕ → Checkpoint → Bool
at_or_before offset point = leb point.out_offset offset

-- `span_of`
unfoldable pub span_of : Index → Body → ℕ
unfolding partition_point
span_of index body = partition_point (at_or_before body.offset) index.checkpoints - 1

abbrev pub between : ℕ → List Checkpoint → Option (ℕ × ℕ)
between uncompressed_len [] = none
between uncompressed_len (point ∷ later) = some (point.out_offset, span_end uncompressed_len later)

abbrev pub window_in : Option Index → ℕ → Option (ℕ × ℕ)
window_in none span = none
window_in (some index) span = between index.uncompressed_len (drop span index.checkpoints)

-- `window_of`: where the span begins and ends in the stream.
unfoldable pub window_of : List Index → ℕ → ℕ → Option (ℕ × ℕ)
window_of layers layer span = window_in (get_elem? layers layer) span

-- `resume i` is whether the decompression libraries give the span of checkpoint `i`, with its
-- checksum; `past_the_end` is the failure of a body that the layer does not hold.
module _ (resume : ℕ → Result Error (Unit {0})) (past_the_end : Error) where
  -- `extract_span_into`, by the number of bytes that it reports.
  abbrev pub extract_len : ℕ → ℕ → Checkpoint → List Checkpoint → Result Error ℕ
  extract_len uncompressed_len i point later =
      resume i >> ok (span_end uncompressed_len later - point.out_offset)

  -- `while filled < needed || at == start`, over the checkpoints from the one numbered `i` on.
  unfoldable pub fill : ℕ → ℕ → ℕ → Bool → ℕ → List Checkpoint → Result Error ℕ
  fill uncompressed_len needed i first filled [] =
      if ltb filled needed || first then err past_the_end else ok filled
  fill uncompressed_len needed i first filled (point ∷ later) =
      let rest = λ (len : ℕ). fill uncompressed_len needed (suc i) false (filled + len) later in
      if ltb filled needed || first
      then (extract_len uncompressed_len i point later >>= rest)
      else ok filled

  abbrev pub fill_from : Index → Body → ℕ → List Checkpoint → Option (Result Error Window)
  fill_from index body i [] = none
  fill_from index body i (point ∷ later) = some (
      fill index.uncompressed_len (body.offset + body.size - point.out_offset) i true 0
        (point ∷ later)
      >>= λ filled. ok (record { base = point.out_offset; end = point.out_offset + filled }))

  -- `inflate`, once the layer is verified: `none` where there is no checkpoint, which the source indexes.
  unfoldable pub inflate_body : Index → Body → Option (Result Error Window)
  unfolding span_of fill
  inflate_body index body =
      fill_from index body (span_of index body) (drop (span_of index body) index.checkpoints)

-- `bytes`: the body in the buffer, of which the window's bytes are fresh.
unfoldable pub bytes_of : Body → Window → Bytes → Option Bytes
unfolding get_range
bytes_of body window buffer =
    get_range (take (window.end - window.base) buffer) (body.offset - window.base)
      (body.offset - window.base + body.size)
