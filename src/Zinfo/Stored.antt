-- ===== src/Zinfo/Stored.antt =====
-- Layers that are not compressed (`Index::stored` of source/src/zinfo.rs, and the spans that
-- `extract_span_into` takes from them): windows over the blob.
use rules_oci_runtime.Prelude.{
  ℕ, zero, suc, ◌+◌, ◌-◌, ◌*◌, ◌/◌, ◌≤◌, ◌<◌, ◌≡◌, refl, sym, ap, ◌∙◌, true, false, not, ◌&&◌, ◌||◌,
  Option, none, some, List, [], ◌∷◌, ◌++◌, Bytes, length, length-drop, take, drop, take_all, ◌==◌,
  ltb, leb, if◌then◌else◌, arith,
}
use mathlib.Core.List.{append-nil}
use native.Mathlib.Nat.{zero-mul, suc-mul, le-div_iff_mul-le}
use rules_oci_runtime.Entries.Codec.{get_range}
use rules_oci_runtime.Zinfo.{stored, Checkpoint, Index}
use rules_oci_runtime.Spans.{span_end}

-- `max` with one.
abbrev pub at_least_one : ℕ → ℕ
at_least_one zero = 1
at_least_one (suc n) = suc n

-- `len.div_ceil(span).max(1)`, for a span that is not empty.
abbrev pub windows_of : ℕ → ℕ → ℕ
windows_of len span = at_least_one ((len + (span - 1)) / span)

-- The windows from the one numbered `n`.
unfoldable pub stored_points : ℕ → ℕ → ℕ → List Checkpoint
stored_points span n zero = []
stored_points span n (suc count) =
    record { in_offset = n * span; bits = 0; out_offset = n * span; window = []; crc = 0 }
    ∷ stored_points span (suc n) count

-- `Index::stored`
unfoldable pub stored_index : ℕ → ℕ → Index
unfolding stored_points
stored_index len span = record {
  flavor = stored;
  uncompressed_len = len;
  checkpoints = stored_points (at_least_one span) 0 (windows_of len (at_least_one span));
}

-- `extract_span_into` of a stored index: `none` where the checkpoint lies beyond the blob or the
-- blob ends inside the span.
unfoldable pub extract_stored : Bytes → ℕ → Checkpoint → List Checkpoint → Option Bytes
unfolding get_range
extract_stored blob uncompressed_len point later =
    if ltb (length blob) point.in_offset || (not (point.bits == 0) && point.in_offset == 0)
    then none
    else get_range blob point.in_offset
        (point.in_offset + (span_end uncompressed_len later - point.out_offset))

abbrev pub join : Option Bytes → Option Bytes → Option Bytes
join none rest = none
join (some bytes) none = none
join (some bytes) (some rest) = some (bytes ++ rest)

-- Every span of an index, one behind the other.
abbrev pub all_spans : Bytes → ℕ → List Checkpoint → Option Bytes
all_spans blob uncompressed_len [] = some []
all_spans blob uncompressed_len (point ∷ later) =
    join (extract_stored blob uncompressed_len point later) (all_spans blob uncompressed_len later)

take-append_drop : (m : ℕ) (xs : Bytes) → take m xs ++ drop m xs ≡ xs
take-append_drop zero xs = refl
take-append_drop (suc m) [] = refl
take-append_drop (suc m) (x ∷ xs) = ap (λ t. x ∷ t) (take-append_drop m xs)

drop-nil : (m : ℕ) → drop {A = ℕ} m [] ≡ []
drop-nil zero = refl
drop-nil (suc m) = refl

drop-drop : (n m k : ℕ) (xs : Bytes) → k ≡ n + m → drop k xs ≡ drop m (drop n xs)
drop-drop zero m k xs e = ap (λ j. drop j xs) (e ∙ omega arith)
drop-drop (suc n) m zero xs e = absurd (omega arith)
drop-drop (suc n) m (suc k) [] e = sym (drop-nil m)
drop-drop (suc n) m (suc k) (x ∷ xs) e = drop-drop n m k xs (omega arith)

-- Every window begins inside the blob.
window_inside : (len span n : ℕ) → n < windows_of len (suc span) → n * suc span ≤ len
window_inside len span n h = go ((len + (suc span - 1)) / suc span) refl h
  where
    go : (q : ℕ) → (len + (suc span - 1)) / suc span ≡ q → n < at_least_one q → n * suc span ≤ len
    go zero e k = let none_before : n ≡ 0 = omega arith in rw none_before (omega arith)
    go (suc q) e k =
        let most : suc n ≤ (len + (suc span - 1)) / suc span = omega arith in
        let some_span : 0 < suc span = omega arith in
        let wide : suc n * suc span ≤ len + (suc span - 1) = (le-div_iff_mul-le some_span).0 most in
        let more : suc n * suc span ≡ n * suc span + suc span = suc-mul n (suc span) in omega arith

extract_stored_window :
    (blob : Bytes) (uncompressed_len : ℕ) (point : Checkpoint) (later : List Checkpoint)
    → point.bits ≡ 0
    → point.in_offset ≡ point.out_offset
    → point.out_offset ≤ span_end uncompressed_len later
    → span_end uncompressed_len later ≤ length blob
    → extract_stored blob uncompressed_len point later
      ≡ some
          (take (span_end uncompressed_len later - point.out_offset) (drop point.out_offset blob))
unfolding extract_stored get_range
extract_stored_window blob uncompressed_len point later b o s e =
    let in_blob : ltb (length blob) point.out_offset ≡ false = ground arith in
    let in_order : leb point.out_offset
          (point.out_offset + (span_end uncompressed_len later - point.out_offset))
        ≡ true =
      ground arith in
    let whole : leb (point.out_offset + (span_end uncompressed_len later - point.out_offset))
          (length blob)
        ≡ true =
      ground arith in
    let width : point.out_offset
          + (span_end uncompressed_len later - point.out_offset)
          - point.out_offset
        ≡ span_end uncompressed_len later - point.out_offset =
      omega arith in
    rw (b, o, in_blob, in_order, whole, width) refl

-- The windows from the one numbered `n` give the blob from there on.
all_spans-stored_points :
    (blob : Bytes) (span n count : ℕ)
    → ((k : ℕ) → k < n + suc count → k * suc span ≤ length blob)
    → all_spans blob (length blob) (stored_points (suc span) n (suc count))
      ≡ some (drop (n * suc span) blob)
unfolding stored_points
all_spans-stored_points blob span n zero inside =
    let here = inside n (omega arith) in
    let long : length (drop (n * suc span) blob) ≤ length blob - n * suc span =
      omega (arith, length-drop (n * suc span) blob) in
    rw
      (
        extract_stored_window blob (length blob)
            (record {
              in_offset = n * suc span;
              bits = 0;
              out_offset = n * suc span;
              window = [];
              crc = 0;
            })
            [] refl refl here (omega arith),
        take_all (drop (n * suc span) blob) (length blob - n * suc span) long,
        append-nil (drop (n * suc span) blob),
      )
      refl
all_spans-stored_points blob span n (suc count) inside =
    let next = inside (suc n) (omega arith) in
    let wide : suc n * suc span ≡ n * suc span + suc span = suc-mul n (suc span) in
    let step : suc n * suc span - n * suc span ≡ suc span = omega (arith, wide) in
    rw
      (
        extract_stored_window blob (length blob)
            (record {
              in_offset = n * suc span;
              bits = 0;
              out_offset = n * suc span;
              window = [];
              crc = 0;
            })
            (stored_points (suc span) (suc n) (suc count)) refl refl (omega (arith, wide)) next,
        all_spans-stored_points blob span (suc n) count (λ k h. inside k (omega arith)),
        step,
        drop-drop (n * suc span) (suc span) (suc n * suc span) blob wide,
        take-append_drop (suc span) (drop (n * suc span) blob),
      )
      refl

all_spans-windows :
    (blob : Bytes) (span : ℕ)
    → all_spans blob
        (length blob)
        (stored_points (suc span) 0 (windows_of (length blob) (suc span)))
      ≡ some blob
all_spans-windows blob span =
    go (windows_of (length blob) (suc span)) refl
      (some_window ((length blob + (suc span - 1)) / suc span))
  where
    some_window : (q : ℕ) → 1 ≤ at_least_one q
    some_window zero = omega arith
    some_window (suc q) = omega arith

    go :
        (count : ℕ)
        → windows_of (length blob) (suc span) ≡ count
        → 1 ≤ windows_of (length blob) (suc span)
        → all_spans blob (length blob) (stored_points (suc span) 0 count) ≡ some blob
    go zero e one = absurd (omega arith)
    go (suc count) e one =
        all_spans-stored_points blob span 0 count
          (λ k h. window_inside (length blob) span k (omega arith))
        ∙ ap (λ j. some (drop j blob)) (zero-mul (suc span))

-- The windows over a blob that is not compressed lie inside it, and taken one behind the other they
-- are the blob.
pub all_spans-stored_index :
    (blob : Bytes) (span : ℕ)
    → all_spans blob (length blob) (stored_index (length blob) span).checkpoints ≡ some blob
unfolding stored_index
all_spans-stored_index blob zero = all_spans-windows blob 0
all_spans-stored_index blob (suc span) = all_spans-windows blob span
