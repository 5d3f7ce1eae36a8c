-- ===== src/Lazy/Source/Covers.antt =====
-- What is inflated for a body covers it (source/src/lazy/source.rs).
use rules_oci_runtime.Prelude.{
  ℕ, suc, ◌+◌, ◌-◌, ◌≤◌, ◌<◌, ◌≡◌, ◌≢◌, refl, sym, Bool, true, false, ◌||◌, some, List, [], ◌∷◌,
  All, drop, ltb, leb, leb→le, if◌then◌else◌, Result, ok, err, ok-injective, >>=-eq-ok, ◌>>=◌, ◌>>◌,
  arith,
}
use mathlib.Core.Path.{subst}
use rules_oci_runtime.Errors.{Error}
use rules_oci_runtime.Zinfo.{Checkpoint, Index}
use rules_oci_runtime.Zinfo.Read.{Follows}
use rules_oci_runtime.Spans.{span_end}
use rules_oci_runtime.Lazy.Tree.{Body}
use rules_oci_runtime.Lazy.Build.{partition_point}
use rules_oci_runtime.Lazy.Source.{
  Window, at_or_before, span_of, extract_len, fill, fill_from, inflate_body,
}

-- Where the span of an offset was found: the checkpoint there is at or before it, and what follows
-- is in order.
record IsFound (uncompressed_len offset : ℕ) (points : List Checkpoint) (span : ℕ) : Type 0 where
  pub here : Checkpoint
  pub later : List Checkpoint
  pub found : drop span points ≡ here ∷ later
  pub begun : here.out_offset ≤ offset
  pub ordered : Follows here.in_offset here.out_offset later
  pub inside : All (λ (point : Checkpoint). point.out_offset ≤ uncompressed_len) (here ∷ later)
  pub ahead : offset < uncompressed_len → offset < span_end uncompressed_len later

find :
    (uncompressed_len offset : ℕ) (first : Checkpoint) (more : List Checkpoint)
    → first.out_offset ≤ offset
    → Follows first.in_offset first.out_offset more
    → All (λ (point : Checkpoint). point.out_offset ≤ uncompressed_len) (first ∷ more)
    → IsFound uncompressed_len offset (first ∷ more) (partition_point (at_or_before offset) more)
unfolding partition_point
find uncompressed_len offset first [] b f a = record {
  here = first;
  later = [];
  found = refl;
  begun = b;
  ordered = tt;
  inside = a;
  ahead = λ h. h;
}
find uncompressed_len offset first (next ∷ more) b f a =
    go (leb next.out_offset offset) refl (λ n. find uncompressed_len offset next more n f.2 a.1)
  where
    go :
        (t : Bool)
        → leb next.out_offset offset ≡ t
        → (next.out_offset ≤ offset
            → IsFound uncompressed_len offset
                (next ∷ more)
                (partition_point (at_or_before offset) more))
        → IsFound uncompressed_len offset
            (first ∷ (next ∷ more))
            (if t then suc (partition_point (at_or_before offset) more) else 0)
    go true e ih =
        let r = ih (leb→le next.out_offset offset e) in
        record {
          here = r.here;
          later = r.later;
          found = r.found;
          begun = r.begun;
          ordered = r.ordered;
          inside = r.inside;
          ahead = r.ahead;
        }
    go false e ih = record {
      here = first;
      later = next ∷ more;
      found = refl;
      begun = b;
      ordered = f;
      inside = a;
      ahead = λ h. ground arith;
    }

span_of-IsFound :
    (index : Index) (body : Body) (first : Checkpoint) (more : List Checkpoint)
    → index.checkpoints ≡ first ∷ more
    → first.out_offset ≡ 0
    → Follows 0 0 index.checkpoints
    → All (λ (point : Checkpoint). point.out_offset ≤ index.uncompressed_len) index.checkpoints
    → IsFound index.uncompressed_len body.offset index.checkpoints (span_of index body)
unfolding span_of partition_point
span_of-IsFound index body first more c z f a =
    let f' : Follows 0 0 (first ∷ more) = subst (Follows 0 0) c f in
    let a' : All (λ (point : Checkpoint). point.out_offset ≤ index.uncompressed_len)
        (first ∷ more) =
      subst (All _) c a in
    let passes : leb first.out_offset body.offset ≡ true = ground arith in
    let back : suc (partition_point (at_or_before body.offset) more) - 1
        ≡ partition_point (at_or_before body.offset) more =
      omega arith in
    rw (c, passes, back) (find index.uncompressed_len body.offset first more (omega arith) f'.2 a')

module _ (resume : ℕ → Result Error (Unit {0})) (past_the_end : Error) where
  extract_len-eq-ok :
      (uncompressed_len i : ℕ) (point : Checkpoint) (later : List Checkpoint) (len : ℕ)
      → extract_len resume past_the_end uncompressed_len i point later ≡ ok len
      → len ≡ span_end uncompressed_len later - point.out_offset
  extract_len-eq-ok uncompressed_len i point later len h = go (resume i) h
    where
      go :
          (r : Result Error (Unit {0}))
          → (r >> ok (span_end uncompressed_len later - point.out_offset)) ≡ ok len
          → len ≡ span_end uncompressed_len later - point.out_offset
      go (ok u) k = sym (ok-injective _ len k)
      go (err e) k = cc

  -- As far as the loop comes, it has filled the stream from the base on.
  fill_covers :
      (uncompressed_len needed base i : ℕ) (first : Bool) (filled out in_offset out_offset : ℕ)
      (points : List Checkpoint)
      → base + filled ≡ span_end uncompressed_len points
      → Follows in_offset out_offset points
      → All (λ (point : Checkpoint). point.out_offset ≤ uncompressed_len) points
      → fill resume past_the_end uncompressed_len needed i first filled points ≡ ok out
      → (needed ≤ out) × (base + out ≤ uncompressed_len)
  unfolding fill
  fill_covers uncompressed_len needed base i first filled out in_offset out_offset [] s f a h =
      go (ltb filled needed) first refl h
    where
      go :
          (b c : Bool)
          → ltb filled needed ≡ b
          → ◌≡◌ {A = Result Error ℕ} (if b || c then err past_the_end else ok filled) (ok out)
          → (needed ≤ out) × (base + out ≤ uncompressed_len)
      go true c e k = cc
      go false true e k = cc
      go false false e k =
          let same = ok-injective filled out k in
          let enough : needed ≤ filled = ground arith in (omega arith, omega arith)
  fill_covers uncompressed_len needed base i first filled out in_offset out_offset (point ∷ later) s
        f a h =
      go (ltb filled needed) first refl h (λ len k e.
        fill_covers uncompressed_len needed base (suc i) false (filled + len) out point.in_offset
          point.out_offset later e f.2 a.1 k)
    where
      on :
          (l : List Checkpoint)
          → Follows point.in_offset point.out_offset l
          → point.out_offset ≤ span_end uncompressed_len l
      on [] g = a.0
      on (q ∷ l) g = g.1

      more :
          (extract_len resume past_the_end uncompressed_len i point later >>= (λ (len : ℕ).
              fill resume past_the_end uncompressed_len needed (suc i) false (filled + len) later))
            ≡ ok out
          → ((len : ℕ)
              → fill resume past_the_end uncompressed_len needed (suc i) false (filled + len) later
                ≡ ok out
              → base + (filled + len) ≡ span_end uncompressed_len later
              → (needed ≤ out) × (base + out ≤ uncompressed_len))
          → (needed ≤ out) × (base + out ≤ uncompressed_len)
      more k ih =
          let (len, w, j) =
            >>=-eq-ok (extract_len resume past_the_end uncompressed_len i point later) _ k in
          let wide = extract_len-eq-ok uncompressed_len i point later len w in
          let ahead = on later f.2 in ih len j (omega arith)

      go :
          (b c : Bool)
          → ltb filled needed ≡ b
          → (if b || c
              then (extract_len resume past_the_end uncompressed_len i point later >>= (λ (len : ℕ).
                  fill resume past_the_end uncompressed_len needed
                    (suc i)
                    false
                    (filled + len)
                    later))
              else ok filled)
            ≡ ok out
          → ((len : ℕ)
              → fill resume past_the_end uncompressed_len needed (suc i) false (filled + len) later
                ≡ ok out
              → base + (filled + len) ≡ span_end uncompressed_len later
              → (needed ≤ out) × (base + out ≤ uncompressed_len))
          → (needed ≤ out) × (base + out ≤ uncompressed_len)
      go true c e k ih = more k ih
      go false true e k ih = more k ih
      go false false e k ih =
          let same = ok-injective filled out k in
          let enough : needed ≤ filled = ground arith in
          let inside = a.0 in (omega arith, omega arith)

  -- Where every span comes out, the loop ends with bytes enough, if the stream holds them.
  fill_ends :
      (uncompressed_len needed base i : ℕ) (first : Bool) (filled in_offset out_offset : ℕ)
      (points : List Checkpoint)
      → ((j : ℕ) → resume j ≡ ok tt)
      → (first ≡ true → points ≢ [])
      → base + needed ≤ uncompressed_len
      → base + filled ≡ span_end uncompressed_len points
      → Follows in_offset out_offset points
      → All (λ (point : Checkpoint). point.out_offset ≤ uncompressed_len) points
      → (out : ℕ) × (fill resume past_the_end uncompressed_len needed i first filled points
          ≡ ok out)
  unfolding fill
  fill_ends uncompressed_len needed base i true filled in_offset out_offset [] r n b s f a =
      absurd (n refl refl)
  fill_ends uncompressed_len needed base i false filled in_offset out_offset [] r n b s f a =
      let enough : ltb filled needed ≡ false = ground arith in (filled, rw enough refl)
  fill_ends uncompressed_len needed base i first filled in_offset out_offset (point ∷ later) r n b s
        f a =
      let len = span_end uncompressed_len later - point.out_offset in
      let ahead = on later f.2 in
      let (out, k) =
        fill_ends uncompressed_len needed base (suc i) false (filled + len) point.in_offset
          point.out_offset later r (λ e. cc) b (omega arith) f.2 a.1 in
      go (ltb filled needed || first) out k
    where
      on :
          (l : List Checkpoint)
          → Follows point.in_offset point.out_offset l
          → point.out_offset ≤ span_end uncompressed_len l
      on [] g = a.0
      on (q ∷ l) g = g.1

      go :
          (c : Bool) (out : ℕ)
          → fill resume past_the_end uncompressed_len needed
              (suc i)
              false
              (filled + (span_end uncompressed_len later - point.out_offset))
              later
            ≡ ok out
          → (out' : ℕ) × ((if c
                then (extract_len resume past_the_end uncompressed_len i point later
                    >>= (λ (len : ℕ).
                        fill resume past_the_end uncompressed_len needed
                          (suc i)
                          false
                          (filled + len)
                          later))
                else ok filled)
              ≡ ok out')
      go true out k = (out, rw (r i) k)
      go false out k = (filled, refl)

  -- For an index in order from the start of its stream, whose spans all come out, and a body inside
  -- the stream, inflating ends: with a window inside the stream that begins at or before the body
  -- and ends at its end or behind it.
  pub inflate_body_covers :
      (index : Index) (body : Body) (first : Checkpoint) (more : List Checkpoint)
      → index.checkpoints ≡ first ∷ more
      → first.out_offset ≡ 0
      → Follows 0 0 index.checkpoints
      → All (λ (point : Checkpoint). point.out_offset ≤ index.uncompressed_len) index.checkpoints
      → ((i : ℕ) → resume i ≡ ok tt)
      → body.offset + body.size ≤ index.uncompressed_len
      → (window : Window) × (inflate_body resume past_the_end index body ≡ some (ok window))
        × (window.base ≤ body.offset)
        × (body.offset + body.size ≤ window.end)
        × (window.end ≤ index.uncompressed_len)
  unfolding inflate_body
  inflate_body_covers index body first more c z f a r fits =
      from (span_of-IsFound index body first more c z f a)
    where
      from :
          IsFound index.uncompressed_len body.offset index.checkpoints (span_of index body)
          → (window : Window) × (fill_from resume past_the_end index body
                (span_of index body)
                (drop (span_of index body) index.checkpoints)
              ≡ some (ok window))
            × (window.base ≤ body.offset)
            × (body.offset + body.size ≤ window.end)
            × (window.end ≤ index.uncompressed_len)
      from q =
          let needed = body.offset + body.size - q.here.out_offset in
          let begun = q.begun in
          let (out, k) =
            fill_ends index.uncompressed_len needed q.here.out_offset (span_of index body) true 0
              q.here.in_offset q.here.out_offset (q.here ∷ q.later) r (λ e. λ n. cc) (omega arith)
              (omega arith) (omega arith, omega arith, q.ordered) q.inside in
          let (enough, inside) =
            fill_covers index.uncompressed_len needed q.here.out_offset (span_of index body) true 0
              out q.here.in_offset q.here.out_offset (q.here ∷ q.later) (omega arith)
              (omega arith, omega arith, q.ordered) q.inside k in
          (
            record { base = q.here.out_offset; end = q.here.out_offset + out },
            rw (q.found, k) refl,
            begun,
            omega arith,
            inside,
          )
