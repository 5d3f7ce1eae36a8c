-- ===== src/Spec/Mounts/RoundTrip.antt =====
-- Bind mounts written out, and `BindMount::parse` of source/src/spec.rs.
use rules_oci_runtime.Prelude.{
  ℕ, ◌≡◌, ◌≢◌, refl, ap, ◌∙◌, true, false, some, List, [], ◌∷◌, ◌++◌, Bytes, any, keep_if, All, ok,
  arith,
}
use rules_oci_runtime.Fsutil.{is_empty, split_on}
use rules_oci_runtime.Fsutil.Split.{Lacks, split_on_lacking, split_on-append}
use rules_oci_runtime.Spec.Env.{split_once}
use rules_oci_runtime.Spec.Mounts.{
  BindMount, fields, is_whitespace, begins_with_slash, is_given, given_options, or_rw, parse_fields,
  parse,
}

-- An option: something with no comma and no white space.
pub record IsOption (option : Bytes) : Type 0 where
  pub given : is_given option ≡ true
  pub single : Lacks b',' option
  pub unspaced : any is_whitespace option ≡ false

-- A mount as it can be asked for.
pub record IsBindMount (m : BindMount) : Type 0 where
  pub source_given : is_empty m.source ≡ false
  pub source_single : Lacks b':' m.source
  pub destination_single : Lacks b':' m.destination
  pub destination_absolute : begins_with_slash m.destination ≡ true
  pub options_given : m.options ≢ []
  pub options : All IsOption m.options

-- The options, separated by commas.
abbrev pub join_options : List Bytes → Bytes
join_options [] = []
join_options (o ∷ []) = o
join_options (o ∷ (p ∷ ps)) = o ++ (b',' ∷ join_options (p ∷ ps))

-- SOURCE:DESTINATION:OPTIONS
abbrev pub render : BindMount → Bytes
render m = m.source ++ (b':' ∷ (m.destination ++ (b':' ∷ join_options m.options)))

split_once-append :
    (c : ℕ) (xs ys : Bytes) → Lacks c xs → split_once c (xs ++ (c ∷ ys)) ≡ some (xs, ys)
unfolding split_once
split_once-append c [] ys h = ground arith
split_once-append c (x ∷ xs) ys h = rw (split_once-append c xs ys h.1) (ground (arith, h.0))

split_on-join_options :
    (o : Bytes) (os : List Bytes)
    → All IsOption (o ∷ os)
    → split_on b',' (join_options (o ∷ os)) ≡ o ∷ os
split_on-join_options o [] h = split_on_lacking b',' o h.0.single
split_on-join_options o (p ∷ ps) h =
    split_on-append b',' o _ h.0.single ∙ ap (λ t. o ∷ t) (split_on-join_options p ps h.1)

keep_if-All-IsOption : (os : List Bytes) → All IsOption os → keep_if is_given os ≡ os
keep_if-All-IsOption [] h = refl
keep_if-All-IsOption (o ∷ os) h = rw (h.0.given, keep_if-All-IsOption os h.1) refl

unspaced-All-IsOption : (os : List Bytes) → All IsOption os → any (any is_whitespace) os ≡ false
unspaced-All-IsOption [] h = refl
unspaced-All-IsOption (o ∷ os) h = rw (h.0.unspaced, unspaced-All-IsOption os h.1) refl

given_options-join_options :
    (os : List Bytes) → os ≢ [] → All IsOption os → given_options (join_options os) ≡ os
unfolding given_options
given_options-join_options [] n h = absurd (n refl)
given_options-join_options (o ∷ os) n h =
    rw (split_on-join_options o os h) (keep_if-All-IsOption (o ∷ os) h)

or_rw-given : (os : List Bytes) → os ≢ [] → or_rw os ≡ os
or_rw-given [] n = absurd (n refl)
or_rw-given (o ∷ os) n = refl

is_empty-absolute : (d : Bytes) → begins_with_slash d ≡ true → is_empty d ≡ false
is_empty-absolute [] h = cc
is_empty-absolute (c ∷ cs) h = refl

-- A mount written as SOURCE:DESTINATION:OPTIONS is read back.
pub parse-render : (m : BindMount) → IsBindMount m → parse (render m) ≡ ok m
unfolding parse fields parse_fields
parse-render m v =
    rw
      (
        split_once-append b':' m.source (m.destination ++ (b':' ∷ join_options m.options))
            v.source_single,
        split_once-append b':' m.destination (join_options m.options) v.destination_single,
        given_options-join_options m.options v.options_given v.options,
        v.source_given,
        is_empty-absolute m.destination v.destination_absolute,
        v.destination_absolute,
        unspaced-All-IsOption m.options v.options,
        or_rw-given m.options v.options_given,
      )
      refl
