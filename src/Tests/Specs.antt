-- ===== src/Tests/Specs.antt =====
-- A container's configuration, for source/src/spec.rs.
use rules_oci_runtime.Prelude.{
  ◌≡◌, ◌↔◌, refl, true, false, none, some, List, [], ◌∷◌, ◌++◌, Bytes, ◌=b◌, All, codes, ok, arith,
}
use rules_oci_runtime.Spec.Env.{ImageConfig, or_empty, resolve_env}
use rules_oci_runtime.Spec.Env.Laws.{entry_of}
use rules_oci_runtime.Spec.Env.Definition.{IsDefinition}
use rules_oci_runtime.Spec.Env.Resolved.{
  last_named, or_last, default_entry, resolve_env-looked_up, resolve_env_iff,
}
use rules_oci_runtime.Spec.Mounts.{BindMount, parse, is_whitespace}
use rules_oci_runtime.Spec.Mounts.RoundTrip.{IsOption, IsBindMount, render, parse-render}
use rules_oci_runtime.Spec.Mounts.Accepted.{parse-IsBindMount}
use rules_oci_runtime.Spec.Build.{Spec, SpecOptions, build}
use rules_oci_runtime.Spec.Build.Laws.{IsRun, build_iff}

abbrev pub an_image : ImageConfig
an_image = record {
  env = some (codes "A=1" ∷ (codes "PATH=/bin" ∷ []));
  entrypoint = none;
  cmd = some (codes "sh" ∷ []);
  working_dir = none;
}

abbrev pub extra : List Bytes
extra = codes "A=2" ∷ []

abbrev pub values : List Bytes
values = codes "A=2" ∷ (codes "PATH=/bin" ∷ [])

resolve_env-an_image : resolve_env an_image extra false none ≡ ok values
unfolding resolve_env ◌=b◌
resolve_env-an_image = refl

resolve_env-looked_up_example :
    entry_of (codes "A") values
    ≡ or_last
        (last_named (codes "A") (or_empty an_image.env ++ extra))
        (default_entry false none (codes "A"))
resolve_env-looked_up_example =
    resolve_env-looked_up an_image extra false none values resolve_env-an_image (codes "A")

resolve_env_iff_example :
    ((out : List Bytes) × (resolve_env an_image extra false none ≡ ok out))
    ↔ All IsDefinition (or_empty an_image.env ++ extra)
resolve_env_iff_example = resolve_env_iff an_image extra false none

abbrev pub some_options : SpecOptions
some_options = record {
  rootless = true;
  terminal = false;
  readonly_rootfs = false;
  hostname = codes "box";
  uid = 1000;
  gid = 1000;
  image = an_image;
  extra_env = extra;
  bind_mounts = [];
  command = [];
  workdir = none;
}

build_iff_example :
    ((spec : Spec) × (build some_options none ≡ ok spec) × (spec.process.args ≡ codes "sh" ∷ []))
    ↔ (IsRun some_options (codes "sh" ∷ []) × All IsDefinition (or_empty an_image.env ++ extra))
build_iff_example = build_iff some_options none (codes "sh" ∷ [])

abbrev pub a_bind : BindMount
a_bind = record { source = codes "s"; destination = codes "/d"; options = codes "ro" ∷ [] }

ro_unspaced : IsOption (codes "ro")
unfolding is_whitespace
ro_unspaced = record {
  given = refl;
  single = ((λ e. omega arith), ((λ e. omega arith), tt));
  unspaced = refl;
}

a_bind-IsBindMount : IsBindMount a_bind
a_bind-IsBindMount = record {
  source_given = refl;
  source_single = ((λ e. omega arith), tt);
  destination_single = ((λ e. omega arith), ((λ e. omega arith), tt));
  destination_absolute = refl;
  options_given = λ e. cc;
  options = (ro_unspaced, tt);
}

parse-render_example : parse (render a_bind) ≡ ok a_bind
parse-render_example = parse-render a_bind a_bind-IsBindMount

parse-IsBindMount_example : IsBindMount a_bind
parse-IsBindMount_example = parse-IsBindMount (render a_bind) a_bind parse-render_example
