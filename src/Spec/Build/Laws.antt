-- ===== src/Spec/Build/Laws.antt =====
-- When `Spec::build` of source/src/spec.rs succeeds, what it runs, and how far the container is
-- kept apart.
use rules_oci_runtime.Prelude.{
  ◌≡◌, ◌≢◌, ◌↔◌, ◌⊎◌, inl, inr, refl, sym, ap, ◌∙◌, Option, List, [], ◌∷◌, ◌++◌, Bytes, All, ok,
  >>=-eq-ok, ok-injective,
}
use mathlib.Core.Path.{subst}
use rules_oci_runtime.Spec.Env.{or_empty, resolve_env}
use rules_oci_runtime.Spec.Env.Definition.{IsDefinition}
use rules_oci_runtime.Spec.Env.Resolved.{resolve_env_iff}
use rules_oci_runtime.Spec.Build.{
  SpecOptions, Spec, resolve_args, some_args, command_or, spec_of, build,
}

-- The arguments are the entrypoint's and then what the caller asks for or, where that is nothing,
-- what the image does; and they are not empty.
pub record IsRun (o : SpecOptions) (args : List Bytes) : Type 0 where
  pub behind : List Bytes
  pub joined : args ≡ or_empty o.image.entrypoint ++ behind
  pub chosen :
      ((o.command ≢ []) × (behind ≡ o.command))
      ⊎ ((o.command ≡ []) × (behind ≡ or_empty o.image.cmd))
  pub given : args ≢ []

some_args_iff : (all args : List Bytes) → (some_args all ≡ ok args) ↔ ((args ≡ all) × (args ≢ []))
some_args_iff [] args = (λ h. cc, λ h. absurd (h.1 h.0))
some_args_iff (a ∷ more) args = (λ h. (sym (ok-injective _ args h), λ e. cc), λ h. ap ok (sym h.0))

resolve_args_iff :
    (o : SpecOptions) (args : List Bytes)
    → (resolve_args o.image o.command ≡ ok args) ↔ IsRun o args
unfolding resolve_args
resolve_args_iff o args = (
  λ h.
      let (j, g) =
        (some_args_iff (first ++ command_or o.command (or_empty o.image.cmd)) args).0 h in
      record {
        behind = command_or o.command (or_empty o.image.cmd);
        joined = j;
        chosen = choice o.command;
        given = g;
      },
  λ r.
      (some_args_iff (first ++ command_or o.command (or_empty o.image.cmd)) args).1
        (r.joined ∙ ap (λ b. first ++ b) (taken o.command r.behind r.chosen), r.given),
)
  where
    first : List Bytes
    first = or_empty o.image.entrypoint

    choice :
        (command : List Bytes)
        → ((command ≢ []) × (command_or command (or_empty o.image.cmd) ≡ command))
          ⊎ ((command ≡ []) × (command_or command (or_empty o.image.cmd) ≡ or_empty o.image.cmd))
    choice [] = inr (refl, refl)
    choice (c ∷ cs) = inl (λ e. cc, refl)

    taken :
        (command behind : List Bytes)
        → ((command ≢ []) × (behind ≡ command)) ⊎ ((command ≡ []) × (behind ≡ or_empty o.image.cmd))
        → behind ≡ command_or command (or_empty o.image.cmd)
    taken [] behind (inl (n, e)) = absurd (n refl)
    taken [] behind (inr (n, e)) = e
    taken (c ∷ cs) behind (inl (n, e)) = e
    taken (c ∷ cs) behind (inr (n, e)) = cc

-- A configuration that runs these arguments is built exactly when they are the image's entrypoint
-- followed by the caller's command or, where that is empty, by the image's own, there is at least
-- one, and every variable, of the image and extra, is NAME=VALUE with a name that is not empty and
-- holds neither `=` nor NUL.
pub build_iff :
    (o : SpecOptions) (term : Option Bytes) (args : List Bytes)
    → ((spec : Spec) × (build o term ≡ ok spec) × (spec.process.args ≡ args))
      ↔ (IsRun o args × All IsDefinition (or_empty o.image.env ++ o.extra_env))
unfolding build
build_iff o term args = (
  λ (spec, h, e).
      let (found, h₁, k₁) = >>=-eq-ok (resolve_args o.image o.command) _ h in
      let (env, h₂, k₂) = >>=-eq-ok (resolve_env o.image o.extra_env o.terminal term) _ k₁ in
      (
        subst (IsRun o) (ap (λ s. s.process.args) (ok-injective _ spec k₂) ∙ e)
            ((resolve_args_iff o found).0 h₁),
        (resolve_env_iff o.image o.extra_env o.terminal term).0 (env, h₂),
      ),
  λ (a, d).
      let (env, h₂) = (resolve_env_iff o.image o.extra_env o.terminal term).1 d in
      (spec_of o args env, rw ((resolve_args_iff o args).1 a, h₂) refl, refl),
)
