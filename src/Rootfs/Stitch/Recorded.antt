-- ===== src/Rootfs/Stitch/Recorded.antt =====
-- `Table::into_plan` of source/src/rootfs.rs on every branch.
use rules_oci_runtime.Prelude.{
  ℕ, suc, ◌≡◌, ◌↔◌, refl, sym, ap, ◌∙◌, Bool, true, false, List, [], ◌∷◌, Bytes, ◌==◌, ==_iff, ◌=b◌,
  =b_iff, length, if◌then◌else◌, ok, err, ok-injective, >>=-eq-ok, ◌>>=◌, arith,
}
use rules_oci_runtime.Errors.{mismatched_sidecar}
use rules_oci_runtime.Entries.{Table}
use rules_oci_runtime.Plan.Resolve.{Plan}
use rules_oci_runtime.Rootfs.{RootfsTable}
use rules_oci_runtime.Rootfs.Stitch.{resolved_plan, same_layers, into_plan}

-- The digests that the tables are of.
abbrev pub digests_of : List Table → List Bytes
digests_of [] = []
digests_of (table ∷ more) = table.layer ∷ digests_of more

same_layers_iff :
    (path : Bytes) (tables : List Table) (digests : List Bytes)
    → length tables ≡ length digests
    → (same_layers path tables digests ≡ ok tt) ↔ (digests_of tables ≡ digests)
unfolding same_layers
same_layers_iff path [] [] l = (λ h. refl, λ h. refl)
same_layers_iff path [] (digest ∷ digests) l = cc
same_layers_iff path (table ∷ tables) [] l = cc
same_layers_iff path (table ∷ tables) (digest ∷ digests) l =
    let rest = same_layers_iff path tables digests (omega arith) in
    (
      λ h. to (table.layer =b digest) refl rest h,
      λ h.
          let here : (table.layer =b digest) ≡ true =
            (=b_iff table.layer digest).1
              (cons_head table.layer digest (digests_of tables) digests h) in
          rw here (rest.1 (cons_tail table.layer digest (digests_of tables) digests h)),
    )
  where
    to :
        (b : Bool)
        → (table.layer =b digest) ≡ b
        → (same_layers path tables digests ≡ ok tt) ↔ (digests_of tables ≡ digests)
        → (if b
            then same_layers path tables digests
            else err (mismatched_sidecar path digest table.layer))
          ≡ ok tt
        → (table.layer ∷ digests_of tables) ≡ (digest ∷ digests)
    to true e rest h = cc ((=b_iff table.layer digest).0 e, rest.0 h)
    to false e rest h = cc

    cons_head : (x y : Bytes) (xs ys : List Bytes) → (x ∷ xs) ≡ (y ∷ ys) → x ≡ y
    cons_head x y xs ys h = cc

    cons_tail : (x y : Bytes) (xs ys : List Bytes) → (x ∷ xs) ≡ (y ∷ ys) → xs ≡ ys
    cons_tail x y xs ys h = cc

length-digests_of : (tables : List Table) → length (digests_of tables) ≡ length tables
length-digests_of [] = refl
length-digests_of (table ∷ more) = ap suc (length-digests_of more)

-- A table gives a plan exactly when it names the manifest and, one by one and in order, the digests
-- of the layers that are asked for, and the plan is then the one it records.
pub into_plan_iff :
    (layers_text : ℕ → Bytes) (t : RootfsTable) (path manifest : Bytes) (digests : List Bytes)
    (plan : Plan)
    → (into_plan layers_text t path manifest digests ≡ ok plan)
      ↔ ((t.manifest ≡ manifest) × (digests_of t.layers ≡ digests) × (resolved_plan t ≡ plan))
unfolding into_plan
into_plan_iff layers_text t path manifest digests plan = (to (t.manifest =b manifest) refl, from)
  where
    Right : Type 0
    Right = (t.manifest ≡ manifest) × (digests_of t.layers ≡ digests) × (resolved_plan t ≡ plan)

    counted :
        (b : Bool)
        → (length t.layers == length digests) ≡ b
        → t.manifest ≡ manifest
        → (if b
            then same_layers path t.layers digests >>= (λ u. ok (resolved_plan t))
            else err (
                mismatched_sidecar path
                  (layers_text (length digests))
                  (layers_text (length t.layers))))
          ≡ ok plan
        → Right
    counted false l m h = cc
    counted true l m h =
        let (u, s, k) =
          >>=-eq-ok (same_layers path t.layers digests) (λ u. ok (resolved_plan t)) h in
        (
          m,
          (same_layers_iff path t.layers digests
                ((==_iff (length t.layers) (length digests)).0 l)).0
              s,
          ok-injective _ _ k,
        )

    to :
        (b : Bool)
        → (t.manifest =b manifest) ≡ b
        → (if b
            then (if length t.layers == length digests
                then same_layers path t.layers digests >>= (λ u. ok (resolved_plan t))
                else err (
                    mismatched_sidecar path
                      (layers_text (length digests))
                      (layers_text (length t.layers))))
            else err (mismatched_sidecar path manifest t.manifest))
          ≡ ok plan
        → Right
    to false m h = cc
    to true m h =
        counted (length t.layers == length digests) refl ((=b_iff t.manifest manifest).0 m) h

    from : Right → into_plan layers_text t path manifest digests ≡ ok plan
    from (m, ds, p) =
        let same : (t.manifest =b manifest) ≡ true = (=b_iff t.manifest manifest).1 m in
        let long : length t.layers ≡ length digests =
          sym (length-digests_of t.layers) ∙ ap (λ (x : List Bytes). length x) ds in
        let counts : (length t.layers == length digests) ≡ true =
          (==_iff (length t.layers) (length digests)).1 long in
        let layers = (same_layers_iff path t.layers digests long).1 ds in
        rw (same, counts, layers, p) refl
