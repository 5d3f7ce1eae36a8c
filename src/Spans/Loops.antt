-- ===== src/Spans/Loops.antt =====
-- The three inner loops of `plan_units` (source/src/extract/spans.rs).
use rules_oci_runtime.Prelude.{
  ℕ, suc, ◌≤◌, ◌<◌, ◌≡◌, refl, sym, ap, ◌∙◌, List, [], ◌∷◌, ◌++◌, All, length, ltb, leb, Bool-cases,
  inl, inr, arith,
}
use mathlib.Core.List.{append_assoc}
use rules_oci_runtime.Zinfo.{Checkpoint}
use rules_oci_runtime.Spans.{Body, Position, Taken, span_end, seek, resume, take_files}

-- Bodies that follow each other, the first at `e` or later.
abbrev pub Apart : ℕ → List Body → Type 0
Apart e [] = Unit
Apart e (body ∷ more) = (e ≤ body.start) × (body.start ≤ body.end) × Apart body.end more

-- A position in the list of the checkpoints.
pub record IsAt (checkpoints : List Checkpoint) (p : Position) : Type 0 where
  pub before : List Checkpoint
  pub split : checkpoints ≡ before ++ (p.here ∷ p.later)
  pub counted : length before ≡ p.checkpoint

length-snoc : (xs : List Checkpoint) (x : Checkpoint) → length (xs ++ (x ∷ [])) ≡ suc (length xs)
length-snoc [] x = refl
length-snoc (y ∷ xs) x = ap suc (length-snoc xs x)

-- One checkpoint on.
IsAt-next :
    (checkpoints : List Checkpoint) (c : ℕ) (here next : Checkpoint) (later : List Checkpoint)
    → IsAt checkpoints (record { checkpoint = c; here = here; later = next ∷ later })
    → IsAt checkpoints (record { checkpoint = suc c; here = next; later = later })
IsAt-next checkpoints c here next later a = record {
  before = a.before ++ (here ∷ []);
  split = a.split ∙ sym (append_assoc a.before (here ∷ []) (next ∷ later));
  counted = length-snoc a.before here ∙ ap suc a.counted;
}

-- The checkpoint whose span a body begins in.
pub record IsSought (checkpoints : List Checkpoint) (uncompressed_len start : ℕ) (p : Position)
    : Type 0 where
  pub at : IsAt checkpoints p
  pub begun : p.here.out_offset ≤ start
  pub ahead : start < span_end uncompressed_len p.later

pub seek-IsSought :
    (checkpoints : List Checkpoint) (uncompressed_len start c : ℕ) (here : Checkpoint)
    (later : List Checkpoint)
    → IsAt checkpoints (record { checkpoint = c; here = here; later = later })
    → here.out_offset ≤ start
    → start < uncompressed_len
    → IsSought checkpoints uncompressed_len start (seek start c here later)
unfolding seek
seek-IsSought checkpoints len start c here [] a b h = record { at = a; begun = b; ahead = h }
seek-IsSought checkpoints len start c here (next ∷ later) a b h =
    elim (Bool-cases (leb next.out_offset start)) [
      | inl e ↦ rw e (
          seek-IsSought checkpoints len start (suc c) next later
            (IsAt-next checkpoints c here next later a) (ground arith) h)
      | inr e ↦ rw e (record { at = a; begun = b; ahead = ground arith })
    ]

-- Resuming goes no further than the end.
pub record IsResumed (checkpoints : List Checkpoint) (end : ℕ) (p : Position) : Type 0 where
  pub at : IsAt checkpoints p
  pub begun : p.here.out_offset ≤ end

pub resume-IsResumed :
    (checkpoints : List Checkpoint) (end c : ℕ) (here : Checkpoint) (later : List Checkpoint)
    → IsAt checkpoints (record { checkpoint = c; here = here; later = later })
    → here.out_offset ≤ end
    → IsResumed checkpoints end (resume end c here later)
unfolding resume
resume-IsResumed checkpoints end c here [] a b = record { at = a; begun = b }
resume-IsResumed checkpoints end c here (next ∷ later) a b =
    elim (Bool-cases (ltb next.out_offset end)) [
      | inl e ↦ rw e (
          resume-IsResumed checkpoints end (suc c) next later
            (IsAt-next checkpoints c here next later a) (ground arith))
      | inr e ↦ rw e (record { at = a; begun = b })
    ]

-- What the loop over the files took: a run of the bodies, which begin at `low` or later and below
-- the limit.
pub record IsTaken (limit low end : ℕ) (bodies : List Body) (t : Taken) : Type 0 where
  pub taken : List Body
  pub split : bodies ≡ taken ++ t.left
  pub counted : length taken ≡ t.count
  pub inside : All (λ (b : Body). (low ≤ b.start) × (b.start < limit)) taken
  pub apart : Apart t.end t.left
  pub further : end ≤ t.end

pub take_files-IsTaken :
    (limit low end : ℕ) (bodies : List Body)
    → low ≤ end
    → Apart end bodies
    → IsTaken limit low end bodies (take_files limit end bodies)
unfolding take_files
take_files-IsTaken limit low end [] l a = record {
  taken = [];
  split = refl;
  counted = refl;
  inside = tt;
  apart = tt;
  further = omega arith;
}
take_files-IsTaken limit low end (body ∷ more) l a = elim (Bool-cases (ltb body.start limit)) [
  | inl e ↦
      let t = take_files-IsTaken limit low body.end more (omega (arith, a.0, a.1)) a.2 in
      rw e (record {
        taken = body ∷ t.taken;
        split = ap (λ bs. body ∷ bs) t.split;
        counted = ap suc t.counted;
        inside = ((omega (arith, a.0), ground arith), t.inside);
        apart = t.apart;
        further = omega (arith, a.0, a.1, t.further);
      })
  | inr e ↦ rw e (record {
    taken = [];
    split = refl;
    counted = refl;
    inside = tt;
    apart = a;
    further = omega arith;
  })
]
