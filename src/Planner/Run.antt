-- ===== src/Planner/Run.antt =====
-- The operations of a plan, run on an installation. A tree gives for each lookup key the digest of
-- the file there; file systems that fold case are covered since a key folds case too.
use lib_auto_updater.Base.{
  ◌≡◌, refl, sym, ◌∙◌, Bool, true, false, Option, some, none, List, [], ◌∷◌, map, arith, All,
  All-map, subst, Bool-cases, inl, inr, if◌then◌else◌,
}
use lib_auto_updater.Base.Text.{Bytes, bytes_eq, bytes_eq_turn, bytes_eq_same}
use lib_auto_updater.ManagedPath.{managed_path_lookup_key}
use lib_auto_updater.ManagedPath.Sorted.{AllPairs}
use lib_auto_updater.Planner.Decision.{select}
use lib_auto_updater.Planner.Types.{ApplyOperation, replace, remove}

abbrev pub Tree : Type 0
Tree = Bytes → Option Bytes

-- The key and the digest that an operation leaves.
abbrev pub effect_of : ApplyOperation → Bytes × Option Bytes
effect_of (replace source target sha256 size) = (managed_path_lookup_key target, some sha256)
effect_of (remove target) = (managed_path_lookup_key target, none)

abbrev put : Tree → Bytes × Option Bytes → Tree
put tree (key, digest) k = if bytes_eq key k then digest else tree k

pub run_operations : List ApplyOperation → Tree → Tree
run_operations [] tree = tree
run_operations (op ∷ ops) tree = run_operations ops (put tree (effect_of op))

-- A key and the digest that the manifest wants there, and whether an operation has to bring it.
pub record Goal : Type 0 where
  pub operation : ApplyOperation
  pub needed : Bool

abbrev pub goal_key : Goal → Bytes
goal_key g = (effect_of g.operation).0

abbrev pub wanted : Goal → Option Bytes
wanted g = (effect_of g.operation).1

abbrev pub needed_operations : List Goal → List ApplyOperation
needed_operations gs = map (λ g. g.operation) (select (λ g. g.needed) gs)

abbrev pub Holds : Tree → Goal → Type 0
Holds tree g = tree (goal_key g) ≡ wanted g

-- A goal that no operation has to bring holds already.
abbrev pub Ready : Tree → Goal → Type 0
Ready tree g = (g.needed ≡ false) → Holds tree g

abbrev pub OtherKey : Bytes → Goal → Type 0
OtherKey k g = bytes_eq (goal_key g) k ≡ false

pub untouched :
    (gs : List Goal) (tree : Tree) (k : Bytes)
    → All (OtherKey k) gs
    → run_operations (needed_operations gs) tree k ≡ tree k
unfolding run_operations
untouched [] tree k h = refl
untouched (g ∷ gs) tree k h = elim (Bool-cases g.needed) [
  | inl e ↦ rw e (untouched gs (put tree (effect_of g.operation)) k h.1 ∙ rw h.0)
  | inr e ↦ rw e (untouched gs tree k h.1)
]

-- What holds or is ready stays so while other keys are written.
Ready-after :
    (tree : Tree) (g : Goal) (gs : List Goal)
    → All (λ h. bytes_eq (goal_key g) (goal_key h) ≡ false) gs
    → All (Ready tree) gs
    → All (Ready (put tree (effect_of g.operation))) gs
Ready-after tree g [] d r = tt
Ready-after tree g (h ∷ hs) d r = (λ e. rw d.0 (r.0 e), Ready-after tree g hs d.1 r.1)

step_needed :
    (g : Goal) (gs : List Goal)
    → g.needed ≡ true
    → needed_operations (g ∷ gs) ≡ g.operation ∷ needed_operations gs
step_needed g gs e = ground arith

step_ready :
    (g : Goal) (gs : List Goal)
    → g.needed ≡ false
    → needed_operations (g ∷ gs) ≡ needed_operations gs
step_ready g gs e = ground arith

pub reached :
    (gs : List Goal) (tree : Tree)
    → AllPairs (λ g h. bytes_eq (goal_key g) (goal_key h) ≡ false) gs
    → All (Ready tree) gs
    → All (Holds (run_operations (needed_operations gs) tree)) gs
unfolding run_operations
reached [] tree d r = tt
reached (g ∷ gs) tree d r =
    let others : All (OtherKey (goal_key g)) gs =
      All-map (λ h e. bytes_eq_turn (goal_key h) (goal_key g) ∙ e) gs d.0 in
    elim (Bool-cases g.needed) [
      | inl e ↦
          let next = put tree (effect_of g.operation) in
          subst (λ ops. All (Holds (run_operations ops tree)) (g ∷ gs)) (sym (step_needed g gs e))
            (
              untouched gs next (goal_key g) others ∙ rw bytes_eq_same,
              reached gs next d.1 (Ready-after tree g gs d.0 r.1),
            )
      | inr e ↦
          subst (λ ops. All (Holds (run_operations ops tree)) (g ∷ gs)) (sym (step_ready g gs e))
            (untouched gs tree (goal_key g) others ∙ r.0 e, reached gs tree d.1 r.1)
    ]
