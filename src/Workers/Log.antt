-- ===== src/Workers/Log.antt =====
-- A sequence of whole visits with one more at its end.
use mathlib.Core.Option.{some-injective}
use dedup.Prelude.{
  ℕ, ◌≡◌, sym, ◌∙◌, ap, Option, some, List, [], ◌∷◌, ◌++◌, inl, inr, Option-cases, All,
}
use dedup.Rb.{RbTree}
use dedup.Metadata.{Digester, Pointer}
use dedup.Visit.{VisitContext, visit_entry, visit_all}

pub visit_all-snoc :
    (rb : RbTree) (env : Digester) (log : List (ℕ × Option Pointer)) (address : ℕ)
    (fm : Option Pointer) (ctx seq : VisitContext rb)
    → visit_all rb env log ctx ≡ some seq
    → visit_all rb env (log ++ (address, fm) ∷ []) ctx ≡ visit_entry rb env address fm seq
unfolding visit_all
visit_all-snoc rb env [] address fm ctx seq run =
    let same : ctx ≡ seq = some-injective ctx seq run in
    elim (Option-cases (visit_entry rb env address fm ctx)) [
      | inl stuck ↦ rw (visit_all, stuck) (sym stuck ∙ ap (visit_entry rb env address fm) same)
      | inr (next, step) ↦ rw (visit_all, step) (sym step ∙ ap (visit_entry rb env address fm) same)
    ]
visit_all-snoc rb env ((a, f) ∷ log) address fm ctx seq run =
    elim (Option-cases (visit_entry rb env a f ctx)) [
      | inl stuck ↦ cc (rw (visit_all, stuck) at run)
      | inr (next, step) ↦
          rw (visit_all, step)
            (visit_all-snoc rb env log address fm next seq (rw (visit_all, step) at run))
    ]

pub All-snoc {ℓ} :
    {A : Type 0} (P : A → Type ℓ) (xs : List A) (x : A) → All P xs → P x → All P (xs ++ x ∷ [])
All-snoc P [] x all last = (last, tt)
All-snoc P (y ∷ ys) x (first, rest) last = (first, All-snoc P ys x rest last)
