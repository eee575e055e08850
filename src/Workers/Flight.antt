-- ===== src/Workers/Flight.antt =====
-- The entries that workers have in hand, and how a step of one worker changes their number.
use mathlib.Core.Option.{some-injective}
use dedup.Prelude.{
  ◌⊎◌, inl, inr, sym, ◌∙◌, Bool, true, false, not, ◌==◌, if◌then◌else◌, ℕ, zero, suc, ◌+◌, ◌≡◌,
  refl, some, List, [], ◌∷◌, get_elem?, set, replicate, arith,
}
use dedup.Workers.{Worker, visiting, listing, counting}

-- The sum of a weight of the workers.
abbrev pub total : (Worker → ℕ) → List Worker → ℕ
total f [] = 0
total f (w ∷ ws) = f w + total f ws

pub total-set :
    (f : Worker → ℕ) (ws : List Worker) (i : ℕ) (w w' : Worker)
    → get_elem? ws i ≡ some w
    → total f (set ws i w') + f w ≡ total f ws + f w'
total-set f [] i w w' at = absurd (ground arith)
total-set f (v ∷ ws) zero w w' at = ground arith
total-set f (v ∷ ws) (suc i) w w' at = omega (arith, total-set f ws i w w' at)

pub total-replicate : (f : Worker → ℕ) (n : ℕ) (w : Worker) → f w ≡ 0 → total f (replicate n w) ≡ 0
total-replicate f zero w h = refl
total-replicate f (suc n) w h = omega (arith, h, total-replicate f n w h)

pub get_elem?-set :
    (ws : List Worker) (i j : ℕ) (v w : Worker)
    → get_elem? (set ws i w) j ≡ some v
    → (w ≡ v) ⊎ (get_elem? ws j ≡ some v)
get_elem?-set [] i j v w at = inr at
get_elem?-set (u ∷ ws) zero zero v w at = inl (some-injective w v at)
get_elem?-set (u ∷ ws) zero (suc j) v w at = inr at
get_elem?-set (u ∷ ws) (suc i) zero v w at = inr at
get_elem?-set (u ∷ ws) (suc i) (suc j) v w at = get_elem?-set ws i j v w at

pub get_elem?-set_self :
    (ws : List Worker) (i : ℕ) (v w : Worker)
    → get_elem? ws i ≡ some v
    → get_elem? (set ws i w) i ≡ some w
get_elem?-set_self [] i v w at = absurd (ground arith)
get_elem?-set_self (u ∷ ws) zero v w at = refl
get_elem?-set_self (u ∷ ws) (suc i) v w at = get_elem?-set_self ws i v w at

-- Another worker is where it was; the one that stepped was in its old place.
pub get_elem?-unset :
    (ws : List Worker) (i j : ℕ) (u v w : Worker)
    → get_elem? ws i ≡ some u
    → get_elem? ws j ≡ some v
    → ((u ≡ v) × (get_elem? (set ws i w) i ≡ some w)) ⊎ (get_elem? (set ws i w) j ≡ some v)
get_elem?-unset [] i j u v w at_i at_j = inr at_j
get_elem?-unset (x ∷ ws) zero zero u v w at_i at_j =
    inl (some-injective u v (sym at_i ∙ at_j), refl)
get_elem?-unset (x ∷ ws) zero (suc j) u v w at_i at_j = inr at_j
get_elem?-unset (x ∷ ws) (suc i) zero u v w at_i at_j = inr at_j
get_elem?-unset (x ∷ ws) (suc i) (suc j) u v w at_i at_j = get_elem?-unset ws i j u v w at_i at_j

-- An entry that a worker has in hand.
abbrev pub held : Worker → ℕ
held (visiting fe) = 1
held (listing fe fm old) = 1
held w = 0

-- A duplicate that is listed and not yet counted.
abbrev pub owed : Worker → ℕ
owed (counting fm old) = if not (fm.clone_id == old.clone_id) then 1 else 0
owed w = 0

abbrev pub is_listing : Worker → Bool
is_listing (listing fe fm old) = true
is_listing w = false
