-- ===== src/Workers/Hands.antt =====
-- The entries that the workers have in hand, as one list, and how a step of one worker changes it.
use mathlib.Core.List.{Permᴰ}
use mathlib.Core.List.Permᴰ
use dedup.Prelude.{ℕ, zero, suc, ◌≡◌, refl, some, List, [], ◌∷◌, ◌++◌, arith, get_elem?, set}
use mathlib.Core.Option.{some-injective}
use dedup.Entry.{FileEntry}
use dedup.Workers.{Worker, visiting, listing}

abbrev pub hand : Worker → List FileEntry
hand (visiting fe) = fe ∷ []
hand (listing fe fm old) = fe ∷ []
hand w = []

abbrev pub hands : List Worker → List FileEntry
hands [] = []
hands (w ∷ ws) = hand w ++ hands ws

pub hands-set_same :
    (ws : List Worker) (i : ℕ) (w w' : Worker)
    → get_elem? ws i ≡ some w
    → hand w' ≡ hand w
    → Permᴰ (hands (set ws i w')) (hands ws)
hands-set_same [] i w w' at same = absurd (ground arith)
hands-set_same (v ∷ ws) zero w w' at same = rw (same, some-injective v w at) (Permᴰ.refl _)
hands-set_same (v ∷ ws) (suc i) w w' at same =
    Permᴰ.append_left (hand v) (hands-set_same ws i w w' at same)

-- A worker that had nothing takes an entry.
pub hands-set_take :
    (ws : List Worker) (i : ℕ) (w w' : Worker) (e : FileEntry)
    → get_elem? ws i ≡ some w
    → hand w ≡ []
    → hand w' ≡ e ∷ []
    → Permᴰ (hands (set ws i w')) (e ∷ hands ws)
hands-set_take [] i w w' e at was now = absurd (ground arith)
hands-set_take (v ∷ ws) zero w w' e at was now = rw (now, some-injective v w at, was) (Permᴰ.refl _)
hands-set_take (v ∷ ws) (suc i) w w' e at was now =
    Permᴰ.trans (Permᴰ.append_left (hand v) (hands-set_take ws i w w' e at was now))
      (Permᴰ.middle e (hand v) (hands ws))

-- A worker that had an entry is done with it.
pub hands-set_free :
    (ws : List Worker) (i : ℕ) (w w' : Worker) (e : FileEntry)
    → get_elem? ws i ≡ some w
    → hand w ≡ e ∷ []
    → hand w' ≡ []
    → Permᴰ (hands ws) (e ∷ hands (set ws i w'))
hands-set_free [] i w w' e at was now = absurd (ground arith)
hands-set_free (v ∷ ws) zero w w' e at was now = rw (some-injective v w at, was, now) (Permᴰ.refl _)
hands-set_free (v ∷ ws) (suc i) w w' e at was now =
    Permᴰ.trans (Permᴰ.append_left (hand v) (hands-set_free ws i w w' e at was now))
      (Permᴰ.middle e (hand v) (hands (set ws i w')))

pub hands-none :
    (ws : List Worker)
    → ((i : ℕ) (w : Worker) → get_elem? ws i ≡ some w → hand w ≡ [])
    → hands ws ≡ []
hands-none [] none_held = refl
hands-none (w ∷ ws) none_held =
    rw (none_held 0 w refl) (hands-none ws (λ i v at. none_held (suc i) v at))
