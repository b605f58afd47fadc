-- ===== src/Core/Disposal.antt =====
-- packages/core/src/container.ts: the disposal of a container's instances, dependants first.
-- Injectables and handles are numbers, which the maps only compare.
pub mod Once
pub mod Sorted
pub mod Order
use neemata.Common.{
  ℕ, zero, suc, Bool, true, false, List, [], ◌∷◌, ◌++◌, ◌==◌, if◌then◌else◌, map, length, mem,
}

-- `instances` and `dependants` of `Container`, each map in the order of its keys.
pub record Instances : Type 0 where
  pub instances : List (ℕ × List ℕ)
  pub dependants : List (ℕ × List ℕ)

-- `get`, with no entry for an empty list.
abbrev pub entries : ℕ → List (ℕ × List ℕ) → List ℕ
entries i [] = []
entries i ((j, xs) ∷ rest) = if j == i then xs else entries i rest

abbrev pub keys : List (ℕ × List ℕ) → List ℕ
keys = map (λ e. e.0)

-- The variables of `getDisposalOrder`.
pub record Walk : Type 0 where
  pub visited : List ℕ
  pub result : List ℕ

abbrev pub mark : ℕ → Walk → Walk
mark i w = record w { visited = i ∷ w.visited }

abbrev pub push_owned : List ℕ → ℕ → Walk → Walk
push_owned live i w = if mem i live then record w { result = w.result ++ (i ∷ []) } else w

-- The loop of `visit` over the dependants that have an instance.
unfoldable pub for_live : List ℕ → (ℕ → Walk → Walk) → List ℕ → Walk → Walk
for_live live f [] w = w
for_live live f (d ∷ ds) w = for_live live f ds (if mem d live then f d w else w)

-- `visit`, on fuel for the depth of its recursion.
unfoldable pub visit : List ℕ → (ℕ → List ℕ) → ℕ → ℕ → Walk → Walk
unfolding for_live
visit live edges zero i w = w
visit live edges (suc fuel) i w =
    let done = push_owned live i (for_live live (visit live edges fuel) (edges i) (mark i w)) in
    if mem i w.visited then w else done

abbrev pub start : Walk
start = record { visited = []; result = [] }

-- Each nested visit marks another instance, so that their number bounds the depth.
abbrev pub walk : List ℕ → (ℕ → List ℕ) → Walk
unfolding for_live visit
walk live edges = for_live live (visit live edges (suc (length live))) live start

-- `getDisposalOrder`.
unfoldable pub get_disposal_order : Instances → List ℕ
unfolding visit
get_disposal_order c = (walk (keys c.instances) (λ i. entries i c.dependants)).result

-- `dispose`, once the pending resolutions are settled: the handles that are disposed, by injectable,
-- and the container that is left. A disposal that throws is logged and does not stop the others.
unfoldable pub disposed : List ℕ → List (ℕ × List ℕ) → List (ℕ × List ℕ)
disposed [] instances = []
disposed (i ∷ is) instances = (i, entries i instances) ∷ disposed is instances

unfoldable pub dispose : Instances → List (ℕ × List ℕ) × Instances
unfolding get_disposal_order disposed
dispose c =
    (disposed (get_disposal_order c) c.instances, record { instances = []; dependants = [] })
