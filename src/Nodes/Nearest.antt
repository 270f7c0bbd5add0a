-- ===== src/Nodes/Nearest.antt =====
-- `Get` puts the nearest node first.
use polarcloud.Prelude.{
  ℕ, ◌+◌, ◌≤◌, ◌≡◌, refl, inl, inr, List, [], ◌∷◌, leb, ◌==◌, All, if◌then◌else◌, Bool-cases, arith,
}
use polarcloud.Nodes.Numbers.{xor}
use polarcloud.Nodes.{less, insert_node, sort_nodes, get}

-- No node of the list is nearer.
abbrev pub Nearest : ℕ → ℕ → List ℕ → Type 0
Nearest f n = All (λ (m : ℕ). xor f n ≤ xor f m)

-- The nodes by their distance.
abbrev pub Sorted : ℕ → List ℕ → Type 0
Sorted f [] = Unit
Sorted f (n ∷ nodes) = Nearest f n nodes × Sorted f nodes

All-insert_node :
    (P : ℕ → Type 0) (f n : ℕ) (nodes : List ℕ) → P n → All P nodes → All P (insert_node f n nodes)
unfolding insert_node
All-insert_node P f n [] p h = (p, h)
All-insert_node P f n (m ∷ nodes) p (q, h) = elim (Bool-cases (less f n m)) [
  | inl l ↦ rw l (p, (q, h))
  | inr l ↦ rw l (q, All-insert_node P f n nodes p h)
]

All-weaken :
    (f n m : ℕ) (nodes : List ℕ) → xor f n ≤ xor f m → Nearest f m nodes → Nearest f n nodes
All-weaken f n m [] l h = tt
All-weaken f n m (k ∷ nodes) l (p, h) = (omega (arith, l, p), All-weaken f n m nodes l h)

insert_node-Sorted : (f n : ℕ) (nodes : List ℕ) → Sorted f nodes → Sorted f (insert_node f n nodes)
unfolding insert_node less
insert_node-Sorted f n [] h = (tt, tt)
insert_node-Sorted f n (m ∷ nodes) (b, h) = elim (Bool-cases (leb (xor f n) (xor f m))) [
  | inl l ↦
      let near : xor f n ≤ xor f m = ground (arith, l) in
      rw l ((near, All-weaken f n m nodes near b), (b, h))
  | inr l ↦
      let far : xor f m ≤ xor f n = ground (arith, l) in
      rw l (
        All-insert_node (λ (k : ℕ). xor f m ≤ xor f k) f n nodes far b,
        insert_node-Sorted f n nodes h,
      )
]

-- How often a node stands in a list.
unfoldable pub times : ℕ → List ℕ → ℕ
times n [] = 0
times n (m ∷ nodes) = (if m == n then 1 else 0) + times n nodes

times-insert_node :
    (f n m : ℕ) (nodes : List ℕ) → times n (insert_node f m nodes) ≡ times n (m ∷ nodes)
unfolding insert_node times
times-insert_node f n m [] = refl
times-insert_node f n m (k ∷ nodes) = elim (Bool-cases (less f m k)) [
  | inl l ↦ rw l refl
  | inr l ↦ rw l (omega (arith, times-insert_node f n m nodes))
]

sort_nodes-Sorted :
    (f : ℕ) (nodes sorted : List ℕ) → Sorted f sorted → Sorted f (sort_nodes f nodes sorted)
unfolding sort_nodes
sort_nodes-Sorted f [] sorted h = h
sort_nodes-Sorted f (n ∷ nodes) sorted h =
    sort_nodes-Sorted f nodes (insert_node f n sorted) (insert_node-Sorted f n sorted h)

times-sort_nodes :
    (f n : ℕ) (nodes sorted : List ℕ)
    → times n (sort_nodes f nodes sorted) ≡ times n nodes + times n sorted
unfolding sort_nodes times
times-sort_nodes f n [] sorted = omega arith
times-sort_nodes f n (m ∷ nodes) sorted =
    omega
      (arith, times-sort_nodes f n nodes (insert_node f m sorted), times-insert_node f n m sorted)

-- `Get` gives the nodes by their distance, the nearest first, each as often as it was there.
get-Sorted :
    (f n : ℕ) (nodes : List ℕ) → Sorted f (get f nodes) × (times n (get f nodes) ≡ times n nodes)
unfolding get times
get-Sorted f n nodes =
    (sort_nodes-Sorted f nodes [] tt, omega (arith, times-sort_nodes f n nodes []))
