-- ===== src/Wallet/Chain/Linked.antt =====
-- The chain after any blocks.
use Prim.Native.Nat.{◌^◌}
use polarcloud.Prelude.{
  ℕ, ◌+◌, ◌%◌, ◌≡◌, ◌≢◌, refl, sym, ap, ◌∙◌, inl, inr, Bool, true, false, List, [], ◌∷◌, ◌++◌,
  append_assoc, Option, none, some, ◌==◌, if◌then◌else◌, Bool-cases, arith,
}
use polarcloud.Wallet.Chain.{Block, Group, BlockHead, last_block, link}

-- All blocks, the oldest first, each with the height of its group.
abbrev pub tagged : ℕ → List Block → List (ℕ × Block)
tagged height [] = []
tagged height (b ∷ blocks) = (height, b) ∷ tagged height blocks

abbrev pub all_blocks : List Group → List (ℕ × Block)
all_blocks [] = []
all_blocks (g ∷ groups) = all_blocks groups ++ tagged g.height g.blocks

-- Each block is one higher than the one before it, in uint64.
abbrev pub Consecutive : List (ℕ × Block) → Type 0
Consecutive [] = Unit
Consecutive ((_, b) ∷ []) = Unit
Consecutive ((_, b) ∷ (h, c) ∷ rest) =
    (c.height ≡ (b.height + 1) % 2 ^ 64) × Consecutive ((h, c) ∷ rest)

-- No group is empty, and a group and the one before it differ in height.
abbrev pub AreGroups : List Group → Type 0
AreGroups [] = Unit
AreGroups (g ∷ []) = g.blocks ≢ []
AreGroups (g ∷ h ∷ groups) = (g.blocks ≢ []) × (g.height ≢ h.height) × AreGroups (h ∷ groups)

-- The block at the end of the flat chain, and whether a new one follows it.
abbrev pub last_entry : List (ℕ × Block) → Option Block
last_entry [] = none
last_entry ((_, b) ∷ []) = some b
last_entry ((_, b) ∷ entry ∷ rest) = last_entry (entry ∷ rest)

abbrev pub comes_after : ℕ → Option Block → Bool
comes_after height none = true
comes_after height (some last) = (last.height + 1) % 2 ^ 64 == height

-- The flat chain with one block more, if it follows.
abbrev pub extended : BlockHead → Block → List (ℕ × Block) → List (ℕ × Block)
extended bh new chain =
    if comes_after bh.height (last_entry chain) then chain ++ (bh.group_height, new) ∷ [] else chain

last_entry-append :
    (chain : List (ℕ × Block)) (entry : ℕ × Block) (rest : List (ℕ × Block))
    → last_entry (chain ++ entry ∷ rest) ≡ last_entry (entry ∷ rest)
last_entry-append [] entry rest = refl
last_entry-append ((_, b) ∷ []) entry rest = refl
last_entry-append ((_, b) ∷ c ∷ chain) entry rest = last_entry-append (c ∷ chain) entry rest

last_entry-tagged :
    (height : ℕ) (blocks : List Block) → last_entry (tagged height blocks) ≡ last_block blocks
unfolding last_block
last_entry-tagged height [] = refl
last_entry-tagged height (b ∷ []) = refl
last_entry-tagged height (b ∷ c ∷ blocks) = last_entry-tagged height (c ∷ blocks)

tagged-append :
    (height : ℕ) (blocks : List Block) (new : Block)
    → tagged height (blocks ++ new ∷ []) ≡ tagged height blocks ++ (height, new) ∷ []
tagged-append height [] new = refl
tagged-append height (b ∷ blocks) new = ap (λ t. (height, b) ∷ t) (tagged-append height blocks new)

some_last : (blocks : List Block) → blocks ≢ [] → (last : Block) × (last_block blocks ≡ some last)
unfolding last_block
some_last [] h = absurd (h refl)
some_last (b ∷ []) h = (b, refl)
some_last (b ∷ c ∷ blocks) h = some_last (c ∷ blocks) (λ e. cc)

group_blocks : (g : Group) (groups : List Group) → AreGroups (g ∷ groups) → g.blocks ≢ []
group_blocks g [] h = h
group_blocks g (f ∷ groups) (h, _, _) = h

last_entry-all_blocks :
    (g : Group) (groups : List Group)
    → g.blocks ≢ []
    → last_entry (all_blocks (g ∷ groups)) ≡ last_block g.blocks
last_entry-all_blocks g groups h = last_of g.blocks h
  where
    last_of :
        (blocks : List Block)
        → blocks ≢ []
        → last_entry (all_blocks groups ++ tagged g.height blocks) ≡ last_block blocks
    last_of [] n = absurd (n refl)
    last_of (b ∷ blocks) n =
        last_entry-append (all_blocks groups) (g.height, b) (tagged g.height blocks)
        ∙ last_entry-tagged g.height (b ∷ blocks)

grown_some : (blocks : List Block) (new : Block) → blocks ++ new ∷ [] ≢ []
grown_some [] new e = cc
grown_some (b ∷ blocks) new e = cc

grown_AreGroups :
    (g : Group) (groups : List Group) (new : Block)
    → AreGroups (g ∷ groups)
    → AreGroups ((record g { blocks = g.blocks ++ new ∷ [] }) ∷ groups)
grown_AreGroups g [] new h = grown_some g.blocks new
grown_AreGroups g (f ∷ groups) new (h, k, rest) = (grown_some g.blocks new, k, rest)

-- All groups and blocks of a chain are in order.
abbrev pub Linked : List Group → Type 0
Linked groups = AreGroups groups × Consecutive (all_blocks groups)

Consecutive-append :
    (chain : List (ℕ × Block)) (height : ℕ) (new : Block)
    → comes_after new.height (last_entry chain) ≡ true
    → Consecutive chain
    → Consecutive (chain ++ (height, new) ∷ [])
Consecutive-append [] height new e c = tt
Consecutive-append ((_, b) ∷ []) height new e c = (ground arith, tt)
Consecutive-append ((_, b) ∷ (h, c) ∷ chain) height new e (d, ds) =
    (d, Consecutive-append ((h, c) ∷ chain) height new e ds)

-- A chain whose blocks follow one another is extended to such a chain.
pub extended-Consecutive :
    (bh : BlockHead) (new : Block) (chain : List (ℕ × Block))
    → new.height ≡ bh.height
    → Consecutive chain
    → Consecutive (extended bh new chain)
extended-Consecutive bh new chain e c =
    elim (Bool-cases (comes_after bh.height (last_entry chain))) [
      | inr gap ↦ rw gap c
      | inl follows ↦ rw follows (Consecutive-append chain bh.group_height new (rw e follows) c)
    ]

link_step :
    (bh : BlockHead) (new : Block) (g : Group) (groups : List Group) (last : Block)
    → last_block g.blocks ≡ some last
    → link bh new (g ∷ groups)
      ≡ some (
          if comes_after bh.height (some last)
          then (
            true,
            if bh.group_height == g.height
                then (record g { blocks = g.blocks ++ new ∷ [] }) ∷ groups
                else (record { height = bh.group_height; blocks = new ∷ [] }) ∷ g ∷ groups,
          )
          else (false, g ∷ groups))
unfolding link
link_step bh new g groups last e = rw (e, link) refl

-- Linking a block never panics on groups that are not empty: it answers whether the block follows the
-- last one, adds it at the end of the flat chain then, and keeps the groups not empty and apart.
pub link-extended :
    (bh : BlockHead) (new : Block) (groups : List Group)
    → AreGroups groups
    → (linked : List Group) × (link bh new groups
        ≡ some (comes_after bh.height (last_entry (all_blocks groups)), linked))
      × AreGroups linked
      × (all_blocks linked ≡ extended bh new (all_blocks groups))
unfolding link
link-extended bh new [] h = (_, refl, (λ e. cc), refl)
link-extended bh new (g ∷ groups) h =
    let (last, e) = some_last g.blocks (group_blocks g groups h) in
    let f : last_entry (all_blocks (g ∷ groups)) ≡ some last =
      last_entry-all_blocks g groups (group_blocks g groups h) ∙ e in
    let step = link_step bh new g groups last e in
    elim (Bool-cases (comes_after bh.height (some last))) [
      | inr gap ↦
          let answer = ap (comes_after bh.height) f ∙ gap in
          (g ∷ groups, step ∙ rw (gap, answer) refl, h, rw answer refl)
      | inl follows ↦
          let answer = ap (comes_after bh.height) f ∙ follows in
          elim (Bool-cases (bh.group_height == g.height)) [
            | inl same ↦
                let eq_height : bh.group_height ≡ g.height = ground arith in
                (
                  (record g { blocks = g.blocks ++ new ∷ [] }) ∷ groups,
                  step ∙ rw (follows, answer, same) refl,
                  grown_AreGroups g groups new h,
                  rw (answer, eq_height, tagged-append)
                      (sym (append_assoc (all_blocks groups) (tagged g.height g.blocks) _)),
                )
            | inr other ↦ (
              (record { height = bh.group_height; blocks = new ∷ [] }) ∷ g ∷ groups,
              step ∙ rw (follows, answer, other) refl,
              ((λ k. cc), (λ k. ground arith), h),
              rw answer refl,
            )
          ]
    ]
