-- ===== src/Nodes.antt =====
-- core/nodeStore: the nearest nodes. `add_all` and `get` are `Add` and `Get` of kademlia.go, `add_id`
-- is `AddId` of logic_id.go. An id is the bytes of its hash, which its text in base 58 stands for; the
-- ids of the logical network (`GetNodeNetworkNum`) are a field, one for each id that is kept.
pub mod Numbers
pub mod Nearest
pub mod Kept
use polarcloud.Prelude.{
  ℕ, ◌+◌, Bool, true, false, not, ◌||◌, List, [], ◌∷◌, ◌++◌, Option, none, some, leb, ◌==◌, eq_text,
  map, if◌then◌else◌,
}
use Numbers.{Bytes, number, bytes_of, xor}

unfoldable pub has_node : ℕ → List ℕ → Bool
has_node node [] = false
has_node node (n ∷ nodes) = n == node || has_node node nodes

-- `Add`
unfoldable pub add_all : List ℕ → List ℕ → List ℕ
add_all [] nodes = nodes
add_all (one ∷ ones) nodes = add_all ones (if has_node one nodes then nodes else nodes ++ one ∷ [])

-- `Less`: the node is not further from the other one than this.
unfoldable pub less : ℕ → ℕ → ℕ → Bool
less find_node i j = leb (xor find_node i) (xor find_node j)

-- `sort.Sort` by `Less`: each node is moved to the front past those that it is less than.
unfoldable pub insert_node : ℕ → ℕ → List ℕ → List ℕ
insert_node find_node node [] = node ∷ []
insert_node find_node node (n ∷ nodes) =
    let rest = insert_node find_node node nodes in
    if less find_node node n then node ∷ n ∷ nodes else n ∷ rest

unfoldable pub sort_nodes : ℕ → List ℕ → List ℕ → List ℕ
sort_nodes find_node [] sorted = sorted
sort_nodes find_node (n ∷ nodes) sorted =
    sort_nodes find_node nodes (insert_node find_node n sorted)

unfoldable pub get : ℕ → List ℕ → List ℕ
get find_node nodes = sort_nodes find_node nodes []

pub record Ids : Type 0 where
  pub ids : List Bytes
  pub count : ℕ
  pub net_ids : List Bytes

-- `nearId[0].Bytes()`
unfoldable pub near_bytes : List ℕ → Bytes
near_bytes [] = []
near_bytes (n ∷ nodes) = bytes_of n

-- Whether an id stays, for one id of the logical network.
unfoldable pub stays : Bytes → Bytes → Bytes → Bool
stays id one net =
    eq_text one (near_bytes (get (number net) (add_all (number one ∷ number id ∷ []) [])))

-- The ids after the loop, and those it replaced.
unfoldable pub replace_ids : Bytes → List Bytes → List Bytes → List Bytes × List Bytes
replace_ids id [] nets = ([], [])
replace_ids id (one ∷ ids) [] = (one ∷ ids, [])
replace_ids id (one ∷ ids) (net ∷ nets) =
    let (kept, deleted) = replace_ids id ids nets in
    if stays id one net then (one ∷ kept, deleted) else (id ∷ kept, one ∷ deleted)

unfoldable pub is_in : Bytes → List Bytes → Bool
is_in id [] = false
is_in id (one ∷ ids) = eq_text id one || is_in id ids

-- Those replaced that are kept nowhere else.
unfoldable pub removed : List Bytes → List Bytes → List Bytes
removed [] ids = []
removed (one ∷ deleted) ids =
    let rest = removed deleted ids in if is_in one ids then rest else one ∷ rest

abbrev is_some_id : List Bytes → Bool
is_some_id [] = false
is_some_id (one ∷ ids) = true

unfoldable pub add_id : Bytes → Ids → (Bool × List Bytes) × Ids
add_id id s =
    let (kept, deleted) = replace_ids id s.ids s.net_ids in
    let ok = is_some_id deleted in
    if s.count == 0 then ((true, []), record s { ids = map (λ one. id) s.ids; count = 1 }) else (
      (ok, removed deleted kept),
      record s { ids = kept; count = if ok then s.count + 1 else s.count },
    )
