-- ===== src/Ds/Rbtree/Walks.antt =====
-- The destruction, the walk rbtree_LDR and LevelOrder, which prints a tree level by level, of rbtree.c.
use my_resource.Base.{
  ℕ, zero, suc, ◌+◌, ◌*◌, ◌/◌, ◌%◌, ◌^◌, List, [], ◌∷◌, ◌++◌, ltb, if◌then◌else◌, length,
}
use my_resource.Base.Fault.{Run, ok, fault, out_of_fuel, ◌>>=◌}
use my_resource.Ds.Entry.{DataNode}
use my_resource.Ds.Stree.{Walk, visit}
use my_resource.Ds.Rbtree.{Tree, leaf, node, Root, null, rooted}

-- The nodes in the order in which `rbtree_destory` frees them, from a node on.
unfoldable pub free_nodes : Tree → List DataNode
free_nodes leaf = []
free_nodes (node c l d r) = free_nodes l ++ free_nodes r ++ d ∷ []

-- `rbtree_destory`: the static leaf as the root has no data to free.
unfoldable pub destroy : Root → Run (List DataNode)
unfolding free_nodes
destroy null = ok []
destroy (rooted leaf) = fault
destroy (rooted (node c l d r)) = ok (free_nodes (node c l d r))

unfoldable pub ldr_from : Tree → Walk → Walk
ldr_from leaf w = w
ldr_from (node c l d r) w = ldr_from r (visit d (ldr_from l w))

-- `rbtree_LDR` prints the value of a node, which the static leaf as the root does not have.
unfoldable pub ldr : Root → Walk → Run Walk
unfolding ldr_from
ldr null w = ok w
ldr (rooted leaf) w = fault
ldr (rooted (node c l d r)) w = ok (ldr_from (node c l d r) w)

-- A child that is no leaf is put on the level.
abbrev pub kid : Tree → List Tree → List Tree
kid leaf rest = rest
kid (node c l d r) rest = node c l d r ∷ rest

-- The second loop of `LevelOrder` over the nodes of a level: the level below, and what is printed.
unfoldable pub children : List Tree → List Tree
children [] = []
children (leaf ∷ ts) = children ts
children (node c l d r ∷ ts) = kid l (kid r (children ts))

-- The static leaf has no data, and to print its key is a read through NULL. It is on a level only as
-- the root.
unfoldable pub heads : List Tree → Run (List DataNode)
heads [] = ok []
heads (leaf ∷ ts) = fault
heads (node c l d r ∷ ts) = heads ts >>= λ printed. ok (d ∷ printed)

-- How many pointers of 8 bytes fit into the array of a level, whose size is an `unsigned int`.
unfoldable pub slots : ℕ → ℕ
slots level = 8 * (2 ^ level + 1) % 2 ^ 32 / 8

-- The array of the next level, where memory is given, which is not tested: its last pointer stays NULL, or the loop over
-- it goes on behind it.
unfoldable pub go_on : (List Tree → Run (List DataNode)) → ℕ → List Tree → Run (List DataNode)
unfolding slots
go_on rest level [] = ok []
go_on rest level (t ∷ ts) = if ltb (slots level) (length (t ∷ ts) + 1) then fault else rest (t ∷ ts)

-- `LevelOrder` from a level on: the nodes in the order in which they are printed. A level is printed
-- in the loop that makes the next one.
unfoldable pub level_order : ℕ → ℕ → List Tree → Run (List DataNode)
unfolding go_on children heads
level_order zero level ts = out_of_fuel
level_order (suc n) level ts = heads ts >>= λ top.
    go_on (level_order n (suc level)) (suc level) (children ts) >>= λ printed. ok (top ++ printed)
