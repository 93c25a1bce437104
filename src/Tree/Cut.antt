-- ===== src/Tree/Cut.antt =====
-- DeleteNode of include/xgboost/tree_model.h: a leaf leaves its parent and goes to the free list.
use xgboost.Prelude.{
  ℕ, ◌^◌, ◌%◌, ◌≤◌, ◌<◌, ◌≡◌, ◌≢◌, arith, length, ==_refl, ne→==, lt→ltb, le→leb, some,
}
use xgboost.Float.{Float}
use xgboost.Tree.Node.{invalid_node_id, set_high_bit, set_left_child, set_right_child, mark_delete}
use xgboost.Tree.RegTree.{RegTree, node, modify, release, delete_node}
use xgboost.Tree.Alloc.{node-modify_self, node-modify_ne, length-modify}

pub parent_of_high : (k : ℕ) → k < 2 ^ 31 → set_high_bit k % 2 ^ 31 ≡ k
parent_of_high k h = ground arith

pub parent_of_low : (k : ℕ) → k < 2 ^ 31 → k % 2 ^ 31 ≡ k
parent_of_low k h = omega arith

module _ {F : Float} where
  pub node-release_self :
      (nid : ℕ) (t : RegTree F)
      → nid < length t.nodes
      → node (release nid t) nid ≡ mark_delete (node t nid)
  unfolding release node
  node-release_self nid t h = node-modify_self mark_delete nid _ h

  pub node-release_ne : (nid x : ℕ) (t : RegTree F) → nid ≢ x → node (release nid t) x ≡ node t x
  unfolding release node
  node-release_ne nid x t h = node-modify_ne mark_delete nid x _ h

  pub length-release : (nid : ℕ) (t : RegTree F) → length (release nid t).nodes ≡ length t.nodes
  unfolding release
  length-release nid t = length-modify mark_delete nid _

  -- DeleteNode of a left child.
  pub delete_node-left :
      (t : RegTree F) (k a : ℕ)
      → k < 2 ^ 31
      → 1 ≤ a
      → a < 2 ^ 31
      → (node t a).parent ≡ set_high_bit k
      → (node t k).cleft ≡ a
      → delete_node t a ≡ some (release a (modify (set_left_child invalid_node_id) k t))
  unfolding delete_node
  delete_node-left t k a hk pos ha up l =
      rw (up, parent_of_high k hk, l, ==_refl a, le→leb 1 a pos, lt→ltb a (2 ^ 31) ha)

  -- DeleteNode of a child that is not the left one.
  pub delete_node-right :
      (t : RegTree F) (k b : ℕ)
      → k < 2 ^ 31
      → 1 ≤ b
      → b < 2 ^ 31
      → (node t b).parent ≡ k
      → b ≢ (node t k).cleft
      → delete_node t b ≡ some (release b (modify (set_right_child invalid_node_id) k t))
  unfolding delete_node
  delete_node-right t k b hk pos hb up l =
      rw (up, parent_of_low k hk, ne→== _ _ l, le→leb 1 b pos, lt→ltb b (2 ^ 31) hb)
