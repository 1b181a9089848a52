-- ===== src/Queue/Order.antt =====
-- The order of `compareNode`: forward time first, then the counter.
use vdeplug_wirefilter.Base.{◌≤◌, ◌<◌, ◌≡◌, ◌⊎◌, Bool, true, false, not, arith}
use vdeplug_wirefilter.Queue.{QueueNode, compare_node, is_lt, is_gt, sentinel_node}

-- `a` may stand above `b` in the heap.
pub node_le : QueueNode → QueueNode → Bool
node_le a b = not (is_lt (compare_node b a))

pub node_le_iff_lex :
    (a b : QueueNode)
    → node_le a b ≡ true
    → (a.forward_time < b.forward_time)
      ⊎ ((a.forward_time ≡ b.forward_time) × (a.counter ≤ b.counter))
unfolding node_le compare_node
node_le_iff_lex a b h = ground arith

pub node_le_of_lex :
    (a b : QueueNode)
    → (a.forward_time < b.forward_time)
      ⊎ ((a.forward_time ≡ b.forward_time) × (a.counter ≤ b.counter))
    → node_le a b ≡ true
unfolding node_le compare_node
node_le_of_lex a b h = ground arith

pub node_le_refl : (a : QueueNode) → node_le a a ≡ true
unfolding node_le compare_node
node_le_refl a = ground arith

pub node_le_trans :
    (a b c : QueueNode) → node_le a b ≡ true → node_le b c ≡ true → node_le a c ≡ true
unfolding node_le compare_node
node_le_trans a b c h k = ground arith

pub node_le_of_lt : (a b : QueueNode) → is_lt (compare_node a b) ≡ true → node_le a b ≡ true
unfolding node_le compare_node
node_le_of_lt a b h = ground arith

pub node_le_of_not_lt : (a b : QueueNode) → is_lt (compare_node a b) ≡ false → node_le b a ≡ true
unfolding node_le
node_le_of_not_lt a b h = ground arith

pub node_le_of_gt : (a b : QueueNode) → is_gt (compare_node a b) ≡ true → node_le b a ≡ true
unfolding node_le compare_node
node_le_of_gt a b h = ground arith

pub node_le_of_not_gt : (a b : QueueNode) → is_gt (compare_node a b) ≡ false → node_le a b ≡ true
unfolding node_le compare_node
node_le_of_not_gt a b h = ground arith

pub sentinel-least : (a : QueueNode) → node_le sentinel_node a ≡ true
unfolding node_le compare_node
sentinel-least a = ground arith

pub sentinel-not-above : (a : QueueNode) → is_lt (compare_node a sentinel_node) ≡ false
unfolding compare_node
sentinel-not-above a = ground arith

pub lt_not_le : (a b : QueueNode) → is_lt (compare_node a b) ≡ true → node_le b a ≡ true → ⊥
unfolding node_le
lt_not_le a b h k = ground arith
