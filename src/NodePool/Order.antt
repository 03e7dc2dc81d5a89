-- ===== src/NodePool/Order.antt =====
-- The order in which NodePool.select of vps/vpngate.py tries the nodes.
use kui_local_multi_exit.Prelude.{ℕ, ◌≡◌, true, false, arith}
use kui_local_multi_exit.NodePool.{NodePool, Priority, lt_priority, priority, comes_first}
use kui_local_multi_exit.Store.{Node}

pub lt_irrefl : (a : Priority) → lt_priority a a ≡ false
lt_irrefl a = ground arith

pub lt_asym : (a b : Priority) → lt_priority a b ≡ true → lt_priority b a ≡ false
lt_asym a b h = ground arith

pub lt_neg_trans :
    (a b c : Priority) → lt_priority a b ≡ false → lt_priority b c ≡ false → lt_priority a c ≡ false
lt_neg_trans a b c h k = ground arith

module _ (p : NodePool) (now : ℕ) where
  pub comes_first_irrefl : (a : Node) → comes_first p now a a ≡ false
  comes_first_irrefl a = lt_irrefl (priority p now a)

  pub comes_first_asym : (a b : Node) → comes_first p now a b ≡ true → comes_first p now b a ≡ false
  comes_first_asym a b = lt_asym (priority p now a) (priority p now b)

  pub comes_first_neg_trans :
      (a b c : Node)
      → comes_first p now a b ≡ false
      → comes_first p now b c ≡ false
      → comes_first p now a c ≡ false
  comes_first_neg_trans a b c =
      lt_neg_trans (priority p now a) (priority p now b) (priority p now c)
