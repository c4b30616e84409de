-- ===== src/Linked/Access.antt =====
-- Reads and writes through a pointer that leads to a node.
use net_lock.Common.{write, ℕ, ◌≡◌, ◌≢◌, Option, none, some, arith, ne→==}
use net_lock.Linked.{Node, node, Memory, load, set_next, free}

module _ {A : Type 0} (m : Memory A) (p : ℕ) (n : Node A) (p_pos : p ≢ 0) where
  pub load-ok : m p ≡ some n → load p m ≡ some (n, m)
  unfolding load
  load-ok e = rw (ne→== p 0 p_pos, e)

  pub set_next-ok :
      (q : ℕ) → m p ≡ some n → set_next p q m ≡ some (tt, write m p (some (node n.contents q)))
  unfolding set_next
  set_next-ok q e = rw (load-ok e)

  pub free-ok :
      (after_free : Node A → Option (Node A))
      → m p ≡ some n
      → free after_free p m ≡ some (tt, write m p (after_free n))
  unfolding free
  free-ok after_free e = rw (load-ok e)

-- A freed node that cannot be read stops the program at the next read.
pub load-none : {A : Type 0} (m : Memory A) (p : ℕ) → m p ≡ none → load p m ≡ none
unfolding load
load-none m p e = rw e (ground arith)
