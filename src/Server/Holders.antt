-- ===== src/Server/Holders.antt =====
-- Who holds a lock, read off its queue of requests: the oldest request alone if it is exclusive,
-- and otherwise the shared requests before the first exclusive one.
use net_lock.Common.{
  ℕ, suc, ◌+◌, ◌≤◌, ◌<◌, ◌≡◌, ◌⊎◌, inl, refl, List, [], ◌∷◌, ◌++◌, arith, ◌==◌, if◌then◌else◌,
  length, All, append-nil, All-parts, subst, sym,
}
use net_lock.Wire.{shared_lock, exclusive_lock}
use net_lock.LockQueue.{QueueNode}
use net_lock.Server.{shared_run, wake_after_shared, wake_after_exclusive}

-- The two modes of the protocol.
abbrev pub IsMode : QueueNode → Type 0
IsMode n = n.mode ≤ 1

abbrev pub count_mode : ℕ → List QueueNode → ℕ
count_mode k [] = 0
count_mode k (n ∷ q) = if n.mode == k then suc (count_mode k q) else count_mode k q

abbrev pub shared_prefix : List QueueNode → List QueueNode
shared_prefix [] = []
shared_prefix (n ∷ q) = if n.mode == shared_lock then n ∷ shared_prefix q else []

abbrev pub holders : List QueueNode → List QueueNode
holders [] = []
holders (n ∷ q) = if n.mode == exclusive_lock then n ∷ [] else shared_prefix (n ∷ q)

-- Those behind the holders.
abbrev pub after_prefix : List QueueNode → List QueueNode
after_prefix [] = []
after_prefix (n ∷ q) = if n.mode == shared_lock then after_prefix q else n ∷ q

abbrev pub waiting : List QueueNode → List QueueNode
waiting [] = []
waiting (n ∷ q) = if n.mode == exclusive_lock then q else after_prefix (n ∷ q)

prefix-append-after : (q : List QueueNode) → shared_prefix q ++ after_prefix q ≡ q
prefix-append-after [] = refl
prefix-append-after (n ∷ q) = ground (arith, prefix-append-after q)

pub holders-append-waiting : (q : List QueueNode) → holders q ++ waiting q ≡ q
holders-append-waiting [] = refl
holders-append-waiting (n ∷ q) = ground (arith, prefix-append-after q)

pub shared_run-prefix : (q : List QueueNode) → shared_run q ≡ shared_prefix q
unfolding shared_run
shared_run-prefix [] = refl
shared_run-prefix (n ∷ q) = ground (arith, shared_run-prefix q)

pub wake_after_exclusive-holders : (q : List QueueNode) → wake_after_exclusive q ≡ holders q
unfolding wake_after_exclusive
wake_after_exclusive-holders [] = refl
wake_after_exclusive-holders (n ∷ q) = ground (arith, shared_run-prefix (n ∷ q))

pub prefix-append-wake :
    (q : List QueueNode) → All IsMode q → shared_prefix q ++ wake_after_shared q ≡ holders q
unfolding wake_after_shared
prefix-append-wake [] h = refl
prefix-append-wake (n ∷ q) h = ground (arith, append-nil (shared_prefix q))

-- Counts and lengths, where only the two modes occur.
pub count_total :
    (q : List QueueNode)
    → All IsMode q
    → count_mode shared_lock q + count_mode exclusive_lock q ≡ length q
count_total [] h = refl
count_total (n ∷ q) h = ground (arith, count_total q h.1)

pub count_mode-append :
    (k : ℕ) (q : List QueueNode) (n : QueueNode)
    → count_mode k (q ++ n ∷ []) ≡ count_mode k q + count_mode k (n ∷ [])
count_mode-append k [] n = omega arith
count_mode-append k (x ∷ q) n = ground (arith, count_mode-append k q n)

-- Where no exclusive request is queued, everybody holds the lock.
prefix-eq_self :
    (q : List QueueNode) → All IsMode q → count_mode exclusive_lock q ≡ 0 → shared_prefix q ≡ q
prefix-eq_self [] h none_ex = refl
prefix-eq_self (n ∷ q) h none_ex = ground (arith, prefix-eq_self q h.1)

pub holders-eq_self :
    (q : List QueueNode) → All IsMode q → count_mode exclusive_lock q ≡ 0 → holders q ≡ q
holders-eq_self [] h none_ex = refl
holders-eq_self (n ∷ q) h none_ex = ground (arith, prefix-eq_self (n ∷ q) h)

-- A request behind an exclusive one changes nothing for the holders.
prefix-behind :
    (q : List QueueNode) (n : QueueNode)
    → 0 < count_mode exclusive_lock q
    → shared_prefix (q ++ n ∷ []) ≡ shared_prefix q
prefix-behind [] n some_ex = absurd (omega arith)
prefix-behind (x ∷ q) n some_ex = ground (arith, prefix-behind q n)

pub holders-behind :
    (q : List QueueNode) (n : QueueNode)
    → 0 < count_mode exclusive_lock q
    → holders (q ++ n ∷ []) ≡ holders q
holders-behind [] n some_ex = absurd (omega arith)
holders-behind (x ∷ q) n some_ex = ground (arith, prefix-behind (x ∷ q) n)

-- Nor does an exclusive request behind any other.
prefix-exclusive :
    (q : List QueueNode) (n : QueueNode)
    → n.mode ≡ exclusive_lock
    → shared_prefix (q ++ n ∷ []) ≡ shared_prefix q
prefix-exclusive [] n ex = ground arith
prefix-exclusive (x ∷ q) n ex = ground (arith, prefix-exclusive q n ex)

pub holders-exclusive :
    (x : QueueNode) (q : List QueueNode) (n : QueueNode)
    → n.mode ≡ exclusive_lock
    → holders ((x ∷ q) ++ n ∷ []) ≡ holders (x ∷ q)
holders-exclusive x q n ex = ground (arith, prefix-exclusive (x ∷ q) n ex)

-- The holders may hold the lock together: one of them alone, or all of them shared.
abbrev pub IsShared : QueueNode → Type 0
IsShared n = n.mode ≡ shared_lock

prefix-IsShared : (q : List QueueNode) → All IsShared (shared_prefix q)
prefix-IsShared [] = tt
prefix-IsShared (n ∷ q) = ground (arith, prefix-IsShared q)

pub holders_compatible : (q : List QueueNode) → All IsShared (holders q) ⊎ (length (holders q) ≡ 1)
holders_compatible [] = inl tt
holders_compatible (n ∷ q) = ground (arith, prefix-IsShared (n ∷ q))

-- A queue with requests has a holder.
pub holders_pos : (n : QueueNode) (q : List QueueNode) → IsMode n → 0 < length (holders (n ∷ q))
holders_pos n q h = ground arith

pub holders-All {ℓ} : (P : QueueNode → Type ℓ) (q : List QueueNode) → All P q → All P (holders q)
holders-All P q h =
    (All-parts P (holders q) (waiting q) (subst (All P) (sym (holders-append-waiting q)) h)).0
