-- ===== src/Client/Receive/Drains.antt =====
-- The drain of the think queue releases every lock in it.
use net_lock.Common.{
  ℕ, ◌+◌, ◌%◌, ◌^◌, ◌<◌, ◌≡◌, inl, inr, refl, sym, subst, List, [], ◌∷◌, ◌++◌, map, some, false,
  ◌==◌, ltb, write, All, append-nil, Bool-cases, lt→ltb,
}
use net_lock.Wire.{Env, Packet}
use net_lock.ThinkQueue.{ThinkQueueNode}
use net_lock.Client.{Config, Client, release, max_client_num, max_lock_num, synchronous}
use net_lock.Client.Receive.{not_busy, drain_loop, drain}

-- The client and the lock of a grant are within `busy`.
abbrev pub IsIndexed : ThinkQueueNode → Type 0
IsIndexed n = (n.client_id < max_client_num) × (n.lock_id < max_lock_num)

-- The release that a kept grant is owed.
abbrev pub released : Env → Config → ThinkQueueNode → Packet
released env cfg n = release env cfg n.mode n.lock_id n.txn_id n.client_id

pub not_busy-IsIndexed :
    (cfg : Config) (cid lock_id : ℕ) (c : Client)
    → cid < max_client_num
    → lock_id < max_lock_num
    → (c' : Client) × ((not_busy cfg cid lock_id c ≡ some c') × (c'.think_queue ≡ c.think_queue))
unfolding not_busy
not_busy-IsIndexed cfg cid lock_id c h h' =
    elim (Bool-cases (cfg.data_transfer_mode == synchronous)) [
      | inl sync ↦ (
        record c { busy = write c.busy cid (write (c.busy cid) lock_id false) },
        (rw (sync, lt→ltb cid 8 h, lt→ltb lock_id 7010000 h') refl, refl),
      )
      | inr not_sync ↦ (c, (rw not_sync refl, refl))
    ]

drain_loop-released :
    (env : Env) (cfg : Config) (q : List ThinkQueueNode) (c : Client)
    → All IsIndexed q
    → (c' : Client) × ((drain_loop env cfg q c ≡ some (c', map (released env cfg) q))
        × (c'.think_queue ≡ []))
unfolding drain_loop
drain_loop-released env cfg [] c all = (record c { think_queue = [] }, (refl, refl))
drain_loop-released env cfg (n ∷ q) c all =
    let (c1, (ran, same)) = not_busy-IsIndexed cfg n.client_id n.lock_id c all.0.0 all.0.1 in
    let (c2, (ran', empty)) = drain_loop-released env cfg q c1 all.1 in
    (c2, (rw (drain_loop, ran, ran') refl, empty))

-- A drain keeps the grants, or releases them all.
pub drain-released :
    (env : Env) (cfg : Config) (cur_tsc : ℕ) (c : Client)
    → All IsIndexed c.think_queue
    → (c' : Client) × (out : List Packet) × ((drain env cfg cur_tsc c ≡ some (c', out))
        × ((out ++ map (released env cfg) c'.think_queue ≡ map (released env cfg) c.think_queue)
            × All IsIndexed c'.think_queue))
unfolding drain
drain-released env cfg cur_tsc c all =
    elim (Bool-cases (ltb ((c.last_drain_tq_tsc + cfg.increment_time) % 2 ^ 64) cur_tsc)) [
      | inr early ↦ (c, [], (rw early refl, (refl, all)))
      | inl late ↦
          let (c', (ran, empty)) = drain_loop-released env cfg c.think_queue c all in
          (
            record c' { last_drain_tq_tsc = cur_tsc },
            map (released env cfg) c.think_queue,
            (
              rw (late, ran) refl,
              (
                rw empty (append-nil (map (released env cfg) c.think_queue)),
                subst (All IsIndexed) (sym empty) tt,
              ),
            ),
          )
    ]
