-- ===== src/System/Invariant.antt =====
-- Every step of a system keeps the count of the holds.
use net_lock.Common.{ℕ, ◌≡◌, refl, sym, ◌∙◌, subst, List, [], ◌∷◌, false, arith, All}
use net_lock.Server.History as History
use net_lock.Server.History.{History, Addressed}
use net_lock.Client.{Config, is_tpcc}
use net_lock.System.{
  System, Machine, Step, sends, serves, receives, drains, IsInitial, Reach, start, next,
}
use net_lock.System.Served.{process-Grants}
use net_lock.System.Machines.{visit-Asks, receive-Answers, drain_round-Drains}
use net_lock.System.Tally.{kept, holds}
use net_lock.System.Sound.{
  Sound, Step-Sound, IsGrantable, IsAsked, IsGranted, MachineIsReady, All-at,
  request_of-IsGrantable, op_of,
}
use net_lock.System.Holds.{sends-holds, receives-holds, drains-holds}
use net_lock.System.Serves.{Tracked, serves-Tracked}

-- A step that leaves the server and the counts alone.
unmoved-Tracked :
    (l : ℕ) (s t : System)
    → s.server ≡ t.server
    → ((mode : ℕ) → holds l mode t ≡ holds l mode s)
    → Tracked l s
    → Tracked l t
unmoved-Tracked l s t same moved c = record {
  history = c.history;
  reach = c.reach;
  server = c.server ∙ same;
  counts = λ mode. c.counts mode ∙ sym (moved mode);
}

module _ (cfg : Config) (l : ℕ) (other : is_tpcc cfg ≡ false) where
  pub Step-Tracked : {s t : System} → Step cfg s t → Sound cfg s → Tracked l s → Tracked l t
  Step-Tracked {s} (sends env w clock cid ms ns m v plain who at_m ran) sound c =
      let asks = visit-Asks env cfg w clock cid m.sender m.client v other plain who ran in
      unmoved-Tracked l s _ refl (λ mode. sends-holds l s ms ns m _ v.2 mode at_m asks.0 asks.1) c
  Step-Tracked {s} (serves env round f ps qs p t out at_p same ours memory few ran) sound c =
      let asked : IsAsked p = All-at IsAsked s.to_server ps qs p at_p sound.requests in
      let (fits, (queued, (ns, (sent, fine)))) =
        process-Grants IsGrantable env round f s.server (t, out) ours memory (op_of f p same asked)
          sound.queued (request_of-IsGrantable f p same asked.0) ran in
      serves-Tracked l s env round f ps qs p t out ns sent at_p same ours fits c asked memory few
        ran
  Step-Tracked {s}
        (receives env round f ms ns m ps qs p d out at_m at_p same port normal memory room ran)
        sound c =
      let granted : IsGranted p = All-at IsGranted s.to_client ps qs p at_p sound.grants in
      let a =
        receive-Answers env cfg round f p m.client (d, out) other same granted.0 granted.1 port
          normal memory room (All-at (MachineIsReady cfg) s.machines ms ns m at_m sound.ready)
          ran in
      unmoved-Tracked l s _ refl
        (λ mode. receives-holds l s ms ns ps qs out m _ p mode at_m at_p granted.1 a.0) c
  Step-Tracked {s} (drains env cur_tsc ms ns m d out at_m ran) sound c =
      let a =
        drain_round-Drains env cfg cur_tsc m.client (d, out)
          (All-at (MachineIsReady cfg) s.machines ms ns m at_m sound.ready) ran in
      unmoved-Tracked l s _ refl (λ mode. drains-holds l s ms ns out m _ mode at_m a.0) c

-- Before the first step.
none_kept : (ms : List Machine) → All (λ (m : Machine). m.client.think_queue ≡ []) ms → kept ms ≡ []
none_kept [] h = refl
none_kept (m ∷ ms) h = rw h.0 (none_kept ms h.1)

idle-IsReady :
    (cfg : Config) (ms : List Machine)
    → All (λ (m : Machine). m.client.think_queue ≡ []) ms
    → All (MachineIsReady cfg) ms
idle-IsReady cfg [] h = tt
idle-IsReady cfg (m ∷ ms) h =
    (record { order = λ z. h.0; indexed = rw h.0 tt; owed = rw h.0 tt }, idle-IsReady cfg ms h.1)

initial-Sound : (cfg : Config) (s : System) → IsInitial s → Sound cfg s
initial-Sound cfg s i = record {
  requests = subst (All IsAsked) (sym i.to_server) tt;
  grants = subst (All IsGranted) (sym i.to_client) tt;
  ready = idle-IsReady cfg s.machines i.idle;
  queued = λ j. subst (All IsGrantable) (sym (i.queue j)) tt;
}

initial-Tracked : (l : ℕ) (s : System) → IsInitial s → Tracked l s
initial-Tracked l s i = record {
  history = record { server = s.server; held = []; served = []; asked = [] };
  reach = History.start _ (record {
    queue = i.queue l;
    num_ex = i.num_ex l;
    num_sh = i.num_sh l;
    held = refl;
    served = refl;
    asked = refl;
  });
  server = refl;
  counts = λ mode. rw (i.to_server, i.to_client, none_kept s.machines i.idle) (omega arith);
}

module _ (cfg : Config) (other : is_tpcc cfg ≡ false) where
  pub Reach-Sound : {s : System} → Reach cfg s → Sound cfg s
  Reach-Sound (start s i) = initial-Sound cfg s i
  Reach-Sound (next r step) = Step-Sound cfg other step (Reach-Sound r)

  pub Reach-Tracked : (l : ℕ) {s : System} → Reach cfg s → Tracked l s
  Reach-Tracked l (start s i) = initial-Tracked l s i
  Reach-Tracked l (next r step) = Step-Tracked cfg l other step (Reach-Sound r) (Reach-Tracked l r)
