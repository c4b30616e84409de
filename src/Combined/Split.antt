-- ===== src/Combined/Split.antt =====
-- The combined program against the two programs.
use net_lock.Common.{
  ℕ, ◌≡◌, ◌≢◌, ◌∙◌, inl, inr, refl, ap, List, [], Option, none, some, false, Option-cases, map,
  ◌==◌, ne→==, eq→==, true,
}
use net_lock.Wire.{Packet}
use net_lock.Transmit.{Card, Core, each, enqueue_pkt}
use net_lock.Meter.{Meter}
use net_lock.Polling.{put_answers, poll}
use net_lock.Polling.Simulation.{on_state, on_polled, silent, unread, poll-agrees, rounds-agrees}
use net_lock.Client as Client
use net_lock.Client.Receive as Receive
use net_lock.Client.Loop as ClientLoop
use net_lock.Server as Server
use net_lock.Server.Loop as ServerLoop
use net_lock.Combined.{Node, Arrival, role_client, with_client, with_server}
use net_lock.Combined.Handling.{handle}
use net_lock.Combined.Serving.{serve}
use net_lock.Combined.Asking.{ask}
use net_lock.Combined.Alike.{
  server_frame, client_frame, serve-process, ask-receive, drain-server, drain-drain_round,
}
use net_lock.Combined.Loop.{
  Turn, Fixed, NodeCore, measured, sampling, turn, np_client_rx_loop, after_drain, polled,
}

abbrev pub server_arrival : Arrival → ServerLoop.Arrival
server_arrival a = record {
  env = a.env;
  round = record { has_memory = a.has_memory; stale = a.stale };
  frame = server_frame a.frame;
}

abbrev pub server_turn : Turn → ServerLoop.Turn
server_turn t = record {
  cur_tsc = t.cur_tsc;
  tput_stat = t.tput_stat;
  latency_stat_c = t.latency_stat_c;
  bursts = map (map server_arrival) t.bursts;
}

abbrev pub server_fixed : Fixed → ServerLoop.Fixed
server_fixed fixed = record {
  lcore_id = fixed.lcore_id;
  drain_tsc = fixed.drain_tsc;
  plan = fixed.plan;
}

abbrev pub server_core : NodeCore → ServerLoop.ServerCore
server_core x = record {
  server = x.node.server;
  tx = x.tx;
  next_drain_tsc = x.next_drain_tsc;
  meter = x.meter;
}

abbrev server_of : Node → Server.Server
server_of n = n.server

with_server-server :
    (n : Node) (o : Option (Server.Server × List Packet)) → on_state server_of (with_server n o) ≡ o
with_server-server n none = refl
with_server-server n (some (s, out)) = refl

handle-server :
    (fixed : Fixed) (cur_tsc : ℕ)
    → fixed.role ≢ role_client
    → (a : Arrival) (n : Node)
    → on_state server_of (handle fixed.role fixed.config cur_tsc a n)
      ≡ ServerLoop.handle (server_arrival a) n.server
unfolding handle ServerLoop.handle
handle-server fixed cur_tsc other a n =
    let test : (fixed.role == role_client) ≡ false = ne→== _ _ other in
    rw test (
      with_server-server n (serve a.env a.has_memory a.stale a.frame n.server)
      ∙ serve-process a.env a.has_memory a.stale a.frame n.server)

polled-server :
    (m : Meter) (o : Option (ℕ × Node × Core))
    → silent server_core (polled m [] o) ≡ unread (ServerLoop.polled m [] (on_polled server_of o))
polled-server m none = refl
polled-server m (some (next, n, c)) = refl

module _ (card : Card) (fixed : Fixed) (other_core : fixed.lcore_id ≢ 0) where
  turn-server :
      fixed.role ≢ role_client
      → (t : Turn) (x : NodeCore)
      → silent server_core (turn card fixed t x)
        ≡ unread (ServerLoop.turn card (server_fixed fixed) (server_turn t) (server_core x))
  unfolding turn ServerLoop.turn measured ServerLoop.measured each
  turn-server other t x =
      let first : (fixed.lcore_id == 0) ≡ false = ne→== _ _ other_core in
      let role : (fixed.role == role_client) ≡ false = ne→== _ _ other in
      let o =
        poll card (handle fixed.role fixed.config t.cur_tsc) fixed.drain_tsc t.cur_tsc t.bursts
          x.next_drain_tsc (sampling fixed t x.meter x.node) x.tx in
      let same =
        poll-agrees card (handle fixed.role fixed.config t.cur_tsc) ServerLoop.handle server_arrival
          server_of (handle-server fixed t.cur_tsc other) fixed.drain_tsc t.cur_tsc x.next_drain_tsc
          t.bursts (sampling fixed t x.meter x.node) x.tx in
      rw
        (
          first,
          drain-server fixed.role t.env fixed.config t.cur_tsc (sampling fixed t x.meter x.node)
              role,
        )
        (polled-server x.meter o ∙ ap (λ k. unread (ServerLoop.polled x.meter [] k)) same)

  -- On a core other than core 0, a combined program whose role is not the client's is a lock server:
  -- over any rounds, that core and one of server.c that finds the same packets both end their loops
  -- alike, with the same server, table of packets and timer.
  pub np_client_rx_loop-server :
      fixed.role ≢ role_client
      → (ts : List Turn) (x : NodeCore)
      → silent server_core (np_client_rx_loop card fixed ts x)
        ≡ unread (
            ServerLoop.np_client_rx_loop card
              (server_fixed fixed)
              (map server_turn ts)
              (server_core x))
  unfolding np_client_rx_loop ServerLoop.np_client_rx_loop
  np_client_rx_loop-server other ts x =
      rounds-agrees server_core (turn card fixed) (ServerLoop.turn card (server_fixed fixed))
        server_turn (turn-server other) ts x

abbrev pub client_arrival : Arrival → ClientLoop.Arrival
client_arrival a = record { env = a.env; has_memory = a.has_memory; frame = client_frame a.frame }

abbrev pub client_turn : Turn → ClientLoop.Turn
client_turn t = record {
  cur_tsc = t.cur_tsc;
  tput_stat = t.tput_stat;
  latency_stat_c = t.latency_stat_c;
  latency_sample_start = t.latency_sample_start;
  env = t.env;
  bursts = map (map client_arrival) t.bursts;
}

abbrev pub client_fixed : Fixed → ClientLoop.Fixed
client_fixed fixed = record {
  lcore_id = fixed.lcore_id;
  drain_tsc = fixed.drain_tsc;
  plan = fixed.plan;
  config = fixed.config;
}

abbrev pub client_core : NodeCore → ClientLoop.ClientCore
client_core x = record {
  client = x.node.client;
  tx = x.tx;
  next_drain_tsc = x.next_drain_tsc;
  meter = x.meter;
}

abbrev client_of : Node → Client.Client
client_of n = n.client

with_client-client :
    (n : Node) (o : Option (Client.Client × List Packet)) → on_state client_of (with_client n o) ≡ o
with_client-client n none = refl
with_client-client n (some (c, out)) = refl

handle-client :
    (fixed : Fixed) (cur_tsc : ℕ)
    → fixed.role ≡ role_client
    → (a : Arrival) (n : Node)
    → on_state client_of (handle fixed.role fixed.config cur_tsc a n)
      ≡ ClientLoop.handle fixed.config cur_tsc (client_arrival a) n.client
unfolding handle ClientLoop.handle
handle-client fixed cur_tsc ours a n =
    let test : (fixed.role == role_client) ≡ true = eq→== _ _ ours in
    rw test (
      with_client-client n (ask a.env fixed.config cur_tsc a.has_memory a.frame n.client)
      ∙ ask-receive a.env fixed.config cur_tsc a.has_memory a.frame n.client)

polled-client :
    (m : Meter) (o : Option (ℕ × Node × Core))
    → silent client_core (polled m [] o) ≡ unread (ClientLoop.polled m [] (on_polled client_of o))
polled-client m none = refl
polled-client m (some (next, n, c)) = refl

module _ (card : Card) (fixed : Fixed) (other_core : fixed.lcore_id ≢ 0)
    (ours : fixed.role ≡ role_client) where
  after_drain-client :
      (t : Turn) (next : ℕ) (tx : Core) (n : Node) (o : Option (Client.Client × List Packet))
      → on_polled client_of (after_drain card fixed t next (put_answers card tx (with_client n o)))
        ≡ ClientLoop.after_drain card
            (client_fixed fixed)
            (client_turn t)
            next
            (put_answers card tx o)
  after_drain-client t next tx n none = refl
  after_drain-client t next tx n (some (c, out)) =
      elim (Option-cases (each (enqueue_pkt card) out tx)) [
        | inl full ↦ rw full refl
        | inr (tx', put) ↦ rw put (
            poll-agrees card (handle fixed.role fixed.config t.cur_tsc)
              (ClientLoop.handle fixed.config t.cur_tsc) client_arrival client_of
              (handle-client fixed t.cur_tsc ours) fixed.drain_tsc t.cur_tsc next t.bursts
              (record n { client = c }) tx')
      ]

  turn-client :
      (t : Turn) (x : NodeCore)
      → silent client_core (turn card fixed t x)
        ≡ unread (ClientLoop.turn card (client_fixed fixed) (client_turn t) (client_core x))
  unfolding turn ClientLoop.turn measured ClientLoop.measured
  turn-client t x =
      let first : (fixed.lcore_id == 0) ≡ false = ne→== _ _ other_core in
      let role : (fixed.role == role_client) ≡ true = eq→== _ _ ours in
      let n = sampling fixed t x.meter x.node in
      let drained = Receive.drain_round t.env fixed.config t.cur_tsc n.client in
      let o =
        after_drain card fixed t x.next_drain_tsc (put_answers card x.tx (with_client n drained)) in
      rw (first, drain-drain_round fixed.role t.env fixed.config t.cur_tsc n role)
        (polled-client x.meter o
          ∙ ap (λ k. unread (ClientLoop.polled x.meter [] k))
              (after_drain-client t x.next_drain_tsc x.tx n drained))

  -- On a core other than core 0, a combined program of the client's role is a client: over any rounds,
  -- that core and one of client.c that finds the same packets both end their loops alike, with the
  -- same client, table of packets and timer.
  pub np_client_rx_loop-client :
      (ts : List Turn) (x : NodeCore)
      → silent client_core (np_client_rx_loop card fixed ts x)
        ≡ unread (
            ClientLoop.np_client_rx_loop card
              (client_fixed fixed)
              (map client_turn ts)
              (client_core x))
  unfolding np_client_rx_loop ClientLoop.np_client_rx_loop
  np_client_rx_loop-client ts x =
      rounds-agrees client_core (turn card fixed) (ClientLoop.turn card (client_fixed fixed))
        client_turn turn-client ts x
