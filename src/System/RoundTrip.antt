-- ===== src/System/RoundTrip.antt =====
-- What a request says to the server, the grant to the client, and the release to the server again.
use net_lock.Common.{ℕ, ◌^◌, ◌<◌, ◌≡◌, ◌≢◌, ◌∙◌, refl, sym, ap, subst, arith, false, ne→==, ◌==◌}
use net_lock.Wire.{
  Env, Packet, MessageHeader, acquire_lock, release_lock, ntohl, generate_write_request_pkt,
}
use net_lock.Wire.ByteOrder.{ntohl-htonl, htonl-ntohl, htonl-lt}
use net_lock.ThinkQueue.{ThinkQueueNode}
use net_lock.Server as Server
use net_lock.Server.{request_of, grant}
use net_lock.Server.Dispatch.{lock_of}
use net_lock.Client.{Config}
use net_lock.Client.Receive.Answers.{grant_of}
use net_lock.Client.Receive.Drains.{released}
use net_lock.LockQueue.{QueueNode}
use net_lock.System.Tags.{tag, kept_tag, tag-released}

node_same :
    {m m' c c' l l' t t' now : ℕ}
    → m ≡ m'
    → c ≡ c'
    → l ≡ l'
    → t ≡ t'
    → ◌≡◌ {A = ThinkQueueNode}
        (record { mode = m; client_id = c; lock_id = l; txn_id = t; grant_time = now })
        (record { mode = m'; client_id = c'; lock_id = l'; txn_id = t'; grant_time = now })
node_same a b c d = cc

-- What a client takes from a grant.
grant_of-grant :
    (at_client at_server : Env) (lock : ℕ) (n : QueueNode)
    → n.mode < 256
    → n.client_id < 256
    → lock < 2 ^ 32
    → n.txn_id < 2 ^ 32
    → grant_of at_client (grant at_server lock n).header ≡ record {
      mode = n.mode;
      client_id = n.client_id;
      lock_id = lock;
      txn_id = ntohl n.txn_id;
      grant_time = at_client.now;
    }
unfolding grant generate_write_request_pkt
grant_of-grant at_client at_server lock n mode who fits txn =
    node_same (omega (arith, mode)) (omega (arith, who)) (ntohl-htonl lock fits)
      (ap ntohl (htonl-ntohl n.txn_id txn))

payload-grant :
    (at_server : Env) (lock : ℕ) (n : QueueNode) (now : ℕ)
    → now ≢ 0
    → n.timestamp ≡ now
    → (grant at_server lock n).header.payload ≡ now
unfolding grant generate_write_request_pkt
payload-grant at_server lock n now stamped same =
    let fresh : (now == 0) ≡ false = ne→== _ _ stamped in rw (same, fresh) refl

module _ (at_client at_server : Env) (cfg : Config) (mode lock txn cid : ℕ) where
  -- The request of a client.
  abbrev pub asked : Packet
  asked = generate_write_request_pkt at_client acquire_lock mode lock txn 0 0 0 cid

  -- What the client takes from a reply of the server to the frame.
  abbrev pub answered : Server.Frame → Packet
  answered f = grant at_server (lock_of f) (request_of f)

  pub kept : ThinkQueueNode
  kept = record {
    mode = mode;
    client_id = cid;
    lock_id = lock;
    txn_id = txn;
    grant_time = at_client.now;
  }

  kept_tag-asked : kept_tag kept ≡ record (tag asked) { op = release_lock }
  unfolding tag kept generate_write_request_pkt
  kept_tag-asked = refl

  -- A request of a client, whose mode, lock, transaction and client have the widths of the header,
  -- reaches the server's frame: the server reads the client's lock; the client takes from the
  -- grant its own mode, client, lock and transaction, and the time of its request, if that is not
  -- 0; and the release for the grant is the request with another operation.
  pub request-grant-release :
      (f : Server.Frame)
      → mode < 256
      → lock < 2 ^ 32
      → txn < 2 ^ 32
      → cid < 256
      → at_client.now ≢ 0
      → f.header ≡ asked.header
      → (grant_of at_client (answered f).header ≡ kept)
        × ((answered f).header.payload ≡ at_client.now)
        × (lock_of f ≡ lock)
        × (tag (released at_client cfg (grant_of at_client (answered f).header))
            ≡ record (tag asked) { op = release_lock })
  unfolding request_of generate_write_request_pkt kept
  request-grant-release f small_mode small_lock small_txn small_cid stamped same =
      let n = request_of f in
      let mode_same : n.mode ≡ mode =
        ap (λ (h : MessageHeader). h.mode) same ∙ omega (arith, small_mode) in
      let who_same : n.client_id ≡ cid =
        ap (λ (h : MessageHeader). h.client_id) same ∙ omega (arith, small_cid) in
      let lock_same : lock_of f ≡ lock =
        ap (λ (h : MessageHeader). ntohl h.lock_id) same ∙ ntohl-htonl lock small_lock in
      let txn_same : ntohl n.txn_id ≡ txn =
        ap (λ (h : MessageHeader). ntohl h.txn_id) same ∙ ntohl-htonl txn small_txn in
      let txn_word : n.txn_id < 2 ^ 32 =
        subst (λ k. k < 2 ^ 32) (sym (ap (λ (h : MessageHeader). h.txn_id) same)) (htonl-lt txn) in
      let taken =
        grant_of-grant at_client at_server (lock_of f) n (rw mode_same small_mode)
          (rw who_same small_cid) (rw lock_same small_lock) txn_word
        ∙ node_same mode_same who_same lock_same txn_same in
      (
        taken,
        payload-grant at_server (lock_of f) n at_client.now stamped
            (ap (λ (h : MessageHeader). h.payload) same),
        lock_same,
        tag-released at_client cfg (grant_of at_client (answered f).header)
            ∙ (ap kept_tag taken ∙ kept_tag-asked),
      )
