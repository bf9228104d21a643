-- ===== src/Server/Table.antt =====
-- The bounds of the session table of src/transport/pipeline/reliable-server/sessions.ts.
use signalk_edge_link.Prelude.{
  ℕ, suc, ◌+◌, ◌≤◌, ◌<◌, ◌≡◌, refl, ap, ◌∙◌, true, Option, none, some, List, [], ◌∷◌, ltb, leb,
  ◌==◌, if◌then◌else◌, length, arith, Bool-cases, Option-cases, inl, inr, ◌⊎◌,
}
use signalk_edge_link.JsSet.{has, Distinct}
use signalk_edge_link.JsMap.{get, set, delete, delete_all, keys, keys_where}
use signalk_edge_link.JsMap.Laws as Laws
use signalk_edge_link.Server.{
  Peer, peer_key, ClientSession, Sessions, Server, max_client_sessions, max_sessions_per_ip,
}
use signalk_edge_link.Server.Sessions.{
  oldest_session, evict_oldest_session_if_full, ip_session_count, new_session, admit_session,
  get_or_create_session, is_idle, expire_idle_sessions,
}
use signalk_edge_link.Server.Peers.{peers_of, peers_of-set}

-- The sessions of an address.
abbrev pub share : ℕ → List (ℕ × Peer) → ℕ
share address [] = 0
share address ((k, p) ∷ ps) = (if p.address == address then 1 else 0) + share address ps

abbrev Keyed : List (ℕ × Peer) → Type 0
Keyed [] = Unit
Keyed ((k, p) ∷ ps) = (k ≡ peer_key p) × Keyed ps

-- One session for a peer under its key, at most 100 of them, and at most five for an address.
pub record Table (ps : List (ℕ × Peer)) : Type 0 where
  pub distinct : Distinct (keys ps)
  pub size : length ps ≤ max_client_sessions
  pub fair : (address : ℕ) → share address ps ≤ max_sessions_per_ip
  pub keyed : Keyed ps

keys-peers_of : (m : Sessions) → keys (peers_of m) ≡ keys m
unfolding keys
keys-peers_of [] = refl
keys-peers_of ((k, c) ∷ m) = ap (λ x. k ∷ x) (keys-peers_of m)

length-peers_of : (m : Sessions) → length (peers_of m) ≡ length m
length-peers_of [] = refl
length-peers_of ((k, c) ∷ m) = ap suc (length-peers_of m)

-- The scan of an address' sessions, which ends at the limit, refuses exactly an address that has as
-- many sessions as it may have.
pub ip_session_count-share :
    (a n : ℕ) (m : Sessions)
    → leb max_sessions_per_ip (ip_session_count a n m)
      ≡ leb max_sessions_per_ip (n + share a (peers_of m))
unfolding ip_session_count
ip_session_count-share a n [] = ground arith
ip_session_count-share a n ((k, c) ∷ m) =
    ground (arith, ip_session_count-share a n m, ip_session_count-share a (n + 1) m)

peers_of-delete : (m : Sessions) (k : ℕ) → peers_of (delete m k) ≡ delete (peers_of m) k
unfolding delete
peers_of-delete [] k = refl
peers_of-delete ((j, c) ∷ m) k = elim (Bool-cases (j == k)) [
  | inl e ↦ rw e (peers_of-delete m k)
  | inr e ↦ rw e (ap (λ x. (j, c.peer) ∷ x) (peers_of-delete m k))
]

peers_of-delete_all :
    (m : Sessions) (ks : List ℕ) → peers_of (delete_all m ks) ≡ delete_all (peers_of m) ks
unfolding delete_all
peers_of-delete_all m [] = refl
peers_of-delete_all m (k ∷ ks) =
    peers_of-delete_all (delete m k) ks ∙ ap (λ x. delete_all x ks) (peers_of-delete m k)

share-delete-le : (a : ℕ) (ps : List (ℕ × Peer)) (k : ℕ) → share a (delete ps k) ≤ share a ps
unfolding delete
share-delete-le a [] k = omega arith
share-delete-le a ((j, p) ∷ ps) k = ground (arith, share-delete-le a ps k)

Keyed-delete : (ps : List (ℕ × Peer)) (k : ℕ) → Keyed ps → Keyed (delete ps k)
unfolding delete
Keyed-delete [] k h = tt
Keyed-delete ((j, p) ∷ ps) k h = ground (arith, Keyed-delete ps k h.1)

delete-Table : (ps : List (ℕ × Peer)) (k : ℕ) → Table ps → Table (delete ps k)
delete-Table ps k t = record {
  distinct = Laws.Distinct-keys-delete ps k t.distinct;
  size = omega (arith, Laws.length-delete-le ps k, t.size);
  fair = λ a. omega (arith, share-delete-le a ps k, t.fair a);
  keyed = Keyed-delete ps k t.keyed;
}

delete_all-Table : (ps : List (ℕ × Peer)) (ks : List ℕ) → Table ps → Table (delete_all ps ks)
unfolding delete_all
delete_all-Table ps [] t = t
delete_all-Table ps (k ∷ ks) t = delete_all-Table (delete ps k) ks (delete-Table ps k t)

pub expire-Table :
    (s : Server) (now : ℕ)
    → Table (peers_of s.client_sessions)
    → Table (peers_of (expire_idle_sessions s now).client_sessions)
unfolding expire_idle_sessions
expire-Table s now t =
    let ks : List ℕ = keys_where (is_idle now) s.client_sessions in
    rw (peers_of-delete_all s.client_sessions ks)
      (delete_all-Table (peers_of s.client_sessions) ks t)

-- The scan finds a key of the table, unless there is none.
oldest_session-has :
    (best : Option (ℕ × ℕ)) (m : Sessions)
    → (oldest_session best m ≡ best)
      ⊎ ((e : ℕ × ℕ) × (oldest_session best m ≡ some e) × (has (keys m) e.0 ≡ true))
unfolding oldest_session keys has
oldest_session-has best [] = inl refl
oldest_session-has none ((k, c) ∷ m) = elim (oldest_session-has (some (k, c.last_packet_time)) m) [
  | inl p ↦ inr ((k, c.last_packet_time), p, ground arith)
  | inr (e, p, h) ↦ inr (e, p, ground arith)
]
oldest_session-has (some (key, at)) ((k, c) ∷ m) = elim (Bool-cases (ltb c.last_packet_time at)) [
  | inl q ↦ elim (oldest_session-has (some (k, c.last_packet_time)) m) [
    | inl p ↦ inr ((k, c.last_packet_time), rw q p, ground arith)
    | inr (e, p, h) ↦ inr (e, rw q p, ground arith)
  ]
  | inr q ↦ elim (oldest_session-has (some (key, at)) m) [
    | inl p ↦ inl (rw q p)
    | inr (e, p, h) ↦ inr (e, rw q p, ground arith)
  ]
]

oldest_session-some :
    (m : Sessions)
    → 0 < length m
    → (e : ℕ × ℕ) × (oldest_session none m ≡ some e) × (has (keys m) e.0 ≡ true)
unfolding oldest_session keys has
oldest_session-some [] h = absurd (omega arith)
oldest_session-some ((k, c) ∷ m) h = elim (oldest_session-has (some (k, c.last_packet_time)) m) [
  | inl p ↦ ((k, c.last_packet_time), p, ground arith)
  | inr (e, p, h) ↦ (e, p, ground arith)
]

-- The eviction makes room, and takes at most one session.
evict-room :
    (m : Sessions)
    → Table (peers_of m)
    → Table (peers_of (evict_oldest_session_if_full m))
      × (length (evict_oldest_session_if_full m) < max_client_sessions)
      × ((k : ℕ) → get m k ≡ none → get (evict_oldest_session_if_full m) k ≡ none)
unfolding evict_oldest_session_if_full
evict-room m t = elim (Bool-cases (ltb (length m) max_client_sessions)) [
  | inl p ↦ rw p (t, ground arith, λ k g. g)
  | inr p ↦
      let (e, q, h) = oldest_session-some m (ground arith) in
      let d : Distinct (keys m) = rw (← keys-peers_of m) t.distinct in
      let r = Laws.length-delete m e.0 d h in
      rw (p, q)
        (
          rw (peers_of-delete m e.0) (delete-Table (peers_of m) e.0 t),
          omega (arith, r, t.size, length-peers_of m),
          λ k g.
              rw (Laws.get-delete m e.0 k, g)
                (elim (Bool-cases (e.0 == k)) [ inl x ↦ rw x refl | inr x ↦ rw x refl ]),
        )
]

share-set :
    (a : ℕ) (m : Sessions) (k : ℕ) (v : ClientSession)
    → get m k ≡ none
    → share a (peers_of (set m k v)) ≡ share a (peers_of m) + (if v.peer.address == a then 1 else 0)
unfolding set get
share-set a [] k v g = omega arith
share-set a ((j, c) ∷ m) k v g = elim (Bool-cases (j == k)) [
  | inl e ↦ absurd (ground arith)
  | inr e ↦ let r = share-set a m k v (rw e at g) in rw e (omega (arith, r))
]

Keyed-set :
    (m : Sessions) (k : ℕ) (v : ClientSession)
    → get m k ≡ none
    → k ≡ peer_key v.peer
    → Keyed (peers_of m)
    → Keyed (peers_of (set m k v))
unfolding set get
Keyed-set [] k v g p h = (p, tt)
Keyed-set ((j, c) ∷ m) k v g p h = elim (Bool-cases (j == k)) [
  | inl e ↦ absurd (ground arith)
  | inr e ↦ rw e (h.0, Keyed-set m k v (rw e at g) p h.1)
]

admit-Table :
    (s : Server) (peer : Peer) (now : ℕ)
    → Table (peers_of s.client_sessions)
    → length s.client_sessions < max_client_sessions
    → get s.client_sessions (peer_key peer) ≡ none
    → Table (peers_of (admit_session s peer now).1.client_sessions)
unfolding admit_session new_session
admit-Table s peer now t r g =
    let m : Sessions = s.client_sessions in
    let key : ℕ = peer_key peer in
    let c : ClientSession = new_session s peer now in
    elim (Bool-cases (leb max_sessions_per_ip (ip_session_count peer.address 0 m))) [
      | inl p ↦ rw (admit_session, p) t
      | inr p ↦
          let few : share peer.address (peers_of m) < max_sessions_per_ip =
            ground (arith, ip_session_count-share peer.address 0 m) in
          rw (admit_session, p)
            (record {
              distinct =
                  rw (keys-peers_of (set m key c))
                    (Laws.Distinct-keys-set m key c (rw (← keys-peers_of m) t.distinct));
              size = omega (arith, length-peers_of (set m key c), Laws.length-set m key c);
              fair = λ a. ground (arith, share-set a m key c g, t.fair a);
              keyed = Keyed-set m key c g refl t.keyed;
            })
    ]

pub get_or_create-Table :
    (s : Server) (peer : Peer) (now : ℕ)
    → Table (peers_of s.client_sessions)
    → Table (peers_of (get_or_create_session s peer now).1.client_sessions)
unfolding get_or_create_session
get_or_create-Table s peer now t = elim (Option-cases (get s.client_sessions (peer_key peer))) [
  | inl p ↦
      let (u, r, g) = evict-room s.client_sessions t in
      rw (get_or_create_session, p)
        (admit-Table (record s { client_sessions = evict_oldest_session_if_full s.client_sessions })
          peer now u r (g (peer_key peer) p))
  | inr (c, p) ↦
      rw (get_or_create_session, p)
        (rw
          (peers_of-set s.client_sessions (peer_key peer) c (record c { last_packet_time = now }) p
            refl)
          t)
]
