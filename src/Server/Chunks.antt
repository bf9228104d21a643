-- ===== src/Server/Chunks.antt =====
-- The NAK datagrams of a batch: `sendNAK` of src/transport/pipeline/reliable-server/sessions.ts.
use signalk_edge_link.Prelude.{
  ℕ, zero, suc, ◌+◌, ◌≤◌, ◌<◌, ◌≡◌, refl, sym, ap, ◌∙◌, Bool, List, [], ◌∷◌, ◌++◌, length, take,
  drop, All, arith, take-drop, length-take, length-drop, append_assoc, append-nil, map, Bool-cases,
  inl, inr, if◌then◌else◌,
}
use signalk_edge_link.Server.{
  Peer, peer_key, Server, Output, nak_sent, output, epoch_for_peer, max_nak_sequences_per_packet,
}
use signalk_edge_link.Server.Acks.{nak_chunks, send_chunks, send_nak}

abbrev pub concat : List (List ℕ) → List ℕ
concat [] = []
concat (c ∷ cs) = c ++ concat cs

abbrev pub Fits : List ℕ → Type 0
Fits chunk = (0 < length chunk) × (length chunk ≤ max_nak_sequences_per_packet)

nak_chunks-concat :
    (n : ℕ) (missing : List ℕ) → length missing ≤ n → concat (nak_chunks n missing) ≡ missing
unfolding nak_chunks
nak_chunks-concat zero [] h = refl
nak_chunks-concat zero (m ∷ ms) h = absurd (omega arith)
nak_chunks-concat (suc n) [] h = refl
nak_chunks-concat (suc n) (m ∷ ms) h =
    let rest : List ℕ = drop max_nak_sequences_per_packet (m ∷ ms) in
    ap (λ x. take max_nak_sequences_per_packet (m ∷ ms) ++ x)
      (nak_chunks-concat n rest (omega (arith, length-drop max_nak_sequences_per_packet (m ∷ ms))))
    ∙ take-drop max_nak_sequences_per_packet (m ∷ ms)

nak_chunks-Fits : (n : ℕ) (missing : List ℕ) → All Fits (nak_chunks n missing)
unfolding nak_chunks
nak_chunks-Fits zero missing = tt
nak_chunks-Fits (suc n) [] = tt
nak_chunks-Fits (suc n) (m ∷ ms) = (
  (
    omega (arith, length-take max_nak_sequences_per_packet (m ∷ ms)),
    omega (arith, length-take max_nak_sequences_per_packet (m ∷ ms)),
  ),
  nak_chunks-Fits n (drop max_nak_sequences_per_packet (m ∷ ms)),
)

-- The chunks that the socket takes.
abbrev pub taken : (List ℕ → Bool) → List (List ℕ) → List (List ℕ)
taken sends [] = []
taken sends (c ∷ cs) = let rest = taken sends cs in if sends c then c ∷ rest else rest

send_chunks-outputs :
    (s : Server) (peer : Peer) (chunks : List (List ℕ)) (sends : List ℕ → Bool)
    → (send_chunks s peer chunks sends).outputs
      ≡ s.outputs
        ++ map (λ c. nak_sent peer (epoch_for_peer s (peer_key peer)) c) (taken sends chunks)
unfolding send_chunks epoch_for_peer
send_chunks-outputs s peer [] sends = sym (append-nil s.outputs)
send_chunks-outputs s peer (c ∷ cs) sends = elim (Bool-cases (sends c)) [
  | inl p ↦
      let o : Output = nak_sent peer (epoch_for_peer s (peer_key peer)) c in
      let s' : Server = record (output s o) {
        metrics = record s.metrics { naks_sent = s.metrics.naks_sent + 1 };
      } in
      rw (send_chunks, p)
        (send_chunks-outputs s' peer cs sends
          ∙ append_assoc s.outputs (o ∷ [])
              (map (λ d. nak_sent peer (epoch_for_peer s (peer_key peer)) d) (taken sends cs)))
  | inr p ↦ rw (send_chunks, p) (send_chunks-outputs s peer cs sends)
]

-- A batch of missing sequences is cut into datagrams of at least one and at most 256 of them, which
-- together are the batch, in order; each that the socket takes is sent, whatever became of the others.
pub send_nak_lem :
    (s : Server) (peer : Peer) (missing : List ℕ) (sends : List ℕ → Bool)
    → (chunks : List (List ℕ)) × (concat chunks ≡ missing)
      × All Fits chunks
      × ((send_nak s peer missing sends).outputs
          ≡ s.outputs
            ++ map (λ c. nak_sent peer (epoch_for_peer s (peer_key peer)) c) (taken sends chunks))
unfolding send_nak
send_nak_lem s peer missing sends = (
  nak_chunks (length missing) missing,
  nak_chunks-concat (length missing) missing (omega arith),
  nak_chunks-Fits (length missing) missing,
  send_chunks-outputs s peer (nak_chunks (length missing) missing) sends,
)
