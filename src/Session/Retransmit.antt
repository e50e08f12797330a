-- ===== src/Session/Retransmit.antt =====
-- A NACK is answered with the very bytes that were sent.
use cam.Base.{
  ℕ, Option, ◌++◌, ◌%◌, ◌≤◌, ◌<◌, ◌≡◌, ◌≢◌, refl, ap, ◌∙◌, false, ◌||◌, not, some, List, [], ◌∷◌,
  arith, ltb, ◌==◌, if_elim, Option-cases, Bool-cases, inl, inr, All, length, get_or, length-set,
  get_or-set_self, get_or-set_ne,
}
use cam.Rtp.{Sent}
use cam.Dtls.Transport.{Callback, sends, connects, changes, Transport, IsSend, one_packet}
use cam.Session.{
  Peer, Host, Clock, sent, Slot, RtcSession, Step, retx_cache_size, session_sendto, dtls_send_udp,
  called, all_called, close, after_call,
}
use cam.Session.Inbound.{empty_slot, remote_or_zero, handle_nacks}
use cam.Session.Outbound.{remember, rtp_packet_sink, sink_all}

-- A packet that may follow: it leaves the slot alone, and fits its own.
abbrev pub IsOther : ℕ → Sent → Type 0
IsOther seq q = (q.sequence % retx_cache_size ≢ seq % retx_cache_size) × (length q.packet ≤ 1254)

module _ {H : Host} {T : Transport} where
  -- The cache and the peer stay.
  abbrev Keeps : RtcSession H T → RtcSession H T → Type 0
  Keeps s s' = (s'.retx ≡ s.retx) × (s'.remote ≡ s.remote)

  sendto-Keeps :
      (s : RtcSession H T) (bytes : List ℕ) (peer : Peer)
      → Keeps s (session_sendto H T s bytes peer).1
  unfolding session_sendto
  sendto-Keeps s bytes peer = elim (Bool-cases (H.sendto s.socket bytes peer).0) [
    | inl whole ↦ rw whole (refl, refl)
    | inr part ↦ rw part (refl, refl)
  ]

  send_udp-Keeps : (s : RtcSession H T) (packet : List ℕ) → Keeps s (dtls_send_udp H T s packet).0
  unfolding dtls_send_udp
  send_udp-Keeps s packet = elim (Option-cases s.remote) [
    | inl alone ↦ rw (dtls_send_udp, alone) (refl, alone)
    | inr (peer, known) ↦
        rw (dtls_send_udp, known) (let (r, p) = sendto-Keeps s packet peer in (r, p ∙ known))
  ]

  all_called-Keeps :
      (clock : Clock) (shut : RtcSession H T → Step H T) (s : RtcSession H T) (cs : List Callback)
      → All IsSend cs
      → Keeps s (all_called H T clock shut s cs).0
  unfolding all_called called
  all_called-Keeps clock shut s [] hs = (refl, refl)
  all_called-Keeps clock shut s (sends packet ∷ cs) (one_packet, hs) =
      let (r, p) = send_udp-Keeps s packet in
      let (r', p') = all_called-Keeps clock shut (dtls_send_udp H T s packet).0 cs hs in
      (r' ∙ r, p' ∙ p)
  all_called-Keeps clock shut s (connects ∷ cs) hs = elim hs.0 [ ]
  all_called-Keeps clock shut s (changes state ∷ cs) hs = elim hs.0 [ ]

  abbrev slot_at : RtcSession H T → ℕ → Slot
  slot_at s seq = get_or s.retx (seq % retx_cache_size) empty_slot

  -- A packet for another slot leaves this one, the size of the cache, and the peer.
  abbrev Spares : ℕ → RtcSession H T → RtcSession H T → Type 0
  Spares seq s s' =
      (slot_at s' seq ≡ slot_at s seq) × (length s'.retx ≡ length s.retx) × (s'.remote ≡ s.remote)

  spared : (seq : ℕ) (s s' : RtcSession H T) → Keeps s s' → Spares seq s s'
  spared seq s s' (r, p) =
      (ap (λ slots. get_or slots (seq % retx_cache_size) empty_slot) r, ap length r, p)

  after : Clock → RtcSession H T → Sent → Step H T
  after clock s q =
      after_call H T clock s
        ((T.send_rtp s.transport q.packet).1, (T.send_rtp s.transport q.packet).2)

  after-Keeps : (clock : Clock) (s : RtcSession H T) (q : Sent) → Keeps s (after clock s q).0
  unfolding after
  after-Keeps clock s q =
      all_called-Keeps clock (close H T clock)
        (record s { transport = (T.send_rtp s.transport q.packet).1 })
        (T.send_rtp s.transport q.packet).2 (T.send_rtp-IsSend s.transport q.packet)

  -- A protected packet fits its slot, if there is room for the tag.
  slot_room :
      (s : RtcSession H T) (q : Sent) (bytes : List ℕ)
      → length q.packet ≤ 1254
      → (T.send_rtp s.transport q.packet).0 ≡ some bytes
      → ltb 1264 (length bytes) ≡ false
  slot_room s q bytes size protected =
      ground (arith, size, T.length-send_rtp s.transport q.packet bytes protected)

  sink-Spares :
      (clock : Clock) (s : RtcSession H T) (q : Sent) (seq : ℕ)
      → q.sequence % retx_cache_size ≢ seq % retx_cache_size
      → length q.packet ≤ 1254
      → (r : Step H T) × (rtp_packet_sink H T clock s q ≡ some r) × Spares seq s r.0
  unfolding rtp_packet_sink remember after
  sink-Spares clock s q seq ne size =
      let kept = spared seq s (after clock s q).0 (after-Keeps clock s q) in
      if_elim (λ (o : Option (Step H T)). (r : Step H T) × (o ≡ some r) × Spares seq s r.0)
        (ltb 1264 (length q.packet) || ltb (length q.packet) 12)
        (λ unfit. ((s, []), refl, (refl, refl, refl)))
        (λ fits. elim (Option-cases (T.send_rtp s.transport q.packet).0) [
          | inl failing ↦ (after clock s q, rw failing refl, kept)
          | inr (bytes, protected) ↦
              let room = slot_room s q bytes size protected in
              (
                (remember H T (after clock s q).0 q bytes, (after clock s q).1),
                rw (protected, room) refl,
                (
                  get_or-set_ne (after clock s q).0.retx (q.sequence % retx_cache_size)
                        (seq % retx_cache_size) _ empty_slot ne
                      ∙ kept.0,
                  length-set (after clock s q).0.retx (q.sequence % retx_cache_size) _ ∙ kept.1,
                  kept.2,
                ),
              )
        ])

  sink_all-Spares :
      (clock : Clock) (s : RtcSession H T) (qs : List Sent) (seq : ℕ)
      → All (IsOther seq) qs
      → (r : Step H T) × (sink_all H T clock s qs ≡ some r) × Spares seq s r.0
  unfolding sink_all
  sink_all-Spares clock s [] seq h = ((s, []), refl, (refl, refl, refl))
  sink_all-Spares clock s (q ∷ qs) seq h =
      let (r, e, (a, b, c)) = sink-Spares clock s q seq h.0.0 h.0.1 in
      let (r', e', (a', b', c')) = sink_all-Spares clock r.0 qs seq h.1 in
      ((r'.0, r.1 ++ r'.1), rw (e, e') refl, (a' ∙ a, b' ∙ b, c' ∙ c))

  -- A request for what a slot holds sends that.
  nack_answer :
      (s : RtcSession H T) (seq : ℕ) (bytes : List ℕ) (peer : Peer)
      → slot_at s seq ≡ record { packet = bytes; sequence = seq }
      → 0 < length bytes
      → s.remote ≡ some peer
      → (handle_nacks H T s (seq ∷ [])).1 ≡ sent bytes peer ∷ []
  unfolding handle_nacks session_sendto remote_or_zero
  nack_answer s seq bytes peer e some_bytes known =
      let there : (length bytes == 0 || not (seq == seq)) ≡ false = ground (arith, some_bytes) in
      rw (e, there, known) refl

  goes_out :
      (clock : Clock) (s : RtcSession H T) (q : Sent) (bytes : List ℕ) (peer : Peer)
      → s.remote ≡ some peer
      → (T.send_rtp s.transport q.packet).0 ≡ some bytes
      → (after clock s q).1 ≡ sent bytes peer ∷ []
  unfolding after all_called called dtls_send_udp session_sendto
  goes_out clock s q bytes peer known protected =
      rw (T.send_rtp-sends s.transport q.packet bytes protected, known) refl

  -- A packet that fits and is protected goes out, and into the cache.
  sink_sends :
      (clock : Clock) (s : RtcSession H T) (q : Sent) (bytes : List ℕ)
      → (ltb 1264 (length q.packet) || ltb (length q.packet) 12) ≡ false
      → (T.send_rtp s.transport q.packet).0 ≡ some bytes
      → ltb 1264 (length bytes) ≡ false
      → rtp_packet_sink H T clock s q
        ≡ some (remember H T (after clock s q).0 q bytes, (after clock s q).1)
  unfolding rtp_packet_sink after
  sink_sends clock s q bytes fits protected room = rw (fits, protected, room) refl

  -- Let the cache have its 512 slots and the peer be known. If a packet of 12 to 1254 bytes is
  -- protected as some bytes, then those are sent to the peer, and, whatever packets of other slots and
  -- of at most 1254 bytes are sent afterwards, none of them runs over its slot, and a NACK for the
  -- sequence number of the first is answered with the same bytes, once.
  pub retransmits :
      (clock : Clock) (s : RtcSession H T) (q : Sent) (later : List Sent) (bytes : List ℕ)
      (peer : Peer)
      → length s.retx ≡ retx_cache_size
      → s.remote ≡ some peer
      → 12 ≤ length q.packet
      → length q.packet ≤ 1254
      → (T.send_rtp s.transport q.packet).0 ≡ some bytes
      → 0 < length bytes
      → All (IsOther q.sequence) later
      → (first then_ : Step H T) × (rtp_packet_sink H T clock s q ≡ some first)
        × (sink_all H T clock first.0 later ≡ some then_)
        × (first.1 ≡ sent bytes peer ∷ [])
        × ((handle_nacks H T then_.0 (q.sequence ∷ [])).1 ≡ sent bytes peer ∷ [])
  unfolding remember
  retransmits clock s q later bytes peer slots known low high protected some_bytes others =
      let fits : (ltb 1264 (length q.packet) || ltb (length q.packet) 12) ≡ false =
        ground (arith, low, high) in
      let first : Step H T = (remember H T (after clock s q).0 q bytes, (after clock s q).1) in
      let one = sink_sends clock s q bytes fits protected (slot_room s q bytes high protected) in
      let (slots_kept, peer_kept) = after-Keeps clock s q in
      let held : slot_at first.0 q.sequence ≡ record { packet = bytes; sequence = q.sequence } =
        get_or-set_self (after clock s q).0.retx (q.sequence % retx_cache_size) _ empty_slot
          (rw (slots_kept, slots) (omega arith)) in
      let peered : first.0.remote ≡ some peer = peer_kept ∙ known in
      let (then_, two, (slot_spared, size, peer_spared)) =
        sink_all-Spares clock first.0 later q.sequence others in
      (
        first,
        then_,
        one,
        two,
        goes_out clock s q bytes peer known protected,
        nack_answer then_.0 q.sequence bytes peer (slot_spared ∙ held) some_bytes
            (peer_spared ∙ peered),
      )
