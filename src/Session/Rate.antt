-- ===== src/Session/Rate.antt =====
-- How often rtc_session_request_idr() has the encoder asked for an IDR frame.
use cam.Base.{
  ℕ, ◌+◌, ◌*◌, ◌≤◌, ◌<◌, ◌%◌, ◌^◌, ◌-◌, ◌≡◌, ◌⊎◌, refl, false, not, ◌&&◌, ◌==◌, ltb, List, [], ◌∷◌,
  if_elim, arith, ltb-false, inl, inr, suc, Bool-cases, ==_iff,
}
use cam.Dtls.Transport.{Transport}
use cam.Session.{
  Host, Clock, Effect, sent, wants_idr, tells_closed, RtcSession, Step, idr_min_interval_ms,
  request_idr,
}

-- How often the effects ask the encoder.
unfoldable pub asked : List Effect → ℕ
asked [] = 0
asked (wants_idr ∷ effects) = suc (asked effects)
asked (sent bytes peer ∷ effects) = asked effects
asked (tells_closed ∷ effects) = asked effects

-- The times of the calls do not go back, and stay below 2^64.
unfoldable pub InOrder : ℕ → List Clock → Type 0
InOrder from [] = Unit
InOrder from (clock ∷ clocks) =
    (from ≤ clock.idr_ms) × (clock.idr_ms < 2 ^ 64) × InOrder clock.idr_ms clocks

-- The time of the last call.
unfoldable pub latest : ℕ → List Clock → ℕ
latest from [] = from
latest from (clock ∷ clocks) = latest clock.idr_ms clocks

module _ (H : Host) (T : Transport) where
  -- How often the encoder is asked in calls one after the other.
  unfoldable pub asks : RtcSession H T → List Clock → ℕ
  asks s [] = 0
  asks s (clock ∷ clocks) = let r = request_idr H T clock s in asked r.1 + asks r.0 clocks

spaced :
    (last now : ℕ)
    → last ≤ now
    → now < 2 ^ 64
    → (not (last == 0) && ltb ((now + 2 ^ 64 - last) % 2 ^ 64) idr_min_interval_ms) ≡ false
    → (last ≡ 0) ⊎ (last + 400 ≤ now)
spaced last now past small due = elim (Bool-cases (last == 0)) [
  | inl fresh ↦ inl ((==_iff last 0).0 fresh)
  | inr known ↦
      let long = ltb-false ((now + 2 ^ 64 - last) % 2 ^ 64) 400 (rw (known) at due) in
      inr (omega arith)
]

module _ {H : Host} {T : Transport} where
  -- A call either does nothing, or asks when the last time it did is long enough ago.
  abbrev Asks : ℕ → RtcSession H T → Step H T → Type 0
  Asks now s r =
      ((asked r.1 ≡ 0) × (r.0 ≡ s))
      ⊎ ((asked r.1 ≡ 1)
          × (r.0.last_idr_ms ≡ now)
          × ((s.last_idr_ms ≡ 0) ⊎ (s.last_idr_ms + 400 ≤ now)))

  request_idr-Asks :
      (clock : Clock) (s : RtcSession H T)
      → s.last_idr_ms ≤ clock.idr_ms
      → clock.idr_ms < 2 ^ 64
      → Asks clock.idr_ms s (request_idr H T clock s)
  unfolding request_idr asked
  request_idr-Asks clock s past small =
      if_elim (Asks clock.idr_ms s)
        (not (s.last_idr_ms == 0)
          && ltb ((clock.idr_ms + 2 ^ 64 - s.last_idr_ms) % 2 ^ 64) idr_min_interval_ms)
        (λ early. inl (refl, refl))
        (λ due. inr (refl, refl, spaced s.last_idr_ms clock.idr_ms past small due))

  -- After a call that had the encoder asked, each next one is 400 ms later.
  asks-since :
      (s : RtcSession H T) (clocks : List Clock) (from : ℕ)
      → s.last_idr_ms ≤ from
      → 0 < s.last_idr_ms
      → InOrder from clocks
      → asks H T s clocks * 400 + s.last_idr_ms ≤ latest from clocks
  unfolding asks InOrder latest
  asks-since s [] from past known order = omega arith
  asks-since s (clock ∷ clocks) from past known (later, small, order) =
      elim (request_idr-Asks clock s (omega arith) small) [
        | inl (quiet, same) ↦
            let rest = asks-since s clocks clock.idr_ms (omega arith) known order in
            rw (quiet, same) (omega arith)
        | inr (once, now, gap) ↦
            let rest =
              asks-since (request_idr H T clock s).0 clocks clock.idr_ms (omega arith) (omega arith)
                order in
            omega arith
      ]

  -- Let rtc_session_request_idr() be called at times that do not go back and stay below 2^64, from a
  -- time on that is not 0 and not before the last call that had the encoder asked. Whatever the session,
  -- 400 ms times the number of calls that have the encoder asked is at most the time up to the last call,
  -- plus 400 ms.
  pub request_idr-asks_at_most :
      (s : RtcSession H T) (clocks : List Clock) (from : ℕ)
      → 0 < from
      → s.last_idr_ms ≤ from
      → InOrder from clocks
      → asks H T s clocks * 400 + from ≤ latest from clocks + 400
  unfolding asks InOrder latest
  request_idr-asks_at_most s [] from begun past order = omega arith
  request_idr-asks_at_most s (clock ∷ clocks) from begun past (later, small, order) =
      elim (request_idr-Asks clock s (omega arith) small) [
        | inl (quiet, same) ↦
            let rest =
              request_idr-asks_at_most s clocks clock.idr_ms (omega arith) (omega arith) order in
            rw (quiet, same) (omega arith)
        | inr (once, now, gap) ↦
            let rest =
              asks-since (request_idr H T clock s).0 clocks clock.idr_ms (omega arith) (omega arith)
                order in
            omega arith
      ]
