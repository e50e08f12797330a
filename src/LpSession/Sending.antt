-- ===== src/LpSession/Sending.antt =====
-- The batch that the session thread takes and sends.
use cam.Base.{
  ℕ, suc, ◌+◌, ◌≡◌, ◌⊎◌, refl, ap, sym, subst, ◌∙◌, inl, inr, true, false, ◌&&◌, not, Option, none,
  some, List, [], ◌∷◌, arith, ltb, if_elim, Bool-cases, Option-cases, length,
}
use cam.H264.{au_scan}
use cam.LpSession.{
  LpFrame, connected, failed, another, Libpeer, LpSession, take_frames, begin_send, count_slices,
  send_frame, send_next, connect,
}
use cam.LpSession.Invariant.{
  WasUp, is_up, Chained, Contiguous, Linked, Chained-idr, Chained-next, Inv, Alike, Alike-Inv,
}

-- The frames that libpeer was given, with one more or not.
abbrev pub given : Option LpFrame → List LpFrame → List LpFrame
given none h = h
given (some f) h = f ∷ h

module _ (order : LpFrame → ℕ) {L : Libpeer} where
  -- The session waits for an IDR frame, or its next frame continues those before.
  pub Aware : ℕ → LpSession L → List LpFrame → Type 0
  Aware n s h = (i : Inv order n s h) × ((s.waiting_idr ≡ true) ⊎ Linked order h i.first)

  pub connect-Aware :
      (n : ℕ) (s : LpSession L) (h : List LpFrame) (now : ℕ)
      → s.state ≡ connected
      → Inv order n s h
      → Aware n (connect L s now) h
  unfolding connect Aware
  connect-Aware n s h now up i =
      if_elim (λ (s' : LpSession L). Aware n s' h) s.is_connected
        (λ old. (
          i,
          (elim i.link [
            | inl waiting ↦ inl waiting
            | inr (inl linked) ↦ inr linked
            | inr (inr (none_out, inl down)) ↦ absurd (ground (arith, old, down))
            | inr (inr (none_out, inr (inl lost))) ↦ absurd (not_failed (sym up ∙ lost))
            | inr (inr (none_out, inr (inr lost))) ↦ absurd (not_another (sym up ∙ lost))
          ]),
        ))
        (λ new. (
          record {
            first = i.first;
            later = i.later;
            batch_run = i.batch_run;
            queue_run = i.queue_run;
            ends = i.ends;
            joins = i.joins;
            link = inl refl;
            past = λ e. subst WasUp (sym up) is_up;
            chained = i.chained;
          },
          inl refl,
        ))
    where
      not_failed : connected ≡ failed → ⊥
      not_failed e = ground arith

      not_another : connected ≡ another → ⊥
      not_another e = ground arith

  pub connect-batch : (s : LpSession L) (now : ℕ) → (connect L s now).batch ≡ s.batch
  unfolding connect
  connect-batch s now =
      if_elim (λ (s' : LpSession L). s'.batch ≡ s.batch) s.is_connected (λ old. refl) (λ new. refl)

  pub begin-Inv :
      (n : ℕ) (s : LpSession L) (h : List LpFrame)
      → s.batch ≡ []
      → Aware n s h
      → Inv order n (begin_send L s) h
  unfolding begin_send take_frames Contiguous Aware
  begin-Inv n s h empty (i, aware) =
      if_elim (λ (s' : LpSession L). Inv order n s' h) (s.resync && not s.waiting_idr)
        (λ loss. record {
          first = i.later;
          later = n;
          batch_run = i.queue_run;
          queue_run = tt;
          ends = at_end;
          joins = inr i.ends;
          link = inl refl;
          past = i.past;
          chained = i.chained;
        })
        (λ none_lost. record {
          first = i.later;
          later = n;
          batch_run = i.queue_run;
          queue_run = tt;
          ends = at_end;
          joins = inr i.ends;
          link = known none_lost aware i.joins;
          past = i.past;
          chained = i.chained;
        })
    where
      at_end : n + length {A = LpFrame} [] ≡ n
      at_end = omega arith

      known :
          (s.resync && not s.waiting_idr) ≡ false
          → (s.waiting_idr ≡ true) ⊎ Linked order h i.first
          → (s.resync ≡ true) ⊎ (i.first + length s.batch ≡ i.later)
          → (s.waiting_idr ≡ true)
            ⊎ (Linked order h i.later)
            ⊎ ((s.queue ≡ [])
                × ((s.is_connected ≡ false) ⊎ (s.state ≡ failed) ⊎ (s.state ≡ another)))
      known e (inl waiting) j = inl waiting
      known e (inr linked) (inl lost) = inl (ground (arith, e, lost))
      known e (inr linked) (inr joined) =
          inr (inl (subst (Linked order h) (omega (arith, rw empty at joined)) linked))

  count_slices-Alike : (s : LpSession L) (f : LpFrame) → Alike order s (count_slices L s f)
  unfolding count_slices
  count_slices-Alike s f = elim (Option-cases (au_scan f.data_)) [
    | inl endless ↦ rw (count_slices, endless) (refl, refl, refl, refl, refl, refl)
    | inr (info, scanned) ↦
        rw (count_slices, scanned)
          (if_elim (Alike order s) (ltb 1 info.slice_count)
            (λ several. (refl, refl, refl, refl, refl, refl))
            (λ one. (refl, refl, refl, refl, refl, refl)))
  ]

  send_frame-Alike : (s : LpSession L) (f : LpFrame) → Alike order s (send_frame L s f)
  unfolding send_frame
  send_frame-Alike s f =
      if_elim (Alike order s) (L.send_video s.pc f.data_).0
        (λ sent. (refl, refl, refl, refl, refl, refl))
        (λ lost. (refl, refl, refl, refl, refl, refl))

  pub send_next-Inv :
      (n : ℕ) (s : LpSession L) (h : List LpFrame)
      → Inv order n s h
      → Inv order n (send_next L s).1 (given (send_next L s).0 h)
  unfolding send_next Contiguous Linked
  send_next-Inv n s h i = go s.batch refl
    where
      taken : List LpFrame → LpSession L
      taken rest = record s { batch = rest; released = s.released + 1; waiting_idr = false }

      follows :
          (f : LpFrame) (rest : List LpFrame)
          → s.batch ≡ f ∷ rest
          → (s.waiting_idr && not f.is_idr) ≡ false
          → Chained order (f ∷ h)
      follows f rest e fit = elim (Bool-cases f.is_idr) [
        | inl key ↦ Chained-idr order f h key i.chained
        | inr delta ↦ elim i.link [
          | inl waiting ↦ absurd (ground (arith, waiting, delta, fit))
          | inr (inl linked) ↦
              Chained-next order f h i.first (rw e at i.batch_run).0 linked i.chained
          | inr (inr (none_out, down)) ↦ absurd (nil_cons (sym e ∙ none_out))
        ]
      ]
        where
          nil_cons : f ∷ rest ≡ [] → ⊥
          nil_cons x = ground arith

      go :
          (batch : List LpFrame)
          → s.batch ≡ batch
          → Inv order n (send_next L s).1 (given (send_next L s).0 h)
      go [] e = rw (send_next, e) i
      go (f ∷ rest) e = elim (Bool-cases (s.waiting_idr && not f.is_idr)) [
        | inl unfit ↦
            rw (send_next, e, unfit)
              (record {
                first = suc i.first;
                later = i.later;
                batch_run = (rw e at i.batch_run).1;
                queue_run = i.queue_run;
                ends = i.ends;
                joins = (elim i.joins [
                  | inl lost ↦ inl lost
                  | inr joined ↦ inr (omega (arith, rw e at joined))
                ]);
                link = inl (ground (arith, unfit));
                past = i.past;
                chained = i.chained;
              })
        | inr fit ↦
            rw (send_next, e, fit)
              (Alike-Inv order n (count_slices L (taken rest) f)
                (send_frame L (count_slices L (taken rest) f) f) (f ∷ h)
                (send_frame-Alike (count_slices L (taken rest) f) f)
                (Alike-Inv order n (taken rest) (count_slices L (taken rest) f) (f ∷ h)
                  (count_slices-Alike (taken rest) f)
                  (record {
                    first = suc i.first;
                    later = i.later;
                    batch_run = (rw e at i.batch_run).1;
                    queue_run = i.queue_run;
                    ends = i.ends;
                    joins = (elim i.joins [
                      | inl lost ↦ inl lost
                      | inr joined ↦ inr (omega (arith, rw e at joined))
                    ]);
                    link = inr (inl (ap suc (rw e at i.batch_run).0));
                    past = i.past;
                    chained = follows f rest e fit;
                  })))
      ]
