-- ===== src/LpSession/Tests.antt =====
-- A session over a small libpeer, and the theorem at it.
use cam.Base.{ℕ, ◌+◌, length, ◌≡◌, refl, true, false, none, List, [], ◌∷◌}
use cam.LpSession.{
  LpFrame, created, connected, changed, Libpeer, LpSession, called, all_called, take_frames,
  drop_frames, begin_send, send_next, connect, negotiate, run_loop, thread_round, set_answer,
  push_frame,
}
use cam.LpSession.Invariant.{is_up, to_state, Chained}
use cam.LpSession.Sending.{given}
use cam.LpSession.Held.{references_balance}
use cam.LpSession.Decodable.{Run, begun, pushes, answers, rounds, sends_on, given_Chained}

-- The answer brings the connection up, and every frame is sent.
abbrev libpeer : Libpeer
libpeer = record {
  Pc = ℕ;
  set_remote_description = λ pc sdp. (pc, changed connected ∷ []);
  loop = λ pc. (pc, changed connected ∷ []);
  send_video = λ pc bytes. (true, pc);
}

abbrev new_viewer : LpSession libpeer
new_viewer = record {
  pc = 0;
  answer = none;
  answer_taken = false;
  stop = false;
  resync = false;
  queue = [];
  batch = [];
  released = 0;
  state = created;
  is_connected = false;
  finished = false;
  candidates = 0;
  created_ms = 0;
  answered_ms = 0;
  connect_ms = 0;
  frames_sent = 0;
  bytes_sent = 0;
  frames_dropped = 0;
  keyframe_requests = 0;
  multi_slice_frames = 0;
  waiting_idr = false;
  force_idr = false;
}

abbrev delta : LpFrame
delta = record { is_idr = false; pts_us = 0; data_ = 1 ∷ [] }

abbrev key : LpFrame
key = record { is_idr = true; pts_us = 1; data_ = 1 ∷ [] }

abbrev up : LpSession libpeer
up = (thread_round libpeer (set_answer libpeer new_viewer (1 ∷ []) 0).1 0 0 0).1

abbrev queued : LpSession libpeer
queued = (push_frame libpeer (push_frame libpeer up delta).1 key).1

abbrev taken : LpSession libpeer
taken = (thread_round libpeer queued 0 0 0).1

abbrev skipped : LpSession libpeer
skipped = (send_next libpeer taken).1

-- The run in which a delta frame is dropped and the IDR frame behind it is sent.
abbrev sent : List LpFrame
sent = given (send_next libpeer skipped).0 (given (send_next libpeer taken).0 [])

run : Run (λ f. f.pts_us) libpeer new_viewer 2 (send_next libpeer skipped).1 sent
unfolding thread_round run_loop negotiate drop_frames take_frames begin_send connect all_called
    called set_answer push_frame send_next
run =
    sends_on
      (sends_on
        (rounds 0 0 0
          (pushes key
            (pushes delta (rounds 0 0 0 (answers (1 ∷ []) 0 begun) refl refl refl) refl refl) refl
            refl)
          refl refl refl)
        refl)
      refl

given_Chained_example : Chained (λ f. f.pts_us) sent
given_Chained_example =
    given_Chained (λ f. f.pts_us) libpeer new_viewer 2 (send_next libpeer skipped).1 sent
      (λ pc. (to_state is_up, tt)) refl refl refl run

references_balance_example :
    (send_next libpeer skipped).1.released
      + length (send_next libpeer skipped).1.batch
      + length (send_next libpeer skipped).1.queue
    ≡ 2
references_balance_example =
    references_balance (λ f. f.pts_us) new_viewer 2 (send_next libpeer skipped).1 sent refl run

key_goes_out : sent ≡ key ∷ []
unfolding thread_round run_loop negotiate drop_frames take_frames begin_send connect all_called
    called set_answer push_frame send_next
key_goes_out = refl
