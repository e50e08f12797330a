-- ===== src/LpSession.antt =====
-- src/lpstream/lp_session.c: a viewer served through libpeer, by a thread of its own.
-- Each function is one critical section, or what the session thread does between two of them; where
-- one has several, it is cut there. The queue is the list of its frames, oldest first: its head only
-- leaves index 0 to return to it. `batch` is what the session thread has taken out and not dealt
-- with yet. libpeer is the parameter Libpeer. A frame is shared, and `released` counts the references
-- that the session has given back. Log lines and texts are left out.
pub mod Invariant
pub mod Sending
pub mod Rounds
pub mod Decodable
pub mod Held
mod Tests
use cam.Base.{
  ℕ, zero, suc, ◌+◌, ◌-◌, ◌%◌, ◌^◌, Bool, true, false, ◌&&◌, ◌||◌, not, Option, none, some, List,
  [], ◌∷◌, ◌++◌, ltb, ◌==◌, if◌then◌else◌, length,
}
use cam.Base.Bytes.{count64}
use cam.H264.{au_scan}

abbrev pub mailbox : ℕ
mailbox = 8

abbrev pub answer_timeout_ms : ℕ
answer_timeout_ms = 15000

abbrev pub connect_timeout_ms : ℕ
connect_timeout_ms = 20000

pub record LpFrame : Type 0 where
  pub is_idr : Bool
  pub pts_us : ℕ
  pub data_ : List ℕ

-- The states of a connection that the code tells apart.
pub data PcState : Type 0 where
  created checking connected failed another : PcState

-- The callbacks of libpeer.
pub data PcCall : Type 0 where
  changed : PcState → PcCall
  keyframe_requested : PcCall

pub record Libpeer : Type 1 where
  pub Pc : Type 0
  pub set_remote_description : Pc → List ℕ → Pc × List PcCall
  pub loop : Pc → Pc × List PcCall
  pub send_video : Pc → List ℕ → Bool × Pc

-- Why a session has ended.
pub data EndReason : Type 0 where
  no_answer not_established connection_lost closed : EndReason

module _ (L : Libpeer) where
  -- `force_idr` is the flag of the encoder that the session sets.
  pub record LpSession : Type 0 where
    pub pc : L.Pc
    pub answer : Option (List ℕ)
    pub answer_taken : Bool
    pub stop : Bool
    pub resync : Bool
    pub queue : List LpFrame
    pub batch : List LpFrame
    pub released : ℕ
    pub state : PcState
    pub is_connected : Bool
    pub finished : Bool
    pub candidates : ℕ
    pub created_ms : ℕ
    pub answered_ms : ℕ
    pub connect_ms : ℕ
    pub frames_sent : ℕ
    pub bytes_sent : ℕ
    pub frames_dropped : ℕ
    pub keyframe_requests : ℕ
    pub multi_slice_frames : ℕ
    pub waiting_idr : Bool
    pub force_idr : Bool

  -- on_state_change() and on_request_keyframe()
  pub called : LpSession → PcCall → LpSession
  called s (changed state) = record s { state = state }
  called s keyframe_requested = record s {
    keyframe_requests = count64 s.keyframe_requests 1;
    force_idr = true;
  }

  pub all_called : LpSession → List PcCall → LpSession
  all_called s [] = s
  all_called s (c ∷ cs) = all_called (called s c) cs

  -- take_frames(): the frames and the flag.
  pub take_frames : LpSession → List LpFrame × Bool × LpSession
  take_frames s = (s.queue, s.resync, record s { queue = []; resync = false })

  -- drop_frames()
  pub drop_frames : LpSession → LpSession
  drop_frames s =
      let (frames, resync, s') = take_frames s in
      record s' { released = s'.released + length frames }

  -- send_frames() up to its loop.
  pub begin_send : LpSession → LpSession
  begin_send s =
      let (frames, resync, s') = take_frames s in
      let filled = record s' { batch = frames } in
      if resync && not s.waiting_idr
      then record filled { waiting_idr = true; force_idr = true }
      else filled

  -- The count of pictures with more than one slice.
  pub count_slices : LpSession → LpFrame → LpSession
  count_slices s frame = elim (au_scan frame.data_) [
    | none ↦ s
    | some info ↦
        if ltb 1 info.slice_count
        then record s { multi_slice_frames = count64 s.multi_slice_frames 1 }
        else s
  ]

  -- A frame given to peer_connection_send_video(), with its counters.
  pub send_frame : LpSession → LpFrame → LpSession
  send_frame s frame =
      let (sent, pc) = L.send_video s.pc frame.data_ in
      let s' = record s { pc = pc } in
      if sent
      then record s' {
        frames_sent = count64 s'.frames_sent 1;
        bytes_sent = count64 s'.bytes_sent (length frame.data_);
      }
      else record s' { frames_dropped = count64 s'.frames_dropped 1 }

  -- One round of that loop, and the frame that libpeer is given, if any.
  pub send_next : LpSession → Option LpFrame × LpSession
  send_next s = elim s.batch [
    | [] ↦ (none, s)
    | frame ∷ rest ↦
        let taken = record s { batch = rest; released = s.released + 1 } in
        if s.waiting_idr && not frame.is_idr
        then (none, record taken { frames_dropped = count64 taken.frames_dropped 1 })
        else (
          some frame,
          send_frame (count_slices (record taken { waiting_idr = false }) frame) frame,
        )
  ]

  -- What session_thread() does once the connection is up, before it sends.
  pub connect : LpSession → ℕ → LpSession
  connect s now = if s.is_connected then s else record s {
    connect_ms = (now + 2 ^ 64 - s.answered_ms) % 2 ^ 64;
    is_connected = true;
    waiting_idr = true;
    force_idr = true;
  }

  -- A round of session_thread() before the answer, whose two critical sections have no field in common: its end, or the session after it. `answer` is what
  -- wait_for_answer() has found, and it has emptied the mailbox of it.
  pub negotiate : LpSession → ℕ → ℕ → Option EndReason × LpSession
  negotiate s now answered =
      let waited = drop_frames (record s { answer = none }) in
      elim s.answer [
        | some sdp ↦
            let (pc, calls) = L.set_remote_description waited.pc sdp in
            (none, record (all_called (record waited { pc = pc }) calls) { answered_ms = answered })
        | none ↦
            if ltb answer_timeout_ms ((now + 2 ^ 64 - s.created_ms) % 2 ^ 64)
            then (some no_answer, waited)
            else (none, waited)
      ]

  -- A later round, up to the sending: peer_connection_loop() and the state that it leaves.
  pub run_loop : LpSession → ℕ → Option EndReason × LpSession
  run_loop s now =
      let (pc, calls) = L.loop s.pc in
      let s' = all_called (record s { pc = pc }) calls in
      elim s'.state [
        | connected ↦ (none, begin_send (connect s' now))
        | checking ↦
            let dropped = drop_frames s' in
            if ltb connect_timeout_ms ((now + 2 ^ 64 - s'.answered_ms) % 2 ^ 64)
            then (some not_established, dropped)
            else (none, dropped)
        | created ↦ (none, drop_frames s')
        | failed ↦ (none, drop_frames s')
        | another ↦ (none, drop_frames s')
      ]

  -- One round of session_thread() up to the sending; the clock is read three times at most.
  pub thread_round : LpSession → ℕ → ℕ → ℕ → Option EndReason × LpSession
  thread_round s now answered looped = if s.stop then (some closed, s) else (elim s.state [
    | created ↦ negotiate s now answered
    | checking ↦ run_loop s looped
    | connected ↦ run_loop s looped
    | failed ↦ (some connection_lost, s)
    | another ↦ (some connection_lost, s)
  ])

  -- The end of session_thread().
  pub end_thread : LpSession → LpSession
  end_thread s = record (drop_frames s) { finished = true }

  -- lp_session_set_answer(), when strdup() succeeds: whether it returns 0.
  pub set_answer : LpSession → List ℕ → ℕ → Bool × LpSession
  set_answer s sdp candidates =
      if s.answer_taken || (s.stop || s.finished)
      then (false, s)
      else (true, record s { answer = some sdp; answer_taken = true; candidates = candidates })

  -- lp_session_push_frame(): whether the frame is queued.
  pub push_frame : LpSession → LpFrame → Bool × LpSession
  push_frame s frame =
      let flushed = record s {
        queue = frame ∷ [];
        resync = true;
        frames_dropped = count64 s.frames_dropped (length s.queue);
        released = s.released + length s.queue;
      } in
      if s.stop || s.finished
      then (false, s)
      else if length s.queue == mailbox
      then (true, flushed)
      else (true, record s { queue = s.queue ++ frame ∷ [] })

  -- lp_session_resync()
  pub resync_session : LpSession → LpSession
  resync_session s = record s { resync = true }

  -- lp_session_close()
  pub close_session : LpSession → LpSession
  close_session s = record s { stop = true }
