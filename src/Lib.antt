-- ===== src/Lib.antt =====
-- cam streams the picture of a camera to browsers over WebRTC, and to libpeer clients in the LAN.
-- Its parts, and how they interact:
--   - a source (src/media/csi_source.c, v4l2_source.c, test_source.c) runs in source_worker.c and
--     publishes frames of frame_pool.c in frame_hub.c;
--   - encoder_worker.c takes the newest frame, converts it (yuv_convert.c), encodes it
--     (h264_encoder.c with encoder_x264.c or encoder_v4l2m2m.c), puts parameter sets in front with
--     h264_bitstream.c, and pushes each access unit into a ring, au_ring.c, whose event descriptor wakes the thread of the server;
--   - the server (src/app/app_server.c, src/lpstream/lp_server.c) pops access units and gives each to
--     the sessions (src/webrtc/webrtc_session.c, src/lpstream/lp_session.c);
--   - a session answers connectivity checks (ice_lite.c), runs DTLS and SRTP (dtls_srtp.c), cuts
--     access units into RTP packets (rtp_h264.c), sends reports and reads feedback (rtcp.c).
--
-- What is modelled:
--   - AuRing: src/media/au_ring.c. AuRing/Spec is the queue that the ring stands for, AuRing/Refine
--     and History relate the two, AuRing/Wakeup has the interleavings of the critical sections with
--     the writes to the event descriptor, which are interfaces of the parameter EventFd.
--   - FramePool: src/media/frame_pool.c. FramePool/Valid has the invariant of the pool, and
--     FramePool/History any calls from its creation on, one after the other.
--   - FrameHub: src/media/frame_hub.c over that pool, but for the wait and the destruction.
--     FrameHub/Newest is about what consumers find and whose references there are.
--   - Rtcp: src/webrtc/rtcp.c. Rtcp/Packets is the format of RFC 3550 and RFC 4585 as an encoder,
--     Rtcp/RoundTrip the parse of what it encodes, Rtcp/Safe the parse of every buffer, Rtcp/Timing
--     the times.
--   - Rtp: src/webrtc/rtp_h264.c. Rtp/Scan and Bounds are about next_nal(), Rtp/Fragments has a
--     receiver of RFC 6184 (single units and FU-A), Rtp/Delivery what it gets, Rtp/Sequence the numbers and counters.
--   - H264: src/media/h264_bitstream.c. H264/Safe is about every buffer.
--   - Stun: src/webrtc/ice_lite.c but for udp_socket_create(). Stun/Crc is crc32_stun(). OpenSSL is
--     the parameter Crypto.
--   - Dtls: src/webrtc/dtls_srtp.c, one session; OpenSSL and libsrtp are the parameter Libraries.
--     Dtls/Fingerprint is the test of the certificate, Dtls/Verified what must have happened before
--     media flows, Dtls/Callbacks the order of its callbacks. Dtls/Transport is the interface that a
--     session of webrtc_session.c uses, and Dtls/Callbacks fills it.
--   - Session: src/webrtc/webrtc_session.c over that interface, with the socket and the clocks as
--     arguments. Session/Inbound and Outbound are the two ways, Session/Creation the start;
--     Session/Closing and Once are about the end, Session/Authentic about who the peer is,
--     Session/Retransmit about the cache, Session/Bounds about reads outside of a datagram,
--     Session/Rate about how often the encoder is asked.
--   - LpSession: src/lpstream/lp_session.c with libpeer as the parameter Libpeer. LpSession/Decodable
--     has the interleavings of the threads and what a viewer is given; Invariant, Sending and Rounds
--     are its parts; LpSession/Held is about the references to frames.
--   - Mdns: src/net/mdns.c, the names in DNS packets, and in Mdns/Records the packets that a responder
--     builds. Mdns/Bounds is about every packet, Mdns/Labels reads back what was written, Mdns/Fits is
--     about the size of a response and its count of records.
--   - Base: words, buffers and lists, shared by all.
-- The functions keep the names of the source, without the prefix of their file. A function that the
-- source cuts into several critical sections or that has a loop is several definitions here, one for
-- each section or loop, composed by the one with its name. (In H264, next_nal() is next_unit and
-- store() is store_set; in LpSession, a function on the mailbox ends in the word session where its name
-- would be too short; in FrameHub, frame_hub_create() is hub_create and frame_hub_take() take_frame.)
--
-- A buffer is the list of its bytes. Where the bounds of a read are the code's own affair, a read
-- outside has no result, so that a theorem about a result is one about bounds too. Numbers are those
-- of their C types, with the wrap-around written out. Loops over buffers run on fuel: the length of
-- the buffer, or one more, since each round goes on by one byte at least. Running out of it has no
-- result, or is told apart from every result. (A loop of a known number of rounds counts them down to 0,
-- as for a report block, a bit of a mask, or an entry of the ring. In
-- dns_write_name() the end of the fuel would be the result -1.)
--
-- Not modelled: the queries of src/net/mdns.c and the states of its responder; src/webrtc/sdp.c and
-- src/lpstream/lp_sdp.c; the configuration; the servers; the threads around the encoder and the source.
-- Nor are: sockets, threads, descriptors and devices, which are calls into the system; the
-- allocators, which are parameters where their result matters; null pointers, but for those that a
-- function tests and that mean something other than an error of its caller; the vendored
-- third_party/mongoose and the submodule of libpeer.
pub mod Base
pub mod FramePool
pub mod FrameHub
pub mod AuRing
pub mod Rtcp
pub mod Stun
pub mod Rtp
pub mod H264
pub mod Dtls
pub mod Session
pub mod LpSession
pub mod Mdns
