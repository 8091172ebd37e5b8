-- ===== src/Music/Sending.antt =====
-- src/music_id.cpp: `send_clip_via_socket`, as the callback of the socket adaptor.
use rdk_audiocapturemgr.Prelude.{◌∙◌, ℕ, ◌≡◌, refl, List, [], ◌∷◌, some, true, false, arith}
use rdk_audiocapturemgr.Prelude.Int.{ℤ}
use rdk_audiocapturemgr.Converter.{Sink}
use rdk_audiocapturemgr.Music.{MusicIdClient}
use rdk_audiocapturemgr.Socket.{
  Adaptor, is_open, terminate_current_connection, write_data, accept_connection,
}
use rdk_audiocapturemgr.Socket.Descriptors.{
  is_new, IsValid, terminate-IsValid, accept-IsValid, write-IsValid,
}
use rdk_audiocapturemgr.Socket.Worker.{process_new_connection}

-- The clip at the front of the outbox is written, if there is one, and the connection is closed;
-- `written` is what `write` returns.
unfoldable pub send_clip : ℤ → List Sink → Adaptor × MusicIdClient → Adaptor × MusicIdClient
send_clip written [] (a, m) = (terminate_current_connection a, m)
send_clip written (clip ∷ clips) (a, m) =
    (terminate_current_connection (write_data written a).0, record m { outbox = clips })

unfoldable pub send_clip_via_socket : ℤ → Adaptor × MusicIdClient → Adaptor × MusicIdClient
unfolding send_clip
send_clip_via_socket written (a, m) = send_clip written m.outbox (a, m)

-- `connected_callback`; its data is the client.
unfoldable pub connected_callback : ℤ → ℕ → Adaptor × MusicIdClient → Adaptor × MusicIdClient
unfolding send_clip_via_socket
connected_callback written client x = send_clip_via_socket written x

abbrev pub rest_of : List Sink → List Sink
rest_of [] = []
rest_of (clip ∷ clips) = clips

terminated-closed : (a : Adaptor) → is_open (terminate_current_connection a).write_fd ≡ false
unfolding terminate_current_connection
terminated-closed a = ground arith

send_clip-closes :
    (written : ℤ) (clips : List Sink) (a : Adaptor) (m : MusicIdClient)
    → m.outbox ≡ clips
    → IsValid a
    → (let x = send_clip written clips (a, m) in
        IsValid x.0 × (is_open x.0.write_fd ≡ false) × (x.1.outbox ≡ rest_of clips))
unfolding send_clip
send_clip-closes written [] a m same v = (terminate-IsValid a v, terminated-closed a, same)
send_clip-closes written (clip ∷ clips) a m same v = (
  terminate-IsValid (write_data written a).0 (write-IsValid written a v),
  terminated-closed (write_data written a).0,
  refl,
)

callback_kept : (accepted : ℤ) (a : Adaptor) → (accept_connection accepted a).callback ≡ a.callback
unfolding accept_connection terminate_current_connection
callback_kept accepted a = ground arith

calls_back :
    (accepted written : ℤ) (client : ℕ) (a : Adaptor) (m : MusicIdClient)
    → a.callback ≡ some client
    → process_new_connection (connected_callback written) accepted (a, m)
      ≡ send_clip written m.outbox (accept_connection accepted a, m)
unfolding process_new_connection connected_callback
calls_back accepted written client a m registered =
    let called : (accept_connection accepted a).callback ≡ some client =
      callback_kept accepted a ∙ registered in
    simp called refl

-- A connection to the socket of a music id client that has registered its callback, with
-- descriptors that are counted right, accepted under another descriptor than 0 or not accepted, and
-- whatever write returns: afterwards the clip at the front of the outbox is gone from it, no
-- connection is open or counted, and the descriptors are counted right. So a connection that could
-- not be accepted takes a clip with it.
pub process_new_connection-sends :
    (accepted written : ℤ) (client : ℕ) (a : Adaptor) (m : MusicIdClient)
    → IsValid a
    → is_new accepted ≡ true
    → a.callback ≡ some client
    → (let x = process_new_connection (connected_callback written) accepted (a, m) in
        IsValid x.0
        × (is_open x.0.write_fd ≡ false)
        × (x.0.num_connections ≡ 0)
        × (x.1.outbox ≡ rest_of m.outbox))
process_new_connection-sends accepted written client a m v new registered =
    let connected = accept_connection accepted a in
    let (valid, closed, rest) =
      send_clip-closes written m.outbox connected m refl (accept-IsValid accepted a new v) in
    rw (calls_back accepted written client a m registered)
      (valid, closed, rw closed at valid.counted, rest)
