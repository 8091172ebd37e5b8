-- ===== src/Sessions/Calls.antt =====
-- Sequences of calls of the handlers, from the start of the session manager on.
use rdk_audiocapturemgr.Prelude.{
  ◌≡◌, refl, List, [], ◌∷◌, ok, >>=-parts, arith, ◌+◌, ◌<◌, ◌≤◌, ◌^◌, length,
}
use rdk_audiocapturemgr.Prelude.Int.{ℤ}
use rdk_audiocapturemgr.Audio.{CaptureLibrary}
use rdk_audiocapturemgr.QMgr.{QMgr, q_mgr}
use rdk_audiocapturemgr.Sessions.{
  SessionMgr, OutputType, open_handler, close_handler, start_handler, stop_handler, acm_session_mgr,
}
use rdk_audiocapturemgr.Sessions.Valid.{
  IsValid, open_handler-IsValid, close_handler-IsValid, start_handler-IsValid, stop_handler-IsValid,
}

-- A call, with what the capture library returns if it is used.
pub data Call : Type 0 where
  opens : ℤ → ℤ → OutputType → Call
  closes : ℤ → ℤ → Call
  starts : ℤ → ℤ → Call
  stops : ℤ → ℤ → Call

unfoldable pub handle : Call → SessionMgr → SessionMgr
handle (opens ret source output_type) m = (open_handler ret source output_type m).0
handle (closes ret id) m = (close_handler ret id m).0
handle (starts ret id) m = (start_handler ret id m).0
handle (stops ret id) m = (stop_handler ret id m).0

unfoldable pub handle_all : List Call → SessionMgr → SessionMgr
handle_all [] m = m
handle_all (c ∷ cs) m = handle_all cs (handle c m)

-- The counter goes on by one at most.
handle-counter : (c : Call) (m : SessionMgr) → (handle c m).session_counter ≤ m.session_counter + 1
unfolding handle open_handler close_handler start_handler stop_handler
handle-counter (opens ret source output_type) m = ground arith
handle-counter (closes ret id) m = ground arith
handle-counter (starts ret id) m = ground arith
handle-counter (stops ret id) m = ground arith

handle-IsValid :
    (c : Call) (m : SessionMgr) → m.session_counter + 1 < 2 ^ 31 → IsValid m → IsValid (handle c m)
unfolding handle
handle-IsValid (opens ret source output_type) m room v =
    open_handler-IsValid ret source output_type m room v
handle-IsValid (closes ret id) m room v = close_handler-IsValid ret id m v
handle-IsValid (starts ret id) m room v = start_handler-IsValid ret id m v
handle-IsValid (stops ret id) m room v = stop_handler-IsValid ret id m v

handle_all-kept :
    (cs : List Call) (m : SessionMgr)
    → m.session_counter + length cs < 2 ^ 31
    → IsValid m
    → IsValid (handle_all cs m)
unfolding handle_all
handle_all-kept [] m room v = v
handle_all-kept (c ∷ cs) m room v =
    handle_all-kept cs (handle c m) (omega (arith, handle-counter c m))
      (handle-IsValid c m (omega arith) v)

pub q_mgr-no_clients : (lib : CaptureLibrary) (q : QMgr) → q_mgr lib ≡ ok q → q.clients ≡ []
unfolding q_mgr
q_mgr-no_clients lib q e = ground arith

-- After fewer than 2 ^ 31 calls of the handlers on a new session manager, session ids and clients
-- are distinct and below their counters, the queue manager has exactly the clients of the enabled
-- sessions, and there is at most one session of a music id client.
pub handle_all-IsValid :
    (lib : CaptureLibrary) (cs : List Call) (m : SessionMgr)
    → acm_session_mgr lib ≡ ok m
    → length cs < 2 ^ 31
    → IsValid (handle_all cs m)
unfolding acm_session_mgr
handle_all-IsValid lib cs m e few =
    let (q, made, rest) = >>=-parts (q_mgr lib) _ e in
    let empty : m.sessions ≡ [] = ground (arith, rest) in
    let nobody : m.sources.clients ≡ [] = ground (arith, rest, q_mgr-no_clients lib q made) in
    let first : m.session_counter ≡ 0 = ground (arith, rest) in
    handle_all-kept cs m (omega (arith, first)) (record {
      apart = rw empty (tt, tt);
      registered = λ c. rw (empty, nobody) refl;
      one_music = rw empty (omega arith);
    })
