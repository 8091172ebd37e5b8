-- ===== src/Daemon.antt =====
-- src/acm_session_mgr.cpp with src/music_id.cpp, src/ip_out.cpp: the whole process, with the objects of
-- the clients. The handlers of Sessions are completed by what they do to those objects: they create,
-- call and delete them. An object is found by its address, and a deleted one is not there any more.
pub mod Kinds
pub mod Messages
pub mod Populated
pub mod Objects
pub mod Handlers
pub mod Valid
pub mod Opened
pub mod Serving
pub mod Reconfigured
pub mod Runs
pub mod Launch
pub mod Closed
pub mod Rounds
pub mod Flight
pub mod InFlight
pub mod Delivered
pub mod Bus
mod BusTests
mod RoundTests
mod Tests
use rdk_audiocapturemgr.Prelude.{
  ℕ, suc, Option, none, some, List, Bool, true, false, ◌==◌, Result, ok, err, use_after_free, ◌>>=◌,
  if◌then◌else◌,
}
use rdk_audiocapturemgr.Prelude.Int.{ℤ}
use rdk_audiocapturemgr.Audio.{CaptureLibrary, u32}
use rdk_audiocapturemgr.Buffer.{Heap}
use rdk_audiocapturemgr.Socket.{Adaptor, Bind}
use rdk_audiocapturemgr.IpOut.{IpOutClient, ip_out_client, close_output}
use rdk_audiocapturemgr.Music.{MusicIdClient, socket_output, enable_output_conversion}
use rdk_audiocapturemgr.Music.Creation.{music_id_client, listen_for_requests}
use rdk_audiocapturemgr.Music.Ending.{destroy}
use rdk_audiocapturemgr.Sessions.{Session, SessionMgr, acm_session_mgr}
use rdk_audiocapturemgr.Sessions.Samples.{get_sock_path}

-- A music id client with its socket adaptor; `ticker` is the number in its socket's path.
pub record MusicObject : Type 0 where
  pub client : MusicIdClient
  pub adaptor : Adaptor
  pub ticker : ℕ

pub data Object : Type 0 where
  music : MusicObject → Object
  ip_out : IpOutClient → Object

-- The two tickers number the paths of the sockets of each class.
pub record Daemon : Type 0 where
  pub mgr : SessionMgr
  pub objects : ℕ → Option Object
  pub heap : Heap
  pub music_ticker : ℕ
  pub ip_ticker : ℕ

-- The answers of the outside to one message: of the capture library, of `isFeatureEnabled.sh`, of
-- `socket`, of `bind` for the two classes, and whether the EXIT message of `close_output` is written.
pub record Outside : Type 0 where
  pub lib : CaptureLibrary
  pub start_ret : ℤ
  pub stop_ret : ℤ
  pub converts : Bool
  pub fd : ℤ
  pub music_bind : Bind
  pub music_bind_again : Bind
  pub ip_bind : List ℕ → Bind
  pub sent : Bool

abbrev pub put : ℕ → Option Object → (ℕ → Option Object) → ℕ → Option Object
put a o objects c = if c == a then o else objects c

-- The process before its first message.
unfoldable pub launch : CaptureLibrary → Result Daemon
launch lib = do
  m ← acm_session_mgr lib
  ok (record {
    mgr = m;
    objects = λ c. none;
    heap = record { next = 0; cell = λ p. none };
    music_ticker = 0;
    ip_ticker = 0;
  })

-- The object that is created around a new music id client.
abbrev pub new_music : Outside → Daemon → MusicIdClient → MusicObject
new_music o d client = record {
  client = enable_output_conversion o.converts client;
  adaptor =
      listen_for_requests (get_sock_path d.music_ticker) o.fd o.music_bind o.music_bind_again
        d.mgr.next_client;
  ticker = d.music_ticker;
}

-- The two kinds of client that `open_handler` creates.
unfoldable pub create_music : Outside → Daemon → Result Daemon
create_music o d = do
  (client, h) ← music_id_client d.mgr.sources.bytes_per_second socket_output d.heap
  ok (record d {
    objects = put d.mgr.next_client (some (music (new_music o d client))) d.objects;
    heap = h;
    music_ticker = u32 (suc d.music_ticker);
  })

unfoldable pub create_ip_out : Outside → Daemon → Daemon
create_ip_out o d =
    let (ticker, client) = ip_out_client o.ip_bind o.fd d.ip_ticker in
    record d {
      objects = put d.mgr.next_client (some (ip_out client)) d.objects;
      ip_ticker = ticker;
    }

unfoldable pub create_client : Outside → Bool → Daemon → Result Daemon
unfolding create_music create_ip_out
create_client o true d = create_music o d
create_client o false d = ok (create_ip_out o d)

-- The destructors of the two classes.
unfoldable pub destroy_object : Bool → Object → Heap → Result Heap
destroy_object sent (music m) h = do (client, h') ← destroy m.client h; ok h'
destroy_object sent (ip_out c) h = do c' ← close_output sent c; ok h

unfoldable pub delete_found : Bool → ℕ → Option Object → Daemon → Result Daemon
delete_found sent a none d = err use_after_free
delete_found sent a (some object) d = do
  h ← destroy_object sent object d.heap
  ok (record d { objects = put a none d.objects; heap = h })

-- `delete ptr->client`, where there is a session.
unfoldable pub delete_client : Bool → Option Session → Daemon → Result Daemon
unfolding delete_found destroy_object
delete_client sent none d = ok d
delete_client sent (some s) d = delete_found sent s.client (d.objects s.client) d
