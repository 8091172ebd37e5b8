-- ===== src/QMgr/Managed.antt =====
-- include/audio_capture_manager.h, src/audio_capture_manager.cpp: the class audio_capture_client with
-- its queue manager. A queue manager is found by its address; `this` is that of the client. Its
-- callback is in QMgr/BaseClient.
use rdk_audiocapturemgr.Prelude.{
  ℕ, ◌≡◌, ◌≢◌, true, ◌==◌, Result, ok, ◌>>=◌, if◌then◌else◌, arith, ==_iff,
}
use rdk_audiocapturemgr.Prelude.Int.{ℤ}
use rdk_audiocapturemgr.Audio.{AudioProperties, CaptureLibrary}
use rdk_audiocapturemgr.QMgr.{QMgr}
use rdk_audiocapturemgr.QMgr.Clients.{mem, register_client, unregister_client}
use rdk_audiocapturemgr.QMgr.Clients
use rdk_audiocapturemgr.QMgr.Registry.{mem-append}

pub record AudioCaptureClient : Type 0 where
  pub priority : ℕ
  pub manager : ℕ

unfoldable pub audio_capture_client : ℕ → AudioCaptureClient
audio_capture_client manager = record { priority = 0; manager = manager }

unfoldable pub get_priority : AudioCaptureClient → ℕ
get_priority c = c.priority

unfoldable pub set_manager : ℕ → AudioCaptureClient → AudioCaptureClient
set_manager mgr c = record c { manager = mgr }

-- The queue managers, after the one at an address has changed.
abbrev pub put_manager : ℕ → QMgr → (ℕ → QMgr) → ℕ → QMgr
put_manager a q managers b = if b == a then q else managers b

unfoldable pub set_audio_properties :
    CaptureLibrary
    → ℤ
    → ℤ
    → AudioProperties
    → AudioCaptureClient
    → (ℕ → QMgr)
    → Result ((ℕ → QMgr) × ℤ)
set_audio_properties lib start_ret stop_ret props c managers = do
  (q, ret) ← Clients.set_audio_properties lib start_ret stop_ret props (managers c.manager)
  ok (put_manager c.manager q managers, ret)

unfoldable pub get_audio_properties : AudioCaptureClient → (ℕ → QMgr) → AudioProperties
get_audio_properties c managers = Clients.get_audio_properties (managers c.manager)

unfoldable pub get_default_audio_properties : CaptureLibrary → AudioProperties
get_default_audio_properties lib = Clients.get_default_audio_properties lib

unfoldable pub start : ℤ → ℕ → AudioCaptureClient → (ℕ → QMgr) → (ℕ → QMgr) × ℤ
start start_ret this c managers =
    let (q, ret) = register_client start_ret this (managers c.manager) in
    (put_manager c.manager q managers, ret)

unfoldable pub stop : ℤ → ℕ → AudioCaptureClient → (ℕ → QMgr) → (ℕ → QMgr) × ℤ
stop stop_ret this c managers =
    let (q, ret) = unregister_client stop_ret this (managers c.manager) in
    (put_manager c.manager q managers, ret)

register_client_lem :
    (ret : ℤ) (c : ℕ) (q : QMgr) → mem c (register_client ret c q).0.clients ≡ true
unfolding register_client
register_client_lem ret c q = ground (arith, mem-append c c q.clients, ==_iff c c)

-- `set_manager` does not take a client that was started off its old queue manager: started, given
-- another manager and stopped, it is still registered with the first.
pub set_manager_stays :
    (start_ret stop_ret : ℤ) (this mgr : ℕ) (c : AudioCaptureClient) (managers : ℕ → QMgr)
    → mgr ≢ c.manager
    → mem this
        ((stop stop_ret this (set_manager mgr c) (start start_ret this c managers).0).0
          c.manager).clients
      ≡ true
unfolding start stop set_manager
set_manager_stays start_ret stop_ret this mgr c managers ne = ground (
  arith,
  ==_iff c.manager mgr,
  ==_iff c.manager c.manager,
  register_client_lem start_ret this (managers c.manager),
)
