-- ===== src/Daemon/Closed.antt =====
-- What closing a session takes away, and what it leaves.
use rdk_audiocapturemgr.Prelude.{
  ℕ, ◌≡◌, ◌≢◌, refl, Option, none, some, ok, ◌==◌, Bool-cases, inl, inr, ==_iff, arith,
}
use rdk_audiocapturemgr.Prelude.Int.{pos}
use rdk_audiocapturemgr.Sessions.{
  Session, SessionMgr, is_buffered, get_session, close_handler, acm_result_success,
}
use rdk_audiocapturemgr.Sessions.Lookup.{handlers-get_session}
use rdk_audiocapturemgr.Music.Freed.{Freed}
use rdk_audiocapturemgr.Daemon.{Daemon, Object, Outside, put, delete_client}
use rdk_audiocapturemgr.Daemon.Kinds.{client_kind, client_kind-get_session}
use rdk_audiocapturemgr.Daemon.Messages.{close_message}
use rdk_audiocapturemgr.Daemon.Populated.{queue_of}
use rdk_audiocapturemgr.Daemon.Objects.{delete_found-Populated}
use rdk_audiocapturemgr.Daemon.Valid.{IsValid}

put_other :
    (a c : ℕ) (x : Option Object) (objects : ℕ → Option Object)
    → c ≢ a
    → put a x objects c ≡ objects c
put_other a c x objects ne = elim (Bool-cases (c == a)) [
  | inl here ↦ absurd (ne ((==_iff c a).0 here))
  | inr away ↦ rw away refl
]

-- Closing a session that is there, in a process in order: the answer is success, the session is gone,
-- its client is deleted and every other object is as before; exactly the buffers in the queue of the
-- client are deleted, none if it is no music id client.
pub close_message-frees :
    (o : Outside) (id : ℕ) (s : Session) (d : Daemon)
    → IsValid d
    → get_session (pos id) d.mgr.sessions ≡ some s
    → (d' : Daemon) × (close_message o (pos id) d ≡ ok (d', acm_result_success))
      × (get_session (pos id) d'.mgr.sessions ≡ none)
      × (d'.objects s.client ≡ none)
      × ((c : ℕ) → c ≢ s.client → d'.objects c ≡ d.objects c)
      × Freed (queue_of (d.objects s.client)) d.heap d'.heap
unfolding close_message delete_client
close_message-frees o id s d v found =
    let (started, stopped, gone, a, b, success) =
      handlers-get_session o.stop_ret id d.mgr s v.sessions found in
    let m : SessionMgr = (close_handler o.stop_ret (pos id) d.mgr).0 in
    let (h', deleted, freed, populated) =
      delete_found-Populated o.sent s.client (record d { mgr = m })
        (λ c. client_kind c d.mgr.sessions) (is_buffered s.output_type) (d.objects s.client) refl
        (client_kind-get_session (pos id) s d.mgr.sessions v.sessions.apart.0 found) v.populated in
    (
      record d { mgr = m; objects = put s.client none d.objects; heap = h' },
      rw (found, deleted, success) refl,
      gone,
      ground (arith, ==_iff s.client s.client),
      (λ c ne. put_other s.client c none d.objects ne),
      freed,
    )
