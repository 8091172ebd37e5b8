-- ===== src/Daemon/Valid.antt =====
-- What opening, starting, stopping and closing sessions keeps true of the whole process.
use rdk_audiocapturemgr.Prelude.{
  Result, ap, ℕ, ◌≤◌, ◌≡◌, ◌∙◌, refl, none, some, ok, Option-cases, inl, inr, sym, ◌+◌, arith,
}
use rdk_audiocapturemgr.Prelude.Int.{ℤ}
use rdk_audiocapturemgr.Sessions.{
  OutputType, Session, SessionMgr, is_bad_source, is_unsupported, is_buffered, get_session,
  erase_session, erase_duplicate, find_duplicate, open_handler, close_handler, start_handler,
  stop_handler, acm_result_success,
}
use rdk_audiocapturemgr.Sessions.Valid
use rdk_audiocapturemgr.Sessions.Valid.{
  erase_nothing, open_handler-IsValid, close_handler-IsValid, start_handler-IsValid,
  stop_handler-IsValid,
}
use rdk_audiocapturemgr.Daemon.{Daemon, put, Outside, delete_client}
use rdk_audiocapturemgr.Daemon.Kinds.{
  client_kind, client_kind-get_session, client_kind-erase_session, AllPrimary,
  AllPrimary-erase_session,
}
use rdk_audiocapturemgr.Daemon.Handlers.{
  start_handler-keeps, stop_handler-keeps, close_handler-erases,
}
use rdk_audiocapturemgr.Daemon.Messages.{handle, starts, stops, closes, close_message}
use rdk_audiocapturemgr.Daemon.Populated.{Populated, Populated-kinds, put_kind}
use rdk_audiocapturemgr.Daemon.Objects.{delete_found-Populated}

-- The sessions are in order and of the one source, each has an object of its class, and there are no other objects and no
-- buffers but those in the queue of a music id client.
pub record IsValid (d : Daemon) : Type 0 where
  pub sessions : rdk_audiocapturemgr.Sessions.Valid.IsValid d.mgr
  pub primary : AllPrimary d.mgr.sessions
  pub rate : d.mgr.sources.bytes_per_second ≤ 864000
  pub populated : Populated (λ c. client_kind c d.mgr.sessions) d.objects d.heap

-- What a message comes to that does not fault. One session is opened at most.
abbrev pub Answers : Daemon → Result (Daemon × ℤ) → Type 0
Answers d r =
    (d' : Daemon) × (ret : ℤ) × (r ≡ ok (d', ret))
    × IsValid d'
    × (d'.mgr.session_counter ≤ d.mgr.session_counter + 1)

-- A change of the session manager alone.
same_clients-IsValid :
    (d : Daemon) (m : SessionMgr)
    → ((c : ℕ) → client_kind c m.sessions ≡ client_kind c d.mgr.sessions)
    → m.sources.bytes_per_second ≡ d.mgr.sources.bytes_per_second
    → AllPrimary m.sessions
    → rdk_audiocapturemgr.Sessions.Valid.IsValid m
    → IsValid d
    → IsValid (record d { mgr = m })
same_clients-IsValid d m kinds rate primary sessions v = record {
  sessions = sessions;
  primary = primary;
  rate = rw rate v.rate;
  populated =
      Populated-kinds (λ c. client_kind c d.mgr.sessions) (λ c. client_kind c m.sessions) d.objects
        d.heap (λ c. sym (kinds c)) v.populated;
}

pub start-Answers :
    (o : Outside) (id : ℤ) (d : Daemon) → IsValid d → Answers d (handle o (starts id) d)
unfolding handle
start-Answers o id d v =
    let (kinds, rate, count, primary) = start_handler-keeps o.start_ret id d.mgr in
    let (m, ret) = start_handler o.start_ret id d.mgr in
    (
      record d { mgr = m },
      ret,
      refl,
      same_clients-IsValid d m kinds rate (primary v.primary)
          (start_handler-IsValid o.start_ret id d.mgr v.sessions) v,
      omega (arith, count),
    )

pub stop-Answers :
    (o : Outside) (id : ℤ) (d : Daemon) → IsValid d → Answers d (handle o (stops id) d)
unfolding handle
stop-Answers o id d v =
    let (kinds, rate, count, primary) = stop_handler-keeps o.stop_ret id d.mgr in
    let (m, ret) = stop_handler o.stop_ret id d.mgr in
    (
      record d { mgr = m },
      ret,
      refl,
      same_clients-IsValid d m kinds rate (primary v.primary)
          (stop_handler-IsValid o.stop_ret id d.mgr v.sessions) v,
      omega (arith, count),
    )

erased_kinds :
    (id : ℤ) (s : Session) (d : Daemon) (m : SessionMgr)
    → IsValid d
    → get_session id d.mgr.sessions ≡ some s
    → m.sessions ≡ erase_session id d.mgr.sessions
    → (c : ℕ)
    → put_kind s.client none (λ b. client_kind b d.mgr.sessions) c ≡ client_kind c m.sessions
erased_kinds id s d m v found left c = sym (
    ap (client_kind c) left
    ∙ client_kind-erase_session id c s d.mgr.sessions v.sessions.apart.0 found)

-- Closing a session deletes its client, and the buffers that the client has.
pub close-Answers :
    (o : Outside) (id : ℤ) (d : Daemon) → IsValid d → Answers d (handle o (closes id) d)
unfolding handle close_message delete_client
close-Answers o id d v =
    let (m, ret) = close_handler o.stop_ret id d.mgr in
    let (left, rate, count) = close_handler-erases o.stop_ret id d.mgr in
    let primary : AllPrimary m.sessions =
      rw left (AllPrimary-erase_session id d.mgr.sessions v.primary) in
    let sessions = close_handler-IsValid o.stop_ret id d.mgr v.sessions in
    elim (Option-cases (get_session id d.mgr.sessions)) [
      | inl missing ↦
          let kinds : (c : ℕ) → client_kind c m.sessions ≡ client_kind c d.mgr.sessions =
            λ c. ap (client_kind c) (left ∙ erase_nothing id d.mgr.sessions missing) in
          (
            record d { mgr = m },
            ret,
            rw missing refl,
            same_clients-IsValid d m kinds rate primary sessions v,
            omega (arith, count),
          )
      | inr (s, found) ↦
          let there = client_kind-get_session id s d.mgr.sessions v.sessions.apart.0 found in
          let (h', deleted, freed, populated) =
            delete_found-Populated o.sent s.client (record d { mgr = m })
              (λ c. client_kind c d.mgr.sessions) (is_buffered s.output_type) (d.objects s.client)
              refl there v.populated in
          (
            record d { mgr = m; objects = put s.client none d.objects; heap = h' },
            ret,
            rw (found, deleted) refl,
            record {
              sessions = sessions;
              primary = primary;
              rate = rw rate v.rate;
              populated =
                  Populated-kinds _ (λ c. client_kind c m.sessions) (put s.client none d.objects) h'
                    (erased_kinds id s d m v found left) populated;
            },
            omega (arith, count),
          )
    ]
