-- ===== src/Daemon/Reconfigured.antt =====
-- A message that sets the audio properties, with the client that it goes through.
use rdk_audiocapturemgr.Prelude.{
  ap, Bool-cases, ◌*◌, ℕ, ◌≤◌, ◌≡◌, ◌≢◌, ◌∙◌, ◌⊎◌, refl, Option, some, Bool, true, ok, arith,
  Option-cases, inl, inr, sym,
}
use rdk_audiocapturemgr.Prelude.Int.{ℤ, is_zero}
use rdk_audiocapturemgr.Buffer.{Heap}
use rdk_audiocapturemgr.Audio.{u32, AudioProperties, calculate_data_rate}
use rdk_audiocapturemgr.Audio.Rate.{calculate_data_rate-exact}
use rdk_audiocapturemgr.QMgr.{QMgr}
use rdk_audiocapturemgr.QMgr.Clients.{set_audio_properties, get_data_rate}
use rdk_audiocapturemgr.QMgr.Settings.{set_audio_properties-clients}
use rdk_audiocapturemgr.Music.{MusicIdClient}
use rdk_audiocapturemgr.Music.Ending
use rdk_audiocapturemgr.Music.Owner.{IsOwner, IsOwner-same}
use rdk_audiocapturemgr.Sessions.{Session, SessionMgr, get_session, acm_result_bad_session_id}
use rdk_audiocapturemgr.Sessions.Handlers.{set_audio_props_handler}
use rdk_audiocapturemgr.Sessions.Props.{AcmProperties, props_in}
use rdk_audiocapturemgr.Sessions.Valid
use rdk_audiocapturemgr.Daemon.{Daemon, Object, MusicObject, Outside, music, put}
use rdk_audiocapturemgr.Daemon.Kinds.{client_kind}
use rdk_audiocapturemgr.Daemon.Messages.{handle, sets_audio, set_audio_found, set_audio_message}
use rdk_audiocapturemgr.Daemon.Populated.{Populated-kinds, put_kind, put-Populated, kind_of}
use rdk_audiocapturemgr.Daemon.Serving.{put_kind_same}
use rdk_audiocapturemgr.Daemon.Valid.{IsValid, Answers}

below :
    (p : AudioProperties) (rate new : ℕ)
    → rate ≤ 864000
    → (new ≡ rate) ⊎ (new ≡ calculate_data_rate p)
    → new ≤ 864000
below p rate new small (inl same) = omega (arith, same)
below p rate new small (inr exact) = omega (arith, exact, (calculate_data_rate-exact p).1)

-- Sessions do not mind what else the queue manager has.
pub same_registry :
    (m : SessionMgr) (q : QMgr)
    → q.clients ≡ m.sources.clients
    → rdk_audiocapturemgr.Sessions.Valid.IsValid m
    → rdk_audiocapturemgr.Sessions.Valid.IsValid (record m { sources = q })
same_registry m q same v = record {
  apart = v.apart;
  registered = λ c. rw same (v.registered c);
  one_music = v.one_music;
}

music-set_audio :
    (o : Outside) (p : AudioProperties) (q q' : QMgr) (ret : ℤ) (h : Heap) (m : MusicIdClient)
    → set_audio_properties o.lib o.start_ret o.stop_ret p q ≡ ok (q', ret)
    → IsOwner h m
    → (m' : MusicIdClient) × (Ending.set_audio_properties o.lib o.start_ret o.stop_ret p q m
        ≡ ok (q', m', ret))
      × (m'.queue ≡ m.queue)
      × IsOwner h m'
unfolding Ending.set_audio_properties
music-set_audio o p q q' ret h m runs owner = elim (Bool-cases (is_zero ret)) [
  | inr refused ↦ (m, rw (runs, refused) refl, refl, owner)
  | inl accepted ↦
      let size : ℕ = u32 (m.precapture_duration_seconds * get_data_rate q') in
      let m' : MusicIdClient = record m { precapture_size_bytes = size } in
      (m', rw (runs, accepted) refl, refl, IsOwner-same h m m' refl refl refl refl refl owner)
]

-- The queue manager takes the settings, and the client's object is replaced by one with the same queue.
replaced-IsValid :
    (d : Daemon) (q : QMgr) (a : ℕ) (m : MusicObject) (client : MusicIdClient)
    → q.clients ≡ d.mgr.sources.clients
    → q.bytes_per_second ≤ 864000
    → d.objects a ≡ some (music m)
    → client.queue ≡ m.client.queue
    → IsOwner d.heap client
    → IsValid d
    → IsValid (record d {
      mgr = record d.mgr { sources = q };
      objects = put a (some (music (record m { client = client }))) d.objects;
    })
replaced-IsValid d q a m client clients rate here same owner v =
    let kinds : ℕ → Option Bool = λ c. client_kind c d.mgr.sessions in
    let new : MusicObject = record m { client = client } in
    let there : kinds a ≡ some true = sym (v.populated.typed a) ∙ ap kind_of here in
    record {
      sessions = same_registry d.mgr q clients v.sessions;
      primary = v.primary;
      rate = rate;
      populated =
          Populated-kinds (put_kind a (some true) kinds) kinds (put a (some (music new)) d.objects)
            d.heap (λ c. put_kind_same a (some true) kinds c there)
            (put-Populated kinds d.objects d.heap d.heap a (some (music new)) v.populated (record {
              fine = owner;
              fewer = λ p n. rw same (rw here at n);
              kept = λ p n. refl;
              gone = λ p n l. absurd (ground (arith, rw here at n, rw same at l));
            }));
    }

set_audio_found-Answers :
    (o : Outside) (id : ℤ) (message : AcmProperties) (s : Session) (d : Daemon) (x : Option Object)
    → get_session id d.mgr.sessions ≡ some s
    → d.objects s.client ≡ x
    → (props_in message).threshold ≢ 0
    → IsValid d
    → Answers d (set_audio_found o id message s.client x d)
unfolding set_audio_found set_audio_props_handler
set_audio_found-Answers o id message s d (some (music m)) found here some_threshold v =
    let p : AudioProperties = props_in message in
    let (q', ret, runs, clients, rate) =
      set_audio_properties-clients o.lib o.start_ret o.stop_ret p d.mgr.sources some_threshold in
    let (client, called, same, owner) =
      music-set_audio o p d.mgr.sources q' ret d.heap m.client runs
        (v.populated.owners s.client m here) in
    (
      record d {
        mgr = record d.mgr { sources = q' };
        objects = put s.client (some (music (record m { client = client }))) d.objects;
      },
      ret,
      rw called refl,
      replaced-IsValid d q' s.client m client clients
          (below p d.mgr.sources.bytes_per_second q'.bytes_per_second v.rate rate) here same owner
          v,
      omega arith,
    )
set_audio_found-Answers o id message s d x found here some_threshold v =
    let p : AudioProperties = props_in message in
    let (q', ret, runs, clients, rate) =
      set_audio_properties-clients o.lib o.start_ret o.stop_ret p d.mgr.sources some_threshold in
    (
      record d { mgr = record d.mgr { sources = q' } },
      ret,
      rw (found, runs) refl,
      record {
        sessions = same_registry d.mgr q' clients v.sessions;
        primary = v.primary;
        rate = below p d.mgr.sources.bytes_per_second q'.bytes_per_second v.rate rate;
        populated = v.populated;
      },
      omega arith,
    )

pub set_audio-Answers :
    (o : Outside) (id : ℤ) (message : AcmProperties) (d : Daemon)
    → (props_in message).threshold ≢ 0
    → IsValid d
    → Answers d (handle o (sets_audio id message) d)
unfolding handle set_audio_message
set_audio-Answers o id message d some_threshold v =
    elim (Option-cases (get_session id d.mgr.sessions)) [
      | inl missing ↦ (d, acm_result_bad_session_id, rw missing refl, v, omega arith)
      | inr (s, found) ↦
          let (d', ret, runs, v', count) =
            set_audio_found-Answers o id message s d (d.objects s.client) found refl some_threshold
              v in
          (d', ret, rw found runs, v', count)
    ]
