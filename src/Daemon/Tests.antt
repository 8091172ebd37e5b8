-- ===== src/Daemon/Tests.antt =====
-- A process with a music id session whose client has a buffer, and the theorems about it at concrete
-- inputs.
use rdk_audiocapturemgr.Prelude.{
  ℕ, ◌≡◌, ◌≢◌, ◌∙◌, sym, if◌then◌else◌, refl, none, some, List, [], ◌∷◌, false, true, ok, ◌==◌,
  Bool-cases, inl, inr, arith, ==_iff,
}
use mathlib.Core.Path.{subst}
use rdk_audiocapturemgr.Prelude.Int.{ℤ, pos}
use rdk_audiocapturemgr.Buffer.{Heap}
use rdk_audiocapturemgr.Socket.{bound, socket_adaptor}
use rdk_audiocapturemgr.QMgr.Tests.{library}
use rdk_audiocapturemgr.Music.{socket_output}
use rdk_audiocapturemgr.Music.Creation.{initial}
use rdk_audiocapturemgr.Music.Freed.{Freed}
use rdk_audiocapturemgr.Music.Owner.{IsOwner}
use rdk_audiocapturemgr.Sessions.{
  Session, buffered_file_output, realtime_socket, get_session, acm_result_success,
}
use rdk_audiocapturemgr.Sessions.Props.{acm_mono16, acm_f16000, props_in}
use rdk_audiocapturemgr.Sessions.Tests.{no_sessions}
use rdk_audiocapturemgr.Daemon.{Daemon, MusicObject, Object, Outside, music, ip_out, put}
use rdk_audiocapturemgr.Daemon.Messages.{
  Message, opens, closes, starts, sets_audio, sets_output, requests, close_message,
}
use rdk_audiocapturemgr.Daemon.Populated.{InOrder}
use rdk_audiocapturemgr.Daemon.Objects.{Works}
use rdk_audiocapturemgr.Daemon.Valid.{IsValid}
use rdk_audiocapturemgr.Daemon.Runs.{serve, serve-IsValid}
use rdk_audiocapturemgr.Daemon.Closed.{close_message-frees}

abbrev outside : Outside
outside = record {
  lib = library;
  start_ret = pos 0;
  stop_ret = pos 0;
  converts = false;
  fd = pos 5;
  music_bind = bound;
  music_bind_again = bound;
  ip_bind = λ path. bound;
  sent = true;
}

abbrev pub music_session : Session
music_session = record {
  session_id = 0;
  client = 0;
  source = 0;
  enable = false;
  output_type = buffered_file_output;
}

abbrev pub one_buffer : Heap
one_buffer = record {
  next = 1;
  cell = λ p.
      if p == 0
      then some (record { bytes = 1 ∷ 2 ∷ []; size = 2; clip_length = 0; refcount = 1 })
      else none;
}

abbrev pub holder : MusicObject
holder = record {
  client = record (initial socket_output) {
    queue = 0 ∷ [];
    total_size = 2;
    precapture_duration_seconds = 6;
    queue_upper_limit_bytes = 100;
  };
  adaptor = socket_adaptor;
  ticker = 0;
}

abbrev pub one_client : Daemon
one_client = record {
  mgr = record no_sessions { sessions = music_session ∷ []; session_counter = 1; next_client = 1 };
  objects = put 0 (some (music holder)) (λ c. none);
  heap = one_buffer;
  music_ticker = 1;
  ip_ticker = 0;
}

holder-IsOwner : IsOwner one_buffer holder.client
holder-IsOwner = record {
  valid = record {
    holds = (refl, omega arith, omega arith, tt);
    counted = refl;
    small = omega arith;
  };
  short = record { precapture = omega arith; requests = tt; limit = omega arith };
  sole = (refl, refl, tt);
}

pub alone :
    (c : ℕ) (x : Object)
    → put 0 (some (music holder)) (λ c. none) c ≡ some x
    → (c ≡ 0) × (x ≡ music holder)
alone c x e = ground (arith, e, ==_iff c 0)

pub one_client-IsValid : IsValid one_client
one_client-IsValid = record {
  sessions = record {
    apart = ((refl, refl, tt), (omega arith, omega arith, tt));
    registered = λ c. refl;
    one_music = omega arith;
  };
  primary = (refl, tt);
  rate = omega arith;
  populated = record {
    typed = λ c. elim (Bool-cases (c == 0)) [ inl here ↦ rw here refl | inr away ↦ rw away refl ];
    owners = λ c m e.
        subst (λ (x : Object). InOrder one_buffer (some x)) (sym (alone c (music m) e).1)
          holder-IsOwner;
    apart = λ c c' m m' p e e' ne i.
        absurd (ne ((alone c (music m) e).0 ∙ sym ((alone c' (music m') e').0)));
    threads = λ c o e. absurd (ground (arith, (alone c (ip_out o) e).1));
    held = λ p live. (0, holder, refl, ground (arith, live, ==_iff p 0));
  };
}

-- A socket session beside, new settings, a shorter precapture, a fresh sample, and the end of the
-- music id session.
abbrev messages : List (Outside × Message)
messages =
    (outside, opens (pos 0) realtime_socket)
    ∷ (outside, starts (pos 0))
    ∷ (
      outside,
      sets_audio (pos 0) (record {
        format = acm_mono16;
        sampling_frequency = acm_f16000;
        fifo_size = 65536;
        threshold = 8192;
        delay_compensation_ms = 0;
      }),
    )
    ∷ (outside, sets_output (pos 0) 3)
    ∷ (outside, requests (pos 0) false 10)
    ∷ (outside, opens (pos 0) buffered_file_output)
    ∷ (outside, closes (pos 2))
    ∷ []

working : Works outside
working = record { socket = refl; binds = λ path. refl }

serve-IsValid_example :
    (d' : Daemon) × (rets : List ℤ) × (serve messages one_client ≡ ok (d', rets)) × IsValid d'
unfolding props_in
serve-IsValid_example =
    serve-IsValid messages one_client
      (working, (tt, (omega arith, (tt, (refl, (working, (tt, tt))))))) (omega arith)
      one_client-IsValid

one_client-get_session : get_session (pos 0) one_client.mgr.sessions ≡ some music_session
unfolding get_session
one_client-get_session = refl

close_message-frees_example :
    (d' : Daemon) × (close_message outside (pos 0) one_client ≡ ok (d', acm_result_success))
    × (get_session (pos 0) d'.mgr.sessions ≡ none)
    × (d'.objects 0 ≡ none)
    × ((c : ℕ) → c ≢ 0 → d'.objects c ≡ one_client.objects c)
    × Freed (0 ∷ []) one_buffer d'.heap
close_message-frees_example =
    close_message-frees outside 0 music_session one_client one_client-IsValid one_client-get_session
