-- ===== src/Daemon/Runs.antt =====
-- Sequences of messages to the whole process.
use rdk_audiocapturemgr.Prelude.{
  ◌≡◌, ◌≢◌, refl, List, [], ◌∷◌, false, Result, ok, ◌>>=◌, ◌+◌, ◌<◌, ◌^◌, length, arith,
}
use rdk_audiocapturemgr.Prelude.Int.{ℤ}
use rdk_audiocapturemgr.Sessions.Props.{props_in}
use rdk_audiocapturemgr.Daemon.{Daemon, Outside}
use rdk_audiocapturemgr.Daemon.Messages.{
  Message, opens, closes, starts, stops, sets_audio, sets_output, requests, handle,
}
use rdk_audiocapturemgr.Daemon.Objects.{Works}
use rdk_audiocapturemgr.Daemon.Opened.{open-Answers}
use rdk_audiocapturemgr.Daemon.Serving.{set_output-Answers, get_sample-Answers}
use rdk_audiocapturemgr.Daemon.Reconfigured.{set_audio-Answers}
use rdk_audiocapturemgr.Daemon.Valid.{IsValid, Answers, start-Answers, stop-Answers, close-Answers}

-- A new client finds a socket and a path for it, no settings have the threshold 0, and the samples
-- asked for are fresh ones.
abbrev pub IsFit : Outside × Message → Type 0
IsFit (o, opens source output_type) = Works o
IsFit (o, sets_audio id message) = (props_in message).threshold ≢ 0
IsFit (o, requests id is_precapture duration) = is_precapture ≡ false
IsFit (o, closes id) = Unit {0}
IsFit (o, starts id) = Unit {0}
IsFit (o, stops id) = Unit {0}
IsFit (o, sets_output id duration) = Unit {0}

abbrev pub AllFit : List (Outside × Message) → Type 0
AllFit [] = Unit {0}
AllFit (m ∷ ms) = IsFit m × AllFit ms

-- The messages one after the other, with their results.
unfoldable pub serve : List (Outside × Message) → Daemon → Result (Daemon × List ℤ)
serve [] d = ok (d, [])
serve ((o, m) ∷ ms) d = do (d₁, ret) ← handle o m d; (d₂, rets) ← serve ms d₁; ok (d₂, ret ∷ rets)

handle-Answers :
    (o : Outside) (m : Message) (d : Daemon)
    → IsFit (o, m)
    → d.mgr.session_counter + 1 < 2 ^ 31
    → IsValid d
    → Answers d (handle o m d)
handle-Answers o (opens source output_type) d works room v =
    open-Answers o source output_type d works room v
handle-Answers o (closes id) d fit room v = close-Answers o id d v
handle-Answers o (starts id) d fit room v = start-Answers o id d v
handle-Answers o (stops id) d fit room v = stop-Answers o id d v
handle-Answers o (sets_audio id message) d some_threshold room v =
    set_audio-Answers o id message d some_threshold v
handle-Answers o (sets_output id duration) d fit room v = set_output-Answers o id duration d v
handle-Answers o (requests id is_precapture duration) d fresh room v =
    rw fresh (get_sample-Answers o id duration d v)

-- Any messages to a process in order, with fewer than 2 ^ 31 sessions opened before and messages in
-- all, are all answered, without a fault, and leave it in order: ids and clients are apart, the
-- sessions are of the one source, the queue manager has the clients of the enabled sessions, each
-- session has an object of its class and no other object is left, and the live buffers are those in
-- the queues of music id clients, each with one reference. Opening finds a socket and a path, no
-- settings have the threshold 0, and the samples asked for are fresh ones.
pub serve-IsValid :
    (ms : List (Outside × Message)) (d : Daemon)
    → AllFit ms
    → d.mgr.session_counter + length ms < 2 ^ 31
    → IsValid d
    → (d' : Daemon) × (rets : List ℤ) × (serve ms d ≡ ok (d', rets)) × IsValid d'
unfolding serve
serve-IsValid [] d fit few v = (d, [], refl, v)
serve-IsValid ((o, m) ∷ ms) d (fit, all_fit) few v =
    let (d₁, ret, answered, v₁, count) = handle-Answers o m d fit (omega arith) v in
    let (d₂, rets, served, v₂) = serve-IsValid ms d₁ all_fit (omega (arith, count)) v₁ in
    (d₂, ret ∷ rets, rw (answered, served) refl, v₂)
