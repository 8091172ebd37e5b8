-- ===== src/QMgr/Registry.antt =====
-- The registry of clients, and its agreement with the calls of the capture device.
use rdk_audiocapturemgr.Prelude.{
  Result, ◌>>=◌, >>=-parts, ℕ, ◌+◌, ◌^◌, ◌<◌, ◌≤◌, ◌≡◌, refl, none, some, List, [], ◌∷◌, ◌++◌,
  false, ok, ◌==◌, ◌||◌, ◌&&◌, not, if◌then◌else◌, length, arith, length-append,
}
use rdk_audiocapturemgr.Prelude.Int.{ℤ}
use rdk_audiocapturemgr.Audio.{AudioProperties, CaptureLibrary, calculate_data_rate}
use rdk_audiocapturemgr.QMgr.{QMgr, q_mgr, max_queue_size_of}
use rdk_audiocapturemgr.QMgr.Clients.{
  mem, remove, register_client, unregister_client, set_audio_properties,
}

abbrev pub AllDistinct : List ℕ → Type 0
AllDistinct [] = Unit {0}
AllDistinct (x ∷ xs) = (mem x xs ≡ false) × AllDistinct xs

-- Exactly while somebody is registered the device counts as started, and the last call to it is a start
-- with the current settings, whatever it returned; the data monitor runs as long.
pub record IsConsistent (q : QMgr) : Type 0 where
  pub distinct : AllDistinct q.clients
  pub counted : q.num_clients ≡ length q.clients
  pub attended : q.started ≡ not (q.num_clients == 0)
  pub settings : q.asked_settings ≡ (if q.started then some q.audio_properties else none)
  pub monitored : q.monitoring ≡ q.started
  pub stopping : q.stop_data_monitor ≡ not q.started
  pub rate : q.bytes_per_second ≡ calculate_data_rate q.audio_properties
  pub limit : max_queue_size_of q.audio_properties q.bytes_per_second ≡ ok q.max_queue_size

pub mem-append : (c d : ℕ) (xs : List ℕ) → mem d (xs ++ c ∷ []) ≡ (mem d xs || d == c)
mem-append c d [] = ground arith
mem-append c d (x ∷ xs) = ground (arith, mem-append c d xs)

pub mem-remove : (c d : ℕ) (xs : List ℕ) → mem d (remove c xs) ≡ (not (d == c) && mem d xs)
mem-remove c d [] = ground arith
mem-remove c d (x ∷ xs) = ground (arith, mem-remove c d xs)

pub AllDistinct-append :
    (c : ℕ) (xs : List ℕ) → mem c xs ≡ false → AllDistinct xs → AllDistinct (xs ++ c ∷ [])
AllDistinct-append c [] h a = (refl, tt)
AllDistinct-append c (x ∷ xs) h a =
    (ground (arith, mem-append c x xs), AllDistinct-append c xs (ground arith) a.1)

AllDistinct-remove : (c : ℕ) (xs : List ℕ) → AllDistinct xs → AllDistinct (remove c xs)
AllDistinct-remove c [] a = tt
AllDistinct-remove c (x ∷ xs) a = ground (arith, mem-remove c x xs, AllDistinct-remove c xs a.1)

length-remove-le : (c : ℕ) (xs : List ℕ) → length (remove c xs) ≤ length xs
length-remove-le c [] = omega arith
length-remove-le c (x ∷ xs) = ground (arith, length-remove-le c xs)

-- A new queue manager is consistent.
pub q_mgr-IsConsistent : (lib : CaptureLibrary) (q : QMgr) → q_mgr lib ≡ ok q → IsConsistent q
unfolding q_mgr
q_mgr-IsConsistent lib q e = ground arith

pub register_client-IsConsistent :
    (ret : ℤ) (c : ℕ) (q : QMgr)
    → length q.clients + 1 < 2 ^ 32
    → IsConsistent q
    → IsConsistent (register_client ret c q).0
unfolding register_client
register_client-IsConsistent ret c q room v =
    ground (arith, length-append q.clients (c ∷ []), AllDistinct-append c q.clients)

pub unregister_client-IsConsistent :
    (ret : ℤ) (c : ℕ) (q : QMgr)
    → length q.clients < 2 ^ 32
    → IsConsistent q
    → IsConsistent (unregister_client ret c q).0
unfolding unregister_client
unregister_client-IsConsistent ret c q room v =
    ground (arith, length-remove-le c q.clients, AllDistinct-remove c q.clients)

pub set_audio_properties-IsConsistent :
    (lib : CaptureLibrary) (start_ret stop_ret : ℤ) (props : AudioProperties) (q q' : QMgr) (r : ℤ)
    → set_audio_properties lib start_ret stop_ret props q ≡ ok (q', r)
    → IsConsistent q
    → IsConsistent q'
unfolding set_audio_properties
set_audio_properties-IsConsistent lib start_ret stop_ret props q q' r e v = ground arith

-- The calls that change the registry or the settings, and any sequence of them.
pub data Call : Type 0 where
  registers unregisters : ℤ → ℕ → Call
  sets : ℤ → ℤ → AudioProperties → Call

unfoldable pub call : CaptureLibrary → Call → QMgr → Result QMgr
call lib (registers ret c) q = ok (register_client ret c q).0
call lib (unregisters ret c) q = ok (unregister_client ret c q).0
call lib (sets start_ret stop_ret props) q = do
  (q', ret) ← set_audio_properties lib start_ret stop_ret props q
  ok q'

unfoldable pub calls : CaptureLibrary → List Call → QMgr → Result QMgr
calls lib [] q = ok q
calls lib (c ∷ cs) q = call lib c q >>= calls lib cs

length-register_client :
    (ret : ℤ) (c : ℕ) (q : QMgr) → length (register_client ret c q).0.clients ≤ length q.clients + 1
unfolding register_client
length-register_client ret c q = ground (arith, length-append q.clients (c ∷ []))

length-unregister_client :
    (ret : ℤ) (c : ℕ) (q : QMgr) → length (unregister_client ret c q).0.clients ≤ length q.clients
unfolding unregister_client
length-unregister_client ret c q = ground (arith, length-remove-le c q.clients)

length-set_audio_properties :
    (lib : CaptureLibrary) (start_ret stop_ret : ℤ) (props : AudioProperties) (q q' : QMgr) (r : ℤ)
    → set_audio_properties lib start_ret stop_ret props q ≡ ok (q', r)
    → length q'.clients ≡ length q.clients
unfolding set_audio_properties
length-set_audio_properties lib start_ret stop_ret props q q' r e = ground arith

pub call-IsConsistent :
    (lib : CaptureLibrary) (c : Call) (q q' : QMgr)
    → length q.clients + 1 < 2 ^ 32
    → call lib c q ≡ ok q'
    → IsConsistent q
    → IsConsistent q' × (length q'.clients ≤ length q.clients + 1)
unfolding call
call-IsConsistent lib (registers ret c) q q' room e v =
    ground (arith, register_client-IsConsistent ret c q room v, length-register_client ret c q)
call-IsConsistent lib (unregisters ret c) q q' room e v = ground (
  arith,
  unregister_client-IsConsistent ret c q (omega arith) v,
  length-unregister_client ret c q,
)
call-IsConsistent lib (sets s t props) q q' room e v =
    let ((q₁, r), done, same) = >>=-parts (set_audio_properties lib s t props q) (λ x. ok x.0) e in
    let v₁ = set_audio_properties-IsConsistent lib s t props q q₁ r done v in
    ground (arith, v₁, length-set_audio_properties lib s t props q q₁ r done, same)

calls-IsConsistent :
    (lib : CaptureLibrary) (cs : List Call) (q q' : QMgr)
    → length q.clients + length cs < 2 ^ 32
    → calls lib cs q ≡ ok q'
    → IsConsistent q
    → IsConsistent q'
unfolding calls
calls-IsConsistent lib [] q q' room e v = ground arith
calls-IsConsistent lib (c ∷ cs) q q' room e v =
    let (q₁, first, rest) = >>=-parts (call lib c q) (calls lib cs) e in
    let (v₁, grows) = call-IsConsistent lib c q q₁ (omega arith) first v in
    calls-IsConsistent lib cs q₁ q' (omega arith) rest v₁

-- After any sequence of fewer than 2 ^ 32 registrations, unregistrations and settings that comes
-- through without a fault, the clients are distinct and counted; exactly while there is a client
-- the queue manager takes the device for started, and the last call to the device is a start with
-- the current settings, whatever it returned; the monitor runs as long, and rate and queue limit
-- belong to the settings.
pub run-IsConsistent :
    (lib : CaptureLibrary) (cs : List Call) (q q' : QMgr)
    → q_mgr lib ≡ ok q
    → length cs < 2 ^ 32
    → calls lib cs q ≡ ok q'
    → IsConsistent q'
unfolding q_mgr
run-IsConsistent lib cs q q' new room e =
    calls-IsConsistent lib cs q q' (ground arith) e (q_mgr-IsConsistent lib q new)
