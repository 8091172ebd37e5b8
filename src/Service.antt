-- ===== src/Service.antt =====
-- src/audio_capture_manager.cpp, src/music_id.cpp, src/ip_out.cpp: a queue manager whose clients are a
-- music id client and IP output clients, as the session manager registers them.
pub mod Queue
pub mod Tests
use rdk_audiocapturemgr.Prelude.{
  ◌<◌, ◌^◌, refl, ℕ, ◌+◌, ◌≡◌, ◌==◌, Bool, true, false, inl, inr, Bool-cases, Result, ok, ◌>>=◌,
  if◌then◌else◌, some, arith,
}
use rdk_audiocapturemgr.Prelude.Int.{ℤ}
use rdk_audiocapturemgr.Buffer.{Buffer, Heap}
use rdk_audiocapturemgr.QMgr.Delivery.{Took, ClientOps, ClientLaws}
use rdk_audiocapturemgr.Music.{MusicIdClient}
use rdk_audiocapturemgr.Music.Callback.{count, data_callback-Took}
use rdk_audiocapturemgr.IpOut.{IpOutClient}
use rdk_audiocapturemgr.IpOut.Contract.{after_write}
use rdk_audiocapturemgr.IpOut.Contract

-- The music id client and the IP output clients by their addresses.
pub record Clients : Type 0 where
  pub music : MusicIdClient
  pub outputs : ℕ → IpOutClient

abbrev pub set_output : ℕ → IpOutClient → Clients → Clients
set_output c o s = record s { outputs = λ d. if d == c then o else s.outputs d }

-- The virtual call: `music_address` is the music id client, and every other client is an IP output
-- client. `write` is what the system call returns.
unfoldable pub call_client :
    ℕ → (ℕ → IpOutClient → ℤ) → ℕ → ℕ → Heap → Clients → Result (Heap × Clients)
call_client music_address write c p h s =
    if c == music_address
    then (do
      (h', m) ← rdk_audiocapturemgr.Music.data_callback p h s.music
      ok (h', record s { music = m }))
    else (do
      (h', o) ← rdk_audiocapturemgr.IpOut.data_callback (write p (s.outputs c)) p h (s.outputs c)
      ok (h', set_output c o s))

abbrev pub service_ops : ℕ → (ℕ → IpOutClient → ℤ) → ClientOps Clients
service_ops music_address write = record { data_callback = call_client music_address write }

-- A client that holds nothing leaves what others hold.
Took-beside :
    (held : ℕ → ℕ) (p : ℕ) (h h' : Heap) → Took (λ q. 0) (λ q. 0) p h h' → Took held held p h h'
Took-beside held p h h' t = record {
  balance = omega (arith, t.balance);
  falls = t.falls;
  live = t.live;
  others = t.others;
  others_held = λ q ne. refl;
  next_kept = t.next_kept;
}

pub call_client-takes_one :
    (music_address : ℕ) (write : ℕ → IpOutClient → ℤ) (c p : ℕ) (h : Heap) (s : Clients)
    (b : Buffer)
    → h.cell p ≡ some b
    → 0 < b.refcount
    → b.refcount < 2 ^ 32
    → (h' : Heap) × (s' : Clients) × (call_client music_address write c p h s ≡ ok (h', s'))
      × Took (λ q. count q s.music.queue) (λ q. count q s'.music.queue) p h h'
unfolding call_client
call_client-takes_one music_address write c p h s b e held fits =
    elim (Bool-cases (c == music_address)) [
      | inl music ↦
          let (m, returns, took) = data_callback-Took p h s.music b e held in
          (h, record s { music = m }, rw (music, returns) refl, took)
      | inr output ↦
          let (h', returns, took) =
            Contract.data_callback-Took (write p (s.outputs c)) p h (s.outputs c) b e held fits in
          (
            h',
            set_output c (after_write (write p (s.outputs c)) (s.outputs c)) s,
            rw (output, returns) refl,
            Took-beside (λ q. count q s.music.queue) p h h' took,
          )
    ]

-- Both classes keep the contract of the queue manager, and so do they together.
abbrev pub service_laws :
    (music_address : ℕ) (write : ℕ → IpOutClient → ℤ)
    → ClientLaws Clients (service_ops music_address write)
service_laws music_address write = record {
  held = λ s p. count p s.music.queue;
  takes_one =
      λ c p h s b e held fits. call_client-takes_one music_address write c p h s b e held fits;
}
