-- ===== src/Daemon/Delivered.antt =====
-- src/audio_capture_manager.cpp: a round of the processing thread, with the objects of the clients.
use rdk_audiocapturemgr.Prelude.{
  ℕ, ◌+◌, ◌<◌, ◌^◌, ◌≡◌, ◌≢◌, ◌∙◌, sym, ap, refl, Option, none, some, List, [], ◌∷◌, Bool, true,
  false, ok, length, arith, Bool-cases, inl, inr, ==_iff,
}
use rdk_audiocapturemgr.Prelude.Int.{ℤ}
use rdk_audiocapturemgr.Buffer.{Heap}
use rdk_audiocapturemgr.Buffer.Refs.{size_of}
use rdk_audiocapturemgr.QMgr.{QMgr}
use rdk_audiocapturemgr.QMgr.Clients.{mem}
use rdk_audiocapturemgr.QMgr.Delivery.{deliver_all, process_data}
use rdk_audiocapturemgr.QMgr.Counted.{Counted, update_buffer_references-Counted}
use rdk_audiocapturemgr.QMgr.Flush.{AllLive}
use rdk_audiocapturemgr.QMgr.Registry.{AllDistinct, IsConsistent}
use rdk_audiocapturemgr.IpOut.{IpOutClient}
use rdk_audiocapturemgr.Music.Held.{total_of}
use rdk_audiocapturemgr.Music.Freed.{AllSole-mem}
use rdk_audiocapturemgr.Music.Owner.{IsOwner-kept}
use rdk_audiocapturemgr.Sessions.{Session}
use rdk_audiocapturemgr.Sessions.Registered.{enabled}
use rdk_audiocapturemgr.Daemon.{Daemon, MusicObject, Object, music}
use rdk_audiocapturemgr.Daemon.Kinds.{client_kind, client_kind_unique}
use rdk_audiocapturemgr.Daemon.Populated.{Populated, kind_of}
use rdk_audiocapturemgr.Daemon.Rounds.{object_ops, AllThere, deliver-Given, musics}
use rdk_audiocapturemgr.Daemon.Flight.{Unique}
use rdk_audiocapturemgr.Daemon.InFlight.{InFlight, InFlight-next}
use rdk_audiocapturemgr.Daemon.Reconfigured.{same_registry}
use rdk_audiocapturemgr.Daemon.Valid.{IsValid}

AllThere-typed :
    (cs : List ℕ) (kinds : ℕ → Option Bool) (objects : ℕ → Option Object)
    → ((c : ℕ) → kind_of (objects c) ≡ kinds c)
    → ((c : ℕ) → mem c cs ≡ true → kinds c ≢ none)
    → AllThere cs objects
AllThere-typed [] kinds objects typed there = tt
AllThere-typed (c ∷ cs) kinds objects typed there = (
  (λ e. there c (ground (arith, ==_iff c c)) (sym (typed c) ∙ ap kind_of e)),
  AllThere-typed cs kinds objects typed (λ d m. there d (ground arith)),
)

module _ (write : ℕ → IpOutClient → ℤ) (kinds : ℕ → Option Bool) (cs : List ℕ)
    (unique : Unique kinds) (distinct : AllDistinct cs)
    (there : (c : ℕ) → mem c cs ≡ true → kinds c ≢ none) (some_client : 0 < length cs)
    (fits : length cs < 2 ^ 32) where
  deliver_all-InFlight :
      (ps : List ℕ) (objects : ℕ → Option Object) (h : Heap)
      → AllDistinct ps
      → InFlight kinds (length cs) ps objects h
      → (h' : Heap) × (objects' : ℕ → Option Object) × (deliver_all
            (object_ops write)
            cs
            ps
            h
            objects
          ≡ ok (h', objects'))
        × InFlight kinds (length cs) [] objects' h'
  unfolding deliver_all
  deliver_all-InFlight [] objects h apart f = (h, objects, refl, f)
  deliver_all-InFlight (p ∷ ps) objects h (new, apart) f =
      let (counted, live) = f.waiting p (ground (arith, ==_iff p p)) in
      let (h₁, objects₁, given, g) =
        deliver-Given write p (size_of (h.cell p)) cs 0 h objects distinct
          (AllThere-typed cs kinds objects f.typed there) (omega (arith, counted))
          (ground (arith, live, counted)) (omega (arith, counted)) (λ l. refl) in
      let zero : 0 + musics cs objects ≡ musics cs objects = omega arith in
      let f₁ =
        InFlight-next write kinds cs (length cs) p ps objects objects₁ h h₁ unique distinct new f
          (rw zero at g) in
      let (h', objects', rest, f') = deliver_all-InFlight ps objects₁ h₁ apart f₁ in
      (h', objects', rw (given, rest) refl, f')

enabled-kind : (c : ℕ) (ss : List Session) → enabled c ss ≡ true → client_kind c ss ≢ none
enabled-kind c [] e none_there = cc
enabled-kind c (s ∷ ss) e none_there = ground (arith, enabled-kind c ss)

-- Buffers captured since the process was in order: new ones, and no other has changed. The queue of a
-- music id client has room for them in its count of bytes.
pub record Captured (d : Daemon) (ps : List ℕ) (h : Heap) : Type 0 where
  pub distinct : AllDistinct ps
  pub live : AllLive h ps
  pub fresh : (p : ℕ) → mem p ps ≡ true → d.heap.cell p ≡ none
  pub kept : (p : ℕ) → mem p ps ≡ false → h.cell p ≡ d.heap.cell p
  pub room :
      (c : ℕ) (m : MusicObject)
      → d.objects c ≡ some (music m)
      → m.client.total_size + total_of h ps < 2 ^ 31

-- The queue of a music id client has no captured buffer.
Captured-unheld :
    (d : Daemon) (ps : List ℕ) (h : Heap) (c : ℕ) (m : MusicObject) (q : ℕ)
    → IsValid d
    → Captured d ps h
    → d.objects c ≡ some (music m)
    → mem q m.client.queue ≡ true
    → mem q ps ≡ false
Captured-unheld d ps h c m q v t e i = elim (Bool-cases (mem q ps)) [
  | inr absent ↦ absent
  | inl captured ↦
      let one = AllSole-mem d.heap m.client.queue q (v.populated.owners c m e).sole i in
      absurd (ground (arith, one, t.fresh q captured))
]

total_of-sizes :
    (h h' : Heap) (ps : List ℕ)
    → ((p : ℕ) → size_of (h'.cell p) ≡ size_of (h.cell p))
    → total_of h' ps ≡ total_of h ps
total_of-sizes h h' [] same = refl
total_of-sizes h h' (p ∷ ps) same = omega (arith, same p, total_of-sizes h h' ps same)

-- After update_buffer_references the captured buffers are in flight.
Captured-InFlight :
    (d : Daemon) (ps : List ℕ) (n k : ℕ) (h h₁ : Heap)
    → n ≡ k
    → IsValid d
    → Captured d ps h
    → Counted n ps h h₁
    → InFlight (λ c. client_kind c d.mgr.sessions) k ps d.objects h₁
Captured-InFlight d ps n k h h₁ same v t counted =
    let before : (q : ℕ) → mem q ps ≡ false → h₁.cell q ≡ d.heap.cell q =
      λ q absent. counted.kept q absent ∙ t.kept q absent in
    let unheld =
      λ (c : ℕ) (m : MusicObject) (q : ℕ) (e : d.objects c ≡ some (music m))
          (i : mem q m.client.queue ≡ true).
        Captured-unheld d ps h c m q v t e i in
    record {
      typed = v.populated.typed;
      owners = λ c m e.
          IsOwner-kept d.heap h₁ m.client (λ q i. before q (unheld c m q e i))
            (v.populated.owners c m e);
      threads = v.populated.threads;
      waiting = λ q captured. (counted.counted q captured ∙ same, counted.live q captured);
      unheld = λ c m q e captured. elim (Bool-cases (mem q m.client.queue)) [
        | inr absent ↦ absent
        | inl i ↦ absurd (ground (arith, unheld c m q e i, captured))
      ];
      held = λ q live absent. v.populated.held q (rw (sym (before q absent)) live);
      room = λ c m e. omega (arith, t.room c m e, total_of-sizes h h₁ ps counted.sizes);
    }

landed-Populated :
    (kinds : ℕ → Option Bool) (n : ℕ) (objects : ℕ → Option Object) (h : Heap)
    → Unique kinds
    → InFlight kinds n [] objects h
    → Populated kinds objects h
landed-Populated kinds n objects h unique f = record {
  typed = f.typed;
  owners = f.owners;
  apart = λ c c' m m' p e e' ne i.
      absurd (ne (unique c c' (sym (f.typed c) ∙ ap kind_of e) (sym (f.typed c') ∙ ap kind_of e')));
  threads = f.threads;
  held = λ q live. f.held q live refl;
}

-- A round of the processing thread over the objects of the clients, behind the capture of new buffers:
-- the process is in order, the queue manager is consistent and has one or more clients, fewer than
-- 2 ^ 32, and the music id client has room in its count of bytes. Whatever write returns, nothing faults, the outgoing queue is empty, and the process is in
-- order again: each buffer is deleted or in the queue of the music id client, with one reference.
pub process_data-IsValid :
    (write : ℕ → IpOutClient → ℤ) (d : Daemon) (ps : List ℕ) (h : Heap)
    → IsValid d
    → IsConsistent d.mgr.sources
    → 0 < d.mgr.sources.num_clients
    → d.mgr.sources.num_clients < 2 ^ 32
    → Captured d ps h
    → (h' : Heap) × (objects' : ℕ → Option Object) × (process_data
          (object_ops write)
          (record d.mgr.sources { outgoing = ps })
          h
          d.objects
        ≡ ok (record d.mgr.sources { outgoing = [] }, h', objects'))
      × IsValid (record d {
        mgr = record d.mgr { sources = record d.mgr.sources { outgoing = [] } };
        objects = objects';
        heap = h';
      })
unfolding process_data
process_data-IsValid write d ps h v consistent some_client fits t =
    let q : QMgr = d.mgr.sources in
    let kinds : ℕ → Option Bool = λ c. client_kind c d.mgr.sessions in
    let unique : Unique kinds =
      λ c c'. client_kind_unique c c' d.mgr.sessions v.primary v.sessions.one_music in
    let there : (c : ℕ) → mem c q.clients ≡ true → kinds c ≢ none =
      λ c m. enabled-kind c d.mgr.sessions (sym (v.sessions.registered c) ∙ m) in
    let n : q.num_clients ≡ length q.clients = consistent.counted in
    let (h₁, set, counted) =
      update_buffer_references-Counted q.num_clients ps h t.distinct t.live in
    let flying = Captured-InFlight d ps q.num_clients (length q.clients) h h₁ n v t counted in
    let (h', objects', given, landed) =
      deliver_all-InFlight write kinds q.clients unique consistent.distinct there (omega (arith, n))
        (omega (arith, n)) ps d.objects h₁ t.distinct flying in
    (
      h',
      objects',
      rw (set, given) refl,
      record {
        sessions = same_registry d.mgr (record q { outgoing = [] }) refl v.sessions;
        primary = v.primary;
        rate = v.rate;
        populated = landed-Populated kinds (length q.clients) objects' h' unique landed;
      },
    )
