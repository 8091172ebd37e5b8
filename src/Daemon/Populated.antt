-- ===== src/Daemon/Populated.antt =====
-- The objects of the clients and the heap of buffers: each kind of change, and what it keeps true.
use rdk_audiocapturemgr.Prelude.{
  ◌∙◌, ℕ, ◌≡◌, ◌≢◌, refl, Option, none, some, List, [], Bool, true, false, ◌==◌, if◌then◌else◌,
  arith, ==_iff, Bool-cases, inl, inr, sym,
}
use rdk_audiocapturemgr.Buffer.{Heap}
use rdk_audiocapturemgr.QMgr.Clients.{mem}
use rdk_audiocapturemgr.QMgr.Flush.{is_live}
use rdk_audiocapturemgr.IpOut.{IpOutClient}
use rdk_audiocapturemgr.Music.Owner.{IsOwner, IsOwner-kept}
use rdk_audiocapturemgr.Daemon.{MusicObject, Object, music, ip_out, put}

-- Whether an object is a music id client.
abbrev pub kind_of : Option Object → Option Bool
kind_of none = none
kind_of (some (music m)) = some true
kind_of (some (ip_out o)) = some false

-- A live buffer is in the queue of a music id client that is there.
abbrev pub HeldAt : (ℕ → Option Object) → ℕ → Type 0
HeldAt objects p =
    (c : ℕ) × (m : MusicObject) × (objects c ≡ some (music m)) × (mem p m.client.queue ≡ true)

-- The objects are of the kinds given, each music id client has the only reference to each of its
-- buffers, IP output clients have their thread, and no other buffer is left on the heap.
pub record Populated (kinds : ℕ → Option Bool) (objects : ℕ → Option Object) (h : Heap)
    : Type 0 where
  pub typed : (c : ℕ) → kind_of (objects c) ≡ kinds c
  pub owners : (c : ℕ) (m : MusicObject) → objects c ≡ some (music m) → IsOwner h m.client
  pub apart :
      (c c' : ℕ) (m m' : MusicObject) (p : ℕ)
      → objects c ≡ some (music m)
      → objects c' ≡ some (music m')
      → c ≢ c'
      → mem p m.client.queue ≡ true
      → mem p m'.client.queue ≡ false
  pub threads : (c : ℕ) (o : IpOutClient) → objects c ≡ some (ip_out o) → o.joinable ≡ true
  pub held : (p : ℕ) → is_live (h.cell p) ≡ true → HeldAt objects p

pub Populated-kinds :
    (kinds kinds' : ℕ → Option Bool) (objects : ℕ → Option Object) (h : Heap)
    → ((c : ℕ) → kinds c ≡ kinds' c)
    → Populated kinds objects h
    → Populated kinds' objects h
Populated-kinds kinds kinds' objects h same v = record {
  typed = λ c. v.typed c ∙ same c;
  owners = v.owners;
  apart = v.apart;
  threads = v.threads;
  held = v.held;
}

abbrev pub put_kind : ℕ → Option Bool → (ℕ → Option Bool) → ℕ → Option Bool
put_kind a k kinds c = if c == a then k else kinds c

abbrev pub queue_of : Option Object → List ℕ
queue_of none = []
queue_of (some (music m)) = m.client.queue
queue_of (some (ip_out o)) = []

queue_of-music :
    (o : Option Object) (p : ℕ)
    → mem p (queue_of o) ≡ true
    → (m : MusicObject) × (o ≡ some (music m)) × (mem p m.client.queue ≡ true)
queue_of-music none p i = cc
queue_of-music (some (music m)) p i = (m, refl, i)
queue_of-music (some (ip_out o)) p i = cc

-- An object by itself is as it should be.
abbrev pub InOrder : Heap → Option Object → Type 0
InOrder h none = Unit {0}
InOrder h (some (music m)) = IsOwner h m.client
InOrder h (some (ip_out o)) = o.joinable ≡ true

-- What a change of the object at one address, and of the heap, has to leave: the new object is in
-- order, its queue has lost some buffers at most, and these are what was deleted.
pub record Changed (old new : Option Object) (h h' : Heap) : Type 0 where
  pub fine : InOrder h' new
  pub fewer : (p : ℕ) → mem p (queue_of old) ≡ false → mem p (queue_of new) ≡ false
  pub kept : (p : ℕ) → mem p (queue_of old) ≡ false → h'.cell p ≡ h.cell p
  pub gone :
      (p : ℕ)
      → mem p (queue_of old) ≡ true
      → mem p (queue_of new) ≡ false
      → is_live (h'.cell p) ≡ false

module _ (kinds : ℕ → Option Bool) (objects : ℕ → Option Object) (h h' : Heap) (a : ℕ)
    (new : Option Object) (v : Populated kinds objects h) (t : Changed (objects a) new h h') where
  -- What is elsewhere is no buffer of the object that changes.
  elsewhere :
      (c : ℕ) (m : MusicObject) (p : ℕ)
      → (c == a) ≡ false
      → objects c ≡ some (music m)
      → mem p m.client.queue ≡ true
      → mem p (queue_of (objects a)) ≡ false
  elsewhere c m p away e i = elim (Bool-cases (mem p (queue_of (objects a)))) [
    | inr absent ↦ absent
    | inl present ↦
        let (m', e', i') = queue_of-music (objects a) p present in
        let other = v.apart c a m m' p e e' (λ same. ground (arith, same, away, ==_iff c a)) i in
        ground (arith, other, i')
  ]

  put-owners :
      (c : ℕ) (m : MusicObject) → put a new objects c ≡ some (music m) → IsOwner h' m.client
  put-owners c m e = elim (Bool-cases (c == a)) [
    | inl here ↦ let same : new ≡ some (music m) = rw here at e in rw same at t.fine
    | inr away ↦
        let there : objects c ≡ some (music m) = rw away at e in
        IsOwner-kept h h' m.client (λ p i. t.kept p (elsewhere c m p away there i))
          (v.owners c m there)
  ]

  put-apart :
      (c c' : ℕ) (m m' : MusicObject) (p : ℕ)
      → put a new objects c ≡ some (music m)
      → put a new objects c' ≡ some (music m')
      → c ≢ c'
      → mem p m.client.queue ≡ true
      → mem p m'.client.queue ≡ false
  put-apart c c' m m' p e e' ne i = elim (Bool-cases (c == a)) [
    | inr away ↦
        let there : objects c ≡ some (music m) = rw away at e in
        elim (Bool-cases (c' == a)) [
          | inr away' ↦ v.apart c c' m m' p there (rw away' at e') ne i
          | inl here ↦
              let same : new ≡ some (music m') = rw here at e' in
              let lost = t.fewer p (elsewhere c m p away there i) in ground (arith, same, lost)
        ]
    | inl here ↦
        let same : new ≡ some (music m) = rw here at e in
        elim (Bool-cases (c' == a)) [
          | inl here' ↦ absurd (ne ((==_iff c a).0 here ∙ sym ((==_iff c' a).0 here')))
          | inr away ↦ elim (Bool-cases (mem p m'.client.queue)) [
            | inr absent ↦ absent
            | inl i' ↦
                let lost = t.fewer p (elsewhere c' m' p away (rw away at e') i') in
                absurd (ground (arith, same, lost, i))
          ]
        ]
  ]

  put-threads :
      (c : ℕ) (o : IpOutClient) → put a new objects c ≡ some (ip_out o) → o.joinable ≡ true
  put-threads c o e = elim (Bool-cases (c == a)) [
    | inl here ↦ let same : new ≡ some (ip_out o) = rw here at e in rw same at t.fine
    | inr away ↦ v.threads c o (rw away at e)
  ]

  put-held : (p : ℕ) → is_live (h'.cell p) ≡ true → HeldAt (put a new objects) p
  put-held p live = elim (Bool-cases (mem p (queue_of new))) [
    | inl i ↦ let (m, e, i') = queue_of-music new p i in (a, m, ground (arith, e, ==_iff a a), i')
    | inr lost ↦ elim (Bool-cases (mem p (queue_of (objects a)))) [
      | inl was ↦ absurd (ground (arith, t.gone p was lost, live))
      | inr never ↦
          let (c, m, e, i) = v.held p (rw (sym (t.kept p never)) live) in
          elim (Bool-cases (c == a)) [
            | inr away ↦ (c, m, rw away e, i)
            | inl here ↦
                let same : objects a ≡ some (music m) = rw (sym ((==_iff c a).0 here)) e in
                absurd (ground (arith, same, i, never))
          ]
    ]
  ]

  pub put-Populated : Populated (put_kind a (kind_of new) kinds) (put a new objects) h'
  put-Populated = record {
    typed = λ c. elim (Bool-cases (c == a)) [
      | inl here ↦ rw here refl
      | inr away ↦ rw away (v.typed c)
    ];
    owners = put-owners;
    apart = put-apart;
    threads = put-threads;
    held = put-held;
  }
