-- ===== src/QMgr/Ownership.antt =====
-- Who owns which buffer: the two queues hold distinct live buffers, and no operation on them faults.
use mathlib.Core.List.{append_assoc}
use rdk_audiocapturemgr.Prelude.{
  le→leb, ℕ, suc, ◌+◌, ◌≤◌, ◌≡◌, ◌≢◌, refl, none, some, List, [], ◌∷◌, ◌++◌, Bool, true, false, ok,
  ◌&&◌, if◌then◌else◌, length, arith, take, Bool-cases, inl, inr, ltb, ==_iff, sym,
}
use rdk_audiocapturemgr.Audio.{u32}
use rdk_audiocapturemgr.Buffer.{Buffer, Heap, create_new_audio_buffer, update}
use rdk_audiocapturemgr.QMgr.{QMgr, limit_incoming, add_data, notify_data_ready}
use rdk_audiocapturemgr.QMgr.Clients.{mem}
use rdk_audiocapturemgr.QMgr.Registry.{AllDistinct, AllDistinct-append, mem-append}
use rdk_audiocapturemgr.QMgr.Flush.{
  AllLive, flush_queue-Flushed, mem-concat, AllDistinct-left, AllDistinct-right,
  AllDistinct-disjoint, AllLive-concat, AllLive-mem, AllLive-kept,
}

-- The buffers that wait to be delivered, oldest first.
abbrev pub pending : QMgr → List ℕ
pending q = q.outgoing ++ q.incoming

-- The queues hold distinct live buffers, and no address is in use that was not given out.
pub record Owns (q : QMgr) (h : Heap) : Type 0 where
  pub distinct : AllDistinct (pending q)
  pub live : AllLive h (pending q)
  pub fresh : (p : ℕ) → h.next ≤ p → h.cell p ≡ none

-- A queue with a new buffer at its end, whose address was not in use.
push_new :
    (ps : List ℕ) (n : ℕ) (b : Buffer) (h : Heap)
    → AllDistinct ps
    → AllLive h ps
    → h.cell n ≡ none
    → AllDistinct (ps ++ n ∷ [])
      × AllLive (record { next = suc n; cell = update h.cell n (some b) }) (ps ++ n ∷ [])
push_new ps n b h d l unused =
    let absent : mem n ps ≡ false = ground (arith, AllLive-mem h ps n l) in
    let h' : Heap = record { next = suc n; cell = update h.cell n (some b) } in
    (
      AllDistinct-append n ps absent d,
      (AllLive-concat h' ps (n ∷ [])).1
          (AllLive-kept h h' ps (λ p m. ground (arith, ==_iff n p)) l, (ground arith, tt)),
    )

-- What `add_data` did: it queued one buffer, at the next address, behind those that wait; a full
-- incoming queue is lost.
pub record Added (q : QMgr) (h : Heap) (q' : QMgr) (h' : Heap) : Type 0 where
  pub owns : Owns q' h'
  pub queued :
      pending q'
      ≡ (if ltb q.max_queue_size (length q.incoming) then q.outgoing else pending q) ++ h.next ∷ []
  pub outgoing_kept : q'.outgoing ≡ q.outgoing
  pub incoming_waits : q'.incoming ≢ []
  pub posted : q'.sem ≡ (if q.notify_new_data then q.sem + 1 else q.sem)
  pub notified : q'.notify_new_data ≡ false

limit_incoming_lem :
    (q : QMgr) (h : Heap)
    → AllDistinct q.incoming
    → AllLive h q.incoming
    → (h' : Heap) × (limit_incoming q h
        ≡ ok (
          record q {
            incoming = if ltb q.max_queue_size (length q.incoming) then [] else q.incoming;
          },
          h',
        ))
      × (h'.next ≡ h.next)
      × ((p : ℕ)
          → (ltb q.max_queue_size (length q.incoming) && mem p q.incoming) ≡ false
          → h'.cell p ≡ h.cell p)
      × ((p : ℕ) → (h.cell p ≡ none) → h'.cell p ≡ none)
unfolding limit_incoming
limit_incoming_lem q h d l = elim (Bool-cases (ltb q.max_queue_size (length q.incoming))) [
  | inl full ↦
      let (h', done, f) = flush_queue-Flushed q.incoming h d l in
      (
        h',
        rw (full, done),
        f.next_kept,
        (λ p m. f.kept p (ground arith)),
        λ p e. ground (arith, f.kept p, f.gone p),
      )
  | inr room ↦ (h, rw room, refl, (λ p m. refl), λ p e. e)
]

-- The part of the queues that a new buffer is put behind.
abbrev waiting : Bool → List ℕ → List ℕ → List ℕ
waiting full out inc = if full then out else out ++ inc

waiting-append :
    (full : Bool) (out inc new : List ℕ)
    → out ++ ((if full then [] else inc) ++ new) ≡ waiting full out inc ++ new
waiting-append true out inc new = refl
waiting-append false out inc new = sym (append_assoc out inc new)

waiting_sound :
    (full : Bool) (out inc : List ℕ) (h : Heap)
    → AllDistinct (out ++ inc)
    → AllLive h (out ++ inc)
    → AllDistinct (waiting full out inc) × AllLive h (waiting full out inc)
waiting_sound true out inc h d l = (AllDistinct-left out inc d, ((AllLive-concat h out inc).0 l).0)
waiting_sound false out inc h d l = (d, l)

waiting_survives :
    (full : Bool) (out inc : List ℕ) (n p : ℕ)
    → AllDistinct (out ++ inc)
    → mem n (out ++ inc) ≡ false
    → mem p (waiting full out inc ++ n ∷ []) ≡ true
    → (full && mem p inc) ≡ false
waiting_survives true out inc n p d absent m =
    ground (
      arith,
      AllDistinct-disjoint out inc p d,
      mem-concat n out inc,
      mem-append n p out,
      ==_iff p n,
    )
waiting_survives false out inc n p d absent m = refl

append-cons-ne-nil : (xs : List ℕ) (x : ℕ) → xs ++ x ∷ [] ≢ []
append-cons-ne-nil [] x e = cc
append-cons-ne-nil (y ∷ xs) x e = cc

-- Capturing a block of data never faults and keeps the ownership of buffers intact.
pub add_data-Added :
    (buf : List ℕ) (size : ℕ) (q : QMgr) (h : Heap)
    → size ≤ length buf
    → Owns q h
    → (q' : QMgr) × (h' : Heap) × (add_data buf size q h ≡ ok (q', h')) × Added q h q' h'
unfolding add_data create_new_audio_buffer notify_data_ready
add_data-Added buf size q h fits o =
    let full : Bool = ltb q.max_queue_size (length q.incoming) in
    let b : Buffer = record {
      bytes = take size buf;
      size = size;
      clip_length = 0;
      refcount = q.num_clients;
    } in
    let h₁ : Heap = record { next = suc h.next; cell = update h.cell h.next (some b) } in
    let unused = o.fresh h.next (omega arith) in
    let absent : mem h.next (pending q) ≡ false =
      ground (arith, AllLive-mem h (pending q) h.next o.live) in
    let (d, l) = waiting_sound full q.outgoing q.incoming h o.distinct o.live in
    let (d₁, l₁) = push_new (waiting full q.outgoing q.incoming) h.next b h d l unused in
    let new = push_new (pending q) h.next b h o.distinct o.live unused in
    let all = (AllLive-concat h₁ (pending q) (h.next ∷ [])).0 new.1 in
    let in_queue = (AllLive-concat h₁ q.outgoing q.incoming).0 all.0 in
    let (h₂, limited, next₂, kept, gone) =
      limit_incoming_lem q h₁ (AllDistinct-right q.outgoing q.incoming o.distinct) in_queue.1 in
    let queue : List ℕ = (if full then [] else q.incoming) ++ h.next ∷ [] in
    let q₁ : QMgr = notify_data_ready (record q { incoming = queue }) in
    let order = waiting-append full q.outgoing q.incoming (h.next ∷ []) in
    let same : pending q₁ ≡ waiting full q.outgoing q.incoming ++ h.next ∷ [] =
      ground (arith, order) in
    let l₂ =
      AllLive-kept h₁ h₂ (waiting full q.outgoing q.incoming ++ h.next ∷ [])
        (λ p m. kept p (waiting_survives full q.outgoing q.incoming h.next p o.distinct absent m))
        l₁ in
    (
      record q₁ { inflow_byte_counter = u32 (q₁.inflow_byte_counter + size) },
      h₂,
      rw (le→leb size (length buf) fits, limited),
      record {
        owns = record {
          distinct = rw (← same) at d₁;
          live = rw (← same) at l₂;
          fresh = λ p above. gone p (ground (arith, o.fresh p, ==_iff h.next p));
        };
        queued = same;
        outgoing_kept = ground arith;
        incoming_waits =
            λ e. append-cons-ne-nil (if full then [] else q.incoming) h.next (ground arith);
        posted = ground arith;
        notified = ground arith;
      },
    )
