-- ===== src/Service/Queue.antt =====
-- What a round of the queue manager leaves with the clients.
use mathlib.Core.List.{append-nil, append_assoc}
use rdk_audiocapturemgr.Prelude.{
  ◌∙◌, ap, ==_neg, sym, sym, ==_iff, ℕ, ◌+◌, ◌<◌, ◌^◌, ◌≡◌, ◌==◌, refl, List, [], ◌∷◌, ◌++◌, Bool,
  true, false, inl, inr, Bool-cases, ok, >>=-parts, arith, if◌then◌else◌, length,
}
use rdk_audiocapturemgr.Prelude.Int.{ℤ}
use rdk_audiocapturemgr.Buffer.{Heap, load}
use rdk_audiocapturemgr.Buffer.Refs.{refs}
use rdk_audiocapturemgr.QMgr.{QMgr}
use rdk_audiocapturemgr.QMgr.Clients.{mem}
use rdk_audiocapturemgr.QMgr.Registry.{AllDistinct}
use rdk_audiocapturemgr.QMgr.Flush.{is_live, AllLive}
use rdk_audiocapturemgr.QMgr.Delivery.{update_buffer_references, deliver, deliver_all, process_data}
use rdk_audiocapturemgr.QMgr.References.{process_data-AllSettled}
use rdk_audiocapturemgr.Music.Callback.{count}
use rdk_audiocapturemgr.IpOut.{IpOutClient}
use rdk_audiocapturemgr.Service.{Clients, call_client, service_ops, service_laws}

module _ (music_address : ℕ) (write : ℕ → IpOutClient → ℤ) where
  -- A call of the music id client appends the buffer to its queue; another does not touch the queue.
  call_client-queue :
      (c p : ℕ) (h h' : Heap) (s s' : Clients)
      → call_client music_address write c p h s ≡ ok (h', s')
      → s'.music.queue ≡ (if c == music_address then s.music.queue ++ (p ∷ []) else s.music.queue)
  unfolding call_client rdk_audiocapturemgr.Music.data_callback
  call_client-queue c p h h' s s' e = elim (Bool-cases (c == music_address)) [
    | inl music ↦
        let ((h₁, m), called, same) =
          >>=-parts (rdk_audiocapturemgr.Music.data_callback p h s.music) _ (rw music at e) in
        let (b, loaded, kept) = >>=-parts (load p h) _ called in ground (arith, music, same, kept)
    | inr output ↦
        let ((h₁, o), called, same) =
          >>=-parts
            (rdk_audiocapturemgr.IpOut.data_callback (write p (s.outputs c)) p h (s.outputs c)) _
            (rw output at e) in
        ground (arith, output, same)
  ]

  deliver-queue :
      (cs : List ℕ) (p : ℕ) (h h' : Heap) (s s' : Clients)
      → AllDistinct cs
      → deliver (service_ops music_address write) cs p h s ≡ ok (h', s')
      → s'.music.queue ≡ (if mem music_address cs then s.music.queue ++ (p ∷ []) else s.music.queue)
  unfolding deliver
  deliver-queue [] p h h' s s' distinct e = ground (arith, e)
  deliver-queue (c ∷ cs) p h h' s s' (new, distinct) e =
      let ((h₁, s₁), called, rest) = >>=-parts (call_client music_address write c p h s) _ e in
      let now = call_client-queue c p h h₁ s s₁ called in
      let later = deliver-queue cs p h₁ h' s₁ s' distinct rest in
      elim (Bool-cases (c == music_address)) [
        | inl music ↦
            let same : c ≡ music_address = (==_iff c music_address).0 music in
            let none_later : mem music_address cs ≡ false = rw (sym same) new in
            let here : (music_address == c) ≡ true = (==_iff music_address c).1 (sym same) in
            rw (here, later, none_later, now, music)
        | inr output ↦
            let there : (music_address == c) ≡ false =
              ==_neg (λ e. ground (arith, output, e, ==_iff c music_address)) in
            rw (there, later, now, output)
      ]

  deliver_all-queue :
      (cs ps : List ℕ) (h h' : Heap) (s s' : Clients)
      → AllDistinct cs
      → deliver_all (service_ops music_address write) cs ps h s ≡ ok (h', s')
      → s'.music.queue ≡ (if mem music_address cs then s.music.queue ++ ps else s.music.queue)
  unfolding deliver_all
  deliver_all-queue cs [] h h' s s' distinct e =
      let same = append-nil s.music.queue in ground (arith, e, same)
  deliver_all-queue cs (p ∷ ps) h h' s s' distinct e =
      let ((h₁, s₁), given, rest) =
        >>=-parts (deliver (service_ops music_address write) cs p h s) _ e in
      let now = deliver-queue cs p h h₁ s s₁ distinct given in
      let later = deliver_all-queue cs ps h₁ h' s₁ s' distinct rest in
      elim (Bool-cases (mem music_address cs)) [
        | inl registered ↦
            rw (later, registered, now, registered, append_assoc s.music.queue (p ∷ []) ps)
        | inr away ↦ rw (later, away, now, away)
      ]

count-concat : (p : ℕ) (xs ys : List ℕ) → count p (xs ++ ys) ≡ count p xs + count p ys
count-concat p [] ys = omega arith
count-concat p (x ∷ xs) ys = omega (arith, count-concat p xs ys)

count-absent : (p : ℕ) (xs : List ℕ) → mem p xs ≡ false → count p xs ≡ 0
count-absent p [] absent = refl
count-absent p (x ∷ xs) absent = ground (arith, count-absent p xs)

count-distinct : (p : ℕ) (xs : List ℕ) → AllDistinct xs → mem p xs ≡ true → count p xs ≡ 1
count-distinct p [] distinct there = cc
count-distinct p (x ∷ xs) (new, distinct) there =
    ground (arith, count-distinct p xs distinct, count-absent p xs, ==_iff p x)

count-after :
    (registered : Bool) (p : ℕ) (queue new : List ℕ)
    → AllDistinct new
    → mem p queue ≡ false
    → mem p new ≡ true
    → count p (if registered then queue ++ new else queue) ≡ (if registered then 1 else 0)
count-after true p queue new distinct absent there = omega (
  arith,
  count-concat p queue new,
  count-absent p queue absent,
  count-distinct p new distinct there,
)
count-after false p queue new distinct absent there = count-absent p queue absent

process_data_queue :
    (music_address : ℕ) (write : ℕ → IpOutClient → ℤ) (q : QMgr) (h h' : Heap) (s s' : Clients)
    → AllDistinct q.clients
    → process_data (service_ops music_address write) q h s ≡ ok (record q { outgoing = [] }, h', s')
    → s'.music.queue
      ≡ (if mem music_address q.clients then s.music.queue ++ q.outgoing else s.music.queue)
unfolding process_data
process_data_queue music_address write q h h' s s' distinct e =
    let ops = service_ops music_address write in
    let (h₁, counts, rest) = >>=-parts (update_buffer_references q.outgoing q.num_clients h) _ e in
    let ((h₂, s₂), given, same) = >>=-parts (deliver_all ops q.clients q.outgoing h₁ s) _ rest in
    let now =
      deliver_all-queue music_address write q.clients q.outgoing h₁ h₂ s s₂ distinct given in
    ground (arith, same, now)

-- A round of a queue manager whose clients, one or more and fewer than 2 ^ 32, are different IP
-- output clients and perhaps a music id client, with different live buffers that are new to that
-- client, and whatever write returns: nothing faults and the buffers leave the outgoing queue. If
-- the music id client is registered, its queue gets them all, in their order, and the one reference
-- to each is its own; if not, its queue is as before and every buffer is freed.
pub process_data-queue :
    (music_address : ℕ) (write : ℕ → IpOutClient → ℤ) (q : QMgr) (h : Heap) (s : Clients)
    → AllDistinct q.outgoing
    → AllLive h q.outgoing
    → AllDistinct q.clients
    → q.num_clients ≡ length q.clients
    → 0 < q.num_clients
    → q.num_clients < 2 ^ 32
    → ((p : ℕ) → mem p q.outgoing ≡ true → mem p s.music.queue ≡ false)
    → (h' : Heap) × (s' : Clients) × (process_data (service_ops music_address write) q h s
        ≡ ok (record q { outgoing = [] }, h', s'))
      × (s'.music.queue
          ≡ (if mem music_address q.clients then s.music.queue ++ q.outgoing else s.music.queue))
      × ((p : ℕ)
          → mem p q.outgoing ≡ true
          → (refs h' p ≡ (if mem music_address q.clients then 1 else 0))
            × (is_live (h'.cell p) ≡ mem music_address q.clients))
process_data-queue music_address write q h s d l clients counted some_client fits new =
    let ops = service_ops music_address write in
    let (h', s', returns, a) =
      process_data-AllSettled ops (service_laws music_address write) q h s d l counted some_client
        fits (λ p m. count-absent p s.music.queue (new p m)) in
    let registered = mem music_address q.clients in
    let queue = process_data_queue music_address write q h h' s s' clients returns in
    (
      h',
      s',
      returns,
      queue,
      λ p m.
          let left = count-after registered p s.music.queue q.outgoing d (new p m) m in
          let kept : refs h' p ≡ (if registered then 1 else 0) =
            a.settled p m ∙ ap (count p) queue ∙ left in
          (kept, ground (arith, a.live p m, a.settled p m, kept)),
    )
