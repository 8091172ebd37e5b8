-- ===== src/QMgr/Fifo.antt =====
-- The queue manager as a queue: buffers reach the clients in the order of capture.
use mathlib.Core.List.{append-nil, append_assoc, Sublist, sublist-append_left}
use mathlib.Core.List.Sublist
use rdk_audiocapturemgr.Prelude.{
  refl, >>=-parts, Bool-cases, inl, inr, ℕ, ◌+◌, ◌≡◌, sym, ap, ◌∙◌, List, [], ◌∷◌, ◌++◌, Bool, true,
  false, ok, length, arith, ltb, if◌then◌else◌,
}
use rdk_audiocapturemgr.Audio.{CaptureLibrary}
use rdk_audiocapturemgr.Buffer.{Heap, create_new_audio_buffer}
use rdk_audiocapturemgr.QMgr.{QMgr, q_mgr, swap_queues, add_data, limit_incoming, notify_data_ready}
use rdk_audiocapturemgr.QMgr.Ownership.{pending}
use rdk_audiocapturemgr.QMgr.Delivery.{
  ClientOps, process_data, process_data_queues, deliver, deliver_all, update_buffer_references,
}
use rdk_audiocapturemgr.QMgr.Wakeup.{Protocol, Reach-Protocol, call-SameProtocol}
use rdk_audiocapturemgr.QMgr.Thread.{
  swap_step, is_empty, launched, head, draining, checking, blocked, woken, exited, process_step,
  thread_step, produce, runs, calls, Reach, here, next, launch, Step, step_at, Pc, System, produced,
  logged, for_clients, calls_due,
}

-- All buffers that rounds took or that wait for it, in this order.
abbrev pub history : {S : Type 0} → System S → List ℕ
history x = x.taken ++ pending x.q

-- The history is a sublist of what was captured, and all of it as long as no queue overflowed; each
-- buffer taken was handed once to each client of its round.
pub record InOrder {S : Type 0} (x : System S) : Type 0 where
  pub sublist : Sublist (history x) x.accepted
  pub complete : x.overflows ≡ 0 → history x ≡ x.accepted
  pub delivered : x.called ≡ x.due

add_data-incoming :
    (buf : List ℕ) (size : ℕ) (q q' : QMgr) (h h' : Heap)
    → add_data buf size q h ≡ ok (q', h')
    → (q'.outgoing ≡ q.outgoing)
      × (q'.incoming
          ≡ (if ltb q.max_queue_size (length q.incoming) then [] else q.incoming) ++ h.next ∷ [])
unfolding add_data create_new_audio_buffer limit_incoming notify_data_ready
add_data-incoming buf size q q' h h' e = ground arith

-- Adding a buffer at the end, after the incoming ones were kept or lost.
push_sublist :
    (full : Bool) (front inc acc : List ℕ) (n : ℕ)
    → Sublist (front ++ inc) acc
    → Sublist (front ++ ((if full then [] else inc) ++ n ∷ [])) (acc ++ n ∷ [])
push_sublist true front inc acc n s =
    Sublist.append (Sublist.trans (sublist-append_left front inc) s) (Sublist.refl (n ∷ []))
push_sublist false front inc acc n s =
    rw (← append_assoc front inc (n ∷ [])) (Sublist.append s (Sublist.refl (n ∷ [])))

push_complete :
    (full : Bool) (front inc acc : List ℕ) (n lost : ℕ)
    → (lost ≡ 0 → front ++ inc ≡ acc)
    → (if full then lost + 1 else lost) ≡ 0
    → front ++ ((if full then [] else inc) ++ n ∷ []) ≡ acc ++ n ∷ []
push_complete true front inc acc n lost c e = absurd (omega arith)
push_complete false front inc acc n lost c e =
    sym (append_assoc front inc (n ∷ [])) ∙ ap (λ l. l ++ n ∷ []) (c e)

module _ {S : Type 0} (ops : ClientOps S) where
  deliver-calls :
      (cs : List ℕ) (p : ℕ) (h h' : Heap) (s s' : S) (log log' : List (ℕ × ℕ))
      → deliver (logged ops) cs p h (s, log) ≡ ok (h', (s', log'))
      → log' ≡ log ++ for_clients cs p
  unfolding deliver logged
  deliver-calls [] p h h' s s' log log' e = ground (arith, append-nil log)
  deliver-calls (c ∷ cs) p h h' s s' log log' e =
      let ((h₁, (s₁, log₁)), first, rest) =
        >>=-parts ((logged ops).data_callback c p h (s, log)) _ e in
      let ((h₂, s₂), called, same) = >>=-parts (ops.data_callback c p h s) _ first in
      ground (
        arith,
        deliver-calls cs p h₁ h' s₁ s' log₁ log' rest,
        append_assoc log ((c, p) ∷ []) (for_clients cs p),
        same,
      )

  deliver_all-calls :
      (cs ps : List ℕ) (h h' : Heap) (s s' : S) (log log' : List (ℕ × ℕ))
      → deliver_all (logged ops) cs ps h (s, log) ≡ ok (h', (s', log'))
      → log' ≡ log ++ calls_due cs ps
  unfolding deliver_all
  deliver_all-calls cs [] h h' s s' log log' e = ground (arith, append-nil log)
  deliver_all-calls cs (p ∷ ps) h h' s s' log log' e =
      let ((h₁, (s₁, log₁)), first, rest) = >>=-parts (deliver (logged ops) cs p h (s, log)) _ e in
      ground (
        arith,
        deliver-calls cs p h h₁ s s₁ log log₁ first,
        deliver_all-calls cs ps h₁ h' s₁ s' log₁ log' rest,
        append_assoc log (for_clients cs p) (calls_due cs ps),
      )

  process_data-calls :
      (q q' : QMgr) (h h' : Heap) (s s' : S) (log log' : List (ℕ × ℕ))
      → process_data (logged ops) q h (s, log) ≡ ok (q', h', (s', log'))
      → log' ≡ log ++ calls_due q.clients q.outgoing
  unfolding process_data
  process_data-calls q q' h h' s s' log log' e =
      let (h₁, counted, rest) =
        >>=-parts (update_buffer_references q.outgoing q.num_clients h) _ e in
      let ((h₂, (s₂, log₂)), handed, same) =
        >>=-parts (deliver_all (logged ops) q.clients q.outgoing h₁ (s, log)) _ rest in
      ground (arith, deliver_all-calls q.clients q.outgoing h₁ h₂ s s₂ log log₂ handed, same)

module _ {S : Type 0} where
  produced-InOrder :
      (x : System S) (q' : QMgr) (h' : Heap)
      → (q'.outgoing ≡ x.q.outgoing)
        × (q'.incoming
            ≡ (if ltb x.q.max_queue_size (length x.q.incoming) then [] else x.q.incoming)
              ++ x.heap.next ∷ [])
      → InOrder x
      → InOrder (produced x q' h')
  produced-InOrder x q' h' (out, inc) o =
      let full : Bool = ltb x.q.max_queue_size (length x.q.incoming) in
      let front : List ℕ = x.taken ++ x.q.outgoing in
      let regroup : (l : List ℕ) → front ++ l ≡ x.taken ++ (x.q.outgoing ++ l) =
        append_assoc x.taken x.q.outgoing in
      record {
        sublist =
            rw (out, inc, ← append_assoc x.taken x.q.outgoing)
              (push_sublist full front x.q.incoming x.accepted x.heap.next
                (rw (append_assoc x.taken x.q.outgoing) o.sublist));
        complete = λ e.
            rw (out, inc, ← append_assoc x.taken x.q.outgoing)
              (push_complete full front x.q.incoming x.accepted x.heap.next x.overflows
                (λ z. rw (append_assoc x.taken x.q.outgoing) (o.complete z)) e);
        delivered = o.delivered;
      }

  -- A step that leaves the history, the record of captures and the overflows as they are.
  InOrder-same :
      (x y : System S)
      → history y ≡ history x
      → y.accepted ≡ x.accepted
      → y.overflows ≡ x.overflows
      → (x.called ≡ x.due → y.called ≡ y.due)
      → InOrder x
      → InOrder y
  InOrder-same x y hist acc over owed o = record {
    sublist = rw (hist, acc) o.sublist;
    complete = λ e. rw (hist, acc) (o.complete (rw over at e));
    delivered = owed o.delivered;
  }

module _ {S : Type 0} (lib : CaptureLibrary) (ops : ClientOps S) where
  swap_queues-empty :
      (q q' : QMgr) (h h' : Heap)
      → q.outgoing ≡ []
      → swap_queues q h ≡ ok (q', h')
      → pending q' ≡ pending q
  unfolding swap_queues
  swap_queues-empty q q' h h' none_left e = ground (arith, append-nil q.incoming)

  swap_step-InOrder :
      (x y : System S) → swap_step x ≡ ok y → x.q.outgoing ≡ [] → InOrder x → InOrder y
  unfolding swap_step
  swap_step-InOrder x y e none_left o =
      let ((q', h'), swapped, same) = >>=-parts (swap_queues x.q x.heap) _ e in
      let kept = swap_queues-empty x.q q' x.heap h' none_left swapped in
      InOrder-same x y (ground (arith, kept)) (ground arith) (ground arith) (λ n. ground (arith, n))
        o

  process_step-InOrder : (x y : System S) → process_step ops x ≡ ok y → InOrder x → InOrder y
  unfolding process_step
  process_step-InOrder x y e o =
      let ((q', h', (s', called)), done, same) =
        >>=-parts (process_data (logged ops) x.q x.heap (x.clients, x.called)) _ e in
      let emptied =
        process_data_queues (logged ops) x.q q' x.heap h' (x.clients, x.called) (s', called) done in
      let calls = process_data-calls ops x.q q' x.heap h' x.clients s' x.called called done in
      InOrder-same x y (ground (arith, emptied, append_assoc x.taken x.q.outgoing x.q.incoming))
        (ground arith) (ground arith) (λ n. ground (arith, calls, n)) o

  step_at-InOrder :
      (pc : Pc) (x y : System S) → step_at ops pc x ≡ ok y → Protocol pc x.q → InOrder x → InOrder y
  unfolding step_at
  step_at-InOrder launched x y e p o =
      InOrder-same x y (ground arith) (ground arith) (ground arith) (λ n. ground (arith, n)) o
  step_at-InOrder head x y e p o =
      InOrder-same x y (ground arith) (ground arith) (ground arith) (λ n. ground (arith, n)) o
  step_at-InOrder draining x y e p o = elim (Bool-cases (is_empty x.q.outgoing)) [
    | inl drained ↦
        InOrder-same x y (ground arith) (ground arith) (ground arith) (λ n. ground (arith, n)) o
    | inr more ↦ process_step-InOrder x y (ground arith) o
  ]
  step_at-InOrder checking x y e p o = elim (Bool-cases (is_empty x.q.incoming)) [
    | inl nothing ↦
        InOrder-same x y (ground arith) (ground arith) (ground arith) (λ n. ground (arith, n)) o
    | inr some_new ↦ swap_step-InOrder x y (ground arith) p.1 o
  ]
  step_at-InOrder blocked x y e p o =
      InOrder-same x y (ground arith) (ground arith) (ground arith) (λ n. ground (arith, n)) o
  step_at-InOrder woken x y e p o = elim (Bool-cases x.q.processing_thread_alive) [
    | inl alive ↦ swap_step-InOrder x y (ground arith) p.1 o
    | inr ended ↦
        InOrder-same x y (ground arith) (ground arith) (ground arith) (λ n. ground (arith, n)) o
  ]
  step_at-InOrder exited x y e p o =
      InOrder-same x y (ground arith) (ground arith) (ground arith) (λ n. ground (arith, n)) o

  Step-InOrder : (x y : System S) → Step lib ops x y → Protocol x.pc x.q → InOrder x → InOrder y
  unfolding thread_step
  Step-InOrder x y (produce buf size q' h' fits e same) p o =
      rw same (produced-InOrder x q' h' (add_data-incoming buf size x.q q' x.heap h' e) o)
  Step-InOrder x y (runs run e) p o = step_at-InOrder x.pc x y e p o
  Step-InOrder x y (calls c q' e same) p o =
      let kept = call-SameProtocol lib c x.q q' e in
      InOrder-same x y (ground (arith, kept.incoming, kept.outgoing)) (ground arith) (ground arith)
        (λ n. ground (arith, n)) o

  -- In every state that the capture callback, the processing thread and the calls of clients can
  -- reach from the constructor, before the destructor: the buffers that rounds of process_data
  -- took, followed by those that wait, are a sublist of the captured ones in the order of capture,
  -- and all of them as long as no queue overflowed. The calls of data_callback are one for each
  -- buffer taken and each client registered when its round began, in the order of the buffers and,
  -- for each, of the clients.
  pub Reach-InOrder :
      (q : QMgr) (s : S) (x : System S)
      → q_mgr lib ≡ ok q
      → Reach lib ops (launch q s) x
      → InOrder x
  unfolding q_mgr
  Reach-InOrder q s x new here =
      let none_yet : pending q ≡ [] = ground arith in
      record { sublist = rw none_yet (Sublist.refl []); complete = λ e. none_yet; delivered = refl }
  Reach-InOrder q s x new (next {y} r st) =
      Step-InOrder y x st (Reach-Protocol lib ops q s y new r) (Reach-InOrder q s y new r)
