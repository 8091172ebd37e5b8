-- ===== src/QMgr/ThreadTests.antt =====
-- The processing thread with captured blocks and a client, and the theorems about it on these states.
use rdk_audiocapturemgr.QMgr.Thread.{
  System, Pc, head, draining, checking, blocked, woken, launch, produced, Reach, here, next, runs,
  produce, thread_step, can_run, calls, logged,
}
use rdk_audiocapturemgr.QMgr.Wakeup.{no_lost_wakeup, swap_loses_nothing}
use rdk_audiocapturemgr.QMgr.Fifo.{InOrder, Reach-InOrder}
use rdk_audiocapturemgr.QMgr.BaseClient.{base_client, release_buffer}
use rdk_audiocapturemgr.QMgr.Delivery.{process_data, deliver, deliver_all, update_buffer_references}
use rdk_audiocapturemgr.Prelude.{◌≡◌, ◌≢◌, refl, none, some, [], ◌∷◌, true, ok, arith}
use rdk_audiocapturemgr.Prelude.Int.{pos}
use rdk_audiocapturemgr.Buffer.{
  Heap, set_ref_audio_buffer, unref_audio_buffer, update, create_new_audio_buffer,
}
use rdk_audiocapturemgr.QMgr.{
  QMgr, swap_queues, flush_queue, add_data, limit_incoming, notify_data_ready,
}
use rdk_audiocapturemgr.QMgr.Clients.{register_client}
use rdk_audiocapturemgr.QMgr.Registry.{registers, call}
use rdk_audiocapturemgr.QMgr.Tests.{fresh, library, fresh_runs}

-- The processing thread comes up, finds nothing, and waits; then a block of data is captured.
abbrev launched_system : System (Unit {0})
launched_system = launch fresh tt

abbrev alive : QMgr
alive = record fresh { processing_thread_alive = true }

abbrev at : Pc → System (Unit {0})
at pc = record launched_system { q = alive; pc = pc }

abbrev waiting : System (Unit {0})
waiting = record launched_system { q = record alive { notify_new_data = true }; pc = blocked }

abbrev heap_one : Heap
heap_one = record {
  next = 1;
  cell =
      update launched_system.heap.cell 0
        (some (record { bytes = 7 ∷ 8 ∷ []; size = 2; clip_length = 0; refcount = 0 }));
}

abbrev q_one : QMgr
q_one = record alive { incoming = 0 ∷ []; sem = 1; inflow_byte_counter = 2 }

abbrev captured : System (Unit {0})
captured = produced waiting q_one heap_one

waiting_adds : add_data (7 ∷ 8 ∷ []) 2 waiting.q waiting.heap ≡ ok (q_one, heap_one)
unfolding add_data limit_incoming notify_data_ready create_new_audio_buffer
waiting_adds = refl

Reach-captured : Reach library base_client launched_system captured
unfolding thread_step
Reach-captured =
    next {y = waiting}
      (next {y = at checking}
        (next {y = at draining} (next {y = at head} (next here (runs refl refl)) (runs refl refl))
          (runs refl refl))
        (runs refl refl))
      (produce (7 ∷ 8 ∷ []) 2 q_one heap_one (omega arith) waiting_adds refl)

no_lost_wakeup_example : can_run captured.pc captured.q ≡ true
no_lost_wakeup_example =
    (no_lost_wakeup library base_client fresh tt captured fresh_runs Reach-captured refl).0
      (λ e. cc)

-- The thread wakes up.
abbrev awake : System (Unit {0})
awake = record captured { q = record q_one { sem = 0 }; pc = woken }

Reach-awake : Reach library base_client launched_system awake
unfolding thread_step
Reach-awake = next {y = captured} Reach-captured (runs refl refl)

swap_loses_nothing_example : (awake.q.outgoing ≡ []) × (awake.q.incoming ≢ [])
swap_loses_nothing_example =
    (swap_loses_nothing library base_client fresh tt awake fresh_runs Reach-awake).1 refl

-- A client is registered, and the thread swaps the queues and hands it the buffer.
abbrev heard : System (Unit {0})
heard = record awake { q = (register_client (pos 0) 2 awake.q).0 }

abbrev swapped : System (Unit {0})
swapped = record heard { q = record heard.q { incoming = []; outgoing = 0 ∷ [] }; pc = head }

-- The buffer has a reference for the client, which gives it up.
abbrev delivered : System (Unit {0})
delivered = record swapped {
  q = record swapped.q { outgoing = [] };
  heap = record heap_one {
    cell =
        update
          (update heap_one.cell 0
            (some (record { bytes = 7 ∷ 8 ∷ []; size = 2; clip_length = 0; refcount = 1 })))
          0 none;
  };
  pc = draining;
  taken = 0 ∷ [];
  called = (2, 0) ∷ [];
  due = (2, 0) ∷ [];
}

Reach-swapped : Reach library base_client launched_system swapped
unfolding thread_step call register_client swap_queues flush_queue
Reach-swapped =
    next {y = heard} (next {y = awake} Reach-awake (calls (registers (pos 0) 2) heard.q refl refl))
      (runs refl refl)

Reach-delivered : Reach library base_client launched_system delivered
unfolding thread_step process_data deliver_all deliver update_buffer_references set_ref_audio_buffer
    release_buffer unref_audio_buffer logged register_client
Reach-delivered =
    next {y = record swapped { pc = draining }} (next {y = swapped} Reach-swapped (runs refl refl))
      (runs refl refl)

Reach-InOrder_example : InOrder delivered
Reach-InOrder_example =
    Reach-InOrder library base_client fresh tt delivered fresh_runs Reach-delivered
