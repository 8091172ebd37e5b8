-- ===== src/Socket/Worker.antt =====
-- src/socket_adaptor.cpp: the worker thread, which waits for connections and control messages. The
-- callback is a parameter that acts on the adaptor and on the state of its owner.
use rdk_audiocapturemgr.Prelude.{
  List, [], ◌∷◌, Option, none, some, Bool, true, false, ◌==◌, if◌then◌else◌, ℕ,
}
use rdk_audiocapturemgr.Prelude.Int.{ℤ, pos, ltb_ℤ}
use rdk_audiocapturemgr.Socket.{Adaptor, ControlCode, exit, new_callback, accept_connection}

-- A return from `select`: its result, whether a connection waits, and what `accept` then returns. The
-- control pipe is ready exactly if it holds a message.
pub record Selected : Type 0 where
  pub ret : ℤ
  pub connects : Bool
  pub accepted : ℤ

module _ {S : Type 0} (call : ℕ → Adaptor × S → Adaptor × S) where
  abbrev pub call_back : Option ℕ → Adaptor × S → Adaptor × S
  call_back none x = x
  call_back (some d) x = call d x

  unfoldable pub process_new_connection : ℤ → Adaptor × S → Adaptor × S
  process_new_connection accepted x =
      let a : Adaptor = accept_connection accepted x.0 in call_back a.callback (a, x.1)

  -- `process_control_message` for NEW_CALLBACK; no other message but EXIT is sent.
  unfoldable pub process_new_callback : Adaptor × S → Adaptor × S
  process_new_callback x = if x.0.num_connections == 0 then x else call_back x.0.callback x

  -- One round of the loop, where `message` is the content of the control pipe. It says whether the loop
  -- goes on.
  unfoldable pub dispatch : List ControlCode → Selected → Adaptor × S → (Adaptor × S) × Bool
  unfolding process_new_connection process_new_callback
  dispatch [] e x = (if e.connects then process_new_connection e.accepted x else x, true)
  dispatch (exit ∷ rest) e x = ((record (x.0) { control = rest }, x.1), false)
  dispatch (new_callback ∷ rest) e x =
      let x' = process_new_callback (record (x.0) { control = rest }, x.1) in
      (if e.connects then process_new_connection e.accepted x' else x', true)

  unfoldable pub round : Selected → Adaptor × S → (Adaptor × S) × Bool
  unfolding dispatch
  round e x =
      if ltb_ℤ e.ret (pos 0)
      then (x, false)
      else (if ltb_ℤ (pos 0) e.ret then dispatch x.0.control e x else (x, true))

  -- The loop over the returns from `select`; it says whether the thread is still there.
  unfoldable pub worker_thread : List Selected → Adaptor × S → (Adaptor × S) × Bool
  unfolding round
  worker_thread [] x = (x, true)
  worker_thread (e ∷ es) x = elim ((round e x).1) [
    | true ↦ worker_thread es (round e x).0
    | false ↦ round e x
  ]
