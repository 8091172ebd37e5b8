-- ===== src/IpOut/Worker.antt =====
-- src/ip_out.cpp: the worker thread, which waits for connections and for the EXIT message.
use rdk_audiocapturemgr.Prelude.{suc, List, [], ◌∷◌, Bool, true, false, ◌==◌, if◌then◌else◌}
use rdk_audiocapturemgr.Prelude.Int.{ℤ, pos, ltb_ℤ}
use rdk_audiocapturemgr.Audio.{u32}
use rdk_audiocapturemgr.Socket.{is_open, open_fd}
use rdk_audiocapturemgr.Socket.Worker.{Selected}
use rdk_audiocapturemgr.IpOut.{IpOutClient, drop_connection}

-- `accepted` is what `accept` returns.
unfoldable pub process_new_connection : ℤ → IpOutClient → IpOutClient
unfolding drop_connection
process_new_connection accepted o =
    let o' : IpOutClient = if is_open o.write_fd then drop_connection o else o in
    record o' {
      write_fd = accepted;
      opened = open_fd accepted o'.opened;
      num_connections =
          if ltb_ℤ accepted (pos 0) then o'.num_connections else u32 (suc o'.num_connections);
    }

-- One round of the loop; it says whether the loop goes on.
unfoldable pub round : Selected → IpOutClient → IpOutClient × Bool
unfolding process_new_connection
round e o =
    if ltb_ℤ e.ret (pos 0)
    then (o, false)
    else (if ltb_ℤ (pos 0) e.ret
        then (if o.exits == 0
            then (if e.connects then process_new_connection e.accepted o else o, true)
            else (o, false))
        else (o, true))

-- The loop over the returns from `select`; it says whether the thread is still there.
unfoldable pub worker_thread : List Selected → IpOutClient → IpOutClient × Bool
unfolding round
worker_thread [] o = (o, true)
worker_thread (e ∷ es) o =
    let rest = worker_thread es (round e o).0 in if (round e o).1 then rest else round e o
