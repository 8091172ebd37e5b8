-- ===== src/Daemon/Objects.antt =====
-- What the creation, the calls and the deletion of clients keep true.
use rdk_audiocapturemgr.Prelude.{
  ℕ, ◌≤◌, ◌≡◌, ◌∙◌, suc, refl, Option, none, some, List, [], ◌++◌, Bool, true, false, Result, ok,
  arith,
}
use rdk_audiocapturemgr.Prelude.Int.{ℤ, pos, ltb_ℤ}
use rdk_audiocapturemgr.Audio.{u32}
use rdk_audiocapturemgr.Buffer.{Heap}
use rdk_audiocapturemgr.QMgr.Clients.{mem}
use rdk_audiocapturemgr.QMgr.Flush.{is_live, mem-concat}
use rdk_audiocapturemgr.Socket.{bound}
use rdk_audiocapturemgr.IpOut.{IpOutClient, ip_out_client, close_output, close_socket}
use rdk_audiocapturemgr.Music.{MusicIdClient, socket_output, enable_output_conversion}
use rdk_audiocapturemgr.Music.Creation.{music_id_client-IsOwner}
use rdk_audiocapturemgr.Music.Ending.{destroy}
use rdk_audiocapturemgr.Music.Freed.{Freed, release_all-Freed}
use rdk_audiocapturemgr.Music.Owner.{IsOwner, IsOwner-same}
use rdk_audiocapturemgr.Daemon.{
  Daemon, Outside, MusicObject, Object, music, ip_out, put, new_music, create_client, create_ip_out,
  delete_found, destroy_object,
}
use rdk_audiocapturemgr.Daemon.Messages.{call_music}
use rdk_audiocapturemgr.Daemon.Populated.{
  Populated, Changed, InOrder, put_kind, kind_of, queue_of, put-Populated,
}

-- The outside gives a socket, and binds it wherever it is asked to.
pub record Works (o : Outside) : Type 0 where
  pub socket : ltb_ℤ o.fd (pos 0) ≡ false
  pub binds : (path : List ℕ) → o.ip_bind path ≡ bound

no_object : (x : Option Object) → kind_of x ≡ none → x ≡ none
no_object none e = refl
no_object (some (music m)) e = cc
no_object (some (ip_out o)) e = cc

-- A new object, where there was none, without buffers.
new-Changed :
    (old : Option Object) (new : Object) (h h' : Heap)
    → kind_of old ≡ none
    → ((p : ℕ) → h'.cell p ≡ h.cell p)
    → queue_of (some new) ≡ []
    → InOrder h' (some new)
    → Changed old (some new) h h'
new-Changed old new h h' unused same empty fine = record {
  fine = fine;
  fewer = λ p m. rw empty refl;
  kept = λ p m. same p;
  gone = λ p m n. let absent = no_object old unused in absurd (ground (arith, absent, m));
}

opened-joinable :
    (o : Outside) (ticker : ℕ) → Works o → (ip_out_client o.ip_bind o.fd ticker).1.joinable ≡ true
unfolding ip_out_client
opened-joinable o ticker works = rw (works.socket, works.binds) refl

-- A client that is created at the next address.
pub create_client-Populated :
    (o : Outside) (k : Bool) (d : Daemon) (kinds : ℕ → Option Bool)
    → Works o
    → d.mgr.sources.bytes_per_second ≤ 864000
    → kinds d.mgr.next_client ≡ none
    → Populated kinds d.objects d.heap
    → (d' : Daemon) × (create_client o k d ≡ ok d')
      × (d'.mgr ≡ d.mgr)
      × Populated (put_kind d.mgr.next_client (some k) kinds) d'.objects d'.heap
unfolding create_client enable_output_conversion
create_client-Populated o true d kinds works rate unused v =
    let (m, h', runs, empty, same, owner) =
      music_id_client-IsOwner d.mgr.sources.bytes_per_second socket_output d.heap rate in
    let a : ℕ = d.mgr.next_client in
    let object : Object = music (new_music o d m) in
    let fine : IsOwner h' (enable_output_conversion o.converts m) =
      IsOwner-same h' m (enable_output_conversion o.converts m) refl refl refl refl refl owner in
    (
      record d {
        objects = put a (some object) d.objects;
        heap = h';
        music_ticker = u32 (suc d.music_ticker);
      },
      rw runs refl,
      refl,
      put-Populated kinds d.objects d.heap h' a (some object) v
          (new-Changed (d.objects a) object d.heap h' (v.typed a ∙ unused) same empty fine),
    )
create_client-Populated o false d kinds works rate unused v =
    let a : ℕ = d.mgr.next_client in
    let object : Object = ip_out (ip_out_client o.ip_bind o.fd d.ip_ticker).1 in
    (
      create_ip_out o d,
      refl,
      refl,
      put-Populated kinds d.objects d.heap d.heap a (some object) v (
          new-Changed (d.objects a) object d.heap d.heap (v.typed a ∙ unused) (λ p. refl) refl
            (opened-joinable o d.ip_ticker works)),
    )

closes :
    (sent : Bool) (o : IpOutClient)
    → o.joinable ≡ true
    → (o' : IpOutClient) × (close_output sent o ≡ ok o')
unfolding close_output
closes true o joinable =
    (close_socket (record o { exits = suc o.exits; joinable = false }), rw joinable refl)
closes false o joinable = (close_socket o, refl)

-- A client that is deleted: its object and the buffers of its queue go, and nothing else does.
pub delete_found-Populated :
    (sent : Bool) (a : ℕ) (d : Daemon) (kinds : ℕ → Option Bool) (k : Bool) (x : Option Object)
    → d.objects a ≡ x
    → kinds a ≡ some k
    → Populated kinds d.objects d.heap
    → (h' : Heap) × (delete_found sent a x d
        ≡ ok (record d { objects = put a none d.objects; heap = h' }))
      × Freed (queue_of x) d.heap h'
      × Populated (put_kind a none kinds) (put a none d.objects) h'
unfolding delete_found destroy destroy_object
delete_found-Populated sent a d kinds k none e here v = absurd (ground (arith, here, v.typed a, e))
delete_found-Populated sent a d kinds k (some (music m)) e here v =
    let (h', runs, freed) = release_all-Freed m.client.queue d.heap (v.owners a m e).sole in
    (
      h',
      rw runs refl,
      freed,
      put-Populated kinds d.objects d.heap h' a none v (record {
        fine = tt;
        fewer = λ p n. refl;
        kept = λ p n. freed.kept p (rw e at n);
        gone = λ p n l. rw (freed.gone p (rw e at n)) refl;
      }),
    )
delete_found-Populated sent a d kinds k (some (ip_out c)) e here v =
    let (c', closed) = closes sent c (v.threads a c e) in
    (
      d.heap,
      rw closed refl,
      record { gone = λ p m. cc; kept = λ p m. refl; next_kept = refl },
      put-Populated kinds d.objects d.heap d.heap a none v (record {
        fine = tt;
        fewer = λ p n. refl;
        kept = λ p n. refl;
        gone = λ p n l. absurd (ground (arith, e, n));
      }),
    )

-- What a call of a music id client may do: some buffers leave its queue and are deleted.
abbrev pub Calls : (MusicObject → Heap → Result (MusicIdClient × Heap × ℤ)) → Type 0
Calls call =
    (m : MusicObject) (h : Heap)
    → IsOwner h m.client
    → (client : MusicIdClient) × (h' : Heap) × (dropped : List ℕ) × (ret : ℤ) × (call m h
        ≡ ok (client, h', ret))
      × (m.client.queue ≡ dropped ++ client.queue)
      × Freed dropped h h'
      × IsOwner h' client

-- The buffers that a queue has lost are among those deleted.
lost-gone :
    (dropped queue : List ℕ) (h h' : Heap) (p : ℕ)
    → Freed dropped h h'
    → mem p (dropped ++ queue) ≡ true
    → mem p queue ≡ false
    → is_live (h'.cell p) ≡ false
lost-gone dropped queue h h' p freed was lost =
    ground (arith, freed.gone p, mem-concat p dropped queue, was, lost)

pub call_music-Populated :
    (a : ℕ) (call : MusicObject → Heap → Result (MusicIdClient × Heap × ℤ)) (d : Daemon)
    (kinds : ℕ → Option Bool) (x : Option Object)
    → Calls call
    → d.objects a ≡ x
    → kinds a ≡ some true
    → Populated kinds d.objects d.heap
    → (new : MusicObject) × (h' : Heap) × (ret : ℤ) × (call_music a call x d
        ≡ ok (record d { objects = put a (some (music new)) d.objects; heap = h' }, ret))
      × Populated (put_kind a (some true) kinds) (put a (some (music new)) d.objects) h'
unfolding call_music
call_music-Populated a call d kinds none calls e here v =
    absurd (ground (arith, here, v.typed a, e))
call_music-Populated a call d kinds (some (ip_out o)) calls e here v =
    absurd (ground (arith, here, v.typed a, e))
call_music-Populated a call d kinds (some (music m)) calls e here v =
    let (client, h', dropped, ret, returns, split, freed, owner) =
      calls m d.heap (v.owners a m e) in
    let new : MusicObject = record m { client = client } in
    let joined : queue_of (d.objects a) ≡ dropped ++ client.queue = rw e split in
    (
      new,
      h',
      ret,
      rw returns refl,
      put-Populated kinds d.objects d.heap h' a (some (music new)) v (record {
        fine = owner;
        fewer = λ p n. ground (arith, mem-concat p dropped client.queue, rw joined at n);
        kept =
            λ p n. freed.kept p (ground (arith, mem-concat p dropped client.queue, rw joined at n));
        gone = λ p n l. lost-gone dropped client.queue d.heap h' p freed (rw joined at n) l;
      }),
    )
