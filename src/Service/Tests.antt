-- ===== src/Service/Tests.antt =====
-- A queue manager with a music id client and an IP output client, at concrete inputs.
use rdk_audiocapturemgr.Prelude.{ℕ, ◌≡◌, refl, [], ◌∷◌, true, ok, arith}
use rdk_audiocapturemgr.Prelude.Int.{negsuc}
use rdk_audiocapturemgr.Buffer.Refs.{refs}
use rdk_audiocapturemgr.Buffer.{Heap}
use rdk_audiocapturemgr.QMgr.{QMgr}
use rdk_audiocapturemgr.QMgr.Clients.{mem}
use rdk_audiocapturemgr.QMgr.Flush.{is_live}
use rdk_audiocapturemgr.QMgr.Delivery.{process_data}
use rdk_audiocapturemgr.QMgr.Tests.{busy, heap}
use rdk_audiocapturemgr.Music.ClipTests.{client}
use rdk_audiocapturemgr.IpOut.Tests.{streaming}
use rdk_audiocapturemgr.Service.{Clients, service_ops}
use rdk_audiocapturemgr.Service.Queue.{process_data-queue}

abbrev both : Clients
both = record { music = record client { queue = [] }; outputs = λ c. streaming }

abbrev served : QMgr
served = record busy { clients = 8 ∷ 9 ∷ []; num_clients = 2 }

-- Every write fails.
process_data-queue_example :
    (h' : Heap) × (s' : Clients) × (process_data (service_ops 8 (λ p o. negsuc 0)) served heap both
      ≡ ok (record served { outgoing = [] }, h', s'))
    × (s'.music.queue ≡ served.outgoing)
    × ((p : ℕ) → mem p served.outgoing ≡ true → (refs h' p ≡ 1) × (is_live (h'.cell p) ≡ true))
process_data-queue_example =
    process_data-queue 8 (λ p o. negsuc 0) served heap both (refl, tt) (refl, tt) (refl, (refl, tt))
      refl (omega arith) (omega arith) (λ p m. refl)
