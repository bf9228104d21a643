-- ===== src/RetransmitQueue/Expiry.antt =====
-- What `expireOld` removes.
use signalk_edge_link.Prelude.{ℕ, ◌+◌, ◌≡◌, Bool, ltb, length}
use signalk_edge_link.JsMap
use signalk_edge_link.JsMap.{keys, reject}
use signalk_edge_link.JsMap.Laws.{survivor, get-reject_by}
use signalk_edge_link.RetransmitQueue.{QueueEntry, RetransmitQueue, expire_old}
use signalk_edge_link.RetransmitQueue.Size.{IsValid, remove_where_lem}

-- `expireOld` removes exactly the entries that were enqueued more than `maxAge` before now, leaves every
-- other entry as it was, and returns how many it removed.
pub expire_old-exact :
    (q : RetransmitQueue) (max_age now k : ℕ)
    → IsValid q
    → (JsMap.get (expire_old q max_age now).1.queue k
        ≡ survivor (λ e. ltb (e.original_timestamp + max_age) now) (JsMap.get q.queue k))
      × ((expire_old q max_age now).0 + length (expire_old q max_age now).1.queue ≡ length q.queue)
unfolding expire_old
expire_old-exact q max_age now k v =
    let test : QueueEntry → Bool = λ e. ltb (e.original_timestamp + max_age) now in
    let (e, n) = remove_where_lem (λ s x. test x) q v.distinct in
    (rw e (get-reject_by test q.queue k v.distinct), n)
