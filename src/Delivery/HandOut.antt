-- ===== src/Delivery/HandOut.antt =====
-- src/modules/telegram/delivery_queue.rs: how often a delivery is handed out.
use im_bridge_rs.Common.{
  ℕ, ◌+◌, ◌≤◌, String, Option, none, some, List, [], ◌∷◌, ◌≡◌, refl, str_eq, arith, if◌then◌else◌,
}
use im_bridge_rs.Delivery.{PendingDelivery, Deliveries, take_id, enqueue_pending, forget_pending}

pub data PendingEvent : Type 0 where
  enqueues : PendingDelivery → PendingEvent
  -- the second step of `take_due` or `take_due_for`, with the id that the first step has found
  takes : String → PendingEvent
  forgets : String → PendingEvent

-- The deliveries that wait, and those that were handed out.
pub record Handling : Type 0 where
  pub waiting : Deliveries
  pub handed : List PendingDelivery

abbrev listed : Option PendingDelivery → List PendingDelivery → List PendingDelivery
listed none ps = ps
listed (some p) ps = p ∷ ps

unfoldable pub handle : PendingEvent → Handling → Handling
unfolding take_id enqueue_pending
handle (enqueues p) h = record h { waiting = enqueue_pending p h.waiting }
handle (takes id) h = record {
  waiting = (take_id id h.waiting).1;
  handed = listed (take_id id h.waiting).0 h.handed;
}
handle (forgets id) h = record h { waiting = forget_pending id h.waiting }

unfoldable pub handle_all : List PendingEvent → Handling → Handling
unfolding handle
handle_all [] h = h
handle_all (e ∷ es) h = handle_all es (handle e h)

unfoldable pub times_in : String → List PendingDelivery → ℕ
times_in id [] = 0
times_in id (p ∷ ps) = (if str_eq p.delivery_id id then 1 else 0) + times_in id ps

abbrev pub times_enqueued : String → List PendingEvent → ℕ
times_enqueued id [] = 0
times_enqueued id (enqueues p ∷ es) =
    (if str_eq p.delivery_id id then 1 else 0) + times_enqueued id es
times_enqueued id (e ∷ es) = times_enqueued id es

-- Taking a delivery moves it, whatever is taken.
take_id-times_in :
    (id q : String) (ps : Deliveries)
    → times_in id (listed (take_id q ps).0 []) + times_in id (take_id q ps).1 ≡ times_in id ps
unfolding take_id times_in
take_id-times_in id q [] = refl
take_id-times_in id q (p ∷ ps) = ground (arith, take_id-times_in id q ps)

times_in-listed :
    (id : String) (o : Option PendingDelivery) (ps : List PendingDelivery)
    → times_in id (listed o ps) ≡ times_in id (listed o []) + times_in id ps
unfolding times_in
times_in-listed id none ps = omega arith
times_in-listed id (some p) ps = omega arith

handle_all-times_in :
    (id : String) (es : List PendingEvent) (h : Handling)
    → times_in id (handle_all es h).handed + times_in id (handle_all es h).waiting
      ≤ times_in id h.handed + times_in id h.waiting + times_enqueued id es
unfolding handle_all handle enqueue_pending times_in
handle_all-times_in id [] h = omega arith
handle_all-times_in id (enqueues p ∷ es) h = omega (
  arith,
  handle_all-times_in id es (handle (enqueues p) h),
  take_id-times_in id p.delivery_id h.waiting,
)
handle_all-times_in id (takes q ∷ es) h = omega (
  arith,
  handle_all-times_in id es (handle (takes q) h),
  take_id-times_in id q h.waiting,
  times_in-listed id (take_id q h.waiting).0 h.handed,
)
handle_all-times_in id (forgets q ∷ es) h =
    omega (arith, handle_all-times_in id es (handle (forgets q) h), take_id-times_in id q h.waiting)

-- However calls of enqueue_pending, take_due, take_due_for and forget_pending interleave, a delivery
-- is handed out at most as often as it was enqueued.
pub handed_out_lem :
    (id : String) (es : List PendingEvent)
    → times_in id (handle_all es (record { waiting = []; handed = [] })).handed
      ≤ times_enqueued id es
unfolding times_in
handed_out_lem id es =
    omega (arith, handle_all-times_in id es (record { waiting = []; handed = [] }))
