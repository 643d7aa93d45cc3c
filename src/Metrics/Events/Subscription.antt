-- ===== src/Metrics/Events/Subscription.antt =====
-- What a slow client loses: the bounded queue of backend/app/metrics/events.py.
use mathlib.Core.List.{append_assoc, append-nil}
use mathlib.Core.List.Sublist
use mathlib.Core.List.{Sublist}
use meshtastic_lab.Base.{
  ℕ, zero, suc, ◌+◌, ◌-◌, ◌≤◌, ◌<◌, ◌≡◌, inl, inr, refl, sym, ap, ◌∙◌, Bool, true, false, not, ◌&&◌,
  List, [], ◌∷◌, ◌++◌, Option, none, some, arith, ltb, length, drop, Bool-cases, length-append,
  length-drop, drop-append, subst,
}
use meshtastic_lab.Metrics.Events.{Detail, PacketEvent, EventSubscription, full, offer, next}

-- A bounded queue that is not over its bound.
pub record IsBounded (s : EventSubscription) : Type 0 where
  pub positive : 0 < s.maxsize
  pub within : length s.queue ≤ s.maxsize

abbrev pub offer_all : List PacketEvent → EventSubscription → EventSubscription
offer_all [] s = s
offer_all (e ∷ es) s = offer_all es (offer e s)

-- How many events do not fit.
abbrev pub overflow : EventSubscription → List PacketEvent → ℕ
overflow s es = length s.queue + length es - s.maxsize

drop-drop : (a b : ℕ) (xs : List PacketEvent) → drop a (drop b xs) ≡ drop (b + a) xs
drop-drop a zero xs = let e : zero + a ≡ a = omega arith in rw e
drop-drop a (suc b) [] = let e : suc b + a ≡ suc (b + a) = omega arith in rw e (drop_nil a)
  where
    drop_nil : (k : ℕ) → drop {A = PacketEvent} k [] ≡ []
    drop_nil zero = refl
    drop_nil (suc k) = refl
drop-drop a (suc b) (x ∷ xs) =
    let e : suc b + a ≡ suc (b + a) = omega arith in rw e (drop-drop a b xs)

record Offered (s : EventSubscription) (e : PacketEvent) (t : EventSubscription) : Type 0 where
  kept : t.queue ≡ drop (overflow s (e ∷ [])) (s.queue ++ (e ∷ []))
  lost : t.dropped ≡ s.dropped + overflow s (e ∷ [])
  same_bound : t.maxsize ≡ s.maxsize
  size : length t.queue ≡ length s.queue + 1 - overflow s (e ∷ [])

offer-Offered : (s : EventSubscription) (e : PacketEvent) → IsBounded s → Offered s e (offer e s)
unfolding offer
offer-Offered s e v = elim (Bool-cases (full s)) [
  | inl at_bound ↦
      let one : overflow s (e ∷ []) ≡ 1 = ground (arith, v.positive, v.within) in
      let some_held : 1 ≤ length s.queue = ground (arith, v.positive) in
      rw (at_bound, offer)
        (record {
          kept = rw one (sym (drop-append 1 s.queue (e ∷ []) some_held));
          lost = omega (arith, one);
          same_bound = refl;
          size = omega (arith, one, length-append (drop 1 s.queue) (e ∷ []), length-drop 1 s.queue);
        })
  | inr room ↦
      let fits : overflow s (e ∷ []) ≡ 0 = ground (arith, v.positive, v.within) in
      rw (room, offer)
        (record {
          kept = rw fits refl;
          lost = omega (arith, fits);
          same_bound = refl;
          size = omega (arith, fits, length-append s.queue (e ∷ []));
        })
]

-- Of a queue of a positive size that is within it: whatever was published while the client read
-- nothing, the queue holds the newest `maxsize` events in order, and `dropped` grew by exactly the
-- number of the older ones.
pub offer_all-newest :
    (s : EventSubscription) (es : List PacketEvent)
    → IsBounded s
    → ((offer_all es s).queue ≡ drop (overflow s es) (s.queue ++ es))
      × ((offer_all es s).dropped ≡ s.dropped + overflow s es)
offer_all-newest s [] v =
    let fits : overflow s [] ≡ 0 = omega (arith, v.within) in
    rw fits (sym (append-nil s.queue), omega arith)
offer_all-newest s (e ∷ es) v =
    let t = offer e s in
    let h = offer-Offered s e v in
    let held : IsBounded t = record {
      positive = omega (arith, v.positive, h.same_bound);
      within = omega (arith, v.within, h.same_bound, h.size);
    } in
    let (kept, lost) = offer_all-newest t es held in
    let first : ℕ = overflow s (e ∷ []) in
    let total : first + overflow t es ≡ overflow s (e ∷ es) =
      omega (arith, v.within, h.same_bound, h.size) in
    let room : first ≤ length (s.queue ++ (e ∷ [])) =
      omega (arith, v.positive, length-append s.queue (e ∷ [])) in
    (
      kept
          ∙ ap (λ q. drop (overflow t es) (q ++ es)) h.kept
          ∙ ap (drop (overflow t es)) (sym (drop-append first (s.queue ++ (e ∷ [])) es room))
          ∙ drop-drop (overflow t es) first _
          ∙ ap (λ n. drop n ((s.queue ++ (e ∷ [])) ++ es)) total
          ∙ ap (drop (overflow s (e ∷ es))) (append_assoc s.queue (e ∷ []) es),
      omega (arith, lost, h.lost, total),
    )

-- A history of one subscription: events published to it, and reads by its client.
pub data Action : Type 0 where
  offers : PacketEvent → Action
  reads : ℕ → Action

-- What the client got: the events, and the total that the drop notices tell.
pub record Served : Type 0 where
  pub events : List PacketEvent
  pub reported : ℕ
  pub left : EventSubscription

-- The number of lost events that an event tells the client.
abbrev pub reported_by : PacketEvent → ℕ
reported_by e = elim e.detail [
  | none ↦ 0
  | some detail ↦ elim detail [ Detail.events_dropped lost ↦ lost | _ ↦ 0 ]
]

-- A read was either a drop notice or an event.
abbrev tally : Bool → PacketEvent → Served → Served
tally true e r = record r { reported = reported_by e + r.reported }
tally false e r = record r { events = e ∷ r.events }

-- A read that finds nothing leaves the subscription as it was.
unfoldable pub serve : EventSubscription → List Action → Served
serve s [] = record { events = []; reported = 0; left = s }
serve s (offers e ∷ acts) = serve (offer e s) acts
serve s (reads now ∷ acts) = elim (next now s) [
  | none ↦ serve s acts
  | some (e, t) ↦ tally t.delivered_drop_notice_last e (serve t acts)
]

abbrev pub published : List Action → List PacketEvent
published [] = []
published (offers e ∷ acts) = e ∷ published acts
published (reads now ∷ acts) = published acts

-- The three ways a read ends.
data ReadCase (s : EventSubscription) : Option (PacketEvent × EventSubscription) → Type 0 where
  waits : ReadCase s none
  notified :
      {e : PacketEvent} {t : EventSubscription}
      → t.delivered_drop_notice_last ≡ true
      → t.queue ≡ s.queue
      → t.dropped ≡ 0
      → reported_by e ≡ s.dropped
      → ReadCase s (some (e, t))
  received :
      {e : PacketEvent} {t : EventSubscription}
      → t.delivered_drop_notice_last ≡ false
      → s.queue ≡ e ∷ t.queue
      → t.dropped ≡ s.dropped
      → ReadCase s (some (e, t))

next-ReadCase : (now : ℕ) (s : EventSubscription) → ReadCase s (next now s)
unfolding next
next-ReadCase now s = elim (Bool-cases (ltb 0 s.dropped && not s.delivered_drop_notice_last)) [
  | inl e ↦ rw e (notified refl refl refl refl)
  | inr e ↦ rw e (go s.queue refl)
]
  where
    go :
        (q : List PacketEvent)
        → s.queue ≡ q
        → ReadCase s (elim q [
          | [] ↦ none
          | event ∷ rest ↦
              some (event, record s { queue = rest; delivered_drop_notice_last = false })
        ])
    go [] h = waits
    go (x ∷ q) h = received refl h refl

record Accounted (s : EventSubscription) (es : List PacketEvent) (r : Served) : Type 0 where
  in_order : Sublist (r.events ++ r.left.queue) (s.queue ++ es)
  counted :
      r.reported + r.left.dropped + length r.events + length r.left.queue
      ≡ s.dropped + length s.queue + length es

drop_one-sublist : (xs : List PacketEvent) → Sublist (drop 1 xs) xs
drop_one-sublist [] = Sublist.refl []
drop_one-sublist (x ∷ xs) = Sublist.cons x (Sublist.refl xs)

offer-sublist :
    (s : EventSubscription) (e : PacketEvent) → Sublist (offer e s).queue (s.queue ++ (e ∷ []))
unfolding offer
offer-sublist s e = elim (Bool-cases (full s)) [
  | inl at_bound ↦
      rw (at_bound, offer) (Sublist.append (drop_one-sublist s.queue) (Sublist.refl (e ∷ [])))
  | inr room ↦ rw (room, offer) (Sublist.refl (s.queue ++ (e ∷ [])))
]

offer_counts :
    (s : EventSubscription) (e : PacketEvent)
    → (offer e s).dropped + length (offer e s).queue ≡ s.dropped + length s.queue + 1
unfolding offer
offer_counts s e = ground (
  arith,
  length-append (drop 1 s.queue) (e ∷ []),
  length-append s.queue (e ∷ []),
  length-drop 1 s.queue,
)

after_read :
    (s : EventSubscription) (now : ℕ) (acts : List Action)
    (o : Option (PacketEvent × EventSubscription))
    → next now s ≡ o
    → ReadCase s o
    → ((t : EventSubscription) → Accounted t (published acts) (serve t acts))
    → Accounted s (published acts) (serve s (reads now ∷ acts))
unfolding serve
after_read s now acts none e waits rec = rw (e, serve) (rec s)
after_read s now acts (some (x, t)) e (notified flag same zeroed told) rec =
    let h = rec t in
    rw (e, serve)
      (subst (λ f. Accounted s (published acts) (tally f x (serve t acts))) (sym flag)
        (record {
          in_order =
              subst
                (λ q.
                  Sublist ((serve t acts).events ++ (serve t acts).left.queue)
                    (q ++ published acts))
                same h.in_order;
          counted = omega (arith, h.counted, zeroed, told, ap length same);
        }))
after_read s now acts (some (x, t)) e (received flag split same) rec =
    let h = rec t in
    rw (e, serve)
      (subst (λ f. Accounted s (published acts) (tally f x (serve t acts))) (sym flag)
        (record {
          in_order = rw split (Sublist.cons-cons x h.in_order);
          counted = omega (arith, h.counted, same, ap length split);
        }))

serve-Accounted :
    (s : EventSubscription) (acts : List Action) → Accounted s (published acts) (serve s acts)
unfolding serve
serve-Accounted s [] = record {
  in_order = rw (append-nil s.queue) (Sublist.refl s.queue);
  counted = omega arith;
}
serve-Accounted s (offers e ∷ acts) =
    let h = serve-Accounted (offer e s) acts in
    record {
      in_order = Sublist.trans h.in_order (
          subst (λ q. Sublist ((offer e s).queue ++ published acts) q)
            (append_assoc s.queue (e ∷ []) (published acts))
            (Sublist.append (offer-sublist s e) (Sublist.refl (published acts))));
      counted = omega (arith, h.counted, offer_counts s e);
    }
serve-Accounted s (reads now ∷ acts) =
    after_read s now acts (next now s) refl (next-ReadCase now s) (λ t. serve-Accounted t acts)

-- From an empty queue with nothing dropped, in any interleaving of publications and reads: what
-- the client got and what is still queued is what was published, in order and none of it twice,
-- less some events; and the number of those is the total that the drop notices tell the client and
-- the counter still to be reported.
pub serve_accounts :
    (s : EventSubscription) (acts : List Action)
    → s.queue ≡ []
    → s.dropped ≡ 0
    → Sublist ((serve s acts).events ++ (serve s acts).left.queue) (published acts)
      × ((serve s acts).reported
            + (serve s acts).left.dropped
            + length ((serve s acts).events ++ (serve s acts).left.queue)
          ≡ length (published acts))
serve_accounts s acts empty fresh =
    let h = serve-Accounted s acts in
    (
      subst
          (λ q. Sublist ((serve s acts).events ++ (serve s acts).left.queue) (q ++ published acts))
          empty h.in_order,
      omega (
        arith,
        h.counted,
        fresh,
        ap length empty,
        length-append (serve s acts).events (serve s acts).left.queue,
      ),
    )
