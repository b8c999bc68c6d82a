-- ===== src/Hub/Deliver.antt =====
-- Who gets an event, and who is removed (hub.go).
use cdev.Base.{
  String, ◌+◌, ◌≤◌, ◌≡◌, refl, ap, ◌∙◌, Bool, true, false, not, List, [], ◌∷◌, ◌++◌, Option, none,
  some, arith, if◌then◌else◌, leb, ◌||◌, length, length-append, ite, string_eq, string_discrete,
}
use mathlib.Core.List.{append-nil, append_assoc}
use cdev.Base.Map.{Map, lookup, Distinct, erase-Distinct, lookup-erase}
use cdev.Hub.{Event, ChannelSubscriber, send, Hub, unregister, send_all, remove_failed, deliver}

abbrev pub mentions : String → List String → Bool
mentions w [] = false
mentions w (x ∷ xs) = ite (string_discrete x w) true (mentions w xs)

abbrev after_send : Event → Option ChannelSubscriber → Option ChannelSubscriber
after_send event none = none
after_send event (some s) = some (send s event).0

abbrev fails : Event → Option ChannelSubscriber → Bool
fails event none = false
fails event (some s) = not (send s event).1

lookup-send_all :
    (event : Event) (m : Map String ChannelSubscriber) (id : String)
    → lookup id (send_all event m).0 ≡ after_send event (lookup id m)
unfolding lookup send_all
lookup-send_all event [] id = refl
lookup-send_all event ((j, s) ∷ m) id = ground (arith, lookup-send_all event m id)

failed-missing :
    (event : Event) (m : Map String ChannelSubscriber) (id : String)
    → lookup id m ≡ none
    → mentions id (send_all event m).1 ≡ false
unfolding lookup send_all
failed-missing event [] id h = refl
failed-missing event ((j, s) ∷ m) id h = ground (arith, failed-missing event m id)

failed-fails :
    (event : Event) (m : Map String ChannelSubscriber) (id : String)
    → Distinct m
    → mentions id (send_all event m).1 ≡ fails event (lookup id m)
unfolding lookup send_all
failed-fails event [] id d = refl
failed-fails event ((j, s) ∷ m) id d =
    ground (arith, failed-fails event m id d.1, failed-missing event m id)

lookup-unregister :
    (h : Hub) (j id : String)
    → lookup id (unregister h j).subscribers
      ≡ ite (string_discrete j id) none (lookup id h.subscribers)
unfolding unregister
lookup-unregister h j id = ground (arith, lookup-erase j id h.subscribers)

lookup-remove_failed :
    (h : Hub) (ids : List String) (id : String)
    → lookup id (remove_failed h ids).subscribers
      ≡ (if mentions id ids then none else lookup id h.subscribers)
unfolding remove_failed
lookup-remove_failed h [] id = refl
lookup-remove_failed h (j ∷ ids) id =
    ground (arith, lookup-remove_failed (unregister h j) ids id, lookup-unregister h j id)

-- What should be left of a subscriber after an event: nothing if it is closed or holds as many
-- events as its buffer has places, and otherwise the subscriber with the event as its last.
abbrev pub reached : Event → Option ChannelSubscriber → Option ChannelSubscriber
reached event none = none
reached event (some s) =
    if s.closed || leb s.buffer_size (length s.sent)
    then none
    else some (record s { sent = s.sent ++ event ∷ [] })

-- With distinct subscriber ids, an event reaches every subscriber: one that is open and has room
-- keeps it after what it had, one that is closed or whose buffer is full is removed, and no other
-- appears.
pub deliver_lem :
    (h : Hub) (event : Event) (id : String)
    → Distinct h.subscribers
    → lookup id (deliver h event).subscribers ≡ reached event (lookup id h.subscribers)
unfolding deliver
deliver_lem h event id d =
    let subs = (send_all event h.subscribers).0 in
    ground (
      arith,
      lookup-remove_failed (record h { subscribers = subs }) (send_all event h.subscribers).1 id,
      lookup-send_all event h.subscribers id,
      failed-fails event h.subscribers id d,
    )

send_all-Distinct :
    (event : Event) (m : Map String ChannelSubscriber) → Distinct m → Distinct (send_all event m).0
unfolding send_all
send_all-Distinct event [] d = tt
send_all-Distinct event ((j, s) ∷ m) d =
    (lookup-send_all event m j ∙ ap (after_send event) d.0, send_all-Distinct event m d.1)

unregister-Distinct :
    (h : Hub) (j : String) (o : Option ChannelSubscriber)
    → lookup j h.subscribers ≡ o
    → Distinct h.subscribers
    → Distinct (unregister h j).subscribers
unfolding unregister
unregister-Distinct h j none e d = rw (e) d
unregister-Distinct h j (some s) e d = rw (e) (erase-Distinct j h.subscribers d)

remove_failed-Distinct :
    (h : Hub) (ids : List String)
    → Distinct h.subscribers
    → Distinct (remove_failed h ids).subscribers
unfolding remove_failed
remove_failed-Distinct h [] d = d
remove_failed-Distinct h (j ∷ ids) d =
    remove_failed-Distinct (unregister h j) ids (unregister-Distinct h j _ refl d)

deliver-Distinct :
    (h : Hub) (event : Event) → Distinct h.subscribers → Distinct (deliver h event).subscribers
unfolding deliver
deliver-Distinct h event d =
    remove_failed-Distinct _ (send_all event h.subscribers).1
      (send_all-Distinct event h.subscribers d)

-- The turns of the main loop that take these events.
abbrev pub deliver_each : Hub → List Event → Hub
deliver_each h [] = h
deliver_each h (event ∷ events) = deliver_each (deliver h event) events

-- A subscriber that is open and has room for all of a run of events gets all of them, in order and
-- once, whatever the other subscribers do with them. The subscriber ids are distinct.
pub lookup-deliver_each :
    (h : Hub) (events : List Event) (id : String) (s : ChannelSubscriber)
    → Distinct h.subscribers
    → lookup id h.subscribers ≡ some s
    → s.closed ≡ false
    → length s.sent + length events ≤ s.buffer_size
    → lookup id (deliver_each h events).subscribers ≡ some (record s { sent = s.sent ++ events })
lookup-deliver_each h [] id s d at open_one room = at ∙ rw (append-nil s.sent) refl
lookup-deliver_each h (event ∷ events) id s d at open_one room =
    let s' : ChannelSubscriber = record s { sent = s.sent ++ event ∷ [] } in
    let there : lookup id (deliver h event).subscribers ≡ some s' =
      deliver_lem h event id d ∙ ground (arith, at, open_one, room) in
    lookup-deliver_each (deliver h event) events id s' (deliver-Distinct h event d) there open_one
      (omega (arith, length-append s.sent (event ∷ []), room))
    ∙ rw (append_assoc s.sent (event ∷ []) events) refl
