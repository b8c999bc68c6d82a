-- ===== src/Hub.antt =====
-- internal/hub/hub.go and subscriber.go: events go to every subscriber, and one that does not keep
-- up is closed and removed. Each case of the main loop is one step. The subscribers are channel
-- subscribers; those that were closed are kept in a list.
pub mod Deliver
pub mod Filter
pub mod Seen
mod Tests
use cdev.Base.{
  String, ℕ, Bool, true, false, List, [], ◌∷◌, ◌++◌, Option, none, some, ltb, if◌then◌else◌, length,
  string_eq,
}
use cdev.Base.Map.{Map, lookup, insert, erase}

-- BaseEvent: what the hub and its filters read of an event.
pub record Event : Type 0 where
  pub type : String
  pub workspace_id : String

pub record ChannelSubscriber : Type 0 where
  pub id : String
  pub buffer_size : ℕ
  pub sent : List Event
  pub closed : Bool

-- NewChannelSubscriber
abbrev pub new_channel_subscriber : String → ℕ → ChannelSubscriber
new_channel_subscriber id buffer_size = record {
  id = id;
  buffer_size = buffer_size;
  sent = [];
  closed = false;
}

-- ChannelSubscriber.Send: false is ErrSubscriberClosed. Nobody receives meanwhile, so a channel
-- without a buffer takes nothing.
abbrev pub send : ChannelSubscriber → Event → ChannelSubscriber × Bool
send s event =
    if s.closed
    then (s, false)
    else (if ltb (length s.sent) s.buffer_size
        then (record s { sent = s.sent ++ event ∷ [] }, true)
        else (s, false))

-- ChannelSubscriber.Close
abbrev pub close : ChannelSubscriber → ChannelSubscriber
close s = record s { closed = true }

pub record Hub : Type 0 where
  pub subscribers : Map String ChannelSubscriber
  pub broadcast : List Event
  pub running : Bool
  pub closed_ones : List ChannelSubscriber

-- New
unfoldable pub new_hub : Hub
new_hub = record { subscribers = []; broadcast = []; running = false; closed_ones = [] }

-- Publish: the channel holds 256 events
unfoldable pub publish : Hub → Event → Hub
publish h event =
    if ltb (length h.broadcast) 256 then record h { broadcast = h.broadcast ++ event ∷ [] } else h

-- case sub := <-h.register
unfoldable pub register : Hub → ChannelSubscriber → Hub
register h sub = record h { subscribers = insert sub.id sub h.subscribers }

abbrev drop_found : Hub → String → Option ChannelSubscriber → Hub
drop_found h id none = h
drop_found h id (some sub) = record h {
  subscribers = erase id h.subscribers;
  closed_ones = close sub ∷ h.closed_ones;
}

-- case id := <-h.unregister
unfoldable pub unregister : Hub → String → Hub
unregister h id = drop_found h id (lookup id h.subscribers)

-- The loop that sends: the subscribers after it, and the ids whose Send failed
unfoldable pub send_all :
    Event → Map String ChannelSubscriber → Map String ChannelSubscriber × List String
send_all event [] = ([], [])
send_all event ((id, s) ∷ m) =
    let (rest, failed) = send_all event m in
    let (s', delivered) = send s event in
    ((id, s') ∷ rest, if delivered then failed else id ∷ failed)

-- The loop that removes.
unfoldable pub remove_failed : Hub → List String → Hub
remove_failed h [] = h
remove_failed h (id ∷ ids) = remove_failed (unregister h id) ids

-- case event := <-h.broadcast
unfoldable pub deliver : Hub → Event → Hub
deliver h event =
    let (subs, failed) = send_all event h.subscribers in
    remove_failed (record h { subscribers = subs }) failed

abbrev pub take_event : Hub → List Event → Hub
take_event h [] = h
take_event h (event ∷ rest) = deliver (record h { broadcast = rest }) event

-- One turn of the loop that takes an event from the channel, if there is one.
abbrev pub turn : Hub → Hub
turn h = take_event h h.broadcast

abbrev close_all : Map String ChannelSubscriber → List ChannelSubscriber → List ChannelSubscriber
close_all [] rest = rest
close_all ((_, s) ∷ m) rest = close s ∷ close_all m rest

-- Stop
unfoldable pub stop_hub : Hub → Hub
stop_hub h =
    if h.running
    then record h {
      running = false;
      subscribers = [];
      closed_ones = close_all h.subscribers h.closed_ones;
    }
    else h
