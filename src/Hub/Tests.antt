-- ===== src/Hub/Tests.antt =====
-- A hub with one subscriber that keeps up and one that is full.
use cdev.Base.{List, none, false, true, ◌≡◌, refl, [], ◌∷◌, some, arith, string_eq, string_discrete}
use cdev.Base.Map.{lookup}
use cdev.Hub.{Event, new_channel_subscriber, Hub, deliver}
use cdev.Hub.Filter.{
  FilteredSubscriber, new_filtered_subscriber, set_session_focus, included, should_forward,
  is_permission_event,
}
use cdev.Hub.Seen.{Call, subscribes, focuses, unfocuses_if, sends, perform_all, seen, new-seen}
use cdev.Hub.Deliver.{reached, deliver_lem, deliver_each, lookup-deliver_each}

abbrev change : Event
change = record { type = "file_changed"; workspace_id = "w1" }

abbrev crowd : Hub
crowd = record {
  subscribers = ("a", new_channel_subscriber "a" 2) ∷ ("b", new_channel_subscriber "b" 0) ∷ [];
  broadcast = [];
  running = true;
  closed_ones = [];
}

deliver_lem_example :
    lookup "b" (deliver crowd change).subscribers ≡ reached change (lookup "b" crowd.subscribers)
unfolding lookup string_discrete
deliver_lem_example = deliver_lem crowd change "b" (refl, (refl, tt))

lookup-deliver_each_example :
    lookup "a" (deliver_each crowd (change ∷ change ∷ [])).subscribers
    ≡ some (record (new_channel_subscriber "a" 2) { sent = change ∷ change ∷ [] })
unfolding lookup string_discrete
lookup-deliver_each_example =
    lookup-deliver_each crowd (change ∷ change ∷ []) "a" (new_channel_subscriber "a" 2)
      (refl, (refl, tt)) refl refl (omega arith)

-- A client that asks for one workspace, looks at another and no longer.
abbrev calls : List Call
calls =
    sends change
    ∷ subscribes "w1"
    ∷ focuses "w2" "s1"
    ∷ sends change
    ∷ sends (record { type = "pty_permission"; workspace_id = "w1" })
    ∷ unfocuses_if "w2"
    ∷ sends (record { type = "pty_permission"; workspace_id = "w1" })
    ∷ sends (record { type = "file_changed"; workspace_id = "w2" })
    ∷ []

new-seen_example :
    (perform_all (new_filtered_subscriber (new_channel_subscriber "c" 8)) calls).inner.sent
    ≡ seen [] none calls
new-seen_example = new-seen "c" 8 calls (omega arith)

seen_calls :
    seen [] none calls
    ≡ change ∷ change ∷ record { type = "pty_permission"; workspace_id = "w1" } ∷ []
unfolding string_discrete
seen_calls = refl

-- A client that asked for one workspace and looks at it.
abbrev phone : FilteredSubscriber
phone =
    set_session_focus
      (record (new_filtered_subscriber (new_channel_subscriber "c" 2)) {
        workspaces = ("w1", included) ∷ [];
      })
      "w1" "s1"

-- A permission event of another workspace is not sent, one of no workspace is.
not_sent :
    (should_forward phone (record { type = "pty_permission"; workspace_id = "w2" }) ≡ false)
    × (should_forward phone (record { type = "pty_permission"; workspace_id = "" }) ≡ true)
unfolding should_forward lookup string_discrete is_permission_event
not_sent = (refl, refl)
