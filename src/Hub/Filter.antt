-- ===== src/Hub/Filter.antt =====
-- internal/hub/filter.go: a subscriber that gets only the events of the workspaces it asked for, and
-- permission events only of the workspace it looks at. The set of workspaces is a map to units.
use cdev.Base.{
  is_empty, String, Bool, true, false, not, ◌&&◌, ◌||◌, List, [], ◌∷◌, is_some, if◌then◌else◌, test,
  string_discrete, string_eq,
}
use cdev.Base.Map.{Map, lookup, insert, erase}
use cdev.Hub.{Event, ChannelSubscriber, send, close}

pub data Included : Type 0 where
  included : Included

pub record FilteredSubscriber : Type 0 where
  pub inner : ChannelSubscriber
  pub workspaces : Map String Included
  pub focused_workspace_id : String
  pub focused_session_id : String
  pub has_focus : Bool

-- NewFilteredSubscriber
abbrev pub new_filtered_subscriber : ChannelSubscriber → FilteredSubscriber
new_filtered_subscriber inner = record {
  inner = inner;
  workspaces = [];
  focused_workspace_id = "";
  focused_session_id = "";
  has_focus = false;
}

abbrev pub is : String → String → Bool
is s t = test (string_discrete s t)

-- isPermissionEvent
unfoldable pub is_permission_event : String → Bool
is_permission_event type = is type "pty_permission" || is type "pty_permission_resolved"

-- shouldForward
unfoldable pub should_forward : FilteredSubscriber → Event → Bool
should_forward f event =
    if not (is_empty f.workspaces)
      && (not (is event.workspace_id "") && not (is_some (lookup event.workspace_id f.workspaces)))
    then false
    else if f.has_focus
        && (is_permission_event event.type
            && (not (is event.workspace_id "")
                && not (is event.workspace_id f.focused_workspace_id)))
    then false
    else true

-- Send: true is a nil error
unfoldable pub send_filtered : FilteredSubscriber → Event → FilteredSubscriber × Bool
send_filtered f event =
    if should_forward f event
    then (let (inner, sent) = send f.inner event in (record f { inner = inner }, sent))
    else (f, true)

-- Close
abbrev pub close_filtered : FilteredSubscriber → FilteredSubscriber
close_filtered f = record f { inner = close f.inner }

-- SubscribeWorkspace
unfoldable pub subscribe_workspace : FilteredSubscriber → String → FilteredSubscriber
subscribe_workspace f workspace_id = record f {
  workspaces = insert workspace_id included f.workspaces;
}

-- UnsubscribeWorkspace
unfoldable pub unsubscribe_workspace : FilteredSubscriber → String → FilteredSubscriber
unsubscribe_workspace f workspace_id = record f { workspaces = erase workspace_id f.workspaces }

-- SubscribeAll
abbrev pub subscribe_all : FilteredSubscriber → FilteredSubscriber
subscribe_all f = record f { workspaces = [] }

unfoldable pub keys : Map String Included → List String
keys [] = []
keys ((id, _) ∷ m) = id ∷ keys m

-- GetSubscribedWorkspaces
abbrev pub get_subscribed_workspaces : FilteredSubscriber → List String
get_subscribed_workspaces f = keys f.workspaces

-- IsFiltering
abbrev pub is_filtering : FilteredSubscriber → Bool
is_filtering f = not (is_empty f.workspaces)

-- SetSessionFocus
abbrev pub set_session_focus : FilteredSubscriber → String → String → FilteredSubscriber
set_session_focus f workspace_id session_id = record f {
  focused_workspace_id = workspace_id;
  focused_session_id = session_id;
  has_focus = true;
}

-- ClearSessionFocus
abbrev pub clear_session_focus : FilteredSubscriber → FilteredSubscriber
clear_session_focus f = record f {
  focused_workspace_id = "";
  focused_session_id = "";
  has_focus = false;
}

-- ClearSessionFocusIfWorkspace
unfoldable pub clear_session_focus_if_workspace :
    FilteredSubscriber → String → FilteredSubscriber × Bool
clear_session_focus_if_workspace f workspace_id =
    if is workspace_id ""
    then (f, false)
    else if f.has_focus && is f.focused_workspace_id workspace_id
    then (clear_session_focus f, true)
    else (f, false)

-- GetFocusedSessionID
abbrev pub get_focused_session_id : FilteredSubscriber → String × Bool
get_focused_session_id f = (f.focused_session_id, f.has_focus)
