-- ===== src/Hub/Seen.antt =====
-- What a client behind a filter sees of the events (internal/hub/filter.go), by the workspaces that
-- it asked for and the one that it looks at.
use cdev.Base.{
  is_empty, String, ℕ, ◌+◌, ◌≤◌, ◌≡◌, refl, sym, ◌∙◌, ap, Bool, true, false, ◌&&◌, ◌||◌, List, [],
  ◌∷◌, ◌++◌, Option, none, some, is_some, if◌then◌else◌, ite, length, length-append, Bool-cases,
  inl, inr, arith, string_discrete, string_eq,
}
use mathlib.Core.List.{append-nil, append_assoc}
use cdev.Base.Map.{Map, lookup, insert, erase}
use cdev.Hub.{Event, ChannelSubscriber, new_channel_subscriber, send}
use cdev.Hub.Deliver.{mentions}
use cdev.Hub.Filter.{
  Included, included, FilteredSubscriber, new_filtered_subscriber, is, is_permission_event,
  should_forward, send_filtered, subscribe_workspace, unsubscribe_workspace, subscribe_all, keys,
  set_session_focus, clear_session_focus, clear_session_focus_if_workspace,
}

-- A call of the client, or an event that the hub sends to it.
pub data Call : Type 0 where
  subscribes unsubscribes : String → Call
  subscribes_all : Call
  focuses : String → String → Call
  unfocuses : Call
  unfocuses_if : String → Call
  sends : Event → Call

abbrev pub perform : FilteredSubscriber → Call → FilteredSubscriber
perform f (subscribes w) = subscribe_workspace f w
perform f (unsubscribes w) = unsubscribe_workspace f w
perform f subscribes_all = subscribe_all f
perform f (focuses w session) = set_session_focus f w session
perform f unfocuses = clear_session_focus f
perform f (unfocuses_if w) = (clear_session_focus_if_workspace f w).0
perform f (sends event) = (send_filtered f event).0

abbrev pub perform_all : FilteredSubscriber → List Call → FilteredSubscriber
perform_all f [] = f
perform_all f (c ∷ cs) = perform_all (perform f c) cs

abbrev with_one : String → List String → List String
with_one w [] = w ∷ []
with_one w (v ∷ vs) = ite (string_discrete v w) (v ∷ vs) (v ∷ with_one w vs)

abbrev without : String → List String → List String
without w [] = []
without w (v ∷ vs) = ite (string_discrete v w) (without w vs) (v ∷ without w vs)

-- A client that looks at a workspace is not told of the permissions of another one.
abbrev tells : Option String → String → String → Bool
tells none type workspace_id = true
tells (some w) type workspace_id =
    if is type "pty_permission" || is type "pty_permission_resolved"
    then is workspace_id w
    else true

-- Whether a client should see an event, that asked for these workspaces (for all, if there are none)
-- and looks at this one (at none): an event of no workspace, or one of a workspace it asked for,
-- which, if it is about a permission, is the one it looks at.
abbrev pub sees : List String → Option String → Event → Bool
sees asked look event =
    is event.workspace_id ""
    || ((is_empty asked || mentions event.workspace_id asked)
        && tells look event.type event.workspace_id)

abbrev without_look : String → Option String → Option String
without_look w none = none
without_look w (some v) = if is w "" then some v else if is v w then none else some v

-- The events that a client should see of these calls.
abbrev pub seen : List String → Option String → List Call → List Event
seen asked look [] = []
seen asked look (subscribes w ∷ cs) = seen (with_one w asked) look cs
seen asked look (unsubscribes w ∷ cs) = seen (without w asked) look cs
seen asked look (subscribes_all ∷ cs) = seen [] look cs
seen asked look (focuses w session ∷ cs) = seen asked (some w) cs
seen asked look (unfocuses ∷ cs) = seen asked none cs
seen asked look (unfocuses_if w ∷ cs) = seen asked (without_look w look) cs
seen asked look (sends event ∷ cs) =
    if sees asked look event then event ∷ seen asked look cs else seen asked look cs

abbrev look_of : FilteredSubscriber → Option String
look_of f = if f.has_focus then some f.focused_workspace_id else none

keys-insert :
    (w : String) (m : Map String Included) → keys (insert w included m) ≡ with_one w (keys m)
unfolding keys insert
keys-insert w [] = refl
keys-insert w ((v, x) ∷ m) = ground (arith, keys-insert w m)

keys-erase : (w : String) (m : Map String Included) → keys (erase w m) ≡ without w (keys m)
unfolding keys erase
keys-erase w [] = refl
keys-erase w ((v, x) ∷ m) = ground (arith, keys-erase w m)

keys-mentions : (w : String) (m : Map String Included) → is_some (lookup w m) ≡ mentions w (keys m)
unfolding keys lookup
keys-mentions w [] = refl
keys-mentions w ((v, x) ∷ m) = ground (arith, keys-mentions w m)

no_keys : keys [] ≡ []
unfolding keys
no_keys = refl

keys-is_empty : (m : Map String Included) → is_empty (keys m) ≡ is_empty m
unfolding keys
keys-is_empty [] = refl
keys-is_empty (x ∷ m) = refl

should_forward-sees :
    (f : FilteredSubscriber) (event : Event)
    → should_forward f event ≡ sees (keys f.workspaces) (look_of f) event
unfolding should_forward is_permission_event
should_forward-sees f event =
    ground (arith, keys-mentions event.workspace_id f.workspaces, keys-is_empty f.workspaces)

unfocuses_if-look :
    (f : FilteredSubscriber) (w : String)
    → look_of (clear_session_focus_if_workspace f w).0 ≡ without_look w (look_of f)
unfolding clear_session_focus_if_workspace
unfocuses_if-look f w = ground arith

unfocuses_if-rest :
    (f : FilteredSubscriber) (w : String)
    → ((clear_session_focus_if_workspace f w).0.inner ≡ f.inner)
      × ((clear_session_focus_if_workspace f w).0.workspaces ≡ f.workspaces)
unfolding clear_session_focus_if_workspace
unfocuses_if-rest f w = ground arith

-- The inner subscriber after more events.
abbrev got : ChannelSubscriber → List Event → ChannelSubscriber
got s events = record s { sent = s.sent ++ events }

send-got :
    (s : ChannelSubscriber) (event : Event)
    → s.closed ≡ false
    → length s.sent + 1 ≤ s.buffer_size
    → (send s event).0 ≡ got s (event ∷ [])
send-got s event open_one room = ground (arith, open_one, room)

sends-inner :
    (f : FilteredSubscriber) (event : Event)
    → f.inner.closed ≡ false
    → length f.inner.sent + 1 ≤ f.inner.buffer_size
    → (send_filtered f event).0 ≡ (
        if sees (keys f.workspaces) (look_of f) event
        then record f { inner = got f.inner (event ∷ []) }
        else f)
unfolding send_filtered
sends-inner f event open_one room =
    rw⁻¹ (should_forward-sees f event) (elim (Bool-cases (should_forward f event)) [
      | inl e ↦ rw (e) (ap (λ s. record f { inner = s }) (send-got f.inner event open_one room))
      | inr e ↦ rw (e) refl
    ])

got-first :
    (s : ChannelSubscriber) (event : Event) (events : List Event)
    → got (got s (event ∷ [])) events ≡ got s (event ∷ events)
got-first s event events =
    ap (λ xs. record s { sent = xs }) (append_assoc s.sent (event ∷ []) events)

-- An event that passes, or does not, before the rest of the calls.
sends-seen :
    (b : Bool) (f : FilteredSubscriber) (event : Event) (cs : List Call)
    → let rest = seen (keys f.workspaces) (look_of f) cs in
      let f' : FilteredSubscriber = record f { inner = got f.inner (event ∷ []) } in
      (perform_all f' cs).inner ≡ got f'.inner rest
      → (perform_all f cs).inner ≡ got f.inner rest
      → (perform_all (if b then f' else f) cs).inner
        ≡ got f.inner (if b then event ∷ rest else rest)
sends-seen true f event cs h k =
    h ∙ got-first f.inner event (seen (keys f.workspaces) (look_of f) cs)
sends-seen false f event cs h k = k

perform_all-seen :
    (f : FilteredSubscriber) (cs : List Call)
    → f.inner.closed ≡ false
    → length f.inner.sent + length cs ≤ f.inner.buffer_size
    → (perform_all f cs).inner ≡ got f.inner (seen (keys f.workspaces) (look_of f) cs)
unfolding subscribe_workspace unsubscribe_workspace
perform_all-seen f [] open_one room =
    ap (λ xs. record f.inner { sent = xs }) (sym (append-nil f.inner.sent))
perform_all-seen f (subscribes w ∷ cs) open_one room =
    perform_all-seen (subscribe_workspace f w) cs open_one (omega (arith, room))
    ∙ ap (λ ks. got f.inner (seen ks (look_of f) cs)) (keys-insert w f.workspaces)
perform_all-seen f (unsubscribes w ∷ cs) open_one room =
    perform_all-seen (unsubscribe_workspace f w) cs open_one (omega (arith, room))
    ∙ ap (λ ks. got f.inner (seen ks (look_of f) cs)) (keys-erase w f.workspaces)
perform_all-seen f (subscribes_all ∷ cs) open_one room =
    perform_all-seen (subscribe_all f) cs open_one (omega (arith, room))
    ∙ ap (λ ks. got f.inner (seen ks (look_of f) cs)) no_keys
perform_all-seen f (focuses w session ∷ cs) open_one room =
    perform_all-seen (set_session_focus f w session) cs open_one (omega (arith, room))
perform_all-seen f (unfocuses ∷ cs) open_one room =
    perform_all-seen (clear_session_focus f) cs open_one (omega (arith, room))
perform_all-seen f (unfocuses_if w ∷ cs) open_one room =
    let (inner, workspaces) = unfocuses_if-rest f w in
    perform_all-seen (clear_session_focus_if_workspace f w).0 cs (rw (inner) open_one)
      (rw (inner) (omega (arith, room)))
    ∙ rw (inner, workspaces, unfocuses_if-look f w) refl
perform_all-seen f (sends event ∷ cs) open_one room =
    ap (λ g. (perform_all g cs).inner) (sends-inner f event open_one (omega (arith, room)))
    ∙ sends-seen (sees (keys f.workspaces) (look_of f) event) f event cs
        (perform_all-seen (record f { inner = got f.inner (event ∷ []) }) cs open_one
          (omega (arith, length-append f.inner.sent (event ∷ []), room)))
        (perform_all-seen f cs open_one (omega (arith, room)))

-- A new client behind a filter, whose buffer has a place for each of the calls that follow, gets
-- exactly the events it should see, in order and once. These are the events of no workspace, and
-- those of the workspaces that it asked for when the event came (of all, if there were none), but
-- pty_permission and pty_permission_resolved only of the one it looked at then, if it did.
pub new-seen :
    (id : String) (buffer_size : ℕ) (calls : List Call)
    → length calls ≤ buffer_size
    → (perform_all
        (new_filtered_subscriber (new_channel_subscriber id buffer_size))
        calls).inner.sent
      ≡ seen [] none calls
unfolding keys
new-seen id buffer_size calls room =
    ap (λ (s : ChannelSubscriber). s.sent)
      (perform_all-seen (new_filtered_subscriber (new_channel_subscriber id buffer_size)) calls refl
        (omega (arith, room)))
