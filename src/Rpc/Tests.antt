-- ===== src/Rpc/Tests.antt =====
-- Runs of the dispatcher: a counter with a method that adds one, and another that reads it.
use cdev.Base.{
  String, ℕ, ◌+◌, ◌≡◌, refl, Option, none, some, List, [], ◌∷◌, if◌then◌else◌, string_eq,
  string_discrete,
}
use cdev.Base.Text.{Text, codes, same, list_discrete}
use cdev.Rpc.{
  MessageId, string_id, number_id, pos, Request, Outcome, returned, failed, version, new_error,
  internal_error_code,
}
use cdev.Rpc.Registry.{Registry, Handler, Middleware, new_registry, register, use_middleware, get}
use cdev.Rpc.Dispatch.{Json, handle_message, handle_elements}
use cdev.Rpc.Wrapped.{
  around, Call, registers, uses, unregisters, clears, perform_all, added, registered,
  get-outermost_first,
}
use cdev.Rpc.Replies.{reply_ids, message_ids, handle_message-ids}
use cdev.Rpc.Batches.{one_by_one, handle_elements-one_by_one}

abbrev bump : Handler ℕ ℕ
bump n params = (n + 1, (some n, none))

abbrev refuse : Handler ℕ ℕ
refuse n params = (n, (none, some (new_error internal_error_code "no")))

abbrev doubled : Middleware ℕ ℕ
doubled h n params = h (h n params).0 params

abbrev from_ten : Middleware ℕ ℕ
from_ten h n params = h 10 params

unfoldable registry : Registry ℕ ℕ String
registry = use_middleware (use_middleware (register new_registry "bump" bump) doubled) from_ten

abbrev request : Option MessageId → String → Request
request id method = record { jsonrpc = version; id = id; method = method; params = none }

unfoldable decode : Text → Outcome Request
decode bytes =
    if same bytes (codes "b1")
    then returned (request (some (string_id "1")) "bump")
    else if same bytes (codes "b")
    then returned (request none "bump")
    else if same bytes (codes "x2")
    then returned (request (some (number_id (pos 2))) "x")
    else failed "not JSON"

abbrev elements : List Text
elements = codes "b1" ∷ codes "b" ∷ codes "?" ∷ codes "x2" ∷ []

abbrev json : Json ℕ
json = record {
  unmarshal_request = decode;
  unmarshal_batch = λ bytes. returned elements;
  marshal = λ n. returned (n ∷ []);
}

-- The method is registered twice, and one middleware is added before it and one after.
abbrev calls : List (Call ℕ ℕ String)
calls =
    uses doubled
    ∷ registers "bump" refuse
    ∷ clears
    ∷ uses doubled
    ∷ registers "bump" bump
    ∷ uses from_ten
    ∷ unregisters "x"
    ∷ []

get-outermost_first_example :
    get (perform_all new_registry calls) "bump"
    ≡ around (added calls) (registered "bump" none calls)
get-outermost_first_example = get-outermost_first calls "bump"

around-calls : around (added calls) (registered "bump" none calls) ≡ some (doubled (from_ten bump))
unfolding string_discrete
around-calls = refl

handle_message-ids_example :
    reply_ids (handle_message json registry 0 (codes "[b1,b,?,x2]")).1
    ≡ message_ids json registry (codes "[b1,b,?,x2]")
handle_message-ids_example = handle_message-ids json registry 0 (codes "[b1,b,?,x2]")

-- The notification is not answered, the element that is no JSON is.
batch_ids :
    message_ids json registry (codes "[b1,b,?,x2]")
    ≡ some (string_id "1") ∷ none ∷ some (number_id (pos 2)) ∷ []
unfolding message_ids decode same list_discrete string_discrete
batch_ids = refl

handle_elements-one_by_one_example :
    handle_elements json registry 0 elements ≡ one_by_one json registry 0 elements
handle_elements-one_by_one_example = handle_elements-one_by_one json registry 0 elements
