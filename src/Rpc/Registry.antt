-- ===== src/Rpc/Registry.antt =====
-- internal/rpc/handler/registry.go: the methods and the middleware around them. A handler reads and
-- changes the state S of the services behind it; its result is of a type V. The metadata of a
-- method is of a type D, with what MethodMeta{Summary: method} is.
use cdev.Base.{
  String, ℕ, zero, suc, Option, none, some, List, [], ◌∷◌, ◌++◌, Bool, is_some, length, string_eq,
}
use cdev.Base.Map.{Map, lookup, insert, erase}
use cdev.Base.Text.{Text}
use cdev.Rpc.{RpcError}

abbrev or_else {ℓ} : {A : Type ℓ} → A → Option A → A
or_else d none = d
or_else d (some m) = m

unfoldable pub keys {ℓ} : {A : Type ℓ} → List (String × A) → List String
keys [] = []
keys ((k, _) ∷ m) = k ∷ keys m

module _ {ℓ} {A : Type ℓ} where
  -- handler = r.middleware[i](handler)
  abbrev pub apply_at : List (A → A) → ℕ → A → A
  apply_at [] i h = h
  apply_at (mw ∷ mws) zero h = mw h
  apply_at (mw ∷ mws) (suc i) h = apply_at mws i h

  -- The loop of Get; the number counts the middleware that is still to be applied, and is at most
  -- the length of the list.
  unfoldable pub wrap_from : ℕ → List (A → A) → A → A
  wrap_from zero mws handler = handler
  wrap_from (suc i) mws handler = wrap_from i mws (apply_at mws i handler)

  abbrev pub wrapped : List (A → A) → Option A → Option A
  wrapped mws none = none
  wrapped mws (some handler) = some (wrap_from (length mws) mws handler)

module _ (S V : Type 0) where
  -- HandlerFunc
  abbrev pub Handler : Type 0
  Handler = S → Option Text → S × (Option V × Option RpcError)

  -- MiddlewareFunc
  abbrev pub Middleware : Type 0
  Middleware = Handler → Handler

pub record Registry (S V D : Type 0) : Type 0 where
  pub handlers : Map String (Handler S V)
  pub meta : Map String D
  pub middleware : List (Middleware S V)

module _ {S V D : Type 0} where
  -- NewRegistry
  unfoldable pub new_registry : Registry S V D
  new_registry = record { handlers = []; meta = []; middleware = [] }

  -- Register
  unfoldable pub register : Registry S V D → String → Handler S V → Registry S V D
  register r method handler = record r { handlers = insert method handler r.handlers }

  -- RegisterWithMeta
  unfoldable pub register_with_meta : Registry S V D → String → Handler S V → D → Registry S V D
  register_with_meta r method handler meta = record r {
    handlers = insert method handler r.handlers;
    meta = insert method meta r.meta;
  }

  -- GetMeta
  unfoldable pub get_meta : (String → D) → Registry S V D → String → D
  get_meta summary r method = or_else (summary method) (lookup method r.meta)

  -- RegisterAll
  unfoldable pub register_all : Registry S V D → Map String (Handler S V) → Registry S V D
  register_all r [] = r
  register_all r ((method, handler) ∷ m) =
      register_all (record r { handlers = insert method handler r.handlers }) m

  -- Use
  unfoldable pub use_middleware : Registry S V D → Middleware S V → Registry S V D
  use_middleware r mw = record r { middleware = r.middleware ++ mw ∷ [] }

  -- Get
  unfoldable pub get : Registry S V D → String → Option (Handler S V)
  get r method = wrapped r.middleware (lookup method r.handlers)

  -- Has
  unfoldable pub has : Registry S V D → String → Bool
  has r method = is_some (lookup method r.handlers)

  -- Methods
  abbrev pub methods : Registry S V D → List String
  methods r = keys r.handlers

  -- Unregister
  unfoldable pub unregister : Registry S V D → String → Registry S V D
  unregister r method = record r { handlers = erase method r.handlers }

  -- Clear
  unfoldable pub clear : Registry S V D → Registry S V D
  clear r = record r { handlers = []; middleware = [] }
