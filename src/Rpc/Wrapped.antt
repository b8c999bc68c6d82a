-- ===== src/Rpc/Wrapped.antt =====
-- Middleware around the handlers (internal/rpc/handler/registry.go).
use cdev.Base.{
  String, string_eq, ℕ, zero, suc, ◌≡◌, refl, sym, ◌∙◌, ap, Bool, true, false, Bool-cases, inl, inr,
  Option, none, some, List, [], ◌∷◌, ◌++◌, length, ite, if◌then◌else◌, string_discrete,
}
use mathlib.Core.List.{append-nil, append_assoc}
use cdev.Base.Map.{Map, lookup, insert, lookup-insert, lookup-erase}
use cdev.Rpc.Registry.{
  Handler, Middleware, Registry, new_registry, register, register_with_meta, register_all,
  use_middleware, unregister, clear, wrap_from, wrapped, apply_at, get,
}

-- The first of the list is on the outside.
abbrev pub outermost_first {ℓ} : {A : Type ℓ} → List (A → A) → A → A
outermost_first [] h = h
outermost_first (mw ∷ mws) h = mw (outermost_first mws h)

abbrev pub around {ℓ} : {A : Type ℓ} → List (A → A) → Option A → Option A
around mws none = none
around mws (some h) = some (outermost_first mws h)

module _ {ℓ} {A : Type ℓ} where
  wrap_from-suc :
      (i : ℕ) (mw : A → A) (mws : List (A → A)) (h : A)
      → wrap_from (suc i) (mw ∷ mws) h ≡ mw (wrap_from i mws h)
  unfolding wrap_from
  wrap_from-suc zero mw mws h = refl
  wrap_from-suc (suc i) mw mws h = wrap_from-suc i mw mws (apply_at mws i h)

  wrap_from-length :
      (mws : List (A → A)) (h : A) → wrap_from (length mws) mws h ≡ outermost_first mws h
  unfolding wrap_from
  wrap_from-length [] h = refl
  wrap_from-length (mw ∷ mws) h =
      wrap_from-suc (length mws) mw mws h ∙ ap mw (wrap_from-length mws h)

  wrapped-outermost : (mws : List (A → A)) (o : Option A) → wrapped mws o ≡ around mws o
  wrapped-outermost mws none = refl
  wrapped-outermost mws (some h) = ap some (wrap_from-length mws h)

get-around :
    {S V D : Type 0} (r : Registry S V D) (method : String)
    → get r method ≡ around r.middleware (lookup method r.handlers)
unfolding get
get-around r method = wrapped-outermost r.middleware (lookup method r.handlers)

-- The calls that set a registry up or change it later.
pub data Call (S V D : Type 0) : Type 0 where
  registers : String → Handler S V → Call S V D
  registers_with_meta : String → Handler S V → D → Call S V D
  registers_all : Map String (Handler S V) → Call S V D
  uses : Middleware S V → Call S V D
  unregisters : String → Call S V D
  clears : Call S V D

-- The handler of a method when a map of handlers comes over it.
abbrev over : {A : Type 0} → String → Option A → Map String A → Option A
over method o [] = o
over method o ((k, h) ∷ m) = over method (ite (string_discrete k method) (some h) o) m

nothing_before {ℓ} : {A : Type ℓ} (b : Bool) (xs : List A) → (if b then [] else []) ++ xs ≡ xs
nothing_before true xs = refl
nothing_before false xs = refl

module _ {S V D : Type 0} where
  abbrev pub perform : Registry S V D → Call S V D → Registry S V D
  perform r (registers method handler) = register r method handler
  perform r (registers_with_meta method handler meta) = register_with_meta r method handler meta
  perform r (registers_all m) = register_all r m
  perform r (uses mw) = use_middleware r mw
  perform r (unregisters method) = unregister r method
  perform r clears = clear r

  abbrev pub perform_all : Registry S V D → List (Call S V D) → Registry S V D
  perform_all r [] = r
  perform_all r (c ∷ cs) = perform_all (perform r c) cs

  -- The handler that a method should have after these calls.
  abbrev pub registered : String → Option (Handler S V) → List (Call S V D) → Option (Handler S V)
  registered method o [] = o
  registered method o (registers k h ∷ cs) =
      registered method (ite (string_discrete k method) (some h) o) cs
  registered method o (registers_with_meta k h _ ∷ cs) =
      registered method (ite (string_discrete k method) (some h) o) cs
  registered method o (registers_all m ∷ cs) = registered method (over method o m) cs
  registered method o (uses mw ∷ cs) = registered method o cs
  registered method o (unregisters k ∷ cs) =
      registered method (ite (string_discrete k method) none o) cs
  registered method o (clears ∷ cs) = registered method none cs

  abbrev pub is_cleared : List (Call S V D) → Bool
  is_cleared [] = false
  is_cleared (clears ∷ cs) = true
  is_cleared (c ∷ cs) = is_cleared cs

  -- The middleware of the calls that no Clear follows, in the order of the calls.
  abbrev pub added : List (Call S V D) → List (Middleware S V)
  added [] = []
  added (uses mw ∷ cs) = if is_cleared cs then added cs else mw ∷ added cs
  added (c ∷ cs) = added cs

  lookup-register_all :
      (r : Registry S V D) (m : Map String (Handler S V)) (method : String)
      → lookup method (register_all r m).handlers ≡ over method (lookup method r.handlers) m
  unfolding register_all
  lookup-register_all r [] method = refl
  lookup-register_all r ((k, h) ∷ m) method =
      lookup-register_all (record r { handlers = insert k h r.handlers }) m method
      ∙ ap (λ o. over method o m) (lookup-insert k method h r.handlers)

  register_all-middleware :
      (r : Registry S V D) (m : Map String (Handler S V))
      → (register_all r m).middleware ≡ r.middleware
  unfolding register_all
  register_all-middleware r [] = refl
  register_all-middleware r ((k, h) ∷ m) =
      register_all-middleware (record r { handlers = insert k h r.handlers }) m

  perform-registered :
      (r : Registry S V D) (c : Call S V D) (method : String)
      → lookup method (perform r c).handlers ≡ registered method (lookup method r.handlers) (c ∷ [])
  unfolding register register_with_meta use_middleware unregister clear lookup
  perform-registered r (registers k h) method = lookup-insert k method h r.handlers
  perform-registered r (registers_with_meta k h _) method = lookup-insert k method h r.handlers
  perform-registered r (registers_all m) method = lookup-register_all r m method
  perform-registered r (uses mw) method = refl
  perform-registered r (unregisters k) method = lookup-erase k method r.handlers
  perform-registered r clears method = refl

  registered-first :
      (method : String) (o : Option (Handler S V)) (c : Call S V D) (cs : List (Call S V D))
      → registered method o (c ∷ cs) ≡ registered method (registered method o (c ∷ [])) cs
  registered-first method o (registers k h) cs = refl
  registered-first method o (registers_with_meta k h _) cs = refl
  registered-first method o (registers_all m) cs = refl
  registered-first method o (uses mw) cs = refl
  registered-first method o (unregisters k) cs = refl
  registered-first method o clears cs = refl

  perform_all-registered :
      (r : Registry S V D) (cs : List (Call S V D)) (method : String)
      → lookup method (perform_all r cs).handlers ≡ registered method (lookup method r.handlers) cs
  perform_all-registered r [] method = refl
  perform_all-registered r (c ∷ cs) method =
      perform_all-registered (perform r c) cs method
      ∙ ap (λ o. registered method o cs) (perform-registered r c method)
      ∙ sym (registered-first method (lookup method r.handlers) c cs)

  -- The middleware that was there stays in front, up to a Clear.
  abbrev kept : List (Middleware S V) → List (Call S V D) → List (Middleware S V)
  kept mws cs = (if is_cleared cs then [] else mws) ++ added cs

  kept-uses :
      (mws : List (Middleware S V)) (mw : Middleware S V) (cs : List (Call S V D))
      → kept (mws ++ mw ∷ []) cs ≡ kept mws (uses mw ∷ cs)
  kept-uses mws mw cs = elim (Bool-cases (is_cleared cs)) [
    | inl e ↦ rw (e) refl
    | inr e ↦ rw (e) (append_assoc mws (mw ∷ []) (added cs))
  ]

  perform_all-middleware :
      (r : Registry S V D) (cs : List (Call S V D))
      → (perform_all r cs).middleware ≡ kept r.middleware cs
  unfolding register register_with_meta use_middleware unregister clear
  perform_all-middleware r [] = sym (append-nil r.middleware)
  perform_all-middleware r (registers k h ∷ cs) = perform_all-middleware (register r k h) cs
  perform_all-middleware r (registers_with_meta k h d ∷ cs) =
      perform_all-middleware (register_with_meta r k h d) cs
  perform_all-middleware r (registers_all m ∷ cs) =
      perform_all-middleware (register_all r m) cs
      ∙ ap (λ mws. kept mws cs) (register_all-middleware r m)
  perform_all-middleware r (uses mw ∷ cs) =
      perform_all-middleware (use_middleware r mw) cs ∙ kept-uses r.middleware mw cs
  perform_all-middleware r (unregisters k ∷ cs) = perform_all-middleware (unregister r k) cs
  perform_all-middleware r (clears ∷ cs) =
      perform_all-middleware (clear r) cs ∙ nothing_before (is_cleared cs) (added cs)

-- Whatever calls set a new registry up, and in whatever order: Get gives for a method the handler that
-- was registered last for it since it was unregistered or the registry was cleared, or nothing if
-- there is none, with all the middleware around it that Use added since the last Clear, the one
-- that was added first on the outside, also those that were added after the handler.
pub get-outermost_first :
    {S V D : Type 0} (calls : List (Call S V D)) (method : String)
    → get (perform_all new_registry calls) method
      ≡ around (added calls) (registered method none calls)
unfolding new_registry lookup
get-outermost_first calls method =
    get-around (perform_all new_registry calls) method
    ∙ ap (λ mws. around mws (lookup method (perform_all new_registry calls).handlers))
        (perform_all-middleware new_registry calls
          ∙ nothing_before (is_cleared calls) (added calls))
    ∙ ap (around (added calls)) (perform_all-registered new_registry calls method)
