-- ===== src/Sessions/Reached.antt =====
-- After updateSessionID of internal/session/manager.go: the ids under which a session is reached.
use cdev.Base.{
  suc, ◌≡◌, ◌≢◌, refl, sym, ◌∙◌, ap, false, [], ◌∷◌, Option, none, some, arith, Bool-cases, inl,
  inr, length, if◌then◌else◌, is_empty,
}
use cdev.Base.Map.{Map, lookup, insert, erase, lookup-insert, lookup-insert_self}
use cdev.Base.Text.{Text, same, same-eq, text_eq}
use cdev.Sessions.{
  Session, Manager, contains, resolve_from, resolve_session_id, set_session_id, get_session,
}
use cdev.Sessions.Resolve.{resolve_session_id-enough}
use cdev.Sessions.Update.{redirect, moved, update_session_id}

redirected : Text → Text → Option Text → Option Text
redirected old new none = none
redirected old new (some target) = some (if same target old then new else target)

lookup-redirect :
    (old new k : Text) (m : Map Text Text)
    → lookup k (redirect old new m) ≡ redirected old new (lookup k m)
unfolding lookup redirect redirected
lookup-redirect old new k [] = refl
lookup-redirect old new k ((alias, target) ∷ m) = ground (arith, lookup-redirect old new k m)

-- An alias of an id that is no alias itself.
resolve-alias :
    (aliases : Map Text Text) (x y : Text)
    → lookup x aliases ≡ some y
    → is_empty y ≡ false
    → same y x ≡ false
    → lookup y aliases ≡ none
    → resolve_session_id aliases x ≡ y
unfolding resolve_from contains
resolve-alias aliases x y at some_y other last =
    let two : resolve_from (suc (suc (length aliases))) aliases [] x ≡ some y =
      rw (at, some_y, other, last) refl in
    some-injective _ y
      (sym (resolve_session_id-enough (suc (suc (length aliases))) aliases x (omega arith)) ∙ two)
  where
    some-injective : (a b : Text) → some a ≡ some b → a ≡ b
    some-injective a b h = cc

resolve-last :
    (aliases : Map Text Text) (y : Text)
    → lookup y aliases ≡ none
    → resolve_session_id aliases y ≡ y
unfolding resolve_from resolve_session_id
resolve-last aliases y last = rw last refl

-- The aliases after the update.
abbrev new_aliases : Map Text Text → Text → Text → Text → Map Text Text
new_aliases aliases temporary resolved real =
    redirect resolved real (insert resolved real (insert temporary real aliases))

new_aliases-temporary :
    (aliases : Map Text Text) (t r real : Text)
    → lookup t (new_aliases aliases t r real) ≡ some real
unfolding redirected
new_aliases-temporary aliases t r real = ground (
  arith,
  lookup-redirect r real t (insert r real (insert t real aliases)),
  lookup-insert r t real (insert t real aliases),
  lookup-insert t t real aliases,
)

new_aliases-resolved :
    (aliases : Map Text Text) (t r real : Text)
    → lookup r (new_aliases aliases t r real) ≡ some real
unfolding redirected
new_aliases-resolved aliases t r real = ground (
  arith,
  lookup-redirect r real r (insert r real (insert t real aliases)),
  lookup-insert r r real (insert t real aliases),
)

new_aliases-real :
    (aliases : Map Text Text) (t r real : Text)
    → lookup real aliases ≡ none
    → r ≢ real
    → t ≢ real
    → lookup real (new_aliases aliases t r real) ≡ none
unfolding redirected
new_aliases-real aliases t r real last nr nt = ground (
  arith,
  lookup-redirect r real real (insert r real (insert t real aliases)),
  lookup-insert r real real (insert t real aliases),
  lookup-insert t real real aliases,
)

same-ne : (x y : Text) → x ≢ y → same y x ≡ false
same-ne x y ne = elim (Bool-cases (same y x)) [
  | inl eq ↦ absurd (ne (sym (same-eq y x eq)))
  | inr ne' ↦ ne'
]

-- What a client sees of a session under an id.
abbrev IsReached : Manager → Text → Session → Type 0
IsReached m id s = get_session m id ≡ some s

reached :
    (m : Manager) (id real : Text) (s : Session)
    → resolve_session_id m.session_aliases id ≡ real
    → lookup real m.sessions ≡ some s
    → IsReached m id s
unfolding get_session
reached m id real s r at = rw r at

-- The ids that differ from the real one reach it.
moved-reached :
    (m : Manager) (ws t r real : Text) (s : Session)
    → is_empty real ≡ false
    → lookup real m.session_aliases ≡ none
    → r ≢ real
    → t ≢ real
    → IsReached (moved m ws t r real (some s)) t (set_session_id s real)
      × IsReached (moved m ws t r real (some s)) r (set_session_id s real)
      × IsReached (moved m ws t r real (some s)) real (set_session_id s real)
moved-reached m ws t r real s some_id last nr nt =
    let after = moved m ws t r real (some s) in
    let a = new_aliases m.session_aliases t r real in
    let end = new_aliases-real m.session_aliases t r real last nr nt in
    let at = lookup-insert_self real (set_session_id s real) (erase r (erase t m.sessions)) in
    (
      reached after t real (set_session_id s real)
          (resolve-alias a t real (new_aliases-temporary m.session_aliases t r real) some_id
            (same-ne t real nt) end)
          at,
      reached after r real (set_session_id s real)
          (resolve-alias a r real (new_aliases-resolved m.session_aliases t r real) some_id
            (same-ne r real nr) end)
          at,
      reached after real real (set_session_id s real) (resolve-last a real end) at,
    )

-- When the real id of a session is not empty, not an alias and not the id of a session yet, then after
-- updateSessionID the session is reached under the id that was given, under the id that this one
-- resolved to, and under the real id, and it bears the real id.
pub update_session_id-reached :
    (m : Manager) (ws temporary real : Text) (s : Session)
    → is_empty real ≡ false
    → lookup real m.session_aliases ≡ none
    → lookup real m.sessions ≡ none
    → get_session m temporary ≡ some s
    → (get_session (update_session_id m ws temporary real) temporary ≡ some (set_session_id s real))
      × (get_session
            (update_session_id m ws temporary real)
            (resolve_session_id m.session_aliases temporary)
          ≡ some (set_session_id s real))
      × (get_session (update_session_id m ws temporary real) real ≡ some (set_session_id s real))
unfolding update_session_id get_session
update_session_id-reached m ws temporary real s some_id last new here =
    let r = resolve_session_id m.session_aliases temporary in
    let nr : r ≢ real = λ e. absurd (ground arith) in
    let nt : temporary ≢ real = λ e.
      nr (ap (resolve_session_id m.session_aliases) e ∙ resolve-last m.session_aliases real last) in
    rw (same-ne real r (λ e. nr (sym e)), new, here)
      (moved-reached m ws temporary r real s some_id last nr nt)
