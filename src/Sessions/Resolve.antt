-- ===== src/Sessions/Resolve.antt =====
-- Following the aliases of a session id (internal/session/manager.go).
use cdev.Base.{
  ℕ, zero, suc, ◌+◌, ◌≤◌, ◌<◌, ◌≡◌, refl, ◌∙◌, ◌⊎◌, false, ◌||◌, List, [], ◌∷◌, Option, none, some,
  arith, Bool-cases, inl, inr, length, is_empty,
}
use cdev.Base.Map.{Map, lookup, erase, lookup-erase, length-erase-lt}
use cdev.Base.Text.{Text, same, same_refl, text_eq}
use cdev.Sessions.{contains, turn, resolve_from, resolve_session_id}

abbrev Unrepeated : List Text → Type 0
Unrepeated [] = Unit
Unrepeated (v ∷ vs) = (contains v vs ≡ false) × Unrepeated vs

abbrev Keys : Map Text Text → List Text → Type 0
Keys m [] = Unit
Keys m (v ∷ vs) = (w : Text) × (lookup v m ≡ some w) × Keys m vs

Keys-erase :
    (m : Map Text Text) (v : Text) (vs : List Text)
    → contains v vs ≡ false
    → Keys m vs
    → Keys (erase v m) vs
unfolding contains
Keys-erase m v [] h k = tt
Keys-erase m v (u ∷ vs) h (w, at, k) =
    (w, ground (arith, lookup-erase v u m, same_refl v), Keys-erase m v vs (ground arith) k)

-- Keys without repetition are no more than the map has entries.
length-Keys :
    (m : Map Text Text) (vs : List Text) → Unrepeated vs → Keys m vs → length vs ≤ length m
length-Keys m [] u k = omega arith
length-Keys m (v ∷ vs) u (w, at, k) =
    let rest = length-Keys (erase v m) vs u.1 (Keys-erase m v vs u.0 k) in
    let less = length-erase-lt v w m at in omega arith

turn-cases :
    (aliases : Map Text Text) (visited : List Text) (current : Text) (o : Option Text)
    (go_on : Text → Option Text)
    → lookup current aliases ≡ o
    → (turn visited current o go_on ≡ some current)
      ⊎ ((next : Text) × (turn visited current o go_on ≡ go_on next)
          × (contains current visited ≡ false)
          × (lookup current aliases ≡ some next))
turn-cases aliases visited current none go_on e = inl refl
turn-cases aliases visited current (some next) go_on e =
    elim (Bool-cases (is_empty next || same next current)) [
      | inl end ↦ inl (rw end refl)
      | inr more ↦ elim (Bool-cases (contains current visited)) [
        | inl seen ↦ inl (rw (more, seen) refl)
        | inr new ↦ inr (next, rw (more, new) refl, new, e)
      ]
    ]

resolve_from-enough :
    (n : ℕ) (aliases : Map Text Text) (visited : List Text) (current : Text)
    → Unrepeated visited
    → Keys aliases visited
    → length aliases < n + length visited
    → (r : Text) × (resolve_from n aliases visited current ≡ some r)
unfolding resolve_from
resolve_from-enough zero aliases visited current u k lt =
    absurd (let le = length-Keys aliases visited u k in omega arith)
resolve_from-enough (suc n) aliases visited current u k lt =
    elim (turn-cases aliases visited current (lookup current aliases)
      (resolve_from n aliases (current ∷ visited)) refl) [
        | inl end ↦ (current, end)
        | inr (next, more, new, at) ↦
            let (r, is) =
              resolve_from-enough n aliases (current ∷ visited) next (new, u) (next, at, k)
                (omega arith) in
            (r, more ∙ is)
      ]

turn_mono :
    (visited : List Text) (current r : Text) (o : Option Text) (f g : Text → Option Text)
    → ((x : Text) → f x ≡ some r → g x ≡ some r)
    → turn visited current o f ≡ some r
    → turn visited current o g ≡ some r
turn_mono visited current r none f g more = λ h. h
turn_mono visited current r (some next) f g more =
    elim (Bool-cases (is_empty next || same next current)) [
      | inl end ↦ rw end (λ h. h)
      | inr on ↦ elim (Bool-cases (contains current visited)) [
        | inl seen ↦ rw (on, seen) (λ h. h)
        | inr new ↦ rw (on, new) (more next)
      ]
    ]

resolve_from-more :
    (n k : ℕ) (aliases : Map Text Text) (visited : List Text) (current r : Text)
    → n ≤ k
    → resolve_from n aliases visited current ≡ some r
    → resolve_from k aliases visited current ≡ some r
unfolding resolve_from
resolve_from-more zero k aliases visited current r le h = absurd (cc)
resolve_from-more (suc n) zero aliases visited current r le h = absurd (omega arith)
resolve_from-more (suc n) (suc k) aliases visited current r le h =
    turn_mono visited current r (lookup current aliases) _ _
      (λ x g. resolve_from-more n k aliases (current ∷ visited) x r (omega arith) g) h

-- The loop that follows the aliases ends on any aliases, cycles included: every number of turns above
-- the number of aliases is enough, and gives the same id.
pub resolve_session_id-enough :
    (n : ℕ) (aliases : Map Text Text) (id : Text)
    → length aliases < n
    → resolve_from n aliases [] id ≡ some (resolve_session_id aliases id)
unfolding resolve_session_id
resolve_session_id-enough n aliases id lt =
    let (r, is) = resolve_from-enough (suc (length aliases)) aliases [] id tt tt (omega arith) in
    rw is (resolve_from-more (suc (length aliases)) n aliases [] id r (omega arith) is)
