-- ===== src/Proxy/Access/Tokens.antt =====
-- deploy/proxyAPI/proxy.py: exactly which Authorization headers open the routes.
use mathlib.Core.Option.{some-injective}
use sipmedia_gw.Prelude.{
  Option-cases, ◌∙◌, String, ◌≡◌, ◌↔◌, ◌⊎◌, refl, sym, ap, Bool, true, false, false≢true, Option,
  none, some, ◌||◌, ◌==◌, eq_iff, eq_refl, Bool-cases, inl, inr, if◌then◌else◌,
}
use sipmedia_gw.Text.{is_empty, append, has_prefix, after, has_prefix-append, eq_of_has_prefix}
use sipmedia_gw.Proxy.Access.{
  Config, Request, bearer, is_token, admin_header, authorize, authorize_room, authorize_admin,
}

-- What follows the first space of "Bearer <token>".
or_true : (b : Bool) → b || true ≡ true
or_true true = refl
or_true false = refl

after-bearer : (t : String) → after 32 (append "Bearer " t) ≡ t
unfolding after append
after-bearer t = refl

bearer-append : (t : String) → bearer (some (append "Bearer " t)) ≡ some t
unfolding bearer
bearer-append t = rw (has_prefix-append "Bearer " t) (ap some (after-bearer t))

bearer_inv : (h u : String) → bearer (some h) ≡ some u → h ≡ append "Bearer " u
unfolding bearer
bearer_inv h u e = elim (Bool-cases (has_prefix "Bearer " h)) [
  | inl held ↦
      let (r, h_eq) = eq_of_has_prefix "Bearer " h held in
      h_eq
      ∙ ap (append "Bearer ")
          (some-injective r u (sym (bearer-append r) ∙ ap (λ x. bearer (some x)) (sym h_eq) ∙ e))
  | inr lacks ↦ cc (rw lacks at e)
]

bearer-none : bearer none ≡ none
unfolding bearer
bearer-none = refl

bearer-token :
    (h : Option String) (t : String) → is_token (bearer h) t ≡ true → h ≡ some (append "Bearer " t)
bearer-token none t e = absurd (false≢true (rw bearer-none at e))
bearer-token (some h) t e = elim (Option-cases (bearer (some h))) [
  | inl lacks ↦ absurd (false≢true (rw lacks at e))
  | inr (u, held) ↦ ap some (bearer_inv h t (held ∙ ap some ((eq_iff u t).0 (rw held at e))))
]

is_token-bearer :
    (h : Option String) (t : String)
    → (is_token (bearer h) t ≡ true) ↔ (h ≡ some (append "Bearer " t))
is_token-bearer h t = (bearer-token h t, λ e. rw e (rw (bearer-append t) (eq_refl t)))

-- The operational token is accepted in "Bearer <token>", and in no other header.
pub authorize_iff :
    (cfg : Config) (req : Request)
    → (authorize cfg req ≡ true) ↔ (req.authorization ≡ some (append "Bearer " cfg.allowed_token))
unfolding authorize
authorize_iff cfg req = is_token-bearer req.authorization cfg.allowed_token

room_inv :
    (h : Option String) (unset : Bool) (room allowed : String)
    → (if unset then false else is_token (bearer h) room || is_token (bearer h) allowed) ≡ true
    → (unset ≡ false) × ((h ≡ some (append "Bearer " room)) ⊎ (h ≡ some (append "Bearer " allowed)))
room_inv h true room allowed e = absurd (false≢true e)
room_inv h false room allowed e = elim (Bool-cases (is_token (bearer h) room)) [
  | inl held ↦ (refl, inl (bearer-token h room held))
  | inr lacks ↦ (refl, inr (bearer-token h allowed (rw lacks at e)))
]

-- The room route opens to the room token and to the operational one, and to nobody while the room
-- token is not set.
pub authorize_room_iff :
    (cfg : Config) (req : Request)
    → (authorize_room cfg req ≡ true) ↔ (
        (is_empty cfg.room_token ≡ false)
        × ((req.authorization ≡ some (append "Bearer " cfg.room_token))
            ⊎ (req.authorization ≡ some (append "Bearer " cfg.allowed_token))))
unfolding authorize_room
authorize_room_iff cfg req = (
  room_inv req.authorization (is_empty cfg.room_token) cfg.room_token cfg.allowed_token,
  λ h. rw h.0 (opens h.1),
)
  where
    token : String → Bool
    token t = is_token (bearer req.authorization) t

    opens :
        (req.authorization ≡ some (append "Bearer " cfg.room_token))
          ⊎ (req.authorization ≡ some (append "Bearer " cfg.allowed_token))
        → token cfg.room_token || token cfg.allowed_token ≡ true
    opens (inl e) = rw ((is_token-bearer req.authorization cfg.room_token).1 e)
    opens (inr e) = rw ((is_token-bearer req.authorization cfg.allowed_token).1 e) (or_true _)

admin_header-bearer :
    (cfg : Config) (t : String)
    → admin_header cfg (some (append "Bearer " t)) ≡ (t == cfg.admin_token)
admin_header-bearer cfg t =
    rw (has_prefix-append "Bearer " t) (ap (λ u. u == cfg.admin_token) (after-bearer t))

guarded : (u b : Bool) → ((if u then false else b) ≡ true) ↔ ((u ≡ false) × (b ≡ true))
guarded true b = (λ h. absurd (false≢true h), λ h. absurd (false≢true (sym h.0)))
guarded false b = (λ h. (refl, h), λ h. h.1)

-- A bearer token opens the admin routes exactly when an admin token is set and the two are equal.
pub authorize_admin_bearer :
    (cfg : Config) (req : Request) (t : String)
    → req.authorization ≡ some (append "Bearer " t)
    → (authorize_admin cfg req ≡ true)
      ↔ ((is_empty cfg.admin_token ≡ false) × (t ≡ cfg.admin_token))
unfolding authorize_admin
authorize_admin_bearer cfg req t e =
    rw (e, admin_header-bearer cfg t)
      (
        λ h. let (set_to, held) = (guarded _ _).0 h in (set_to, (eq_iff _ _).0 held),
        λ h. (guarded _ _).1 (h.0, (eq_iff _ _).1 h.1),
      )
