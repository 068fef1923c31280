-- ===== src/House/Kicked.antt =====
-- Whom the loops over a house's visitors put out.
use asca_ci.Base.{
  ◌≡◌, refl, ap, Bool, true, not, List, [], ◌∷◌, none, ◌==◌, ltb, ◌||◌, ◌&&◌, Bool-cases, inl, inr,
  arith, if◌then◌else◌,
}
use asca_ci.House.Access.{Visitor}
use asca_ci.House.{
  Env, House, AccessHouseLevel, not_invited, guest, sub_owner, owned, access_level, is_invited,
  rank_of, may_kick, kick_player, kick_uninvited, kick_all, put_out,
}

-- Those of some players whom a test lets stay.
abbrev pub staying : (Visitor → Bool) → List Visitor → List Visitor
staying stays [] = []
staying stays (p ∷ ps) = if stays p then p ∷ staying stays ps else staying stays ps

-- A null player may put out everyone but those who can edit houses.
may_kick-null :
    (env : Env) (h : House) (p : Visitor) → may_kick env h none p ≡ not p.can_edit_houses
unfolding may_kick
may_kick-null env h p = below (access_level env h p)
  where
    below :
        (l : AccessHouseLevel)
        → not (ltb 3 (rank_of l) || p.can_edit_houses) ≡ not p.can_edit_houses
    below not_invited = ground arith
    below guest = ground arith
    below sub_owner = ground arith
    below owned = ground arith

pub can_edit-is_invited :
    (env : Env) (h : House) (p : Visitor) → p.can_edit_houses ≡ true → is_invited env h p ≡ true
unfolding is_invited access_level
can_edit-is_invited env h p e =
    elim (Bool-cases (env.owned_by_account && h.owner_account_id == p.account)) [
      | inl account ↦ rw account refl
      | inr other ↦ rw (other, e) refl
    ]

pub kick_uninvited_lem :
    (env : Env) (h : House) (ps : List Visitor)
    → kick_uninvited env h ps ≡ staying (λ p. is_invited env h p || not (env.teleports p.guid)) ps
unfolding kick_uninvited kick_player
kick_uninvited_lem env h [] = refl
kick_uninvited_lem env h (p ∷ ps) =
    let same : (not (is_invited env h p) && (may_kick env h none p && env.teleports p.guid))
        ≡ not (is_invited env h p || not (env.teleports p.guid)) =
      ground (arith, may_kick-null env h p, can_edit-is_invited env h p) in
    elim (Bool-cases (is_invited env h p || not (env.teleports p.guid))) [
      | inl stays ↦ rw (same, stays) (ap (λ qs. p ∷ qs) (kick_uninvited_lem env h ps))
      | inr leaves ↦ rw (same, leaves) (kick_uninvited_lem env h ps)
    ]

pub visitors-put_out :
    (env : Env) (h : House)
    → (put_out env h).visitors
      ≡ staying (λ p. is_invited env (put_out env h) p || not (env.teleports p.guid)) h.visitors
unfolding is_invited access_level
visitors-put_out env h = kick_uninvited_lem env h h.visitors

pub kick_all_lem :
    (env : Env) (h : House) (ps : List Visitor)
    → kick_all env h ps ≡ staying (λ p. p.can_edit_houses || not (env.teleports p.guid)) ps
unfolding kick_all kick_player
kick_all_lem env h [] = refl
kick_all_lem env h (p ∷ ps) =
    let same : (may_kick env h none p && env.teleports p.guid)
        ≡ not (p.can_edit_houses || not (env.teleports p.guid)) =
      ground (arith, may_kick-null env h p) in
    elim (Bool-cases (p.can_edit_houses || not (env.teleports p.guid))) [
      | inl stays ↦ rw (same, stays) (ap (λ qs. p ∷ qs) (kick_all_lem env h ps))
      | inr leaves ↦ rw (same, leaves) (kick_all_lem env h ps)
    ]

pub staying-sub :
    (f g : Visitor → Bool) (ps : List Visitor)
    → ((p : Visitor) → g p ≡ true → f p ≡ true)
    → staying f (staying g ps) ≡ staying g ps
staying-sub f g [] h = refl
staying-sub f g (p ∷ ps) h = elim (Bool-cases (g p)) [
  | inl stays ↦ rw (stays, h p stays) (ap (λ qs. p ∷ qs) (staying-sub f g ps h))
  | inr leaves ↦ rw leaves (staying-sub f g ps h)
]
