-- ===== src/Party/Commands/Each.antt =====
-- What each command does to the party that it finds.
use asca_ci.Base.Counts.{count}
use asca_ci.Base.{
  update, ℕ, ◌≡◌, refl, ap, subst, ◌∙◌, Bool, true, false, not, List, Option, none, some, ◌==◌,
  ◌&&◌, arith, some_inj, Bool-cases, Option-cases, inl, inr,
}
use asca_ci.Party.Coherent.{IsCoherent}
use asca_ci.Party.Counts.{update_self}
use asca_ci.Party.Commands.{
  Game, party_at, is_inviting, invite_from, join_to, revoke_from, pass_from, leave_from, share_in,
  at_pointer, has_party, log_out, is_partner,
}
use asca_ci.Party.Declines.{clear_party_invitations-IsCoherent, recount-IsCoherent}
use asca_ci.Party.Invitations.{
  invite_player-IsCoherent, remove_invite-IsCoherent, set_shared-IsCoherent,
  pass_party_leadership-IsCoherent, new_party-IsCoherent,
}
use asca_ci.Party.Shared.{Party, View}
use asca_ci.Party.Steps.{join_party-IsCoherent, leave_party-IsCoherent}
use asca_ci.Party.{World, Events, initial, new_party, clear_party_invitations}

-- What is found at a player's pointer stands at its address.
at_pointer-there :
    (w : World) (o : Option ℕ) (i : ℕ) (p : Party)
    → at_pointer w o ≡ some (i, p)
    → w.parties i ≡ some p
at_pointer-there w none i p e = absurd (ground (arith, e))
at_pointer-there w (some j) i p e = elim (Option-cases (w.parties j)) [
  | inl deleted ↦ absurd (ground (arith, e, deleted))
  | inr (p', there) ↦
      let f : (j, p') ≡ (i, p) = some_inj (rw there at e) in
      let same_i : j ≡ i = ap (λ r. r.0) f in
      let same_p : p' ≡ p = ap (λ r. r.1) f in
      subst (λ k. w.parties k ≡ some p) same_i (there ∙ ap some same_p)
]

pub party_at-there :
    (w : World) (player i : ℕ) (p : Party) → party_at w player ≡ some (i, p) → w.parties i ≡ some p
unfolding party_at
party_at-there w player i p e = at_pointer-there w (w.party_of player) i p e

-- Where the pointers are coherent, a player without a party has no pointer.
pub at_pointer-free :
    (w : World) (player : ℕ)
    → IsCoherent w
    → (o : Option ℕ) → w.party_of player ≡ o
    → at_pointer w o ≡ none
    → w.party_of player ≡ none
at_pointer-free w player c none e a = e
at_pointer-free w player c (some i) e a = elim (Option-cases (w.parties i)) [
  | inl deleted ↦ absurd (ground (arith, c.membership i player, deleted, e))
  | inr (p, there) ↦ absurd (ground (arith, a, there))
]

pub free_of : (o : Option ℕ) → has_party o ≡ false → o ≡ none
free_of none e = refl
free_of (some i) e = absurd (ground (arith, e))

update-same : (f : ℕ → List ℕ) (k q : ℕ) → update f k (f k) q ≡ f q
unfolding update
update-same f k q = ground arith

module _ (g : Game) (ev : Events) (v : View) (w : World) (c : IsCoherent w) where
  pub invite_from-IsCoherent :
      (addr player invited : ℕ) (o : Option (ℕ × Party))
      → w.parties addr ≡ none
      → party_at w player ≡ o
      → IsCoherent (invite_from g ev v addr player invited w o)
  unfolding invite_from party_at
  invite_from-IsCoherent addr player invited none vacant e =
      let free = at_pointer-free w player c (w.party_of player) refl e in
      invite_player-IsCoherent (new_party addr player w) addr (initial player)
        (new_party-IsCoherent w addr player c vacant free)
        (unfold new_party in update_self w.parties addr (some (initial player))) invited
  invite_from-IsCoherent addr player invited (some (i, p)) vacant e =
      elim (Bool-cases (p.leader == player)) [
        | inl leads ↦
            rw leads (invite_player-IsCoherent w i p c (party_at-there w player i p e) invited)
        | inr follows ↦ rw follows c
      ]

  pub join_to-IsCoherent :
      (player leader : ℕ) (o : Option (ℕ × Party))
      → w.party_of player ≡ none
      → party_at w leader ≡ o
      → IsCoherent (join_to g ev v player leader w o)
  unfolding join_to
  join_to-IsCoherent player leader none free e = c
  join_to-IsCoherent player leader (some (i, p)) free e = elim (Bool-cases (p.leader == leader)) [
    | inl leads ↦
        rw leads (join_party-IsCoherent w i p c (party_at-there w leader i p e) ev v player free)
    | inr follows ↦ rw follows c
  ]

  pub revoke_from-IsCoherent :
      (player invited : ℕ) (o : Option (ℕ × Party))
      → ev.on_disband ≡ true
      → party_at w player ≡ o
      → IsCoherent (revoke_from g ev v player invited w o)
  unfolding revoke_from
  revoke_from-IsCoherent player invited none allowed e = c
  revoke_from-IsCoherent player invited (some (i, p)) allowed e =
      elim (Bool-cases (p.leader == player && g.online invited && is_inviting w player invited)) [
        | inl may ↦
            rw may
              (remove_invite-IsCoherent w i p c (party_at-there w player i p e) ev invited allowed)
        | inr may_not ↦ rw may_not c
      ]

  pub pass_from-IsCoherent :
      (player leader : ℕ) (o : Option (ℕ × Party))
      → party_at w player ≡ o
      → IsCoherent (pass_from g ev v player leader w o)
  unfolding pass_from
  pass_from-IsCoherent player leader none e = c
  pass_from-IsCoherent player leader (some (i, p)) e =
      elim (Bool-cases (p.leader == player && g.online leader && is_partner w i player leader)) [
        | inl may ↦
            rw may
              (pass_party_leadership-IsCoherent w i p c (party_at-there w player i p e) v leader)
        | inr may_not ↦ rw may_not c
      ]

  pub leave_from-IsCoherent :
      (player : ℕ) (o : Option (ℕ × Party))
      → ev.on_disband ≡ true
      → party_at w player ≡ o
      → IsCoherent (leave_from g ev v player w o)
  unfolding leave_from
  leave_from-IsCoherent player none allowed e = c
  leave_from-IsCoherent player (some (i, p)) allowed e =
      leave_party-IsCoherent w i p c (party_at-there w player i p e) ev v player allowed

  pub share_in-IsCoherent :
      (player : ℕ) (active : Bool) (o : Option (ℕ × Party))
      → party_at w player ≡ o
      → IsCoherent (share_in g ev v player active w o)
  unfolding share_in
  share_in-IsCoherent player active none e = c
  share_in-IsCoherent player active (some (i, p)) e =
      elim (Bool-cases (g.in_fight player && not (g.in_protection_zone player))) [
        | inl fights ↦ rw fights c
        | inr calm ↦
            rw calm (set_shared-IsCoherent w i p c (party_at-there w player i p e) v player active)
      ]

-- All the invitations are declined, and then the party is left.
pub declined-IsCoherent :
    (ev : Events) (w : World) (player : ℕ)
    → IsCoherent w
    → ev.on_disband ≡ true
    → IsCoherent (clear_party_invitations ev player (w.invitations player) w)
declined-IsCoherent ev w player c allowed =
    clear_party_invitations-IsCoherent ev player (w.invitations player) w allowed (
      recount-IsCoherent w (update w.invitations player (w.invitations player)) c
        (λ j q. ap (count j) (update-same w.invitations player q)))

pub log_out-IsCoherent :
    (g : Game) (ev : Events) (v : View) (w : World)
    → IsCoherent w
    → (player : ℕ) → ev.on_disband ≡ true
    → IsCoherent (log_out g ev v player w)
unfolding log_out
log_out-IsCoherent g ev v w c player allowed =
    let w' = clear_party_invitations ev player (w.invitations player) w in
    leave_from-IsCoherent g ev v w' (declined-IsCoherent ev w player c allowed) player
      (party_at w' player) allowed refl
