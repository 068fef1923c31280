-- ===== src/Party/Declines.antt =====
-- `clearPartyInvitations`: what a player declines before it is gone.
use asca_ci.Base.Counts.{count, elem, elem-count, erase}
use asca_ci.Base.{
  update, ℕ, ◌≡◌, refl, sym, subst, ap, ◌∙◌, true, false, List, [], ◌∷◌, Option, none, some, arith,
  Bool-cases, inl, inr,
}
use asca_ci.Party.Coherent.{IsCoherent, guest}
use asca_ci.Party.Counts.{update_self, uninvite_all_lem}
use asca_ci.Party.Shared.{Party, is_empty}
use asca_ci.Party.{
  World, Events, put, disband, empty, remove_invite, decline, clear_party_invitations, uninvite_all,
  clear_all,
}
use asca_ci.Party.Invitations.{removed_invite}

-- Only how often a party stands in a player's list matters.
pub recount-IsCoherent :
    (w : World) (g : ℕ → List ℕ)
    → IsCoherent w
    → ((j q : ℕ) → count j (g q) ≡ count j (w.invitations q))
    → IsCoherent (record w { invitations = g })
recount-IsCoherent w g c same = record {
  membership = c.membership;
  invitation = λ j q. c.invitation j q ∙ sym (same j q);
  once = λ j q. rw (same j q) (c.once j q);
}

empty-invitees : (p : Party) (q : ℕ) → empty p ≡ true → count q p.invitees ≡ 0
empty-invitees p q e = is_empty-count p.invitees q (ground (arith, e))
  where
    is_empty-count : (xs : List ℕ) (q : ℕ) → is_empty xs ≡ true → count q xs ≡ 0
    is_empty-count [] q e = refl
    is_empty-count (x ∷ xs) q e = absurd (ground (arith, e))

-- The world in which the player still holds the invitations `is`.
abbrev holding : ℕ → List ℕ → World → World
holding player is w = record w { invitations = update w.invitations player is }

update-twice :
    (f : ℕ → List ℕ) (k : ℕ) (a b : List ℕ) (z : ℕ) → update f k b z ≡ update (update f k a) k b z
unfolding update
update-twice f k a b z = ground arith

-- Nobody's list changes where nobody is invited.
uninvite_none :
    (i : ℕ) (qs : List ℕ) (f : ℕ → List ℕ) (k : ℕ) (a b : List ℕ) (j z : ℕ)
    → count z qs ≡ 0
    → count j (update (uninvite_all i qs f) k b z)
      ≡ count j (uninvite_all i qs (update (update f k a) k b) z)
unfolding update
uninvite_none i qs f k a b j z absent = ground (
  arith,
  absent,
  uninvite_all_lem i qs f z j,
  uninvite_all_lem i qs (update (update f k a) k b) z j,
)

disband_lem :
    (ev : Events) (i : ℕ) (p : Party) (w : World)
    → ev.on_disband ≡ true
    → disband ev i p w ≡ record {
      parties = update w.parties i none;
      party_of = clear_all p.members (update w.party_of p.leader none);
      invitations = uninvite_all i p.invitees w.invitations;
    }
unfolding disband
disband_lem ev i p w allowed = rw allowed refl

decline-IsCoherent :
    (ev : Events) (player i : ℕ) (is : List ℕ) (w : World)
    → ev.on_disband ≡ true
    → IsCoherent (holding player (i ∷ is) w)
    → (o : Option Party) → w.parties i ≡ o
    → IsCoherent (holding player is (decline ev i player w o))
unfolding remove_invite
decline-IsCoherent ev player i is w allowed c none vacant =
    absurd
      (ground (arith, vacant, c.invitation i player, update_self w.invitations player (i ∷ is)))
decline-IsCoherent ev player i is w allowed c (some p) there =
    let before : List ℕ = i ∷ is in
    let held = update_self w.invitations player before in
    let present : elem player p.invitees ≡ true = ground (
      arith,
      elem-count player p.invitees,
      guest (holding player before w) i p c there player,
      held,
    ) in
    let q : Party = record p { invitees = erase player p.invitees } in
    let r =
      removed_invite (holding player before w) i p c there ev player is allowed
        (ground (arith, c.once i player, held)) (λ j other. ground (arith, other, held)) in
    elim (Bool-cases (empty q)) [
      | inl ends ↦
          let e : disband ev i q w ≡ (remove_invite ev i player false p w).1 =
            rw (present, ends) refl in
          let w' = record (holding player before w) {
            invitations = update (update w.invitations player before) player is;
          } in
          let r' = subst IsCoherent (disband_lem ev i q w' allowed) (rw ends at r) in
          subst (λ w'. IsCoherent (holding player is w')) (sym (disband_lem ev i q w allowed) ∙ e)
            (recount-IsCoherent _ (update (uninvite_all i q.invitees w.invitations) player is) r'
              (λ j z.
                uninvite_none i q.invitees w.invitations player before is j z
                  (empty-invitees q z ends)))
      | inr stays ↦
          let e : put i q w ≡ (remove_invite ev i player false p w).1 = rw (present, stays) refl in
          let r' = rw stays at r in
          subst (λ w'. IsCoherent (holding player is w')) e
            (recount-IsCoherent _ (update w.invitations player is) r'
              (λ j z. ap (count j) (update-twice w.invitations player before is z)))
    ]

-- While `clearPartyInvitations` runs, the player counts as invited by the parties still to come.
pub clear_party_invitations-IsCoherent :
    (ev : Events) (player : ℕ) (is : List ℕ) (w : World)
    → ev.on_disband ≡ true
    → IsCoherent (holding player is w)
    → IsCoherent (clear_party_invitations ev player is w)
unfolding clear_party_invitations
clear_party_invitations-IsCoherent ev player [] w allowed c = c
clear_party_invitations-IsCoherent ev player (i ∷ is) w allowed c =
    clear_party_invitations-IsCoherent ev player is (decline ev i player w (w.parties i)) allowed
      (decline-IsCoherent ev player i is w allowed c (w.parties i) refl)
