-- ===== src/Party/Invitations.antt =====
-- Invitations, and the other operations that keep the pointers coherent.
use asca_ci.Base.Counts.{
  count, count-elem, count-erase, count-remove, count-snoc, elem, elem-count, erase, remove,
}
use asca_ci.Base.{
  update, ℕ, ◌≡◌, refl, sym, Bool, true, false, not, List, [], ◌∷◌, ◌++◌, none, some, ◌==◌,
  if◌then◌else◌, arith, Bool-cases, inl, inr, ◌||◌,
}
use asca_ci.Party.Coherent.{
  seats, guests, here, IsCoherent, IsAside, IsLocal-IsCoherent, disband-IsCoherent, here_unique,
  seat, guest,
}
use asca_ci.Party.Shared.{Party, View, update_shared_experience, set_shared_experience}
use asca_ci.Party.Steps.{IsSame, update_shared-IsSame}
use asca_ci.Party.{
  World, Events, put, is_party, add_party_invitation, disband, empty, pass_party_leadership,
  remove_invite, invite_player, new_party, initial,
}

set_shared-IsSame :
    (v : View) (player : ℕ) (active : Bool) (p : Party)
    → IsSame p (set_shared_experience v player active p).1
unfolding set_shared_experience
set_shared-IsSame v player active p = ground arith

module _ (w : World) (i : ℕ) (p : Party) (c : IsCoherent w) (there : w.parties i ≡ some p) where
  pub invite_player-IsCoherent : (player : ℕ) → IsCoherent (invite_player i player p w).1
  unfolding invite_player update add_party_invitation
  invite_player-IsCoherent player = elim (Bool-cases (elem player p.invitees)) [
    | inl already ↦ rw already c
    | inr new ↦
        let none_yet : count i (w.invitations player) ≡ 0 =
          ground (arith, elem-count player p.invitees new, guest w i p c there player) in
        let absent : elem i (w.invitations player) ≡ false =
          ground (arith, none_yet, count-elem i (w.invitations player)) in
        rw (new, absent)
          (IsLocal-IsCoherent w i (some (record p { invitees = p.invitees ++ player ∷ [] }))
            w.party_of (update w.invitations player (i ∷ w.invitations player)) c
            (record {
              seated = seat w i p c there;
              invited = λ q. ground (arith, count-snoc q player p.invitees, guest w i p c there q);
              aside = record {
                few = λ q. ground (arith, none_yet, c.once i q);
                other_seats = λ q j other. refl;
                other_guests = λ q j other. ground (arith, other);
              };
            }))
  ]

  -- What holds of an invited player's removal, whose own list becomes `rest`.
  pub removed_invite :
      (ev : Events) (player : ℕ) (rest : List ℕ)
      → ev.on_disband ≡ true
      → count i rest ≡ 0
      → ((j : ℕ) → (i == j) ≡ false → count j rest ≡ count j (w.invitations player))
      → let q = record p { invitees = erase player p.invitees } in
        let w' = record w { invitations = update w.invitations player rest } in
        IsCoherent (if empty q then disband ev i q w' else put i q w')
  unfolding update
  removed_invite ev player rest allowed gone others =
      let q : Party = record p { invitees = erase player p.invitees } in
      let g = update w.invitations player rest in
      let invited : (z : ℕ) → guests (some q) z ≡ count i (g z) = λ z.
        ground (arith, count-erase z player p.invitees, guest w i p c there z, gone, c.once i z) in
      let a : IsAside w i w.party_of g = record {
        few = λ z. ground (arith, gone, c.once i z);
        other_seats = λ z j other. refl;
        other_guests = λ z j other. ground (arith, others j other);
      } in
      elim (Bool-cases (empty q)) [
        | inl ends ↦ rw ends (
            disband-IsCoherent ev w i q w.party_of g allowed c a
              (λ z. ground (arith, seat w i p c there z))
              (λ z j other seated.
                ground (arith, seat w i p c there z, seated, here_unique (w.party_of z) i j other))
              (λ z. ground (arith, invited z)))
        | inr stays ↦ rw stays (
            IsLocal-IsCoherent w i (some q) w.party_of g c
              (record { seated = seat w i p c there; invited = invited; aside = a }))
      ]

  pub remove_invite-IsCoherent :
      (ev : Events) (player : ℕ)
      → ev.on_disband ≡ true
      → IsCoherent (remove_invite ev i player true p w).1
  unfolding remove_invite
  remove_invite-IsCoherent ev player allowed = elim (Bool-cases (elem player p.invitees)) [
    | inr absent ↦ rw absent c
    | inl present ↦ rw present (
        removed_invite ev player (remove i (w.invitations player)) allowed
          (ground (arith, count-remove i i (w.invitations player)))
          (λ j other. ground (arith, other, count-remove j i (w.invitations player))))
  ]

  -- Where the seats and the invited players stay the same.
  put-IsCoherent :
      (p' : Party)
      → ((q : ℕ) → seats (some p') q ≡ here (w.party_of q) i)
      → p'.invitees ≡ p.invitees
      → IsCoherent (put i p' w)
  put-IsCoherent p' sum inv = IsLocal-IsCoherent w i (some p') w.party_of w.invitations c (record {
    seated = sum;
    invited = λ q. rw inv (guest w i p c there q);
    aside = record {
      few = λ q. c.once i q;
      other_seats = λ q j other. refl;
      other_guests = λ q j other. refl;
    };
  })

  pub set_shared-IsCoherent :
      (v : View) (player : ℕ) (active : Bool)
      → IsCoherent (put i (set_shared_experience v player active p).1 w)
  set_shared-IsCoherent v player active =
      let k = set_shared-IsSame v player active p in
      put-IsCoherent (set_shared_experience v player active p).1
        (λ q. rw (k.leader, k.members) (seat w i p c there q)) k.invitees

  pub pass_party_leadership-IsCoherent :
      (v : View) (player : ℕ) → IsCoherent (put i (pass_party_leadership v i player p w).1 w)
  unfolding pass_party_leadership
  pass_party_leadership-IsCoherent v player =
      elim (Bool-cases (p.leader == player || not (is_party (w.party_of player) i))) [
        | inl refused ↦ rw refused (put-IsCoherent p (seat w i p c there) refl)
        | inr goes ↦
            let p1 : Party = record p {
              leader = player;
              members = p.leader ∷ erase player p.members;
            } in
            let k = update_shared-IsSame v p1 in
            rw goes (
              put-IsCoherent (update_shared_experience v p1)
                (λ q.
                  rw (k.leader, k.members)
                    (ground (
                      arith,
                      goes,
                      count-erase q player p.members,
                      seat w i p c there q,
                      seat w i p c there player,
                    )))
                k.invitees)
      ]

-- A party at an address that holds none.
pub new_party-IsCoherent :
    (w : World) (i leader : ℕ)
    → IsCoherent w
    → w.parties i ≡ none
    → w.party_of leader ≡ none
    → IsCoherent (new_party i leader w)
unfolding new_party update
new_party-IsCoherent w i leader c vacant free =
    let empty_seats : (q : ℕ) → here (w.party_of q) i ≡ 0 =
      λ q. let e = c.membership i q in sym (rw vacant at e) in
    let no_guests : (q : ℕ) → count i (w.invitations q) ≡ 0 =
      λ q. let e = c.invitation i q in sym (rw vacant at e) in
    IsLocal-IsCoherent w i (some (initial leader)) (update w.party_of leader (some i)) w.invitations
      c
      (record {
        seated = λ q. ground (arith, empty_seats q);
        invited = λ q. sym (no_guests q);
        aside = record {
          few = λ q. c.once i q;
          other_seats = λ q j other. ground (arith, other, free);
          other_guests = λ q j other. refl;
        };
      })
