-- ===== src/Party/Commands/Logout.antt =====
-- A player that has logged out is in no party's lists.
use asca_ci.Base.Counts.{count, erase}
use asca_ci.Base.{
  update, some_inj, ℕ, ◌≡◌, refl, ap, ◌∙◌, Bool, true, false, List, [], ◌∷◌, Option, none, some,
  ◌==◌, if◌then◌else◌, ◌||◌, arith, Bool-cases, Option-cases, inl, inr,
}
use asca_ci.Party.Coherent.{IsCoherent, seats, guests, here}
use asca_ci.Party.Counts.{clear_all_lem, uninvite_all_lem, update_self}
use asca_ci.Party.Commands.Each.{at_pointer-free, declined-IsCoherent, log_out-IsCoherent}
use asca_ci.Party.Commands.{Game, party_at, at_pointer, leave_from, log_out}
use asca_ci.Party.Shared.{Party, View, update_shared_experience, clear_player_points}
use asca_ci.Party.{
  World, Events, is_party, empty, disband, drop_player, leave_party, succeed_leader,
  clear_party_invitations, decline,
}

-- The player has no party and no invitation.
record IsGone (player : ℕ) (w : World) : Type 0 where
  no_party : w.party_of player ≡ none
  no_invitation : (j : ℕ) → count j (w.invitations player) ≡ 0

disband-IsGone :
    (ev : Events) (i player : ℕ) (p : Party) (w : World)
    → IsGone player w
    → IsGone player (disband ev i p w)
unfolding disband update
disband-IsGone ev i player p w g = elim (Bool-cases ev.on_disband) [
  | inl allowed ↦ rw allowed (record {
    no_party =
        ground
          (arith, clear_all_lem p.members (update w.party_of p.leader none) player, g.no_party);
    no_invitation = λ j.
        ground (arith, uninvite_all_lem i p.invitees w.invitations player j, g.no_invitation j);
  })
  | inr refused ↦ rw refused (record { no_party = g.no_party; no_invitation = g.no_invitation })
]

drop_player-IsGone :
    (ev : Events) (v : View) (i player : ℕ) (w : World) (missing : Bool) (p : Party)
    → ((j : ℕ) → count j (w.invitations player) ≡ 0)
    → IsGone player (drop_player ev v i player w (missing, p))
unfolding drop_player
drop_player-IsGone ev v i player w missing p none_held =
    let q =
      clear_player_points v player
        (update_shared_experience v (record p { members = erase player p.members })) in
    let w' = record w { party_of = update w.party_of player none } in
    let gone : IsGone player w' = record {
      no_party = update_self w.party_of player none;
      no_invitation = none_held;
    } in
    elim (Bool-cases (missing || empty q)) [
      | inl ends ↦ rw ends (disband-IsGone ev i player q w' gone)
      | inr stays ↦
          rw stays (record { no_party = gone.no_party; no_invitation = gone.no_invitation })
    ]

leave_party-IsGone :
    (ev : Events) (v : View) (i player : ℕ) (p : Party) (w : World)
    → is_party (w.party_of player) i ≡ true
    → ev.on_leave ≡ true
    → ((j : ℕ) → count j (w.invitations player) ≡ 0)
    → IsGone player (leave_party ev v i player p w).1
unfolding leave_party
leave_party-IsGone ev v i player p w mine leaves none_held =
    let r : Bool × Party =
      if p.leader == player then succeed_leader v i p w p.members else (false, p) in
    rw (mine, leaves) (drop_player-IsGone ev v i player w r.0 r.1 none_held)

clear-held :
    (ev : Events) (player : ℕ) (is : List ℕ) (w : World)
    → (clear_party_invitations ev player is w).invitations player ≡ []
unfolding clear_party_invitations
clear-held ev player [] w = update_self w.invitations player []
clear-held ev player (i ∷ is) w = clear-held ev player is (decline ev i player w (w.parties i))

at_pointer-mine :
    (w : World) (o : Option ℕ) (i : ℕ) (p : Party)
    → at_pointer w o ≡ some (i, p)
    → is_party o i ≡ true
at_pointer-mine w none i p e = absurd (ground (arith, e))
at_pointer-mine w (some j) i p e = elim (Option-cases (w.parties j)) [
  | inl deleted ↦ absurd (ground (arith, e, deleted))
  | inr (p', there) ↦
      let same : (j, p') ≡ (i, p) = some_inj (rw there at e) in
      let same_i : j ≡ i = ap (λ r. r.0) same in ground (arith, same_i)
]

-- A party that is found through a player's pointer is the player's.
party_at-mine :
    (w : World) (player i : ℕ) (p : Party)
    → party_at w player ≡ some (i, p)
    → is_party (w.party_of player) i ≡ true
unfolding party_at
party_at-mine w player i p e = at_pointer-mine w (w.party_of player) i p e

leave_from-IsGone :
    (g : Game) (ev : Events) (v : View) (player : ℕ) (w : World)
    → IsCoherent w
    → ev.on_leave ≡ true
    → w.invitations player ≡ []
    → (o : Option (ℕ × Party)) → party_at w player ≡ o
    → IsGone player (leave_from g ev v player w o)
unfolding leave_from party_at
leave_from-IsGone g ev v player w c leaves held none e = record {
  no_party = at_pointer-free w player c (w.party_of player) refl e;
  no_invitation = λ j. ap (count j) held;
}
leave_from-IsGone g ev v player w c leaves held (some (i, p)) e =
    leave_party-IsGone ev v i player p w (party_at-mine w player i p e) leaves
      (λ j. ap (count j) held)

-- After a logout that no script refuses, no party has a seat for the player or an invitation: no
-- party's lists lead to the player's memory, which is freed next.
pub log_out_leaves_no_trace :
    (g : Game) (ev : Events) (v : View) (w : World) (player : ℕ)
    → IsCoherent w
    → ev.on_disband ≡ true
    → ev.on_leave ≡ true
    → (j : ℕ)
    → (seats ((log_out g ev v player w).parties j) player ≡ 0)
      × (guests ((log_out g ev v player w).parties j) player ≡ 0)
log_out_leaves_no_trace g ev v w player c allowed leaves j =
    let after = log_out-IsCoherent g ev v w c player allowed in
    let gone : IsGone player (log_out g ev v player w) =
      unfold log_out in
      leave_from-IsGone g ev v player (clear_party_invitations ev player (w.invitations player) w)
        (declined-IsCoherent ev w player c allowed) leaves
        (clear-held ev player (w.invitations player) w) _ refl in
    (
      after.membership j player ∙ ap (λ o. here o j) gone.no_party,
      after.invitation j player ∙ gone.no_invitation j,
    )
