-- ===== src/Party/Commands/Reachable.antt =====
-- No command ever leaves a dangling pointer.
use asca_ci.Base.{
  ◌≡◌, refl, true, not, List, [], ◌∷◌, none, ◌==◌, ◌||◌, arith, Bool-cases, inl, inr,
}
use asca_ci.Party.Coherent.{IsCoherent}
use asca_ci.Party.Commands.{
  Game, Command, invites, joins, revokes, passes, leaves, shares, logs_out, party_at, is_inviting,
  has_party, player_invite_to_party, player_join_party, player_revoke_party_invitation,
  player_pass_party_leadership, player_leave_party, player_enable_shared_party_experience,
  run_command,
}
use asca_ci.Party.Shared.{View}
use asca_ci.Party.{World, Events}
use asca_ci.Party.Commands.Each.{
  free_of, log_out-IsCoherent, invite_from-IsCoherent, join_to-IsCoherent, revoke_from-IsCoherent,
  pass_from-IsCoherent, leave_from-IsCoherent, share_in-IsCoherent,
}

-- A new party is made where there is none.
abbrev pub IsVacant : Command → World → Type 0
IsVacant (invites addr player invited) w = w.parties addr ≡ none
IsVacant _ w = Unit

run_command-IsCoherent :
    (g : Game) (ev : Events) (v : View) (cmd : Command) (w : World)
    → IsCoherent w
    → ev.on_disband ≡ true
    → IsVacant cmd w
    → IsCoherent (run_command g ev v cmd w)
unfolding run_command player_invite_to_party player_join_party player_revoke_party_invitation
    player_pass_party_leadership player_leave_party player_enable_shared_party_experience
run_command-IsCoherent g ev v (invites addr player invited) w c allowed vacant =
    elim (Bool-cases (
      player == invited
      || not (g.online player)
      || not (g.online invited)
      || is_inviting w invited player
      || has_party (w.party_of invited))) [
        | inl refused ↦ rw refused c
        | inr goes ↦
            rw goes (
              invite_from-IsCoherent g ev v w c addr player invited (party_at w player) vacant refl)
      ]
run_command-IsCoherent g ev v (joins player leader) w c allowed vacant =
    elim (Bool-cases (
      not (g.online player)
      || not (g.online leader)
      || not (is_inviting w leader player)
      || has_party (w.party_of player))) [
        | inl refused ↦ rw refused c
        | inr goes ↦ rw goes (
            join_to-IsCoherent g ev v w c player leader (party_at w leader)
              (free_of (w.party_of player) (ground (arith, goes))) refl)
      ]
run_command-IsCoherent g ev v (revokes player invited) w c allowed vacant =
    elim (Bool-cases (g.online player)) [
      | inl on ↦
          rw on (revoke_from-IsCoherent g ev v w c player invited (party_at w player) allowed refl)
      | inr off ↦ rw off c
    ]
run_command-IsCoherent g ev v (passes player leader) w c allowed vacant =
    elim (Bool-cases (g.online player)) [
      | inl on ↦ rw on (pass_from-IsCoherent g ev v w c player leader (party_at w player) refl)
      | inr off ↦ rw off c
    ]
run_command-IsCoherent g ev v (leaves player) w c allowed vacant =
    elim (Bool-cases (not (g.online player) || g.in_fight player)) [
      | inl refused ↦ rw refused c
      | inr goes ↦
          rw goes (leave_from-IsCoherent g ev v w c player (party_at w player) allowed refl)
    ]
run_command-IsCoherent g ev v (shares player active) w c allowed vacant =
    elim (Bool-cases (g.online player)) [
      | inl on ↦ rw on (share_in-IsCoherent g ev v w c player active (party_at w player) refl)
      | inr off ↦ rw off c
    ]
run_command-IsCoherent g ev v (logs_out player) w c allowed vacant =
    log_out-IsCoherent g ev v w c player allowed

-- Commands, with what the scripts answer to each.
unfoldable pub run_commands : Game → View → List (Events × Command) → World → World
run_commands g v [] w = w
run_commands g v ((ev, cmd) ∷ cmds) w = run_commands g v cmds (run_command g ev v cmd w)

-- The scripts let parties be disbanded, and the allocator gives addresses that are vacant.
abbrev pub AreAllowed : Game → View → List (Events × Command) → World → Type 0
AreAllowed g v [] w = Unit
AreAllowed g v ((ev, cmd) ∷ cmds) w =
    (ev.on_disband ≡ true) × IsVacant cmd w × AreAllowed g v cmds (run_command g ev v cmd w)

-- Commands of any players in any order keep the pointers between players and parties coherent, as
-- long as the scripts do not refuse to disband a party and a new party gets a vacant address: a
-- player's party exists and is the only one in which the player has a seat, a seat is never
-- taken twice, players and parties agree about invitations, and no pointer leads to a deleted
-- party.
pub run_commands-IsCoherent :
    (g : Game) (v : View) (cmds : List (Events × Command)) (w : World)
    → IsCoherent w
    → AreAllowed g v cmds w
    → IsCoherent (run_commands g v cmds w)
unfolding run_commands
run_commands-IsCoherent g v [] w c a = c
run_commands-IsCoherent g v ((ev, cmd) ∷ cmds) w c (allowed, vacant, rest) =
    run_commands-IsCoherent g v cmds (run_command g ev v cmd w)
      (run_command-IsCoherent g ev v cmd w c allowed vacant) rest
