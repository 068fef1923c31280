-- ===== src/Party/Tests.antt =====
-- A party of two.
use asca_ci.Base.{◌≡◌, true, false, List, [], ◌∷◌, none, refl, arith, ◌/◌, ◌*◌, ◌+◌}
use asca_ci.Party.Coherent.{IsCoherent, seats, guests}
use asca_ci.Party.Commands.{Game, Command, invites, joins, leaves, logs_out, log_out}
use asca_ci.Party.Commands.Logout.{log_out_leaves_no_trace}
use asca_ci.Party.Commands.Reachable.{run_commands, run_commands-IsCoherent}
use asca_ci.Party.Shared.{View}
use asca_ci.Party.{World, Events}

abbrev game : Game
game = record { online = λ p. true; in_fight = λ p. false; in_protection_zone = λ p. true }

abbrev view : View
view = record {
  level = λ p. 20;
  place = λ p. record { x = 100; y = 100; z = 7 };
  not_gain_in_fight = λ p. false;
  now = 5000;
  pz_locked = 60000;
  min_level = λ n. (2 * n + 2) / 3;
}

abbrev willing : Events
willing = record { on_join = true; on_leave = true; on_disband = true }

abbrev nobody : World
nobody = record { parties = λ i. none; party_of = λ p. none; invitations = λ p. [] }

nobody-IsCoherent : IsCoherent nobody
nobody-IsCoherent = record {
  membership = λ i p. refl;
  invitation = λ i p. refl;
  once = λ i p. omega arith;
}

abbrev commands : List (Events × Command)
commands =
    (willing, invites 100 1 2)
    ∷ (willing, joins 2 1)
    ∷ (willing, leaves 1)
    ∷ (willing, logs_out 2)
    ∷ []

run_commands-IsCoherent_example : IsCoherent (run_commands game view commands nobody)
run_commands-IsCoherent_example =
    run_commands-IsCoherent game view commands nobody nobody-IsCoherent
      (refl, refl, (refl, tt, (refl, tt, (refl, tt, tt))))

-- The world after the first two commands.
abbrev together : List (Events × Command)
together = (willing, invites 100 1 2) ∷ (willing, joins 2 1) ∷ []

together-IsCoherent : IsCoherent (run_commands game view together nobody)
together-IsCoherent =
    run_commands-IsCoherent game view together nobody nobody-IsCoherent (refl, refl, (refl, tt, tt))

log_out_leaves_no_trace_example :
    (seats ((log_out game willing view 2 (run_commands game view together nobody)).parties 100) 2
      ≡ 0)
    × (guests ((log_out game willing view 2 (run_commands game view together nobody)).parties 100) 2
        ≡ 0)
log_out_leaves_no_trace_example =
    log_out_leaves_no_trace game willing view (run_commands game view together nobody) 2
      together-IsCoherent refl refl 100
