-- ===== src/Chat/Tests.antt =====
-- A channel of two players.
use asca_ci.Base.{◌≡◌, true, List, [], ◌∷◌, arith}
use asca_ci.Chat.Private.{AreOrderly}
use asca_ci.Chat.Reachable.{
  run_commands-AreOrderly, mentions, mentions-remove_user_from_all_channels,
}
use asca_ci.Chat.{
  PrivateChatChannel, Command, creates, invites_to, opens, excludes, run_commands,
  remove_user_from_all_channels,
}

abbrev no_channels : List PrivateChatChannel
no_channels = []

none-AreOrderly : AreOrderly no_channels
none-AreOrderly = record { each = tt; one_each = λ q. omega arith; distinct = λ i. omega arith }

abbrev commands : List Command
commands = creates 1 ∷ invites_to 1 2 ∷ opens 2 100 ∷ creates 3 ∷ invites_to 3 2 ∷ excludes 1 4 ∷ []

run_commands-AreOrderly_example : AreOrderly (run_commands (λ p. true) commands no_channels)
run_commands-AreOrderly_example =
    run_commands-AreOrderly (λ p. true) commands no_channels none-AreOrderly

two_channels-AreOrderly : AreOrderly (run_commands (λ p. true) commands no_channels)
two_channels-AreOrderly = run_commands-AreOrderly (λ p. true) commands no_channels none-AreOrderly

mentions-remove_user_from_all_channels_example :
    mentions 2 (remove_user_from_all_channels 2 (run_commands (λ p. true) commands no_channels)) ≡ 0
mentions-remove_user_from_all_channels_example =
    mentions-remove_user_from_all_channels 2 (run_commands (λ p. true) commands no_channels)
      two_channels-AreOrderly
