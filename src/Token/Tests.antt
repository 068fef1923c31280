-- ===== src/Token/Tests.antt =====
-- A hash that is all ones.
use asca_ci.Base.{ℕ, ◌≡◌, ◌*◌, ◌+◌, List, [], none, some, ltb, if◌then◌else◌, replicate}
use asca_ci.Token.Digits.{generate_token-last_digits, last_digits, power_of_ten}
use asca_ci.Token.{generate_token, truncate_hash, counter_bytes}

abbrev ones : List ℕ → List ℕ → List ℕ
ones key message = replicate 20 1

generate_token-last_digits_example : generate_token ones [] 1000 (4 + 2) ≡ (
    if ltb (truncate_hash (ones [] (counter_bytes 1000))) (10 * power_of_ten 4)
    then none
    else some (last_digits (4 + 2) (truncate_hash (ones [] (counter_bytes 1000)))))
generate_token-last_digits_example = generate_token-last_digits ones [] 1000 4
