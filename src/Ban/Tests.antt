-- ===== src/Ban/Tests.antt =====
-- The limit on connections at concrete inputs.
use asca_ci.Base.{refl, List, [], ◌∷◌, arith}
use asca_ci.Ban.{find}
use asca_ci.Ban.Patient.{Attempt, Accepted, accept_connection-Accepted}

-- The first address waits; the second does not.
abbrev attempts : List Attempt
attempts = (1000, 1) ∷ (1001, 2) ∷ (1002, 2) ∷ (1501, 1) ∷ (1502, 2) ∷ (2002, 1) ∷ (2503, 1) ∷ []

accept_connection-Accepted_example : Accepted 1 attempts []
unfolding find
accept_connection-Accepted_example = accept_connection-Accepted 1 attempts [] refl (
  omega arith,
  λ e. tt,
  (
    omega arith,
    λ e. absurd (ground (arith, e)),
    (
      omega arith,
      λ e. absurd (ground (arith, e)),
      (
        omega arith,
        λ e. omega arith,
        (
          omega arith,
          λ e. absurd (ground (arith, e)),
          (omega arith, λ e. omega arith, (omega arith, λ e. omega arith, tt)),
        ),
      ),
    ),
  ),
)
