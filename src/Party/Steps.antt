-- ===== src/Party/Steps.antt =====
-- Each operation of a party keeps the pointers coherent.
use asca_ci.Base.Counts.{count, count-erase, count-remove, count-snoc, elem, erase, one, remove}
use asca_ci.Base.{
  update, ℕ, ◌+◌, ◌-◌, ◌<◌, ◌≡◌, refl, Bool, true, false, not, List, [], ◌∷◌, ◌++◌, none, some,
  ◌==◌, arith, Bool-cases, inl, inr, ◌||◌, ◌&&◌,
}
use asca_ci.Party.Coherent.{
  seats, guests, here, IsCoherent, IsAside, IsLocal-IsCoherent, disband-IsCoherent, here_unique,
  seat, guest,
}
use asca_ci.Party.Shared.{Party, View, update_shared_experience, clear_player_points, is_empty}
use asca_ci.Party.{
  World, Events, is_party, pass_party_leadership, succeed_leader, drop_player, leave_party,
  join_party, empty,
}

-- The players of a party stay the same where only its shared experience changes.
pub record IsSame (p p' : Party) : Type 0 where
  pub leader : p'.leader ≡ p.leader
  pub members : p'.members ≡ p.members
  pub invitees : p'.invitees ≡ p.invitees

pub update_shared-IsSame : (v : View) (p : Party) → IsSame p (update_shared_experience v p)
unfolding update_shared_experience
update_shared-IsSame v p = ground arith

pub clear_player_points-IsSame :
    (v : View) (q : ℕ) (p : Party) → IsSame p (clear_player_points v q p)
unfolding clear_player_points update_shared_experience
clear_player_points-IsSame v q p = ground arith

module _ (w : World) (i : ℕ) (p : Party) (c : IsCoherent w) (there : w.parties i ≡ some p) where
  pub join_party-IsCoherent :
      (ev : Events) (v : View) (player : ℕ)
      → w.party_of player ≡ none
      → IsCoherent (join_party ev v i player p w).1
  unfolding join_party update
  join_party-IsCoherent ev v player free = elim (Bool-cases ev.on_join) [
    | inr refused ↦ rw refused c
    | inl allowed ↦ elim (Bool-cases (elem player p.invitees)) [
      | inr absent ↦ rw (allowed, absent) c
      | inl present ↦
          let p1 : Party = record p {
            invitees = erase player p.invitees;
            members = p.members ++ player ∷ [];
          } in
          let k = update_shared-IsSame v p1 in
          rw (allowed, present)
            (IsLocal-IsCoherent w i (some (update_shared_experience v p1))
              (update w.party_of player (some i))
              (update w.invitations player (remove i (w.invitations player))) c
              (record {
                seated = λ q.
                    rw (k.leader, k.members)
                      (ground (arith, count-snoc q player p.members, seat w i p c there q, free));
                invited = λ q. rw k.invitees (
                    ground (
                      arith,
                      count-erase q player p.invitees,
                      count-remove i i (w.invitations player),
                      guest w i p c there q,
                      c.once i q,
                    ));
                aside = record {
                  few = λ q. ground (arith, count-remove i i (w.invitations player), c.once i q);
                  other_seats = λ q j other. ground (arith, free, other);
                  other_guests =
                      λ q j other. ground (arith, other, count-remove j i (w.invitations player));
                };
              }))
    ]
  ]

  -- The player's own party, left by its player.
  drop_player-IsCoherent :
      (ev : Events) (v : View) (player : ℕ) (missing : Bool) (p2 : Party)
      → ev.on_disband ≡ true
      → here (w.party_of player) i ≡ 1
      → p2.invitees ≡ p.invitees
      → ((q : ℕ) → one (p2.leader == q) + count q p2.members ≡ here (w.party_of q) i)
      → (missing || not (p2.leader == player)) ≡ true
      → IsCoherent (drop_player ev v i player w (missing, p2))
  unfolding drop_player update
  drop_player-IsCoherent ev v player missing p2 allowed mine inv sum leads =
      let p3 : Party = record p2 { members = erase player p2.members } in
      let p4 = update_shared_experience v p3 in
      let p5 = clear_player_points v player p4 in
      let k = update_shared-IsSame v p3 in
      let k' = clear_player_points-IsSame v player p4 in
      let f = update w.party_of player none in
      let same_seats : (q : ℕ)
          → seats (some p5) q ≡ one (p2.leader == q) + (count q p2.members - one (player == q)) =
        λ q.
          rw (k'.leader, k'.members, k.leader, k.members)
            (ground (arith, count-erase q player p2.members)) in
      let same_guests : (q : ℕ) → guests (some p5) q ≡ count i (w.invitations q) =
        λ q. rw (k'.invitees, k.invitees, inv) (guest w i p c there q) in
      let a : IsAside w i f w.invitations = record {
        few = λ q. c.once i q;
        other_seats = λ q j other. ground (arith, here_unique (w.party_of player) i j other mine);
        other_guests = λ q j other. refl;
      } in
      elim (Bool-cases (missing || empty p5)) [
        | inl ends ↦ rw ends (
            disband-IsCoherent ev w i p5 f w.invitations allowed c a
              (λ q. ground (arith, same_seats q, sum q))
              (λ q j other seated.
                ground (arith, same_seats q, sum q, seated, here_unique (w.party_of q) i j other))
              (λ q. ground (arith, same_guests q)))
        | inr stays ↦
            let led : (p2.leader == player) ≡ false = ground (arith, stays, leads) in
            rw stays (
              IsLocal-IsCoherent w i (some p5) f w.invitations c (record {
                seated = λ q. ground (arith, same_seats q, sum q, led, mine);
                invited = same_guests;
                aside = a;
              }))
      ]

  -- The party after the succession: its seats are the same, and `player` does not lead it unless
  -- the leader is missing.
  record IsSucceeded (player : ℕ) (r : Bool × Party) : Type 0 where
    invitees : r.1.invitees ≡ p.invitees
    sum : (q : ℕ) → one (r.1.leader == q) + count q r.1.members ≡ here (w.party_of q) i
    leads : (r.0 || not (r.1.leader == player)) ≡ true

  missing-IsSucceeded : (player : ℕ) → IsSucceeded player (true, p)
  missing-IsSucceeded player = record { invitees = refl; sum = seat w i p c there; leads = refl }

  pass-IsSucceeded :
      (v : View) (player m : ℕ)
      → (p.leader == player) ≡ true
      → 0 < count m p.members
      → IsSucceeded player (false, (pass_party_leadership v i m p w).1)
  unfolding pass_party_leadership
  pass-IsSucceeded v player m leads some_member =
      let goes : (p.leader == m || not (is_party (w.party_of m) i)) ≡ false =
        ground (arith, seat w i p c there m) in
      let p1 : Party = record p { leader = m; members = p.leader ∷ erase m p.members } in
      let k = update_shared-IsSame v p1 in
      rw goes (record {
        invitees = k.invitees;
        sum = λ q.
            rw (k.leader, k.members)
              (ground (arith, count-erase q m p.members, seat w i p c there q, some_member));
        leads = rw k.leader (ground (arith, goes, leads));
      })

  succeed_leader-IsSucceeded :
      (v : View) (player : ℕ) (ms : List ℕ)
      → (p.leader == player) ≡ true
      → p.members ≡ ms
      → IsSucceeded player (succeed_leader v i p w ms)
  succeed_leader-IsSucceeded v player [] leads e = missing-IsSucceeded player
  succeed_leader-IsSucceeded v player (m ∷ []) leads e = elim (Bool-cases (is_empty p.invitees)) [
    | inl alone ↦ rw alone (missing-IsSucceeded player)
    | inr awaited ↦ rw awaited (pass-IsSucceeded v player m leads (rw e (ground arith)))
  ]
  succeed_leader-IsSucceeded v player (m ∷ n ∷ ms) leads e =
      pass-IsSucceeded v player m leads (rw e (ground arith))

  pub leave_party-IsCoherent :
      (ev : Events) (v : View) (player : ℕ)
      → ev.on_disband ≡ true
      → IsCoherent (leave_party ev v i player p w).1
  unfolding leave_party
  leave_party-IsCoherent ev v player allowed =
      elim (Bool-cases (not (is_party (w.party_of player) i) && not (p.leader == player))) [
        | inl outside ↦ rw outside c
        | inr inside ↦ elim (Bool-cases ev.on_leave) [
          | inr refused ↦ rw (inside, refused) c
          | inl leaves ↦
              let mine : here (w.party_of player) i ≡ 1 =
                ground (arith, seat w i p c there player, inside) in
              elim (Bool-cases (p.leader == player)) [
                | inl leads ↦
                    let s = succeed_leader-IsSucceeded v player p.members leads refl in
                    rw (inside, leaves, leads)
                      (drop_player-IsCoherent ev v player (succeed_leader v i p w p.members).0
                        (succeed_leader v i p w p.members).1 allowed mine s.invitees s.sum s.leads)
                | inr follows ↦
                    rw (inside, leaves, follows)
                      (drop_player-IsCoherent ev v player false p allowed mine refl
                        (seat w i p c there) (rw follows refl))
              ]
        ]
      ]
