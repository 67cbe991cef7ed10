-- ===== src/Engine/Reactions/Passed.antt =====
-- What follows when every player lets a dropped tile pass.
use go_mahjong.Common.{
  ℕ, ◌+◌, ◌%◌, ◌<◌, leb, false, ◌≡◌, refl, ◌∙◌, ap, [], ◌∷◌, none, arith, count_by-perm, Bool-cases,
  inl, inr,
}
use go_mahjong.Turn.{
  wait_main, wait_reactions, TurnManager, get_state, next_turn, stop_all_tickers,
  enter_choosing_phase, enter_drop_phase, enter_drop_phase_amid,
}
use go_mahjong.Engine.{OperationType, hu, gang, peng, chi, RiichiMahjong4p}
use go_mahjong.Engine.Turns.{is_wait_reactions}
use go_mahjong.Engine.Reactions.{
  MapOrder, chose, select_type, select_best_reaction, ron_seats, handle_reaction_complete,
}
use go_mahjong.Engine.Reactions.Priority.{Reactions, choices}

select_type-none :
    (type : OperationType) (rs : Reactions) → choices type rs ≡ 0 → select_type type rs ≡ none
unfolding select_type
select_type-none type [] h = refl
select_type-none type ((seat, r) ∷ rs) h = elim (Bool-cases (chose type r)) [
  | inl e ↦ absurd (ground (arith, e, h))
  | inr e ↦ rw e (select_type-none type rs (ground (arith, e, h)))
]

ron_seats-nil : (rs : Reactions) → choices hu rs ≡ 0 → ron_seats rs ≡ []
unfolding ron_seats
ron_seats-nil [] h = refl
ron_seats-nil ((seat, r) ∷ rs) h = elim (Bool-cases (chose hu r)) [
  | inl e ↦ absurd (ground (arith, e, h))
  | inr e ↦ rw e (ron_seats-nil rs (ground (arith, e, h)))
]

choices-visit :
    (order : MapOrder) (n : ℕ) (type : OperationType) (rs : Reactions)
    → choices type (order.visit n rs) ≡ choices type rs
choices-visit order n type rs = count_by-perm (λ e. chose type e.1) (order.visit-perm n rs)

-- Nobody chose a win, a kan, a triplet or a run.
pub record AllPass (rs : Reactions) : Type 0 where
  pub no_hu : choices hu rs ≡ 0
  pub no_gang : choices gang rs ≡ 0
  pub no_peng : choices peng rs ≡ 0
  pub no_chi : choices chi rs ≡ 0

select_best_reaction-none :
    (order : MapOrder) (rs : Reactions) → AllPass rs → select_best_reaction order rs ≡ none
unfolding select_best_reaction
select_best_reaction-none order rs p =
    let g = select_type-none gang (order.visit 1 rs) (choices-visit order 1 gang rs ∙ p.no_gang) in
    let q = select_type-none peng (order.visit 2 rs) (choices-visit order 2 peng rs ∙ p.no_peng) in
    let c = select_type-none chi (order.visit 3 rs) (choices-visit order 3 chi rs ∙ p.no_chi) in
    rw (g, q, c, select_best_reaction) refl

-- A seat of the table enters the drop phase.
enter_drop_phase-turn :
    (seat compensation : ℕ) (tm : TurnManager)
    → seat < 4
    → let tm' = (enter_drop_phase seat compensation tm).0 in
      tm' ≡ record { turn_pointer = seat; state = wait_main; tickers = tm'.tickers }
unfolding enter_drop_phase enter_drop_phase_amid stop_all_tickers
enter_drop_phase-turn seat compensation tm h =
    let small : leb 4 seat ≡ false = ground (arith, h) in rw small refl

-- In the phase of reactions, when nobody chose a win, a kan, a triplet or a run,
-- handleReactionComplete changes nothing but the turn and the clocks: the turn is that of the
-- seat after the current one, modulo 4, in the main phase, and neither the hands nor the wall
-- change, so no tile is drawn.
pub handle_reaction_complete-pass :
    (order : MapOrder) (eg : RiichiMahjong4p)
    → get_state eg.turn_manager ≡ wait_reactions
    → AllPass eg.reactions
    → let eg' = handle_reaction_complete order eg in
      eg' ≡ record eg {
        turn_manager = record {
          turn_pointer = (eg.turn_manager.turn_pointer + 1) % 4;
          state = wait_main;
          tickers = eg'.turn_manager.tickers;
        };
      }
unfolding handle_reaction_complete next_turn enter_choosing_phase stop_all_tickers
handle_reaction_complete-pass order eg state p =
    let ron =
      ron_seats-nil (order.visit 0 eg.reactions)
        (choices-visit order 0 hu eg.reactions ∙ p.no_hu) in
    let none_called = select_best_reaction-none order eg.reactions p in
    let next = (eg.turn_manager.turn_pointer + 1) % 4 in
    let chosen = enter_choosing_phase eg.turn_manager in
    let entered =
      enter_drop_phase-turn next 5 (record chosen { turn_pointer = next }) (omega arith) in
    simp (ap is_wait_reactions state, ron, none_called, handle_reaction_complete)
      (ap (λ tm. record eg { turn_manager = tm }) entered)
